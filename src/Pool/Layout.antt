-- ===== src/Pool/Layout.antt =====
-- The loops of `makeLayout`, memory_pool.cpp: what they check and how they place chunks.
use cpp_robot_middleware.Prelude.{
  ℕ, zero, suc, ◌+◌, ◌-◌, ◌%◌, ◌<◌, ◌≤◌, ◌≡◌, refl, subst, Bool, ◌||◌, List, [], ◌∷◌, ◌++◌, some,
  and_then-some, append_assoc, length-append, length, get_or, ltb, leb, ◌==◌, u32_max, u64_max,
  arith, Bool-cases, inl, inr,
}
use cpp_robot_middleware.Pool.{SizeClassMetadata, ChunkDirectoryEntry, no_class}
use cpp_robot_middleware.Pool.Construct.{
  MemoryPoolClassConfig, checked_add, checked_align, make_classes, place_chunk, place_chunks,
  place_classes,
}

-- The chunks of a directory, one after the other from `start` to `end`.
abbrev pub Laid : ℕ → List ChunkDirectoryEntry → ℕ → Type 0
Laid start [] end = start ≤ end
Laid start (e ∷ es) end =
    (start ≤ e.header_offset)
    × (e.header_offset % 64 ≡ 0)
    × (e.payload_offset ≡ e.header_offset + 64)
    × Laid (e.payload_offset + e.capacity) es end

-- Every entry names a class and has its capacity, which fits in 32 bits.
abbrev pub Classed : List SizeClassMetadata → List ChunkDirectoryEntry → Type 0
Classed classes [] = Unit
Classed classes (e ∷ es) =
    (e.size_class_index < length classes)
    × (e.capacity ≡ (get_or classes e.size_class_index no_class).capacity)
    × (e.capacity ≤ u32_max)
    × Classed classes es

pub checked_add-some :
    (a b : ℕ) {c : ℕ} → checked_add a b ≡ some c → b ≤ u64_max → (c ≡ a + b) × (c ≤ u64_max)
unfolding checked_add
checked_add-some a b e h = elim (Bool-cases (ltb (u64_max - b) a)) [
  | inl t ↦ ground arith
  | inr t ↦ ground arith
]

pub checked_add-eq : (a b : ℕ) {c : ℕ} → checked_add a b ≡ some c → c ≡ a + b
unfolding checked_add
checked_add-eq a b e = elim (Bool-cases (ltb (u64_max - b) a)) [
  | inl t ↦ ground arith
  | inr t ↦ ground arith
]

pub checked_align-some : (v : ℕ) {c : ℕ} → checked_align v 64 ≡ some c → (v ≤ c) × (c % 64 ≡ 0)
unfolding checked_align
checked_align-some v e = elim (Bool-cases (v % 64 == 0)) [
  | inl t ↦ ground arith
  | inr t ↦ let s = checked_add-some v (64 - v % 64) (rw t at e) (omega arith) in omega (arith, s)
]

weaken-Laid : (es : List ChunkDirectoryEntry) (s m e : ℕ) → s ≤ m → Laid m es e → Laid s es e
weaken-Laid [] s m e le l = omega (arith, l)
weaken-Laid (x ∷ es) s m e le l = (omega (arith, l.0), l.1, l.2, l.3)

append-Laid :
    (xs ys : List ChunkDirectoryEntry) (s m e : ℕ) → Laid s xs m → Laid m ys e → Laid s (xs ++ ys) e
append-Laid [] ys s m e l k = weaken-Laid ys s m e l k
append-Laid (x ∷ xs) ys s m e l k = (l.0, l.1, l.2, append-Laid xs ys _ m e l.3 k)

append-Classed :
    (classes : List SizeClassMetadata) (xs ys : List ChunkDirectoryEntry)
    → Classed classes xs
    → Classed classes ys
    → Classed classes (xs ++ ys)
append-Classed classes [] ys l k = k
append-Classed classes (x ∷ xs) ys l k = (l.0, l.1, l.2, append-Classed classes xs ys l.3 k)

-- A chunk that is placed.
record Placed (class_index capacity start : ℕ) (e : ChunkDirectoryEntry) (end : ℕ) : Type 0 where
  after : start ≤ e.header_offset
  aligned : e.header_offset % 64 ≡ 0
  payload : e.payload_offset ≡ e.header_offset + 64
  own_class : e.size_class_index ≡ class_index
  own_capacity : e.capacity ≡ capacity
  before : e.payload_offset + capacity ≤ end

place_chunk-Placed :
    (k capacity start : ℕ) {e : ChunkDirectoryEntry} {end : ℕ}
    → capacity ≤ u32_max
    → place_chunk k capacity start ≡ some (e, end)
    → Placed k capacity start e end
unfolding place_chunk
place_chunk-Placed k capacity start small h =
    let (a, e₁, h₁) = and_then-some (checked_align start 64) _ h in
    let (b, e₂, h₂) = and_then-some (checked_add a 64) _ h₁ in
    let (c, e₃, h₃) = and_then-some (checked_add b capacity) _ h₂ in
    let (d, e₄, h₄) = and_then-some (checked_align c 64) _ h₃ in
    let f₁ = checked_align-some start e₁ in
    let f₂ = checked_add-some a 64 e₂ (omega arith) in
    let f₃ = checked_add-some b capacity e₃ (omega arith) in
    let f₄ = checked_align-some c e₄ in
    record {
      after = ground (arith, f₁, h₄);
      aligned = ground (arith, f₁, h₄);
      payload = ground (arith, f₂, h₄);
      own_class = ground (arith, h₄);
      own_capacity = ground (arith, h₄);
      before = ground (arith, f₃, f₄, h₄);
    }

module _ (classes : List SizeClassMetadata) (k capacity : ℕ) (in_range : k < length classes)
    (its : capacity ≡ (get_or classes k no_class).capacity) (small : capacity ≤ u32_max) where
  place_chunks-Laid :
      (count start : ℕ) {es : List ChunkDirectoryEntry} {end : ℕ}
      → place_chunks count k capacity start ≡ some (es, end)
      → Laid start es end × Classed classes es
  unfolding place_chunks
  place_chunks-Laid zero start {es} {end} h =
      let none_left : es ≡ [] = ground (arith, h) in rw none_left (ground (arith, h), tt)
  place_chunks-Laid (suc count) start {es} {end} h =
      let ((c, next), e₁, h₁) = and_then-some (place_chunk k capacity start) _ h in
      let ((cs, last), e₂, h₂) = and_then-some (place_chunks count k capacity next) _ h₁ in
      let p = place_chunk-Placed k capacity start small e₁ in
      let (l, q) = place_chunks-Laid count next e₂ in
      let split : es ≡ c ∷ cs = ground (arith, h₂) in
      let ends : last ≡ end = ground (arith, h₂) in
      rw split (
        (
          p.after,
          p.aligned,
          p.payload,
          weaken-Laid cs _ next end (omega (arith, p)) (subst (λ x. Laid next cs x) ends l),
        ),
        (
          omega (arith, p.own_class),
          rw (p.own_class, p.own_capacity) its,
          omega (arith, p.own_capacity),
          q,
        ),
      )

-- The classes that start at index `k` are `ms`.
abbrev Suffix : List SizeClassMetadata → ℕ → List SizeClassMetadata → Type 0
Suffix classes k [] = Unit
Suffix classes k (m ∷ ms) =
    (k < length classes)
    × (m.capacity ≡ (get_or classes k no_class).capacity)
    × (m.capacity ≤ u32_max)
    × Suffix classes (suc k) ms

pub place_classes-Laid :
    (classes ms : List SizeClassMetadata) (k start : ℕ) {es : List ChunkDirectoryEntry} {end : ℕ}
    → Suffix classes k ms
    → place_classes ms k start ≡ some (es, end)
    → Laid start es end × Classed classes es
unfolding place_classes
place_classes-Laid classes [] k start {es} {end} s h =
    let none_left : es ≡ [] = ground (arith, h) in rw none_left (ground (arith, h), tt)
place_classes-Laid classes (m ∷ ms) k start {es} {end} s h =
    let ((c, next), e₁, h₁) = and_then-some (place_chunks m.chunk_count k m.capacity start) _ h in
    let ((cs, last), e₂, h₂) = and_then-some (place_classes ms (suc k) next) _ h₁ in
    let (l, q) = place_chunks-Laid classes k m.capacity s.0 s.1 s.2 m.chunk_count start e₁ in
    let (l₂, q₂) = place_classes-Laid classes ms (suc k) next s.3 e₂ in
    let split : es ≡ c ++ cs = ground (arith, h₂) in
    let ends : last ≡ end = ground (arith, h₂) in
    rw split (
      append-Laid c cs start next end l (subst (λ x. Laid next cs x) ends l₂),
      append-Classed classes c cs q q₂,
    )

abbrev pub bad_class : MemoryPoolClassConfig → ℕ → ℕ → Bool
bad_class item previous total =
    item.chunk_size == 0
    || ltb u32_max item.chunk_size
    || item.chunk_count == 0
    || leb item.chunk_size previous
    || ltb (u32_max - item.chunk_count) total

abbrev class_made : MemoryPoolClassConfig → ℕ → SizeClassMetadata
class_made item total = record {
  capacity = item.chunk_size;
  first_chunk_index = total;
  chunk_count = item.chunk_count;
}

-- The element after a prefix.
get_or-append :
    (before ms : List SizeClassMetadata) (m : SizeClassMetadata)
    → (get_or (before ++ (m ∷ ms)) (length before) no_class ≡ m)
      × (length before < length (before ++ (m ∷ ms)))
get_or-append [] ms m = (refl, omega arith)
get_or-append (x ∷ xs) ms m = let h = get_or-append xs ms m in (h.0, omega (arith, h.1))

-- What the class loop checked, for the suffix that starts at the length of `before`.
pub make_classes-Suffix :
    (items : List MemoryPoolClassConfig) (before : List SizeClassMetadata) (previous total : ℕ)
    {ms : List SizeClassMetadata} {n : ℕ}
    → make_classes items previous total ≡ some (ms, n)
    → Suffix (before ++ ms) (length before) ms
unfolding make_classes
make_classes-Suffix [] before previous total {ms} h =
    let none_left : ms ≡ [] = ground (arith, h) in rw none_left tt
make_classes-Suffix (item ∷ items) before previous total {ms} h =
    elim (Bool-cases (bad_class item previous total)) [
      | inl t ↦ (let none_made = rw t at h in cc)
      | inr t ↦
          let ((rest, last), e₁, h₁) = and_then-some _ _ (rw t at h) in
          let m = class_made item total in
          let split : ms ≡ m ∷ rest = ground (arith, h₁) in
          let ih = make_classes-Suffix items (before ++ (m ∷ [])) item.chunk_size _ e₁ in
          let at_end = get_or-append before rest m in
          rw split (
            at_end.1,
            rw at_end.0 refl,
            ground (arith, t),
            subst (λ n. Suffix (before ++ (m ∷ rest)) n rest)
                (omega (arith, length-append before (m ∷ [])))
                (subst (λ l. Suffix l (length (before ++ (m ∷ []))) rest)
                  (append_assoc before (m ∷ []) rest) ih),
          )
    ]
