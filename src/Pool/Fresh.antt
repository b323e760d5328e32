-- ===== src/Pool/Fresh.antt =====
-- The pool that `create` returns, and the invariant of Pool/Invariant.
use cpp_robot_middleware.Prelude.{
  ℕ, zero, suc, ◌+◌, ◌<◌, ◌≤◌, ◌≡◌, refl, true, ap, sym, subst, ◌∙◌, ◌||◌, ◌&&◌, List, [], ◌∷◌,
  some, and_then-some, length, get_or, set, replicate, map, count, length-set, length-replicate,
  get_or-set, ltb, ◌==◌, ◌!=◌, if◌then◌else◌, u32_max, arith, Bool-cases, lt→ltb, inl, inr,
}
use cpp_robot_middleware.PoolProtocol.{PoolDescriptor, pool_layout_version}
use cpp_robot_middleware.Pool.{
  MemoryPool, SizeClassMetadata, ChunkDirectoryEntry, free, no_entry, no_class, no_chunk,
  chunk_header, entry, free_list,
}
use cpp_robot_middleware.Pool.Invariant.{IsValid, free_in}
use cpp_robot_middleware.Pool.Construct.{
  MemoryPoolClassConfig, fresh_chunk, fill_free_lists, class_indices, new_pool, create, PoolLayout,
  make_layout,
}
use cpp_robot_middleware.Pool.Layout.{Classed}
use cpp_robot_middleware.Pool.Apart.{make_layout-Parts}

length-map : {A B : Type 0} (f : A → B) (xs : List A) → length (map f xs) ≡ length xs
length-map f [] = refl
length-map f (x ∷ xs) = ap suc (length-map f xs)

get_or-map :
    {A B : Type 0} (f : A → B) (xs : List A) (i : ℕ) (a : A) (b : B)
    → get_or (map f xs) i b ≡ (if ltb i (length xs) then f (get_or xs i a) else b)
get_or-map f [] i a b = ground arith
get_or-map f (x ∷ xs) zero a b = ground arith
get_or-map f (x ∷ xs) (suc i) a b = ground (arith, get_or-map f xs i a b)

get_or-replicate : (n c : ℕ) → get_or (replicate {A = List ℕ} n []) c [] ≡ []
get_or-replicate zero c = refl
get_or-replicate (suc n) zero = refl
get_or-replicate (suc n) (suc c) = get_or-replicate n c

Classed-at :
    (classes : List SizeClassMetadata) (es : List ChunkDirectoryEntry) (i : ℕ)
    → Classed classes es
    → i < length es
    → ((get_or es i no_entry).size_class_index < length classes)
      × ((get_or es i no_entry).capacity
          ≡ (get_or classes (get_or es i no_entry).size_class_index no_class).capacity)
      × ((get_or es i no_entry).capacity ≤ u32_max)
Classed-at classes [] i l b = absurd (omega arith)
Classed-at classes (e ∷ es) zero l b = (l.0, l.1, l.2)
Classed-at classes (e ∷ es) (suc i) l b = Classed-at classes es i l.3 (omega arith)

length-fill_free_lists :
    (n : ℕ) (cs : List ℕ) (ls : List (List ℕ)) → length (fill_free_lists n cs ls) ≡ length ls
unfolding fill_free_lists
length-fill_free_lists zero cs ls = refl
length-fill_free_lists (suc n) cs ls =
    let c = get_or cs n 0 in
    length-fill_free_lists n cs (set ls c (n ∷ get_or ls c []))
    ∙ length-set ls c (n ∷ get_or ls c [])

-- The constructor's loop puts every chunk once in the list of its class.
count-fill_free_lists :
    (n : ℕ) (cs : List ℕ) (ls : List (List ℕ)) (c i : ℕ)
    → ((j : ℕ) → j < n → get_or cs j 0 < length ls)
    → count i (get_or (fill_free_lists n cs ls) c [])
      ≡ count i (get_or ls c []) + (if ltb i n && get_or cs i 0 == c then 1 else 0)
unfolding fill_free_lists
count-fill_free_lists zero cs ls c i inside = ground arith
count-fill_free_lists (suc n) cs ls c i inside =
    let k = get_or cs n 0 in
    let ls' = set ls k (n ∷ get_or ls k []) in
    let ih =
      count-fill_free_lists n cs ls' c i
        (λ j b. omega (arith, inside j (omega arith), length-set ls k (n ∷ get_or ls k []))) in
    let read = get_or-set ls k c (n ∷ get_or ls k []) [] (inside n (omega arith)) in
    ih
    ∙ rw read (elim (Bool-cases (n == i)) [
      | inl same ↦ (let e : n ≡ i = ground arith in ground arith)
      | inr other ↦ ground arith
    ])

get_or-past : {A : Type 0} (xs : List A) (i : ℕ) (a : A) → length xs ≤ i → get_or xs i a ≡ a
get_or-past [] i a b = refl
get_or-past (x ∷ xs) zero a b = absurd (omega arith)
get_or-past (x ∷ xs) (suc i) a b = get_or-past xs i a (omega arith)

module _ (d : PoolDescriptor) (l : PoolLayout) (v : Classed l.size_classes l.directory) where
  abbrev pool : MemoryPool
  pool = new_pool d l

  header_at :
      (i : ℕ)
      → chunk_header pool i
        ≡ (if ltb i (length l.directory) then fresh_chunk d (entry pool i) else no_chunk)
  unfolding new_pool
  header_at i = get_or-map (fresh_chunk d) l.directory i no_entry no_chunk

  class_at : (i : ℕ) → get_or (class_indices l.directory) i 0 ≡ (entry pool i).size_class_index
  unfolding new_pool
  class_at i = elim (Bool-cases (ltb i (length l.directory))) [
    | inl t ↦ get_or-map (λ e. e.size_class_index) l.directory i no_entry 0 ∙ rw t refl
    | inr t ↦
        get_or-map (λ e. e.size_class_index) l.directory i no_entry 0
        ∙ rw (t, get_or-past l.directory i no_entry (ground arith)) refl
  ]

  classes-kept : length pool.free_lists ≡ length l.size_classes
  unfolding new_pool
  classes-kept =
      length-fill_free_lists (length l.directory) (class_indices l.directory)
        (replicate (length l.size_classes) [])
      ∙ length-replicate (length l.size_classes) []

  exact-new :
      (c i : ℕ) → count i (free_list pool c) ≡ (if free_in (chunk_header pool i) c then 1 else 0)
  unfolding new_pool
  exact-new c i =
      let filled =
        count-fill_free_lists (length l.directory) (class_indices l.directory)
          (replicate (length l.size_classes) []) c i
          (λ j b. omega (
            arith,
            class_at j,
            Classed-at l.size_classes l.directory j v b,
            length-replicate {A = List ℕ} (length l.size_classes) [],
          )) in
      filled
      ∙ rw (get_or-replicate (length l.size_classes) c, class_at i, header_at i)
          (elim (Bool-cases (ltb i (length l.directory))) [
            | inl t ↦ rw t (omega arith)
            | inr t ↦ rw t (omega arith)
          ])

  new_pool-IsValid : IsValid pool
  unfolding new_pool
  new_pool-IsValid = record {
    sizes = length-map (fresh_chunk d) l.directory;
    classes = classes-kept;
    class_in = λ i b.
        let inside : i < length l.directory =
          omega (arith, b, length-map (fresh_chunk d) l.directory) in
        rw (header_at i, lt→ltb _ _ inside)
          (omega (arith, classes-kept, Classed-at l.size_classes l.directory i v inside));
    class_of = λ i. rw (header_at i) (elim (Bool-cases (ltb i (length l.directory))) [
      | inl t ↦ rw t refl
      | inr t ↦ rw (t, get_or-past l.directory i no_entry (ground arith)) refl
    ]);
    capacity_of = λ i. rw (header_at i) (elim (Bool-cases (ltb i (length l.directory))) [
      | inl t ↦ rw t (omega (arith, Classed-at l.size_classes l.directory i v (ground arith)))
      | inr t ↦ rw (t, get_or-past l.directory i no_entry (ground arith)) refl
    ]);
    class_capacity = λ i b.
        let inside : i < length l.directory =
          omega (arith, b, length-map (fresh_chunk d) l.directory) in
        let c = Classed-at l.size_classes l.directory i v inside in
        rw (header_at i, lt→ltb _ _ inside) (omega (arith, c.1, c.2));
    references = λ i.
        rw (header_at i) (elim (Bool-cases (ltb i (length l.directory))) [
          | inl t ↦ rw t refl
          | inr t ↦ rw t refl
        ]);
    pool_of = λ i b.
        let inside : i < length l.directory =
          omega (arith, b, length-map (fresh_chunk d) l.directory) in
        rw (header_at i, lt→ltb _ _ inside) refl;
    topic_of = λ i b.
        let inside : i < length l.directory =
          omega (arith, b, length-map (fresh_chunk d) l.directory) in
        rw (header_at i, lt→ltb _ _ inside) refl;
    exact = exact-new;
  }

-- What `create` returns is the pool of the layout.
create-new_pool :
    (d : PoolDescriptor) (config : List MemoryPoolClassConfig) (p : MemoryPool)
    → create d config ≡ some p
    → (l : PoolLayout) × (make_layout config ≡ some l) × (new_pool d l ≡ p)
unfolding create
create-new_pool d config p h =
    elim (Bool-cases
      (d.pool_id == 0 || d.topic_id == 0 || d.layout_version != pool_layout_version)) [
        | inl t ↦ (let none_made = rw t at h in cc)
        | inr t ↦
            let (l, e, h₁) = and_then-some (make_layout config) _ (rw t at h) in
            elim (Bool-cases (d.segment_size != l.segment_size)) [
              | inl u ↦ (let none_made = rw u at h₁ in cc)
              | inr u ↦ (let some_made = rw u at h₁ in (l, e, cc))
            ]
      ]

-- A pool that `create` returns satisfies the invariant.
pub create-IsValid :
    (d : PoolDescriptor) (config : List MemoryPoolClassConfig) (p : MemoryPool)
    → create d config ≡ some p
    → IsValid p
create-IsValid d config p h =
    let (l, e, made) = create-new_pool d config p h in
    subst IsValid made (new_pool-IsValid d l (make_layout-Parts config l e).classed)

-- A chunk that waits for its first loan: FREE, unreferenced, with no generation, and exactly once in
-- the free list of its class.
pub record Unused (p : MemoryPool) (i : ℕ) : Type 0 where
  pub state : (chunk_header p i).state ≡ free
  pub unreferenced : (chunk_header p i).ref_count ≡ 0
  pub generation : (chunk_header p i).generation ≡ 0
  pub listed : count i (free_list p (chunk_header p i).size_class_index) ≡ 1

new_pool-Unused :
    (d : PoolDescriptor) (l : PoolLayout)
    → Classed l.size_classes l.directory
    → (i : ℕ) → i < length (new_pool d l).chunks
    → Unused (new_pool d l) i
unfolding new_pool
new_pool-Unused d l v i b =
    let inside : ltb i (length l.directory) ≡ true =
      lt→ltb _ _ (omega (arith, b, length-map (fresh_chunk d) l.directory)) in
    let made : chunk_header (new_pool d l) i ≡ fresh_chunk d (entry (new_pool d l) i) =
      rw (header_at d l v i, inside) refl in
    record {
      state = rw made refl;
      unreferenced = rw made refl;
      generation = rw made refl;
      listed =
          exact-new d l v (chunk_header (new_pool d l) i).size_class_index i
          ∙ rw made (ground arith);
    }

-- A pool that `create` returns has the directory of the layout of its configuration and satisfies the invariant.
-- Every chunk is FREE and unreferenced, and stands exactly once in the free list of its class.
pub create_lem :
    (d : PoolDescriptor) (config : List MemoryPoolClassConfig) (p : MemoryPool)
    → create d config ≡ some p
    → (l : PoolLayout) × (make_layout config ≡ some l)
      × (p.directory ≡ l.directory)
      × (length p.chunks ≡ length l.directory)
      × IsValid p
      × ((i : ℕ) → i < length p.chunks → Unused p i)
unfolding new_pool
create_lem d config p h =
    let (l, e, made) = create-new_pool d config p h in
    let v = (make_layout-Parts config l e).classed in
    (
      l,
      e,
      ap (λ (r : MemoryPool). r.directory) (sym made),
      subst (λ (r : MemoryPool). length r.chunks ≡ length l.directory) made
          (length-map (fresh_chunk d) l.directory),
      create-IsValid d config p h,
      subst (λ (r : MemoryPool). (i : ℕ) → i < length r.chunks → Unused r i) made
          (new_pool-Unused d l v),
    )
