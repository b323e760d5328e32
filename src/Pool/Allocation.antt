-- ===== src/Pool/Allocation.antt =====
-- The outcomes of `allocate` on a valid pool.
use cpp_robot_middleware.Prelude.{
  ℕ, zero, suc, ◌<◌, ◌≤◌, ◌≡◌, ◌⊎◌, inl, inr, refl, true, List, [], ◌∷◌, none, some, length, get_or,
  set, count, arith, inc64, leb, Bool-cases, Option-cases,
}
use cpp_robot_middleware.ErrorCode.{ok, message_too_large, pool_exhausted}
use cpp_robot_middleware.Pool.{
  MemoryPool, SizeClassMetadata, ChunkHeader, size_class, is_free, chunk_header, entry, free_list,
  no_chunk, no_class,
}
use cpp_robot_middleware.Pool.Allocate.{
  AllocationResult, find_class, take_chunk, allocate_from, allocate_in, allocate, loan_header,
  next_generation, failed,
}
use cpp_robot_middleware.Pool.Invariant.{IsValid, free_in}

-- The class that is found exists.
pub find_class-lt :
    (classes : List SizeClassMetadata) (size : ℕ) {c : ℕ}
    → find_class classes size ≡ some c
    → c < length classes
unfolding find_class
find_class-lt [] size e = cc
find_class-lt (x ∷ xs) size {c} e = elim (Bool-cases (leb size x.capacity)) [
  | inl t ↦ ground arith
  | inr t ↦ elim (Option-cases (find_class xs size)) [
    | inl f ↦ ground arith
    | inr (d, f) ↦ ground (arith, find_class-lt xs size f)
  ]
]

-- The class that is found is large enough.
pub find_class-le :
    (classes : List SizeClassMetadata) (size : ℕ) {c : ℕ}
    → find_class classes size ≡ some c
    → size ≤ (get_or classes c no_class).capacity
unfolding find_class
find_class-le [] size e = cc
find_class-le (x ∷ xs) size {c} e = elim (Bool-cases (leb size x.capacity)) [
  | inl t ↦ let z : c ≡ 0 = ground arith in rw z (ground arith)
  | inr t ↦ elim (Option-cases (find_class xs size)) [
    | inl f ↦ ground arith
    | inr (d, f) ↦ let z : c ≡ suc d = ground arith in rw z (find_class-le xs size f)
  ]
]

-- What is known of the chunk that is taken.
pub record Taken (p : MemoryPool) (c i : ℕ) (rest : List ℕ) : Type 0 where
  pub front : free_list p c ≡ i ∷ rest
  pub class_exists : c < length p.free_lists
  pub inside : i < length p.chunks
  pub was_free : is_free (chunk_header p i).state ≡ true
  pub own_class : (chunk_header p i).size_class_index ≡ c
  pub unreferenced : (chunk_header p i).ref_count ≡ 0

-- The pool after a chunk was taken, and what the caller gets.
abbrev pub taken : MemoryPool → ℕ → ℕ → ℕ → List ℕ → MemoryPool × AllocationResult
taken p size c i rest = (
  record p {
    chunks = set p.chunks i (loan_header (chunk_header p i) size);
    free_lists = set p.free_lists c rest;
    instrumentation = record p.instrumentation {
      allocations = inc64 p.instrumentation.allocations;
    };
  },
  record {
    error = ok;
    handle = record {
      pool_id = p.descriptor.pool_id;
      chunk_index = i;
      generation = next_generation (chunk_header p i).generation;
      payload_offset = (entry p i).payload_offset;
    };
    capacity = (chunk_header p i).capacity;
  },
)

abbrev pub exhausted : MemoryPool → MemoryPool × AllocationResult
exhausted p = (
  record p {
    instrumentation = record p.instrumentation {
      allocation_failures = inc64 p.instrumentation.allocation_failures;
    };
  },
  failed pool_exhausted,
)

-- An index past the chunks reads a header that is not free.
free-inside :
    (xs : List ChunkHeader) (i : ℕ) → is_free (get_or xs i no_chunk).state ≡ true → i < length xs
free-inside [] i e = cc
free-inside (x ∷ xs) zero e = omega arith
free-inside (x ∷ xs) (suc i) e = omega (arith, free-inside xs i e)

front-Taken :
    {p : MemoryPool} (c i : ℕ) (rest : List ℕ)
    → IsValid p
    → c < length p.free_lists
    → free_list p c ≡ i ∷ rest
    → Taken p c i rest
front-Taken {p} c i rest v h e =
    let counted : count i (free_list p c) ≡ suc (count i rest) = rw e (ground arith) in
    let member : free_in (chunk_header p i) c ≡ true = ground (arith, v.exact c i) in
    let was_free : is_free (chunk_header p i).state ≡ true = ground arith in
    record {
      front = e;
      class_exists = h;
      inside = free-inside p.chunks i was_free;
      was_free = was_free;
      own_class = ground arith;
      unreferenced = ground (arith, v.references i);
    }

take-taken :
    {p : MemoryPool} (size c i : ℕ) (rest : List ℕ)
    → Taken p c i rest
    → take_chunk p size c i rest ≡ taken p size c i rest
unfolding take_chunk
take-taken {p} size c i rest t = rw (t.was_free, t.unreferenced)

list_cases : (xs : List ℕ) → (xs ≡ []) ⊎ ((i : ℕ) × (rest : List ℕ) × (xs ≡ i ∷ rest))
list_cases [] = inl refl
list_cases (x ∷ xs) = inr (x, xs, refl)

-- On a valid pool `allocate` reports a request for which `find_if` gives no class, or counts and
-- reports that the class it gives has no free chunk, or takes the chunk at the back of the free list
-- of that class, which is FREE, unreferenced and of that class; it never finds one in use.
pub allocate-cases :
    {p : MemoryPool} (size : ℕ)
    → IsValid p
    → ((find_class p.size_classes size ≡ none) × (allocate p size ≡ (p, failed message_too_large)))
      ⊎ ((c : ℕ) × (find_class p.size_classes size ≡ some c)
          × (((free_list p c ≡ []) × (allocate p size ≡ exhausted p))
              ⊎ ((i : ℕ) × (rest : List ℕ) × Taken p c i rest
                  × (allocate p size ≡ taken p size c i rest))))
unfolding allocate allocate_in allocate_from
allocate-cases {p} size v = elim (Option-cases (find_class p.size_classes size)) [
  | inl e ↦ inl (e, rw (e, allocate, allocate_in))
  | inr (c, e) ↦ inr (
    c,
    e,
    elim (list_cases (free_list p c)) [
      | inl f ↦ inl (f, rw (e, allocate_in) (rw (f, allocate_from)))
      | inr (i, rest, f) ↦
          let t =
            front-Taken c i rest v (omega (arith, find_class-lt p.size_classes size e, v.classes))
              f in
          inr (i, rest, t, rw (e, allocate_in) (rw (f, allocate_from) (take-taken size c i rest t)))
    ],
  )
]

-- No class below `c` is large enough, and if none is found, none at all.
find_class-smaller :
    (classes : List SizeClassMetadata) (size : ℕ) {c : ℕ}
    → find_class classes size ≡ some c
    → (j : ℕ) → j < c
    → (get_or classes j no_class).capacity < size
unfolding find_class
find_class-smaller [] size e j b = cc
find_class-smaller (x ∷ xs) size {c} e zero b = elim (Bool-cases (leb size x.capacity)) [
  | inl t ↦ (let z : c ≡ 0 = ground arith in absurd (omega arith))
  | inr t ↦ ground arith
]
find_class-smaller (x ∷ xs) size {c} e (suc j) b = elim (Bool-cases (leb size x.capacity)) [
  | inl t ↦ (let z : c ≡ 0 = ground arith in absurd (omega arith))
  | inr t ↦ elim (Option-cases (find_class xs size)) [
    | inl f ↦ ground arith
    | inr (d, f) ↦
        (let z : c ≡ suc d = ground arith in find_class-smaller xs size f j (omega arith))
  ]
]

find_class-none :
    (classes : List SizeClassMetadata) (size : ℕ)
    → find_class classes size ≡ none
    → (j : ℕ) → j < length classes
    → (get_or classes j no_class).capacity < size
unfolding find_class
find_class-none [] size e j b = absurd (omega arith)
find_class-none (x ∷ xs) size e zero b = elim (Bool-cases (leb size x.capacity)) [
  | inl t ↦ ground arith
  | inr t ↦ ground arith
]
find_class-none (x ∷ xs) size e (suc j) b = elim (Bool-cases (leb size x.capacity)) [
  | inl t ↦ ground arith
  | inr t ↦ elim (Option-cases (find_class xs size)) [
    | inl f ↦ find_class-none xs size f j (omega arith)
    | inr (d, f) ↦ ground arith
  ]
]

-- On a valid pool `allocate` reports a request that is larger than the capacity of every class, and
-- changes nothing. Else it uses the first class whose capacity is not below the size, a request of exactly
-- that capacity included: when that class has no free chunk, it counts and reports that, and else it
-- takes the chunk at the back of its free list, which is FREE, unreferenced and of that class.
pub allocate_lem :
    {p : MemoryPool} (size : ℕ)
    → IsValid p
    → (((j : ℕ) → j < length p.size_classes → (size_class p j).capacity < size)
        × (allocate p size ≡ (p, failed message_too_large)))
      ⊎ ((c : ℕ) × (c < length p.size_classes)
          × (size ≤ (size_class p c).capacity)
          × ((j : ℕ) → j < c → (size_class p j).capacity < size)
          × (((free_list p c ≡ []) × (allocate p size ≡ exhausted p))
              ⊎ ((i : ℕ) × (rest : List ℕ) × Taken p c i rest
                  × (allocate p size ≡ taken p size c i rest))))
allocate_lem {p} size v = elim (allocate-cases size v) [
  | inl (e, refused) ↦ inl (find_class-none p.size_classes size e, refused)
  | inr (c, e, out) ↦ inr (
    c,
    find_class-lt p.size_classes size e,
    find_class-le p.size_classes size e,
    find_class-smaller p.size_classes size e,
    out,
  )
]
