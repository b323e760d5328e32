-- ===== src/Pool/Invariant.antt =====
-- What holds of a memory pool between two operations, and the three ways in which an operation
-- changes a chunk.
use cpp_robot_middleware.Prelude.{
  ℕ, ◌<◌, ◌≡◌, ◌∙◌, Bool, true, false, not, ◌&&◌, List, [], ◌∷◌, length, get_or, set, count,
  length-set, get_or-set, get_or-set_self, get_or-set_ne, arith, ℕ_discrete, ◌==◌, if◌then◌else◌,
}
use cpp_robot_middleware.Pool.{
  MemoryPool, ChunkHeader, PoolInstrumentation, is_free, is_published, chunk_header, entry,
  free_list, size_class, no_chunk,
}

-- A chunk is referenced exactly while it is published.
abbrev pub RefOk : ChunkHeader → Type 0
RefOk h = is_published h.state ≡ not (h.ref_count == 0)

abbrev pub free_in : ChunkHeader → ℕ → Bool
free_in h c = is_free h.state && h.size_class_index == c

-- `exact`: a free chunk stands exactly once in the free list of its class, and nothing else stands
-- in any free list.
pub record IsValid (p : MemoryPool) : Type 0 where
  pub sizes : length p.chunks ≡ length p.directory
  pub classes : length p.free_lists ≡ length p.size_classes
  pub class_in :
      (i : ℕ) → i < length p.chunks → (chunk_header p i).size_class_index < length p.free_lists
  pub class_of : (i : ℕ) → (chunk_header p i).size_class_index ≡ (entry p i).size_class_index
  pub capacity_of : (i : ℕ) → (chunk_header p i).capacity ≡ (entry p i).capacity
  pub class_capacity :
      (i : ℕ)
      → i < length p.chunks
      → (chunk_header p i).capacity ≡ (size_class p (chunk_header p i).size_class_index).capacity
  pub references : (i : ℕ) → RefOk (chunk_header p i)
  pub pool_of : (i : ℕ) → i < length p.chunks → (chunk_header p i).pool_id ≡ p.descriptor.pool_id
  pub topic_of : (i : ℕ) → i < length p.chunks → (chunk_header p i).topic_id ≡ p.descriptor.topic_id
  pub exact : (c i : ℕ) → count i (free_list p c) ≡ (if free_in (chunk_header p i) c then 1 else 0)

-- A header that may replace `h`: the layout of a chunk never changes.
pub record SameShape (h h' : ChunkHeader) : Type 0 where
  pub class_kept : h'.size_class_index ≡ h.size_class_index
  pub capacity_kept : h'.capacity ≡ h.capacity
  pub referenced : RefOk h'
  pub pool_kept : h'.pool_id ≡ h.pool_id
  pub topic_kept : h'.topic_id ≡ h.topic_id

module _ {p : MemoryPool} (v : IsValid p) (i : ℕ) (h : ChunkHeader) (inside : i < length p.chunks)
    (s : SameShape (chunk_header p i) h) where
  -- What a header that is replaced is, read at any index.
  abbrev read_back : ℕ → ChunkHeader
  read_back j = get_or (set p.chunks i h) j no_chunk

  class_in-set :
      (j : ℕ) → j < length (set p.chunks i h) → (read_back j).size_class_index < length p.free_lists
  class_in-set j b = ground (
    arith,
    get_or-set p.chunks i j h no_chunk inside,
    length-set p.chunks i h,
    v.class_in i inside,
    v.class_in j,
    s,
  )

  class_of-set : (j : ℕ) → (read_back j).size_class_index ≡ (entry p j).size_class_index
  class_of-set j =
      ground (arith, get_or-set p.chunks i j h no_chunk inside, v.class_of i, v.class_of j, s)

  capacity_of-set : (j : ℕ) → (read_back j).capacity ≡ (entry p j).capacity
  capacity_of-set j =
      ground (arith, get_or-set p.chunks i j h no_chunk inside, v.capacity_of i, v.capacity_of j, s)

  class_capacity-set :
      (j : ℕ)
      → j < length (set p.chunks i h)
      → (read_back j).capacity ≡ (size_class p (read_back j).size_class_index).capacity
  class_capacity-set j b = elim (ℕ_discrete i j) [
    | yes e ↦
        rw (← e, get_or-set_self p.chunks i h no_chunk inside, s.capacity_kept, s.class_kept)
          (v.class_capacity i inside)
    | no ne ↦
        rw (get_or-set_ne p.chunks h no_chunk ne)
          (v.class_capacity j (omega (arith, length-set p.chunks i h)))
  ]

  pool_of-set :
      (j : ℕ) → j < length (set p.chunks i h) → (read_back j).pool_id ≡ p.descriptor.pool_id
  pool_of-set j b = ground (
    arith,
    get_or-set p.chunks i j h no_chunk inside,
    length-set p.chunks i h,
    v.pool_of i inside,
    v.pool_of j,
    s,
  )

  topic_of-set :
      (j : ℕ) → j < length (set p.chunks i h) → (read_back j).topic_id ≡ p.descriptor.topic_id
  topic_of-set j b = ground (
    arith,
    get_or-set p.chunks i j h no_chunk inside,
    length-set p.chunks i h,
    v.topic_of i inside,
    v.topic_of j,
    s,
  )

  references-set : (j : ℕ) → RefOk (read_back j)
  references-set j =
      ground (arith, get_or-set p.chunks i j h no_chunk inside, v.references j, s.referenced)

  -- A change that keeps the chunk out of the free lists, or in them.
  pub kept-IsValid :
      (payload : ℕ → ℕ) (n : PoolInstrumentation)
      → is_free h.state ≡ is_free (chunk_header p i).state
      → IsValid (record p { chunks = set p.chunks i h; payload = payload; instrumentation = n })
  kept-IsValid payload n e = record {
    sizes = length-set p.chunks i h ∙ v.sizes;
    classes = v.classes;
    class_in = class_in-set;
    class_of = class_of-set;
    capacity_of = capacity_of-set;
    class_capacity = class_capacity-set;
    references = references-set;
    pool_of = pool_of-set;
    topic_of = topic_of-set;
    exact = λ c j. ground (arith, get_or-set p.chunks i j h no_chunk inside, v.exact c j, s);
  }

  -- A chunk that was not free goes to the free list of its class.
  pub freed-IsValid :
      (n : PoolInstrumentation)
      → is_free (chunk_header p i).state ≡ false
      → is_free h.state ≡ true
      → IsValid (record p {
        chunks = set p.chunks i h;
        free_lists = set p.free_lists h.size_class_index (i ∷ free_list p h.size_class_index);
        instrumentation = n;
      })
  freed-IsValid n before after =
      let k = h.size_class_index in
      let in_range : k < length p.free_lists = omega (arith, v.class_in i inside, s.class_kept) in
      let grown = length-set p.free_lists k (i ∷ free_list p k) in
      record {
        sizes = length-set p.chunks i h ∙ v.sizes;
        classes = grown ∙ v.classes;
        class_in = λ j b. omega (arith, class_in-set j b, grown);
        class_of = class_of-set;
        capacity_of = capacity_of-set;
        class_capacity = class_capacity-set;
        references = references-set;
        pool_of = pool_of-set;
        topic_of = topic_of-set;
        exact = λ c j. ground (
          arith,
          get_or-set p.chunks i j h no_chunk inside,
          get_or-set p.free_lists k c (i ∷ free_list p k) [] in_range,
          v.exact c j,
          v.exact k j,
          s,
        );
      }

  -- The chunk at the back of a free list leaves it.
  pub taken-IsValid :
      (c₀ : ℕ) (rest : List ℕ) (n : PoolInstrumentation)
      → c₀ < length p.free_lists
      → free_list p c₀ ≡ i ∷ rest
      → is_free h.state ≡ false
      → IsValid (record p {
        chunks = set p.chunks i h;
        free_lists = set p.free_lists c₀ rest;
        instrumentation = n;
      })
  taken-IsValid c₀ rest n in_range front after =
      let shrunk = length-set p.free_lists c₀ rest in
      record {
        sizes = length-set p.chunks i h ∙ v.sizes;
        classes = shrunk ∙ v.classes;
        class_in = λ j b. omega (arith, class_in-set j b, shrunk);
        class_of = class_of-set;
        capacity_of = capacity_of-set;
        class_capacity = class_capacity-set;
        references = references-set;
        pool_of = pool_of-set;
        topic_of = topic_of-set;
        exact = λ c j. ground (
          arith,
          get_or-set p.chunks i j h no_chunk inside,
          get_or-set p.free_lists c₀ c rest [] in_range,
          v.exact c j,
          v.exact c₀ j,
          v.exact c₀ i,
          v.exact c i,
          front,
          s,
        );
      }
