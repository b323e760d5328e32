-- ===== src/Pool/Apart.antt =====
-- Where the chunks of a layout of `makeLayout` lie.
use cpp_robot_middleware.Prelude.{
  ℕ, zero, suc, ◌+◌, ◌*◌, ◌/◌, ◌%◌, ◌<◌, ◌≤◌, ◌≡◌, subst, ◌||◌, ◌&&◌, List, [], ◌∷◌, ◌++◌, some,
  and_then-some, length-append, length, get_or, ltb, ◌==◌, ◌!=◌, u32_max, u64_max, arith,
  Bool-cases, inl, inr,
}
use cpp_robot_middleware.Pool.{SizeClassMetadata, ChunkDirectoryEntry, no_entry}
use cpp_robot_middleware.Pool.Construct.{
  MemoryPoolClassConfig, checked_multiply, checked_add, checked_align, make_classes, place_chunk,
  place_chunks, place_classes, metadata_offsets, make_layout, PoolLayout,
}
use cpp_robot_middleware.Pool.Layout.{
  Laid, Classed, place_classes-Laid, make_classes-Suffix, checked_add-eq, checked_align-some,
  bad_class,
}

-- The chunks of the classes together.
abbrev chunk_sum : List SizeClassMetadata → ℕ
chunk_sum [] = 0
chunk_sum (m ∷ ms) = m.chunk_count + chunk_sum ms

make_classes-sum :
    (items : List MemoryPoolClassConfig) (previous total : ℕ) {ms : List SizeClassMetadata} {n : ℕ}
    → make_classes items previous total ≡ some (ms, n)
    → n ≡ total + chunk_sum ms
unfolding make_classes
make_classes-sum [] previous total {ms} h =
    let none_left : ms ≡ [] = ground (arith, h) in rw none_left (ground (arith, h))
make_classes-sum (item ∷ items) previous total {ms} h =
    elim (Bool-cases (bad_class item previous total)) [
      | inl t ↦ (let none_made = rw t at h in cc)
      | inr t ↦
          let ((rest, last), e₁, h₁) = and_then-some _ _ (rw t at h) in
          let ih = make_classes-sum items item.chunk_size _ e₁ in ground (arith, h₁, ih)
    ]

place_chunks-length :
    (count k capacity start : ℕ) {es : List ChunkDirectoryEntry} {end : ℕ}
    → place_chunks count k capacity start ≡ some (es, end)
    → length es ≡ count
unfolding place_chunks
place_chunks-length zero k capacity start h = ground (arith, h)
place_chunks-length (suc count) k capacity start h =
    let ((c, next), e₁, h₁) = and_then-some (place_chunk k capacity start) _ h in
    let ((cs, last), e₂, h₂) = and_then-some (place_chunks count k capacity next) _ h₁ in
    ground (arith, h₂, place_chunks-length count k capacity next e₂)

place_classes-length :
    (ms : List SizeClassMetadata) (k start : ℕ) {es : List ChunkDirectoryEntry} {end : ℕ}
    → place_classes ms k start ≡ some (es, end)
    → length es ≡ chunk_sum ms
unfolding place_classes
place_classes-length [] k start h = ground (arith, h)
place_classes-length (m ∷ ms) k start {es} h =
    let ((c, next), e₁, h₁) = and_then-some (place_chunks m.chunk_count k m.capacity start) _ h in
    let ((cs, last), e₂, h₂) = and_then-some (place_classes ms (suc k) next) _ h₁ in
    let split : es ≡ c ++ cs = ground (arith, h₂) in
    rw split (
      omega (
        arith,
        length-append c cs,
        place_chunks-length m.chunk_count k m.capacity start e₁,
        place_classes-length ms (suc k) next e₂,
      ))

checked_multiply-some : (a b : ℕ) {c : ℕ} → checked_multiply a b ≡ some c → c ≡ a * b
unfolding checked_multiply
checked_multiply-some a b h = elim (Bool-cases (a != 0 && ltb (u64_max / a) b)) [
  | inl t ↦ (let none_made = rw t at h in cc)
  | inr t ↦ (let made = rw t at h in ground (arith, made))
]

metadata_offsets-le :
    (classes chunks : ℕ) {directory storage : ℕ}
    → metadata_offsets classes chunks ≡ some (directory, storage)
    → (directory ≡ 80 + classes * 24) × (directory + chunks * 32 ≤ storage)
unfolding metadata_offsets
metadata_offsets-le classes chunks {directory} {storage} h =
    let (a, e₁, h₁) = and_then-some (checked_multiply classes 24) _ h in
    let (b, e₂, h₂) = and_then-some (checked_multiply chunks 32) _ h₁ in
    let (c, e₃, h₃) = and_then-some (checked_add 80 a) _ h₂ in
    let (d, e₄, h₄) = and_then-some (checked_add c b) _ h₃ in
    let (f, e₅, h₅) = and_then-some (checked_align d 64) _ h₄ in
    let f₁ = checked_multiply-some classes 24 e₁ in
    let f₂ = checked_multiply-some chunks 32 e₂ in
    let f₃ = checked_add-eq 80 a e₃ in
    let f₄ = checked_add-eq c b e₄ in
    let f₅ = checked_align-some d e₅ in
    let is_c : c ≡ directory = ground (arith, h₅) in
    let is_f : f ≡ storage = ground (arith, h₅) in omega (arith, f₁, f₂, f₃, f₄, f₅, is_c, is_f)

-- The parts of a layout.
pub record Parts (config : List MemoryPoolClassConfig) (l : PoolLayout) : Type 0 where
  pub directory_offset : l.chunk_directory_offset ≡ 80 + length l.size_classes * 24
  pub storage : l.chunk_directory_offset + length l.directory * 32 ≤ l.chunk_storage_offset
  pub laid : Laid l.chunk_storage_offset l.directory l.segment_size
  pub classed : Classed l.size_classes l.directory

pub make_layout-Parts :
    (config : List MemoryPoolClassConfig) (l : PoolLayout)
    → make_layout config ≡ some l
    → Parts config l
unfolding make_layout
make_layout-Parts config l h =
    elim (Bool-cases (length config == 0 || ltb u32_max (length config))) [
      | inl t ↦ (let none_made = rw t at h in cc)
      | inr t ↦
          let ((ms, n), e₁, h₁) = and_then-some (make_classes config 0 0) _ (rw t at h) in
          let ((directory, storage), e₂, h₂) =
            and_then-some (metadata_offsets (length ms) n) _ h₁ in
          let ((es, end), e₃, h₃) = and_then-some (place_classes ms 0 storage) _ h₂ in
          let offsets = metadata_offsets-le (length ms) n e₂ in
          let (laid, classed) =
            place_classes-Laid ms ms 0 storage (make_classes-Suffix config [] 0 0 e₁) e₃ in
          let made : record {
            size_classes = ms;
            directory = es;
            segment_size = end;
            chunk_directory_offset = directory;
            chunk_storage_offset = storage;
          }
              ≡ l =
            cc in
          subst (Parts config) made (record {
            directory_offset = offsets.0;
            storage = omega (
              arith,
              offsets.1,
              make_classes-sum config 0 0 e₁,
              place_classes-length ms 0 storage e₃,
            );
            laid = laid;
            classed = classed;
          })
    ]

-- Chunk `i` of a directory that is laid out between `start` and `end`.
record Inside (start : ℕ) (e : ChunkDirectoryEntry) (end : ℕ) : Type 0 where
  pub after : start ≤ e.header_offset
  pub aligned : e.header_offset % 64 ≡ 0
  pub payload : e.payload_offset ≡ e.header_offset + 64
  pub before : e.payload_offset + e.capacity ≤ end

Laid-le : (es : List ChunkDirectoryEntry) (start end : ℕ) → Laid start es end → start ≤ end
Laid-le [] start end l = l
Laid-le (x ∷ es) start end l = omega (arith, l.0, l.2, Laid-le es _ end l.3)

Laid-Inside :
    (es : List ChunkDirectoryEntry) (start end i : ℕ)
    → Laid start es end
    → i < length es
    → Inside start (get_or es i no_entry) end
Laid-Inside [] start end i l b = absurd (omega arith)
Laid-Inside (x ∷ es) start end zero l b = record {
  after = l.0;
  aligned = l.1;
  payload = l.2;
  before = Laid-le es _ end l.3;
}
Laid-Inside (x ∷ es) start end (suc i) l b =
    let r = Laid-Inside es _ end i l.3 (omega arith) in
    record {
      after = omega (arith, l.0, l.2, r.after);
      aligned = r.aligned;
      payload = r.payload;
      before = r.before;
    }

Laid-apart :
    (es : List ChunkDirectoryEntry) (start end i j : ℕ)
    → Laid start es end
    → i < j
    → j < length es
    → (get_or es i no_entry).payload_offset + (get_or es i no_entry).capacity
      ≤ (get_or es j no_entry).header_offset
Laid-apart [] start end i j l lt b = absurd (omega arith)
Laid-apart (x ∷ es) start end zero zero l lt b = absurd (omega arith)
Laid-apart (x ∷ es) start end zero (suc j) l lt b = (Laid-Inside es _ end j l.3 (omega arith)).after
Laid-apart (x ∷ es) start end (suc i) zero l lt b = absurd (omega arith)
Laid-apart (x ∷ es) start end (suc i) (suc j) l lt b =
    Laid-apart es _ end i j l.3 (omega arith) (omega arith)

-- In a layout that `makeLayout` returns, the header of every chunk is a multiple of 64 and lies after
-- the pool header, the class table and the whole chunk directory; its payload follows the header at
-- once and ends inside the segment.
pub make_layout-inside :
    (config : List MemoryPoolClassConfig) (l : PoolLayout) (i : ℕ)
    → make_layout config ≡ some l
    → i < length l.directory
    → (80 + length l.size_classes * 24 + length l.directory * 32
        ≤ (get_or l.directory i no_entry).header_offset)
      × ((get_or l.directory i no_entry).header_offset % 64 ≡ 0)
      × ((get_or l.directory i no_entry).payload_offset
          ≡ (get_or l.directory i no_entry).header_offset + 64)
      × ((get_or l.directory i no_entry).payload_offset + (get_or l.directory i no_entry).capacity
          ≤ l.segment_size)
make_layout-inside config l i h b =
    let p = make_layout-Parts config l h in
    let r = Laid-Inside l.directory l.chunk_storage_offset l.segment_size i p.laid b in
    (omega (arith, p.directory_offset, p.storage, r.after), r.aligned, r.payload, r.before)

-- In a layout that `makeLayout` returns, the payload of a chunk ends before the header of any later
-- chunk, so no two chunks share a byte.
pub make_layout-apart :
    (config : List MemoryPoolClassConfig) (l : PoolLayout) (i j : ℕ)
    → make_layout config ≡ some l
    → i < j
    → j < length l.directory
    → (get_or l.directory i no_entry).payload_offset + (get_or l.directory i no_entry).capacity
      ≤ (get_or l.directory j no_entry).header_offset
make_layout-apart config l i j h lt b =
    Laid-apart l.directory l.chunk_storage_offset l.segment_size i j
      (make_layout-Parts config l h).laid lt b
