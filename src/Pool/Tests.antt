-- ===== src/Pool/Tests.antt =====
-- A pool with two chunks of 64 bytes and one of 128, from its configuration to a full cycle of a loan.
use cpp_robot_middleware.Prelude.{
  ℕ, ◌+◌, ◌*◌, ◌%◌, ◌≤◌, ◌≡◌, ◌⊎◌, refl, ◌++◌, true, false, List, [], ◌∷◌, some, arith, replicate,
  length, ◌<◌,
}
use cpp_robot_middleware.ErrorCode.{ok, message_too_large}
use cpp_robot_middleware.Handle.{ChunkHandle}
use cpp_robot_middleware.PoolProtocol.{PoolDescriptor}
use cpp_robot_middleware.Pool.{MemoryPool, size_class, chunk_header, free_list, known, released}
use cpp_robot_middleware.Pool.Construct.{
  MemoryPoolClassConfig, PoolLayout, make_layout, create, new_pool,
}
use cpp_robot_middleware.Pool.Allocate.{allocate, failed}
use cpp_robot_middleware.Pool.Publish.{publish_loaned}
use cpp_robot_middleware.Pool.Release.{release, reclaim}
use cpp_robot_middleware.Pool.Invariant.{IsValid}
use cpp_robot_middleware.Pool.Allocation.{allocate_lem, Taken, taken, exhausted}
use cpp_robot_middleware.Pool.Preservation.{
  Call, allocates, publishes, releases, reclaims, step, run, run-IsValid,
}
use cpp_robot_middleware.Pool.Lifecycle.{Moves, step-Moves}
use cpp_robot_middleware.Pool.References.{Held, release_times, release_times-Held}
use cpp_robot_middleware.Pool.Handles.{Loan, allocate-Loan, allocate-stale, loan_cycle}
use cpp_robot_middleware.Pool.Apart.{make_layout-inside, make_layout-apart}
use cpp_robot_middleware.Pool.Fresh.{create-IsValid, Unused, create_lem}
use cpp_robot_middleware.Pool.View.{Segment, view_opens, read}
use cpp_robot_middleware.Pool.Reading.{read-inside, read-publish_loaned}
use cpp_robot_middleware.Pool.Construct.{fresh_chunk}
use cpp_robot_middleware.Pool.Preservation.{allocate-IsValid}
use cpp_robot_middleware.Pool.{ChunkHeader, published}

abbrev config : List MemoryPoolClassConfig
config =
    record { chunk_size = 64; chunk_count = 2 } ∷ record { chunk_size = 128; chunk_count = 1 } ∷ []

abbrev descriptor : PoolDescriptor
descriptor = record {
  shm_name = 47 ∷ 112 ∷ [];
  pool_id = 5;
  segment_size = 704;
  topic_id = 9;
  layout_version = 1;
}

abbrev layout : PoolLayout
layout = record {
  size_classes =
      record { capacity = 64; first_chunk_index = 0; chunk_count = 2 }
      ∷ record { capacity = 128; first_chunk_index = 2; chunk_count = 1 }
      ∷ [];
  directory =
      record { header_offset = 256; payload_offset = 320; capacity = 64; size_class_index = 0 }
      ∷ record { header_offset = 384; payload_offset = 448; capacity = 64; size_class_index = 0 }
      ∷ record { header_offset = 512; payload_offset = 576; capacity = 128; size_class_index = 1 }
      ∷ [];
  segment_size = 704;
  chunk_directory_offset = 128;
  chunk_storage_offset = 256;
}

layout_made : make_layout config ≡ some layout
unfolding make_layout
layout_made = refl

abbrev fresh : MemoryPool
fresh = new_pool descriptor layout

fresh_made : create descriptor config ≡ some fresh
unfolding create make_layout
fresh_made = refl

make_layout-inside_example :
    (80 + 2 * 24 + 3 * 32 ≤ 512) × (512 % 64 ≡ 0) × (576 ≡ 512 + 64) × (576 + 128 ≤ 704)
make_layout-inside_example = make_layout-inside config layout 2 layout_made (omega arith)

make_layout-apart_example : 320 + 64 ≤ 384
make_layout-apart_example =
    make_layout-apart config layout 0 1 layout_made (omega arith) (omega arith)

create_lem_example :
    (l : PoolLayout) × (make_layout config ≡ some l)
    × (fresh.directory ≡ l.directory)
    × (length fresh.chunks ≡ length l.directory)
    × IsValid fresh
    × ((i : ℕ) → i < length fresh.chunks → Unused fresh i)
create_lem_example = create_lem descriptor config fresh fresh_made

abbrev cycle : List Call
cycle =
    allocates 50
    ∷ publishes (record { pool_id = 5; chunk_index = 0; generation = 1; payload_offset = 320 }) 50 1
        7 1
    ∷ releases (record { pool_id = 5; chunk_index = 0; generation = 1; payload_offset = 320 })
    ∷ reclaims (record { pool_id = 5; chunk_index = 0; generation = 1; payload_offset = 320 })
    ∷ []

run-IsValid_example : IsValid (run fresh cycle)
run-IsValid_example = run-IsValid cycle (create-IsValid descriptor config fresh fresh_made)

step-Moves_example : Moves fresh (step fresh (allocates 50))
step-Moves_example = step-Moves (create-IsValid descriptor config fresh fresh_made) (allocates 50)

allocate_lem_example :
    (((j : ℕ) → j < length fresh.size_classes → (size_class fresh j).capacity < 64)
      × (allocate fresh 64 ≡ (fresh, failed message_too_large)))
    ⊎ ((c : ℕ) × (c < length fresh.size_classes)
        × (64 ≤ (size_class fresh c).capacity)
        × ((j : ℕ) → j < c → (size_class fresh j).capacity < 64)
        × (((free_list fresh c ≡ []) × (allocate fresh 64 ≡ exhausted fresh))
            ⊎ ((i : ℕ) × (rest : List ℕ) × Taken fresh c i rest
                × (allocate fresh 64 ≡ taken fresh 64 c i rest))))
allocate_lem_example = allocate_lem 64 (create-IsValid descriptor config fresh fresh_made)

allocate_good : (allocate fresh 50).1.error ≡ ok
unfolding allocate new_pool
allocate_good = refl

allocate-Loan_example : Loan (allocate fresh 50).0 (allocate fresh 50).1.handle 50
allocate-Loan_example =
    allocate-Loan fresh 50 (create-IsValid descriptor config fresh fresh_made) (omega arith)
      allocate_good

-- A handle of generation 0, which the chunk still has before its first loan.
abbrev old : ChunkHandle
old = record { pool_id = 5; chunk_index = 0; generation = 0; payload_offset = 320 }

old_index : old.chunk_index ≡ (allocate fresh 50).1.handle.chunk_index
unfolding allocate new_pool
old_index = refl

old-known : known fresh old ≡ true
unfolding known new_pool
old-known = refl

allocate-stale_example : known (allocate fresh 50).0 old ≡ false
allocate-stale_example =
    allocate-stale fresh 50 old (create-IsValid descriptor config fresh fresh_made) allocate_good
      old_index old-known

loan_cycle_example :
    (let q = (allocate fresh 50).0 in
      let h = (allocate fresh 50).1.handle in
      let r = publish_loaned q h 50 1 7 3 in
      let out = release_times 3 r.0 h in
      (r.1 ≡ ok) × (out.1 ≡ replicate 2 false ++ (true ∷ [])) × ((reclaim out.0 h).1 ≡ ok))
loan_cycle_example =
    loan_cycle fresh 50 1 7 2 (create-IsValid descriptor config fresh fresh_made) (omega arith)
      allocate_good (λ e. cc)

abbrev loaned_handle : ChunkHandle
loaned_handle = record { pool_id = 5; chunk_index = 0; generation = 1; payload_offset = 320 }

abbrev released_pool : MemoryPool
released_pool =
    (release (publish_loaned (allocate fresh 50).0 loaned_handle 50 1 7 1).0 loaned_handle).0

abbrev published_pool : MemoryPool
published_pool = (publish_loaned (allocate fresh 50).0 loaned_handle 50 1 7 2).0

published_Held : Held published_pool loaned_handle 2
unfolding publish_loaned allocate new_pool known
published_Held = record {
  known_handle = refl;
  inside = omega arith;
  state_is = refl;
  references = refl;
}

release_times-Held_example :
    ((release_times 2 published_pool loaned_handle).1 ≡ replicate 1 false ++ (true ∷ []))
    × ((chunk_header (release_times 2 published_pool loaned_handle).0 0).state ≡ released)
    × ((chunk_header (release_times 2 published_pool loaned_handle).0 0).ref_count ≡ 0)
    × (known (release_times 2 published_pool loaned_handle).0 loaned_handle ≡ true)
release_times-Held_example = release_times-Held 1 published_pool loaned_handle published_Held

released_state : (chunk_header released_pool 0).state ≡ released
unfolding release publish_loaned allocate new_pool
released_state = refl

released_known : known released_pool loaned_handle ≡ true
unfolding known release publish_loaned allocate new_pool
released_known = refl

abbrev segment : Segment
segment = record {
  mapped_size = 704;
  header = record {
    magic = 0x4D57504C;
    version = 1;
    header_size = 80;
    segment_size = 704;
    pool_id = 5;
    topic_id = 9;
    owner_pid = 1;
    size_class_count = 2;
    chunk_count = 3;
    size_class_offset = 80;
    chunk_directory_offset = 128;
    chunk_storage_offset = 256;
  };
  size_classes = layout.size_classes;
  directory = layout.directory;
  chunks =
      fresh_chunk descriptor
        (record { header_offset = 256; payload_offset = 320; capacity = 64; size_class_index = 0 })
      ∷ fresh_chunk descriptor (record {
        header_offset = 384;
        payload_offset = 448;
        capacity = 64;
        size_class_index = 0;
      })
      ∷ fresh_chunk descriptor (record {
        header_offset = 512;
        payload_offset = 576;
        capacity = 128;
        size_class_index = 1;
      })
      ∷ [];
}

segment_opens : view_opens descriptor 9 segment ≡ true
unfolding view_opens
segment_opens = refl

-- A second handle of the same run: the chunk as the publisher left it.
abbrev message : List ChunkHeader
message =
    record {
      ref_count = 1;
      state = published;
      payload_size = 50;
      capacity = 64;
      size_class_index = 0;
      generation = 1;
      sequence = 1;
      publish_timestamp_ns = 7;
      topic_id = 9;
      pool_id = 5;
    }
    ∷ []

message-read : (read descriptor segment.directory message loaned_handle 100).payload ≡ some 320
unfolding read
message-read = refl

read-inside_example :
    320 + (read descriptor segment.directory message loaned_handle 100).payload_size ≤ 704
read-inside_example =
    read-inside descriptor 9 segment message loaned_handle 100 320 segment_opens message-read

abbrev loaned_pool : MemoryPool
loaned_pool = (allocate fresh 50).0

published_good : (publish_loaned loaned_pool loaned_handle 50 1 7 1).1 ≡ ok
unfolding publish_loaned allocate new_pool
published_good = refl

loaned_pool-IsValid : IsValid loaned_pool
loaned_pool-IsValid = allocate-IsValid 50 (create-IsValid descriptor config fresh fresh_made)

read-publish_loaned_example :
    read loaned_pool.descriptor loaned_pool.directory
      (publish_loaned loaned_pool loaned_handle 50 1 7 1).0.chunks
      loaned_handle
      100
    ≡ record {
      error = ok;
      payload = some 320;
      payload_size = 50;
      sequence = 1;
      publish_timestamp_ns = 7;
    }
read-publish_loaned_example =
    read-publish_loaned loaned_pool loaned_handle 50 1 7 1 100 loaned_pool-IsValid (omega arith)
      (omega arith) published_good
