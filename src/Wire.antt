-- ===== src/Wire.antt =====
-- Big-endian integers and fixed-offset frames, as every protocol file of middleware/src/detail
-- writes them: `encodeBigEndian`, `appendBigEndian`, `decodeBigEndian`, and writes into a zeroed
-- array at fixed offsets.
pub mod BigEndian
pub mod Fields
pub mod Frames
use cpp_robot_middleware.Prelude.{
  ℕ, zero, suc, ◌+◌, ◌*◌, ◌/◌, ◌%◌, ◌^◌, ◌<◌, ◌≤◌, ◌≡◌, Bool, true, false, ◌&&◌, ◌||◌, not, List,
  [], ◌∷◌, ◌++◌, length, take, drop, replicate, ltb, leb, ◌==◌, ◌!=◌,
}

-- The bytes of `value`, most significant first: byte `index` of `width` is
-- `(uint8_t)(value >> (width - index - 1) * 8)`. The argument is the number of bytes left.
unfoldable pub encode_be : ℕ → ℕ → List ℕ
encode_be zero value = []
encode_be (suc left) value = (value / 256 ^ left) % 256 ∷ encode_be left value

-- `value = (Integer)((value << 8) | byte)` for each byte. The low 8 bits are free after the shift,
-- so `|` adds, and the cast cuts nothing off `sizeof(Integer)` bytes (`decode_be-lt`).
unfoldable pub decode_from : ℕ → List ℕ → ℕ
decode_from value [] = value
decode_from value (b ∷ bs) = decode_from (value * 256 + b) bs

unfoldable pub decode_be : List ℕ → ℕ
unfolding decode_from
decode_be bytes = decode_from 0 bytes

-- A write of bytes at an offset of a fixed array; what does not fit is not written.
unfoldable pub put : List ℕ → ℕ → List ℕ → List ℕ
put [] offset bytes = []
put (x ∷ xs) (suc offset) bytes = x ∷ put xs offset bytes
put (x ∷ xs) zero [] = x ∷ xs
put (x ∷ xs) zero (b ∷ bs) = b ∷ put xs zero bs

-- `count` bytes from `offset` on.
abbrev pub slice : ℕ → ℕ → List ℕ → List ℕ
slice offset count buf = take count (drop offset buf)

-- `decodeBigEndian<…>(buf + offset)` for an integer of `width` bytes.
abbrev pub read_be : ℕ → ℕ → List ℕ → ℕ
read_be offset width buf = decode_be (slice offset width buf)

-- Writes in order.
unfoldable pub put_all : List (ℕ × List ℕ) → List ℕ → List ℕ
unfolding put
put_all [] buf = buf
put_all ((offset, bytes) ∷ fields) buf = put_all fields (put buf offset bytes)

unfoldable pub all_zero : List ℕ → Bool
all_zero [] = true
all_zero (x ∷ xs) = x == 0 && all_zero xs

abbrev pub slash : ℕ
slash = b'/'

unfoldable pub contains : ℕ → List ℕ → Bool
contains c [] = false
contains c (x ∷ xs) = x == c || contains c xs

-- `name.front() == '/'` and `name.find('/', 1) == npos`.
unfoldable pub one_leading_slash : List ℕ → Bool
unfolding contains
one_leading_slash [] = false
one_leading_slash (x ∷ xs) = x == slash && not (contains slash xs)

-- `isValidSharedMemoryName`, middleware/src/detail/shared_memory.cpp.
unfoldable pub is_valid_shared_memory_name : List ℕ → Bool
unfolding one_leading_slash contains
is_valid_shared_memory_name name =
    leb 2 (length name) && leb (length name) 192 && one_leading_slash name && not (contains 0 name)

-- An integer field of a frame: its offset, its width in bytes, its value.
abbrev pub Field : Type 0
Field = ℕ × ℕ × ℕ

abbrev pub encoded : List Field → List (ℕ × List ℕ)
encoded [] = []
encoded ((offset, width, value) ∷ fields) = (offset, encode_be width value) ∷ encoded fields

-- A zeroed array of `size` bytes with the fields written into it.
unfoldable pub frame : ℕ → List Field → List ℕ
unfolding put_all
frame size fields = put_all (encoded fields) (replicate size 0)

-- The same with a name copied to an offset behind the fields.
unfoldable pub named_frame : ℕ → List Field → ℕ → List ℕ → List ℕ
unfolding frame put
named_frame size fields offset name = put (frame size fields) offset name
