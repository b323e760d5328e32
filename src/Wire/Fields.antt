-- ===== src/Wire/Fields.antt =====
-- Reading back what was written at fixed offsets.
use cpp_robot_middleware.Prelude.{
  ℕ, zero, suc, ◌+◌, ◌^◌, ◌<◌, ◌≤◌, ◌≡◌, refl, ap, sym, ◌∙◌, List, [], ◌∷◌, length, take, drop,
  arith,
}
use cpp_robot_middleware.Wire.{put, put_all, slice, read_be, encode_be, decode_be}
use cpp_robot_middleware.Wire.BigEndian.{length-encode_be, decode_be-encode_be}

pub length-put :
    (buf : List ℕ) (offset : ℕ) (bytes : List ℕ) → length (put buf offset bytes) ≡ length buf
unfolding put
length-put [] offset bytes = refl
length-put (x ∷ xs) zero [] = refl
length-put (x ∷ xs) zero (b ∷ bs) = ap suc (length-put xs zero bs)
length-put (x ∷ xs) (suc offset) bytes = ap suc (length-put xs offset bytes)

pub slice-put_self :
    (buf : List ℕ) (offset : ℕ) (bytes : List ℕ)
    → offset + length bytes ≤ length buf
    → slice offset (length bytes) (put buf offset bytes) ≡ bytes
unfolding put
slice-put_self [] zero [] h = refl
slice-put_self [] (suc offset) [] h = refl
slice-put_self [] offset (b ∷ bs) h = absurd (omega arith)
slice-put_self (x ∷ xs) zero [] h = refl
slice-put_self (x ∷ xs) zero (b ∷ bs) h = ap (◌∷◌ b) (slice-put_self xs zero bs (omega arith))
slice-put_self (x ∷ xs) (suc offset) bytes h = slice-put_self xs offset bytes (omega arith)

take-put :
    (n : ℕ) (buf : List ℕ) (offset : ℕ) (bytes : List ℕ)
    → n ≤ offset
    → take n (put buf offset bytes) ≡ take n buf
unfolding put
take-put zero buf offset bytes h = refl
take-put (suc n) [] offset bytes h = refl
take-put (suc n) (x ∷ xs) zero bytes h = absurd (omega arith)
take-put (suc n) (x ∷ xs) (suc offset) bytes h =
    ap (◌∷◌ x) (take-put n xs offset bytes (omega arith))

pub drop-put :
    (o : ℕ) (buf : List ℕ) (offset : ℕ) (bytes : List ℕ)
    → offset + length bytes ≤ o
    → drop o (put buf offset bytes) ≡ drop o buf
unfolding put
drop-put zero [] offset bytes h = refl
drop-put (suc o) [] offset bytes h = refl
drop-put zero (x ∷ xs) zero [] h = refl
drop-put zero (x ∷ xs) zero (b ∷ bs) h = absurd (omega arith)
drop-put zero (x ∷ xs) (suc offset) bytes h = absurd (omega arith)
drop-put (suc o) (x ∷ xs) zero [] h = refl
drop-put (suc o) (x ∷ xs) zero (b ∷ bs) h = drop-put o xs zero bs (omega arith)
drop-put (suc o) (x ∷ xs) (suc offset) bytes h = drop-put o xs offset bytes (omega arith)

pub slice-put_before :
    (o n : ℕ) (buf : List ℕ) (offset : ℕ) (bytes : List ℕ)
    → o + n ≤ offset
    → slice o n (put buf offset bytes) ≡ slice o n buf
unfolding put
slice-put_before zero n buf offset bytes h = take-put n buf offset bytes (omega arith)
slice-put_before (suc o) n [] offset bytes h = refl
slice-put_before (suc o) n (x ∷ xs) zero bytes h = absurd (omega arith)
slice-put_before (suc o) n (x ∷ xs) (suc offset) bytes h =
    slice-put_before o n xs offset bytes (omega arith)

-- The fields lie one behind the other, from `lo` to `hi`.
abbrev pub Ordered : ℕ → ℕ → List (ℕ × List ℕ) → Type 0
Ordered lo hi [] = lo ≤ hi
Ordered lo hi ((offset, bytes) ∷ fields) = (lo ≤ offset) × Ordered (offset + length bytes) hi fields

-- Every field reads back as it was written.
abbrev pub Holds : List (ℕ × List ℕ) → List ℕ → Type 0
Holds [] buf = Unit {0}
Holds ((offset, bytes) ∷ fields) buf = (slice offset (length bytes) buf ≡ bytes) × Holds fields buf

Ordered-le : (lo hi : ℕ) (fields : List (ℕ × List ℕ)) → Ordered lo hi fields → lo ≤ hi
Ordered-le lo hi [] h = h
Ordered-le lo hi ((offset, bytes) ∷ fields) h =
    omega (arith, Ordered-le (offset + length bytes) hi fields h.1)

put_all-before :
    (o n lo hi : ℕ) (fields : List (ℕ × List ℕ)) (buf : List ℕ)
    → Ordered lo hi fields
    → o + n ≤ lo
    → slice o n (put_all fields buf) ≡ slice o n buf
unfolding put_all
put_all-before o n lo hi [] buf h k = refl
put_all-before o n lo hi ((offset, bytes) ∷ fields) buf h k =
    put_all-before o n (offset + length bytes) hi fields (put buf offset bytes) h.1 (omega arith)
    ∙ slice-put_before o n buf offset bytes (omega arith)

pub put_all-behind :
    (o lo hi : ℕ) (fields : List (ℕ × List ℕ)) (buf : List ℕ)
    → Ordered lo hi fields
    → hi ≤ o
    → drop o (put_all fields buf) ≡ drop o buf
unfolding put_all
put_all-behind o lo hi [] buf h k = refl
put_all-behind o lo hi ((offset, bytes) ∷ fields) buf h k =
    put_all-behind o (offset + length bytes) hi fields (put buf offset bytes) h.1 k
    ∙ drop-put o buf offset bytes (omega (arith, Ordered-le (offset + length bytes) hi fields h.1))

pub put_all-Holds :
    (lo hi : ℕ) (fields : List (ℕ × List ℕ)) (buf : List ℕ)
    → Ordered lo hi fields
    → hi ≤ length buf
    → Holds fields (put_all fields buf)
unfolding put_all
put_all-Holds lo hi [] buf h k = tt
put_all-Holds lo hi ((offset, bytes) ∷ fields) buf h k = (
  put_all-before offset (length bytes) (offset + length bytes) hi fields _ h.1 (omega arith)
      ∙ slice-put_self buf offset bytes
          (omega (arith, Ordered-le (offset + length bytes) hi fields h.1)),
  put_all-Holds (offset + length bytes) hi fields (put buf offset bytes) h.1
      (omega (arith, length-put buf offset bytes)),
)

pub length-put_all :
    (fields : List (ℕ × List ℕ)) (buf : List ℕ) → length (put_all fields buf) ≡ length buf
unfolding put_all
length-put_all [] buf = refl
length-put_all ((offset, bytes) ∷ fields) buf =
    length-put_all fields (put buf offset bytes) ∙ length-put buf offset bytes

-- An integer field of a frame reads back, if it fits its width.
pub read_be-Holds :
    (offset width value : ℕ) (buf : List ℕ)
    → value < 256 ^ width
    → slice offset (length (encode_be width value)) buf ≡ encode_be width value
    → read_be offset width buf ≡ value
read_be-Holds offset width value buf fits h =
    ap (λ n. decode_be (slice offset n buf)) (sym (length-encode_be width value))
    ∙ ap decode_be h
    ∙ decode_be-encode_be width value fits
