-- ===== src/Wire/Frames.antt =====
-- Reading the fields of a whole frame, and the name behind them.
use native.Mathlib.Nat.{le_trans}
use cpp_robot_middleware.Prelude.{
  ℕ, zero, suc, ◌+◌, ◌^◌, ◌<◌, ◌≤◌, ◌≡◌, ◌∙◌, refl, ap, true, List, [], ◌∷◌, length, drop,
  replicate, length-replicate, arith,
}
use cpp_robot_middleware.Wire.{Field, encoded, frame, named_frame, read_be, slice, put, all_zero}
use cpp_robot_middleware.Wire.BigEndian.{length-encode_be}
use cpp_robot_middleware.Wire.Fields.{
  Ordered, Holds, put_all-Holds, put_all-behind, length-put, length-put_all, read_be-Holds,
  drop-put, slice-put_before, slice-put_self,
}

-- The fields lie one behind the other, from `lo` to `hi`.
abbrev pub Packed : ℕ → ℕ → List Field → Type 0
Packed lo hi [] = lo ≤ hi
Packed lo hi ((offset, width, value) ∷ fields) = (lo ≤ offset) × Packed (offset + width) hi fields

-- Every value fits the width of its field.
abbrev pub AllFit : List Field → Type 0
AllFit [] = Unit {0}
AllFit ((offset, width, value) ∷ fields) = (value < 256 ^ width) × AllFit fields

-- Every field reads back.
abbrev pub Reads : List Field → List ℕ → Type 0
Reads [] buf = Unit {0}
Reads ((offset, width, value) ∷ fields) buf = (read_be offset width buf ≡ value) × Reads fields buf

Packed-Ordered :
    (lo hi : ℕ) (fields : List Field) → Packed lo hi fields → Ordered lo hi (encoded fields)
Packed-Ordered lo hi [] h = h
Packed-Ordered lo hi ((offset, width, value) ∷ fields) h =
    (h.0, rw (length-encode_be width value) (Packed-Ordered (offset + width) hi fields h.1))

Holds-Reads :
    (fields : List Field) (buf : List ℕ)
    → AllFit fields
    → Holds (encoded fields) buf
    → Reads fields buf
Holds-Reads [] buf f h = tt
Holds-Reads ((offset, width, value) ∷ fields) buf f h =
    (read_be-Holds offset width value buf f.0 h.0, Holds-Reads fields buf f.1 h.1)

pub length-frame : (size : ℕ) (fields : List Field) → length (frame size fields) ≡ size
unfolding frame
length-frame size fields =
    length-put_all (encoded fields) (replicate size 0) ∙ length-replicate size 0

pub frame-Reads :
    (size : ℕ) (fields : List Field)
    → Packed 0 size fields
    → AllFit fields
    → Reads fields (frame size fields)
unfolding frame
frame-Reads size fields p f = Holds-Reads fields _ f (
    put_all-Holds 0 size (encoded fields) (replicate size 0) (Packed-Ordered 0 size fields p)
      (omega (arith, length-replicate {A = ℕ} size 0)))

-- A later write behind all fields leaves them.
Reads-put :
    (lo hi : ℕ) (fields : List Field) (buf : List ℕ) (offset : ℕ) (bytes : List ℕ)
    → Packed lo hi fields
    → hi ≤ offset
    → Reads fields buf
    → Reads fields (put buf offset bytes)
Reads-put lo hi [] buf offset bytes p h r = tt
Reads-put lo hi ((o, w, v) ∷ fields) buf offset bytes p h r = (
  rw (slice-put_before o w buf offset bytes (le_trans (Packed-le (o + w) hi fields p.1) h)) r.0,
  Reads-put (o + w) hi fields buf offset bytes p.1 h r.1,
)
  where
    Packed-le : (lo hi : ℕ) (fields : List Field) → Packed lo hi fields → lo ≤ hi
    Packed-le lo hi [] p = p
    Packed-le lo hi ((o, w, v) ∷ fields) p = omega (arith, Packed-le (o + w) hi fields p.1, p.0)

all_zero-replicate : (n k : ℕ) → all_zero (drop k (replicate n 0)) ≡ true
unfolding all_zero
all_zero-replicate zero zero = refl
all_zero-replicate zero (suc k) = refl
all_zero-replicate (suc n) zero = all_zero-replicate n zero
all_zero-replicate (suc n) (suc k) = all_zero-replicate n k

-- What a receiver finds in a frame with a name.
pub record Named (size : ℕ) (fields : List Field) (offset : ℕ) (name : List ℕ) (buf : List ℕ)
    : Type 0 where
  pub size_is : length buf ≡ size
  pub reads : Reads fields buf
  pub name_is : slice offset (length name) buf ≡ name
  pub padding : all_zero (drop (offset + length name) buf) ≡ true

pub named_frame-Named :
    (size : ℕ) (fields : List Field) (offset : ℕ) (name : List ℕ)
    → Packed 0 offset fields
    → AllFit fields
    → offset + length name ≤ size
    → Named size fields offset name (named_frame size fields offset name)
unfolding named_frame frame
named_frame-Named size fields offset name p f h = record {
  size_is = length-put (frame size fields) offset name ∙ length-frame size fields;
  reads =
      Reads-put 0 offset fields (frame size fields) offset name p (omega arith)
        (frame-Reads size fields (widen 0 fields p) f);
  name_is =
      slice-put_self (frame size fields) offset name (omega (arith, length-frame size fields));
  padding =
      ap all_zero (
        drop-put (offset + length name) (frame size fields) offset name (omega arith)
        ∙ put_all-behind (offset + length name) 0 offset (encoded fields) (replicate size 0)
            (Packed-Ordered 0 offset fields p) (omega arith))
      ∙ all_zero-replicate size (offset + length name);
}
  where
    widen : (lo : ℕ) (fs : List Field) → Packed lo offset fs → Packed lo size fs
    widen lo [] q = omega arith
    widen lo ((o, w, v) ∷ fs) q = (q.0, widen (o + w) fs q.1)
