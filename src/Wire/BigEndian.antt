-- ===== src/Wire/BigEndian.antt =====
-- Big-endian integers in both directions, `encodeBigEndian` and `decodeBigEndian`.
use native.Mathlib.Nat.{pow-suc, mod-eq_of_lt, div-add-mod, add-mul-mod_self_right, one-le-pow}
use cpp_robot_middleware.Prelude.{
  ℕ, zero, suc, ◌+◌, ◌*◌, ◌/◌, ◌%◌, ◌^◌, ◌<◌, ◌≡◌, refl, ap, ◌∙◌, List, [], ◌∷◌, length, arith,
}
use cpp_robot_middleware.Wire.{encode_be, decode_from, decode_be}

pub length-encode_be : (width value : ℕ) → length (encode_be width value) ≡ width
unfolding encode_be
length-encode_be zero value = refl
length-encode_be (suc left) value = ap suc (length-encode_be left value)

digit_bound : (P d r : ℕ) → d < 256 → r < P → d * P + r < P * 256
digit_bound P d r h k = grind arith

-- The lowest `256 * P` of a value, by its digit at `P` and what lies below.
mod-digit : (P value : ℕ) → 0 < P → value % (P * 256) ≡ (value / P) % 256 * P + value % P
mod-digit P value h =
    let low = (value / P) % 256 * P + value % P in
    let split : value ≡ low + value / P / 256 * (P * 256) =
      omega (arith, div-add-mod value P, ap (λ (t : ℕ). t * P) (div-add-mod (value / P) 256)) in
    let small : low < P * 256 =
      digit_bound P ((value / P) % 256) (value % P) (omega arith) (omega arith) in
    ap (λ k. k % (P * 256)) split
    ∙ add-mul-mod_self_right low (value / P / 256) (P * 256)
    ∙ mod-eq_of_lt small

decode_from-encode_be :
    (width acc value : ℕ)
    → decode_from acc (encode_be width value) ≡ acc * 256 ^ width + value % 256 ^ width
unfolding decode_from encode_be
decode_from-encode_be zero acc value = omega arith
decode_from-encode_be (suc left) acc value =
    decode_from-encode_be left (acc * 256 + (value / 256 ^ left) % 256) value
    ∙ omega (
      arith,
      mod-digit (256 ^ left) value (one-le-pow left 256 (omega arith)),
      ap (λ (t : ℕ). acc * t) (pow-suc 256 left),
      ap (λ (t : ℕ). value % t) (pow-suc 256 left),
    )

-- Decoding gives back the value that was encoded, if it fits the width.
pub decode_be-encode_be :
    (width value : ℕ) → value < 256 ^ width → decode_be (encode_be width value) ≡ value
unfolding decode_be
decode_be-encode_be width value h =
    omega (arith, decode_from-encode_be width 0 value, mod-eq_of_lt h)

abbrev pub IsBytes : List ℕ → Type 0
IsBytes [] = Unit {0}
IsBytes (b ∷ bs) = (b < 256) × IsBytes bs

-- Bytes decode to a value of their width: no cast of `decodeBigEndian` cuts anything off.
decode_from-lt :
    (acc bound : ℕ) (bytes : List ℕ)
    → IsBytes bytes
    → acc < bound
    → decode_from acc bytes < bound * 256 ^ length bytes
unfolding decode_from
decode_from-lt acc bound [] b h = omega arith
decode_from-lt acc bound (x ∷ xs) b h = omega (
  arith,
  decode_from-lt (acc * 256 + x) (bound * 256) xs b.1 (omega arith),
  ap (λ (t : ℕ). bound * t) (pow-suc 256 (length xs)),
)

pub decode_be-lt : (bytes : List ℕ) → IsBytes bytes → decode_be bytes < 256 ^ length bytes
unfolding decode_be
decode_be-lt bytes b = omega (arith, decode_from-lt 0 1 bytes b (omega arith))
