-- ===== src/Messages/RoundTrip.antt =====
-- What is written is read again.
use cpp_robot_middleware.Prelude.{
  ℕ, ◌^◌, ◌<◌, ◌≤◌, ◌≡◌, refl, ap, ◌∙◌, List, [], ◌∷◌, ◌++◌, some, length, u32_max, append_assoc,
  append-nil, le→ltb,
}
use cpp_robot_middleware.Wire.{encode_be}
use cpp_robot_middleware.Control.{write_string}
use cpp_robot_middleware.Control.Payload.{read_integer-encode_be, read_string-encode}
use cpp_robot_middleware.Messages.{Item, integer, text, Kind, word, string, write_items, read_items}

-- An integer fits its width, and a string the length field.
abbrev pub Fits : Item → Type 0
Fits (integer width value) = value < 256 ^ width
Fits (text value) = length value ≤ u32_max

abbrev pub AllFit : List Item → Type 0
AllFit [] = Unit
AllFit (i ∷ is) = Fits i × AllFit is

abbrev pub bytes_of : Item → List ℕ
bytes_of (integer width value) = encode_be width value
bytes_of (text value) = encode_be 4 (length value) ++ value

abbrev pub flat : List Item → List ℕ
flat [] = []
flat (i ∷ is) = bytes_of i ++ flat is

abbrev pub kind_of : Item → Kind
kind_of (integer width value) = word width
kind_of (text value) = string

abbrev pub kinds_of : List Item → List Kind
kinds_of [] = []
kinds_of (i ∷ is) = kind_of i ∷ kinds_of is

pub write_items-flat :
    (items : List Item) (out : List ℕ)
    → AllFit items
    → write_items items out ≡ some (out ++ flat items)
unfolding write_items write_string
write_items-flat [] out fit = rw (append-nil out) refl
write_items-flat (integer width value ∷ items) out (fits, rest) =
    write_items-flat items (out ++ encode_be width value) rest
    ∙ ap some (append_assoc out (encode_be width value) (flat items))
write_items-flat (text value ∷ items) out (small, rest) = rw (le→ltb u32_max (length value) small) (
    write_items-flat items ((out ++ encode_be 4 (length value)) ++ value) rest
    ∙ ap some (regroup out (encode_be 4 (length value)) value (flat items)))
  where
    regroup : (a b c d : List ℕ) → ((a ++ b) ++ c) ++ d ≡ a ++ ((b ++ c) ++ d)
    regroup a b c d = simp append_assoc

pub read_items-flat :
    (items : List Item) (rest : List ℕ)
    → AllFit items
    → read_items (kinds_of items) (flat items ++ rest) ≡ some (items, rest)
unfolding read_items
read_items-flat [] rest fit = refl
read_items-flat (integer width value ∷ items) rest (fits, more) =
    rw
      (
        append_assoc (encode_be width value) (flat items) rest,
        read_integer-encode_be width value (flat items ++ rest) fits,
        read_items-flat items rest more,
      )
      refl
read_items-flat (text value ∷ items) rest (small, more) =
    rw
      (
        regroup (encode_be 4 (length value)) value (flat items) rest,
        read_string-encode value (flat items ++ rest) small,
        read_items-flat items rest more,
      )
      refl
  where
    regroup : (a b c d : List ℕ) → ((a ++ b) ++ c) ++ d ≡ a ++ (b ++ (c ++ d))
    regroup a b c d = simp append_assoc
