-- ===== src/Map.antt =====
-- `std::map` and `std::set` as lists in the order of their keys, which is the order of iteration.
use cpp_robot_middleware.Prelude.{
  ◌<◌, ℕ, ◌≡◌, ◌↔◌, refl, Bool, true, false, not, ◌&&◌, ◌||◌, List, [], ◌∷◌, Option, none, some,
  arith, ltb, ◌==◌, ==_iff, if◌then◌else◌, Bool-cases, inl, inr, bytes_eq, bytes_eq_iff, bytes_lt,
}

-- What `std::less` gives for a key type: equality, and the order.
pub record Key (K : Type 0) : Type 0 where
  pub same : K → K → Bool
  pub same_iff : (a b : K) → (same a b ≡ true) ↔ (a ≡ b)
  pub before : K → K → Bool

instance abbrev pub id_key : Key ℕ
id_key = record { same = ◌==◌; same_iff = ==_iff; before = ltb }

instance abbrev pub name_key : Key (List ℕ)
name_key = record { same = bytes_eq; same_iff = bytes_eq_iff; before = bytes_lt }

abbrev pub OrderedMap : Type 0 → Type 0 → Type 0
OrderedMap K V = List (K × V)

-- One key is not equal to two that differ.
distinct :
    {K : Type 0} ⦃key : Key K⦄ (k a : K)
    → key.same k a ≡ false
    → (j : K) → (key.same j k && key.same j a) ≡ false
distinct ⦃key⦄ k a e j = elim (Bool-cases (key.same j k)) [
  | inr n ↦ rw n refl
  | inl y ↦ rw (y, (key.same_iff j k).0 y) e
]

module _ {K V : Type 0} ⦃key : Key K⦄ where
  -- `find`
  abbrev pub lookup : K → OrderedMap K V → Option V
  lookup k [] = none
  lookup k ((j, v) ∷ m) = if key.same k j then some v else lookup k m

  -- `insert_or_assign`; at a key that is not there, also `emplace`.
  abbrev pub insert : K → V → OrderedMap K V → OrderedMap K V
  insert k v [] = (k, v) ∷ []
  insert k v ((j, w) ∷ m) =
      let rest = insert k v m in
      if key.same k j
      then (k, v) ∷ m
      else if key.before k j
      then (k, v) ∷ (j, w) ∷ m
      else (j, w) ∷ rest

  -- `emplace` keeps the value of a key that is there.
  abbrev pub emplace : K → V → OrderedMap K V → OrderedMap K V
  emplace k v m = elim (lookup k m) [ none ↦ insert k v m | some _ ↦ m ]

  -- `erase(key)`
  abbrev pub erase : K → OrderedMap K V → OrderedMap K V
  erase k [] = []
  erase k ((j, v) ∷ m) = let rest = erase k m in if key.same k j then rest else (j, v) ∷ rest

  pub lookup-insert :
      (k : K) (v : V) (m : OrderedMap K V) (j : K)
      → lookup j (insert k v m) ≡ (if key.same j k then some v else lookup j m)
  lookup-insert k v [] j = refl
  lookup-insert k v ((a, w) ∷ m) j = elim (Bool-cases (key.same k a)) [
    | inl e ↦ rw e (replaced ((key.same_iff k a).0 e))
    | inr e ↦ rw e (elim (Bool-cases (key.before k a)) [
      | inl b ↦ rw b refl
      | inr b ↦ rw b (rw (lookup-insert k v m j) (passed (distinct k a e j)))
    ])
  ]
    where
      replaced :
          k ≡ a
          → lookup j ((k, v) ∷ m)
            ≡ (if key.same j k then some v else if key.same j a then some w else lookup j m)
      replaced e = rw e (ground arith)

      passed :
          (key.same j k && key.same j a) ≡ false
          → (if key.same j a then some w else if key.same j k then some v else lookup j m)
            ≡ (if key.same j k then some v else if key.same j a then some w else lookup j m)
      passed e = ground arith

  pub lookup-erase :
      (k : K) (m : OrderedMap K V) (j : K)
      → lookup j (erase k m) ≡ (if key.same j k then none else lookup j m)
  lookup-erase k [] j = ground arith
  lookup-erase k ((a, w) ∷ m) j = elim (Bool-cases (key.same k a)) [
    | inl e ↦ rw e (rw (lookup-erase k m j, (key.same_iff k a).0 e) (ground arith))
    | inr e ↦ rw e (rw (lookup-erase k m j) (both (distinct k a e j)))
  ]
    where
      both :
          (key.same j k && key.same j a) ≡ false
          → (if key.same j a then some w else if key.same j k then none else lookup j m)
            ≡ (if key.same j k then none else if key.same j a then some w else lookup j m)
      both e = ground arith

  pub lookup-emplace :
      (k : K) (v : V) (m : OrderedMap K V) (j : K)
      → lookup k m ≡ none
      → lookup j (emplace k v m) ≡ (if key.same j k then some v else lookup j m)
  lookup-emplace k v m j fresh = rw (fresh, emplace) (lookup-insert k v m j)

abbrev pub has_key : {V : Type 0} → ℕ → OrderedMap ℕ V → Bool
has_key k m = elim (lookup k m) [ none ↦ false | some v ↦ true ]

-- The keys ascend.
abbrev pub IsSorted : {V : Type 0} → OrderedMap ℕ V → Type 0
IsSorted [] = Unit
IsSorted ((j, w) ∷ m) = ((x : ℕ) → has_key x m ≡ true → j < x) × IsSorted m

module _ {V : Type 0} where
  pub insert-IsSorted : (k : ℕ) (v : V) (m : OrderedMap ℕ V) → IsSorted m → IsSorted (insert k v m)
  insert-IsSorted k v [] h = (λ x bad. absurd (cc), tt)
  insert-IsSorted k v ((j, w) ∷ m) (first, rest) = elim (Bool-cases (k == j)) [
    | inl e ↦ rw e (λ x there. (let y = first x there in ground arith), rest)
    | inr e ↦ rw e (elim (Bool-cases (ltb k j)) [
      | inl b ↦ rw b (λ x there. (let y = first x in ground arith), (first, rest))
      | inr b ↦ rw b (
        λ x there. (let y = first x in ground (arith, lookup-insert k v m x)),
        insert-IsSorted k v m rest,
      )
    ])
  ]

  pub erase-IsSorted : (k : ℕ) (m : OrderedMap ℕ V) → IsSorted m → IsSorted (erase k m)
  erase-IsSorted k [] h = tt
  erase-IsSorted k ((j, w) ∷ m) (first, rest) = elim (Bool-cases (k == j)) [
    | inl e ↦ rw e (erase-IsSorted k m rest)
    | inr e ↦ rw e (
      λ x there. (let y = first x in ground (arith, lookup-erase k m x)),
      erase-IsSorted k m rest,
    )
  ]

-- `std::set` of identifiers: membership, `insert` and `erase`.
abbrev pub has : ℕ → List ℕ → Bool
has k [] = false
has k (x ∷ s) = k == x || has k s

abbrev pub include : ℕ → List ℕ → List ℕ
include k [] = k ∷ []
include k (x ∷ s) =
    let rest = include k s in if k == x then x ∷ s else if ltb k x then k ∷ x ∷ s else x ∷ rest

abbrev pub exclude : ℕ → List ℕ → List ℕ
exclude k [] = []
exclude k (x ∷ s) = let rest = exclude k s in if k == x then rest else x ∷ rest

pub has-include : (k : ℕ) (s : List ℕ) (j : ℕ) → has j (include k s) ≡ (j == k || has j s)
has-include k [] j = ground arith
has-include k (x ∷ s) j = ground (arith, has-include k s j)

pub has-exclude : (k : ℕ) (s : List ℕ) (j : ℕ) → has j (exclude k s) ≡ (not (j == k) && has j s)
has-exclude k [] j = ground arith
has-exclude k (x ∷ s) j = ground (arith, has-exclude k s j)
