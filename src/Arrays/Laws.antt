-- ===== src/Arrays/Laws.antt =====
-- What the helpers on arrays find.
use nexentastor_csi_driver_b.Base.{
  ℕ, ◌+◌, Text, eq_text_iff, All, Bool, false, List, [], ◌∷◌, ◌++◌, ◌≡◌, ◌≢◌, ◌↔◌, ◌⊎◌, inl, inr,
  refl, arith, Bool-cases,
}
use nexentastor_csi_driver_b.Arrays.{
  contains_string, find_from, find_regexp_indexes_string, append_if_regexp_not_exist_string,
}

-- A test fails on every value of an array.
abbrev pub NoMatch : (Text → Bool) → List Text → Type 0
NoMatch re = All (λ (v : Text). re v ≡ false)

find_from-nil :
    (i : ℕ) (xs : List Text) (re : Text → Bool) → (find_from i xs re ≡ []) ↔ NoMatch re xs
unfolding find_from
find_from-nil i [] re = (λ _. tt, λ _. refl)
find_from-nil i (v ∷ xs) re = elim (Bool-cases (re v)) [
  | inl e ↦ (λ h. ground arith, λ h. ground (arith, h.0))
  | inr e ↦ (
    λ h. (e, (find_from-nil (i + 1) xs re).0 (ground arith)),
    λ h. rw e ((find_from-nil (i + 1) xs re).1 h.1),
  )
]

contains_string-All :
    (xs : List Text) (value : Text)
    → (contains_string xs value ≡ false) ↔ All (λ (v : Text). v ≢ value) xs
unfolding contains_string
contains_string-All [] value = (λ _. tt, λ _. refl)
contains_string-All (v ∷ xs) value = (
  λ h. (ground (arith, eq_text_iff v value), (contains_string-All xs value).0 (ground arith)),
  λ h. ground (arith, eq_text_iff v value, h.0, (contains_string-All xs value).1 h.1),
)

-- A value is appended exactly if the expression matches nothing in the array; a matching value is
-- not appended a second time.
pub append_if_not_exist :
    (xs : List Text) (re : Text → Bool) (value : Text)
    → (NoMatch re xs × (append_if_regexp_not_exist_string xs re value ≡ xs ++ (value ∷ [])))
      ⊎ ((¬ (NoMatch re xs)) × (append_if_regexp_not_exist_string xs re value ≡ xs))
unfolding append_if_regexp_not_exist_string find_regexp_indexes_string
append_if_not_exist xs re value = go (find_from 0 xs re) refl
  where
    go :
        (found : List ℕ)
        → find_from 0 xs re ≡ found
        → (NoMatch re xs × (append_if_regexp_not_exist_string xs re value ≡ xs ++ (value ∷ [])))
          ⊎ ((¬ (NoMatch re xs)) × (append_if_regexp_not_exist_string xs re value ≡ xs))
    go [] e = inl ((find_from-nil 0 xs re).0 e, rw e)
    go (i ∷ found) e = inr (λ h. cc (e, (find_from-nil 0 xs re).1 h), ground (arith, e))
