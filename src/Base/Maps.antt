-- ===== src/Base/Maps.antt =====
-- Go maps with string keys as association lists. A `range` loop visits the list in its order, so a
-- theorem over every list covers every order that Go may choose.
use mathlib.Core.Path.{◌≡◌, refl}
use mathlib.Core.Logic.{◌⊎◌, inl, inr}
use mathlib.Core.Bool.{Bool, true, false}
use mathlib.Core.Option.{Option, none, some}
use mathlib.Core.List.{List, [], ◌∷◌}
use native.Mathlib.Omega.{arith}
use nexentastor_csi_driver_b.Base.Tests.{if◌then◌else◌, Bool-cases}
use nexentastor_csi_driver_b.Base.Texts.{Text, eq_text, eq_text_iff}

abbrev pub Map {ℓ} : Type ℓ → Type ℓ
Map V = List (Text × V)

module _ {ℓ} {V : Type ℓ} where
  -- `v, ok := m[k]`.
  unfoldable pub lookup : Text → Map V → Option V
  lookup k [] = none
  lookup k ((j, v) ∷ m) = if eq_text j k then some v else lookup k m

  abbrev present : Option V → Bool
  present none = false
  present (some v) = true

  -- `_, ok := m[k]`.
  abbrev pub has_key : Text → Map V → Bool
  has_key k m = present (lookup k m)

  -- `m[k] = v`.
  unfoldable pub insert : Text → V → Map V → Map V
  insert k v [] = (k, v) ∷ []
  insert k v ((j, w) ∷ m) = if eq_text j k then (j, v) ∷ m else (j, w) ∷ insert k v m

  -- `m[k]`, with the zero value of the type for a missing key.
  abbrev pub value_or : V → Option V → V
  value_or z none = z
  value_or z (some v) = v

  pub lookup-insert :
      (k j : Text) (v : V) (m : Map V)
      → lookup j (insert k v m) ≡ (if eq_text k j then some v else lookup j m)
  unfolding lookup insert
  lookup-insert k j v [] = refl
  lookup-insert k j v ((i, w) ∷ m) =
      ground (arith, eq_text_iff k j, eq_text_iff i k, eq_text_iff i j, lookup-insert k j v m)

  -- The keys are distinct, as those of a Go map are.
  abbrev pub NodupKeys : Map V → Type 0
  NodupKeys [] = Unit
  NodupKeys ((k, v) ∷ m) = (has_key k m ≡ false) × NodupKeys m

module _ {V : Type 0} where
  -- The entry of a key and a value, at whatever place.
  abbrev pub Entry : Text → V → Map V → Type 0
  Entry k v [] = ⊥
  Entry k v ((j, w) ∷ m) = ((j ≡ k) × (w ≡ v)) ⊎ Entry k v m

  pub lookup-Entry : (k : Text) (v : V) (m : Map V) → lookup k m ≡ some v → Entry k v m
  unfolding lookup
  lookup-Entry k v [] h = absurd (ground arith)
  lookup-Entry k v ((j, w) ∷ m) h = elim (Bool-cases (eq_text j k)) [
    | inl here ↦ inl ((eq_text_iff j k).0 here, ground arith)
    | inr other ↦ inr (lookup-Entry k v m (ground arith))
  ]
