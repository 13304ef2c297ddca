-- ===== src/Config/Check/Usable.antt =====
-- What an accepted configuration is after its validation: the entries that were there, in their
-- order, with every pointer set.
use mathlib.Core.List.{append_assoc}
use nexentastor_csi_driver_b.Base.{
  Text, Map, insert, has_key, lookup, NodupKeys, eq_text, eq_text_iff, eq_text_refl, All, true,
  false, none, some, List, [], ◌∷◌, ◌++◌, ◌≡◌, ◌≢◌, refl, sym, ap, ◌∙◌, inl, inr, arith, Bool-cases,
  Option-cases,
}
use nexentastor_csi_driver_b.Exec.{ok}
use nexentastor_csi_driver_b.Config.Defs.{NsData, Config}
use nexentastor_csi_driver_b.Config.Check.{with_default, store_default, validate_from, validate}
use nexentastor_csi_driver_b.Config.Check.Rules.{IsValid, EntryValid, validate-ok}

abbrev pub defaulted : Map NsData → Map NsData
defaulted [] = []
defaulted ((name, d) ∷ es) = (name, with_default d) ∷ defaulted es

module _ {V : Type 0} where
  has_key-middle :
      (name : Text) (v : V) (before after : Map V)
      → has_key name (before ++ ((name, v) ∷ after)) ≡ true
  unfolding lookup
  has_key-middle name v [] after = rw (eq_text_refl name) refl
  has_key-middle name v ((k, w) ∷ before) after = ground (arith, has_key-middle name v before after)

  -- A key of the middle of a map is in no other part of it.
  has_key-append_cons :
      (name : Text) (v : V) (before after : Map V)
      → NodupKeys (before ++ ((name, v) ∷ after))
      → has_key name before ≡ false
  unfolding lookup
  has_key-append_cons name v [] after u = refl
  has_key-append_cons name v ((k, w) ∷ before) after u = elim (Bool-cases (eq_text k name)) [
    | inl e ↦
        let same = (eq_text_iff k name).0 e in
        cc (
          u.0,
          ap (λ j. has_key j (before ++ ((name, v) ∷ after))) same,
          has_key-middle name v before after,
        )
    | inr e ↦ rw e (has_key-append_cons name v before after u.1)
  ]

  insert-append_cons :
      (name : Text) (v w : V) (before after : Map V)
      → has_key name before ≡ false
      → insert name w (before ++ ((name, v) ∷ after)) ≡ before ++ ((name, w) ∷ after)
  unfolding insert lookup
  insert-append_cons name v w [] after h = rw (eq_text_refl name) refl
  insert-append_cons name v w ((k, x) ∷ before) after h =
      ground (arith, insert-append_cons name v w before after)

  has_key-append_same :
      (name k : Text) (v w : V) (before after : Map V)
      → has_key name (before ++ ((k, v) ∷ after)) ≡ has_key name (before ++ ((k, w) ∷ after))
  unfolding lookup
  has_key-append_same name k v w [] after = ground arith
  has_key-append_same name k v w ((j, x) ∷ before) after =
      ground (arith, has_key-append_same name k v w before after)

  NodupKeys-append_same :
      (k : Text) (v w : V) (before after : Map V)
      → NodupKeys (before ++ ((k, v) ∷ after))
      → NodupKeys (before ++ ((k, w) ∷ after))
  NodupKeys-append_same k v w [] after u = u
  NodupKeys-append_same k v w ((j, x) ∷ before) after u = (
    sym (has_key-append_same j k v w before after) ∙ u.0,
    NodupKeys-append_same k v w before after u.1,
  )

append_one :
    {A : Type 0} (before after : List A) (a : A)
    → (before ++ (a ∷ [])) ++ after ≡ before ++ (a ∷ after)
append_one before after a = append_assoc before (a ∷ []) after

-- An entry is stored where it stood.
store_default-middle :
    (name : Text) (d : NsData) (before after : Map NsData) (c : Config)
    → c.ns_map ≡ before ++ ((name, d) ∷ after)
    → NodupKeys (before ++ ((name, d) ∷ after))
    → (store_default name d c).ns_map ≡ before ++ ((name, with_default d) ∷ after)
store_default-middle name d before after c e u = elim (Option-cases d.insecure_skip_verify) [
  | inl n ↦ rw (n) (
      rw e (
        insert-append_cons name d (record d { insecure_skip_verify = some true }) before after
          (has_key-append_cons name d before after u)))
  | inr (b, s) ↦ ground arith
]

validate_from-defaulted :
    (es before : Map NsData) (c : Config)
    → c.ns_map ≡ before ++ es
    → NodupKeys (before ++ es)
    → (validate_from es c).0 ≡ ok tt
    → (validate_from es c).1.ns_map ≡ before ++ defaulted es
unfolding validate_from
validate_from-defaulted [] before c e u h = e
validate_from-defaulted ((name, d) ∷ es) before c e u h =
    let stored = store_default-middle name d before es c e u in
    let shape = append_one before es (name, with_default d) in
    let distinct = NodupKeys-append_same name d (with_default d) before es u in
    let ih =
      validate_from-defaulted es (before ++ ((name, with_default d) ∷ [])) (store_default name d c)
        (stored ∙ sym shape) (rw shape distinct) in
    ground (arith, ih, append_one before (defaulted es) (name, with_default d))

-- An entry that obeys the rules, and none of whose pointers is missing.
abbrev pub IsUsable : Text × NsData → Type 0
IsUsable (name, d) = IsValid d × (d.insecure_skip_verify ≢ none)

-- The rules do not read the default.
with_default-IsValid : (d : NsData) → IsValid d → IsValid (with_default d)
with_default-IsValid d h = elim (Option-cases d.insecure_skip_verify) [
  | inl n ↦ rw n (record {
    address_given = h.address_given;
    addresses = h.addresses;
    username_given = h.username_given;
    password_given = h.password_given;
    allocation_given = h.allocation_given;
    target_given = h.target_given;
    target_group_given = h.target_group_given;
  })
  | inr (b, s) ↦ let same : d ≡ with_default d = ground arith in rw same at h
]

with_default-IsUsable : (name : Text) (d : NsData) → IsValid d → IsUsable (name, with_default d)
with_default-IsUsable name d h = (
  with_default-IsValid d h,
  elim (Option-cases d.insecure_skip_verify) [
    | inl n ↦ rw n (λ e. cc)
    | inr (b, s) ↦ rw s (λ e. cc)
  ],
)

defaulted-IsUsable : (es : Map NsData) → All EntryValid es → All IsUsable (defaulted es)
defaulted-IsUsable [] h = tt
defaulted-IsUsable ((name, d) ∷ es) h =
    (with_default-IsUsable name d h.0, defaulted-IsUsable es h.1)

-- A validation that succeeds leaves the entries that were there, in their order, each with the
-- default filled in, and every one of them obeys the rules and has all its pointers.
pub validate-IsUsable :
    (c : Config)
    → NodupKeys c.ns_map
    → (validate c).0 ≡ ok tt
    → ((validate c).1.ns_map ≡ defaulted c.ns_map) × All IsUsable (validate c).1.ns_map
unfolding validate
validate-IsUsable c u h =
    let same = validate_from-defaulted c.ns_map [] c refl u h in
    (same, rw same (defaulted-IsUsable c.ns_map ((validate-ok c).0 h)))
