-- ===== src/Config/Check/Rules.antt =====
-- What an accepted configuration looks like.

use nexentastor_csi_driver_b.Base.{
  Text, is_empty, split, All, Bool, true, false, Option, none, some, List, [], ◌∷◌, ◌++◌, ◌≡◌, ◌≢◌,
  ◌↔◌, inl, inr, refl, arith, Bool-cases, Option-cases,
}
use nexentastor_csi_driver_b.Exec.{ok}
use nexentastor_csi_driver_b.Config.Defs.{NsData, Config}
use nexentastor_csi_driver_b.Config.Pattern.{matches_address}
use nexentastor_csi_driver_b.Config.Pattern.Address.{IsAddress, matches_address-IsAddress}
use nexentastor_csi_driver_b.Config.Check.{
  Problem, bad_addresses, address_problems, static_problems, entry_problems, store_default,
  validate_from, validate, when, no_pointer, noted,
}

-- The rules for one NexentaStor.
pub record IsValid (d : NsData) : Type 0 where
  pub address_given : is_empty d.address ≡ false
  pub addresses : All IsAddress (split b',' d.address)
  pub username_given : is_empty d.username ≡ false
  pub password_given : is_empty d.password ≡ false
  pub allocation_given : d.dynamic_target_lun_allocation ≢ none
  pub target_given :
      d.dynamic_target_lun_allocation ≡ some false → is_empty d.default_target ≡ false
  pub target_group_given :
      d.dynamic_target_lun_allocation ≡ some false → is_empty d.default_target_group ≡ false

bad_addresses-nil : (texts : List Text) → (bad_addresses texts ≡ []) ↔ All IsAddress texts
unfolding bad_addresses
bad_addresses-nil [] = (λ _. tt, λ _. refl)
bad_addresses-nil (a ∷ texts) = (
  λ h. elim (Bool-cases (matches_address a)) [
    | inl e ↦ ((matches_address-IsAddress a).0 e, (bad_addresses-nil texts).0 (ground arith))
    | inr e ↦ ground arith
  ],
  λ h. rw ((matches_address-IsAddress a).1 h.0) ((bad_addresses-nil texts).1 h.1),
)

append-eq-nil : {A : Type 0} (xs ys : List A) → xs ++ ys ≡ [] → (xs ≡ []) × (ys ≡ [])
append-eq-nil [] ys h = (refl, h)
append-eq-nil (x ∷ xs) ys h = cc

when-nil : (b : Bool) (p : Problem) → when b p ≡ [] → b ≡ false
when-nil true p h = cc
when-nil false p h = refl

address_problems-nil :
    (d : NsData)
    → address_problems d ≡ []
    → (is_empty d.address ≡ false) × All IsAddress (split b',' d.address)
unfolding address_problems
address_problems-nil d h = elim (Bool-cases (is_empty d.address)) [
  | inl e ↦ ground arith
  | inr e ↦ (e, (bad_addresses-nil (split b',' d.address)).0 (ground arith))
]

static_target :
    (a : Option Bool) (d : NsData)
    → static_problems a d ≡ some []
    → a ≡ some false
    → (is_empty d.default_target ≡ false) × (is_empty d.default_target_group ≡ false)
unfolding static_problems
static_target a d h e = ground arith

static_allocation : (a : Option Bool) (d : NsData) → static_problems a d ≢ none → a ≢ none
unfolding static_problems
static_allocation none d h = λ e. h refl
static_allocation (some b) d h = λ e. ground arith

entry_of_parts :
    (d : NsData)
    → noted d ≡ []
    → static_problems d.dynamic_target_lun_allocation d ≡ some []
    → IsValid d
unfolding noted
entry_of_parts d h s =
    let parts =
      append-eq-nil (address_problems d ++ when (is_empty d.username) Problem.no_username) _ h in
    let left =
      append-eq-nil (address_problems d) (when (is_empty d.username) Problem.no_username) parts.0 in
    let right =
      append-eq-nil (when (is_empty d.password) Problem.no_password)
        (when (no_pointer d.dynamic_target_lun_allocation) Problem.no_dynamic) parts.1 in
    let address = address_problems-nil d left.0 in
    record {
      address_given = address.0;
      addresses = address.1;
      username_given = when-nil _ _ left.1;
      password_given = when-nil _ _ right.0;
      allocation_given = static_allocation _ d (λ e. cc);
      target_given = λ e. (static_target _ d s e).0;
      target_group_given = λ e. (static_target _ d s e).1;
    }

entry_problems-nil : (d : NsData) → entry_problems d ≡ some [] → IsValid d
unfolding entry_problems
entry_problems-nil d h = elim (Option-cases (static_problems d.dynamic_target_lun_allocation d)) [
  | inl e ↦ ground arith
  | inr (more, e) ↦
      let parts = append-eq-nil (noted d) more (ground arith) in
      entry_of_parts d parts.0 (ground arith)
]

address_problems-IsValid : (d : NsData) → IsValid d → address_problems d ≡ []
unfolding address_problems
address_problems-IsValid d h =
    rw h.address_given ((bad_addresses-nil (split b',' d.address)).1 h.addresses)

static_problems-IsValid :
    (d : NsData) → IsValid d → static_problems d.dynamic_target_lun_allocation d ≡ some []
unfolding static_problems
static_problems-IsValid d h =
    ground (arith, h.allocation_given, h.target_given, h.target_group_given)

entry_problems-IsValid : (d : NsData) → IsValid d → entry_problems d ≡ some []
unfolding entry_problems
entry_problems-IsValid d h = ground (
  arith,
  address_problems-IsValid d h,
  static_problems-IsValid d h,
  h.username_given,
  h.password_given,
  h.allocation_given,
)

abbrev pub EntryValid : Text × NsData → Type 0
EntryValid (name, d) = IsValid d

validate_from-ok :
    (es : List (Text × NsData)) (c : Config) → ((validate_from es c).0 ≡ ok tt) ↔ All EntryValid es
unfolding validate_from
validate_from-ok [] c = (λ _. tt, λ _. refl)
validate_from-ok ((name, d) ∷ es) c = (
  λ h. ground (arith, entry_problems-nil d, (validate_from-ok es (store_default name d c)).0),
  λ h.
      rw (entry_problems-IsValid d h.0, validate_from)
        ((validate_from-ok es (store_default name d c)).1 h.1),
)

-- Validation accepts a configuration exactly if every NexentaStor of it obeys the rules.
pub validate-ok : (c : Config) → ((validate c).0 ≡ ok tt) ↔ All EntryValid c.ns_map
unfolding validate
validate-ok c = validate_from-ok c.ns_map c
