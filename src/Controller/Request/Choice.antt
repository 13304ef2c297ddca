-- ===== src/Controller/Request/Choice.antt =====
-- Which capabilities are accepted, and which zone is chosen.

use nexentastor_csi_driver_b.Base.{
  Text, Map, lookup, All, false, none, some, List, [], ◌∷◌, ◌++◌, ◌≡◌, ◌↔◌, inl, inr, refl, arith,
  Bool-cases,
}
use nexentastor_csi_driver_b.Csi.{
  Mode, unknown, single_node_writer, single_node_reader_only, multi_node_reader_only,
  multi_node_single_writer, multi_node_multi_writer, single_node_single_writer,
  single_node_multi_writer, Capability, Requirement,
}
use nexentastor_csi_driver_b.Controller.Request.{
  validate_volume_capability, first_unsupported, first_zone, pick_availability_zone, zone_key,
}

-- The access modes of one writer pod, and an unknown mode, are the ones that are not offered.
pub data IsRefused : Mode → Type 0 where
  unknown_mode : IsRefused unknown
  one_writer : IsRefused single_node_single_writer
  many_writers : IsRefused single_node_multi_writer

validate-IsRefused : (c : Capability) → validate_volume_capability c ≡ false → IsRefused c.mode
unfolding validate_volume_capability
validate-IsRefused c h = go c.mode h
  where
    go : (m : Mode) → validate_volume_capability (record c { mode = m }) ≡ false → IsRefused m
    go unknown e = unknown_mode
    go single_node_single_writer e = one_writer
    go single_node_multi_writer e = many_writers
    go single_node_writer e = cc
    go single_node_reader_only e = cc
    go multi_node_reader_only e = cc
    go multi_node_single_writer e = cc
    go multi_node_multi_writer e = cc

refused_invalid :
    (m : Mode) (c : Capability) → IsRefused m → c.mode ≡ m → validate_volume_capability c ≡ false
unfolding validate_volume_capability
refused_invalid _ c unknown_mode e = rw e
refused_invalid _ c one_writer e = rw e
refused_invalid _ c many_writers e = rw e

-- A list of capabilities is accepted exactly if none of its modes is one of the three.
pub first_unsupported-none :
    (cs : List Capability)
    → (first_unsupported cs ≡ none) ↔ All (λ (c : Capability). ¬ (IsRefused c.mode)) cs
unfolding first_unsupported
first_unsupported-none [] = (λ _. tt, λ _. refl)
first_unsupported-none (c ∷ cs) = elim (Bool-cases (validate_volume_capability c)) [
  | inl e ↦ (
    λ h. (λ r. cc (refused_invalid c.mode c r refl), (first_unsupported-none cs).0 (ground arith)),
    λ h. rw e ((first_unsupported-none cs).1 h.1),
  )
  | inr e ↦ (λ h. ground arith, λ h. absurd (h.0 (validate-IsRefused c e)))
]

abbrev HasNoZone : Map Text → Type 0
HasNoZone segments = lookup zone_key segments ≡ none

first_zone-append :
    (before after : List (Map Text)) (segments : Map Text) (zone : Text)
    → All HasNoZone before
    → lookup zone_key segments ≡ some zone
    → first_zone (before ++ (segments ∷ after)) ≡ some zone
unfolding first_zone
first_zone-append [] after segments zone h e = rw e
first_zone-append (b ∷ before) after segments zone h e =
    rw (h.0) (first_zone-append before after segments zone h.1 e)

first_zone-none : (ts : List (Map Text)) → All HasNoZone ts → first_zone ts ≡ none
unfolding first_zone
first_zone-none [] h = refl
first_zone-none (t ∷ ts) h = rw (h.0) (first_zone-none ts h.1)

first_zone_both :
    (xs ys : List (Map Text))
    → first_zone (xs ++ ys) ≡ elim (first_zone xs) [ none ↦ first_zone ys | some z ↦ some z ]
unfolding first_zone
first_zone_both [] ys = refl
first_zone_both (x ∷ xs) ys = ground (arith, first_zone_both xs ys)

-- The zone is that of the first topology that has one, the preferred topologies before the requisite
-- ones; without such a topology there is no zone.
pub pick_availability_zone_first :
    (r : Requirement) (before after : List (Map Text)) (segments : Map Text) (zone : Text)
    → r.preferred ++ r.requisite ≡ before ++ (segments ∷ after)
    → All HasNoZone before
    → lookup zone_key segments ≡ some zone
    → pick_availability_zone (some r) ≡ zone
unfolding pick_availability_zone
pick_availability_zone_first r before after segments zone e h z =
    let found = first_zone-append before after segments zone h z in
    ground (arith, found, first_zone_both r.preferred r.requisite)

pub pick_availability_zone_none :
    (r : Requirement)
    → All HasNoZone (r.preferred ++ r.requisite)
    → pick_availability_zone (some r) ≡ []
unfolding pick_availability_zone
pick_availability_zone_none r h =
    ground (
      arith,
      first_zone-none (r.preferred ++ r.requisite) h,
      first_zone_both r.preferred r.requisite,
    )
