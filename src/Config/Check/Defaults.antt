-- ===== src/Config/Check/Defaults.antt =====
-- What the validation writes back to the configuration.
use mathlib.Core.Option
use nexentastor_csi_driver_b.Base.{
  Text, lookup, lookup-insert, NodupKeys, eq_text, eq_text_iff, Option, none, some, List, [], ◌∷◌,
  ◌≡◌, refl, ◌∙◌, arith, if◌then◌else◌,
}
use nexentastor_csi_driver_b.Exec.{ok}
use nexentastor_csi_driver_b.Config.Defs.{NsData, Config}
use nexentastor_csi_driver_b.Config.Check.{with_default, store_default, validate_from, validate}

abbrev settled : Option NsData → Option NsData → Option NsData
settled none old = old
settled (some d) old = elim d.insecure_skip_verify [ none ↦ some (with_default d) | some b ↦ old ]

settled_same : (o : Option NsData) → settled o o ≡ Option.map with_default o
settled_same none = refl
settled_same (some d) = ground arith

lookup-store_default :
    (k name : Text) (d : NsData) (c : Config)
    → lookup k (store_default name d c).ns_map
      ≡ settled (if eq_text name k then some d else none) (lookup k c.ns_map)
lookup-store_default k name d c = ground (arith, lookup-insert name k (with_default d) c.ns_map)

lookup-validate_from :
    (k : Text) (es : List (Text × NsData)) (c : Config)
    → NodupKeys es
    → (validate_from es c).0 ≡ ok tt
    → lookup k (validate_from es c).1.ns_map ≡ settled (lookup k es) (lookup k c.ns_map)
unfolding validate_from lookup
lookup-validate_from k [] c u h = refl
lookup-validate_from k ((name, d) ∷ es) c u h = ground (
  arith,
  lookup-validate_from k es (store_default name d c) u.1,
  lookup-store_default k name d c,
  eq_text_iff name k,
)

-- An accepted configuration keeps every entry, with `insecureSkipVerify` filled in as true where it
-- is not given, and the pointer is never missing afterwards.
pub lookup-validate :
    (k : Text) (c : Config)
    → NodupKeys c.ns_map
    → (validate c).0 ≡ ok tt
    → lookup k (validate c).1.ns_map ≡ Option.map with_default (lookup k c.ns_map)
unfolding validate
lookup-validate k c u h = lookup-validate_from k c.ns_map c u h ∙ settled_same (lookup k c.ns_map)
