-- ===== src/Tests/Data.antt =====
-- Configurations, addresses, IDs, roles and pages.

use nexentastor_csi_driver_b.Base.{
  ℕ, Text, bytes, eq_text, is_empty, ◌&&◌, All, split, Bool, true, false, not, none, some, List, [],
  ◌∷◌, map, ◌≡◌, ◌≢◌, ◌⊎◌, ◌↔◌, refl, arith,
}
use nexentastor_csi_driver_b.Exec.{ok}
use nexentastor_csi_driver_b.Role.{Role, string, parse_role}
use nexentastor_csi_driver_b.Role.Laws.{parse_role-string}
use nexentastor_csi_driver_b.FilePath.{dir, dot, dot_dot}
use nexentastor_csi_driver_b.Config.{Config, no_ns_data, Shared, validate, refresh}
use nexentastor_csi_driver_b.Config.Pattern.{matches_address}
use nexentastor_csi_driver_b.Config.Pattern.Address.{IsAddress, matches_address-IsAddress}
use nexentastor_csi_driver_b.Config.Check.Rules.{EntryValid, validate-ok}
use nexentastor_csi_driver_b.Config.Reload.Repeat.{refresh_again}
use nexentastor_csi_driver_b.Ns.{Snapshot}
use nexentastor_csi_driver_b.Process.{Process}
use nexentastor_csi_driver_b.Identity.{probe}
use nexentastor_csi_driver_b.Identity.Stale.{probed, probe_hides_change}
use nexentastor_csi_driver_b.Controller.Connect.{refresh_config}
use nexentastor_csi_driver_b.Controller.Request.{joined, split_id, volume_group_of}
use nexentastor_csi_driver_b.Controller.Request.Ids.{volume_path, IsPart, split_id_created}
use nexentastor_csi_driver_b.Controller.Listing.{convert}
use nexentastor_csi_driver_b.Controller.Listing.Collect.{collect, collect_all}
use nexentastor_csi_driver_b.Controller.Listing.Pages.{Distinct}
use nexentastor_csi_driver_b.Tests.Appliance.{Box, memory}
use nexentastor_csi_driver_b.Tests.Fixtures.{
  disk, disk-KeepsPrivate, settings, entry, started, box, volume_v, lacks, lacks-Lacks,
}

validate-ok_example : ((validate settings).0 ≡ ok tt) ↔ All EntryValid settings.ns_map
validate-ok_example = validate-ok settings

matches_address-IsAddress_example :
    (matches_address (bytes "https://10.3.1.1:8443") ≡ true)
    ↔ IsAddress (bytes "https://10.3.1.1:8443")
matches_address-IsAddress_example = matches_address-IsAddress (bytes "https://10.3.1.1:8443")

parse_role-string_example :
    ((r : Role) × (string r ≡ bytes "node")
      × (parse_role (bytes "node") ≡ record { role = r; failed = false }))
    ⊎ (((r : Role) → string r ≢ bytes "node")
        × (parse_role (bytes "node") ≡ record { role = Role.role_all; failed = true }))
parse_role-string_example = parse_role-string (bytes "node")

abbrev groups : List Text
groups = bytes "a" ∷ bytes "b" ∷ []

-- An entry without `dynamicTargetLunAllocation`.
abbrev incomplete : Config
incomplete = record settings { ns_map = (bytes "two", no_ns_data) ∷ [] }

abbrev trusting : Config
trusting = record settings {
  ns_map = (bytes "one", record entry { insecure_skip_verify = none }) ∷ [];
}

abbrev shared_at : ℕ → Shared Box
shared_at t = record { config = record settings { last_mod_time = t }; world = box }

refresh_again_example :
    refresh disk [] (refresh disk [] (shared_at 3)).1
    ≡ (ok false, (refresh disk [] (shared_at 3)).1)
unfolding refresh validate eq_text split
refresh_again_example = refresh_again disk disk-KeepsPrivate 7 (shared_at 3) true (λ w. refl) refl

abbrev outdated : Process Box (Unit {0})
outdated = record started { config = record settings { last_mod_time = 3 } }

probe_hides_change_example :
    (refresh_config memory disk [] (probe disk outdated).1 ≡ (ok tt, (probe disk outdated).1))
    × ((probe disk outdated).1.config ≡ (probed disk outdated).1.config)
    × ((probe disk outdated).1.resolvers ≡ outdated.resolvers)
unfolding probe refresh validate split
probe_hides_change_example =
    probe_hides_change memory disk disk-KeepsPrivate 7 outdated _ (λ w. refl) refl

-- A text that is no name of a directory and has neither a slash nor a colon.
is_part : Text → Bool
is_part s =
    not (is_empty s)
    && (lacks b'/' s && (lacks b':' s && (not (eq_text s dot) && not (eq_text s dot_dot))))

is_part-IsPart : (s : Text) → is_part s ≡ true → IsPart s
unfolding is_part
is_part-IsPart s h = record {
  name = record {
    nonempty = ground arith;
    no_slash = lacks-Lacks b'/' s (ground arith);
    not_dot = ground arith;
    not_dot_dot = ground arith;
  };
  no_colon = lacks-Lacks b':' s (ground arith);
}

split_id_created_example :
    (split_id (joined b':' (bytes "one") (volume_path (bytes "p") (bytes "g") (bytes "v")))
      ≡ some (bytes "one", volume_path (bytes "p") (bytes "g") (bytes "v")))
    × (volume_group_of (volume_path (bytes "p") (bytes "g") (bytes "v"))
        ≡ some (joined b'/' (bytes "p") (bytes "g")))
    × (dir (volume_path (bytes "p") (bytes "g") (bytes "v")) ≡ joined b'/' (bytes "p") (bytes "g"))
unfolding is_part eq_text
split_id_created_example =
    split_id_created (bytes "one") (bytes "p") (bytes "g") (bytes "v")
      (lacks-Lacks b':' (bytes "one") refl) (is_part-IsPart (bytes "p") refl)
      (is_part-IsPart (bytes "g") refl) (is_part-IsPart (bytes "v") refl)

abbrev snapshot_named : Text → Snapshot
snapshot_named name = record { path = name; name = name; parent = volume_v; creation_time = 1 }

abbrev three_snapshots : List Snapshot
three_snapshots = map snapshot_named (bytes "s" ∷ bytes "t" ∷ bytes "u" ∷ [])

three-Distinct : Distinct three_snapshots
three-Distinct = ((λ e. ground arith, (λ e. ground arith, tt)), ((λ e. ground arith, tt), (tt, tt)))

collect_all_example :
    collect (convert (bytes "one")) 2 3 [] three_snapshots
    ≡ map (convert (bytes "one")) three_snapshots
collect_all_example =
    collect_all (convert (bytes "one")) 2 (omega arith) (omega arith) three_snapshots 3
      three-Distinct (refl, (refl, (refl, tt))) (omega arith)
