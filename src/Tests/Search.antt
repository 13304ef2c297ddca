-- ===== src/Tests/Search.antt =====
-- Searches for an appliance, and their failures.
use nexentastor_csi_driver_b.Base.{
  Text, bytes, eq_text, All, join, lookup, pos, true, none, some, List, [], ◌≡◌, refl, arith,
}
use nexentastor_csi_driver_b.Exec.{ok, err, panic, status, already_exists}
use nexentastor_csi_driver_b.Config.{refresh}
use nexentastor_csi_driver_b.Ns.{Ns, Snapshot}
use nexentastor_csi_driver_b.FilePath.{dir}
use nexentastor_csi_driver_b.Csi.{CreateRequest}
use nexentastor_csi_driver_b.Controller.Connect.{
  ResolveParams, last_secret, refreshed, refresh_config, resolve_ns, resolve_with_zone, search_zone,
}
use nexentastor_csi_driver_b.Controller.Connect.Search.{Answers, resolve_ns-Answers}
use nexentastor_csi_driver_b.Controller.Connect.Failure.{resolve_ns_no_zone_panics}
use nexentastor_csi_driver_b.Controller.Snapshots.{has_conflict, create_snapshot_on_ns}
use nexentastor_csi_driver_b.Controller.Snapshots.Conflict.{
  Ours, create_snapshot_conflict, create_snapshot_free,
}
use nexentastor_csi_driver_b.Controller.Create.{created_volume}
use nexentastor_csi_driver_b.Controller.Volumes.{delete_volume}
use nexentastor_csi_driver_b.Lifecycle.{delete_volume_colon}
use nexentastor_csi_driver_b.Tests.Appliance.{Box, memory, fault}
use nexentastor_csi_driver_b.Tests.Fixtures.{disk, started, volume_v, entry}

abbrev params : Text → Text → ResolveParams
params zone config_name = record { volume_group = []; zone = zone; config_name = config_name }

resolve_ns-Answers_example :
    Answers memory
      (params (bytes "a") [])
      started
      (record { volume_group = bytes "p/g"; ns_provider = some tt; config_name = bytes "one" })
unfolding eq_text lookup search_zone resolve_with_zone resolve_ns
resolve_ns-Answers_example = resolve_ns-Answers memory (params (bytes "a") []) started _ refl

resolve_ns_no_zone_panics_example :
    resolve_ns memory (params (bytes "b") []) started ≡ (panic, started)
unfolding eq_text lookup
resolve_ns_no_zone_panics_example =
    resolve_ns_no_zone_panics memory (params (bytes "b") []) started refl refl (refl, tt)

-- An appliance that has no volume group.
abbrev without_groups : Ns Box (Unit {0}) (Unit {0})
without_groups = record memory {
  resolve_from_vg = λ r group w. (
    ok (record { value = none; error = some (record { identity = 2; text = bytes "not found" }) }),
    w,
  );
}

-- The snapshot `s` that is there is that of the volume `w`.
create_snapshot_conflict_example :
    create_snapshot_on_ns memory (some tt) volume_v (bytes "s") started
    ≡ (err (status already_exists "Snapshot '%s' already exists for filesystem: %s"), started)
create_snapshot_conflict_example =
    create_snapshot_conflict memory tt volume_v (bytes "s") started started.world.snapshots refl
      (λ h. ground (arith, h.0 refl))

create_snapshot_free_example :
    (ss : List Snapshot) × ((memory.get_snapshots tt (dir (bytes "p/g/w")) true started.world).0
      ≡ ok ss)
    × All (Ours (bytes "s") (bytes "p/g/w")) ss
unfolding eq_text join has_conflict create_snapshot_on_ns
create_snapshot_free_example =
    create_snapshot_free memory tt (bytes "p/g/w") (bytes "s") started _ refl

-- An appliance that does not list snapshots.
abbrev without_listing : Ns Box (Unit {0}) (Unit {0})
without_listing = record memory { get_snapshots = λ p path recursive w. (err (fault 4), w) }

abbrev create_request : CreateRequest
create_request = record {
  name = bytes "a:b";
  capabilities = none;
  parameters = [];
  secrets = [];
  source = none;
  requirement = none;
  required_bytes = pos 1;
}

delete_volume_colon_example :
    delete_volume memory disk
      (record {
        volume_id =
            (created_volume create_request none [] entry
              (bytes "one")
              (bytes "p/g")
              (bytes "p/g/a:b")).volume_id;
        secrets = [];
      })
      started
    ≡ (ok tt, started)
unfolding eq_text lookup last_secret refresh refresh_config refreshed
delete_volume_colon_example =
    delete_volume_colon memory disk create_request none [] (bytes "one") (bytes "p/g")
      (bytes "p/g/a") (bytes "b") entry [] started started refl
