-- ===== src/Tests/Deletion.antt =====
-- Deletions, expansions and creations on the appliance in memory.
use nexentastor_csi_driver_b.Base.{
  Text, bytes, eq_text, split, join, lookup, pos, true, none, some, [], ◌≡◌, ◌⊎◌, refl, arith,
}
use nexentastor_csi_driver_b.Exec.{Outcome, ok, err, status, deadline_exceeded}
use nexentastor_csi_driver_b.Config.{refresh}
use nexentastor_csi_driver_b.Ns.{Ns}
use nexentastor_csi_driver_b.Csi.{VolumeRequest, ExpandResponse}
use nexentastor_csi_driver_b.Process.{Process}
use nexentastor_csi_driver_b.Controller.Connect.{
  last_secret, refreshed, refresh_config, resolve_ns, resolve_no_zone, resolve_named,
}
use nexentastor_csi_driver_b.Controller.Request.{split_id, volume_group_of}
use nexentastor_csi_driver_b.Controller.Volumes.{
  delete_volume, with_volume, delete_resolved, unmap, destroy_lun_mappings, await_unmapped,
  unpublish_resolved, expand_resolved,
}
use nexentastor_csi_driver_b.Controller.Volumes.Deletion.{delete_volume_gone}
use nexentastor_csi_driver_b.Controller.Volumes.Waiting.{Reports, Ended, unpublish_resolved-Ended}
use nexentastor_csi_driver_b.Controller.Volumes.Expansion.{larger, expand_resolved_size}
use nexentastor_csi_driver_b.Controller.Create.{create_new_volume, accept_existing}
use nexentastor_csi_driver_b.Controller.Create.Fresh.{create_new_volume_size}
use nexentastor_csi_driver_b.Tests.Appliance.{Box, memory, memory-IsAppliance}
use nexentastor_csi_driver_b.Tests.Fixtures.{disk, started, volume_v}

abbrev of_id : Text → VolumeRequest
of_id id = record { volume_id = id; secrets = [] }

-- The process after the deletion of the volume that is there.
abbrev deleted : Process Box (Unit {0})
deleted = (delete_volume memory disk (of_id (bytes "one:p/g/v")) started).1

delete_volume_gone_example :
    (memory-IsAppliance.volume_at tt volume_v deleted.world ≡ none)
    × (memory-IsAppliance.mapped tt volume_v deleted.world ≡ [])
unfolding eq_text split join split_id lookup volume_group_of last_secret refresh refresh_config
    refreshed resolve_named resolve_no_zone resolve_ns destroy_lun_mappings unmap delete_resolved
    with_volume delete_volume
delete_volume_gone_example =
    delete_volume_gone memory disk (of_id (bytes "one:p/g/v")) started started refl refl
      memory-IsAppliance (bytes "one") volume_v (bytes "p/g") tt started deleted refl refl refl refl

-- An appliance that reports a mapping as removed and goes on to list it.
abbrev pub sticky : Ns Box (Unit {0}) (Unit {0})
sticky = record memory { destroy_lun_mapping = λ p id w. (ok tt, w) }

sticky-Reports : Reports sticky
sticky-Reports = record {
  mapped = λ p path w. w.luns_of path;
  reported = λ p path w luns h. ground arith;
}

unpublish_resolved-Ended_example :
    Ended sticky sticky-Reports tt volume_v
      (unpublish_resolved sticky (λ n w. (ok tt, w)) volume_v (some tt) started)
unpublish_resolved-Ended_example =
    unpublish_resolved-Ended sticky sticky-Reports tt volume_v (λ n w. (ok tt, w)) started

-- The loop of sixty rounds is run, and it gives up.
gives_up :
    (unpublish_resolved sticky (λ n w. (ok tt, w)) volume_v (some tt) started).0
    ≡ err (status deadline_exceeded "Luns did not get deleted in %v seconds")
unfolding eq_text unpublish_resolved unmap destroy_lun_mappings await_unmapped
gives_up = refl

abbrev grown : Outcome ExpandResponse × Process Box (Unit {0})
grown = expand_resolved memory volume_v (pos 250) (some tt) started

expand_resolved_size_example :
    (memory-IsAppliance.volume_at tt volume_v grown.1.world ≡ some (larger (pos 100) (pos 250)))
    × (pos 250 ≡ pos 250)
    × (true ≡ true)
unfolding eq_text expand_resolved
expand_resolved_size_example =
    expand_resolved_size memory memory-IsAppliance tt volume_v (pos 100) (pos 250) started
      (record { capacity_bytes = pos 250; node_expansion_required = true }) refl refl

-- A volume that is made twice, at the same size.
abbrev made_again : Outcome (Unit {0}) × Process Box (Unit {0})
made_again = create_new_volume memory (some tt) volume_v (pos 100) true started

create_new_volume_size_example :
    (memory-IsAppliance.volume_at tt volume_v made_again.1.world ≡ some (pos 100))
    × ((memory-IsAppliance.volume_at tt volume_v started.world ≡ none)
        ⊎ (memory-IsAppliance.volume_at tt volume_v started.world ≡ some (pos 100)))
unfolding eq_text accept_existing create_new_volume
create_new_volume_size_example =
    create_new_volume_size memory memory-IsAppliance tt volume_v (pos 100) (λ e. ground arith) true
      started refl
