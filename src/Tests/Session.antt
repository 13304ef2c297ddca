-- ===== src/Tests/Session.antt =====
-- The controller from its start over two requests, of which the first reads the configuration again.
use nexentastor_csi_driver_b.Base.{
  ℕ, bytes, eq_text, split, join, lookup, insert, All, List, [], ◌∷◌, refl, arith,
}
use nexentastor_csi_driver_b.Exec.{Outcome, ok}
use nexentastor_csi_driver_b.Config.{validate, refresh}
use nexentastor_csi_driver_b.Config.Check.Rules.{EntryValid, validate-ok}
use nexentastor_csi_driver_b.Config.Reload.Sound.{IsSound, MakesMaps}
use nexentastor_csi_driver_b.Controller.Connect.{
  connect, last_secret, new_resolvers, new_controller_server, reconnect, refresh_config, refreshed,
  resolve_ns, resolve_no_zone, resolve_named,
}
use nexentastor_csi_driver_b.Controller.Request.{split_id, volume_group_of}
use nexentastor_csi_driver_b.Controller.Volumes.{
  delete_volume, with_volume, delete_resolved, unmap, destroy_lun_mappings,
}
use nexentastor_csi_driver_b.Controller.Session.{
  Request, delete, remove_snapshot, serve, serve_all, Refreshes, IsConnected,
}
use nexentastor_csi_driver_b.Controller.Session.Invariant.{session-IsConnected}
use nexentastor_csi_driver_b.Tests.Appliance.{Box, memory}
use nexentastor_csi_driver_b.Tests.Fixtures.{disk, settings, started}

pub disk-MakesMaps : MakesMaps disk
disk-MakesMaps = record { makes = λ text c u. u }

pub settings-IsSound : IsSound settings
unfolding validate split lookup
settings-IsSound =
    let valid : All EntryValid settings.ns_map = (validate-ok settings).0 refl in
    record { distinct = (refl, tt); usable = ((valid.0, λ e. ground arith), tt) }

abbrev requests : List Request
requests =
    delete (record { volume_id = bytes "one:p/g/v"; secrets = (bytes "k", bytes "s") ∷ [] })
    ∷ remove_snapshot []
    ∷ []

abbrev nap : ℕ → Box → Outcome (Unit {0}) × Box
nap n w = (ok tt, record w { time = n })

session-IsConnected_example : IsConnected (serve_all memory disk nap requests started)
unfolding eq_text split join split_id lookup insert volume_group_of last_secret refresh
    refresh_config refreshed resolve_named resolve_no_zone resolve_ns destroy_lun_mappings unmap
    delete_resolved with_volume delete_volume connect new_resolvers new_controller_server serve
    Refreshes reconnect validate
session-IsConnected_example =
    session-IsConnected memory disk disk-MakesMaps nap requests started started settings-IsSound
      refl (refl, (refl, tt))
