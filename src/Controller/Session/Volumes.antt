-- ===== src/Controller/Session/Volumes.antt =====
-- What `DeleteVolume`, `ControllerUnpublishVolume` and `ControllerExpandVolume` do behind the refresh
-- changes nothing of the process.
use nexentastor_csi_driver_b.Base.{
  ℕ, zero, suc, ◌+◌, Text, ℤ, ltb_ℤ, ltb, true, false, Option, none, some, List, [], ◌∷◌,
}
use nexentastor_csi_driver_b.Exec.{
  Exec, Tried, got, failed, pure, attempt, or_fail, errorf, status_code, is_code_not_found, ◌>>=◌,
}
use nexentastor_csi_driver_b.Ns.{Ns, LunMapping, of_volume}
use nexentastor_csi_driver_b.Process.{Process, outside, on}
use nexentastor_csi_driver_b.Process.Stays.{
  Stays, Stays-bind, Stays-pure, Stays-fail, Stays-outside, Stays-on, Stays-attempt, Stays-or_fail,
  Stays-if, Stays-option,
}
use nexentastor_csi_driver_b.Controller.Connect.{ResolveResponse, resolve_ns}
use nexentastor_csi_driver_b.Controller.Request.{volume_group_of}
use nexentastor_csi_driver_b.Controller.Volumes.{
  destroy_lun_mappings, unmap, unless_missing, delete_resolved, or_gone, await_unmapped,
  unpublish_resolved, expand_resolved,
}
use nexentastor_csi_driver_b.Controller.Session.Connect.{resolve_ns-Stays}

module _ {W P R : Type 0} (ns : Ns W P R) where
  pub expand_resolved-Stays :
      (path : Text) (capacity : ℤ) (p : Option P)
      → Stays {R = R} (expand_resolved ns path capacity p)
  unfolding expand_resolved
  expand_resolved-Stays path capacity p =
      Stays-bind (on p (λ q. ns.get_volume q path)) _ (Stays-on p _) (λ v.
        Stays-if (ltb_ℤ v.volume_size capacity) _ _
          (Stays-bind
            (or_fail (λ e. errorf "Failed to expand volume %s: %s")
              (on p (λ q. ns.update_volume_size q path capacity)))
            _ (Stays-or_fail _ _ (Stays-on p _)) (λ _. Stays-pure _))
          (Stays-pure _))

  destroy-Stays :
      (p : Option P) (luns : List LunMapping) → Stays {R = R} (destroy_lun_mappings ns p luns)
  unfolding destroy_lun_mappings
  destroy-Stays p [] = Stays-pure tt
  destroy-Stays p (l ∷ luns) = Stays-bind _ _ (Stays-on p _) (λ _. destroy-Stays p luns)

  unmap-Stays : (path : Text) (p : Option P) → Stays {R = R} (unmap ns path p)
  unfolding unmap
  unmap-Stays path p =
      Stays-bind (on p (λ q. ns.get_lun_mappings q (of_volume path))) _ (Stays-on p _)
        (λ luns. destroy-Stays p luns)

  unless_missing-Stays : (t : Tried (Unit {0})) → Stays {R = R} (unless_missing ns t)
  unless_missing-Stays (got u) = Stays-pure tt
  unless_missing-Stays (failed e) =
      Stays-if (ns.is_not_exist e) _ _ (Stays-pure tt) (Stays-fail _ _)

  pub delete_resolved-Stays :
      (path : Text) (p : Option P) → Stays {R = R} (delete_resolved ns path p)
  unfolding delete_resolved
  delete_resolved-Stays path p = Stays-bind (unmap ns path p) _ (unmap-Stays path p) (λ _.
      Stays-bind (attempt (on p (λ q. ns.destroy_volume q path true true))) _
        (Stays-attempt _ (Stays-on p _)) (λ t. unless_missing-Stays t))

  module _ (sleep : ℕ → Exec W Unit) where
    await-Stays :
        (fuel time : ℕ) (path : Text) (p : Option P) (luns : List LunMapping)
        → Stays {R = R} (await_unmapped ns sleep fuel time path p luns)
    unfolding await_unmapped
    await-Stays fuel time path p [] = Stays-pure true
    await-Stays zero time path p (l ∷ luns) = Stays-pure false
    await-Stays (suc fuel) time path p (l ∷ luns) = Stays-if (ltb 60 time) _ _ (Stays-fail _ _) (
        Stays-bind (outside (sleep (time + 1))) _ (Stays-outside _) (λ _.
          Stays-bind (on p (λ q. ns.get_lun_mappings q (of_volume path))) _ (Stays-on p _)
            (λ left. await-Stays fuel (time + 1) path p left)))

    pub unpublish_resolved-Stays :
        (path : Text) (p : Option P) → Stays {R = R} (unpublish_resolved ns sleep path p)
    unfolding unpublish_resolved
    unpublish_resolved-Stays path p = Stays-bind (unmap ns path p) _ (unmap-Stays path p) (λ _.
        Stays-bind (on p (λ q. ns.get_lun_mappings q (of_volume path))) _ (Stays-on p _)
          (λ luns. await-Stays 60 2 path p luns))

  or_gone-Stays :
      (t : Tried (ResolveResponse P)) (k : Option P → Exec (Process W R) Unit)
      → ((p : Option P) → Stays (k p))
      → Stays (or_gone ns t k)
  or_gone-Stays (got r) k h = h r.ns_provider
  or_gone-Stays (failed e) k h =
      Stays-if (is_code_not_found (status_code e)) _ _ (Stays-pure tt) (Stays-fail _ e)

  module _ (k : Text → Option P → Exec (Process W R) Unit)
      (stays : (path : Text) (p : Option P) → Stays (k path p)) where
    -- The rest of `with_volume` behind the refresh.
    pub in_volume-Stays :
        (parts : Text × Text)
        → Stays {W = W} {R = R} (elim (volume_group_of parts.1) [
          | none ↦ pure tt
          | some g ↦
              attempt
                (resolve_ns ns (record { volume_group = g; zone = []; config_name = parts.0 }))
              >>= λ r. or_gone ns r (k parts.1)
        ])
    in_volume-Stays (config_name, path) =
        Stays-option (volume_group_of path) (pure tt)
          (λ g.
            attempt
              (resolve_ns ns (record { volume_group = g; zone = []; config_name = config_name }))
            >>= λ r. or_gone ns r (k path))
          (Stays-pure tt)
          (λ g.
            Stays-bind _ _ (Stays-attempt _ (resolve_ns-Stays ns _))
              (λ r. or_gone-Stays r (k path) (stays path)))
