-- ===== src/Controller/Connect/Failure.antt =====
-- How `resolveNS` fails.
use nexentastor_csi_driver_b.Base.{
  Text, eq_text, is_empty, true, false, All, none, some, List, [], ◌∷◌, ◌≡◌, refl, arith,
}
use nexentastor_csi_driver_b.Exec.{Foreign, ok, panic}
use nexentastor_csi_driver_b.Ns.{Ns}
use nexentastor_csi_driver_b.Process.{Process, ns_data}
use nexentastor_csi_driver_b.Controller.Connect.{
  ResolveParams, give_up, search_zone, resolve_with_zone, resolve_ns,
}

module _ {W P R : Type 0} (ns : Ns W P R) where
  -- No entry of the configuration is in the zone.
  abbrev pub NoneIn : Text → List (Text × R) → Process W R → Type 0
  NoneIn zone resolvers s = All (λ e. eq_text zone (ns_data e.0 s).zone ≡ false) resolvers

  search_zone-none :
      (zone group : Text) (resolvers : List (Text × R)) (s : Process W R)
      → NoneIn zone resolvers s
      → search_zone ns zone group resolvers none s ≡ (panic, s)
  unfolding search_zone give_up
  search_zone-none zone group [] s h = refl
  search_zone-none zone group ((name, r) ∷ resolvers) s h =
      ground (arith, h.0, search_zone-none zone group resolvers s h.1)

  -- A request for a zone that no NexentaStor is in, and that names no configuration, panics: the error
  -- whose text is tested has not been set.
  pub resolve_ns_no_zone_panics :
      (params : ResolveParams) (s : Process W R)
      → is_empty params.zone ≡ false
      → is_empty params.config_name ≡ true
      → NoneIn params.zone s.resolvers s
      → resolve_ns ns params s ≡ (panic, s)
  unfolding resolve_ns resolve_with_zone
  resolve_ns_no_zone_panics params s z c h =
      rw (z, c, search_zone-none params.zone params.volume_group s.resolvers s h)

  -- No resolver knows the volume group: every call ends with an error and no provider.
  pub record NoneHas : Type 0 where
    pub missing :
        (resolver : R) (group : Text) (w : W)
        → (f : Foreign) × ((ns.resolve_from_vg resolver group w).0
            ≡ ok (record { value = none; error = some f }))
