-- ===== src/Identity/Stale.antt =====
-- A probe that meets a changed configuration takes the change from the other servers.
use nexentastor_csi_driver_b.Base.{ℕ, Bool, [], ◌≡◌, inl, inr, arith}
use nexentastor_csi_driver_b.Exec.{Outcome, ok, Outcome-cases}
use nexentastor_csi_driver_b.Config.{Host, Shared, refresh}
use nexentastor_csi_driver_b.Config.Reload.Repeat.{KeepsPrivate, Steady, refresh_again}
use nexentastor_csi_driver_b.Ns.{Ns}
use nexentastor_csi_driver_b.Process.{Process}
use nexentastor_csi_driver_b.Identity.{probe}
use nexentastor_csi_driver_b.Controller.Connect.{refresh_config}

-- What the probe makes of the shared configuration.
abbrev pub probed : {W R : Type 0} → Host W → Process W R → Outcome Bool × Shared W
probed host s = refresh host [] (record { config = s.config; world = s.world })

module _ {W P R : Type 0} (ns : Ns W P R) (host : Host W) (laws : KeepsPrivate host) where
  -- After a successful probe, while the file stays as it is, the controller's `refreshConfig` for a
  -- request without a secret does nothing at all: also if the probe has just read a changed
  -- configuration, the resolvers stay those of the old one. A request with a secret is another
  -- matter: it reads its configuration from the secret.
  pub probe_hides_change :
      (t : ℕ) (s u : Process W R)
      → Steady host s.config.file_path t
      → probe host s ≡ (ok tt, u)
      → (refresh_config ns host [] u ≡ (ok tt, u))
        × (u.config ≡ (probed host s).1.config)
        × (u.resolvers ≡ s.resolvers)
  unfolding probe refresh_config
  probe_hides_change t s u steady h =
      let c : Shared W = record { config = s.config; world = s.world } in
      elim (Outcome-cases (probed host s).0) [
        | inl (inl (b, e)) ↦ ground (arith, refresh_again host laws t c b steady e)
        | inl (inr (x, e)) ↦ ground arith
        | inr e ↦ ground arith
      ]
