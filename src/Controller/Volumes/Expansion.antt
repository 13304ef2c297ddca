-- ===== src/Controller/Volumes/Expansion.antt =====
-- `ControllerExpandVolume` never shrinks a volume.
use nexentastor_csi_driver_b.Base.{Text, ℤ, ltb_ℤ, some, ◌≡◌, inl, inr, arith, if◌then◌else◌}
use nexentastor_csi_driver_b.Exec.{ok, Outcome-cases}
use nexentastor_csi_driver_b.Ns.{Ns}
use nexentastor_csi_driver_b.Ns.Appliance.{IsAppliance}
use nexentastor_csi_driver_b.Process.{Process}
use nexentastor_csi_driver_b.Csi.{ExpandResponse}
use nexentastor_csi_driver_b.Controller.Volumes.{expand_resolved}

-- The larger of two sizes.
abbrev pub larger : ℤ → ℤ → ℤ
larger a b = if ltb_ℤ a b then b else a

module _ {W P R : Type 0} (ns : Ns W P R) (laws : IsAppliance ns) (p : P) (path : Text) where
  -- A successful expansion of a volume leaves it with the larger of its size and the requested one,
  -- answers with the requested size, and asks the node to expand exactly if the volume has grown.
  pub expand_resolved_size :
      (size requested : ℤ) (s : Process W R) (response : ExpandResponse)
      → laws.volume_at p path s.world ≡ some size
      → (expand_resolved ns path requested (some p) s).0 ≡ ok response
      → (laws.volume_at p path (expand_resolved ns path requested (some p) s).1.world
          ≡ some (larger size requested))
        × (response.capacity_bytes ≡ requested)
        × (response.node_expansion_required ≡ ltb_ℤ size requested)
  unfolding expand_resolved
  expand_resolved_size size requested s response there h =
      let call = ns.get_volume p path s.world in
      let grow = ns.update_volume_size p path requested call.1 in
      elim (Outcome-cases call.0) [
        | inl (inl (v, e)) ↦ elim (Outcome-cases grow.0) [
          | inl (inl (u, g)) ↦ ground (
            arith,
            laws.get_volume_ok p path s.world v,
            laws.update_volume_ok p path requested call.1,
          )
          | inl (inr (x, g)) ↦ ground (arith, laws.get_volume_ok p path s.world v)
          | inr g ↦ ground (arith, laws.get_volume_ok p path s.world v)
        ]
        | inl (inr (x, e)) ↦ ground arith
        | inr e ↦ ground arith
      ]
