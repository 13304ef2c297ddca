-- ===== src/Controller/Store/Failed.antt =====
-- An operation that fails changes no size.
use nexentastor_csi_driver_b.Base.{
  Text, ℤ, ltb_ℤ, Bool, true, some, ◌≡◌, inl, inr, arith, Bool-cases,
}
use nexentastor_csi_driver_b.Exec.{Error, err, Outcome-cases}
use nexentastor_csi_driver_b.Ns.{Ns}
use nexentastor_csi_driver_b.Ns.Appliance.{IsAppliance}
use nexentastor_csi_driver_b.Process.{Process}
use nexentastor_csi_driver_b.Controller.Create.{create_new_volume}
use nexentastor_csi_driver_b.Controller.Volumes.{unmap, delete_resolved, expand_resolved}
use nexentastor_csi_driver_b.Controller.Store.{IsLocal}
use nexentastor_csi_driver_b.Controller.Store.Kept.{size_in, accept-local, unmap-local}

module _ {W P R : Type 0} (ns : Ns W P R) (laws : IsAppliance ns) (local : IsLocal ns laws) (p : P)
    (path : Text) (s : Process W R) (x : Error) where
  pub create-failed :
      (size : ℤ) (sparse : Bool)
      → (create_new_volume ns (some p) path size sparse s).0 ≡ err x
      → size_in ns laws local p path (create_new_volume ns (some p) path size sparse s).1
        ≡ size_in ns laws local p path s
  unfolding create_new_volume
  create-failed size sparse h =
      let call = ns.create_volume p path size sparse s.world in
      let t : Process W R = record s { world = call.1 } in
      elim (Outcome-cases call.0) [
        | inl (inl (u, e)) ↦ ground arith
        | inl (inr (y, e)) ↦
            let kept = laws.create_volume_exists p path size sparse s.world y e in
            elim (Bool-cases (ns.is_already_exist y)) [
              | inl there ↦ ground (arith, kept, accept-local ns laws local p path path size t)
              | inr other ↦ ground (arith, kept)
            ]
        | inr e ↦ ground arith
      ]

  pub delete-failed :
      (delete_resolved ns path (some p) s).0 ≡ err x
      → size_in ns laws local p path (delete_resolved ns path (some p) s).1
        ≡ size_in ns laws local p path s
  unfolding delete_resolved
  delete-failed h =
      let m = unmap ns path (some p) s in
      let call = ns.destroy_volume p path true true m.1.world in
      let kept = unmap-local ns laws local p path path s in
      elim (Outcome-cases m.0) [
        | inl (inl (v, f)) ↦ elim (Outcome-cases call.0) [
          | inl (inl (u, e)) ↦ ground arith
          | inl (inr (y, e)) ↦ ground (arith, kept, local.destroy_volume_failed p path m.1.world y)
          | inr e ↦ ground arith
        ]
        | inl (inr (y, f)) ↦ ground (arith, kept)
        | inr f ↦ ground arith
      ]

  pub expand-failed :
      (size : ℤ)
      → (expand_resolved ns path size (some p) s).0 ≡ err x
      → size_in ns laws local p path (expand_resolved ns path size (some p) s).1
        ≡ size_in ns laws local p path s
  unfolding expand_resolved
  expand-failed size h =
      let call = ns.get_volume p path s.world in
      let grow = ns.update_volume_size p path size call.1 in
      let kept = local.get_volume_keeps p path s.world path in
      elim (Outcome-cases call.0) [
        | inl (inl (v, e)) ↦ elim (Bool-cases (ltb_ℤ v.volume_size size)) [
          | inl less ↦ elim (Outcome-cases grow.0) [
            | inl (inl (u, g)) ↦ ground arith
            | inl (inr (y, g)) ↦
                ground (arith, kept, local.update_volume_failed p path size call.1 y)
            | inr g ↦ ground arith
          ]
          | inr enough ↦ ground arith
        ]
        | inl (inr (y, e)) ↦ ground (arith, kept)
        | inr e ↦ ground arith
      ]
