-- ===== src/Controller/Store/Kept.antt =====
-- What the operations leave alone.
use nexentastor_csi_driver_b.Base.{
  Text, eq_text, ℤ, ltb_ℤ, Bool, true, false, Option, some, List, [], ◌∷◌, ◌≡◌, inl, inr, refl,
  arith, Bool-cases,
}
use nexentastor_csi_driver_b.Exec.{Outcome-cases}
use nexentastor_csi_driver_b.Ns.{Ns, LunMapping, of_volume}
use nexentastor_csi_driver_b.Ns.Appliance.{IsAppliance}
use nexentastor_csi_driver_b.Process.{Process}
use nexentastor_csi_driver_b.Controller.Create.{create_new_volume, accept_existing}
use nexentastor_csi_driver_b.Controller.Volumes.{
  destroy_lun_mappings, unmap, delete_resolved, expand_resolved,
}
use nexentastor_csi_driver_b.Controller.Store.{IsLocal}

module _ {W P R : Type 0} (ns : Ns W P R) (laws : IsAppliance ns) (local : IsLocal ns laws)
    (p : P) where
  -- The size at a path, in the world of a process.
  abbrev pub size_in : Text → Process W R → Option ℤ
  size_in q s = laws.volume_at p q s.world

  module _ (path : Text) (q : Text) where
    pub accept-local :
        (size : ℤ) (s : Process W R)
        → size_in q (accept_existing ns (some p) path size s).1 ≡ size_in q s
    unfolding accept_existing
    accept-local size s =
        let call = ns.get_volume p path s.world in
        elim (Outcome-cases call.0) [
          | inl (inl (v, e)) ↦ ground (arith, local.get_volume_keeps p path s.world q)
          | inl (inr (x, e)) ↦ ground (arith, local.get_volume_keeps p path s.world q)
          | inr e ↦ ground (arith, local.get_volume_keeps p path s.world q)
        ]

    pub create-local :
        (size : ℤ) (sparse : Bool) (s : Process W R)
        → eq_text path q ≡ false
        → size_in q (create_new_volume ns (some p) path size sparse s).1 ≡ size_in q s
    unfolding create_new_volume
    create-local size sparse s other =
        let call = ns.create_volume p path size sparse s.world in
        let kept = local.create_volume_local p path size sparse s.world q other in
        elim (Outcome-cases call.0) [
          | inl (inl (u, e)) ↦ ground (arith, kept)
          | inl (inr (x, e)) ↦ elim (Bool-cases (ns.is_already_exist x)) [
            | inl there ↦ ground (arith, kept, accept-local size (record s { world = call.1 }))
            | inr other ↦ ground (arith, kept)
          ]
          | inr e ↦ ground (arith, kept)
        ]

    destroy_lun_mappings-local :
        (luns : List LunMapping) (s : Process W R)
        → size_in q (destroy_lun_mappings ns (some p) luns s).1 ≡ size_in q s
    unfolding destroy_lun_mappings
    destroy_lun_mappings-local [] s = refl
    destroy_lun_mappings-local (m ∷ luns) s =
        let gone = ns.destroy_lun_mapping p m.id s.world in
        let kept = local.destroy_lun_mapping_keeps p m.id s.world q in
        elim (Outcome-cases gone.0) [
          | inl (inl (v, e)) ↦
              ground (arith, kept, destroy_lun_mappings-local luns (record s { world = gone.1 }))
          | inl (inr (x, e)) ↦ ground (arith, kept)
          | inr e ↦ ground (arith, kept)
        ]

    pub unmap-local : (s : Process W R) → size_in q (unmap ns path (some p) s).1 ≡ size_in q s
    unfolding unmap
    unmap-local s =
        let look = ns.get_lun_mappings p (of_volume path) s.world in
        let kept = local.get_lun_mappings_keeps p (of_volume path) s.world q in
        elim (Outcome-cases look.0) [
          | inl (inl (luns, e)) ↦
              ground (arith, kept, destroy_lun_mappings-local luns (record s { world = look.1 }))
          | inl (inr (x, e)) ↦ ground (arith, kept)
          | inr e ↦ ground (arith, kept)
        ]

    pub delete-local :
        (s : Process W R)
        → eq_text path q ≡ false
        → size_in q (delete_resolved ns path (some p) s).1 ≡ size_in q s
    unfolding delete_resolved
    delete-local s other =
        let m = unmap ns path (some p) s in
        let call = ns.destroy_volume p path true true m.1.world in
        let kept = local.destroy_volume_local p path m.1.world q other in
        elim (Outcome-cases m.0) [
          | inl (inl (v, f)) ↦ elim (Outcome-cases call.0) [
            | inl (inl (u, e)) ↦ ground (arith, unmap-local s, kept)
            | inl (inr (x, e)) ↦ elim (Bool-cases (ns.is_not_exist x)) [
              | inl gone ↦ ground (arith, unmap-local s, kept)
              | inr there ↦ ground (arith, unmap-local s, kept)
            ]
            | inr e ↦ ground (arith, unmap-local s, kept)
          ]
          | inl (inr (x, f)) ↦ ground (arith, unmap-local s)
          | inr f ↦ ground (arith, unmap-local s)
        ]

    pub expand-local :
        (size : ℤ) (s : Process W R)
        → eq_text path q ≡ false
        → size_in q (expand_resolved ns path size (some p) s).1 ≡ size_in q s
    unfolding expand_resolved
    expand-local size s other =
        let call = ns.get_volume p path s.world in
        let grow = ns.update_volume_size p path size call.1 in
        let kept = local.get_volume_keeps p path s.world q in
        let grown = local.update_volume_local p path size call.1 q other in
        elim (Outcome-cases call.0) [
          | inl (inl (v, e)) ↦ elim (Bool-cases (ltb_ℤ v.volume_size size)) [
            | inl less ↦ elim (Outcome-cases grow.0) [
              | inl (inl (u, g)) ↦ ground (arith, kept, grown)
              | inl (inr (x, g)) ↦ ground (arith, kept, grown)
              | inr g ↦ ground (arith, kept, grown)
            ]
            | inr enough ↦ ground (arith, kept)
          ]
          | inl (inr (x, e)) ↦ ground (arith, kept)
          | inr e ↦ ground (arith, kept)
        ]
