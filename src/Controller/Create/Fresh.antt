-- ===== src/Controller/Create/Fresh.antt =====
-- `createNewVolume` makes a volume of the requested size, and can be repeated.
use nexentastor_csi_driver_b.Base.{
  Text, ℤ, pos, eq_ℤ_iff, Bool, none, some, ◌≡◌, ◌≢◌, ◌⊎◌, inl, inr, arith, Bool-cases,
}
use nexentastor_csi_driver_b.Exec.{ok, Outcome-cases}
use nexentastor_csi_driver_b.Ns.{Ns}
use nexentastor_csi_driver_b.Ns.Appliance.{IsAppliance}
use nexentastor_csi_driver_b.Process.{Process}
use nexentastor_csi_driver_b.Controller.Create.{accept_existing, create_new_volume}

module _ {W P R : Type 0} (ns : Ns W P R) (laws : IsAppliance ns) (p : P) (path : Text) (size : ℤ)
    (nonzero : size ≢ pos 0) where
  accept_existing_size :
      (s : Process W R)
      → (accept_existing ns (some p) path size s).0 ≡ ok tt
      → (laws.volume_at p path (accept_existing ns (some p) path size s).1.world ≡ some size)
        × (laws.volume_at p path s.world ≡ some size)
  unfolding accept_existing
  accept_existing_size s h =
      let call = ns.get_volume p path s.world in
      elim (Outcome-cases call.0) [
        | inl (inl (v, e)) ↦ ground (
          arith,
          laws.get_volume_ok p path s.world v,
          eq_ℤ_iff size (pos 0),
          eq_ℤ_iff v.volume_size size,
        )
        | inl (inr (x, e)) ↦ ground arith
        | inr e ↦ ground arith
      ]

  -- A creation that succeeds leaves a volume of exactly the requested size, and the path held nothing
  -- or a volume of that size before: a volume that is there already is never taken at another size.
  pub create_new_volume_size :
      (sparse : Bool) (s : Process W R)
      → (create_new_volume ns (some p) path size sparse s).0 ≡ ok tt
      → (laws.volume_at p path (create_new_volume ns (some p) path size sparse s).1.world
          ≡ some size)
        × ((laws.volume_at p path s.world ≡ none) ⊎ (laws.volume_at p path s.world ≡ some size))
  unfolding create_new_volume
  create_new_volume_size sparse s h =
      let call = ns.create_volume p path size sparse s.world in
      let t : Process W R = record s { world = call.1 } in
      elim (Outcome-cases call.0) [
        | inl (inl (u, e)) ↦
            let made = laws.create_volume_ok p path size sparse s.world (ground arith) in
            (ground (arith, made.1), inl made.0)
        | inl (inr (x, e)) ↦ elim (Bool-cases (ns.is_already_exist x)) [
          | inl exists ↦
              let found = accept_existing_size t (ground arith) in
              (
                ground (arith, found.0),
                inr (
                    ground
                      (arith, found.1, laws.create_volume_exists p path size sparse s.world x e)),
              )
          | inr other ↦ ground arith
        ]
        | inr e ↦ ground arith
      ]
