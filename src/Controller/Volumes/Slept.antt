-- ===== src/Controller/Volumes/Slept.antt =====
-- How long `ControllerUnpublishVolume` sleeps.
use nexentastor_csi_driver_b.Base.{
  ℕ, zero, suc, ◌+◌, ◌≤◌, Text, ltb, some, List, [], ◌∷◌, ◌≡◌, ◌≢◌, false, inl, inr, arith,
  Bool-cases,
}
use nexentastor_csi_driver_b.Exec.{Exec, ok, Outcome-cases}
use nexentastor_csi_driver_b.Exec.Steps.{bind_ok}
use nexentastor_csi_driver_b.Ns.{Ns, LunMapping, LunQuery, of_volume}
use nexentastor_csi_driver_b.Process.{Process, on}
use nexentastor_csi_driver_b.Controller.Volumes.{
  destroy_lun_mappings, unmap, await_unmapped, unpublish_resolved,
}

-- The seconds that have been slept: a sleep adds its own, and the calls on mappings add none.
pub record Sleeps {W P R : Type 0} (ns : Ns W P R) (sleep : ℕ → Exec W Unit) : Type 0 where
  pub slept : W → ℕ
  pub adds : (n : ℕ) (w : W) → slept (sleep n w).1 ≤ slept w + n
  pub looks : (p : P) (q : LunQuery) (w : W) → slept (ns.get_lun_mappings p q w).1 ≤ slept w
  pub removes : (p : P) (id : Text) (w : W) → slept (ns.destroy_lun_mapping p id w).1 ≤ slept w

abbrev pub triangle : ℕ → ℕ
triangle zero = 0
triangle (suc n) = triangle n + suc n

triangle_step : (n : ℕ) → triangle (n + 1) ≡ triangle n + n + 1
triangle_step n = let e : n + 1 ≡ suc n = omega arith in rw e (omega arith)

triangle_mono : (n m : ℕ) → n ≤ m → triangle n ≤ triangle m
triangle_mono zero m h = omega arith
triangle_mono (suc n) zero h = absurd (omega arith)
triangle_mono (suc n) (suc m) h = omega (arith, triangle_mono n m)

module _ {W P R : Type 0} (ns : Ns W P R) (sleep : ℕ → Exec W Unit) (laws : Sleeps ns sleep) (p : P)
    (path : Text) where
  -- The loop from `time` seconds on sleeps for time + 1, …, 61 seconds at most.
  await_unmapped-slept :
      (fuel time : ℕ) (luns : List LunMapping) (s : Process W R)
      → time ≤ 61
      → laws.slept (await_unmapped ns sleep fuel time path (some p) luns s).1.world + triangle time
        ≤ laws.slept s.world + triangle 61
  unfolding await_unmapped
  await_unmapped-slept fuel time [] s early = omega (arith, triangle_mono time 61)
  await_unmapped-slept zero time (m ∷ luns) s early = omega (arith, triangle_mono time 61)
  await_unmapped-slept (suc fuel) time (m ∷ luns) s early = elim (Bool-cases (ltb 60 time)) [
    | inl late ↦ rw late (omega (arith, triangle_mono time 61))
    | inr more ↦
        let nap = sleep (time + 1) s.world in
        let look = ns.get_lun_mappings p (of_volume path) nap.1 in
        let bound = triangle_mono (time + 1) 61 in
        let u : Process W R = record s { world = look.1 } in
        elim (Outcome-cases nap.0) [
          | inl (inl (v, e)) ↦ elim (Outcome-cases look.0) [
            | inl (inl (left, f)) ↦ ground (
              arith,
              await_unmapped-slept fuel (time + 1) left u,
              laws.adds (time + 1) s.world,
              laws.looks p (of_volume path) nap.1,
              triangle_step time,
            )
            | inl (inr (x, f)) ↦ ground (
              arith,
              bound,
              laws.adds (time + 1) s.world,
              laws.looks p (of_volume path) nap.1,
              triangle_step time,
            )
            | inr f ↦ ground (
              arith,
              bound,
              laws.adds (time + 1) s.world,
              laws.looks p (of_volume path) nap.1,
              triangle_step time,
            )
          ]
          | inl (inr (x, e)) ↦
              ground (arith, bound, laws.adds (time + 1) s.world, triangle_step time)
          | inr e ↦ ground (arith, bound, laws.adds (time + 1) s.world, triangle_step time)
        ]
  ]

  -- The loop from `time` seconds on is not cut off by the number of its rounds.
  await_unmapped-done :
      (fuel time : ℕ) (luns : List LunMapping) (s : Process W R)
      → time ≤ 61
      → 62 ≤ fuel + time
      → (await_unmapped ns sleep fuel time path (some p) luns s).0 ≢ ok false
  unfolding await_unmapped
  await_unmapped-done fuel time [] s early enough h = cc h
  await_unmapped-done zero time (m ∷ luns) s early enough h = omega arith
  await_unmapped-done (suc fuel) time (m ∷ luns) s early enough h =
      elim (Bool-cases (ltb 60 time)) [
        | inl late ↦ ground arith
        | inr more ↦
            let nap = sleep (time + 1) s.world in
            let look = ns.get_lun_mappings p (of_volume path) nap.1 in
            elim (Outcome-cases nap.0) [
              | inl (inl (v, e)) ↦ elim (Outcome-cases look.0) [
                | inl (inl (left, f)) ↦
                    ground (
                      arith,
                      await_unmapped-done fuel (time + 1) left (record s { world = look.1 }),
                    )
                | inl (inr (x, f)) ↦ ground arith
                | inr f ↦ ground arith
              ]
              | inl (inr (x, e)) ↦ ground arith
              | inr e ↦ ground arith
            ]
      ]

  unpublish_resolved-done :
      (s : Process W R) → (unpublish_resolved ns sleep path (some p) s).0 ≢ ok false
  unfolding unpublish_resolved
  unpublish_resolved-done s h =
      let (u, e, h1) = bind_ok (unmap ns path (some p)) _ s false h in
      let look : Exec (Process W R) (List LunMapping) =
        on (some p) (λ q. ns.get_lun_mappings q (of_volume path)) in
      let (left, f, h2) = bind_ok look _ _ false h1 in
      await_unmapped-done 60 2 left _ (omega arith) (omega arith) h2

  destroy_lun_mappings-slept :
      (luns : List LunMapping) (s : Process W R)
      → laws.slept (destroy_lun_mappings ns (some p) luns s).1.world ≤ laws.slept s.world
  unfolding destroy_lun_mappings
  destroy_lun_mappings-slept [] s = omega arith
  destroy_lun_mappings-slept (m ∷ luns) s =
      let gone = ns.destroy_lun_mapping p m.id s.world in
      elim (Outcome-cases gone.0) [
        | inl (inl (v, e)) ↦ ground (
          arith,
          laws.removes p m.id s.world,
          destroy_lun_mappings-slept luns (record s { world = gone.1 }),
        )
        | inl (inr (x, e)) ↦ ground (arith, laws.removes p m.id s.world)
        | inr e ↦ ground (arith, laws.removes p m.id s.world)
      ]

  unmap-slept :
      (s : Process W R) → laws.slept (unmap ns path (some p) s).1.world ≤ laws.slept s.world
  unfolding unmap
  unmap-slept s =
      let look = ns.get_lun_mappings p (of_volume path) s.world in
      elim (Outcome-cases look.0) [
        | inl (inl (luns, e)) ↦ ground (
          arith,
          laws.looks p (of_volume path) s.world,
          destroy_lun_mappings-slept luns (record s { world = look.1 }),
        )
        | inl (inr (x, e)) ↦ ground (arith, laws.looks p (of_volume path) s.world)
        | inr e ↦ ground (arith, laws.looks p (of_volume path) s.world)
      ]

  unpublish_resolved-bound :
      (s : Process W R)
      → laws.slept (unpublish_resolved ns sleep path (some p) s).1.world ≤ laws.slept s.world + 1888
  unfolding unpublish_resolved
  unpublish_resolved-bound s =
      let m = unmap ns path (some p) s in
      let look = ns.get_lun_mappings p (of_volume path) m.1.world in
      elim (Outcome-cases m.0) [
        | inl (inl (v, e)) ↦ elim (Outcome-cases look.0) [
          | inl (inl (left, f)) ↦ ground (
            arith,
            unmap-slept s,
            laws.looks p (of_volume path) m.1.world,
            await_unmapped-slept 60 2 left (record m.1 { world = look.1 }),
          )
          | inl (inr (x, f)) ↦
              ground (arith, unmap-slept s, laws.looks p (of_volume path) m.1.world)
          | inr f ↦ ground (arith, unmap-slept s, laws.looks p (of_volume path) m.1.world)
        ]
        | inl (inr (x, e)) ↦ ground (arith, unmap-slept s)
        | inr e ↦ ground (arith, unmap-slept s)
      ]

  -- Once its appliance is found, `ControllerUnpublishVolume` ends within its 60 rounds, with or
  -- without an error, and until then it sleeps for no more than 3 + 4 + … + 61 = 1888 seconds, if
  -- the calls of the library do not sleep and a sleep is not longer than asked for. The bound is
  -- half an hour, not the 61 seconds of its message.
  pub unpublish_resolved-slept :
      (s : Process W R)
      → ((unpublish_resolved ns sleep path (some p) s).0 ≢ ok false)
        × (laws.slept (unpublish_resolved ns sleep path (some p) s).1.world
            ≤ laws.slept s.world + 1888)
  unpublish_resolved-slept s = (unpublish_resolved-done s, unpublish_resolved-bound s)
