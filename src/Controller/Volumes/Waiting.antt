-- ===== src/Controller/Volumes/Waiting.antt =====
-- The waiting loop of `ControllerUnpublishVolume` ends, and with no mapping left.
use nexentastor_csi_driver_b.Base.{
  ℕ, zero, suc, ◌+◌, ◌≤◌, Text, Bool, true, false, some, List, [], ◌∷◌, ◌≡◌, inl, inr, refl, arith,
  Bool-cases, ltb,
}
use nexentastor_csi_driver_b.Exec.{Exec, Outcome, ok, err, panic, ◌>>=◌}
use nexentastor_csi_driver_b.Ns.{Ns, LunMapping, of_volume}
use nexentastor_csi_driver_b.Process.{Process, outside, on}
use nexentastor_csi_driver_b.Controller.Volumes.{unmap, await_unmapped, unpublish_resolved}

-- What the listing of mappings reports: those that the volume has, and it leaves them alone. Nothing
-- is assumed of the removal of a mapping, which may be reported long before the mapping is gone.
pub record Reports {W P R : Type 0} (ns : Ns W P R) : Type 0 where
  pub mapped : P → Text → W → List LunMapping
  pub reported :
      (p : P) (path : Text) (w : W) (luns : List LunMapping)
      → (ns.get_lun_mappings p (of_volume path) w).0 ≡ ok luns
      → mapped p path (ns.get_lun_mappings p (of_volume path) w).1 ≡ luns

-- The loop has not run out of its rounds, and has ended with success only without mappings.
abbrev pub Ended :
    {W P R : Type 0} (ns : Ns W P R) (laws : Reports ns)
    → P
    → Text
    → Outcome Bool × Process W R
    → Type 0
Ended ns laws p path (ok false, t) = ⊥
Ended ns laws p path (ok true, t) = laws.mapped p path t.world ≡ []
Ended ns laws p path (err e, t) = Unit
Ended ns laws p path (panic, t) = Unit

module _ {W P R : Type 0} (ns : Ns W P R) (laws : Reports ns) (p : P) (path : Text) where
  Ended-bind :
      {A : Type 0} (m : Exec (Process W R) A) (f : A → Exec (Process W R) Bool) (s : Process W R)
      → ((a : A) → (m s).0 ≡ ok a → Ended ns laws p path (f a (m s).1))
      → Ended ns laws p path ((m >>= f) s)
  Ended-bind {A} m f s h = go (m s).0 refl
    where
      go : (r : Outcome A) → (m s).0 ≡ r → Ended ns laws p path ((m >>= f) s)
      go (ok a) e = rw (e, ◌>>=◌) (h a e)
      go (err x) e = rw (e, ◌>>=◌) tt
      go panic e = rw (e, ◌>>=◌) tt

  module _ (sleep : ℕ → Exec W Unit) where
    -- The rounds from `time` seconds on: the loop fails in the round of 61 seconds at the latest.
    await_unmapped_ends :
        (fuel time : ℕ) (luns : List LunMapping) (s : Process W R)
        → time ≤ 61
        → 62 ≤ fuel + time
        → laws.mapped p path s.world ≡ luns
        → Ended ns laws p path (await_unmapped ns sleep fuel time path (some p) luns s)
    unfolding await_unmapped
    await_unmapped_ends fuel time [] s early enough now = now
    await_unmapped_ends zero time (m ∷ luns) s early enough now = absurd (omega arith)
    await_unmapped_ends (suc fuel) time (m ∷ luns) s early enough now =
        elim (Bool-cases (ltb 60 time)) [
          | inl late ↦ rw late tt
          | inr more ↦ rw more (
              Ended-bind (outside (sleep (time + 1))) _ s (λ _ _.
                let t : Process W R = record s { world = (sleep (time + 1) s.world).1 } in
                Ended-bind (on (some p) (λ q. ns.get_lun_mappings q (of_volume path))) _ t
                  (λ left e.
                    await_unmapped_ends fuel (time + 1) left _ (ground arith) (omega arith)
                      (laws.reported p path t.world left e))))
        ]

    -- The waiting at the end of `ControllerUnpublishVolume` comes to an end within its 60 rounds,
    -- also where the mappings that have been removed are still listed and never go away, and it
    -- reports success only once no mapping of the volume is left, if a listing reports them truly.
    pub unpublish_resolved-Ended :
        (s : Process W R) → Ended ns laws p path (unpublish_resolved ns sleep path (some p) s)
    unfolding unpublish_resolved
    unpublish_resolved-Ended s = Ended-bind (unmap ns path (some p)) _ s (λ _ _.
        Ended-bind (on (some p) (λ q. ns.get_lun_mappings q (of_volume path))) _ _ (λ left e.
          await_unmapped_ends 60 2 left _ (omega arith) (omega arith)
            (laws.reported p path _ left e)))
