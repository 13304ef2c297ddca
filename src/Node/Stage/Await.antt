-- ===== src/Node/Stage/Await.antt =====
-- The wait for a device comes to an end.
use nexentastor_csi_driver_b.Base.{
  ℕ, zero, suc, ◌*◌, ◌^◌, ◌≤◌, ◌<◌, Text, bytes, ℤ, pos, ltb_ℤ, times_int64, times_int64_small,
  Bool, true, false, ◌≡◌, ◌≢◌, inl, inr, refl, ap, ◌∙◌, arith, if◌then◌else◌, Bool-cases,
}
use nexentastor_csi_driver_b.Exec.{Exec, ok, Outcome-cases, pure, ◌>>◌}
use nexentastor_csi_driver_b.Exec.Steps.{bind_ok, or_missing_ok}
use nexentastor_csi_driver_b.FilePath.{join_path}
use nexentastor_csi_driver_b.Process.{Process}
use nexentastor_csi_driver_b.Csi.{Capability}
use nexentastor_csi_driver_b.Controller.Request.{joined}
use nexentastor_csi_driver_b.Node.Context.{IscsiContext}
use nexentastor_csi_driver_b.Node.System.{System, one_second}
use nexentastor_csi_driver_b.Node.Device.{construct_dev_by_path, mount_point_permissions}
use nexentastor_csi_driver_b.Node.Mount.{not_octal}
use nexentastor_csi_driver_b.Node.Stage.{
  NodeStageRequest, iscsi_log_in_rescan, await_device, staged_device, stage_device, stage_lun,
}

-- A time that is doubled a number of times.
abbrev pub doubled : ℕ → ℕ → ℕ
doubled zero time = time
doubled (suc k) time = doubled k (time * 2)

pub doubled_le : (k time : ℕ) → time ≤ doubled k time
doubled_le zero time = omega arith
doubled_le (suc k) time = omega (arith, doubled_le k (time * 2))

module _ {W R : Type 0} (sys : System W) (timeout : ℤ) (target portal device : Text) where
  -- A round that does not end the wait.
  await_device_step :
      (fuel : ℕ) (time : ℤ) (s : Process W R)
      → (await_device sys (suc fuel) time timeout target portal device s).0 ≡ ok false
      → (ltb_ℤ (times_int64 one_second timeout) time ≡ false)
        × (u : Process W R) × ((await_device sys fuel
              (times_int64 2 time)
              timeout
              target
              portal
              device
              u).0
            ≡ ok false)
  unfolding await_device
  await_device_step fuel time s h =
      elim (Bool-cases (ltb_ℤ (times_int64 one_second timeout) time)) [
        | inl late ↦ ground arith
        | inr early ↦
            let login = iscsi_log_in_rescan sys target portal s in
            elim (Outcome-cases login.0) [
              | inl (inr (x, e)) ↦ ground arith
              | inr e ↦ ground arith
              | inl (inl (done, e)) ↦
                  let look = sys.stat_error (join_path (bytes "/host") device) login.1.world in
                  elim (Outcome-cases look.0) [
                    | inl (inr (x, m)) ↦ ground arith
                    | inr m ↦ ground arith
                    | inl (inl (missing, m)) ↦
                        let nap = sys.sleep time look.1 in
                        elim (Outcome-cases nap.0) [
                          | inl (inl (slept, n)) ↦
                              (early, record login.1 { world = nap.1 }, ground arith)
                          | inl (inr (x, n)) ↦ ground arith
                          | inr n ↦ ground arith
                        ]
                  ]
            ]
      ]

  -- The wait does not run out of its rounds if the sleep of the last one is over the timeout, and
  -- does not wrap around.
  await_device-ends :
      (k time : ℕ) (s : Process W R)
      → doubled k time < 2 ^ 63
      → ltb_ℤ (times_int64 one_second timeout) (pos (doubled k time)) ≡ true
      → (await_device sys (suc k) (pos time) timeout target portal device s).0 ≢ ok false
  await_device-ends zero time s fits enough h =
      cc (enough, (await_device_step zero (pos time) s h).0)
  await_device-ends (suc k) time s fits enough h =
      let (early, u, rest) = await_device_step (suc k) (pos time) s h in
      let small = times_int64_small 2 time (omega (arith, doubled_le k (time * 2), fits)) in
      await_device-ends k (time * 2) u fits enough (rw small at rest)

ended_false :
    {S : Type 0} (m : Exec S (Unit {0})) (found : Bool) (s : S)
    → ((if found then m >> pure true else pure false) s).0 ≡ ok false
    → found ≡ false
ended_false m true s h = let (done, e, k) = bind_ok m (λ _. pure true) s false h in cc k
ended_false m false s h = refl

module _ {W R : Type 0} (sys : System W) where
  -- The part of `NodeStageVolume` that waits for the device ends in one more round than it takes to
  -- double a second beyond the timeout of the context, as an `int64` of nanoseconds, if the second
  -- that is so doubled does not wrap around: for the default of 300 seconds in ten rounds, and for
  -- a timeout of 0 to 2^33 - 1 seconds in 34.
  pub stage_lun-ends :
      (k : ℕ) (req : NodeStageRequest) (capability : Capability) (c : IscsiContext) (target : Text)
      (lun : ℕ) (s : Process W R)
      → doubled k one_second < 2 ^ 63
      → ltb_ℤ (times_int64 one_second c.iscsi_timeout) (pos (doubled k one_second)) ≡ true
      → (stage_lun sys (suc k) req capability c target lun s).0 ≢ ok false
  unfolding stage_lun
  stage_lun-ends k req capability c target lun s fits enough h =
      let portal = joined b':' c.address c.port in
      let name = construct_dev_by_path portal target lun in
      let (done, e1, h1) = bind_ok (iscsi_log_in_rescan sys target portal) _ s false h in
      let (permissions, e2, h2) =
        or_missing_ok (mount_point_permissions req.context) not_octal _ _ false h1 in
      let (device, e3, h3) =
        bind_ok (staged_device sys req.staging_target_path permissions) _ _ false h2 in
      let (found, e4, h4) =
        bind_ok (await_device sys (suc k) (pos one_second) c.iscsi_timeout target portal name) _ _
          false h3 in
      let lost = ended_false (stage_device sys req capability permissions device name) found _ h4 in
      await_device-ends sys c.iscsi_timeout target portal name k one_second _ fits enough
        (e4 ∙ ap ok lost)
