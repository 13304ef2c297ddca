-- ===== src/Node/Stage/Shown.antt =====
-- The wait for a device finds it.
use nexentastor_csi_driver_b.Base.{
  ℕ, zero, suc, ◌+◌, ◌*◌, ◌^◌, ◌≤◌, ◌<◌, Text, bytes, ℤ, pos, times_int64, times_int64_small, true,
  Option, none, ◌≡◌, ◌⊎◌, ◌∙◌, inl, inr, arith, Bool-cases, Option-cases,
}
use nexentastor_csi_driver_b.Exec.{Foreign, foreign, ok}
use nexentastor_csi_driver_b.FilePath.{join_path}
use nexentastor_csi_driver_b.Process.{Process}
use nexentastor_csi_driver_b.Node.System.{System, one_second}
use nexentastor_csi_driver_b.Node.Stage.{iscsi_log_in_rescan, await_device}
use nexentastor_csi_driver_b.Node.Stage.Await.{doubled, doubled_le}

-- A clock of the system, in nanoseconds, and a path that is there from a time on. Looking at the path and
-- sleeping succeed, and the clock does not go back.
pub record Shows {W : Type 0} (sys : System W) (path : Text) (shown : ℕ) : Type 0 where
  pub clock : W → ℕ
  pub looks :
      (w : W)
      → (o : Option Foreign) × ((sys.stat_error path w).0 ≡ ok o)
        × (shown ≤ clock w → o ≡ none)
        × (clock w ≤ clock (sys.stat_error path w).1)
  pub sleeps :
      (n : ℕ) (w : W)
      → ((sys.sleep (pos n) w).0 ≡ ok tt) × (clock w + n ≤ clock (sys.sleep (pos n) w).1)

module _ {W R : Type 0} (sys : System W) (target portal device : Text) (shown : ℕ)
    (laws : Shows sys (join_path (bytes "/host") device) shown)
    (logs_in : (s : Process W R)
      → ((iscsi_log_in_rescan sys target portal s).0 ≡ ok tt)
        × (laws.clock s.world ≤ laws.clock (iscsi_log_in_rescan sys target portal s).1.world)) where
  -- One round ends the wait with success, or it is too early and the next round follows.
  await_device_round :
      (fuel time : ℕ) (timeout : ℤ) (limit : ℕ) (s : Process W R)
      → times_int64 one_second timeout ≡ pos limit
      → time * 2 < 2 ^ 63
      → time ≤ limit
      → ((await_device sys (suc fuel) (pos time) timeout target portal device s).0 ≡ ok true)
        ⊎ ((u : Process W R) × ((await_device sys
                (suc fuel)
                (pos time)
                timeout
                target
                portal
                device
                s).0
              ≡ (await_device sys fuel (pos (time * 2)) timeout target portal device u).0)
            × (laws.clock s.world < shown)
            × (laws.clock s.world + time ≤ laws.clock u.world))
  unfolding await_device
  await_device_round fuel time timeout limit s is_limit fits early =
      let login = iscsi_log_in_rescan sys target portal s in
      let inside = logs_in s in
      let (o, looked, there, later) = laws.looks login.1.world in
      let look = sys.stat_error (join_path (bytes "/host") device) login.1.world in
      let doubles = times_int64_small 2 time fits in
      let slept = laws.sleeps time look.1 in
      elim (Option-cases o) [
        | inl n ↦ inl (ground arith)
        | inr (f, m) ↦ elim (Bool-cases (sys.is_not_exist (foreign f))) [
          | inr other ↦ inl (ground arith)
          | inl absent ↦ inr (
            record login.1 { world = (sys.sleep (pos time) look.1).1 },
            ground arith,
            ground arith,
            omega arith,
          )
        ]
      ]

  await_device-finds :
      (k time : ℕ) (timeout : ℤ) (limit base wait : ℕ) (s : Process W R)
      → times_int64 one_second timeout ≡ pos limit
      → doubled k time < 2 ^ 63
      → time ≤ limit
      → base + time ≤ laws.clock s.world + one_second
      → shown ≤ base + wait
      → 2 * (wait + one_second) ≤ limit
      → limit < doubled k time
      → (await_device sys (suc k) (pos time) timeout target portal device s).0 ≡ ok true
  await_device-finds zero time timeout limit base wait s is_limit fits early now soon half enough =
      absurd (omega arith)
  await_device-finds (suc k) time timeout limit base wait s is_limit fits early now soon half
        enough =
      let small : time * 2 < 2 ^ 63 = omega (arith, doubled_le k (time * 2), fits) in
      elim (await_device_round (suc k) time timeout limit s is_limit small early) [
        | inl e ↦ e
        | inr (u, same, before, later) ↦
            same
            ∙ await_device-finds k (time * 2) timeout limit base wait u is_limit fits (omega arith)
                (omega arith) soon half enough
      ]

  -- A device that shows up a second before half of the timeout, or sooner, is found: the wait then ends with success,
  -- not with an error, if it has one more round than it takes to double a second beyond the
  -- timeout, that time is below 2^63 nanoseconds, the logins and the looks at the path succeed, a
  -- sleep takes at least as long as asked for, and the clock does not go back.
  pub await_device_shown :
      (k timeout wait : ℕ) (s : Process W R)
      → 1 ≤ timeout
      → shown ≤ laws.clock s.world + wait
      → 2 * (wait + one_second) ≤ timeout * one_second
      → timeout * one_second < doubled k one_second
      → doubled k one_second < 2 ^ 63
      → (await_device sys (suc k) (pos one_second) (pos timeout) target portal device s).0 ≡ ok true
  await_device_shown k timeout wait s some_time soon half enough fits =
      await_device-finds k one_second (pos timeout) (timeout * one_second) (laws.clock s.world) wait
        s (times_int64_small one_second timeout (omega (arith, enough, fits))) fits (omega arith)
        (omega arith) soon half enough
