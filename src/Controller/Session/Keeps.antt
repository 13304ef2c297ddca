-- ===== src/Controller/Session/Keeps.antt =====
-- Calls that keep the invariant of the controller.
use nexentastor_csi_driver_b.Base.{
  Text, Bool, true, false, Option, none, some, ◌≡◌, inl, inr, arith,
}
use nexentastor_csi_driver_b.Exec.{
  Exec, Error, pure, guard, or_fail, or_missing, status, failed_precondition, Outcome-cases, ◌>>◌,
  ◌>>=◌,
}
use nexentastor_csi_driver_b.Config.{Host}
use nexentastor_csi_driver_b.Config.Reload.Sound.{MakesMaps}
use nexentastor_csi_driver_b.Ns.{Ns}
use nexentastor_csi_driver_b.Process.{Process}
use nexentastor_csi_driver_b.Process.Stays.{Same, Stays}
use nexentastor_csi_driver_b.Controller.Connect.{refresh_config, refreshed}
use nexentastor_csi_driver_b.Controller.Session.{IsConnected, Refreshed}
use nexentastor_csi_driver_b.Controller.Session.Connected.{refresh_config-IsConnected}

module _ {W R : Type 0} where
  pub Same-IsConnected : {s t : Process W R} → Same s t → IsConnected s → IsConnected t
  Same-IsConnected same safe = record {
    sound = rw same.config safe.sound;
    covered = rw same.config (rw same.resolvers safe.covered);
  }

module _ {W P R : Type 0} (ns : Ns W P R) (host : Host W) where
  -- The call keeps the invariant, if its refresh succeeds where it has one.
  abbrev pub Keeps : Option Text → {A : Type 0} → Exec (Process W R) A → Type 0
  Keeps secret m =
      (s : Process W R) → IsConnected s → Refreshed ns host secret s → IsConnected (m s).1

module _ {W P R : Type 0} (ns : Ns W P R) (host : Host W) where
  pub Keeps-Stays : {A : Type 0} (m : Exec (Process W R) A) → Stays m → Keeps ns host none m
  Keeps-Stays m stays s safe h = Same-IsConnected (stays.same s) safe

module _ {W P R : Type 0} (ns : Ns W P R) (host : Host W) (laws : MakesMaps host) where
  -- A refresh and whatever changes nothing behind it.
  pub Keeps-or_fail :
      {A : Type 0} (f : Error → Error) (secret : Text) (rest : Exec (Process W R) A)
      → Stays rest
      → Keeps ns host (some secret) (or_fail f (refresh_config ns host secret) >> rest)
  Keeps-or_fail f secret rest stays s safe h =
      let r = refresh_config ns host secret s in
      let same : ((or_fail f (refresh_config ns host secret) >> rest) s).1 ≡ (rest r.1).1 =
        ground arith in
      rw same (
        Same-IsConnected (stays.same r.1) (refresh_config-IsConnected ns host laws secret s safe h))

  pub Keeps-refreshed :
      {A : Type 0} (secret : Text) (rest : Exec (Process W R) A)
      → Stays rest
      → Keeps ns host (some secret) (refreshed ns host secret >> rest)
  unfolding refreshed
  Keeps-refreshed secret rest stays =
      Keeps-or_fail (λ e. status failed_precondition "Cannot use config file: %s") secret rest stays

module _ {W P R : Type 0} (ns : Ns W P R) (host : Host W) {A : Type 0} (secret : Option Text)
    (e : Error) where
  -- A test before the refresh.
  pub Keeps-guard :
      (b : Bool) (m : Exec (Process W R) A)
      → Keeps ns host secret m
      → Keeps ns host secret (guard b e >> m)
  Keeps-guard true m h s safe fresh = safe
  Keeps-guard false m h s safe fresh = h s safe fresh

  pub Keeps-or_missing :
      {B : Type 0} (o : Option B) (m : B → Exec (Process W R) A)
      → ((b : B) → Keeps ns host secret (m b))
      → Keeps ns host secret (or_missing e o >>= m)
  Keeps-or_missing none m h s safe fresh = safe
  Keeps-or_missing (some b) m h s safe fresh = h b s safe fresh

module _ {W P R : Type 0} (ns : Ns W P R) (host : Host W) where
  -- A response that is not looked at.
  pub Keeps-dropped :
      {A : Type 0} (secret : Option Text) (m : Exec (Process W R) A)
      → Keeps ns host secret m
      → Keeps ns host secret (m >> pure tt)
  Keeps-dropped secret m h s safe fresh =
      let same : ((m >> pure tt) s).1 ≡ (m s).1 = elim (Outcome-cases (m s).0) [
        | inl (inl (a, e)) ↦ ground arith
        | inl (inr (x, e)) ↦ ground arith
        | inr e ↦ ground arith
      ] in
      rw same (h s safe fresh)
