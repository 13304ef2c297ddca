-- ===== src/Node/Mount/Leaves.antt =====
-- Calls that leave the mount of a path alone.
use nexentastor_csi_driver_b.Base.{
  Text, bytes, eq_text, contains_text, ℕ, Bool, true, false, Option, none, some, List, ◌≡◌, refl,
  inl, inr, arith, if◌then◌else◌,
}
use nexentastor_csi_driver_b.Exec.{
  Exec, Error, Foreign, foreign, ok, err, pure, fail, guard, attempt, or_fail, or_missing,
  Outcome-cases, ◌>>=◌,
}
use nexentastor_csi_driver_b.Process.{Process, outside}
use nexentastor_csi_driver_b.Node.System.{System, Ran, MountTest, output_of}
use nexentastor_csi_driver_b.Node.Mount.{error_text}
use nexentastor_csi_driver_b.Node.Mount.Repeat.{MountTable}

-- What the driver relies on of the calls that deal with mounts: each path has one mount at most. A
-- device that is mounted or unmounted is that of the path alone; `Unmount` that succeeds, or says that
-- nothing is mounted, leaves no mount, and neither has a path that does not exist or that
-- `IsLikelyNotMountPoint` takes for no mount point, which it knows of mounts of a device; the other
-- calls leave the mounts alone.
pub record MountSet {W : Type 0} (sys : System W) : Type 0 where
  pub table : MountTable sys
  pub run_keeps :
      (command : List Text) (w : W) (q : Text)
      → table.mounted q (sys.run command w).1 ≡ table.mounted q w
  pub stat_keeps :
      (path : Text) (w : W) (q : Text)
      → table.mounted q (sys.stat_error path w).1 ≡ table.mounted q w
  pub mkdir_keeps :
      (path : Text) (permissions : ℕ) (w : W) (q : Text)
      → table.mounted q (sys.mkdir_all path permissions w).1 ≡ table.mounted q w
  pub chmod_keeps :
      (path : Text) (permissions : ℕ) (w : W) (q : Text)
      → table.mounted q (sys.chmod path permissions w).1 ≡ table.mounted q w
  pub remove_keeps :
      (path : Text) (w : W) (q : Text)
      → table.mounted q (sys.remove_all path w).1 ≡ table.mounted q w
  pub test_keeps :
      (path : Text) (w : W) (q : Text)
      → table.mounted q (sys.is_likely_not_mount_point path w).1 ≡ table.mounted q w
  pub mount_local :
      (device path fs_type : Text) (options : List Text) (w : W) (q : Text)
      → eq_text path q ≡ false
      → table.mounted q (sys.mount_device device path fs_type options w).1 ≡ table.mounted q w
  pub unmount_local :
      (path : Text) (w : W) (q : Text)
      → eq_text path q ≡ false
      → table.mounted q (sys.unmount path w).1 ≡ table.mounted q w
  pub unmounted :
      (path : Text) (w : W)
      → (sys.unmount path w).0 ≡ ok tt
      → table.mounted path (sys.unmount path w).1 ≡ false
  pub not_mounted :
      (path : Text) (w : W) (e : Error)
      → (sys.unmount path w).0 ≡ err e
      → contains_text (error_text e) (bytes "not mounted") ≡ true
      → table.mounted path (sys.unmount path w).1 ≡ false
  pub no_mount_point :
      (path : Text) (w : W) (test : MountTest)
      → (sys.is_likely_not_mount_point path w).0 ≡ ok test
      → test.error ≡ none
      → test.not_mount_point ≡ true
      → table.mounted path (sys.is_likely_not_mount_point path w).1 ≡ false
  pub absent :
      (path : Text) (w : W) (test : MountTest) (f : Foreign)
      → (sys.is_likely_not_mount_point path w).0 ≡ ok test
      → test.error ≡ some f
      → sys.is_not_exist (foreign f) ≡ true
      → table.mounted path (sys.is_likely_not_mount_point path w).1 ≡ false

module _ {W R : Type 0} (sys : System W) (table : MountTable sys) (q : Text) where
  -- However it ends, the path is mounted after the call exactly if it was before.
  pub record Leaves {A : Type 0} (m : Exec (Process W R) A) : Type 0 where
    pub same : (s : Process W R) → table.mounted q (m s).1.world ≡ table.mounted q s.world

  pub Leaves-fail : (A : Type 0) (e : Error) → Leaves {A = A} (fail e)
  Leaves-fail A e = record { same = λ s. refl }

  pub Leaves-guard : (b : Bool) (e : Error) → Leaves (guard b e)
  Leaves-guard true e = Leaves-fail Unit e
  Leaves-guard false e = record { same = λ s. refl }

  module _ {A : Type 0} where
    pub Leaves-pure : (a : A) → Leaves (pure a)
    Leaves-pure a = record { same = λ s. refl }

    pub Leaves-outside :
        (m : Exec W A)
        → ((w : W) → table.mounted q (m w).1 ≡ table.mounted q w)
        → Leaves (outside m)
    Leaves-outside m h = record { same = λ s. h s.world }

    pub Leaves-or_missing : (e : Error) (o : Option A) → Leaves (or_missing e o)
    Leaves-or_missing e none = Leaves-fail A e
    Leaves-or_missing e (some a) = Leaves-pure a

    pub Leaves-attempt : (m : Exec (Process W R) A) → Leaves m → Leaves (attempt m)
    Leaves-attempt m h = record {
      same = λ s. elim (Outcome-cases (m s).0) [
        | inl (inl (a, e)) ↦ ground (arith, h.same s)
        | inl (inr (x, e)) ↦ ground (arith, h.same s)
        | inr e ↦ ground (arith, h.same s)
      ];
    }

    pub Leaves-or_fail :
        (f : Error → Error) (m : Exec (Process W R) A) → Leaves m → Leaves (or_fail f m)
    Leaves-or_fail f m h = record {
      same = λ s. elim (Outcome-cases (m s).0) [
        | inl (inl (a, e)) ↦ ground (arith, h.same s)
        | inl (inr (x, e)) ↦ ground (arith, h.same s)
        | inr e ↦ ground (arith, h.same s)
      ];
    }

    pub Leaves-if :
        (b : Bool) (m n : Exec (Process W R) A) → Leaves m → Leaves n → Leaves (if b then m else n)
    Leaves-if true m n h k = h
    Leaves-if false m n h k = k

  pub Leaves-option :
      {A B : Type 0} (o : Option A) (m : Exec (Process W R) B) (k : A → Exec (Process W R) B)
      → Leaves m
      → ((a : A) → Leaves (k a))
      → Leaves (elim o [ none ↦ m | some a ↦ k a ])
  Leaves-option none m k h j = h
  Leaves-option (some a) m k h j = j a

  pub Leaves-bind :
      {A B : Type 0} (m : Exec (Process W R) A) (f : A → Exec (Process W R) B)
      → Leaves m
      → ((a : A) → Leaves (f a))
      → Leaves (m >>= f)
  Leaves-bind m f h k = record {
    same = λ s. elim (Outcome-cases (m s).0) [
      | inl (inl (a, e)) ↦ ground (arith, h.same s, (k a).same (m s).1)
      | inl (inr (x, e)) ↦ ground (arith, h.same s)
      | inr e ↦ ground (arith, h.same s)
    ];
  }

  pub Leaves-output_of : (r : Ran) → Leaves (output_of r)
  Leaves-output_of r =
      Leaves-option r.error (pure r.output) (λ f. fail (foreign f)) (Leaves-pure r.output)
        (λ f. Leaves-fail Text (foreign f))
