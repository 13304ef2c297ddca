-- ===== src/Node/System.antt =====
-- What the node server uses of its operating system, of `k8s.io/mount-utils` and of the package
-- `backoff`; and the parts of program output that it reads.
use nexentastor_csi_driver_b.Base.{
  ℕ, ℤ, Text, is_empty, leb, ◌==◌, Bool, ◌&&◌, ◌||◌, Option, none, some, List, [], ◌∷◌,
  if◌then◌else◌,
}
use nexentastor_csi_driver_b.Exec.{Exec, Error, Foreign, pure, fail, foreign}
use nexentastor_csi_driver_b.Process.{Process}

-- `cmd.CombinedOutput()`.
pub record Ran : Type 0 where
  pub output : Text
  pub error : Option Foreign

-- `IsLikelyNotMountPoint`, whose value is looked at beside an error.
pub record MountTest : Type 0 where
  pub not_mount_point : Bool
  pub error : Option Foreign

pub record System (W : Type 0) : Type 0 where
  -- A program and its arguments.
  pub run : List Text → Exec W Ran
  -- The error of `os.Stat`, and the kinds of errors.
  pub stat_error : Text → Exec W (Option Foreign)
  pub is_not_exist : Error → Bool
  pub is_permission : Error → Bool
  pub mkdir_all : Text → ℕ → Exec W Unit
  pub chmod : Text → ℕ → Exec W Unit
  pub remove_all : Text → Exec W Unit
  -- A file opened for appending, and the count of bytes that are written to it.
  pub open_append : Text → Exec W Unit
  pub write_string : Text → Text → Exec W ℕ
  pub eval_symlinks : Text → Exec W Text
  pub is_likely_not_mount_point : Text → Exec W MountTest
  -- The device, the path, the file system and the options.
  pub mount_device : Text → Text → Text → List Text → Exec W Unit
  pub unmount : Text → Exec W Unit
  -- `mount.NewResizeFs(…).Resize` of a device and a path, and the mode that `unix.Stat` gives.
  pub resize_fs : Text → Text → Exec W Unit
  pub stat_mode : Text → Exec W ℕ
  -- `time.Sleep` of an `int64` of nanoseconds.
  pub sleep : ℤ → Exec W Unit
  -- `backoff.RetryNotify`, with the intervals that the source sets.
  pub retry : Exec W Unit → Exec W Unit

-- `time.Second`, in nanoseconds.
abbrev pub one_second : ℕ
one_second = 1000000000

-- A program that has to succeed, and its output.
abbrev pub output_of : {W R : Type 0} → Ran → Exec (Process W R) Text
output_of r = elim r.error [ none ↦ pure r.output | some f ↦ fail (foreign f) ]

-- The blanks of ASCII.
abbrev pub is_blank : ℕ → Bool
is_blank c = c == 32 || (leb 9 c && leb c 13)

unfoldable pub trim_left : Text → Text
trim_left [] = []
trim_left (x ∷ s) = if is_blank x then trim_left s else x ∷ s

unfoldable pub trim_right : Text → Text
trim_right [] = []
trim_right (x ∷ s) = let rest = trim_right s in if is_empty rest && is_blank x then [] else x ∷ rest

-- `strings.TrimSpace(s)` of an ASCII text.
abbrev pub trim_space : Text → Text
trim_space s = trim_right (trim_left s)
