-- ===== src/Controller/Store.antt =====
-- What the operations on volumes promise: a store of sizes by path. The operations are the parts of
-- `CreateVolume`, `DeleteVolume` and `ControllerExpandVolume` behind the search for the appliance.
pub mod Kept
pub mod Failed
pub mod Refines
pub mod Again
use nexentastor_csi_driver_b.Base.{
  Text, eq_text, ℤ, eq_ℤ, ltb_ℤ, Bool, true, false, Option, none, some, List, [], ◌∷◌, ◌≡◌, ◌≢◌,
  if◌then◌else◌,
}
use nexentastor_csi_driver_b.Exec.{Exec, Outcome, Error, ok, err, panic, pure, ◌>>=◌, ◌>>◌}
use nexentastor_csi_driver_b.Ns.{Ns, LunMapping, LunQuery}
use nexentastor_csi_driver_b.Ns.Appliance.{IsAppliance}
use nexentastor_csi_driver_b.Process.{Process}
use nexentastor_csi_driver_b.Controller.Create.{create_new_volume, capacity_or_default}
use nexentastor_csi_driver_b.Controller.Volumes.{delete_resolved, expand_resolved}
use nexentastor_csi_driver_b.Controller.Volumes.Expansion.{larger}

abbrev pub Sizes : Type 0
Sizes = Text → Option ℤ

-- An operation: its path, and the size that is asked for, where 0 stands for the default.
pub data Operation : Type 0 where
  create expand : Text → ℤ → Operation
  delete : Text → Operation

abbrev pub put : Text → Option ℤ → Sizes → Sizes
put path size sizes q = if eq_text path q then size else sizes q

-- A creation wants nothing at the path, or a volume of the size.
abbrev pub creates : ℤ → Option ℤ → Option (Option ℤ)
creates size none = some (some size)
creates size (some old) = if eq_ℤ old size then some (some size) else none

-- An expansion wants a volume, and keeps the larger of the two sizes.
abbrev pub expands : ℤ → Option ℤ → Option (Option ℤ)
expands size none = none
expands size (some old) = some (some (larger old size))

abbrev puts : Text → Sizes → Option (Option ℤ) → Option Sizes
puts path sizes none = none
puts path sizes (some size) = some (put path size sizes)

-- The promise: what an operation that succeeds makes of the sizes; `none` is one that cannot succeed.
unfoldable pub effect : Operation → Sizes → Option Sizes
effect (create path size) sizes = puts path sizes (creates (capacity_or_default size) (sizes path))
effect (expand path size) sizes = puts path sizes (expands size (sizes path))
effect (delete path) sizes = some (put path none sizes)

-- The promise for operations with their success; one that fails changes nothing.
unfoldable pub promised : List (Operation × Bool) → Sizes → Option Sizes
promised [] sizes = some sizes
promised ((op, false) ∷ ops) sizes = promised ops sizes
promised ((op, true) ∷ ops) sizes = elim (effect op sizes) [
  | none ↦ none
  | some next ↦ promised ops next
]

-- That a call changes the sizes at its own path alone, and none if it fails.
pub record IsLocal {W P R : Type 0} (ns : Ns W P R) (laws : IsAppliance ns) : Type 0 where
  pub get_volume_keeps :
      (p : P) (path : Text) (w : W) (q : Text)
      → laws.volume_at p q (ns.get_volume p path w).1 ≡ laws.volume_at p q w
  pub get_lun_mappings_keeps :
      (p : P) (query : LunQuery) (w : W) (q : Text)
      → laws.volume_at p q (ns.get_lun_mappings p query w).1 ≡ laws.volume_at p q w
  pub destroy_lun_mapping_keeps :
      (p : P) (id : Text) (w : W) (q : Text)
      → laws.volume_at p q (ns.destroy_lun_mapping p id w).1 ≡ laws.volume_at p q w
  pub create_volume_local :
      (p : P) (path : Text) (size : ℤ) (sparse : Bool) (w : W) (q : Text)
      → eq_text path q ≡ false
      → laws.volume_at p q (ns.create_volume p path size sparse w).1 ≡ laws.volume_at p q w
  pub update_volume_local :
      (p : P) (path : Text) (size : ℤ) (w : W) (q : Text)
      → eq_text path q ≡ false
      → laws.volume_at p q (ns.update_volume_size p path size w).1 ≡ laws.volume_at p q w
  pub update_volume_failed :
      (p : P) (path : Text) (size : ℤ) (w : W) (e : Error)
      → (ns.update_volume_size p path size w).0 ≡ err e
      → laws.volume_at p path (ns.update_volume_size p path size w).1 ≡ laws.volume_at p path w
  pub destroy_volume_local :
      (p : P) (path : Text) (w : W) (q : Text)
      → eq_text path q ≡ false
      → laws.volume_at p q (ns.destroy_volume p path true true w).1 ≡ laws.volume_at p q w
  pub destroy_volume_failed :
      (p : P) (path : Text) (w : W) (e : Error)
      → (ns.destroy_volume p path true true w).0 ≡ err e
      → laws.volume_at p path (ns.destroy_volume p path true true w).1 ≡ laws.volume_at p path w

module _ {W P R : Type 0} (ns : Ns W P R) (p : P) (sparse : Bool) where
  -- An operation of the driver on an appliance.
  unfoldable pub perform : Operation → Exec (Process W R) Unit
  perform (create path size) = create_new_volume ns (some p) path (capacity_or_default size) sparse
  perform (expand path size) = expand_resolved ns path size (some p) >> pure tt
  perform (delete path) = delete_resolved ns path (some p)

  abbrev pub is_ok : Outcome (Unit {0}) → Bool
  is_ok (ok u) = true
  is_ok _ = false

  -- The operations with their success, and the state that they leave.
  unfoldable pub perform_all : List Operation → Process W R → Process W R
  perform_all [] s = s
  perform_all (op ∷ ops) s = perform_all ops (perform op s).1

  unfoldable pub successes : List Operation → Process W R → List (Operation × Bool)
  successes [] s = []
  successes (op ∷ ops) s = (op, is_ok (perform op s).0) ∷ successes ops (perform op s).1

  -- No operation panics, which the driver itself never does on a provider; the library might.
  unfoldable pub NoPanic : List Operation → Process W R → Type 0
  NoPanic [] s = Unit
  NoPanic (op ∷ ops) s = ((perform op s).0 ≢ panic) × NoPanic ops (perform op s).1
