-- ===== src/Ns/Appliance.antt =====
-- What the driver relies on of an appliance: the documented effect of the calls of the NexentaStor
-- API, on two views of the world, the size of a volume and the mappings of a volume.
use nexentastor_csi_driver_b.Base.{
  Text, eq_text, ℤ, Bool, true, Option, none, some, List, [], ◌∷◌, ◌≡◌, if◌then◌else◌,
}
use nexentastor_csi_driver_b.Exec.{ok, err, Error}
use nexentastor_csi_driver_b.Ns.{Ns, Volume, LunMapping, of_volume}

-- The mappings without those of an ID.
unfoldable pub without : Text → List LunMapping → List LunMapping
without id [] = []
without id (m ∷ luns) = let rest = without id luns in if eq_text m.id id then rest else m ∷ rest

pub record IsAppliance {W P R : Type 0} (ns : Ns W P R) : Type 0 where
  -- The size of the volume at a path, if there is one.
  pub volume_at : P → Text → W → Option ℤ
  -- The LUN mappings of the volume at a path.
  pub mapped : P → Text → W → List LunMapping
  pub get_volume_ok :
      (p : P) (path : Text) (w : W) (v : Volume)
      → (ns.get_volume p path w).0 ≡ ok v
      → (volume_at p path (ns.get_volume p path w).1 ≡ some v.volume_size)
        × (volume_at p path w ≡ some v.volume_size)
  pub create_volume_ok :
      (p : P) (path : Text) (size : ℤ) (sparse : Bool) (w : W)
      → (ns.create_volume p path size sparse w).0 ≡ ok tt
      → (volume_at p path w ≡ none)
        × (volume_at p path (ns.create_volume p path size sparse w).1 ≡ some size)
  pub create_volume_exists :
      (p : P) (path : Text) (size : ℤ) (sparse : Bool) (w : W) (e : Error)
      → (ns.create_volume p path size sparse w).0 ≡ err e
      → volume_at p path (ns.create_volume p path size sparse w).1 ≡ volume_at p path w
  pub update_volume_ok :
      (p : P) (path : Text) (size : ℤ) (w : W)
      → (ns.update_volume_size p path size w).0 ≡ ok tt
      → volume_at p path (ns.update_volume_size p path size w).1 ≡ some size
  pub destroy_volume_ok :
      (p : P) (path : Text) (w : W)
      → (ns.destroy_volume p path true true w).0 ≡ ok tt
      → (volume_at p path (ns.destroy_volume p path true true w).1 ≡ none)
        × (mapped p path (ns.destroy_volume p path true true w).1 ≡ mapped p path w)
  pub destroy_volume_missing :
      (p : P) (path : Text) (w : W) (e : Error)
      → (ns.destroy_volume p path true true w).0 ≡ err e
      → ns.is_not_exist e ≡ true
      → (volume_at p path (ns.destroy_volume p path true true w).1 ≡ none)
        × (mapped p path (ns.destroy_volume p path true true w).1 ≡ mapped p path w)
  pub get_lun_mappings_ok :
      (p : P) (path : Text) (w : W) (luns : List LunMapping)
      → (ns.get_lun_mappings p (of_volume path) w).0 ≡ ok luns
      → (mapped p path w ≡ luns)
        × (mapped p path (ns.get_lun_mappings p (of_volume path) w).1 ≡ luns)
  pub destroy_lun_mapping_ok :
      (p : P) (path id : Text) (w : W)
      → (ns.destroy_lun_mapping p id w).0 ≡ ok tt
      → mapped p path (ns.destroy_lun_mapping p id w).1 ≡ without id (mapped p path w)
