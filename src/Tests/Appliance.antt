-- ===== src/Tests/Appliance.antt =====
-- An appliance in memory, on which the theorems are applied: it keeps the size and the mappings of
-- each volume, and the laws that the driver relies on hold of it.
use nexentastor_csi_driver_b.Base.{
  ℕ, Text, bytes, eq_text, eq_text_refl, ℤ, pos, Bool, false, Option, none, some, List, [], ◌∷◌,
  ◌≡◌, refl, arith, if◌then◌else◌, ◌==◌, ap, ◌∙◌,
}
use nexentastor_csi_driver_b.Exec.{Error, foreign, status, errorf, Outcome, ok, err}
use nexentastor_csi_driver_b.Ns.{Ns, of_volume, Volume, Snapshot, LunMapping, IsNef}
use nexentastor_csi_driver_b.Ns.Appliance.{IsAppliance, without}

pub record Box : Type 0 where
  pub size_at : Text → Option ℤ
  pub luns_of : Text → List LunMapping
  pub snapshots : List Snapshot
  -- The seconds, or on the node the nanoseconds, that have been slept.
  pub time : ℕ
  -- The devices that the node has mounted, by their paths.
  pub device_of : Text → Option Text

abbrev pub fault : ℕ → Error
fault n = foreign (record { identity = n; text = bytes "fault" })

abbrev has_identity : ℕ → Error → Bool
has_identity n (foreign f) = f.identity == n
has_identity n (status c m) = false
has_identity n (errorf m) = false

abbrev pub put_size : Text → Option ℤ → Box → Box
put_size path size w = record w { size_at = λ q. if eq_text q path then size else w.size_at q }

abbrev pub put_device : Text → Text → Box → Box
put_device path device w = record w {
  device_of = λ q. if eq_text q path then some device else w.device_of q;
}

abbrev pub answer : {A : Type 0} → Option A → Error → Box → Outcome A × Box
answer none e w = (err e, w)
answer (some a) e w = (ok a, w)

abbrev find_snapshot : Text → List Snapshot → Option Snapshot
find_snapshot path [] = none
find_snapshot path (s ∷ ss) = if eq_text s.path path then some s else find_snapshot path ss

abbrev pub create_at : Text → ℤ → Option ℤ → Box → Outcome (Unit {0}) × Box
create_at path size none w = (ok tt, put_size path (some size) w)
create_at path size (some old) w = (err (fault 1), w)

abbrev pub update_at : Text → ℤ → Option ℤ → Box → Outcome (Unit {0}) × Box
update_at path size none w = (err (fault 2), w)
update_at path size (some old) w = (ok tt, put_size path (some size) w)

abbrev pub destroy_at : Text → Option ℤ → Box → Outcome (Unit {0}) × Box
destroy_at path none w = (err (fault 2), w)
destroy_at path (some old) w = (ok tt, put_size path none w)

abbrev pub volume_of : Text → Option ℤ → Option Volume
volume_of path none = none
volume_of path (some n) = some (record { path = path; volume_size = n })

-- Every resolver finds the one appliance.
abbrev pub memory : Ns Box (Unit {0}) (Unit {0})
memory = record {
  is_not_exist = has_identity 2;
  is_already_exist = has_identity 1;
  is_bad_arg = has_identity 3;
  is_busy = has_identity 4;
  new_resolver = λ args w. (ok (record { value = some tt; error = none }), w);
  zero_resolver = tt;
  resolve_from_vg = λ r group w. (ok (record { value = some tt; error = none }), w);
  get_volume = λ p path w. answer (volume_of path (w.size_at path)) (fault 2) w;
  get_volume_group = λ p group w. (ok (pos 1000), w);
  get_volumes_with_starting_token =
      λ p group token max w. (ok (record { volumes = []; next_token = []; error = none }), w);
  create_volume = λ p path size sparse w. create_at path size (w.size_at path) w;
  update_volume_size = λ p path size w. update_at path size (w.size_at path) w;
  destroy_volume = λ p path snapshots promote w. destroy_at path (w.size_at path) w;
  get_snapshot = λ p path w. answer (find_snapshot path w.snapshots) (fault 2) w;
  get_snapshots = λ p path recursive w. (ok w.snapshots, w);
  create_snapshot = λ p path w. (ok tt, w);
  destroy_snapshot = λ p path w. (ok tt, w);
  clone_snapshot = λ p source target w. (ok tt, w);
  get_lun_mappings = λ p query w. (ok (w.luns_of query.volume), w);
  destroy_lun_mapping =
      λ p id w. (ok tt, record w { luns_of = λ path. without id (w.luns_of path) });
}

pub memory-IsNef : IsNef memory
memory-IsNef = record { own_status = λ c m. refl }

answer_world :
    {A : Type 0} (found : Option A) (e : Error) (w : Box) (a : A)
    → (answer found e w).0 ≡ ok a
    → (found ≡ some a) × ((answer found e w).1 ≡ w)
answer_world none e w a h = ground arith
answer_world (some b) e w a h = ground arith

-- Each effect, on what the look-up of the path has found.
volume_of_size :
    (path : Text) (found : Option ℤ) (v : Volume)
    → volume_of path found ≡ some v
    → found ≡ some v.volume_size
volume_of_size path none v h = ground arith
volume_of_size path (some n) v h =
    ap (λ o. elim o [ none ↦ some n | some u ↦ some u.volume_size ]) h

pub get_volume_effect :
    (path : Text) (w : Box) (v : Volume)
    → (memory.get_volume tt path w).0 ≡ ok v
    → ((memory.get_volume tt path w).1.size_at path ≡ some v.volume_size)
      × (w.size_at path ≡ some v.volume_size)
get_volume_effect path w v h =
    let (found, same) = answer_world (volume_of path (w.size_at path)) (fault 2) w v h in
    let e = volume_of_size path (w.size_at path) v found in (ap (λ u. u.size_at path) same ∙ e, e)

put_size_at : (path : Text) (size : Option ℤ) (w : Box) → (put_size path size w).size_at path ≡ size
put_size_at path size w = ground (arith, eq_text_refl path)

pub create_effect :
    (path : Text) (size : ℤ) (found : Option ℤ) (w : Box)
    → (create_at path size found w).0 ≡ ok tt
    → (found ≡ none) × ((create_at path size found w).1.size_at path ≡ some size)
create_effect path size none w h = (refl, put_size_at path (some size) w)
create_effect path size (some old) w h = ground arith

pub create_kept :
    (path : Text) (size : ℤ) (found : Option ℤ) (w : Box) (e : Error)
    → (create_at path size found w).0 ≡ err e
    → (create_at path size found w).1.size_at path ≡ w.size_at path
create_kept path size none w e h = ground arith
create_kept path size (some old) w e h = refl

pub update_effect :
    (path : Text) (size : ℤ) (found : Option ℤ) (w : Box)
    → (update_at path size found w).0 ≡ ok tt
    → (update_at path size found w).1.size_at path ≡ some size
update_effect path size none w h = ground arith
update_effect path size (some old) w h = put_size_at path (some size) w

pub destroy_effect :
    (path : Text) (found : Option ℤ) (w : Box)
    → (destroy_at path found w).0 ≡ ok tt
    → ((destroy_at path found w).1.size_at path ≡ none)
      × ((destroy_at path found w).1.luns_of path ≡ w.luns_of path)
destroy_effect path none w h = ground arith
destroy_effect path (some old) w h = (put_size_at path none w, refl)

pub destroy_missing :
    (path : Text) (found : Option ℤ) (w : Box) (e : Error)
    → w.size_at path ≡ found
    → (destroy_at path found w).0 ≡ err e
    → ((destroy_at path found w).1.size_at path ≡ none)
      × ((destroy_at path found w).1.luns_of path ≡ w.luns_of path)
destroy_missing path none w e found h = (found, refl)
destroy_missing path (some old) w e found h = ground arith

pub get_luns_effect :
    (path : Text) (w : Box) (luns : List LunMapping)
    → (memory.get_lun_mappings tt (of_volume path) w).0 ≡ ok luns
    → (w.luns_of path ≡ luns) × (w.luns_of path ≡ luns)
get_luns_effect path w luns h = ground arith

abbrev pub memory-IsAppliance : IsAppliance memory
memory-IsAppliance = record {
  volume_at = λ p path w. w.size_at path;
  mapped = λ p path w. w.luns_of path;
  get_volume_ok = λ p path w v h. get_volume_effect path w v h;
  create_volume_ok = λ p path size sparse w h. create_effect path size (w.size_at path) w h;
  create_volume_exists = λ p path size sparse w e h. create_kept path size (w.size_at path) w e h;
  update_volume_ok = λ p path size w h. update_effect path size (w.size_at path) w h;
  destroy_volume_ok = λ p path w h. destroy_effect path (w.size_at path) w h;
  destroy_volume_missing = λ p path w e h m. destroy_missing path (w.size_at path) w e refl h;
  get_lun_mappings_ok = λ p path w luns h. get_luns_effect path w luns h;
  destroy_lun_mapping_ok = λ p path id w h. refl;
}
