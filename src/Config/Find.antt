-- ===== src/Config/Find.antt =====
-- `findConfigFile`, `New` and `GetFilePath` of config.go, over a tree of files.
pub mod Found
pub mod Loaded
use nexentastor_csi_driver_b.Base.{
  ℕ, Text, bytes, eq_text, is_empty, Bool, true, false, ◌&&◌, ◌||◌, not, Option, none, some, List,
  [], ◌∷◌, if◌then◌else◌, ◌==◌,
}
use nexentastor_csi_driver_b.Exec.{
  Exec, Outcome, ok, err, panic, errorf, pure, guard, or_fail, ◌>>=◌, ◌>>◌,
}
use nexentastor_csi_driver_b.FilePath.{join_path}
use nexentastor_csi_driver_b.Config.Defs.{Config, Host, Shared}
use nexentastor_csi_driver_b.Config.Reload.{refresh}

-- What `filepath.Walk` meets, by name and in its order. A link is a file, a directory that cannot be
-- read has no entries, and the information on what cannot be looked at is nil.
mutual
  pub data Tree : Type 0 where
    file : Tree
    unknown : Tree
    folder : Entries → Tree

  pub data Entries : Type 0 where
    nil : Entries
    entry : Text → Tree → Entries → Entries

abbrev has_slash : Text → Bool
has_slash [] = false
has_slash (x ∷ s) = (x == b'/') || has_slash s

-- `filepath.Ext(s)`: from the last dot on, if no slash stands behind it.
unfoldable pub ext : Text → Text
ext [] = []
ext (x ∷ s) =
    let rest = ext s in if x == b'.' && (is_empty rest && not (has_slash s)) then x ∷ s else rest

-- The test of the function that is walked with.
unfoldable pub is_yaml : Text → Bool
is_yaml path = eq_text (ext path) (bytes ".yaml") || eq_text (ext path) (bytes ".yml")

-- How a visit ends, with the last file that has been found: it goes on, it skips what is left of the
-- folder, or it has read a nil information.
pub data Visit : Type 0 where
  next skip : Text → Visit
  crashed : Visit

-- The visit of a folder ends with the skip of what is left in it.
abbrev pub leave : Tree → Visit → Visit
leave (folder es) (skip found) = next found
leave _ v = v

-- `filepath.Walk` with the function of `findConfigFile`.
unfoldable mutual
  unfolding is_yaml

  pub visit : Text → Tree → Text → Visit
  visit path file found = if is_yaml path then skip path else next found
  visit path unknown found = crashed
  visit path (folder es) found = visit_all path es found

  pub visit_all : Text → Entries → Text → Visit
  visit_all path nil found = next found
  visit_all path (entry name t es) found = elim (leave t (visit (join_path path name) t found)) [
    | next f ↦ visit_all path es f
    | skip f ↦ skip f
    | crashed ↦ crashed
  ]

abbrev found_by : Visit → Option Text
found_by (next found) = some found
found_by (skip found) = some found
found_by crashed = none

-- `findConfigFile`: the empty path says that there is no such file, and `none` is a panic, which the
-- function makes of every error of the walk.
unfoldable pub find_config_file : Text → Tree → Option Text
find_config_file root t = found_by (visit root t [])

abbrev or_panic : {S : Type 0} → Option Text → Exec S Text
or_panic none s = (panic, s)
or_panic (some path) s = (ok path, s)

-- `&Config{filePath: configFilePath}`.
abbrev pub fresh_config : Text → Config
fresh_config path = record {
  ns_map = [];
  debug = false;
  file_path = path;
  last_mod_time = 0;
  temporary = false;
}

module _ {W : Type 0} (host : Host W) where
  -- A call of a method of a configuration of one's own.
  abbrev pub with_config : {A : Type 0} → Config → Exec (Shared W) A → Exec W (Config × A)
  with_config c m w =
      let (r, s) = m (record { config = c; world = w }) in
      (elim r [ ok a ↦ ok (s.config, a) | err e ↦ err e | panic ↦ panic ], s.world)

  -- The tree that the walk meets; what the walk cannot read is part of the tree.
  abbrev walked : (W → Tree × W) → Exec W Tree
  walked read w = let (t, v) = read w in (ok t, v)

  -- `New`, over the call that reads the tree of files.
  unfoldable pub new_config : (Text → W → Tree × W) → Text → Exec W Config
  new_config read_tree look_up_dir = do
    t ← walked (read_tree look_up_dir)
    path ← or_panic (find_config_file look_up_dir t)
    guard (is_empty path) (errorf "Cannot find .yaml config file in '%s' directory")
    (c, changed) ←
        or_fail (λ e. errorf "Cannot refresh config from file '%s': %s")
          (with_config (fresh_config path) (refresh host []))
    pure c

-- `GetFilePath`.
unfoldable pub get_file_path : Config → Text
get_file_path c = c.file_path
