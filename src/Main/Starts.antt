-- ===== src/Main/Starts.antt =====
-- What `main` does with a configuration that it has read.
use nexentastor_csi_driver_b.Base.{
  Text, All, true, false, List, [], ◌∷◌, ◌≡◌, refl, ap, inl, inr, arith, Option-cases,
}
use nexentastor_csi_driver_b.Exec.{Exec, Error, ok}
use nexentastor_csi_driver_b.Role.{parse_role}
use nexentastor_csi_driver_b.Config.{Config, Host, NsData}
use nexentastor_csi_driver_b.Config.Check.Usable.{IsUsable}
use nexentastor_csi_driver_b.Config.Reload.Repeat.{KeepsPrivate}
use nexentastor_csi_driver_b.Config.Reload.Sound.{IsSound, MakesMaps}
use nexentastor_csi_driver_b.Config.Find.{Tree, is_yaml, new_config}
use nexentastor_csi_driver_b.Config.Find.Found.{Names}
use nexentastor_csi_driver_b.Config.Find.Loaded.{new_config-IsSound}
use nexentastor_csi_driver_b.Ns.{Ns}
use nexentastor_csi_driver_b.Driver.{Driver, Net, Licences, new_driver}
use nexentastor_csi_driver_b.Main.{Options, log_entries, launched, drive, ending, start, main}

-- The pointers that the log follows are there.
log_entries-IsUsable :
    {S : Type 0} (es : List (Text × NsData)) (s : S)
    → All IsUsable es
    → log_entries es s ≡ (ok tt, s)
unfolding log_entries
log_entries-IsUsable [] s h = refl
log_entries-IsUsable ((name, d) ∷ es) s h = elim (Option-cases d.insecure_skip_verify) [
  | inl n ↦ absurd (h.0.1 n)
  | inr (b, i) ↦ elim (Option-cases d.dynamic_target_lun_allocation) [
    | inl n ↦ absurd (h.0.0.allocation_given n)
    | inr (c, j) ↦ ground (arith, log_entries-IsUsable es s h.1)
  ]
]

-- The driver of the options.
abbrev pub driver_of : Options → Driver
driver_of options = record {
  role = (parse_role options.role).role;
  node_id = options.node_id;
  endpoint = options.endpoint;
}

module _ {W P R : Type 0} (ns : Ns W P R) (host : Host W) (net : Net W) (licences : Licences W P R)
    (write_file : Text → Text → Exec W Unit) (format_error : Error → Text) where
  start-IsUsable :
      (options : Options) (c : Config) (w : W)
      → All IsUsable c.ns_map
      → start ns host net licences write_file format_error options c w
        ≡ ending ns host net licences write_file format_error
            (drive ns host net licences write_file format_error (driver_of options) (launched c w))
  unfolding start new_driver
  start-IsUsable options c w h = ground (arith, log_entries-IsUsable c.ns_map w h)

  -- Where the version is not asked for and `New` returns a configuration, `main` follows no missing pointer of it: it goes on to check and to run a
  -- driver of the parsed role with this configuration, which has been read from a YAML file of
  -- the directory and is sound, if the YAML parser makes maps and leaves the private fields
  -- alone.
  pub main_starts :
      (maps : MakesMaps host) (keeps : KeepsPrivate host) (read_tree : Text → W → Tree × W)
      (options : Options) (w v : W) (c : Config)
      → options.version ≡ false
      → new_config host read_tree options.config_dir w ≡ (ok c, v)
      → (main ns host net licences write_file format_error read_tree options w
          ≡ ending ns host net licences write_file format_error (
              drive ns host net licences write_file format_error
                (driver_of options)
                (launched c v)))
        × IsSound c
        × Names options.config_dir (read_tree options.config_dir w).0 c.file_path
        × (is_yaml c.file_path ≡ true)
  unfolding main
  main_starts maps keeps read_tree options w v c runs loaded =
      let (named, yaml, sound) =
        new_config-IsSound host maps keeps read_tree options.config_dir w c
          (ap (λ x. x.0) loaded) in
      (rw (runs, loaded) (start-IsUsable options c v sound.usable), sound, named, yaml)
