-- ===== src/Config/Find/Loaded.antt =====
-- The configuration that `New` returns.
use nexentastor_csi_driver_b.Base.{Text, true, [], ◌≡◌, sym, ap, ◌∙◌, inl, inr, arith, Option-cases}
use nexentastor_csi_driver_b.Exec.{ok, Outcome-cases}
use nexentastor_csi_driver_b.Config.Defs.{Config, Host, Shared}
use nexentastor_csi_driver_b.Config.Reload.{refresh}
use nexentastor_csi_driver_b.Config.Reload.Repeat.{KeepsPrivate}
use nexentastor_csi_driver_b.Config.Reload.Failure.{refresh-file_path}
use nexentastor_csi_driver_b.Config.Reload.Sound.{IsSound, MakesMaps, refresh-IsSound}
use nexentastor_csi_driver_b.Config.Find.{Tree, is_yaml, find_config_file, fresh_config, new_config}
use nexentastor_csi_driver_b.Config.Find.Found.{Names, find_config_file-Found}

fresh-IsSound : (path : Text) → IsSound (fresh_config path)
fresh-IsSound path = record { distinct = tt; usable = tt }

module _ {W : Type 0} (host : Host W) (maps : MakesMaps host) (keeps : KeepsPrivate host)
    (read_tree : Text → W → Tree × W) where
  -- A configuration that `New` returns is read from a file of the directory that has the extension of
  -- a YAML file; its names are distinct, and every NexentaStor of it obeys the rules of the
  -- validation and has all its pointers.
  pub new_config-IsSound :
      (look_up_dir : Text) (w : W) (c : Config)
      → (new_config host read_tree look_up_dir w).0 ≡ ok c
      → Names look_up_dir (read_tree look_up_dir w).0 c.file_path
        × (is_yaml c.file_path ≡ true)
        × IsSound c
  unfolding new_config
  new_config-IsSound look_up_dir w c h =
      let (t, v) = read_tree look_up_dir w in
      elim (Option-cases (find_config_file look_up_dir t)) [
        | inl n ↦ ground arith
        | inr (path, f) ↦
            let s : Shared W = record { config = fresh_config path; world = v } in
            elim (Outcome-cases (refresh host [] s).0) [
              | inl (inl (b, r)) ↦
                  let sound = refresh-IsSound host maps [] s b (fresh-IsSound path) r in
                  let same : (refresh host [] s).1.config ≡ c = ground arith in
                  let here : path ≡ c.file_path =
                    sym (refresh-file_path host keeps s) ∙ ap (λ d. d.file_path) same in
                  elim (find_config_file-Found look_up_dir t path f) [
                    | inl (empty, none_there) ↦ ground arith
                    | inr (there, yaml) ↦ (rw here at there, rw here at yaml, rw same at sound)
                  ]
              | inl (inr (x, r)) ↦ ground arith
              | inr r ↦ ground arith
            ]
      ]
