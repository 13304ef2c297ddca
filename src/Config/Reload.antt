-- ===== src/Config/Reload.antt =====
-- `Config.Refresh` of config.go.
pub mod Repeat
pub mod Sound
pub mod Failure
use nexentastor_csi_driver_b.Base.{
  ℕ, Text, is_empty, Bool, true, false, not, ◌||◌, Option, none, some, if◌then◌else◌, ◌==◌,
}
use nexentastor_csi_driver_b.Exec.{
  Exec, Error, Outcome, ok, err, panic, errorf, pure, fail, gets, modify, or_fail, guard, ◌>>=◌,
  ◌>>◌,
}
use nexentastor_csi_driver_b.Config.Defs.{Config, Host, Shared}
use nexentastor_csi_driver_b.Config.Check.{validate}

abbrev note_secret : Config → Config
note_secret c = record c { temporary = true }

abbrev note_file : ℕ → Config → Config
note_file t c = record c { last_mod_time = t; temporary = false }

-- The test that decides whether the configuration is read again.
abbrev pub is_changed : Text → ℕ → Config → Bool
is_changed secret mod_time c =
    not (c.last_mod_time == mod_time) || (not (is_empty secret) || c.temporary)

module _ {W : Type 0} where
  -- A call of the operating system, and a change of the configuration alone.
  abbrev pub in_world : {A : Type 0} → Exec W A → Exec (Shared W) A
  in_world m s = let (r, w) = m s.world in (r, record s { world = w })

  abbrev pub in_config : {A : Type 0} → Exec Config A → Exec (Shared W) A
  in_config m s = let (r, c) = m s.config in (r, record s { config = c })

  module _ (host : Host W) where
    read_config : Exec (Shared W) Text
    read_config = do
      path ← gets (λ s. s.config.file_path)
      or_fail (λ e. errorf "Cannot read '%s' config file: %s") (in_world (host.read_file path))

    -- The content to parse: the secret, or the file.
    content : Text → ℕ → Exec (Shared W) Text
    unfolding read_config
    content secret mod_time =
        if is_empty secret
        then modify (λ s. record s { config = note_file mod_time s.config }) >> read_config
        else modify (λ s. record s { config = note_secret s.config }) >> pure secret

    -- `yaml.Unmarshal(content, c)`.
    parse : Text → Exec Config Unit
    parse text c =
        let (c', e) = host.unmarshal text c in
        elim e [
          | none ↦ (ok tt, c')
          | some _ ↦ (err (errorf "Cannot parse yaml in '%s' config file: %s"), c')
        ]

    finish : Text → Exec (Shared W) Bool
    unfolding parse
    finish text = do in_config (parse text); in_config validate; pure true

    -- The body of `if changed`.
    reload : Text → ℕ → Exec (Shared W) Bool
    unfolding content finish
    reload secret mod_time = do text ← content secret mod_time; finish text

    stat : Text → Exec (Shared W) ℕ
    stat path =
        or_fail (λ e. errorf "Cannot get stats for '%s' config file: %s")
          (in_world (host.stat_mod_time path))

    -- `Config.Refresh`, which returns whether the configuration has been read again.
    unfoldable pub refresh : Text → Exec (Shared W) Bool
    unfolding reload stat
    refresh secret = do
      c ← gets (λ s. s.config)
      guard (is_empty c.file_path) (errorf "Cannot read config file, filePath not specified")
      mod_time ← stat c.file_path
      if is_changed secret mod_time c then reload secret mod_time else pure false
