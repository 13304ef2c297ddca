-- ===== src/Config/Reload/Repeat.antt =====
-- When the configuration is read again.
use nexentastor_csi_driver_b.Base.{
  ℕ, Text, is_empty, Bool, true, false, List, [], ◌∷◌, ◌≡◌, ◌≢◌, inl, inr, arith, ==_iff,
  Bool-cases,
}
use nexentastor_csi_driver_b.Exec.{ok, Outcome-cases}
use nexentastor_csi_driver_b.Config.Defs.{NsData, Config, Host, Shared}
use nexentastor_csi_driver_b.Config.Check.{store_default, validate_from, validate}
use nexentastor_csi_driver_b.Config.Reload.{
  is_changed, read_config, content, parse, finish, reload, stat, refresh, note_file, note_secret,
}

-- The fields that no YAML document and no validation writes.
pub record SameFile (c d : Config) : Type 0 where
  pub file_path : d.file_path ≡ c.file_path
  pub last_mod_time : d.last_mod_time ≡ c.last_mod_time
  pub temporary : d.temporary ≡ c.temporary

pub SameFile-store : (name : Text) (d : NsData) (c : Config) → SameFile c (store_default name d c)
SameFile-store name d c = ground arith

pub SameFile-trans : {c d e : Config} → SameFile c d → SameFile d e → SameFile c e
SameFile-trans h k = ground arith

validate_from-SameFile :
    (es : List (Text × NsData)) (c : Config) → SameFile c (validate_from es c).1
unfolding validate_from
validate_from-SameFile [] c = ground arith
validate_from-SameFile ((name, d) ∷ es) c =
    ground (arith, SameFile-store name d c, validate_from-SameFile es (store_default name d c))

pub validate-SameFile : (c : Config) → SameFile c (validate c).1
unfolding validate
validate-SameFile c = validate_from-SameFile c.ns_map c

-- `yaml.Unmarshal` leaves the unexported fields of a struct alone.
pub record KeepsPrivate {W : Type 0} (host : Host W) : Type 0 where
  pub keeps : (text : Text) (c : Config) → SameFile c (host.unmarshal text c).0

-- The file is there, and is not written any more: `os.Stat` goes on to answer with one time.
abbrev pub Steady : {W : Type 0} → Host W → Text → ℕ → Type 0
Steady {W} host path t = (w : W) → host.stat_mod_time path w ≡ (ok t, w)

module _ {W : Type 0} (host : Host W) (laws : KeepsPrivate host) where
  finish-SameFile :
      (text : Text) (s : Shared W)
      → (finish host text s).0 ≡ ok true
      → SameFile s.config (finish host text s).1.config
  unfolding finish parse
  finish-SameFile text s h =
      ground (arith, laws.keeps text s.config, validate-SameFile (host.unmarshal text s.config).0)

  reload-file :
      (t : ℕ) (s : Shared W)
      → (reload host [] t s).0 ≡ ok true
      → SameFile (note_file t s.config) (reload host [] t s).1.config
  unfolding content read_config reload
  reload-file t s h =
      let r = host.read_file s.config.file_path s.world in
      elim (Outcome-cases r.0) [
        | inl (inl (text, e)) ↦
            ground
              (arith, finish-SameFile text (record { config = note_file t s.config; world = r.1 }))
        | inl (inr (x, e)) ↦ ground arith
        | inr e ↦ ground arith
      ]

  reload-secret :
      (x : ℕ) (secret : Text) (t : ℕ) (s : Shared W)
      → (reload host (x ∷ secret) t s).0 ≡ ok true
      → SameFile (note_secret s.config) (reload host (x ∷ secret) t s).1.config
  unfolding content reload
  reload-secret x secret t s h =
      finish-SameFile (x ∷ secret) (record s { config = note_secret s.config }) h

  -- While the file stays as it is, a successful refresh from the file is the last one that reads it:
  -- the next refresh reports no change and changes nothing.
  pub refresh_again :
      (t : ℕ) (s : Shared W) (b : Bool)
      → Steady host s.config.file_path t
      → (refresh host [] s).0 ≡ ok b
      → refresh host [] (refresh host [] s).1 ≡ (ok false, (refresh host [] s).1)
  unfolding refresh stat
  refresh_again t s b steady h = elim (Bool-cases (is_empty s.config.file_path)) [
    | inl e ↦ ground arith
    | inr e ↦ elim (Bool-cases (is_changed [] t s.config)) [
      | inl c ↦
          ground (
            arith,
            steady s.world,
            steady (reload host [] t s).1.world,
            reload-file t s,
            ==_iff t t,
          )
      | inr c ↦ ground (arith, steady s.world)
    ]
  ]

  reload-ne-false : (secret : Text) (t : ℕ) (s : Shared W) → (reload host secret t s).0 ≢ ok false
  unfolding reload finish
  reload-ne-false secret t s h = ground arith

  refresh_temporary :
      (next : Text) (s : Shared W) → s.config.temporary ≡ true → (refresh host next s).0 ≢ ok false
  unfolding refresh stat
  refresh_temporary next s temp h =
      let r = host.stat_mod_time s.config.file_path s.world in
      elim (Outcome-cases r.0) [
        | inl (inl (t, e)) ↦ ground (arith, reload-ne-false next t (record s { world = r.1 }))
        | inl (inr (x, e)) ↦ ground arith
        | inr e ↦ ground arith
      ]

  secret_leaves_temporary :
      (x : ℕ) (secret : Text) (s : Shared W) (b : Bool)
      → (refresh host (x ∷ secret) s).0 ≡ ok b
      → (b ≡ true) × ((refresh host (x ∷ secret) s).1.config.temporary ≡ true)
  unfolding refresh stat
  secret_leaves_temporary x secret s b h =
      let r = host.stat_mod_time s.config.file_path s.world in
      let s' : Shared W = record s { world = r.1 } in
      elim (Outcome-cases r.0) [
        | inl (inl (t, e)) ↦
            ground (arith, reload-secret x secret t s', reload-ne-false (x ∷ secret) t s')
        | inl (inr (y, e)) ↦ ground arith
        | inr e ↦ ground arith
      ]

  -- A refresh from a secret always reads, and never counts as final: whatever the file does, the next
  -- refresh reads the configuration again, from the file if no secret is given.
  pub refresh_after_secret :
      (x : ℕ) (secret next : Text) (s : Shared W) (b : Bool)
      → (refresh host (x ∷ secret) s).0 ≡ ok b
      → (b ≡ true) × ((refresh host next (refresh host (x ∷ secret) s).1).0 ≢ ok false)
  refresh_after_secret x secret next s b h =
      let left = secret_leaves_temporary x secret s b h in (left.0, refresh_temporary next _ left.1)
