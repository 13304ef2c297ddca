-- ===== src/Config/Reload/Sound.antt =====
-- What the configuration is after refreshes that succeed.
use nexentastor_csi_driver_b.Base.{
  ℕ, Text, is_empty, lookup, has_key, NodupKeys, Map, All, Bool, true, false, [], ◌∷◌, ◌≡◌, ◌∙◌,
  refl, inl, inr, arith, Bool-cases,
}
use nexentastor_csi_driver_b.Exec.{ok, Outcome-cases}
use nexentastor_csi_driver_b.Config.Defs.{NsData, Config, Host, Shared}
use nexentastor_csi_driver_b.Config.Check.{validate}
use nexentastor_csi_driver_b.Config.Check.Usable.{defaulted, IsUsable, validate-IsUsable}
use nexentastor_csi_driver_b.Config.Reload.{
  is_changed, read_config, content, parse, finish, reload, stat, refresh, note_file, note_secret,
}

-- The names are distinct, and every entry can be used.
pub record IsSound (c : Config) : Type 0 where
  pub distinct : NodupKeys c.ns_map
  pub usable : All IsUsable c.ns_map

-- `yaml.Unmarshal` writes a Go map, which has each key once.
pub record MakesMaps {W : Type 0} (host : Host W) : Type 0 where
  pub makes :
      (text : Text) (c : Config) → NodupKeys c.ns_map → NodupKeys (host.unmarshal text c).0.ns_map

has_key-defaulted : (k : Text) (es : Map NsData) → has_key k (defaulted es) ≡ has_key k es
unfolding lookup
has_key-defaulted k [] = refl
has_key-defaulted k ((name, d) ∷ es) = ground (arith, has_key-defaulted k es)

NodupKeys-defaulted : (es : Map NsData) → NodupKeys es → NodupKeys (defaulted es)
NodupKeys-defaulted [] u = tt
NodupKeys-defaulted ((name, d) ∷ es) u =
    (has_key-defaulted name es ∙ u.0, NodupKeys-defaulted es u.1)

validate-IsSound :
    (c : Config) → NodupKeys c.ns_map → (validate c).0 ≡ ok tt → IsSound (validate c).1
validate-IsSound c u h =
    let (same, usable) = validate-IsUsable c u h in
    record { distinct = rw same (NodupKeys-defaulted c.ns_map u); usable = usable }

module _ {W : Type 0} (host : Host W) (laws : MakesMaps host) where
  finish-IsSound :
      (text : Text) (s : Shared W)
      → NodupKeys s.config.ns_map
      → (finish host text s).0 ≡ ok true
      → IsSound (finish host text s).1.config
  unfolding finish parse
  finish-IsSound text s u h =
      ground (arith, laws.makes text s.config u, validate-IsSound (host.unmarshal text s.config).0)

  reload-IsSound :
      (secret : Text) (t : ℕ) (s : Shared W)
      → NodupKeys s.config.ns_map
      → (reload host secret t s).0 ≡ ok true
      → IsSound (reload host secret t s).1.config
  unfolding content read_config reload
  reload-IsSound secret t s u h = elim (Bool-cases (is_empty secret)) [
    | inl file ↦
        let r = host.read_file s.config.file_path s.world in
        elim (Outcome-cases r.0) [
          | inl (inl (text, e)) ↦
              ground (
                arith,
                finish-IsSound text (record { config = note_file t s.config; world = r.1 }) u,
              )
          | inl (inr (x, e)) ↦ ground arith
          | inr e ↦ ground arith
        ]
    | inr given ↦
        ground (arith, finish-IsSound secret (record s { config = note_secret s.config }) u)
  ]

  reload-eq-true :
      (secret : Text) (t : ℕ) (s : Shared W) (b : Bool)
      → (reload host secret t s).0 ≡ ok b
      → b ≡ true
  unfolding reload finish
  reload-eq-true secret t s b h = ground arith

  -- A refresh that succeeds, from whatever it reads, leaves a sound configuration, if it was sound.
  pub refresh-IsSound :
      (secret : Text) (s : Shared W) (b : Bool)
      → IsSound s.config
      → (refresh host secret s).0 ≡ ok b
      → IsSound (refresh host secret s).1.config
  unfolding refresh stat
  refresh-IsSound secret s b sound h = elim (Bool-cases (is_empty s.config.file_path)) [
    | inl e ↦ ground arith
    | inr e ↦
        let r = host.stat_mod_time s.config.file_path s.world in
        let u : Shared W = record s { world = r.1 } in
        elim (Outcome-cases r.0) [
          | inl (inl (t, m)) ↦ elim (Bool-cases (is_changed secret t s.config)) [
            | inl c ↦
                ground
                  (arith, reload-eq-true secret t u b, reload-IsSound secret t u sound.distinct)
            | inr c ↦ ground arith
          ]
          | inl (inr (x, m)) ↦ ground arith
          | inr m ↦ ground arith
        ]
  ]

  -- A refresh that reports no change has changed nothing of the configuration.
  pub refresh-unchanged :
      (secret : Text) (s : Shared W)
      → (refresh host secret s).0 ≡ ok false
      → (refresh host secret s).1.config ≡ s.config
  unfolding refresh stat
  refresh-unchanged secret s h = elim (Bool-cases (is_empty s.config.file_path)) [
    | inl e ↦ ground arith
    | inr e ↦
        let r = host.stat_mod_time s.config.file_path s.world in
        let u : Shared W = record s { world = r.1 } in
        elim (Outcome-cases r.0) [
          | inl (inl (t, m)) ↦ ground (arith, reload-eq-true secret t u false)
          | inl (inr (x, m)) ↦ ground arith
          | inr m ↦ ground arith
        ]
  ]
