-- ===== src/Config/Reload/Failure.antt =====
-- What is left of a refresh that fails.
use nexentastor_csi_driver_b.Base.{
  ℕ, Text, is_empty, false, [], ◌≡◌, inl, inr, arith, ==_iff, Bool-cases,
}
use nexentastor_csi_driver_b.Exec.{Error, ok, err, Outcome-cases}
use nexentastor_csi_driver_b.Config.Defs.{Host, Shared}
use nexentastor_csi_driver_b.Config.Reload.{
  is_changed, read_config, content, parse, finish, reload, stat, refresh, note_file,
}
use nexentastor_csi_driver_b.Config.Reload.Repeat.{
  SameFile, validate-SameFile, KeepsPrivate, Steady,
}

module _ {W : Type 0} (host : Host W) (laws : KeepsPrivate host) where
  finish_any-SameFile :
      (text : Text) (s : Shared W) → SameFile s.config (finish host text s).1.config
  unfolding finish parse
  finish_any-SameFile text s =
      ground (arith, laws.keeps text s.config, validate-SameFile (host.unmarshal text s.config).0)

  reload_any-SameFile :
      (t : ℕ) (s : Shared W) → SameFile (note_file t s.config) (reload host [] t s).1.config
  unfolding content read_config reload
  reload_any-SameFile t s =
      let r = host.read_file s.config.file_path s.world in
      elim (Outcome-cases r.0) [
        | inl (inl (text, e)) ↦ ground (
          arith,
          finish_any-SameFile text (record { config = note_file t s.config; world = r.1 }),
        )
        | inl (inr (x, e)) ↦ ground arith
        | inr e ↦ ground arith
      ]

  -- A refresh from the file that fails, because the file cannot be read or parsed or because the
  -- configuration is refused, is not made good: while the file keeps its time, the next refresh
  -- succeeds without reading it, and goes on with what the failed one has left.
  pub refresh_forgets_failure :
      (t : ℕ) (s : Shared W) (e : Error)
      → is_empty s.config.file_path ≡ false
      → Steady host s.config.file_path t
      → (refresh host [] s).0 ≡ err e
      → refresh host [] (refresh host [] s).1 ≡ (ok false, (refresh host [] s).1)
  unfolding refresh stat
  refresh_forgets_failure t s e given steady h = elim (Bool-cases (is_changed [] t s.config)) [
    | inl c ↦ ground (
      arith,
      steady s.world,
      steady (reload host [] t s).1.world,
      reload_any-SameFile t s,
      ==_iff t t,
    )
    | inr c ↦ ground (arith, steady s.world)
  ]

  -- The path of the file stays, however a refresh from it ends.
  pub refresh-file_path :
      (s : Shared W) → (refresh host [] s).1.config.file_path ≡ s.config.file_path
  unfolding refresh stat
  refresh-file_path s = elim (Bool-cases (is_empty s.config.file_path)) [
    | inl e ↦ ground arith
    | inr e ↦
        let r = host.stat_mod_time s.config.file_path s.world in
        elim (Outcome-cases r.0) [
          | inl (inl (t, m)) ↦ ground (arith, reload_any-SameFile t (record s { world = r.1 }))
          | inl (inr (x, m)) ↦ ground arith
          | inr m ↦ ground arith
        ]
  ]
