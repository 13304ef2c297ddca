-- ===== src/Controller/Volumes/Deletion.antt =====
-- `DeleteVolume` and `ControllerUnpublishVolume` leave no mapping behind.
use nexentastor_csi_driver_b.Base.{
  Text, eq_text, eq_text_refl, All, is_empty, Bool, true, false, Option, none, some, List, [], ◌∷◌,
  ◌≡◌, ◌⊎◌, inl, inr, refl, sym, ◌∙◌, ap, arith, if◌then◌else◌, Bool-cases,
}
use nexentastor_csi_driver_b.Exec.{Exec, ok, Outcome-cases}
use nexentastor_csi_driver_b.Config.{Host}
use nexentastor_csi_driver_b.Ns.{Ns, LunMapping, of_volume}
use nexentastor_csi_driver_b.Ns.Appliance.{IsAppliance, without}
use nexentastor_csi_driver_b.Process.{Process}
use nexentastor_csi_driver_b.Csi.{VolumeRequest}
use nexentastor_csi_driver_b.Controller.Connect.{refreshed, resolve_ns, last_secret}
use nexentastor_csi_driver_b.Controller.Request.{split_id, volume_group_of}
use nexentastor_csi_driver_b.Controller.Volumes.{
  destroy_lun_mappings, unmap, delete_resolved, with_volume, delete_volume,
}

-- The mappings that are left after those of a list.
without_all : List LunMapping → List LunMapping → List LunMapping
without_all [] luns = luns
without_all (m ∷ ms) luns = without_all ms (without m.id luns)

has_id : Text → List LunMapping → Bool
has_id id [] = false
has_id id (m ∷ ms) = if eq_text id m.id then true else has_id id ms

-- Every mapping of the second list has its ID in the first.
abbrev Covered : List LunMapping → List LunMapping → Type 0
Covered ms = All (λ (m : LunMapping). has_id m.id ms ≡ true)

Covered-without :
    (m : LunMapping) (ms luns : List LunMapping)
    → Covered (m ∷ ms) luns
    → Covered ms (without m.id luns)
unfolding has_id without
Covered-without m ms [] h = tt
Covered-without m ms (l ∷ luns) h = elim (Bool-cases (eq_text l.id m.id)) [
  | inl e ↦ rw e (Covered-without m ms luns h.1)
  | inr e ↦ rw e (ground (arith, h.0), Covered-without m ms luns h.1)
]

Covered-cons :
    (m : LunMapping) (ms luns : List LunMapping) → Covered ms luns → Covered (m ∷ ms) luns
unfolding has_id
Covered-cons m ms [] h = tt
Covered-cons m ms (l ∷ luns) h = (ground (arith, h.0), Covered-cons m ms luns h.1)

Covered-refl : (ms : List LunMapping) → Covered ms ms
unfolding has_id
Covered-refl [] = tt
Covered-refl (m ∷ ms) = (rw (eq_text_refl m.id), Covered-cons m ms ms (Covered-refl ms))

without_all-Covered : (ms luns : List LunMapping) → Covered ms luns → without_all ms luns ≡ []
unfolding without_all has_id
without_all-Covered [] [] h = refl
without_all-Covered [] (l ∷ luns) h = cc (h.0)
without_all-Covered (m ∷ ms) luns h =
    without_all-Covered ms (without m.id luns) (Covered-without m ms luns h)

module _ {W P R : Type 0} (ns : Ns W P R) (laws : IsAppliance ns) (p : P) (path : Text) where
  -- A loop that has gone through has removed the mappings of its list.
  destroy_lun_mappings-mapped :
      (luns : List LunMapping) (s : Process W R)
      → (destroy_lun_mappings ns (some p) luns s).0 ≡ ok tt
      → laws.mapped p path (destroy_lun_mappings ns (some p) luns s).1.world
        ≡ without_all luns (laws.mapped p path s.world)
  unfolding destroy_lun_mappings without_all
  destroy_lun_mappings-mapped [] s h = refl
  destroy_lun_mappings-mapped (m ∷ luns) s h =
      let call = ns.destroy_lun_mapping p m.id s.world in
      elim (Outcome-cases call.0) [
        | inl (inl (u, e)) ↦ ground (
          arith,
          laws.destroy_lun_mapping_ok p path m.id s.world,
          destroy_lun_mappings-mapped luns (record s { world = call.1 }),
        )
        | inl (inr (x, e)) ↦ ground arith
        | inr e ↦ ground arith
      ]

  -- After the query and the loop no mapping of the volume is left.
  unmap-mapped :
      (s : Process W R)
      → (unmap ns path (some p) s).0 ≡ ok tt
      → laws.mapped p path (unmap ns path (some p) s).1.world ≡ []
  unfolding unmap
  unmap-mapped s h =
      let call = ns.get_lun_mappings p (of_volume path) s.world in
      elim (Outcome-cases call.0) [
        | inl (inl (luns, e)) ↦ ground (
          arith,
          laws.get_lun_mappings_ok p path s.world luns,
          destroy_lun_mappings-mapped luns (record s { world = call.1 }),
          without_all-Covered luns luns (Covered-refl luns),
        )
        | inl (inr (x, e)) ↦ ground arith
        | inr e ↦ ground arith
      ]

  -- A deletion that succeeds leaves neither the volume nor a mapping of it, whether the volume was
  -- there or not.
  pub delete_resolved_gone :
      (s : Process W R)
      → (delete_resolved ns path (some p) s).0 ≡ ok tt
      → let w = (delete_resolved ns path (some p) s).1.world in
        (laws.volume_at p path w ≡ none) × (laws.mapped p path w ≡ [])
  unfolding delete_resolved
  delete_resolved_gone s h =
      let m = unmap ns path (some p) s in
      let call = ns.destroy_volume p path true true m.1.world in
      elim (Outcome-cases call.0) [
        | inl (inl (u, e)) ↦ ground (arith, unmap-mapped s, laws.destroy_volume_ok p path m.1.world)
        | inl (inr (x, e)) ↦
            ground (arith, unmap-mapped s, laws.destroy_volume_missing p path m.1.world x)
        | inr e ↦ ground arith
      ]

module _ {W P R : Type 0} (ns : Ns W P R) (host : Host W) (req : VolumeRequest) (s t : Process W R)
    (fresh : refreshed ns host (last_secret req.secrets) s ≡ (ok tt, t))
    (given : is_empty req.volume_id ≡ false) where
  -- The answer of `resolveNS` for a path of a configuration.
  abbrev Resolves : Text → Text → Option P → Process W R → Type 0
  Resolves config_name group provider u =
      resolve_ns ns (record { volume_group = group; zone = []; config_name = config_name }) t
      ≡ (ok (record { volume_group = group; ns_provider = provider; config_name = config_name }), u)

  with_volume_resolved :
      (k : Text → Option P → Exec (Process W R) Unit) (config_name path group : Text)
      (provider : Option P) (u : Process W R)
      → split_id req.volume_id ≡ some (config_name, path)
      → volume_group_of path ≡ some group
      → Resolves config_name group provider u
      → with_volume ns host req k s ≡ k path provider u
  unfolding with_volume
  with_volume_resolved k config_name path group provider u parts triple found =
      rw (fresh, given, parts) (rw (triple) (rw found))

  -- A deletion of a well-formed ID, once its appliance is found, removes the volume and its mappings
  -- if it reports success.
  pub delete_volume_gone :
      (laws : IsAppliance ns) (config_name path group : Text) (p : P) (u : Process W R)
      (v : Process W R)
      → split_id req.volume_id ≡ some (config_name, path)
      → volume_group_of path ≡ some group
      → Resolves config_name group (some p) u
      → delete_volume ns host req s ≡ (ok tt, v)
      → (laws.volume_at p path v.world ≡ none) × (laws.mapped p path v.world ≡ [])
  unfolding delete_volume
  delete_volume_gone laws config_name path group p u v parts triple found done =
      let same =
        with_volume_resolved (delete_resolved ns) config_name path group (some p) u parts triple
          found in
      let ended : delete_resolved ns path (some p) u ≡ (ok tt, v) = sym same ∙ done in
      let gone = delete_resolved_gone ns laws p path u (ap (λ x. x.0) ended) in rw ended at gone

  -- An ID that is not a configuration name and a path, or whose path has not three elements, is
  -- deleted with success, and nothing is done.
  pub delete_volume_malformed :
      (split_id req.volume_id ≡ none)
        ⊎ ((parts : Text × Text) × (split_id req.volume_id ≡ some parts)
            × (volume_group_of parts.1 ≡ none))
      → delete_volume ns host req s ≡ (ok tt, t)
  unfolding delete_volume with_volume
  delete_volume_malformed (inl e) = ground (arith, fresh, given, e)
  delete_volume_malformed (inr (parts, e, g)) = ground (arith, fresh, given, e, g)
