-- ===== src/Controller/Store/Again.antt =====
-- The operations on volumes can be repeated.
use nexentastor_csi_driver_b.Base.{
  Text, ℤ, eq_ℤ_iff, ltb_ℤ, ltb_ℤ_irrefl, Bool, true, false, none, some, List, [], ◌≡◌, ◌∙◌, sym,
  inl, inr, arith, Bool-cases,
}
use nexentastor_csi_driver_b.Exec.{Error, ok, err, Outcome-cases}
use nexentastor_csi_driver_b.Ns.{Ns, Volume, LunMapping, of_volume}
use nexentastor_csi_driver_b.Ns.Appliance.{IsAppliance}
use nexentastor_csi_driver_b.Process.{Process}
use nexentastor_csi_driver_b.Csi.{ExpandResponse}
use nexentastor_csi_driver_b.Controller.Create.{
  accept_existing, create_new_volume, capacity_or_default,
}
use nexentastor_csi_driver_b.Controller.Create.Fresh.{create_new_volume_size}
use nexentastor_csi_driver_b.Controller.Volumes.{
  destroy_lun_mappings, unmap, delete_resolved, expand_resolved,
}
use nexentastor_csi_driver_b.Controller.Volumes.Deletion.{delete_resolved_gone}
use nexentastor_csi_driver_b.Controller.Volumes.Expansion.{larger, expand_resolved_size}
use nexentastor_csi_driver_b.Controller.Store.{Operation, create, expand, delete, IsLocal, perform}
use nexentastor_csi_driver_b.Controller.Store.Kept.{create-local, delete-local, expand-local}
use nexentastor_csi_driver_b.Controller.Store.Refines.{
  view, unchanged, expand_there, capacity_ne_zero,
}

-- An appliance that answers: a creation at a path that is taken is refused as such, a volume that is
-- there is found, one that is not there is missed as such, and the mappings are listed.
pub record Answers {W P R : Type 0} (ns : Ns W P R) (laws : IsAppliance ns) : Type 0 where
  pub refuses :
      (p : P) (path : Text) (size old : ℤ) (sparse : Bool) (w : W)
      → laws.volume_at p path w ≡ some old
      → (e : Error) × ((ns.create_volume p path size sparse w).0 ≡ err e)
        × (ns.is_already_exist e ≡ true)
  pub finds :
      (p : P) (path : Text) (old : ℤ) (w : W)
      → laws.volume_at p path w ≡ some old
      → (v : Volume) × ((ns.get_volume p path w).0 ≡ ok v)
  pub misses :
      (p : P) (path : Text) (w : W)
      → laws.volume_at p path w ≡ none
      → (e : Error) × ((ns.destroy_volume p path true true w).0 ≡ err e)
        × (ns.is_not_exist e ≡ true)
  pub lists :
      (p : P) (path : Text) (w : W)
      → (luns : List LunMapping) × ((ns.get_lun_mappings p (of_volume path) w).0 ≡ ok luns)

larger_not_less : (a b : ℤ) → ltb_ℤ (larger a b) b ≡ false
larger_not_less a b = elim (Bool-cases (ltb_ℤ a b)) [
  | inl e ↦ rw e (ltb_ℤ_irrefl b)
  | inr e ↦ rw e e
]

module _ {W P R : Type 0} (ns : Ns W P R) (laws : IsAppliance ns) (local : IsLocal ns laws)
    (answers : Answers ns laws) (p : P) (path : Text) (t : Process W R) where
  create_again :
      (size : ℤ) (sparse : Bool)
      → laws.volume_at p path t.world ≡ some size
      → (create_new_volume ns (some p) path size sparse t).0 ≡ ok tt
  unfolding create_new_volume accept_existing
  create_again size sparse there =
      let (e, refused, exists) = answers.refuses p path size size sparse t.world there in
      let w = (ns.create_volume p path size sparse t.world).1 in
      let still : laws.volume_at p path w ≡ some size =
        laws.create_volume_exists p path size sparse t.world e refused ∙ there in
      let (v, found) = answers.finds p path size w still in
      ground (
        arith,
        refused,
        exists,
        still,
        found,
        laws.get_volume_ok p path w v found,
        eq_ℤ_iff v.volume_size size,
      )

  delete_again :
      laws.volume_at p path t.world ≡ none
      → laws.mapped p path t.world ≡ []
      → (delete_resolved ns path (some p) t).0 ≡ ok tt
  unfolding delete_resolved unmap destroy_lun_mappings
  delete_again gone clear =
      let (luns, listed) = answers.lists p path t.world in
      let w = (ns.get_lun_mappings p (of_volume path) t.world).1 in
      let empty : luns ≡ [] = sym (laws.get_lun_mappings_ok p path t.world luns listed).0 ∙ clear in
      let still : laws.volume_at p path w ≡ none =
        local.get_lun_mappings_keeps p (of_volume path) t.world path ∙ gone in
      let (e, missed, absent) = answers.misses p path w still in
      ground (arith, listed, empty, missed, absent)

  expand_again :
      (n old : ℤ)
      → laws.volume_at p path t.world ≡ some old
      → ltb_ℤ old n ≡ false
      → (r : ExpandResponse) × ((expand_resolved ns path n (some p) t).0 ≡ ok r)
  unfolding expand_resolved
  expand_again n old there large =
      let (v, found) = answers.finds p path old t.world there in
      (
        record { capacity_bytes = n; node_expansion_required = false },
        ground (arith, found, laws.get_volume_ok p path t.world v found),
      )

module _ {W P R : Type 0} (ns : Ns W P R) (laws : IsAppliance ns) (local : IsLocal ns laws)
    (answers : Answers ns laws) (p : P) (sparse : Bool) where
  -- A call again succeeds, and the sizes are those that the first one has left.
  abbrev Repeats : Operation → Process W R → Type 0
  Repeats op t =
      ((perform ns p sparse op t).0 ≡ ok tt)
      × (view ns laws local p (perform ns p sparse op t).1 ≡ view ns laws local p t)

  created_again :
      (path : Text) (n : ℤ) (t : Process W R)
      → laws.volume_at p path t.world ≡ some (capacity_or_default n)
      → Repeats (create path n) t
  unfolding perform
  created_again path n t there =
      let size = capacity_or_default n in
      let done = create_again ns laws local answers p path t size sparse there in
      let made = create_new_volume_size ns laws p path size (capacity_ne_zero n) sparse t done in
      (
        done,
        unchanged ns laws local p t path (create_new_volume ns (some p) path size sparse t).1
            (made.0 ∙ sym there)
            (λ q other. create-local ns laws local p path q size sparse t other),
      )

  deleted_again :
      (path : Text) (t : Process W R)
      → laws.volume_at p path t.world ≡ none
      → laws.mapped p path t.world ≡ []
      → Repeats (delete path) t
  unfolding perform
  deleted_again path t gone clear =
      let done = delete_again ns laws local answers p path t gone clear in
      (
        done,
        unchanged ns laws local p t path (delete_resolved ns path (some p) t).1
            ((delete_resolved_gone ns laws p path t done).0 ∙ sym gone)
            (λ q other. delete-local ns laws local p path q t other),
      )

  expanded_again :
      (path : Text) (n old : ℤ) (t : Process W R)
      → laws.volume_at p path t.world ≡ some old
      → ltb_ℤ old n ≡ false
      → Repeats (expand path n) t
  unfolding perform
  expanded_again path n old t there large =
      let (r, done) = expand_again ns laws local answers p path t n old there large in
      let e = expand_resolved ns path n (some p) t in
      let kept = (expand_resolved_size ns laws p path old n t r there done).0 in
      let same : (perform ns p sparse (expand path n) t).1 ≡ e.1 = ground arith in
      (
        ground arith,
        rw same (
            unchanged ns laws local p t path e.1 (rw large at kept ∙ sym there)
              (λ q other. expand-local ns laws local p path q n t other)),
      )

  -- Each operation on a volume can be repeated: after one that has succeeded, the same one succeeds
  -- again and leaves all sizes as they are, if the calls of the library have their documented effects
  -- and the appliance answers.
  pub perform_again :
      (op : Operation) (s : Process W R)
      → (perform ns p sparse op s).0 ≡ ok tt
      → Repeats op (perform ns p sparse op s).1
  unfolding perform
  perform_again (create path n) s h =
      created_again path n (create_new_volume ns (some p) path (capacity_or_default n) sparse s).1
        (create_new_volume_size ns laws p path (capacity_or_default n) (capacity_ne_zero n) sparse s
          h).0
  perform_again (delete path) s h =
      let gone = delete_resolved_gone ns laws p path s h in
      deleted_again path (delete_resolved ns path (some p) s).1 gone.0 gone.1
  perform_again (expand path n) s h =
      let e = expand_resolved ns path n (some p) s in
      elim (Outcome-cases e.0) [
        | inl (inl (r, f)) ↦
            let (old, there) = expand_there ns laws local p s path n r f in
            let made = (expand_resolved_size ns laws p path old n s r there f).0 in
            let same : (perform ns p sparse (expand path n) s).1 ≡ e.1 = ground arith in
            rw same (expanded_again path n (larger old n) e.1 made (larger_not_less old n))
        | inl (inr (x, f)) ↦ ground arith
        | inr f ↦ ground arith
      ]
