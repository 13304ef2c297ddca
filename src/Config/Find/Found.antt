-- ===== src/Config/Find/Found.antt =====
-- Which file `findConfigFile` finds.
use nexentastor_csi_driver_b.Base.{
  Text, true, false, some, [], ◌≡◌, ◌⊎◌, inl, inr, refl, arith, Bool-cases,
}
use nexentastor_csi_driver_b.FilePath.{join_path}
use nexentastor_csi_driver_b.Config.Find.{
  Tree, Entries, file, unknown, folder, nil, entry, is_yaml, Visit, next, skip, crashed, leave,
  visit, visit_all, find_config_file, found_by,
}

-- The paths of the files of a tree, whatever their names are.
mutual
  pub Names : Text → Tree → Text → Type 0
  Names path file q = path ≡ q
  Names path unknown q = ⊥
  Names path (folder es) q = NamesIn path es q

  pub NamesIn : Text → Entries → Text → Type 0
  NamesIn path nil q = ⊥
  NamesIn path (entry name t es) q = Names (join_path path name) t q ⊎ NamesIn path es q

-- A visit of files has found one of them, or there is none to be found.
abbrev Good : (Text → Type 0) → Text → Visit → Type 0
Good N found (next f) =
    ((f ≡ found) × ((q : Text) → N q → is_yaml q ≡ false)) ⊎ (N f × (is_yaml f ≡ true))
Good N found (skip f) = N f × (is_yaml f ≡ true)
Good N found crashed = Unit

leave-Good :
    (N : Text → Type 0) (found : Text) (t : Tree) (v : Visit)
    → Good N found v
    → Good N found (leave t v)
leave-Good N found file (next f) g = g
leave-Good N found file (skip f) g = g
leave-Good N found file crashed g = g
leave-Good N found unknown (next f) g = g
leave-Good N found unknown (skip f) g = g
leave-Good N found unknown crashed g = g
leave-Good N found (folder es) (next f) g = g
leave-Good N found (folder es) (skip f) g = inr g
leave-Good N found (folder es) crashed g = g

module _ (N M : Text → Type 0) where
  abbrev Either : Text → Type 0
  Either q = N q ⊎ M q

  -- Two visits in a row.
  later-Good :
      (found f : Text) (v : Visit) → Good N found (next f) → Good M f v → Good Either found v
  later-Good found f (next g) (inl (e, n)) (inl (e', m)) =
      inl (rw e' e, λ q h. elim h [ inl a ↦ n q a | inr b ↦ m q b ])
  later-Good found f (next g) (inr (a, y)) (inl (e', m)) = inr (rw e' (inl a), rw e' y)
  later-Good found f (next g) h (inr (b, y)) = inr (inr b, y)
  later-Good found f (skip g) h (b, y) = (inr b, y)
  later-Good found f crashed h k = tt

  sequence-Good :
      (found : Text) (v : Visit) (k : Text → Visit)
      → Good N found v
      → ((f : Text) → Good M f (k f))
      → Good Either found (elim v [ next f ↦ k f | skip f ↦ skip f | crashed ↦ crashed ])
  sequence-Good found (next f) k g h = later-Good found f (k f) g (h f)
  sequence-Good found (skip f) k (a, y) h = (inl a, y)
  sequence-Good found crashed k g h = tt

mutual
  unfolding visit visit_all Names NamesIn

  visit-Good :
      (path : Text) (t : Tree) (found : Text) → Good (Names path t) found (visit path t found)
  visit-Good path file found = elim (Bool-cases (is_yaml path)) [
    | inl y ↦ rw y (refl, y)
    | inr n ↦ rw n (inl (refl, λ q e. rw (← e) n))
  ]
  visit-Good path unknown found = tt
  visit-Good path (folder es) found = visit_all-Good path es found

  visit_all-Good :
      (path : Text) (es : Entries) (found : Text)
      → Good (NamesIn path es) found (visit_all path es found)
  visit_all-Good path nil found = inl (refl, λ q h. elim h [ ])
  visit_all-Good path (entry name t es) found =
      sequence-Good (Names (join_path path name) t) (NamesIn path es) found
        (leave t (visit (join_path path name) t found)) (λ f. visit_all path es f)
        (leave-Good (Names (join_path path name) t) found t _
          (visit-Good (join_path path name) t found))
        (λ f. visit_all-Good path es f)

found-Good :
    (N : Text → Type 0) (v : Visit) (path : Text)
    → Good N [] v
    → found_by v ≡ some path
    → ((path ≡ []) × ((q : Text) → N q → is_yaml q ≡ false)) ⊎ (N path × (is_yaml path ≡ true))
found-Good N (next f) path (inl (e, n)) h = inl (ground arith, n)
found-Good N (next f) path (inr (a, y)) h =
    let e : f ≡ path = ground arith in inr (rw e at a, rw e at y)
found-Good N (skip f) path (a, y) h = let e : f ≡ path = ground arith in inr (rw e at a, rw e at y)
found-Good N crashed path g h = ground arith

-- Where the search does not panic, it answers with a file of the tree that has the extension of a
-- YAML file, or with the empty path, and then no file of the tree has it.
pub find_config_file-Found :
    (root : Text) (t : Tree) (path : Text)
    → find_config_file root t ≡ some path
    → ((path ≡ []) × ((q : Text) → Names root t q → is_yaml q ≡ false))
      ⊎ (Names root t path × (is_yaml path ≡ true))
unfolding find_config_file
find_config_file-Found root t path h =
    found-Good (Names root t) (visit root t []) path (visit-Good root t []) h
