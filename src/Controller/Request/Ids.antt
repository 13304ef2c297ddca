-- ===== src/Controller/Request/Ids.antt =====
-- Volume and snapshot IDs: what is written by one handler is read by another.
use nexentastor_csi_driver_b.Base.{
  ℕ, suc, ◌+◌, ◌≤◌, length, cons_head, Text, split, split_pair, join, Lacks, none, some, List, [],
  ◌∷◌, ◌++◌, ◌≡◌, ◌≢◌, refl, ap, arith, if◌then◌else◌, ◌==◌,
}
use nexentastor_csi_driver_b.FilePath.{join_path, dir}
use nexentastor_csi_driver_b.FilePath.Plain.{IsName, join_path_names, split-join, dir_names}
use nexentastor_csi_driver_b.Controller.Request.{
  split_id, volume_group_of, joined, pair_of, first_two,
}

Lacks-append : (c : ℕ) (s t : Text) → Lacks c s → Lacks c t → Lacks c (s ++ t)
Lacks-append c [] t h k = k
Lacks-append c (x ∷ s) t h k = (h.0, Lacks-append c s t h.1 k)

-- The path of three names, as `CreateVolume` makes it in a volume group of two.
abbrev pub volume_path : Text → Text → Text → Text
volume_path pool group name = join_path (joined b'/' pool group) name

-- An ordinary name without a colon.
pub record IsPart (s : Text) : Type 0 where
  pub name : IsName s
  pub no_colon : Lacks b':' s

volume_path_eq :
    (pool group name : Text)
    → IsPart pool
    → IsPart group
    → IsPart name
    → volume_path pool group name ≡ join b'/' (pool ∷ group ∷ name ∷ [])
volume_path_eq pool group name hp hg hn = join_path_names pool group name hp.name hg.name hn.name

volume_path-Lacks :
    (c : ℕ) (pool group name : Text)
    → b'/' ≢ c
    → Lacks c pool
    → Lacks c group
    → Lacks c name
    → Lacks c (join b'/' (pool ∷ group ∷ name ∷ []))
unfolding join
volume_path-Lacks c pool group name slash hp hg hn =
    Lacks-append c pool _ hp (slash, Lacks-append c group _ hg (slash, hn))

-- An ID in the form that `CreateVolume` returns, for a pool, a group and a volume whose names are
-- ordinary (each is one element of a path, and has no colon) and a configuration without a colon in
-- its name, is taken apart by the other handlers into the configuration, the path and the volume
-- group that it was made from.
pub split_id_created :
    (config_name pool group name : Text)
    → Lacks b':' config_name
    → IsPart pool
    → IsPart group
    → IsPart name
    → let path = volume_path pool group name in
      (split_id (joined b':' config_name path) ≡ some (config_name, path))
      × (volume_group_of path ≡ some (joined b'/' pool group))
      × (dir path ≡ joined b'/' pool group)
unfolding split_id volume_group_of join
split_id_created config_name pool group name hc hp hg hn =
    let path = volume_path_eq pool group name hp hg hn in
    let plain =
      volume_path-Lacks b':' pool group name (omega arith) hp.no_colon hg.no_colon hn.no_colon in
    rw path (
      ap pair_of (split_pair b':' config_name _ hc plain),
      ap first_two (split-join pool (group ∷ name ∷ []) hp.name (hg.name, (hn.name, tt))),
      dir_names pool group name hp.name hg.name hn.name,
    )

occurrences : ℕ → Text → ℕ
occurrences c [] = 0
occurrences c (x ∷ s) = if x == c then suc (occurrences c s) else occurrences c s

length-cons_head : (x n : ℕ) (ws : List Text) → length ws ≡ suc n → length (cons_head x ws) ≡ suc n
length-cons_head x n [] h = absurd (omega arith)
length-cons_head x n (w ∷ ws) h = h

length-split : (c : ℕ) (s : Text) → length (split c s) ≡ suc (occurrences c s)
unfolding split occurrences
length-split c [] = refl
length-split c (x ∷ s) =
    ground (arith, length-split c s, length-cons_head x (occurrences c s) (split c s))

occurrences-append :
    (c : ℕ) (s t : Text) → occurrences c (s ++ t) ≡ occurrences c s + occurrences c t
unfolding occurrences
occurrences-append c [] t = omega arith
occurrences-append c (x ∷ s) t = ground (arith, occurrences-append c s t)

pair_of-none : (ws : List Text) → 3 ≤ length ws → pair_of ws ≡ none
pair_of-none [] h = refl
pair_of-none (a ∷ []) h = refl
pair_of-none (a ∷ b ∷ []) h = absurd (omega arith)
pair_of-none (a ∷ b ∷ d ∷ ws) h = refl

-- A volume whose path holds a colon, as that of a volume whose requested name holds one, has an ID
-- that no handler can take apart.
pub split_id_colon :
    (config_name before after : Text)
    → split_id (joined b':' config_name (before ++ (b':' ∷ after))) ≡ none
unfolding split_id join occurrences
split_id_colon config_name before after =
    let id = config_name ++ (b':' ∷ (before ++ (b':' ∷ after))) in
    pair_of-none (split b':' id) (
      ground (
        arith,
        length-split b':' id,
        occurrences-append b':' config_name (b':' ∷ (before ++ (b':' ∷ after))),
        occurrences-append b':' before (b':' ∷ after),
      ))
