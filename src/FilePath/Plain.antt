-- ===== src/FilePath/Plain.antt =====
-- Paths made of ordinary names: `filepath.Join` puts a slash between them and changes nothing else.
use mathlib.Core.List.{reverse_aux, reverse, reverse-reverse, append_assoc}
use nexentastor_csi_driver_b.Base.{
  Text, eq_text, is_empty, is_empty-append, split, split-append, split-Lacks, join, Lacks, Bool,
  false, List, [], ◌∷◌, ◌++◌, ◌≡◌, refl, ap, ◌∙◌, arith, All,
}
use nexentastor_csi_driver_b.FilePath.{
  dot, dot_dot, clean_step, clean_loop, clean, is_rooted, join_path, up_to_slash, dir,
}

-- An ordinary file name: not empty, no slash, and neither `.` nor `..`.
pub record IsName (s : Text) : Type 0 where
  pub nonempty : is_empty s ≡ false
  pub no_slash : Lacks b'/' s
  pub not_dot : eq_text s dot ≡ false
  pub not_dot_dot : eq_text s dot_dot ≡ false

clean_step-IsName :
    (r : Bool) (s : Text) (above : List Text) → IsName s → clean_step r s above ≡ s ∷ above
unfolding clean_step
clean_step-IsName r s above h = rw (h.nonempty, h.not_dot, h.not_dot_dot)

pub split-join :
    (s : Text) (names : List Text)
    → IsName s
    → All IsName names
    → split b'/' (join b'/' (s ∷ names)) ≡ s ∷ names
unfolding join
split-join s [] h hs = split-Lacks b'/' s h.no_slash
split-join s (t ∷ names) h hs =
    split-append b'/' s _ h.no_slash ∙ ap (λ ws. s ∷ ws) (split-join t names hs.0 hs.1)

clean_loop-IsName :
    (r : Bool) (names above : List Text)
    → All IsName names
    → clean_loop r names above ≡ reverse_aux names above
unfolding clean_loop
clean_loop-IsName r [] above h = refl
clean_loop-IsName r (s ∷ names) above h =
    rw (clean_step-IsName r s above h.0) (clean_loop-IsName r names (s ∷ above) h.1)

clean_of_elements :
    (p q : Text) (parts names : List Text)
    → is_rooted p ≡ false
    → split b'/' p ≡ parts
    → clean_loop false parts [] ≡ reverse names
    → join b'/' names ≡ q
    → is_empty q ≡ false
    → clean p ≡ q
unfolding clean
clean_of_elements p q parts names unrooted elements loop whole full =
    rw (unrooted, elements, loop, reverse-reverse, whole, full)

is_rooted-join :
    (s : Text) (names : List Text) → IsName s → is_rooted (join b'/' (s ∷ names)) ≡ false
unfolding join
is_rooted-join [] names h = cc (h.nonempty)
is_rooted-join (x ∷ s) [] h = ground (arith, h.no_slash.0)
is_rooted-join (x ∷ s) (t ∷ names) h = ground (arith, h.no_slash.0)

is_empty-join : (s : Text) (names : List Text) → IsName s → is_empty (join b'/' (s ∷ names)) ≡ false
unfolding join
is_empty-join [] names h = cc (h.nonempty)
is_empty-join (x ∷ s) [] h = refl
is_empty-join (x ∷ s) (t ∷ names) h = refl

-- A path of ordinary names is clean.
pub clean_names :
    (s : Text) (names : List Text)
    → IsName s
    → All IsName names
    → clean (join b'/' (s ∷ names)) ≡ join b'/' (s ∷ names)
clean_names s names h hs =
    clean_of_elements _ _ _ (s ∷ names) (is_rooted-join s names h) (split-join s names h hs)
      (clean_loop-IsName false (s ∷ names) [] (h, hs)) refl (is_empty-join s names h)

join-pair : (s t u : Text) → join b'/' (s ∷ t ∷ u ∷ []) ≡ join b'/' (s ∷ t ∷ []) ++ (b'/' ∷ u)
unfolding join
join-pair s t u = simp append_assoc

-- `filepath.Join` of a volume group `pool/group` and an ordinary name.
pub join_path_names :
    (s t u : Text)
    → IsName s
    → IsName t
    → IsName u
    → join_path (join b'/' (s ∷ t ∷ [])) u ≡ join b'/' (s ∷ t ∷ u ∷ [])
unfolding join_path join
join_path_names [] t u hs ht hu = cc (hs.nonempty)
join_path_names (x ∷ s) t u hs ht hu =
    rw (← join-pair (x ∷ s) t u) (clean_names (x ∷ s) (t ∷ u ∷ []) hs (ht, (hu, tt)))

up_to_slash-Lacks : (u : Text) → Lacks b'/' u → up_to_slash u ≡ []
unfolding up_to_slash
up_to_slash-Lacks [] h = refl
up_to_slash-Lacks (x ∷ u) h = ground (arith, up_to_slash-Lacks u h.1)

up_to_slash-append : (s u : Text) → Lacks b'/' u → up_to_slash (s ++ (b'/' ∷ u)) ≡ s ++ (b'/' ∷ [])
unfolding up_to_slash
up_to_slash-append [] u h = rw (up_to_slash-Lacks u h)
up_to_slash-append (x ∷ s) u h = rw (up_to_slash-append s u h, is_empty-append s [] b'/')

split_trailing :
    (s t : Text)
    → IsName s
    → IsName t
    → split b'/' (join b'/' (s ∷ t ∷ []) ++ (b'/' ∷ [])) ≡ s ∷ t ∷ [] ∷ []
unfolding join
split_trailing s t hs ht = simp append_assoc (
    split-append b'/' s _ hs.no_slash
    ∙ ap (λ ws. s ∷ ws)
        (split-append b'/' t [] ht.no_slash ∙ ap (λ ws. t ∷ ws) (split-Lacks b'/' [] tt)))

clean_loop_trailing :
    (s t : Text) → IsName s → IsName t → clean_loop false (s ∷ t ∷ [] ∷ []) [] ≡ t ∷ s ∷ []
unfolding clean_loop clean_step
clean_loop_trailing s t hs ht =
    rw (clean_step-IsName false s [] hs) (rw (clean_step-IsName false t (s ∷ []) ht))

is_rooted-append :
    (s t : Text) → is_empty s ≡ false → is_rooted s ≡ false → is_rooted (s ++ t) ≡ false
is_rooted-append [] t full h = cc
is_rooted-append (x ∷ s) t full h = h

-- `filepath.Dir` of a volume path is its volume group.
pub dir_names :
    (s t u : Text)
    → IsName s
    → IsName t
    → IsName u
    → dir (join b'/' (s ∷ t ∷ u ∷ [])) ≡ join b'/' (s ∷ t ∷ [])
unfolding dir
dir_names s t u hs ht hu =
    rw (join-pair s t u, up_to_slash-append (join b'/' (s ∷ t ∷ [])) u hu.no_slash)
      (clean_of_elements _ _ _ (s ∷ t ∷ [])
        (is_rooted-append _ _ (is_empty-join s (t ∷ []) hs) (is_rooted-join s (t ∷ []) hs))
        (split_trailing s t hs ht) (clean_loop_trailing s t hs ht) refl
        (is_empty-join s (t ∷ []) hs))
