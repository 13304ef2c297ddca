-- ===== src/Controller/Listing/Pages.antt =====
-- One page of a snapshot listing.
use mathlib.Core.List.{append-nil, append_assoc}
use nexentastor_csi_driver_b.Base.{
  ℕ, zero, suc, ◌+◌, ◌-◌, ◌≤◌, ◌<◌, ◌^◌, Text, eq_text_iff, eq_text_refl, is_empty, ℤ, pos,
  int32_small, true, false, All, List, [], ◌∷◌, ◌++◌, map, ◌≡◌, ◌≢◌, refl, ◌∙◌, ap, arith, length,
  length-append, ◌==◌,
}
use nexentastor_csi_driver_b.Ns.{Snapshot}
use nexentastor_csi_driver_b.Csi.{CsiSnapshot, SnapshotPage}
use nexentastor_csi_driver_b.Controller.Listing.{page_loop, is_full, end_page}

abbrev pub take {ℓ} : {A : Type ℓ} → ℕ → List A → List A
take zero xs = []
take (suc n) [] = []
take (suc n) (x ∷ xs) = x ∷ take n xs

abbrev pub drop {ℓ} : {A : Type ℓ} → ℕ → List A → List A
drop zero xs = xs
drop (suc n) [] = []
drop (suc n) (x ∷ xs) = drop n xs

pub take-append-drop {ℓ} : {A : Type ℓ} (n : ℕ) (xs : List A) → take n xs ++ drop n xs ≡ xs
take-append-drop zero xs = refl
take-append-drop (suc n) [] = refl
take-append-drop (suc n) (x ∷ xs) = ap (λ ys. x ∷ ys) (take-append-drop n xs)

pub length-drop : (n : ℕ) (xs : List Snapshot) → length (drop n xs) ≡ length xs - n
length-drop zero xs = omega arith
length-drop (suc n) [] = omega arith
length-drop (suc n) (x ∷ xs) = omega (arith, length-drop n xs)

-- The token of the next page, from what is left.
abbrev pub token_of : List Snapshot → Text
token_of [] = []
token_of (s ∷ ss) = s.path

pub All-middle :
    (path : Text) (before : List Snapshot) (s : Snapshot) (ss : List Snapshot)
    → All (λ (b : Snapshot). b.path ≢ path) (before ++ (s ∷ ss))
    → s.path ≢ path
All-middle path [] s ss h = h.0
All-middle path (b ∷ before) s ss h = All-middle path before s ss h.1

-- No two snapshots share a path.
abbrev pub Distinct : List Snapshot → Type 0
Distinct [] = Unit
Distinct (s ∷ ss) = All (λ (b : Snapshot). b.path ≢ s.path) ss × Distinct ss

abbrev pub Named : List Snapshot → Type 0
Named = All (λ (s : Snapshot). is_empty s.path ≡ false)

is_full_iff :
    (m : ℕ) (entries : List CsiSnapshot)
    → 1 ≤ m
    → m < 2 ^ 31
    → length entries ≤ m
    → is_full (pos m) entries ≡ (length entries == m)
is_full_iff m entries some_entries small fits =
    rw (int32_small (length entries) (omega arith)) (ground arith)

end_page_more :
    (max : ℤ) (entries : List CsiSnapshot) (ss : List Snapshot) (page : SnapshotPage)
    → is_full max entries ≡ false
    → end_page max entries ss page ≡ page
end_page_more max entries [] page h = refl
end_page_more max entries (s ∷ ss) page h = rw h

module _ (f : Snapshot → CsiSnapshot) where
  page_step :
      (max : ℤ) (entries : List CsiSnapshot) (s : Snapshot) (ss : List Snapshot)
      → page_loop f max [] entries (s ∷ ss)
        ≡ end_page max (entries ++ (f s ∷ [])) ss (page_loop f max [] (entries ++ (f s ∷ [])) ss)
  unfolding page_loop
  page_step max entries s ss = ground arith

  module _ (m : ℕ) (some_entries : 1 ≤ m) (small : m < 2 ^ 31) where
    -- A page takes as many snapshots as are left of the limit, and names the next one.
    pub page_loop_limited :
        (n : ℕ) (entries : List CsiSnapshot) (ss : List Snapshot)
        → 1 ≤ n
        → length entries + n ≡ m
        → page_loop f (pos m) [] entries ss
          ≡ record { entries = entries ++ map f (take n ss); next_token = token_of (drop n ss) }
    page_loop_limited zero entries ss h e = absurd (omega arith)
    page_loop_limited (suc n) entries [] h e = unfold page_loop in rw append-nil
    page_loop_limited (suc zero) entries (s ∷ []) h e =
        page_step (pos m) entries s [] ∙ unfold page_loop in refl
    page_loop_limited (suc zero) entries (s ∷ t ∷ ss) h e =
        let full : is_full (pos m) (entries ++ (f s ∷ [])) ≡ true =
          is_full_iff m (entries ++ (f s ∷ [])) some_entries small
            (omega (arith, length-append entries (f s ∷ [])))
          ∙ ground (arith, length-append entries (f s ∷ [])) in
        page_step (pos m) entries s (t ∷ ss) ∙ rw full
    page_loop_limited (suc (suc n)) entries (s ∷ ss) h e =
        let more : is_full (pos m) (entries ++ (f s ∷ [])) ≡ false =
          is_full_iff m (entries ++ (f s ∷ [])) some_entries small
            (omega (arith, length-append entries (f s ∷ [])))
          ∙ ground (arith, length-append entries (f s ∷ [])) in
        page_step (pos m) entries s ss
        ∙ end_page_more (pos m) (entries ++ (f s ∷ [])) ss _ more
        ∙ page_loop_limited (suc n) (entries ++ (f s ∷ [])) ss (omega arith)
            (omega (arith, length-append entries (f s ∷ [])))
        ∙ simp append_assoc

    -- The first page, and the page from a token on, which is that of the snapshot at the token.
    pub page_first :
        (ss : List Snapshot)
        → page_loop f (pos m) [] [] ss
          ≡ record { entries = map f (take m ss); next_token = token_of (drop m ss) }
    page_first ss = page_loop_limited m [] ss some_entries (omega arith)

    pub page_skip :
        (s : Snapshot) (before ss : List Snapshot)
        → All (λ (b : Snapshot). b.path ≢ s.path) before
        → is_empty s.path ≡ false
        → page_loop f (pos m) s.path [] (before ++ (s ∷ ss)) ≡ page_loop f (pos m) [] [] (s ∷ ss)
    unfolding page_loop
    page_skip s [] ss h full = ground (arith, eq_text_refl s.path)
    page_skip s (b ∷ before) ss h full =
        ground (arith, page_skip s before ss h.1 full, eq_text_iff b.path s.path, h.0, full)
