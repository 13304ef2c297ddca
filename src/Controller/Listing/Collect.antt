-- ===== src/Controller/Listing/Collect.antt =====
-- The pages of a snapshot listing, put together, are the whole listing.
use mathlib.Core.List.{append_assoc, map-append}
use nexentastor_csi_driver_b.Base.{
  ℕ, zero, suc, ◌-◌, ◌≤◌, ◌<◌, ◌^◌, Text, is_empty, pos, false, All, List, [], ◌∷◌, ◌++◌, map, ◌≡◌,
  ◌≢◌, refl, sym, ◌∙◌, ap, arith, if◌then◌else◌, length,
}
use nexentastor_csi_driver_b.Ns.{Snapshot}
use nexentastor_csi_driver_b.Csi.{CsiSnapshot}
use nexentastor_csi_driver_b.Controller.Listing.{page_loop}
use nexentastor_csi_driver_b.Controller.Listing.Pages.{
  take, drop, take-append-drop, length-drop, token_of, All-middle, Distinct, Named, page_first,
  page_skip,
}

-- A client that asks for page after page, each from the token of the last one.
abbrev pub collect : (Snapshot → CsiSnapshot) → ℕ → ℕ → Text → List Snapshot → List CsiSnapshot
collect f m zero token all = []
collect f m (suc fuel) token all =
    let page = page_loop f (pos m) token [] all in
    let rest = collect f m fuel page.next_token all in
    page.entries ++ (if is_empty page.next_token then [] else rest)

module _ (f : Snapshot → CsiSnapshot) (m : ℕ) (some_entries : 1 ≤ m) (small : m < 2 ^ 31) where
  Distinct-before :
      (before : List Snapshot) (s : Snapshot) (ss : List Snapshot)
      → Distinct (before ++ (s ∷ ss))
      → All (λ (b : Snapshot). b.path ≢ s.path) before
  Distinct-before [] s ss d = tt
  Distinct-before (b ∷ before) s ss d =
      (λ e. All-middle b.path before s ss d.0 (sym e), Distinct-before before s ss d.1)

  Named-at :
      (before : List Snapshot) (s : Snapshot) (ss : List Snapshot)
      → Named (before ++ (s ∷ ss))
      → is_empty s.path ≡ false
  Named-at [] s ss n = n.0
  Named-at (b ∷ before) s ss n = Named-at before s ss n.1

  module _ (all : List Snapshot) (distinct : Distinct all) (named : Named all) where
    -- One page from a place in the listing, and the rest by a later page or by none.
    collect_step :
        (fuel : ℕ) (token : Text) (ss left : List Snapshot)
        → page_loop f (pos m) token [] all
          ≡ record { entries = map f (take m ss); next_token = token_of (drop m ss) }
        → drop m ss ≡ left
        → (if is_empty (token_of left) then [] else collect f m fuel (token_of left) all)
          ≡ map f left
        → collect f m (suc fuel) token all ≡ map f ss
    collect_step fuel token ss left page e rest =
        rw (page, e, rest, ← map-append f (take m ss) left, ← e, take-append-drop m ss)

    collect_from :
        (fuel : ℕ) (s : Snapshot) (before ss : List Snapshot)
        → all ≡ before ++ (s ∷ ss)
        → length (s ∷ ss) ≤ fuel
        → collect f m fuel s.path all ≡ map f (s ∷ ss)
    collect_from zero s before ss e enough = absurd (omega arith)
    collect_from (suc fuel) s before ss e enough =
        collect_step fuel s.path (s ∷ ss) (drop m (s ∷ ss)) page refl (
          go (drop m (s ∷ ss)) refl (length-drop m (s ∷ ss))
            (λ t b r k z. collect_from fuel t b r k z))
      where
        page :
            page_loop f (pos m) s.path [] all
            ≡ record { entries = map f (take m (s ∷ ss)); next_token = token_of (drop m (s ∷ ss)) }
        page = rw e (
            page_skip f m some_entries small s before ss
              (Distinct-before before s ss (rw e at distinct))
              (Named-at before s ss (rw e at named))
            ∙ page_first f m some_entries small (s ∷ ss))

        go :
            (left : List Snapshot)
            → drop m (s ∷ ss) ≡ left
            → length (drop m (s ∷ ss)) ≡ length (s ∷ ss) - m
            → ((t : Snapshot) (b r : List Snapshot)
                → all ≡ b ++ (t ∷ r)
                → length (t ∷ r) ≤ fuel
                → collect f m fuel t.path all ≡ map f (t ∷ r))
            → (if is_empty (token_of left) then [] else collect f m fuel (token_of left) all)
              ≡ map f left
        go [] d len ih = refl
        go (t ∷ r) d len ih =
            let whole : all ≡ (before ++ take m (s ∷ ss)) ++ (t ∷ r) =
              e
              ∙ ap (λ ys. before ++ ys)
                  (sym (take-append-drop m (s ∷ ss)) ∙ ap (λ ys. take m (s ∷ ss) ++ ys) d)
              ∙ sym (append_assoc before (take m (s ∷ ss)) (t ∷ r)) in
            rw (Named-at (before ++ take m (s ∷ ss)) t r (rw whole at named))
              (ih t (before ++ take m (s ∷ ss)) r whole (omega (arith, len, ap length d)))

  collect_first :
      (s : Snapshot) (ss : List Snapshot) (fuel : ℕ)
      → is_empty s.path ≡ false
      → collect f m (suc fuel) [] (s ∷ ss) ≡ collect f m (suc fuel) s.path (s ∷ ss)
  collect_first s ss fuel full = rw (page_skip f m some_entries small s [] ss tt full)

  -- The pages of a listing, asked for one after the other with a limit that is a positive `int32`,
  -- are together the whole listing, in its order and without repetition, if no two snapshots share
  -- a path and no path is empty. As many requests as there are snapshots are enough.
  pub collect_all :
      (all : List Snapshot) (fuel : ℕ)
      → Distinct all
      → Named all
      → length all ≤ fuel
      → collect f m fuel [] all ≡ map f all
  collect_all [] zero d n h = refl
  collect_all [] (suc fuel) d n h = unfold page_loop in refl
  collect_all (s ∷ ss) zero d n h = absurd (omega arith)
  collect_all (s ∷ ss) (suc fuel) d n h =
      collect_first s ss fuel n.0 ∙ collect_from (s ∷ ss) d n (suc fuel) s [] ss refl h
