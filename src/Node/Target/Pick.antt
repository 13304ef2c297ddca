-- ===== src/Node/Target/Pick.antt =====
-- Which target `ResolveTargetGroup` answers with.
use nexentastor_csi_driver_b.Base.{
  ℕ, Text, is_empty, has_prefix, pos, ltb_ℤ, length, All, Bool, true, false, some, List, [], ◌∷◌,
  if◌then◌else◌, ◌≡◌, ◌⊎◌, inl, inr, refl, sym, ap, ◌∙◌, arith, Bool-cases,
}
use nexentastor_csi_driver_b.Exec.{Exec, ok, pure, Outcome-cases, ◌>>=◌}
use nexentastor_csi_driver_b.Exec.Steps.{bind_ok}
use nexentastor_csi_driver_b.Ns.{Ns, Group, LunMapping}
use nexentastor_csi_driver_b.Ns.Iscsi.{Iscsi, IscsiTarget, NodeHost}
use nexentastor_csi_driver_b.Process.{Process, on}
use nexentastor_csi_driver_b.Node.Context.{IscsiContext}
use nexentastor_csi_driver_b.Node.Context.Initiator.{Belongs}
use nexentastor_csi_driver_b.Node.Target.Listed.{members-Belong}
use nexentastor_csi_driver_b.Node.Target.{
  Choice, Progress, go_on, answer, of_target_group, is_chap, usable, is_fewer, try_target, consider,
  visit, visit_members, visit_groups, no_choice, proceed, settle, resolve_target_group,
  create_new_target_tg,
}

module _ {W P R : Type 0} (ns : Ns W P R) (iscsi : Iscsi W P) (os : NodeHost W) (c : IscsiContext)
    (p : P) where
  -- A target that the context allows, as the appliance has answered on the way: its name has the
  -- prefix, its group has fewer LUNs than the limit, and it uses CHAP exactly if the context does.
  pub record IsAllowed (group target : Text) : Type 0 where
    pub prefix : has_prefix target c.iscsi_target_prefix ≡ true
    pub luns : List LunMapping
    pub before : W
    pub counts : (ns.get_lun_mappings p (of_target_group group) before).0 ≡ ok luns
    pub few : ltb_ℤ (pos (length luns)) c.num_of_luns_per_target ≡ true
    pub info : IscsiTarget
    pub then_on : W
    pub asks : (iscsi.get_iscsi_target p target then_on).0 ≡ ok info
    pub chap : is_chap info.authentication ≡ c.use_chap_auth

  module _ (groups : List Group) where
    -- A choice that has been made is of an allowed target of a listed group.
    abbrev IsGood : Choice → Type 0
    IsGood choice =
        (is_empty choice.min_target_group ≡ true)
        ⊎ (Belongs choice.target choice.min_target_group groups
            × IsAllowed choice.min_target_group choice.target)

    abbrev IsFine : Progress → Type 0
    IsFine (go_on choice) = IsGood choice
    IsFine (answer t g) = g ≡ []

    usable-chap :
        (authentication : Text) (s : Process W R)
        → (usable ns iscsi os c (some p) authentication s).0 ≡ ok true
        → is_chap authentication ≡ c.use_chap_auth
    unfolding usable
    usable-chap authentication s h = ground arith

    chosen-IsGood :
        (fits : Bool) (group target : Text) (n : ℕ) (choice next : Choice)
        → (fits ≡ true → Belongs target group groups × IsAllowed group target)
        → IsGood choice
        → (if fits
            then record { min_luns = n; min_target_group = group; target = target }
            else choice)
          ≡ next
        → IsGood next
    chosen-IsGood true group target n choice next allowed good e = rw (sym e) (inr (allowed refl))
    chosen-IsGood false group target n choice next allowed good e = rw (sym e) good

    try_target-IsGood :
        (group target : Text) (luns : List LunMapping) (choice next : Choice) (w : W)
        (s : Process W R)
        → Belongs target group groups
        → has_prefix target c.iscsi_target_prefix ≡ true
        → (ns.get_lun_mappings p (of_target_group group) w).0 ≡ ok luns
        → ltb_ℤ (pos (length luns)) c.num_of_luns_per_target ≡ true
        → IsGood choice
        → (try_target ns iscsi os c (some p) group target (length luns) choice s).0 ≡ ok next
        → IsGood next
    unfolding try_target
    try_target-IsGood group target luns choice next w s there prefix counts few good h =
        let (info, asked, rest) =
          bind_ok (on (some p) (λ q. iscsi.get_iscsi_target q target)) _ s next h in
        let t : Process W R = record s { world = (iscsi.get_iscsi_target p target s.world).1 } in
        let (fits, used, last) =
          bind_ok (usable ns iscsi os c (some p) info.authentication) _ t next rest in
        chosen-IsGood fits group target (length luns) choice next
          (λ fit. (
            there,
            record {
              prefix = prefix;
              luns = luns;
              before = w;
              counts = counts;
              few = few;
              info = info;
              then_on = s.world;
              asks = asked;
              chap = usable-chap info.authentication t (used ∙ ap ok fit);
            },
          ))
          good (cc last)

    consider-IsGood :
        (group target : Text) (luns : List LunMapping) (choice next : Choice) (w : W)
        (s : Process W R)
        → Belongs target group groups
        → has_prefix target c.iscsi_target_prefix ≡ true
        → (ns.get_lun_mappings p (of_target_group group) w).0 ≡ ok luns
        → IsGood choice
        → (consider ns iscsi os c (some p) group target (length luns) choice s).0 ≡ ok next
        → IsGood next
    unfolding consider
    consider-IsGood group target luns choice next w s there prefix counts good h =
        elim (Bool-cases (is_fewer ns iscsi os c (length luns) choice)) [
          | inr more ↦ let same : next ≡ choice = ground arith in rw same good
          | inl fewer ↦
              try_target-IsGood group target luns choice next w s there prefix counts (ground arith)
                good (ground arith)
        ]

    visit-IsFine :
        (group target : Text) (choice : Choice) (progress : Progress) (s : Process W R)
        → Belongs target group groups
        → IsGood choice
        → (visit ns iscsi os c (some p) group target choice s).0 ≡ ok progress
        → IsFine progress
    unfolding visit
    visit-IsFine group target choice progress s there good h =
        elim (Bool-cases (has_prefix target c.iscsi_target_prefix)) [
          | inr other ↦ let e : progress ≡ go_on choice = ground arith in rw e good
          | inl prefix ↦
              let call = ns.get_lun_mappings p (of_target_group group) s.world in
              let t : Process W R = record s { world = call.1 } in
              elim (Outcome-cases call.0) [
                | inr e ↦ ground arith
                | inl (inr (x, e)) ↦
                    let k : progress ≡ answer choice.target [] = ground arith in rw k refl
                | inl (inl (luns, e)) ↦
                    let rest : ((consider ns iscsi os c (some p) group target (length luns) choice
                            >>= λ next. pure (go_on next))
                          t).0
                        ≡ ok progress =
                      ground arith in
                    let (next, considered, last) =
                      bind_ok (consider ns iscsi os c (some p) group target (length luns) choice)
                        (λ next. pure (go_on next)) t progress rest in
                    let k : progress ≡ go_on next = cc last in
                    rw k (
                      consider-IsGood group target luns choice next s.world t there prefix
                        (ground (arith, e)) good considered)
              ]
        ]

    next-IsFine :
        (first : Progress) (k : Choice → Exec (Process W R) Progress) (t : Process W R)
        (progress : Progress)
        → IsFine first
        → ((next : Choice) → IsGood next → (k next t).0 ≡ ok progress → IsFine progress)
        → (proceed ns iscsi os first k t).0 ≡ ok progress
        → IsFine progress
    next-IsFine (go_on next) k t progress fine later h = later next fine h
    next-IsFine (answer x g) k t progress fine later h =
        let e : progress ≡ answer x g = cc h in rw e fine

    visit_members-IsFine :
        (group : Text) (targets : List Text) (choice : Choice) (progress : Progress)
        (s : Process W R)
        → All (λ (t : Text). Belongs t group groups) targets
        → IsGood choice
        → (visit_members ns iscsi os c (some p) group targets choice s).0 ≡ ok progress
        → IsFine progress
    unfolding visit_members
    visit_members-IsFine group [] choice progress s there good h =
        let e : progress ≡ go_on choice = cc h in rw e good
    visit_members-IsFine group (target ∷ targets) choice progress s there good h =
        let (first, visited, rest) =
          bind_ok (visit ns iscsi os c (some p) group target choice) _ s progress h in
        next-IsFine first (visit_members ns iscsi os c (some p) group targets) _ progress
          (visit-IsFine group target choice first s there.0 good visited)
          (λ next fine k. visit_members-IsFine group targets next progress _ there.1 fine k) rest

    visit_groups-IsFine :
        (gs : List Group) (choice : Choice) (progress : Progress) (s : Process W R)
        → All (λ (g : Group). All (λ (t : Text). Belongs t g.name groups) g.members) gs
        → IsGood choice
        → (visit_groups ns iscsi os c (some p) gs choice s).0 ≡ ok progress
        → IsFine progress
    unfolding visit_groups
    visit_groups-IsFine [] choice progress s there good h =
        let e : progress ≡ go_on choice = cc h in rw e good
    visit_groups-IsFine (g ∷ gs) choice progress s there good h =
        let (first, visited, rest) =
          bind_ok (visit_members ns iscsi os c (some p) g.name g.members choice) _ s progress h in
        next-IsFine first (visit_groups ns iscsi os c (some p) gs) _ progress
          (visit_members-IsFine g.name g.members choice first s there.0 good visited)
          (λ next fine k. visit_groups-IsFine gs next progress _ there.1 fine k) rest

    settle-IsFine :
        (progress : Progress) (target group : Text) (s : Process W R)
        → IsFine progress
        → (settle ns iscsi os c (some p) progress s).0 ≡ ok (target, group)
        → is_empty group ≡ false
        → (Belongs target group groups × IsAllowed group target)
          ⊎ ((create_new_target_tg ns iscsi os c (some p) s).0 ≡ ok (target, group))
    settle-IsFine (answer t g) target group s fine h full = ground (arith, fine)
    settle-IsFine (go_on choice) target group s (inl none_yet) h full =
        inr (ground (arith, none_yet))
    settle-IsFine (go_on choice) target group s (inr (there, allowed)) h full =
        elim (Bool-cases (is_empty choice.min_target_group)) [
          | inl none_yet ↦ inr (ground (arith, none_yet))
          | inr given ↦
              let e : choice.target ≡ target = ground arith in
              let k : choice.min_target_group ≡ group = ground arith in
              inl (rw (sym e, sym k) (there, allowed))
        ]

  -- `ResolveTargetGroup`, where it answers with a group that has a name, answers with a target of a
  -- listed group that the context allows, or with a new one.
  pub resolve_target_group-IsAllowed :
      (groups : List Group) (target group : Text) (s : Process W R)
      → (iscsi.get_target_groups p s.world).0 ≡ ok groups
      → (resolve_target_group ns iscsi os c (some p) s).0 ≡ ok (target, group)
      → is_empty group ≡ false
      → (Belongs target group groups × IsAllowed group target)
        ⊎ ((t : Process W R) × ((create_new_target_tg ns iscsi os c (some p) t).0
              ≡ ok (target, group)))
  unfolding resolve_target_group
  resolve_target_group-IsAllowed groups target group s listed h full =
      let t : Process W R = record s { world = (iscsi.get_target_groups p s.world).1 } in
      let rest : ((visit_groups ns iscsi os c (some p) groups no_choice
              >>= settle ns iscsi os c (some p))
            t).0
          ≡ ok (target, group) =
        ground (arith, listed) in
      let (progress, visited, last) =
        bind_ok (visit_groups ns iscsi os c (some p) groups no_choice)
          (settle ns iscsi os c (some p)) t (target, group) rest in
      elim (settle-IsFine groups progress target group _
        (visit_groups-IsFine groups groups no_choice progress t (members-Belong groups) (inl refl)
          visited)
        last full) [ inl there ↦ inl there | inr new ↦ inr (_, new) ]
