-- ===== src/Node/Context/Initiator.antt =====
-- The name of the node, and its host group.
use nexentastor_csi_driver_b.Base.{
  ℕ, Text, bytes, is_empty, has_prefix, contains_text, split, join, All, true, false, none, some,
  List, [], ◌∷◌, ◌++◌, ◌≡◌, ◌⊎◌, inl, inr, refl, ap, ◌∙◌, arith, ==_iff, Bool-cases, Option-cases,
}
use nexentastor_csi_driver_b.Exec.{ok, Outcome-cases}
use nexentastor_csi_driver_b.Ns.{Group}
use nexentastor_csi_driver_b.Ns.Iscsi.{Iscsi, NodeHost}
use nexentastor_csi_driver_b.Process.{Process}
use nexentastor_csi_driver_b.Node.Context.{
  initiator_key, before_key, drop_prefix, initiator_name, has_member, find_host_group, get_node_iqn,
  create_update_host_group,
}

has_prefix-append : (p s : Text) → has_prefix (p ++ s) p ≡ true
unfolding has_prefix
has_prefix-append [] [] = refl
has_prefix-append [] (x ∷ s) = refl
has_prefix-append (x ∷ p) s = ground (arith, has_prefix-append p s, ==_iff x x)

drop_prefix-append : (p s : Text) → drop_prefix p (p ++ s) ≡ s
unfolding drop_prefix
drop_prefix-append [] s = refl
drop_prefix-append (x ∷ p) s = drop_prefix-append p s

contains_text-cons :
    (x : ℕ) (s sub : Text)
    → contains_text (x ∷ s) sub ≡ false
    → (has_prefix (x ∷ s) sub ≡ false) × (contains_text s sub ≡ false)
unfolding contains_text
contains_text-cons x s sub h = (ground arith, ground arith)

before_key_plain : (s : Text) → contains_text s initiator_key ≡ false → before_key s ≡ s
unfolding before_key
before_key_plain [] h = refl
before_key_plain (x ∷ s) h =
    let parts = contains_text-cons x s initiator_key h in
    rw parts.0 (ap (λ t. x ∷ t) (before_key_plain s parts.1))

abbrev HasNoKey : Text → Type 0
HasNoKey line = has_prefix line initiator_key ≡ false

initiator_name_after :
    (lines : List Text) (name : Text) → All HasNoKey lines → initiator_name lines name ≡ name
unfolding initiator_name
initiator_name_after [] name h = refl
initiator_name_after (line ∷ lines) name h = rw (h.0) (initiator_name_after lines name h.1)

initiator_name_step :
    (line name old : Text) (lines : List Text)
    → has_prefix line initiator_key ≡ true
    → drop_prefix initiator_key line ≡ name
    → before_key name ≡ name
    → initiator_name (line ∷ lines) old ≡ initiator_name lines name
unfolding initiator_name
initiator_name_step line name old lines key rest plain = rw (key, rest, plain)

initiator_name_last :
    (before after : List Text) (name old : Text)
    → All HasNoKey after
    → contains_text name initiator_key ≡ false
    → initiator_name (before ++ ((initiator_key ++ name) ∷ after)) old ≡ name
unfolding initiator_name
initiator_name_last [] after name old h plain =
    initiator_name_step (initiator_key ++ name) name old after
      (has_prefix-append initiator_key name) (drop_prefix-append initiator_key name)
      (before_key_plain name plain)
    ∙ initiator_name_after after name h
initiator_name_last (line ∷ before) after name old h plain =
    initiator_name_last before after name _ h plain

module _ {W P R : Type 0} (iscsi : Iscsi W P) (os : NodeHost W) (s : Process W R) (content : Text)
    (w : W) (before after : List Text) (name : Text) where
  -- The name of the node is what the last line with the key `InitiatorName=` gives, whatever lines
  -- are before it, if the name is not empty and does not hold the key again.
  pub get_node_iqn_last :
      os.read_initiator_name s.world ≡ (ok content, w)
      → split 10 content ≡ before ++ ((initiator_key ++ name) ∷ after)
      → All HasNoKey after
      → contains_text name initiator_key ≡ false
      → is_empty name ≡ false
      → get_node_iqn iscsi os s ≡ (ok name, record s { world = w })
  unfolding get_node_iqn
  get_node_iqn_last read lines last plain full =
      ground (arith, read, lines, full, initiator_name_last before after name [] last plain)

-- Some group of a list has the name and the member.
abbrev pub Belongs : Text → Text → List Group → Type 0
Belongs iqn name [] = ⊥
Belongs iqn name (g ∷ groups) =
    ((g.name ≡ name) × (has_member iqn g.members ≡ true)) ⊎ Belongs iqn name groups

find_host_group-Belongs :
    (iqn name : Text) (groups : List Group)
    → find_host_group iqn groups ≡ some name
    → Belongs iqn name groups
unfolding find_host_group
find_host_group-Belongs iqn name [] h = cc
find_host_group-Belongs iqn name (g ∷ groups) h = elim (Bool-cases (has_member iqn g.members)) [
  | inl here ↦ inl (ground arith, here)
  | inr later ↦ inr (find_host_group-Belongs iqn name groups (ground arith))
]

-- Every group of a list is without the member.
find_host_group-none :
    (iqn : Text) (groups : List Group)
    → find_host_group iqn groups ≡ none
    → All (λ (g : Group). has_member iqn g.members ≡ false) groups
unfolding find_host_group
find_host_group-none iqn [] h = tt
find_host_group-none iqn (g ∷ groups) h = elim (Bool-cases (has_member iqn g.members)) [
  | inl here ↦ ground arith
  | inr later ↦ (later, find_host_group-none iqn groups (ground arith))
]

module _ {W P R : Type 0} (iscsi : Iscsi W P) (os : NodeHost W) (p : P) (s t : Process W R)
    (iqn : Text) (groups : List Group) (w : W) (named : get_node_iqn iscsi os s ≡ (ok iqn, t))
    (listed : iscsi.get_host_groups p t.world ≡ (ok groups, w)) where
  -- A host group of which the name is returned has the node as a member: it is one that is there, and
  -- then nothing has been changed, or no group has the node, and one of that name has been created
  -- with the node as its only member.
  pub create_update_host_group-Belongs :
      (name : Text) (u : Process W R)
      → create_update_host_group iscsi os (some p) s ≡ (ok name, u)
      → (Belongs iqn name groups × (u ≡ record t { world = w }))
        ⊎ (All (λ (g : Group). has_member iqn g.members ≡ false) groups
            × (v : W) × (iscsi.create_host_group p (record { name = name; members = iqn ∷ [] }) v
                ≡ (ok tt, u.world)))
  unfolding create_update_host_group
  create_update_host_group-Belongs name u h = elim (Option-cases (find_host_group iqn groups)) [
    | inr (old, e) ↦ inl (
      find_host_group-Belongs iqn name groups (ground (arith, named, listed, e)),
      ground (arith, named, listed, e),
    )
    | inl e ↦
        let fresh = os.new_uuid w in
        elim (Outcome-cases fresh.0) [
          | inl (inl (uuid, k)) ↦
              let group : Group = record {
                name = join b'-' (bytes "csi" ∷ uuid ∷ []);
                members = iqn ∷ [];
              } in
              elim (Outcome-cases (iscsi.create_host_group p group fresh.1).0) [
                | inl (inl (done, c)) ↦ inr (
                  find_host_group-none iqn groups e,
                  fresh.1,
                  ground (arith, named, listed, e, k, c),
                )
                | inl (inr (x, c)) ↦ ground (arith, named, listed, e, k, c)
                | inr c ↦ ground (arith, named, listed, e, k, c)
              ]
          | inl (inr (x, k)) ↦ ground (arith, named, listed, e, k)
          | inr k ↦ ground (arith, named, listed, e, k)
        ]
  ]
