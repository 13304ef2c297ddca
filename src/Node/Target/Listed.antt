-- ===== src/Node/Target/Listed.antt =====
-- The members of listed groups.
use nexentastor_csi_driver_b.Base.{
  Text, eq_text_refl, All, true, List, [], ◌∷◌, ◌≡◌, inl, inr, refl, arith,
}
use nexentastor_csi_driver_b.Ns.{Group}
use nexentastor_csi_driver_b.Node.Context.{has_member}
use nexentastor_csi_driver_b.Node.Context.Initiator.{Belongs}

All_map :
    {A : Type 0} {B C : A → Type 0} (xs : List A) → ((x : A) → B x → C x) → All B xs → All C xs
All_map [] f h = tt
All_map (x ∷ xs) f h = (f x h.0, All_map xs f h.1)

has_member_self : (members : List Text) → All (λ (t : Text). has_member t members ≡ true) members
unfolding has_member
has_member_self [] = tt
has_member_self (m ∷ members) = (
  ground (arith, eq_text_refl m),
  All_map members (λ t h. ground (arith, h)) (has_member_self members),
)

-- The members of the groups of a list belong to them.
pub members-Belong :
    (groups : List Group)
    → All (λ (g : Group). All (λ (t : Text). Belongs t g.name groups) g.members) groups
members-Belong [] = tt
members-Belong (g ∷ groups) = (
  All_map g.members (λ t h. inl (refl, h)) (has_member_self g.members),
  All_map groups (λ k. All_map k.members (λ t h. inr h)) (members-Belong groups),
)
