-- ===== src/Controller/Snapshots/Conflict.antt =====
-- `CreateSnapshotOnNS` keeps snapshot names apart, and the IDs of snapshots.
use nexentastor_csi_driver_b.Base.{
  Text, eq_text_iff, true, false, All, some, List, [], ◌∷◌, ◌≡◌, ◌↔◌, inl, inr, refl, arith,
  Bool-cases,
}
use nexentastor_csi_driver_b.Exec.{Outcome, ok, err, status, already_exists, Outcome-cases}
use nexentastor_csi_driver_b.FilePath.{dir}
use nexentastor_csi_driver_b.Ns.{Ns, Snapshot}
use nexentastor_csi_driver_b.Process.{Process}
use nexentastor_csi_driver_b.Controller.Snapshots.{has_conflict, create_snapshot_on_ns}

-- A snapshot of the name belongs to the volume.
abbrev pub Ours : Text → Text → Snapshot → Type 0
Ours name path s = s.name ≡ name → s.parent ≡ path

has_conflict-Ours :
    (name path : Text) (ss : List Snapshot)
    → (has_conflict name path ss ≡ false) ↔ All (Ours name path) ss
unfolding has_conflict
has_conflict-Ours name path [] = (λ _. tt, λ _. refl)
has_conflict-Ours name path (s ∷ ss) = (
  λ h. (
    λ e. ground (arith, eq_text_iff s.name name, eq_text_iff s.parent path),
    (has_conflict-Ours name path ss).0 (ground arith),
  ),
  λ h. ground (
    arith,
    h.0,
    (has_conflict-Ours name path ss).1 h.1,
    eq_text_iff s.name name,
    eq_text_iff s.parent path,
  ),
)

module _ {W P R : Type 0} (ns : Ns W P R) (p : P) (path name : Text) (s : Process W R) where
  -- The listing that comes first.
  abbrev listed : Outcome (List Snapshot) × W
  listed = ns.get_snapshots p (dir path) true s.world

  -- A snapshot name that another volume of the group has is refused, and nothing is created: the
  -- world is as the listing has left it.
  pub create_snapshot_conflict :
      (ss : List Snapshot)
      → listed.0 ≡ ok ss
      → ¬ (All (Ours name path) ss)
      → create_snapshot_on_ns ns (some p) path name s ≡ (
        err (status already_exists "Snapshot '%s' already exists for filesystem: %s"),
        record s { world = listed.1 },
      )
  unfolding create_snapshot_on_ns
  create_snapshot_conflict ss e other = elim (Bool-cases (has_conflict name path ss)) [
    | inl c ↦ ground (arith, e, c)
    | inr c ↦ absurd (other ((has_conflict-Ours name path ss).0 c))
  ]

  -- If a snapshot is returned, no other volume of the group that was listed first had a
  -- snapshot of that name before.
  pub create_snapshot_free :
      (r : Snapshot)
      → (create_snapshot_on_ns ns (some p) path name s).0 ≡ ok r
      → (ss : List Snapshot) × (listed.0 ≡ ok ss) × All (Ours name path) ss
  unfolding create_snapshot_on_ns
  create_snapshot_free r h = elim (Outcome-cases listed.0) [
    | inl (inl (ss, e)) ↦ elim (Bool-cases (has_conflict name path ss)) [
      | inl c ↦ ground (arith, e, c)
      | inr c ↦ (ss, e, (has_conflict-Ours name path ss).0 c)
    ]
    | inl (inr (x, e)) ↦ ground arith
    | inr e ↦ ground arith
  ]
