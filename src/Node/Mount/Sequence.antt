-- ===== src/Node/Mount/Sequence.antt =====
-- The mounts of a node over a sequence of `NodePublishVolume` and `NodeUnpublishVolume`.
use nexentastor_csi_driver_b.Base.{
  Text, eq_text, eq_text_iff, Bool, true, false, Option, none, some, List, [], ◌∷◌, ◌≡◌, ◌∙◌, ◌⊎◌,
  refl, sym, ap, inl, inr, arith, if◌then◌else◌, Bool-cases, Option-cases,
}
use nexentastor_csi_driver_b.Exec.{Exec, Outcome, ok, Outcome-cases}
use nexentastor_csi_driver_b.Process.{Process}
use nexentastor_csi_driver_b.Csi.{AccessType, no_access_type, block, mount}
use nexentastor_csi_driver_b.Node.System.{System}
use nexentastor_csi_driver_b.Node.Mount.{
  NodePublishRequest, NodeUnpublishRequest, node_publish_volume, node_unpublish_volume,
}
use nexentastor_csi_driver_b.Node.Mount.Repeat.{node_publish_volume-mounted}
use nexentastor_csi_driver_b.Node.Mount.Leaves.{MountSet, Leaves}
use nexentastor_csi_driver_b.Node.Mount.Unmounted.{unpublish-unmounted}
use nexentastor_csi_driver_b.Node.Mount.Local.{publish-Kept, unpublish-Kept}

-- A request about the path of a pod.
pub data Call : Type 0 where
  publish : NodePublishRequest → Call
  unpublish : NodeUnpublishRequest → Call

abbrev pub path_of : Call → Text
path_of (publish req) = req.target_path
path_of (unpublish req) = req.target_path

abbrev is_mount : AccessType → Option Bool
is_mount (mount fs_type flags) = some true
is_mount _ = none

mount-cases :
    (t : AccessType)
    → (is_mount t ≡ none) ⊎ ((fs_type : Text) × (flags : List Text) × (t ≡ mount fs_type flags))
mount-cases no_access_type = inl refl
mount-cases block = inl refl
mount-cases (mount fs_type flags) = inr (fs_type, flags, refl)

-- What a request that succeeds says of the mount of its path: a publication of a file system that it
-- is there, one of a block volume nothing, and the end of a publication that it is not.
abbrev pub says : Call → Option Bool
says (publish req) = elim req.capability [ none ↦ none | some c ↦ is_mount c.access_type ]
says (unpublish req) = some false

abbrev pub is_ok : Outcome (Unit {0}) → Bool
is_ok (ok u) = true
is_ok _ = false

module _ {W R : Type 0} (sys : System W) where
  unfoldable pub serve : Call → Exec (Process W R) Unit
  serve (publish req) = node_publish_volume sys req
  serve (unpublish req) = node_unpublish_volume sys req

  unfoldable pub serve_all : List Call → Process W R → Process W R
  serve_all [] s = s
  serve_all (c ∷ cs) s = serve_all cs (serve c s).1

  -- What is known of the mount of a path: the last request about it says it, if it has succeeded; one
  -- that has failed leaves nothing known; and requests about other paths do not matter.
  unfoldable pub known : Text → List Call → Option Bool → Process W R → Option Bool
  known q [] before s = before
  known q (c ∷ cs) before s =
      known q cs
        (if eq_text (path_of c) q then (if is_ok (serve c s).0 then says c else none) else before)
        (serve c s).1

module _ {W R : Type 0} (sys : System W) (laws : MountSet sys) where
  -- What is known after one request.
  serve-says :
      (c : Call) (s : Process W R) (b : Bool)
      → (serve sys c s).0 ≡ ok tt
      → says c ≡ some b
      → laws.table.mounted (path_of c) (serve sys c s).1.world ≡ b
  unfolding serve
  serve-says (publish req) s b h said = elim (Option-cases req.capability) [
    | inl n ↦ ground arith
    | inr (c, given) ↦ elim (mount-cases c.access_type) [
      | inl other ↦ ground arith
      | inr (fs_type, flags, kind) ↦
          let mounted =
            node_publish_volume-mounted sys laws.table req.target_path req c fs_type flags s refl
              given kind h in
          ground arith
    ]
  ]
  serve-says (unpublish req) s b h said = ground (arith, unpublish-unmounted sys laws req s h)

  serve-Leaves :
      (q : Text) (c : Call)
      → eq_text (path_of c) q ≡ false
      → Leaves {R = R} sys laws.table q (serve sys c)
  unfolding serve
  serve-Leaves q (publish req) other = publish-Kept sys laws q req other
  serve-Leaves q (unpublish req) other = unpublish-Kept sys laws q req other

  -- That what is known of a path is so.
  abbrev IsTrue : Text → Option Bool → Process W R → Type 0
  IsTrue q before s = (b : Bool) → before ≡ some b → laws.table.mounted q s.world ≡ b

  serve_one-mounted :
      (q : Text) (c : Call) (before : Option Bool) (s : Process W R)
      → IsTrue q before s
      → IsTrue q
          (if eq_text (path_of c) q
            then (if is_ok (serve sys c s).0 then says c else none)
            else before)
          (serve sys c s).1
  serve_one-mounted q c before s h b e = elim (Bool-cases (eq_text (path_of c) q)) [
    | inl same ↦
        let here : path_of c ≡ q = (eq_text_iff (path_of c) q).0 same in
        elim (Outcome-cases (serve sys c s).0) [
          | inl (inl (u, f)) ↦
              let said : says c ≡ some b = ground arith in
              ap (λ p. laws.table.mounted p (serve sys c s).1.world) (sym here)
              ∙ serve-says c s b f said
          | inl (inr (x, f)) ↦ ground arith
          | inr f ↦ ground arith
        ]
    | inr other ↦
        let kept = (serve-Leaves q c other).same s in
        let said : before ≡ some b = ground arith in kept ∙ h b said
  ]

  known-mounted :
      (q : Text) (cs : List Call) (before : Option Bool) (s : Process W R) (b : Bool)
      → IsTrue q before s
      → known sys q cs before s ≡ some b
      → laws.table.mounted q (serve_all sys cs s).world ≡ b
  unfolding known serve_all
  known-mounted q [] before s b h k = h b k
  known-mounted q (c ∷ cs) before s b h k =
      known-mounted q cs _ (serve sys c s).1 b (serve_one-mounted q c before s h) k

  -- Over any sequence of requests to publish volumes and to end their publication, with whatever
  -- answers, a path is mounted exactly if the last request about it says so, once that has succeeded:
  -- it is after a file system has been published there, it is not after the end of a publication, and
  -- without a request about it, it is as it was. The calls on mounts have their documented effects.
  pub served-mounted :
      (q : Text) (cs : List Call) (s : Process W R) (b : Bool)
      → known sys q cs (some (laws.table.mounted q s.world)) s ≡ some b
      → laws.table.mounted q (serve_all sys cs s).world ≡ b
  served-mounted q cs s b k =
      known-mounted q cs (some (laws.table.mounted q s.world)) s b (λ c e. ground arith) k
