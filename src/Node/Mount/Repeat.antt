-- ===== src/Node/Mount/Repeat.antt =====
-- A volume is mounted once, however often the call is repeated.
use nexentastor_csi_driver_b.Base.{
  ℕ, Text, bytes, is_empty, Bool, true, false, none, some, List, [], ◌∷◌, ◌≡◌, inl, inr, refl, sym,
  ap, ◌∙◌, arith, if◌then◌else◌, Bool-cases, Option-cases,
}
use nexentastor_csi_driver_b.Exec.{ok, Outcome-cases}
use nexentastor_csi_driver_b.Exec.Steps.{guard_ok, or_missing_ok}
use nexentastor_csi_driver_b.Process.{Process}
use nexentastor_csi_driver_b.Csi.{Capability, mount}
use nexentastor_csi_driver_b.Node.Device.{mount_point_permissions}
use nexentastor_csi_driver_b.Node.System.{System, MountTest}
use nexentastor_csi_driver_b.Node.Mount.{
  NodePublishRequest, ready_to_mount, mount_volume, publish_as, publish_checked, make_parent,
  device_from_target_path, node_publish_volume, not_octal,
}

-- What the mount table of the system is, as `IsLikelyNotMountPoint` and `Mount` document it: a path
-- with a mount is reported as one, a path that is reported as a mount point is one, a mount that
-- succeeds is there, and `os.Chmod` leaves the mounts alone.
pub record MountTable {W : Type 0} (sys : System W) : Type 0 where
  pub mounted : Text → W → Bool
  pub reported :
      (path : Text) (w : W)
      → mounted path w ≡ true
      → sys.is_likely_not_mount_point path w
        ≡ (ok (record { not_mount_point = false; error = none }), w)
  pub found :
      (path : Text) (w : W) (test : MountTest)
      → (sys.is_likely_not_mount_point path w).0 ≡ ok test
      → test.error ≡ none
      → test.not_mount_point ≡ false
      → mounted path (sys.is_likely_not_mount_point path w).1 ≡ true
  pub made :
      (device path fs_type : Text) (options : List Text) (w : W)
      → (sys.mount_device device path fs_type options w).0 ≡ ok tt
      → mounted path (sys.mount_device device path fs_type options w).1 ≡ true
  pub kept :
      (path : Text) (permissions : ℕ) (w : W)
      → mounted path (sys.chmod path permissions w).1 ≡ mounted path w

module _ {W R : Type 0} (sys : System W) (path : Text) where
  -- A path that is not ready is a mount point, and nothing has been changed.
  pub ready_to_mount-false :
      (permissions : ℕ) (test : MountTest) (s : Process W R)
      → (ready_to_mount sys path permissions test s).0 ≡ ok false
      → (test.error ≡ none)
        × (test.not_mount_point ≡ false)
        × ((ready_to_mount sys path permissions test s).1 ≡ s)
  unfolding ready_to_mount
  ready_to_mount-false permissions test s h = elim (Option-cases test.error) [
    | inl e ↦ (e, ground arith, ground arith)
    | inr (f, e) ↦
        let dir = sys.mkdir_all path permissions s.world in
        elim (Outcome-cases dir.0) [
          | inl (inl (u, k)) ↦ ground arith
          | inl (inr (x, k)) ↦ ground arith
          | inr k ↦ ground arith
        ]
  ]

module _ {W R : Type 0} (sys : System W) (table : MountTable sys) (path : Text) where
  pub mount_volume-mounted :
      (device fs_type : Text) (options : List Text) (permissions : ℕ) (s : Process W R)
      → (mount_volume sys device path fs_type options permissions s).0 ≡ ok tt
      → table.mounted path (mount_volume sys device path fs_type options permissions s).1.world
        ≡ true
  unfolding mount_volume
  mount_volume-mounted device fs_type options permissions s h =
      let test = sys.is_likely_not_mount_point path s.world in
      elim (Outcome-cases test.0) [
        | inl (inr (x, e)) ↦ ground arith
        | inr e ↦ ground arith
        | inl (inl (t, e)) ↦
            let s' : Process W R = record s { world = test.1 } in
            let ready = ready_to_mount sys path permissions t s' in
            elim (Outcome-cases ready.0) [
              | inl (inr (x, k)) ↦ ground arith
              | inr k ↦ ground arith
              | inl (inl (free, k)) ↦ elim (Bool-cases free) [
                | inr taken ↦ ground (
                  arith,
                  ready_to_mount-false sys path permissions t s',
                  table.found path s.world t,
                )
                | inl vacant ↦
                    let call = sys.mount_device device path fs_type options ready.1.world in
                    elim (Outcome-cases call.0) [
                      | inl (inl (u, m)) ↦ ground (
                        arith,
                        table.made device path fs_type options ready.1.world,
                        table.kept path permissions call.1,
                      )
                      | inl (inr (x, m)) ↦ ground arith
                      | inr m ↦ ground arith
                    ]
              ]
            ]
      ]

  mount_volume-skip :
      (device fs_type : Text) (options : List Text) (permissions : ℕ) (t : Process W R)
      → table.mounted path t.world ≡ true
      → mount_volume sys device path fs_type options permissions t ≡ (ok tt, t)
  unfolding mount_volume ready_to_mount
  mount_volume-skip device fs_type options permissions t there =
      ground (arith, table.reported path t.world there)

  -- After a mount that has succeeded, another call for the path, with whatever device and options,
  -- succeeds and changes nothing.
  pub mount_volume_again :
      (device other fs_type other_type : Text) (options other_options : List Text) (m n : ℕ)
      (s : Process W R)
      → (mount_volume sys device path fs_type options m s).0 ≡ ok tt
      → let t = (mount_volume sys device path fs_type options m s).1 in
        mount_volume sys other path other_type other_options n t ≡ (ok tt, t)
  mount_volume_again device other fs_type other_type options other_options m n s h =
      mount_volume-skip other other_type other_options n
        (mount_volume sys device path fs_type options m s).1
        (mount_volume-mounted device fs_type options m s h)

  publish_mount-mounted :
      (req : NodePublishRequest) (fs_type : Text) (flags : List Text) (permissions : ℕ)
      (s : Process W R)
      → req.target_path ≡ path
      → (publish_as sys req permissions (mount fs_type flags) s).0 ≡ ok tt
      → table.mounted path (publish_as sys req permissions (mount fs_type flags) s).1.world ≡ true
  unfolding publish_as
  publish_mount-mounted req fs_type flags permissions s here h =
      let device = device_from_target_path sys req.staging_target_path s in
      elim (Outcome-cases device.0) [
        | inl (inl (name, e)) ↦ ground (
          arith,
          mount_volume-mounted name fs_type (if req.readonly then bytes "ro" ∷ [] else [])
              permissions device.1,
        )
        | inl (inr (x, e)) ↦ ground arith
        | inr e ↦ ground arith
      ]

  publish_checked-mounted :
      (req : NodePublishRequest) (c : Capability) (fs_type : Text) (flags : List Text)
      (permissions : ℕ) (s : Process W R)
      → req.target_path ≡ path
      → c.access_type ≡ mount fs_type flags
      → (publish_checked sys req permissions c s).0 ≡ ok tt
      → table.mounted path (publish_checked sys req permissions c s).1.world ≡ true
  unfolding publish_checked
  publish_checked-mounted req c fs_type flags permissions s here kind h =
      let parent = make_parent sys req.target_path permissions s in
      elim (Outcome-cases parent.0) [
        | inl (inl (u, k)) ↦
            ground (arith, publish_mount-mounted req fs_type flags permissions parent.1 here)
        | inl (inr (x, k)) ↦ ground arith
        | inr k ↦ ground arith
      ]

  -- A volume with a file system that is published with success is mounted at the target path.
  pub node_publish_volume-mounted :
      (req : NodePublishRequest) (c : Capability) (fs_type : Text) (flags : List Text)
      (s : Process W R)
      → req.target_path ≡ path
      → req.capability ≡ some c
      → c.access_type ≡ mount fs_type flags
      → (node_publish_volume sys req s).0 ≡ ok tt
      → table.mounted path (node_publish_volume sys req s).1.world ≡ true
  unfolding node_publish_volume
  node_publish_volume-mounted req c fs_type flags s here asked kind h =
      let (a, h1) = guard_ok (is_empty req.volume_id) _ _ s tt h in
      let (b, h2) = guard_ok (is_empty req.staging_target_path) _ _ s tt h1 in
      let (d, h3) = guard_ok (is_empty req.target_path) _ _ s tt h2 in
      let (c', asked', h4) = or_missing_ok req.capability _ _ s tt h3 in
      let (permissions, given, h5) =
        or_missing_ok (mount_point_permissions req.context) not_octal _ s tt h4 in
      let same : node_publish_volume sys req s ≡ publish_checked sys req permissions c s =
        rw (a, b, d, asked, given, node_publish_volume) refl in
      let done : (publish_checked sys req permissions c s).0 ≡ ok tt =
        ap (λ r. r.0) (sym same) ∙ h in
      rw same (publish_checked-mounted req c fs_type flags permissions s here kind done)
