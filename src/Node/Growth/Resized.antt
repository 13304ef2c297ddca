-- ===== src/Node/Growth/Resized.antt =====
-- What `NodeExpandVolume` has done when it reports success.
use nexentastor_csi_driver_b.Base.{
  ℕ, Text, is_empty, false, Option, some, List, ◌≡◌, ◌∙◌, refl, ap, sym, inl, inr, arith,
}
use nexentastor_csi_driver_b.Exec.{
  Exec, Error, Outcome, ok, status, not_found, internal, or_fail, Outcome-cases,
}
use nexentastor_csi_driver_b.Exec.Steps.{bind_ok, bind_at, guard_ok, or_missing_ok}
use nexentastor_csi_driver_b.Ns.{Ns, Volume}
use nexentastor_csi_driver_b.Ns.Iscsi.{Iscsi}
use nexentastor_csi_driver_b.Process.{Process, outside, on, ns_data}
use nexentastor_csi_driver_b.Csi.{Capability, mount}
use nexentastor_csi_driver_b.Controller.Request.{split_id}
use nexentastor_csi_driver_b.Node.Connect.{node_resolve_ns}
use nexentastor_csi_driver_b.Node.System.{System}
use nexentastor_csi_driver_b.Node.Mount.{device_from_target_path}
use nexentastor_csi_driver_b.Node.Growth.{
  NodeExpandRequest, access_type_of, rescan_device, grow_as, node_expand_volume,
}

-- The size of a device as the node sees it, and that of the file system at a path: `Resize` makes the
-- second the first, for the device that it is given.
pub record Resizes {W : Type 0} (sys : System W) : Type 0 where
  pub device_size : Text → W → ℕ
  pub fs_size : Text → W → ℕ
  pub made :
      (device path : Text) (w : W)
      → (sys.resize_fs device path w).0 ≡ ok tt
      → fs_size path (sys.resize_fs device path w).1 ≡ device_size device w

module _ {W R : Type 0} (sys : System W) (path : Text) where
  -- From `s` to `t`: the device at the path has been looked up and rescanned, and the file system at
  -- the path is now as large as that device is seen after the rescan.
  pub record IsResized (laws : Resizes sys) (s t : Process W R) : Type 0 where
    pub device : Text
    pub looked : (device_from_target_path sys path s).0 ≡ ok device
    pub full :
        laws.fs_size path t.world
        ≡ laws.device_size device
            (rescan_device sys device (device_from_target_path sys path s).1).1.world

  resize-full_size :
      (laws : Resizes sys) (device : Text) (f : Error → Error) (s : Process W R)
      → (or_fail f (outside {R = R} (sys.resize_fs device path)) s).0 ≡ ok tt
      → laws.fs_size path (or_fail f (outside {R = R} (sys.resize_fs device path)) s).1.world
        ≡ laws.device_size device s.world
  resize-full_size laws device f s h = elim (Outcome-cases (sys.resize_fs device path s.world).0) [
    | inl (inl (u, e)) ↦ ground (arith, laws.made device path s.world)
    | inl (inr (x, e)) ↦ ground arith
    | inr e ↦ ground arith
  ]

  grow_mount-IsResized :
      (laws : Resizes sys) (fs_type : Text) (flags : List Text) (s : Process W R)
      → (grow_as sys path (mount fs_type flags) s).0 ≡ ok tt
      → IsResized laws s (grow_as sys path (mount fs_type flags) s).1
  unfolding grow_as
  grow_mount-IsResized laws fs_type flags s h =
      let find = device_from_target_path sys path in
      let (device, e1, h1) = bind_ok find _ s tt h in
      let (u, e2, h2) = bind_ok (rescan_device sys device) _ (find s).1 tt h1 in
      let last : grow_as sys path (mount fs_type flags) s
          ≡ or_fail (λ e. status internal "Could not resize volume %q (%q):  %v")
              (outside (sys.resize_fs device path)) (rescan_device sys device (find s).1).1 =
        bind_at find _ s device e1 ∙ bind_at (rescan_device sys device) _ (find s).1 u e2 in
      record {
        device = device;
        looked = e1;
        full = rw last (resize-full_size laws device _ (rescan_device sys device (find s).1).1 h2);
      }

module _ {W P R : Type 0} (ns : Ns W P R) (iscsi : Iscsi W P) (sys : System W)
    (req : NodeExpandRequest) where
  abbrev pub resolved_at : Text × Text → Process W R → Outcome (Option P × Text) × Process W R
  resolved_at parts s = node_resolve_ns ns iscsi parts.0 (ns_data parts.0 s).default_volume_group s

  abbrev pub looked_up : Text × Text → Option P × Text → Exec (Process W R) Volume
  looked_up parts found =
      or_fail (λ e. status not_found "Did not find volume %s: %s")
        (on found.0 (λ p. ns.get_volume p parts.1))

  -- The handler past its checks.
  node_expand_checked :
      (s : Process W R) (parts : Text × Text) (found : Option P × Text) (v : Volume)
      → is_empty req.volume_id ≡ false
      → split_id req.volume_id ≡ some parts
      → (resolved_at parts s).0 ≡ ok found
      → (looked_up parts found (resolved_at parts s).1).0 ≡ ok v
      → is_empty req.volume_path ≡ false
      → node_expand_volume ns iscsi sys req s
        ≡ grow_as sys req.volume_path
            (access_type_of req.capability)
            (looked_up parts found (resolved_at parts s).1).1
  unfolding node_expand_volume
  node_expand_checked s parts found v a asked e3 e4 b =
      rw (a, asked, node_expand_volume)
        (bind_at (node_resolve_ns ns iscsi parts.0 (ns_data parts.0 s).default_volume_group) _ s
            found e3
          ∙ (bind_at (looked_up parts found) _ (resolved_at parts s).1 v e4 ∙ rw b refl))

  -- A handler that succeeds has come to the switch over the access type.
  node_expand-grows :
      (s : Process W R)
      → (node_expand_volume ns iscsi sys req s).0 ≡ ok tt
      → (t : Process W R) × (node_expand_volume ns iscsi sys req s
          ≡ grow_as sys req.volume_path (access_type_of req.capability) t)
  unfolding node_expand_volume
  node_expand-grows s h =
      let (a, h1) = guard_ok (is_empty req.volume_id) _ _ s tt h in
      let (parts, asked, h2) = or_missing_ok (split_id req.volume_id) _ _ s tt h1 in
      let (found, e3, h3) =
        bind_ok (node_resolve_ns ns iscsi parts.0 (ns_data parts.0 s).default_volume_group) _ s tt
          h2 in
      let (v, e4, h4) = bind_ok (looked_up parts found) _ (resolved_at parts s).1 tt h3 in
      let (b, h5) =
        guard_ok (is_empty req.volume_path) _ _ (looked_up parts found (resolved_at parts s).1).1 tt
          h4 in
      (
        (looked_up parts found (resolved_at parts s).1).1,
        node_expand_checked s parts found v a asked e3 e4 b,
      )

  -- `NodeExpandVolume` of a volume with a file system: success means that the device which `findmnt`
  -- reports at the volume path has been rescanned, as far as its file could be written to, and that
  -- the file system at the path is now as large as the node sees this device after the rescan.
  pub node_expand_mounted :
      (laws : Resizes sys) (c : Capability) (fs_type : Text) (flags : List Text) (s : Process W R)
      → req.capability ≡ some c
      → c.access_type ≡ mount fs_type flags
      → (node_expand_volume ns iscsi sys req s).0 ≡ ok tt
      → (t : Process W R) × IsResized sys req.volume_path laws t
          (node_expand_volume ns iscsi sys req s).1
  node_expand_mounted laws c fs_type flags s given kind h =
      let (t, same) = node_expand-grows s h in
      let what : access_type_of req.capability ≡ mount fs_type flags =
        ap access_type_of given ∙ kind in
      let grown : node_expand_volume ns iscsi sys req s
          ≡ grow_as sys req.volume_path (mount fs_type flags) t =
        rw what at same in
      (
        t,
        rw grown (
            grow_mount-IsResized sys req.volume_path laws fs_type flags t
              (ap (λ x. x.0) (sym grown) ∙ h)),
      )
