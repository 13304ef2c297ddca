-- ===== src/Node/Stage/Staged.antt =====
-- What the part of `NodeStageVolume` from the login on has done when it reports success.
use nexentastor_csi_driver_b.Base.{
  ℕ, ℤ, pos, Text, eq_text, eq_text_iff, is_empty, Bool, true, false, not, List, ◌≡◌, ◌⊎◌, ◌∙◌,
  refl, sym, ap, inl, inr, arith, if◌then◌else◌, Bool-cases,
}
use nexentastor_csi_driver_b.Exec.{Exec, ok, pure, guard, errorf, or_missing, ◌>>=◌, ◌>>◌}
use nexentastor_csi_driver_b.Exec.Steps.{bind_ok, bind_at, Leads, Leads-bind}
use nexentastor_csi_driver_b.Process.{Process}
use nexentastor_csi_driver_b.Csi.{Capability, mount}
use nexentastor_csi_driver_b.Controller.Request.{joined}
use nexentastor_csi_driver_b.Node.Context.{IscsiContext}
use nexentastor_csi_driver_b.Node.Device.{construct_dev_by_path, mount_point_permissions}
use nexentastor_csi_driver_b.Node.System.{System, one_second}
use nexentastor_csi_driver_b.Node.Mount.{not_octal}
use nexentastor_csi_driver_b.Node.Mount.Placed.{Devices, Placed, mount_volume-Placed}
use nexentastor_csi_driver_b.Node.Stage.Format.{wanted_type}
use nexentastor_csi_driver_b.Node.Stage.{
  NodeStageRequest, get_fs_type, format_volume, stage_mount, stage_as, get_real_device_name,
  staged_device, await_device, iscsi_log_in_rescan, stage_device, stage_lun,
}

module _ {W R : Type 0} (sys : System W) (table : Devices sys) where
  stage_mount-Placed :
      (source path fs_type : Text) (flags : List Text) (permissions : ℕ)
      → Leads
          (Placed {R = R} sys table source path)
          tt
          (stage_mount sys source path fs_type flags permissions)
  unfolding stage_mount
  stage_mount-Placed source path fs_type flags permissions =
      Leads-bind (Placed {R = R} sys table source path) tt (get_fs_type sys source) _ (λ there _ _.
        Leads-bind (Placed {R = R} sys table source path) tt
          (if is_empty there
            then format_volume sys source (wanted_type fs_type)
            else guard (not (eq_text there (wanted_type fs_type)))
                (errorf "Volume %s is already formatted in %s, requested: %s,"))
          _
          (λ u _ _. record {
            ends = λ s h.
                mount_volume-Placed sys path source (wanted_type fs_type) flags permissions table s
                  h;
          }))

  -- A run that has found a device at the path: `findmnt` has reported it there, and nothing has been
  -- done since the name was found to stand for it.
  pub record IsFound (path name device : Text) (t : Process W R) : Type 0 where
    pub permissions : ℕ
    pub before : Process W R
    pub looked : (staged_device sys path permissions before).0 ≡ ok device
    pub later : Process W R
    pub same : get_real_device_name sys name later ≡ (ok device, t)

  -- The device of a name is staged: it is what the name stands for, and it is mounted at the path, or
  -- the path was a mount point already and has been left alone, or the device has been found there.
  pub record IsPlaced (path name : Text) (t : Process W R) : Type 0 where
    pub device : Text
    pub before : Process W R
    pub real : (get_real_device_name sys name before).0 ≡ ok device
    pub placed : Placed sys table device path t ⊎ IsFound path name device t

  module _ (req : NodeStageRequest) (c : Capability) (fs_type : Text) (flags : List Text)
      (kind : c.access_type ≡ mount fs_type flags) where
    -- The device that has been looked up at the path is passed on as `device`.
    stage_device-IsPlaced :
        (permissions : ℕ) (device name : Text) (before s : Process W R)
        → (staged_device sys req.staging_target_path permissions before).0 ≡ ok device
        → (stage_device sys req c permissions device name s).0 ≡ ok tt
        → IsPlaced req.staging_target_path name (stage_device sys req c permissions device name s).1
    unfolding stage_device stage_as
    stage_device-IsPlaced permissions device name before s looked h =
        let real = get_real_device_name sys name in
        let (source, e1, h1) = bind_ok real _ s tt h in
        elim (Bool-cases (eq_text device source)) [
          | inl same ↦
              let here : device ≡ source = (eq_text_iff device source).0 same in
              let next : stage_device sys req c permissions device name s ≡ (ok tt, (real s).1) =
                bind_at real _ s source e1 ∙ rw same refl in
              record {
                device = device;
                before = s;
                real = e1 ∙ ap (λ d. ok d) (sym here);
                placed = inr (record {
                  permissions = permissions;
                  before = before;
                  looked = looked;
                  later = s;
                  same = ground (arith, e1, here, next);
                });
              }
          | inr other ↦
              let next : stage_device sys req c permissions device name s
                  ≡ stage_mount sys source req.staging_target_path fs_type flags permissions
                      (real s).1 =
                bind_at real _ s source e1 ∙ rw (other, kind) refl in
              record {
                device = source;
                before = s;
                real = e1;
                placed = inl (
                    rw next (
                      (stage_mount-Placed source req.staging_target_path fs_type flags
                          permissions).ends
                        (real s).1 (ap (λ x. x.0) (sym next) ∙ h)));
              }
        ]

    module _ (fuel permissions : ℕ) (timeout : ℤ) (target portal name : Text) where
      abbrev finish : Text → Bool → Exec (Process W R) Bool
      finish device found =
          if found then stage_device sys req c permissions device name >> pure true else pure false

      -- `stage_lun` from its look at the staging path on.
      looked-IsPlaced : Leads (IsPlaced req.staging_target_path name) true (
          staged_device sys req.staging_target_path permissions >>= λ device.
          await_device sys fuel (pos one_second) timeout target portal name >>= finish device)
      looked-IsPlaced =
          let Q = IsPlaced req.staging_target_path name in
          Leads-bind Q true (staged_device sys req.staging_target_path permissions) _ (λ device s e.
            Leads-bind Q true (await_device sys fuel (pos one_second) timeout target portal name)
              (finish device)
              (λ found v _. record {
                ends = λ u h. elim (Bool-cases found) [
                  | inr missing ↦ ground (arith, h)
                  | inl there ↦
                      let stage = stage_device sys req c permissions device name in
                      let (x, e3, h3) = bind_ok stage (λ _. pure true) u true (rw there at h) in
                      let last : finish device found u ≡ (ok true, (stage u).1) =
                        rw there (bind_at stage (λ _. pure true) u x e3) in
                      rw last (stage_device-IsPlaced permissions device name s u e e3)
                ];
              }))

    pub stage_lun-IsPlaced :
        (fuel lun : ℕ) (context : IscsiContext) (target : Text)
        → Leads
            (IsPlaced req.staging_target_path
              (construct_dev_by_path (joined b':' context.address context.port) target lun))
            true
            (stage_lun sys fuel req c context target lun)
    unfolding stage_lun
    stage_lun-IsPlaced fuel lun context target =
        let portal = joined b':' context.address context.port in
        let name = construct_dev_by_path portal target lun in
        let Q = IsPlaced req.staging_target_path name in
        Leads-bind Q true (iscsi_log_in_rescan sys target portal) _ (λ _ _ _.
          Leads-bind Q true (or_missing not_octal (mount_point_permissions req.context)) _
            (λ permissions _ _.
              looked-IsPlaced fuel permissions context.iscsi_timeout target portal name))
