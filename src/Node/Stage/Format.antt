-- ===== src/Node/Stage/Format.antt =====
-- A device that has a file system is never formatted.
use nexentastor_csi_driver_b.Base.{
  ℕ, Text, bytes, eq_text, eq_text_iff, is_empty, true, false, List, ◌≡◌, ◌≢◌, ◌⊎◌, inl, inr, refl,
  sym, ap, ◌∙◌, arith, if◌then◌else◌, Bool-cases,
}
use nexentastor_csi_driver_b.Exec.{ok, err, errorf}
use nexentastor_csi_driver_b.Process.{Process}
use nexentastor_csi_driver_b.Node.System.{System}
use nexentastor_csi_driver_b.Node.Mount.{mount_volume}
use nexentastor_csi_driver_b.Node.Mount.Placed.{Contents, mount_volume-keeps}
use nexentastor_csi_driver_b.Node.Stage.{get_fs_type, stage_mount}

-- The file system that a request asks for.
abbrev pub wanted_type : Text → Text
wanted_type fs_type = if is_empty fs_type then bytes "ext4" else fs_type

module _ {W R : Type 0} (sys : System W) (source path fs_type : Text) (flags : List Text)
    (permissions : ℕ) (s u : Process W R) (there : Text)
    (asked : get_fs_type sys source s ≡ (ok there, u)) (formatted : is_empty there ≡ false) where
  stage_mount_there :
      eq_text there (wanted_type fs_type) ≡ true
      → stage_mount sys source path fs_type flags permissions s
        ≡ mount_volume sys source path (wanted_type fs_type) flags permissions u
  unfolding stage_mount
  stage_mount_there same = rw (asked, formatted, same, stage_mount) refl

  stage_mount_other :
      eq_text there (wanted_type fs_type) ≡ false
      → stage_mount sys source path fs_type flags permissions s
        ≡ (err (errorf "Volume %s is already formatted in %s, requested: %s,"), u)
  unfolding stage_mount
  stage_mount_other other = rw (asked, formatted, other, stage_mount) refl

  -- Asking for the type leaves the contents alone.
  asked-keeps : (laws : Contents sys) (d : Text) → laws.contents d u.world ≡ laws.contents d s.world
  unfolding get_fs_type
  asked-keeps laws d = ground (arith, laws.by_blkid d source s.world, asked)

  stage_mount-keeps :
      (laws : Contents sys) (d : Text)
      → laws.contents d (stage_mount sys source path fs_type flags permissions s).1.world
        ≡ laws.contents d s.world
  stage_mount-keeps laws d = elim (Bool-cases (eq_text there (wanted_type fs_type))) [
    | inr other ↦ ap (λ r. laws.contents d r.1.world) (stage_mount_other other) ∙ asked-keeps laws d
    | inl same ↦
        ap (λ r. laws.contents d r.1.world) (stage_mount_there same)
        ∙ mount_volume-keeps sys path source (wanted_type fs_type) flags permissions laws d u
        ∙ asked-keeps laws d
  ]

  stage_mount-cases :
      ((there ≢ wanted_type fs_type)
        × (stage_mount sys source path fs_type flags permissions s
            ≡ (err (errorf "Volume %s is already formatted in %s, requested: %s,"), u)))
      ⊎ ((there ≡ wanted_type fs_type)
          × (stage_mount sys source path fs_type flags permissions s
              ≡ mount_volume sys source path there flags permissions u))
  stage_mount-cases = elim (Bool-cases (eq_text there (wanted_type fs_type))) [
    | inr other ↦
        inl
          (λ e. cc (other, (eq_text_iff there (wanted_type fs_type)).1 e), stage_mount_other other)
    | inl same ↦
        let e = (eq_text_iff there (wanted_type fs_type)).0 same in
        inr (
          e,
          stage_mount_there same
              ∙ ap (λ t. mount_volume sys source path t flags permissions u) (sym e),
        )
  ]

  -- A device on which `blkid` reports a file system keeps its contents, and so does every other
  -- device, however the staging ends, with an error too, if `blkid`, mounts, `os.MkdirAll` and
  -- `os.Chmod` leave contents alone. Where the file system is not the one asked for, ext4 by
  -- default, the staging fails and does nothing more; where it is, all that is left of the staging
  -- is `mountVolume` of this device at the path, with the file system that is there.
  pub stage_mount-formatted :
      (laws : Contents sys) (d : Text)
      → (laws.contents d (stage_mount sys source path fs_type flags permissions s).1.world
          ≡ laws.contents d s.world)
        × (((there ≢ wanted_type fs_type)
              × (stage_mount sys source path fs_type flags permissions s
                  ≡ (err (errorf "Volume %s is already formatted in %s, requested: %s,"), u)))
            ⊎ ((there ≡ wanted_type fs_type)
                × (stage_mount sys source path fs_type flags permissions s
                    ≡ mount_volume sys source path there flags permissions u)))
  stage_mount-formatted laws d = (stage_mount-keeps laws d, stage_mount-cases)
