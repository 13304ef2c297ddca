-- ===== src/Node/Mount/Placed.antt =====
-- Which device `mountVolume` mounts, and that it leaves the contents of the devices alone.
use nexentastor_csi_driver_b.Base.{
  ℕ, Text, bytes, Option, none, some, false, List, [], ◌∷◌, ◌≡◌, ◌⊎◌, inl, inr, arith, Bool-cases,
  Option-cases,
}
use nexentastor_csi_driver_b.Exec.{ok, Outcome-cases}
use nexentastor_csi_driver_b.Process.{Process}
use nexentastor_csi_driver_b.Node.System.{System, MountTest}
use nexentastor_csi_driver_b.Node.Mount.{ready_to_mount, mount_volume}
use nexentastor_csi_driver_b.Node.Mount.Repeat.{ready_to_mount-false}

-- The device that is mounted at a path: that of the last mount there, which `os.Chmod` leaves alone.
pub record Devices {W : Type 0} (sys : System W) : Type 0 where
  pub device_at : Text → W → Option Text
  pub made :
      (device path fs_type : Text) (options : List Text) (w : W)
      → (sys.mount_device device path fs_type options w).0 ≡ ok tt
      → device_at path (sys.mount_device device path fs_type options w).1 ≡ some device
  pub kept :
      (path : Text) (permissions : ℕ) (w : W)
      → device_at path (sys.chmod path permissions w).1 ≡ device_at path w

-- What is on a device: mounts and directories leave it alone, and so does `blkid`. Nothing is assumed
-- of any other program.
pub record Contents {W : Type 0} (sys : System W) : Type 0 where
  pub contents : Text → W → Text
  pub by_blkid :
      (d device : Text) (w : W)
      → contents d (sys.run (bytes "blkid" ∷ device ∷ []) w).1 ≡ contents d w
  pub by_look :
      (d path : Text) (w : W) → contents d (sys.is_likely_not_mount_point path w).1 ≡ contents d w
  pub by_mkdir :
      (d path : Text) (permissions : ℕ) (w : W)
      → contents d (sys.mkdir_all path permissions w).1 ≡ contents d w
  pub by_mount :
      (d device path fs_type : Text) (options : List Text) (w : W)
      → contents d (sys.mount_device device path fs_type options w).1 ≡ contents d w
  pub by_chmod :
      (d path : Text) (permissions : ℕ) (w : W)
      → contents d (sys.chmod path permissions w).1 ≡ contents d w

module _ {W R : Type 0} (sys : System W) where
  -- The path has been reported to be a mount point, and nothing has been done since.
  pub record IsTaken (path : Text) (t : Process W R) : Type 0 where
    pub before : W
    pub test : MountTest
    pub looked : sys.is_likely_not_mount_point path before ≡ (ok test, t.world)
    pub sound : test.error ≡ none
    pub taken : test.not_mount_point ≡ false

  -- The device is mounted at the path, or the path was a mount point already and is left alone.
  abbrev pub Placed : Devices sys → Text → Text → Process W R → Type 0
  Placed table device path t = (table.device_at path t.world ≡ some device) ⊎ IsTaken path t

  module _ (path device fs_type : Text) (options : List Text) (permissions : ℕ) where
    pub mount_volume-Placed :
        (table : Devices sys) (s : Process W R)
        → (mount_volume sys device path fs_type options permissions s).0 ≡ ok tt
        → Placed table device path (mount_volume sys device path fs_type options permissions s).1
    unfolding mount_volume
    mount_volume-Placed table s h =
        let test = sys.is_likely_not_mount_point path s.world in
        elim (Outcome-cases test.0) [
          | inl (inr (x, e)) ↦ ground arith
          | inr e ↦ ground arith
          | inl (inl (t, e)) ↦
              let s' : Process W R = record s { world = test.1 } in
              let ready = ready_to_mount sys path permissions t s' in
              elim (Outcome-cases ready.0) [
                | inl (inr (x, k)) ↦ ground arith
                | inr k ↦ ground arith
                | inl (inl (free, k)) ↦ elim (Bool-cases free) [
                  | inr taken ↦
                      let there = ready_to_mount-false sys path permissions t s' (ground arith) in
                      inr (record {
                        before = s.world;
                        test = t;
                        looked = ground (arith, there.2);
                        sound = there.0;
                        taken = there.1;
                      })
                  | inl vacant ↦
                      let call = sys.mount_device device path fs_type options ready.1.world in
                      elim (Outcome-cases call.0) [
                        | inl (inl (u, m)) ↦ inl (
                            ground (
                              arith,
                              table.made device path fs_type options ready.1.world,
                              table.kept path permissions call.1,
                            ))
                        | inl (inr (x, m)) ↦ ground arith
                        | inr m ↦ ground arith
                      ]
                ]
              ]
        ]

    ready_to_mount-keeps :
        (laws : Contents sys) (d : Text) (test : MountTest) (s : Process W R)
        → laws.contents d (ready_to_mount sys path permissions test s).1.world
          ≡ laws.contents d s.world
    unfolding ready_to_mount
    ready_to_mount-keeps laws d test s = elim (Option-cases test.error) [
      | inl e ↦ ground arith
      | inr (f, e) ↦
          let dir = sys.mkdir_all path permissions s.world in
          elim (Outcome-cases dir.0) [
            | inl (inl (u, k)) ↦ ground (arith, laws.by_mkdir d path permissions s.world)
            | inl (inr (x, k)) ↦ ground (arith, laws.by_mkdir d path permissions s.world)
            | inr k ↦ ground (arith, laws.by_mkdir d path permissions s.world)
          ]
    ]

    pub mount_volume-keeps :
        (laws : Contents sys) (d : Text) (s : Process W R)
        → laws.contents d (mount_volume sys device path fs_type options permissions s).1.world
          ≡ laws.contents d s.world
    unfolding mount_volume
    mount_volume-keeps laws d s =
        let test = sys.is_likely_not_mount_point path s.world in
        let look = laws.by_look d path s.world in
        elim (Outcome-cases test.0) [
          | inl (inr (x, e)) ↦ ground (arith, look)
          | inr e ↦ ground (arith, look)
          | inl (inl (t, e)) ↦
              let s' : Process W R = record s { world = test.1 } in
              let ready = ready_to_mount sys path permissions t s' in
              let made = ready_to_mount-keeps laws d t s' in
              let call = sys.mount_device device path fs_type options ready.1.world in
              let mounted = laws.by_mount d device path fs_type options ready.1.world in
              let changed = laws.by_chmod d path permissions call.1 in
              elim (Outcome-cases ready.0) [
                | inl (inr (x, k)) ↦ ground (arith, look, made)
                | inr k ↦ ground (arith, look, made)
                | inl (inl (free, k)) ↦ elim (Bool-cases free) [
                  | inr taken ↦ ground (arith, look, made)
                  | inl vacant ↦ elim (Outcome-cases call.0) [
                    | inl (inl (u, m)) ↦ ground (arith, look, made, mounted, changed)
                    | inl (inr (x, m)) ↦ ground (arith, look, made, mounted)
                    | inr m ↦ ground (arith, look, made, mounted)
                  ]
                ]
              ]
        ]
