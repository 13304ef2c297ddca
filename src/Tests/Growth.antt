-- ===== src/Tests/Growth.antt =====
-- A node that grows a volume and waits for its device. Its clock is the time of the appliance in
-- memory.
use nexentastor_csi_driver_b.Base.{
  ℕ, ℤ, negsuc, ◌+◌, ltb, Text, bytes, eq_text, eq_text_refl, has_prefix, split, join, lookup, pos,
  Bool, true, false, Option, none, some, [], ◌∷◌, times_int64, int64, ◌≡◌, refl, arith,
  if◌then◌else◌, All, Bool-cases, inl, inr,
}
use nexentastor_csi_driver_b.Exec.{ok, err, status, deadline_exceeded}
use nexentastor_csi_driver_b.FilePath.{join_path}
use nexentastor_csi_driver_b.Config.{Config, validate}
use nexentastor_csi_driver_b.Config.Check.Usable.{IsUsable, defaulted, validate-IsUsable}
use nexentastor_csi_driver_b.Process.{Process}
use nexentastor_csi_driver_b.Csi.{Capability, mount, single_node_writer}
use nexentastor_csi_driver_b.Controller.Request.{split_id}
use nexentastor_csi_driver_b.Node.Connect.{node_resolve_ns}
use nexentastor_csi_driver_b.Node.System.{System, one_second, trim_left, trim_right}
use nexentastor_csi_driver_b.Node.Mount.{find_mount, device_from_target_path}
use nexentastor_csi_driver_b.Node.Stage.{iscsi_log_in_rescan, await_device}
use nexentastor_csi_driver_b.Node.Stage.Shown.{Shows, await_device_shown}
use nexentastor_csi_driver_b.Node.Growth.{
  NodeExpandRequest, rescan_device, grow_as, node_expand_volume,
}
use nexentastor_csi_driver_b.Node.Growth.Resized.{Resizes, IsResized, node_expand_mounted}
use nexentastor_csi_driver_b.Tests.Appliance.{Box, memory, fault, put_size}
use nexentastor_csi_driver_b.Tests.Fixtures.{entry, settings, started}
use nexentastor_csi_driver_b.Tests.Mount.{last_word}
use nexentastor_csi_driver_b.Tests.Node.{portals}

-- A program prints its last argument, the path is there from the fifth second on, and
-- there are no files to open.
-- A negative sleep is none.
abbrev slept : ℤ → ℕ
slept (pos n) = n
slept (negsuc n) = 0

abbrev pub machine : System Box
machine = record {
  run = λ command w. (ok (record { output = last_word command; error = none }), w);
  stat_error = λ path w. (
    ok (
        if ltb w.time 5000000000
        then some (record { identity = 2; text = bytes "absent" })
        else none),
    w,
  );
  is_not_exist = λ e. true;
  is_permission = λ e. false;
  mkdir_all = λ path permissions w. (ok tt, w);
  chmod = λ path permissions w. (ok tt, w);
  remove_all = λ path w. (ok tt, w);
  open_append = λ path w. (err (fault 2), w);
  write_string = λ path content w. (ok 1, w);
  eval_symlinks = λ path w. (ok path, w);
  is_likely_not_mount_point = λ path w. (ok (record { not_mount_point = false; error = none }), w);
  mount_device = λ device path fs_type options w. (ok tt, w);
  unmount = λ path w. (ok tt, w);
  resize_fs = λ device path w. (ok tt, put_size path (some (pos 100)) w);
  stat_mode = λ path w. (ok 0x61b0, w);
  sleep = λ n w. (ok tt, record w { time = w.time + slept n });
  retry = λ m. m;
}

abbrev pub is_some : {A : Type 0} → Option A → Bool
is_some none = false
is_some (some a) = true

abbrev size_or_zero : Option ℤ → ℕ
size_or_zero none = 0
size_or_zero (some (pos n)) = n
size_or_zero (some (negsuc n)) = 0

machine-Resizes : Resizes machine
machine-Resizes = record {
  device_size = λ device w. 100;
  fs_size = λ path w. size_or_zero (w.size_at path);
  made = λ device path w h. rw (eq_text_refl path) refl;
}

machine-Shows : (path : Text) → Shows machine path 5000000000
machine-Shows path = record {
  clock = λ w. w.time;
  looks = λ w. elim (Bool-cases (ltb w.time 5000000000)) [
    | inl e ↦ (
      some (record { identity = 2; text = bytes "absent" }),
      rw e refl,
      λ late. ground arith,
      omega arith,
    )
    | inr e ↦ (none, rw e refl, λ late. refl, omega arith)
  ];
  sleeps = λ n w. (refl, omega arith);
}

await_device_shown_example :
    (await_device machine 7
      (pos one_second)
      (pos 20)
      (bytes "iqn:t")
      (bytes "10.3.3.3:3260")
      (bytes "/dev/x")
      started).0
    ≡ ok true
unfolding iscsi_log_in_rescan
await_device_shown_example =
    await_device_shown machine (bytes "iqn:t") (bytes "10.3.3.3:3260") (bytes "/dev/x") 5000000000
      (machine-Shows (join_path (bytes "/host") (bytes "/dev/x"))) (λ s. (refl, omega arith)) 6 20
      5000000000 started (omega arith) (omega arith) (omega arith) (omega arith) (omega arith)

abbrev pub node : Process Box (Unit {0})
node = record started { node_resolvers = (bytes "one", some tt) ∷ [] }

abbrev as_files : Capability
as_files = record { mode = single_node_writer; access_type = mount (bytes "ext4") [] }

abbrev request : Capability → NodeExpandRequest
request c = record {
  volume_id = bytes "one:p/g/v";
  volume_path = bytes "/pod";
  capability = some c;
}

node_expand_mounted_example :
    (t : Process Box (Unit {0})) × IsResized machine
      (bytes "/pod")
      machine-Resizes
      t
      (node_expand_volume memory portals machine (request as_files) node).1
unfolding node_expand_volume split_id node_resolve_ns find_mount eq_text lookup split join
    has_prefix trim_left trim_right device_from_target_path rescan_device grow_as
node_expand_mounted_example =
    node_expand_mounted memory portals machine (request as_files) machine-Resizes as_files
      (bytes "ext4") [] node refl refl refl

-- An entry without `insecureSkipVerify`.
abbrev trusting : Config
trusting = record settings {
  ns_map = (bytes "one", record entry { insecure_skip_verify = none }) ∷ [];
}

-- A timeout of 10^10 seconds wraps around to less than a second, and the wait fails at once.
timeout_wraps :
    (await_device machine 7 (pos one_second) (pos 10000000000) [] [] [] started).0
    ≡ err (status deadline_exceeded "Could not find iSCSI device in %v seconds")
unfolding await_device times_int64 int64
timeout_wraps = refl

validate-IsUsable_example :
    ((validate trusting).1.ns_map ≡ defaulted trusting.ns_map)
    × All IsUsable (validate trusting).1.ns_map
unfolding validate lookup split
validate-IsUsable_example = validate-IsUsable trusting (refl, tt) refl
