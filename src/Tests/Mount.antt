-- ===== src/Tests/Mount.antt =====
-- The node server on a system whose state is its list of mount points.
use nexentastor_csi_driver_b.Base.{
  Text, bytes, eq_text, eq_text_refl, has_prefix, contains_text, split, pos, Bool, true, false, not,
  none, some, List, [], ◌∷◌, ◌≡◌, ◌≢◌, ◌⊎◌, times_int64, int64, refl, arith, if◌then◌else◌,
}
use nexentastor_csi_driver_b.Exec.{Outcome, ok, err, errorf}
use nexentastor_csi_driver_b.Process.{Process}
use nexentastor_csi_driver_b.Csi.{Capability, mount, single_node_writer}
use nexentastor_csi_driver_b.Node.Context.{IscsiContext}
use nexentastor_csi_driver_b.Node.System.{System, trim_left, trim_right}
use nexentastor_csi_driver_b.Node.Mount.{NodePublishRequest, ready_to_mount, mount_volume}
use nexentastor_csi_driver_b.Node.Mount.Repeat.{MountTable, mount_volume_again}
use nexentastor_csi_driver_b.Node.Stage.{
  NodeStageRequest, without_quotes, type_of_words, type_of_output, get_fs_type, stage_mount,
  stage_lun,
}
use nexentastor_csi_driver_b.Node.Mount.Placed.{Contents}
use nexentastor_csi_driver_b.Node.Stage.Format.{wanted_type, stage_mount-formatted}
use nexentastor_csi_driver_b.Node.Stage.Await.{stage_lun-ends}
use nexentastor_csi_driver_b.Node.Unstage.{NodeUnstageRequest}
use nexentastor_csi_driver_b.Tests.Appliance.{fault}
use nexentastor_csi_driver_b.Tests.Fixtures.{settings}

abbrev pub holds : Text → List Text → Bool
holds path [] = false
holds path (p ∷ ps) = if eq_text p path then true else holds path ps

abbrev pub last_word : List Text → Text
last_word [] = []
last_word (w ∷ []) = w
last_word (v ∷ w ∷ ws) = last_word (w ∷ ws)

-- `blkid` reports ext4, and every other program prints its last argument.
abbrev printed : List Text → Text
printed [] = []
printed (program ∷ arguments) =
    if eq_text program (bytes "blkid") then bytes "/dev/sdb: TYPE=ext4" else last_word arguments

abbrev pub linux : System (List Text)
linux = record {
  run = λ command w. (ok (record { output = printed command; error = none }), w);
  stat_error = λ path w. (ok none, w);
  is_not_exist = λ e. false;
  is_permission = λ e. false;
  mkdir_all = λ path permissions w. (ok tt, w);
  chmod = λ path permissions w. (ok tt, w);
  remove_all = λ path w. (ok tt, w);
  open_append = λ path w. (ok tt, w);
  write_string = λ path content w. (ok 1, w);
  eval_symlinks = λ path w. (ok path, w);
  is_likely_not_mount_point =
      λ path w. (ok (record { not_mount_point = not (holds path w); error = none }), w);
  mount_device = λ device path fs_type options w. (ok tt, path ∷ w);
  unmount = λ path w. (ok tt, w);
  resize_fs = λ device path w. (ok tt, w);
  stat_mode = λ path w. (ok 0x61b0, w);
  sleep = λ n w. (ok tt, w);
  retry = λ m. m;
}

linux-MountTable : MountTable linux
linux-MountTable = record {
  mounted = holds;
  reported = λ path w h. rw h refl;
  found = λ path w test h e f. ground arith;
  made = λ device path fs_type options w h. rw (eq_text_refl path) refl;
  kept = λ path permissions w. refl;
}

abbrev pub idle : Process (List Text) (Unit {0})
idle = record { config = settings; resolvers = []; node_resolvers = []; world = [] }

mount_volume_again_example :
    mount_volume linux
      (bytes "/dev/sdc")
      (bytes "/m")
      (bytes "xfs")
      []
      488
      (mount_volume linux (bytes "/dev/sdb") (bytes "/m") (bytes "ext4") [] 488 idle).1
    ≡ (ok tt, (mount_volume linux (bytes "/dev/sdb") (bytes "/m") (bytes "ext4") [] 488 idle).1)
unfolding ready_to_mount mount_volume
mount_volume_again_example =
    mount_volume_again linux linux-MountTable (bytes "/m") (bytes "/dev/sdb") (bytes "/dev/sdc")
      (bytes "ext4") (bytes "xfs") [] [] 488 488 idle refl

abbrev pub capability : Capability
capability = record { mode = single_node_writer; access_type = mount (bytes "ext4") [] }

abbrev pub publish_request : NodePublishRequest
publish_request = record {
  volume_id = bytes "one:p/g/v";
  staging_target_path = bytes "/stage";
  target_path = bytes "/pod";
  capability = some capability;
  context = [];
  readonly = true;
}

-- A device with ext4 is staged as xfs.
abbrev staged : Outcome (Unit {0}) × Process (List Text) (Unit {0})
staged = stage_mount linux (bytes "/dev/sdb") (bytes "/stage") (bytes "xfs") [] 488 idle

linux-Contents : Contents linux
linux-Contents = record {
  contents = λ d w. d;
  by_blkid = λ d device w. refl;
  by_look = λ d path w. refl;
  by_mkdir = λ d path permissions w. refl;
  by_mount = λ d device path fs_type options w. refl;
  by_chmod = λ d path permissions w. refl;
}

stage_mount-formatted_example :
    (linux-Contents.contents (bytes "/dev/sdb") staged.1.world
      ≡ linux-Contents.contents (bytes "/dev/sdb") idle.world)
    × (((bytes "ext4" ≢ wanted_type (bytes "xfs"))
          × (staged ≡ (err (errorf "Volume %s is already formatted in %s, requested: %s,"), idle)))
        ⊎ ((bytes "ext4" ≡ wanted_type (bytes "xfs"))
            × (staged
                ≡ mount_volume linux
                    (bytes "/dev/sdb")
                    (bytes "/stage")
                    (bytes "ext4")
                    []
                    488
                    idle)))
unfolding eq_text has_prefix contains_text split trim_left trim_right without_quotes type_of_words
    type_of_output get_fs_type
stage_mount-formatted_example =
    stage_mount-formatted linux (bytes "/dev/sdb") (bytes "/stage") (bytes "xfs") [] 488 idle idle
      (bytes "ext4") refl refl linux-Contents (bytes "/dev/sdb")

abbrev pub stage_request : NodeStageRequest
stage_request = record {
  volume_id = bytes "one:p/g/v";
  staging_target_path = bytes "/stage";
  capability = some capability;
  context = [];
  secrets = [];
}

abbrev context : IscsiContext
context = record {
  address = bytes "10.3.3.3";
  port = bytes "3260";
  iscsi_target = bytes "iqn:t";
  iscsi_target_prefix = bytes "iqn";
  target_group = bytes "tg";
  host_group = bytes "hg";
  chap_user = [];
  chap_secret = [];
  num_of_luns_per_target = pos 256;
  use_chap_auth = false;
  iscsi_timeout = pos 300;
}

stage_lun-ends_example :
    (stage_lun linux 10 stage_request capability context (bytes "iqn:t") 3 idle).0 ≢ ok false
unfolding times_int64 int64
stage_lun-ends_example =
    stage_lun-ends linux 9 stage_request capability context (bytes "iqn:t") 3 idle (omega arith)
      refl

-- A system that cannot unmount, with a volume mounted at the staging path.
abbrev stuck : System (List Text)
stuck = record linux { unmount = λ path w. (err (fault 9), w) }

abbrev in_use : Process (List Text) (Unit {0})
in_use = record idle { world = bytes "/stage" ∷ [] }

abbrev unstage_request : NodeUnstageRequest
unstage_request = record { volume_id = bytes "one:p/g/v"; staging_target_path = bytes "/stage" }

stuck-MountTable : MountTable stuck
stuck-MountTable = record {
  mounted = holds;
  reported = λ path w h. rw h refl;
  found = λ path w test h e f. ground arith;
  made = λ device path fs_type options w h. rw (eq_text_refl path) refl;
  kept = λ path permissions w. refl;
}
