-- ===== src/Node/Context.antt =====
-- nodeServer.go: `GetNodeIQN`, `CreateUpdateHostGroup` and `ParseVolumeContext`.
pub mod Initiator
pub mod Created
use nexentastor_csi_driver_b.Base.{
  ℕ, Text, bytes, eq_text, is_empty, has_prefix, split, join, Map, lookup, value_or, ℤ, pos, Bool,
  true, false, Option, none, some, List, [], ◌∷◌, ◌++◌, if◌then◌else◌, String,
}
use nexentastor_csi_driver_b.Exec.{
  Exec, Error, errorf, pure, fail, gets, guard, or_missing, ◌>>=◌, ◌>>◌,
}
use nexentastor_csi_driver_b.Strconv.{atoi}
use nexentastor_csi_driver_b.Config.{NsData}
use nexentastor_csi_driver_b.Ns.{Group}
use nexentastor_csi_driver_b.Ns.Iscsi.{Iscsi, NodeHost}
use nexentastor_csi_driver_b.Process.{Process, outside, on, ns_data}
use nexentastor_csi_driver_b.Controller.Create.{parse_bool}

-- `InitiatorName=`.
abbrev pub initiator_key : Text
initiator_key = bytes "InitiatorName="

-- The text up to the next key.
unfoldable pub before_key : Text → Text
before_key [] = []
before_key (x ∷ s) =
    let rest = before_key s in if has_prefix (x ∷ s) initiator_key then [] else x ∷ rest

unfoldable pub drop_prefix : Text → Text → Text
drop_prefix [] s = s
drop_prefix (x ∷ p) [] = []
drop_prefix (x ∷ p) (y ∷ s) = drop_prefix p s

-- The loop of `GetNodeIQN`: the last line with the key counts.
unfoldable pub initiator_name : List Text → Text → Text
initiator_name [] name = name
initiator_name (line ∷ lines) name =
    initiator_name lines
      (if has_prefix line initiator_key then before_key (drop_prefix initiator_key line) else name)

-- A group with a member.
unfoldable pub has_member : Text → List Text → Bool
has_member iqn [] = false
has_member iqn (member ∷ members) = if eq_text member iqn then true else has_member iqn members

-- The name of the first host group with a member.
unfoldable pub find_host_group : Text → List Group → Option Text
find_host_group iqn [] = none
find_host_group iqn (group ∷ groups) =
    if has_member iqn group.members then some group.name else find_host_group iqn groups

-- `ISCSIVolumeContext`.
pub record IscsiContext : Type 0 where
  pub address : Text
  pub port : Text
  pub iscsi_target : Text
  pub iscsi_target_prefix : Text
  pub target_group : Text
  pub host_group : Text
  pub chap_user : Text
  pub chap_secret : Text
  pub num_of_luns_per_target : ℤ
  pub use_chap_auth : Bool
  pub iscsi_timeout : ℤ

-- `volumeContext[key]`, and the text or another one where it is empty.
abbrev pub field : String → Map Text → Text
field key context = value_or [] (lookup (bytes key) context)

abbrev pub or_else : Text → Text → Text
or_else s t = if is_empty s then t else s

-- The timeout of the configuration, 300 seconds where there is none or it is no number.
unfoldable pub timeout_of : NsData → ℤ
timeout_of d =
    if is_empty d.iscsi_timeout then pos 300 else value_or (pos 300) (atoi d.iscsi_timeout)

module _ {W P R : Type 0} (iscsi : Iscsi W P) (os : NodeHost W) where
  -- `GetNodeIQN`.
  unfoldable pub get_node_iqn : Exec (Process W R) Text
  get_node_iqn = do
    content ← outside os.read_initiator_name
    let name = initiator_name (split 10 content) []
    guard (is_empty name) (errorf "Node's initiatorname must not be empty")
    pure name

  abbrev new_host_group : Option P → Text → Option Text → Exec (Process W R) Text
  new_host_group provider iqn (some name) = pure name
  new_host_group provider iqn none = do
    uuid ← outside os.new_uuid
    let name = join b'-' (bytes "csi" ∷ uuid ∷ [])
    on provider (λ p. iscsi.create_host_group p (record { name = name; members = iqn ∷ [] }))
    pure name

  -- `CreateUpdateHostGroup`.
  unfoldable pub create_update_host_group : Option P → Exec (Process W R) Text
  create_update_host_group provider = do
    iqn ← get_node_iqn
    groups ← on provider (λ p. iscsi.get_host_groups p)
    new_host_group provider iqn (find_host_group iqn groups)

  -- The host group of the context, of the configuration, or of the node.
  unfoldable pub host_group_of : Map Text → NsData → Option P → Exec (Process W R) Text
  host_group_of context d provider =
      let given = or_else (field "HostGroup" context) d.default_host_group in
      if is_empty given then create_update_host_group provider else pure given

  -- The user and the secret, where CHAP is used.
  unfoldable pub chap_of : Map Text → Bool → Exec (Process W R) (Text × Text)
  chap_of context false = pure ([], [])
  chap_of context true = do
    user ←
        or_missing (errorf "useChapAuth is set to true, but chapUser is not set")
          (lookup (bytes "chapUser") context)
    secret ←
        or_missing (errorf "useChapAuth is set to true, but chapSecret is not set")
          (lookup (bytes "chapSecret") context)
    pure (user, secret)

  -- `ParseVolumeContext`.
  unfoldable pub parse_volume_context : Map Text → Option P → Text → Exec (Process W R) IscsiContext
  parse_volume_context context provider config_name = do
    d ← gets (ns_data config_name)
    group ← host_group_of context d provider
    let use_chap = value_or false (parse_bool (field "useChapAuth" context))
    (user, secret) ← chap_of context use_chap
    pure (record {
      address = or_else (field "dataIP" context) d.default_data_ip;
      port = or_else (field "iSCSIPort" context) (or_else d.default_iscsi_port (bytes "3260"));
      iscsi_target = field "Target" context;
      iscsi_target_prefix = or_else d.iscsi_target_prefix (bytes "iqn.2005-07.com.nexenta");
      target_group = field "TargetGroup" context;
      host_group = group;
      chap_user = user;
      chap_secret = secret;
      num_of_luns_per_target = value_or (pos 256) (atoi (field "numOfLunsPerTarget" context));
      use_chap_auth = use_chap;
      iscsi_timeout = timeout_of d;
    })
