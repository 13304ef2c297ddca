-- ===== src/Node/Target.antt =====
-- nodeServer.go: `SetChapAuth`, `CreateNewTargetTg`, `ResolveTargetGroup` and `CreateISCSIMapping`.
pub mod Listed
pub mod Pick
use nexentastor_csi_driver_b.Base.{
  ℕ, Text, bytes, eq_text, is_empty, has_prefix, split, join, ℤ, pos, ltb_ℤ, ltb, ◌==◌, length,
  Bool, true, false, not, ◌&&◌, ◌||◌, Option, none, some, List, [], ◌∷◌, ◌++◌, if◌then◌else◌,
}
use nexentastor_csi_driver_b.Exec.{
  Exec, Error, Foreign, status, foreign, invalid_argument, pure, fail, crash, guard, attempt, Tried,
  got, failed, ◌>>=◌, ◌>>◌,
}
use nexentastor_csi_driver_b.Strconv.{atoi}
use nexentastor_csi_driver_b.Ns.{Ns, Group, Target, LunMapping, LunQuery}
use nexentastor_csi_driver_b.Ns.Iscsi.{Iscsi, NodeHost, Initiator, NewMapping}
use nexentastor_csi_driver_b.Process.{Process, outside, on}
use nexentastor_csi_driver_b.Node.Context.{IscsiContext, get_node_iqn}

-- The error of `strconv.Atoi`.
abbrev pub not_a_number : Error
not_a_number = foreign (record { identity = 0; text = bytes "strconv.Atoi" })

-- The part of a text behind its last colon.
unfoldable pub last_part : List Text → Text
last_part [] = []
last_part (w ∷ []) = w
last_part (v ∷ w ∷ ws) = last_part (w ∷ ws)

-- `minLuns`, `minTargetGroup` and `target` of `ResolveTargetGroup`.
pub record Choice : Type 0 where
  pub min_luns : ℕ
  pub min_target_group : Text
  pub target : Text

-- The loops go on with a choice, or the function returns a target and a group.
pub data Progress : Type 0 where
  go_on : Choice → Progress
  answer : Text → Text → Progress

-- The variables as the function declares them.
abbrev pub no_choice : Choice
no_choice = record { min_luns = 0; min_target_group = []; target = [] }

abbrev pub of_target_group : Text → LunQuery
of_target_group group = record { target_group = group; volume = []; host_group = [] }

abbrev pub is_chap : Text → Bool
is_chap authentication = eq_text authentication (bytes "chap")

module _ {W P R : Type 0} (ns : Ns W P R) (iscsi : Iscsi W P) (os : NodeHost W) where
  abbrev save_initiator : Option P → Initiator → Tried Initiator → Exec (Process W R) Unit
  save_initiator provider initiator (got _) =
      on provider (λ p. iscsi.update_remote_initiator p initiator)
  save_initiator provider initiator (failed e) =
      if ns.is_not_exist e
      then on provider (λ p. iscsi.create_remote_initiator p initiator)
      else fail e

  -- `SetChapAuth`.
  unfoldable pub set_chap_auth : Option P → Initiator → Exec (Process W R) Unit
  set_chap_auth provider initiator = do
    guard (is_empty initiator.name) (status invalid_argument "iSCSI IQN not provided")
    guard (is_empty initiator.chap_secret) (status invalid_argument "chapSecret not provided")
    found ← attempt (on provider (λ p. iscsi.get_remote_initiator p initiator.name))
    save_initiator provider initiator found

  -- The login of the node, by the user and the secret of the context.
  unfoldable pub login : IscsiContext → Option P → Exec (Process W R) Unit
  login c provider = do
    iqn ← get_node_iqn iscsi os
    set_chap_auth provider
        (record { name = iqn; chap_user = c.chap_user; chap_secret = c.chap_secret })

  -- The names of the new target and its group; a target that is given keeps its name.
  unfoldable pub new_names : IscsiContext → Exec (Process W R) (Text × Text)
  new_names c =
      if is_empty c.iscsi_target
      then (do
        uuid ← outside os.new_uuid
        pure (join b':' (c.iscsi_target_prefix ∷ uuid ∷ []), uuid))
      else pure (
        c.iscsi_target,
        if is_empty c.target_group then last_part (split b':' c.iscsi_target) else c.target_group,
      )

  abbrev port_or_fail : Option ℤ → Exec (Process W R) ℤ
  port_or_fail none = fail not_a_number
  port_or_fail (some port) = pure port

  abbrev chap_target : IscsiContext → Option P → Text → Bool → Exec (Process W R) Unit
  chap_target c provider target false = pure tt
  chap_target c provider target true = do
    login c provider
    on provider (λ p. iscsi.update_iscsi_target p target (bytes "chap"))

  -- The error that `CreateUpdateTargetGroup` has left is returned at the end.
  abbrev left_over : Tried (Unit {0}) → Exec (Process W R) Unit
  left_over (got _) = pure tt
  left_over (failed e) = fail e

  -- What `CreateNewTargetTg` does with the names, which it returns beside every error.
  unfoldable pub make_target : IscsiContext → Option P → Text → Text → Exec (Process W R) Unit
  make_target c provider target group = do
    port ← port_or_fail (atoi c.port)
    on provider (λ p.
        iscsi.create_iscsi_target p (record { name = target; address = c.address; port = port }))
    grouped ← attempt (
        on provider (λ p.
          iscsi.create_update_target_group p (record { name = group; members = target ∷ [] })))
    chap_target c provider target c.use_chap_auth
    left_over grouped

  -- `CreateNewTargetTg`.
  unfoldable pub create_new_target_tg : IscsiContext → Option P → Exec (Process W R) (Text × Text)
  create_new_target_tg c provider = do
    (target, group) ← new_names c
    make_target c provider target group
    pure (target, group)

  -- Whether a target can be used by its authentication; with CHAP the login of the node is set.
  unfoldable pub usable : IscsiContext → Option P → Text → Exec (Process W R) Bool
  usable c provider authentication =
      if c.use_chap_auth
      then (if is_chap authentication then login c provider >> pure true else pure false)
      else pure (not (is_chap authentication))

  -- Whether a count of LUNs is below the limit, and below that of the choice; the count 0 of a choice
  -- stands for no choice.
  abbrev pub is_fewer : IscsiContext → ℕ → Choice → Bool
  is_fewer c n choice =
      (choice.min_luns == 0 || ltb n choice.min_luns) && ltb_ℤ (pos n) c.num_of_luns_per_target

  -- The check of the target's authentication, and the choice of the target.
  unfoldable pub try_target :
      IscsiContext → Option P → Text → Text → ℕ → Choice → Exec (Process W R) Choice
  try_target c provider group target n choice = do
    info ← on provider (λ p. iscsi.get_iscsi_target p target)
    fits ← usable c provider info.authentication
    pure (
        if fits then record { min_luns = n; min_target_group = group; target = target } else choice)

  -- A target of a group with `n` LUNs.
  unfoldable pub consider :
      IscsiContext → Option P → Text → Text → ℕ → Choice → Exec (Process W R) Choice
  consider c provider group target n choice =
      if is_fewer c n choice then try_target c provider group target n choice else pure choice

  abbrev counted :
      IscsiContext
      → Option P
      → Text
      → Text
      → Choice
      → Tried (List LunMapping)
      → Exec (Process W R) Progress
  counted c provider group target choice (failed e) = pure (answer choice.target [])
  counted c provider group target choice (got luns) =
      consider c provider group target (length luns) choice >>= λ next. pure (go_on next)

  -- The body of the inner loop.
  unfoldable pub visit :
      IscsiContext → Option P → Text → Text → Choice → Exec (Process W R) Progress
  visit c provider group target choice =
      if has_prefix target c.iscsi_target_prefix
      then (do
        luns ← attempt (on provider (λ p. ns.get_lun_mappings p (of_target_group group)))
        counted c provider group target choice luns)
      else pure (go_on choice)

  -- A loop goes on from a choice, or hands the answer on.
  abbrev proceed : Progress → (Choice → Exec (Process W R) Progress) → Exec (Process W R) Progress
  proceed (go_on next) k = k next
  proceed (answer t g) k = pure (answer t g)

  -- The inner loop, and the outer one.
  unfoldable pub visit_members :
      IscsiContext → Option P → Text → List Text → Choice → Exec (Process W R) Progress
  visit_members c provider group [] choice = pure (go_on choice)
  visit_members c provider group (target ∷ targets) choice = do
    progress ← visit c provider group target choice
    proceed progress (visit_members c provider group targets)

  unfoldable pub visit_groups :
      IscsiContext → Option P → List Group → Choice → Exec (Process W R) Progress
  visit_groups c provider [] choice = pure (go_on choice)
  visit_groups c provider (group ∷ groups) choice = do
    progress ← visit_members c provider group.name group.members choice
    proceed progress (visit_groups c provider groups)

  abbrev settle : IscsiContext → Option P → Progress → Exec (Process W R) (Text × Text)
  settle c provider (answer t g) = pure (t, g)
  settle c provider (go_on choice) =
      if is_empty choice.min_target_group
      then create_new_target_tg c provider
      else pure (choice.target, choice.min_target_group)

  abbrev or_new : IscsiContext → Option P → Tried (List Group) → Exec (Process W R) (Text × Text)
  or_new c provider (failed e) = pure ([], [])
  or_new c provider (got groups) = visit_groups c provider groups no_choice >>= settle c provider

  -- `ResolveTargetGroup`: the errors of the two queries are dropped.
  unfoldable pub resolve_target_group : IscsiContext → Option P → Exec (Process W R) (Text × Text)
  resolve_target_group c provider = do
    groups ← attempt (on provider (λ p. iscsi.get_target_groups p))
    or_new c provider groups

  -- `CreateISCSIMapping`.
  unfoldable pub create_iscsi_mapping : Option P → NewMapping → Exec (Process W R) Unit
  create_iscsi_mapping provider params = on provider (λ p. iscsi.create_lun_mapping p params)
