-- ===== src/Node/Connect.antt =====
-- nodeServer.go: `refreshConfig`, `resolveNS` and `NewNodeServer`.
use nexentastor_csi_driver_b.Base.{
  Text, Map, lookup, insert, Option, none, some, List, [], ◌∷◌, if◌then◌else◌,
}
use nexentastor_csi_driver_b.Exec.{
  Exec, status, errorf, foreign, not_found, internal, pure, fail, gets, modify, ◌>>=◌, ◌>>◌,
}
use nexentastor_csi_driver_b.Config.{Host, NsData, refresh}
use nexentastor_csi_driver_b.Ns.{Ns, Resolved}
use nexentastor_csi_driver_b.Ns.Iscsi.{Iscsi}
use nexentastor_csi_driver_b.Process.{Process, outside, shared}
use nexentastor_csi_driver_b.Controller.Connect.{connect, failed_with}

-- A value of the map; a missing key has the nil pointer.
abbrev pub pointer {ℓ} : {A : Type ℓ} → Option (Option A) → Option A
pointer none = none
pointer (some p) = p

module _ {W P R : Type 0} (ns : Ns W P R) where
  -- The loop of `refreshConfig`: the pointer is stored before the error is looked at.
  unfoldable pub node_reconnect : List (Text × NsData) → Exec (Process W R) Unit
  node_reconnect [] = pure tt
  node_reconnect ((name, d) ∷ entries) =
      let rest = node_reconnect entries in
      do
        r ← connect ns d
        modify (λ s. record s { node_resolvers = insert name r.value s.node_resolvers })
        failed_with r.error (errorf "Cannot create NexentaStor resolver: %s")
        rest

  -- `NodeServer.refreshConfig`.
  unfoldable pub node_refresh_config : Host W → Text → Exec (Process W R) Unit
  node_refresh_config host secret = do
    changed ← shared (refresh host secret)
    entries ← gets (λ s. s.config.ns_map)
    if changed then node_reconnect entries else pure tt

  abbrev resolver_call : Iscsi W P → Option R → Text → Exec W (Resolved P)
  resolver_call iscsi none group = iscsi.resolve_from_vg_nil group
  resolver_call iscsi (some resolver) group = ns.resolve_from_vg resolver group

  -- `NodeServer.resolveNS`: the provider and the name of the entry.
  unfoldable pub node_resolve_ns : Iscsi W P → Text → Text → Exec (Process W R) (Option P × Text)
  node_resolve_ns iscsi config_name group = do
    resolver ← gets (λ s. pointer (lookup config_name s.node_resolvers))
    r ← outside (resolver_call iscsi resolver group)
    elim r.error [
      | none ↦ pure (r.value, config_name)
      | some f ↦ fail (
          status (if ns.is_not_exist (foreign f) then not_found else internal)
            "Cannot resolve '%s' on any NexentaStor(s): %s")
    ]

  -- The loop of `NewNodeServer`.
  unfoldable pub new_node_resolvers :
      List (Text × NsData) → Map (Option R) → Exec (Process W R) (Map (Option R))
  new_node_resolvers [] made = pure made
  new_node_resolvers ((name, d) ∷ entries) made = do
    r ← connect ns d
    failed_with r.error (errorf "Cannot create NexentaStor resolver: %s")
    new_node_resolvers entries (insert name r.value made)

  -- `NewNodeServer`.
  unfoldable pub new_node_server : Exec (Process W R) Unit
  new_node_server = do
    entries ← gets (λ s. s.config.ns_map)
    made ← new_node_resolvers entries []
    modify (λ s. record s { node_resolvers = made })
