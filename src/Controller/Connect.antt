-- ===== src/Controller/Connect.antt =====
-- controllerServer.go: `refreshConfig`, `resolveNS` and its two cases, `NewControllerServer`.
pub mod Search
pub mod Failure
use nexentastor_csi_driver_b.Base.{
  Text, bytes, eq_text, contains_text, is_empty, Map, lookup, insert, value_or, String, Bool, true,
  false, not, Option, none, some, List, [], ◌∷◌, if◌then◌else◌,
}
use nexentastor_csi_driver_b.Exec.{
  Exec, Error, Foreign, Code, status, errorf, foreign, not_found, internal, unauthenticated,
  failed_precondition, pure, fail, crash, gets, modify, guard, or_fail, deref, ◌>>=◌, ◌>>◌,
}
use nexentastor_csi_driver_b.Config.{Host, NsData, refresh}
use nexentastor_csi_driver_b.Ns.{Ns, ResolverArgs, Resolved}
use nexentastor_csi_driver_b.Process.{Process, outside, shared, ns_data}

-- `ResolveNSParams`.
pub record ResolveParams : Type 0 where
  pub volume_group : Text
  pub zone : Text
  pub config_name : Text

-- `ResolveNSResponse`. The provider is an interface value, which may be nil.
pub record ResolveResponse (P : Type 0) : Type 0 where
  pub volume_group : Text
  pub ns_provider : Option P
  pub config_name : Text

-- The last value of a loop over the secrets, or the empty text.
unfoldable pub last_secret : Map Text → Text
last_secret [] = []
last_secret ((k, v) ∷ []) = v
last_secret (_ ∷ s ∷ secrets) = last_secret (s ∷ secrets)

abbrev pub failed_with : {S : Type 0} → Option Foreign → Error → Exec S Unit
failed_with none e = pure tt
failed_with (some f) e = fail e

-- The volume group of the request, or the default of an entry of the configuration.
abbrev pub group_or_default : Text → NsData → Text
group_or_default group d = if is_empty group then d.default_volume_group else group

-- After a search without a provider: `err.Error()` panics where no call has set `err`.
unfoldable pub give_up : {S A : Type 0} → Option Foreign → Exec S A
give_up none = crash
give_up (some f) =
    if contains_text f.text (bytes "unknown authority")
    then fail (status unauthenticated "TLS certificate check error: %v")
    else fail (status not_found "No nsProvider found for params: %+v")

module _ {W P R : Type 0} (ns : Ns W P R) where
  -- `ns.NewResolver` for an entry of the configuration, with the read through its pointer.
  unfoldable pub connect : NsData → Exec (Process W R) (Resolved R)
  connect d = do
    insecure ← deref d.insecure_skip_verify
    outside (
        ns.new_resolver (record {
          address = d.address;
          username = d.username;
          password = d.password;
          insecure_skip_verify = insecure;
        }))

  -- The loop of `refreshConfig`: `*resolver` is read before the error is looked at.
  unfoldable pub reconnect : List (Text × NsData) → Exec (Process W R) Unit
  reconnect [] = pure tt
  reconnect ((name, d) ∷ entries) =
      let rest = reconnect entries in
      do
        r ← connect d
        resolver ← deref r.value
        modify (λ s. record s { resolvers = insert name resolver s.resolvers })
        failed_with r.error (errorf "Cannot create NexentaStor resolver: %s")
        rest

  -- `ControllerServer.refreshConfig`.
  unfoldable pub refresh_config : Host W → Text → Exec (Process W R) Unit
  refresh_config host secret = do
    changed ← shared (refresh host secret)
    entries ← gets (λ s. s.config.ns_map)
    if changed then reconnect entries else pure tt

  -- The refresh as the handlers call it.
  unfoldable pub refreshed : Host W → Text → Exec (Process W R) Unit
  refreshed host secret =
      or_fail (λ e. status failed_precondition "Cannot use config file: %s")
        (refresh_config host secret)

  -- `resolver.ResolveFromVg(volumeGroup)` where the request names the entry.
  unfoldable pub resolve_named : Text → Text → Exec (Process W R) (ResolveResponse P)
  resolve_named config_name group = do
    resolver ← gets (λ s. value_or ns.zero_resolver (lookup config_name s.resolvers))
    r ← outside (ns.resolve_from_vg resolver group)
    elim r.error [
      | some f ↦ fail (foreign f)
      | none ↦
          pure (record { volume_group = group; ns_provider = r.value; config_name = config_name })
    ]

  -- A provider that has been found, with the error beside it.
  abbrev pub found : Text → Text → P → Option Foreign → Exec (Process W R) (ResolveResponse P)
  found name group p none =
      pure (record { volume_group = group; ns_provider = some p; config_name = name })
  found name group p (some f) = fail (foreign f)

  -- The loop of `resolveNSNoZone` over the resolvers. The last argument is `err`.
  unfoldable pub search_all :
      Text → List (Text × R) → Option Foreign → Exec (Process W R) (ResolveResponse P)
  search_all group [] e = give_up e
  search_all group ((name, resolver) ∷ resolvers) e = do
    d ← gets (ns_data name)
    let vg = group_or_default group d
    r ← outside (ns.resolve_from_vg resolver vg)
    elim r.value [ some p ↦ found name vg p r.error | none ↦ search_all group resolvers r.error ]

  -- `resolveNSNoZone`.
  unfoldable pub resolve_no_zone : ResolveParams → Exec (Process W R) (ResolveResponse P)
  resolve_no_zone params =
      if is_empty params.config_name
      then (do resolvers ← gets (λ s. s.resolvers); search_all params.volume_group resolvers none)
      else (do
        d ← gets (ns_data params.config_name)
        resolve_named params.config_name (group_or_default params.volume_group d))

  -- The loop of `resolveNSWithZone`: the group, once it is set from an entry, stays set, and an error
  -- beside a provider is dropped.
  unfoldable pub search_zone :
      Text → Text → List (Text × R) → Option Foreign → Exec (Process W R) (ResolveResponse P)
  search_zone zone group [] e = give_up e
  search_zone zone group ((name, resolver) ∷ resolvers) e = do
    d ← gets (ns_data name)
    elim (eq_text zone d.zone) [
      | false ↦ search_zone zone group resolvers e
      | true ↦ do
        let vg = group_or_default group d
        r ← outside (ns.resolve_from_vg resolver vg)
        elim r.value [
          | some p ↦ found name vg p none
          | none ↦ search_zone zone vg resolvers r.error
        ]
    ]

  -- `resolveNSWithZone`.
  unfoldable pub resolve_with_zone : ResolveParams → Exec (Process W R) (ResolveResponse P)
  resolve_with_zone params =
      if is_empty params.config_name
      then (do
        resolvers ← gets (λ s. s.resolvers)
        search_zone params.zone params.volume_group resolvers none)
      else (do
        d ← gets (ns_data params.config_name)
        guard (not (eq_text d.zone params.zone)) (
            status failed_precondition
              "requested zone [%s] does not match requested NexentaStor name [%s]")
        resolve_named params.config_name (group_or_default params.volume_group d))

  -- The status that `resolveNS` makes of every error of a search.
  abbrev pub resolve_error : Error → Error
  resolve_error e =
      status (if ns.is_not_exist e then not_found else internal)
        "Cannot resolve '%s' on any NexentaStor(s): %s"

  -- `ControllerServer.resolveNS`.
  unfoldable pub resolve_ns : ResolveParams → Exec (Process W R) (ResolveResponse P)
  resolve_ns params =
      or_fail resolve_error
        (if is_empty params.zone then resolve_no_zone params else resolve_with_zone params)

  -- The loop of `NewControllerServer`.
  unfoldable pub new_resolvers : List (Text × NsData) → Map R → Exec (Process W R) (Map R)
  new_resolvers [] made = pure made
  new_resolvers ((name, d) ∷ entries) made = do
    r ← connect d
    failed_with r.error (errorf "Cannot create NexentaStor resolver: %s")
    resolver ← deref r.value
    new_resolvers entries (insert name resolver made)

  -- `NewControllerServer`.
  unfoldable pub new_controller_server : Exec (Process W R) Unit
  new_controller_server = do
    entries ← gets (λ s. s.config.ns_map)
    made ← new_resolvers entries []
    modify (λ s. record s { resolvers = made })
