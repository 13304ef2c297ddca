-- ===== src/Controller/Volumes.antt =====
-- controllerServer.go: `DeleteVolume`, `ControllerExpandVolume`, `ControllerPublishVolume`,
-- `ControllerUnpublishVolume`, `ValidateVolumeCapabilities`, `GetCapacity`.
pub mod Deletion
pub mod Waiting
pub mod Slept
pub mod Expansion
use nexentastor_csi_driver_b.Base.{
  ℕ, zero, suc, ◌+◌, Text, bytes, contains_text, is_empty, Map, lookup, value_or, ℤ, pos, eq_ℤ,
  ltb_ℤ, ltb, Bool, true, false, not, Option, none, some, List, [], ◌∷◌, if◌then◌else◌,
}
use nexentastor_csi_driver_b.Exec.{
  Exec, Error, Code, status, errorf, invalid_argument, not_found, internal, deadline_exceeded, pure,
  fail, gets, guard, attempt, or_fail, or_missing, Tried, got, failed, status_code,
  is_code_not_found, ◌>>=◌, ◌>>◌,
}
use nexentastor_csi_driver_b.Config.{Host}
use nexentastor_csi_driver_b.Ns.{Ns, LunMapping, of_volume}
use nexentastor_csi_driver_b.Process.{Process, on, outside, ns_data}
use nexentastor_csi_driver_b.Csi.{
  VolumeRequest, ExpandRequest, ExpandResponse, PublishRequest, ValidateRequest, ValidateResponse,
  refused, confirmed, Capability,
}
use nexentastor_csi_driver_b.Controller.Connect.{
  ResolveResponse, refreshed, resolve_ns, last_secret,
}
use nexentastor_csi_driver_b.Controller.Request.{
  split_id, volume_group_of, supported_modes, first_unsupported,
}

abbrev pub no_expansion : ExpandResponse
no_expansion = record { capacity_bytes = pos 0; node_expansion_required = false }

module _ {W P R : Type 0} (ns : Ns W P R) where
  -- `ValidateVolumeCapabilities`.
  unfoldable pub validate_volume_capabilities :
      Host W → ValidateRequest → Exec (Process W R) ValidateResponse
  validate_volume_capabilities host req = do
    guard (is_empty req.volume_id) (status invalid_argument "Volume ID must be provided")
    or_missing (status not_found "VolumeId is in wrong format: %s") (split_id req.volume_id)
    capabilities ←
        or_missing (status invalid_argument "req.VolumeCapabilities must be provided")
          req.capabilities
    refreshed ns host (last_secret req.secrets)
    elim (first_unsupported capabilities) [
      | some mode ↦ pure (refused mode)
      | none ↦ pure (confirmed supported_modes req.context)
    ]

  -- The growth of a volume that has been resolved.
  unfoldable pub expand_resolved : Text → ℤ → Option P → Exec (Process W R) ExpandResponse
  expand_resolved path capacity provider = do
    volume ← on provider (λ p. ns.get_volume p path)
    if ltb_ℤ volume.volume_size capacity
        then (do
          or_fail (λ e. errorf "Failed to expand volume %s: %s")
              (on provider (λ p. ns.update_volume_size p path capacity))
          pure (record { capacity_bytes = capacity; node_expansion_required = true }))
        else pure (record { capacity_bytes = capacity; node_expansion_required = false })

  -- `ControllerExpandVolume`.
  unfoldable pub controller_expand_volume :
      Host W → ExpandRequest → Exec (Process W R) ExpandResponse
  controller_expand_volume host req = do
    refreshed ns host (last_secret req.secrets)
    guard (eq_ℤ req.required_bytes (pos 0)) (status invalid_argument "GetRequiredBytes must be >0")
    guard (is_empty req.volume_id) (status invalid_argument "Volume ID must be provided")
    (config_name, path) ←
        or_missing (status invalid_argument "VolumeId is in wrong format: %s")
          (split_id req.volume_id)
    elim (volume_group_of path) [
      | none ↦ pure no_expansion
      | some group ↦ do
        resolved ←
            resolve_ns ns (record { volume_group = group; zone = []; config_name = config_name })
        expand_resolved path req.required_bytes resolved.ns_provider
    ]

  -- `GetCapacity`.
  unfoldable pub get_capacity : Map Text → Exec (Process W R) ℤ
  get_capacity parameters = do
    resolved ← resolve_ns ns (record {
      volume_group = value_or [] (lookup (bytes "volumeGroup") parameters);
      zone = [];
      config_name = [];
    })
    on resolved.ns_provider (λ p. ns.get_volume_group p resolved.volume_group)

  -- The loop that `DeleteVolume` and `ControllerUnpublishVolume` share.
  unfoldable pub destroy_lun_mappings : Option P → List LunMapping → Exec (Process W R) Unit
  destroy_lun_mappings provider [] = pure tt
  destroy_lun_mappings provider (lun ∷ luns) = do
    on provider (λ p. ns.destroy_lun_mapping p lun.id)
    destroy_lun_mappings provider luns

  -- The query and the loop.
  unfoldable pub unmap : Text → Option P → Exec (Process W R) Unit
  unmap path provider = do
    luns ← on provider (λ p. ns.get_lun_mappings p (of_volume path))
    destroy_lun_mappings provider luns

  abbrev pub unless_missing : Tried (Unit {0}) → Exec (Process W R) Unit
  unless_missing (got _) = pure tt
  unless_missing (failed e) =
      if ns.is_not_exist e then pure tt else fail (status internal "Cannot delete '%s' volume: %s")

  -- The deletion of a volume that has been resolved.
  unfoldable pub delete_resolved : Text → Option P → Exec (Process W R) Unit
  delete_resolved path provider = do
    unmap path provider
    destroyed ← attempt (on provider (λ p. ns.destroy_volume p path true true))
    unless_missing destroyed

  -- `resolveNS` where a missing volume is no error; `k` goes on with the provider.
  abbrev pub or_gone :
      Tried (ResolveResponse P) → (Option P → Exec (Process W R) Unit) → Exec (Process W R) Unit
  or_gone (got resolved) k = k resolved.ns_provider
  or_gone (failed e) k = if is_code_not_found (status_code e) then pure tt else fail e

  -- What `DeleteVolume` and `ControllerUnpublishVolume` do alike: the refresh, the checks of the ID,
  -- which is accepted in a wrong format, and the resolution.
  unfoldable pub with_volume :
      Host W → VolumeRequest → (Text → Option P → Exec (Process W R) Unit) → Exec (Process W R) Unit
  with_volume host req k = do
    refreshed ns host (last_secret req.secrets)
    guard (is_empty req.volume_id) (status invalid_argument "Volume ID must be provided")
    elim (split_id req.volume_id) [
      | none ↦ pure tt
      | some (config_name, path) ↦ elim (volume_group_of path) [
        | none ↦ pure tt
        | some group ↦ do
          resolved ← attempt (
              resolve_ns ns (record { volume_group = group; zone = []; config_name = config_name }))
          or_gone resolved (k path)
      ]
    ]

  -- `DeleteVolume`.
  unfoldable pub delete_volume : Host W → VolumeRequest → Exec (Process W R) Unit
  delete_volume host req = with_volume host req delete_resolved

  -- The loop of `ControllerUnpublishVolume`: at most `fuel` rounds, and false if they do not do.
  unfoldable pub await_unmapped :
      (ℕ → Exec W Unit) → ℕ → ℕ → Text → Option P → List LunMapping → Exec (Process W R) Bool
  await_unmapped sleep fuel time path provider [] = pure true
  await_unmapped sleep zero time path provider (lun ∷ luns) = pure false
  await_unmapped sleep (suc fuel) time path provider (lun ∷ luns) =
      if ltb 60 time
      then fail (status deadline_exceeded "Luns did not get deleted in %v seconds")
      else (do
        outside (sleep (time + 1))
        left ← on provider (λ p. ns.get_lun_mappings p (of_volume path))
        await_unmapped sleep fuel (time + 1) path provider left)

  -- The rest of `ControllerUnpublishVolume`, with `time.Sleep` as a parameter.
  unfoldable pub unpublish_resolved : (ℕ → Exec W Unit) → Text → Option P → Exec (Process W R) Bool
  unpublish_resolved sleep path provider = do
    unmap path provider
    luns ← on provider (λ p. ns.get_lun_mappings p (of_volume path))
    await_unmapped sleep 60 2 path provider luns

  -- `ControllerUnpublishVolume`.
  unfoldable pub controller_unpublish_volume :
      (ℕ → Exec W Unit) → Host W → VolumeRequest → Exec (Process W R) Unit
  controller_unpublish_volume sleep host req =
      with_volume host req (λ path provider. unpublish_resolved sleep path provider >> pure tt)

  -- `ControllerPublishVolume`, which only checks.
  unfoldable pub controller_publish_volume : PublishRequest → Exec (Process W R) Unit
  controller_publish_volume req = do
    or_missing (status invalid_argument "Volume capability not provided") req.capability
    guard (is_empty req.volume_id) (status invalid_argument "Volume ID not provided")
    guard (is_empty req.node_id) (status invalid_argument "Node ID not provided")
    (config_name, path) ←
        or_missing (status not_found "VolumeId is in wrong format: %s") (split_id req.volume_id)
    d ← gets (ns_data config_name)
    resolved ←
        resolve_ns ns
          (record { volume_group = d.default_volume_group; zone = []; config_name = config_name })
    or_fail (λ e. status not_found "Volume %v not found on NexentaStor")
        (on resolved.ns_provider (λ p. ns.get_volume p path))
    guard (contains_text req.node_id (bytes "fake-node")) (status not_found "Incorrect node: %v")
