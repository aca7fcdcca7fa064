-- ===== src/Providers/Packet/Instances.antt =====
-- pkg/cloudprovider/provider/packet/provider.go: Get, Cleanup, Create, MigrateUID, MachineMetricsLabels.
use machine_controller.Base.{
  String, concat, Bool, true, false, Option, List, [], ◌∷◌, Pairs, if◌then◌else◌,
}
use machine_controller.Outcome.{
  instance_not_found, is_instance_not_found, ok, Act, pure, raise, lift, attempt, or_terminal,
  on_option, ◌>>=◌, ◌>>◌,
}
use machine_controller.Kube.{Machine}
use machine_controller.ProviderConfig.Resolution.{ConfigCall, Sources}
use machine_controller.Providers.Common.{invalid_configuration, machine_config, first_that}
use machine_controller.Providers.Packet.{
  Config, Device, Request, list_devices, create_device, update_device, delete_device, Cloud,
  get_name_for_os, generate_tag, item_in_list, send, create_request, migrated_tags, get_config,
}

-- `strings.Join(parts, ",")`
unfoldable pub join : List String → String
join [] = ""
join (part ∷ []) = part
join (part ∷ next ∷ parts) = concat part (concat "," (join (next ∷ parts)))

module _ (c : Cloud) where
  -- `getDeviceByTag`
  unfoldable pub get_device_by_tag : Config → String → Act Request (Option Device)
  get_device_by_tag config tag =
      send "failed to list devices" (list_devices config.api_key config.project_id)
        (λ s. c.devices s config.project_id)
      >>= λ devices. pure (first_that (λ device. item_in_list device.tags tag) devices)

  -- With the configuration in place of the client that is made of it.
  unfoldable pub get_packet_device : Machine → Act Request (Option Device × Config)
  get_packet_device machine = do
    (config, raw, pc) ← machine_config c.decoder (get_config c machine.spec.provider_spec)
    device ← get_device_by_tag config (generate_tag machine.uid)
    pure (device, config)

  unfoldable pub get : Machine → Act Request Device
  get machine = get_packet_device machine >>= λ (device, config).
      on_option device (raise instance_not_found) pure

  -- `Cleanup` after it found a device
  unfoldable pub remove_found : Machine → Device → Act Request Bool
  remove_found machine device = do
    (config, raw, pc) ← machine_config c.decoder (get_config c machine.spec.provider_spec)
    send "failed to delete the server" (delete_device config.api_key device.id)
        (λ s. c.deleted_device s device.id)
    pure false

  unfoldable pub cleanup : Machine → Act Request Bool
  cleanup machine =
      attempt (get machine) (remove_found machine)
        (λ e. if is_instance_not_found e then pure true else raise e)

  unfoldable pub create : Machine → String → Act Request Device
  create machine user_data = do
    (config, raw, pc) ← machine_config c.decoder (get_config c machine.spec.provider_spec)
    image_name ←
        or_terminal c.decoder.error_text invalid_configuration
          "Invalid operating system specified, details = "
          (lift (get_name_for_os pc.operating_system))
    let request = create_request machine user_data config image_name
    send "failed to create server" (create_device config.api_key request)
        (λ s. c.created_device s request)

  unfoldable pub migrate_uid : Machine → String → Act Request (Unit {0})
  migrate_uid machine new = get_packet_device machine >>= λ (found, config).
      on_option found (pure tt) (λ device.
        send "failed to update UID label"
          (update_device config.api_key device.id (migrated_tags new device.tags))
          (λ s. c.updated_device s device.id))

  unfoldable pub machine_metrics_labels : Machine → Sources → Act ConfigCall Pairs
  machine_metrics_labels machine sources =
      get_config c machine.spec.provider_spec sources >>= λ (config, raw, pc).
      lift (ok (("size", config.instance_type) ∷ ("facilities", join config.facilities) ∷ []))
