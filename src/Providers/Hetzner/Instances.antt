-- ===== src/Providers/Hetzner/Instances.antt =====
-- pkg/cloudprovider/provider/hetzner/provider.go: Get, Cleanup, Create, MigrateUID, MachineMetricsLabels.
use machine_controller.Base.{
  String, concat, Bool, true, false, not, ◌&&◌, Option, none, [], ◌∷◌, Pairs, ◌==◌, nat_eq,
  if◌then◌else◌,
}
use machine_controller.Outcome.{
  new_error, instance_not_found, is_instance_not_found, ok, Act, pure, raise, call, ask, lift,
  attempt, wrap, finally, or_terminal, on_option, ◌>>=◌,
}
use machine_controller.Kube.{Machine}
use machine_controller.ProviderConfig.Resolution.{ConfigCall, Sources}
use machine_controller.Providers.Common.{invalid_configuration, machine_config, first_that}
use machine_controller.Providers.Hetzner.{
  machine_uid_label_key, Config, Server, ServerCreateOpts, Request, list_servers, get_server,
  get_image, create_ssh_key, delete_ssh_key, create_server, update_server, delete_server, Cloud,
  get_name_for_os, has_uid, uid_labels, checked, get_config, look_up_location, look_up_datacenter,
  look_up_server_type,
}

module _ (c : Cloud) where
  unfoldable pub get : Machine → Act Request Server
  get machine = do
    (config, pc) ← machine_config c.decoder (get_config c machine.spec.provider_spec)
    let selector = concat machine_uid_label_key (concat "==" machine.uid)
    servers ←
        checked c "failed to list servers"
          (call (list_servers config.token selector) (λ s. c.servers s selector))
    on_option (first_that (has_uid machine.uid) servers) (raise instance_not_found) pure

  -- `StatusOK`, `StatusCreated` and `StatusNotFound` are 200, 201 and 404.
  unfoldable pub delete : Server → Config → Act Request Bool
  delete server config =
      checked c "failed to delete the server"
        (call (delete_server config.token server) (λ s. c.deleted_server s server))
      >>= λ code.
          if not (nat_eq code 200) && not (nat_eq code 404)
          then raise (new_error "invalid status code returned")
          else pure false

  -- `Cleanup` after it found a server
  unfoldable pub remove_found : Machine → Server → Act Request Bool
  remove_found machine server =
      machine_config c.decoder (get_config c machine.spec.provider_spec) >>= λ (config, pc).
      delete server config

  unfoldable pub cleanup : Machine → Act Request Bool
  cleanup machine =
      attempt (get machine) (remove_found machine)
        (λ e. if is_instance_not_found e then pure true else raise e)

  -- `serverCreateOpts` before the SSH key is added
  unfoldable pub look_up_if_set :
      String → Act Request (Option String) → String → Act Request (Option String)
  look_up_if_set place look_up msg = if place == "" then pure none else checked c msg look_up

  unfoldable pub server_create_opts :
      Machine → String → Config → String → Act Request ServerCreateOpts
  server_create_opts machine user_data config image_name = do
    datacenter ←
        look_up_if_set config.datacenter (look_up_datacenter c config) "failed to get datacenter"
    location ← look_up_if_set config.location (look_up_location c config) "failed to get location"
    image ←
        checked c "failed to get image"
          (call (get_image config.token image_name) (λ s. c.image s image_name))
    server_type ← checked c "failed to get server type" (look_up_server_type c config)
    pure record {
      name = machine.spec.name;
      user_data = user_data;
      labels = uid_labels machine.uid;
      datacenter = datacenter;
      location = location;
      image = image;
      server_type = server_type;
      ssh_keys = [];
    }

  unfoldable pub upload_key : Config → Act Request String
  upload_key config = do
    key ← wrap "failed to generate ssh key" (ask c.new_key >>= lift)
    (hkey, code) ←
        wrap "creating temporary ssh key failed"
          (call (create_ssh_key config.token key) (λ s. c.created_ssh_key s key))
    if nat_eq code 201
        then pure hkey
        else raise (new_error "got invalid http status code when creating ssh key")

  unfoldable pub create_with : Config → ServerCreateOpts → Act Request Server
  create_with config opts =
      checked c "failed to create server"
        (call (create_server config.token opts) (λ s. c.created_server s opts))
      >>= λ created.
          if nat_eq created.1 201
          then pure created.0
          else raise (new_error "failed to create server invalid status code returned")

  unfoldable pub remove_key : Config → String → Act Request (Unit {0})
  remove_key config hkey = call (delete_ssh_key config.token hkey) (λ s. c.deleted_ssh_key s hkey)

  unfoldable pub create : Machine → String → Act Request Server
  create machine user_data = do
    (config, pc) ← machine_config c.decoder (get_config c machine.spec.provider_spec)
    image_name ←
        or_terminal c.decoder.error_text invalid_configuration
          "Invalid operating system specified, details = "
          (lift (get_name_for_os pc.operating_system))
    opts ← server_create_opts machine user_data config image_name
    hkey ← upload_key config
    finally (remove_key config hkey) (create_with config (record opts { ssh_keys = hkey ∷ [] }))

  unfoldable pub migrate_uid : Machine → String → Act Request (Unit {0})
  migrate_uid machine new = do
    (config, pc) ← machine_config c.decoder (get_config c machine.spec.provider_spec)
    found ←
        wrap "failed to get server"
          (call (get_server config.token machine.spec.name) (λ s. c.server s machine.spec.name))
    on_option found (pure tt) (λ server.
        wrap "failed to update UID label" (
          call (update_server config.token server (uid_labels new))
            (λ s. c.updated_server s server))
        >>= λ code.
            if nat_eq code 200 then pure tt else raise (new_error "got unexpected response code"))

  unfoldable pub machine_metrics_labels : Machine → Sources → Act ConfigCall Pairs
  machine_metrics_labels machine sources =
      get_config c machine.spec.provider_spec sources >>= λ (config, pc). lift (
        ok (
          ("size", config.server_type)
          ∷ ("dc", config.datacenter)
          ∷ ("location", config.location)
          ∷ []))
