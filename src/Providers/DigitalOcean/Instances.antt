-- ===== src/Providers/DigitalOcean/Instances.antt =====
-- pkg/cloudprovider/provider/digitalocean/provider.go: Create, Cleanup, Get, MigrateUID, MachineMetricsLabels.
use machine_controller.Base.{
  ℕ, String, Bool, true, false, ◌&&◌, Option, none, some, List, [], ◌∷◌, ◌++◌, Pairs, ltb,
  if◌then◌else◌,
}
use machine_controller.Base.Decimal.{atoi}
use machine_controller.Outcome.{
  Error, new_error, wrapped, instance_not_found, is_instance_not_found, is_terminal_error, Outcome,
  ok, err, panicked, Act, pure, raise, panic, call, ask, lift, deref, attempt, wrap, finally,
  or_terminal, on_option, ◌>>=◌, ◌>>◌,
}
use machine_controller.Kube.{Machine}
use machine_controller.Kube.Sets.{has}
use machine_controller.ProviderConfig.Resolution.{ConfigCall, Sources}
use machine_controller.Providers.Common.{
  MachineConfig, invalid_configuration, configured, machine_config, first_that,
}
use machine_controller.Providers.DigitalOcean.{
  Config, Droplet, DropletCreateRequest, Request, list_droplets, get_key_by_fingerprint,
  delete_key_by_fingerprint, create_key, create_droplet, get_droplet, delete_droplet, create_tag,
  tag_resource, untag_resource, Cloud, get_slug_for_os, instance_id, send, is_machine_droplet,
  get_config,
}

-- `err == nil && existingkey != nil && res.StatusCode >= 200 && res.StatusCode <= 202`
unfoldable pub key_exists : Option ℕ → Outcome (Option String) → Act Request Bool
key_exists code (ok (some _)) =
    deref code >>= λ status_code. pure (ltb 199 status_code && ltb status_code 203)
key_exists code (ok none) = pure false
key_exists code (err _) = pure false
key_exists code panicked = panic

-- The condition that is polled, after a failure to read the droplet
unfoldable pub fetch_failed : Error → Act Request Bool
fetch_failed e =
    on_option (is_terminal_error e)
      (raise (new_error "droplet got created but we failed to fetch its status")) (λ _. raise e)

-- The error is put into a message together with the response's code.
unfoldable pub check_tag : Option ℕ → Outcome (Unit {0}) → Act Request (Unit {0})
check_tag code (ok _) = pure tt
check_tag code (err e) = deref code >>= λ _. raise (wrapped "failed to create new UID tag" e)
check_tag code panicked = panic

module _ (c : Cloud) where
  unfoldable pub upload_random_ssh_public_key : String → Act Request String
  upload_random_ssh_public_key token = do
    key ← wrap "failed to generate ssh key" (ask c.new_key >>= lift)
    reply ←
        call (get_key_by_fingerprint token key.fingerprint_md5)
          (λ s. ok (c.key s key.fingerprint_md5))
    exists ← key_exists reply.code reply.result
    if exists
        then raise (new_error "failed to create ssh public key, the key already exists")
        else send (wrapped "failed to create ssh public key on digitalocean") (create_key token key)
            (λ s. c.created_key s key)

  unfoldable pub create_request : Machine → String → Config → String → String → DropletCreateRequest
  create_request machine user_data config slug fingerprint = record {
    image = slug;
    name = machine.spec.name;
    region = config.region;
    size = config.size;
    ipv6 = config.ipv6;
    private_networking = config.private_networking;
    backups = config.backups;
    monitoring = config.monitoring;
    user_data = user_data;
    ssh_keys = fingerprint ∷ [];
    tags = config.tags ++ (machine.uid ∷ []);
  }

  unfoldable pub is_created : String → ℕ → String → Act Request Bool
  is_created token id uid =
      attempt (send (λ e. e) (get_droplet token id) (λ s. c.droplet s id))
        (λ droplet. pure (has uid droplet.tags)) fetch_failed

  unfoldable pub create_and_wait : Config → String → DropletCreateRequest → Act Request Droplet
  create_and_wait config uid request = do
    droplet ← send (λ e. e) (create_droplet config.token request) (λ s. c.created_droplet s request)
    c.poll (is_created config.token droplet.id uid)
    pure droplet

  unfoldable pub create_with_key :
      Machine → String → Config → MachineConfig → String → Act Request Droplet
  create_with_key machine user_data config pc fingerprint = do
    slug ←
        or_terminal c.decoder.error_text invalid_configuration
          "Failed to parse MachineSpec, invalid operating system specified: "
          (lift (get_slug_for_os pc.operating_system))
    create_and_wait config machine.uid (create_request machine user_data config slug fingerprint)

  unfoldable pub remove_key : Config → String → Act Request (Unit {0})
  remove_key config fingerprint =
      call (delete_key_by_fingerprint config.token fingerprint) (λ s. c.deleted_key s fingerprint)

  unfoldable pub create : Machine → String → Act Request Droplet
  create machine user_data = do
    (config, pc) ← machine_config c.decoder (get_config c machine.spec.provider_spec)
    fingerprint ← upload_random_ssh_public_key config.token
    finally (remove_key config fingerprint)
        (create_with_key machine user_data config pc fingerprint)

  unfoldable pub get : Machine → Act Request Droplet
  get machine = do
    (config, pc) ← machine_config c.decoder (get_config c machine.spec.provider_spec)
    droplets ← send (wrapped "failed to get droplets") (list_droplets config.token) c.droplets
    on_option (first_that (is_machine_droplet machine) droplets) (raise instance_not_found) pure

  -- `Cleanup` after it found a droplet
  unfoldable pub remove_found : Machine → Droplet → Act Request Bool
  remove_found machine droplet = do
    (config, pc) ← machine_config c.decoder (get_config c machine.spec.provider_spec)
    id ←
        on_option (atoi (instance_id droplet))
          (raise (new_error "failed to convert instance id to int")) pure
    send (λ e. e) (delete_droplet config.token id) (λ s. c.deleted_droplet s id)
    pure false

  unfoldable pub cleanup : Machine → Act Request Bool
  cleanup machine =
      attempt (get machine) (remove_found machine)
        (λ e. if is_instance_not_found e then pure true else raise e)

  -- The loop of `MigrateUID`
  unfoldable pub migrate_each : Machine → String → Config → List Droplet → Act Request (Unit {0})
  migrate_each machine new config [] = pure tt
  migrate_each machine new config (droplet ∷ droplets) =
      let rest = migrate_each machine new config droplets in
      let id = instance_id droplet in
      if is_machine_droplet machine droplet
      then (wrap "failed to tag droplet with new UID tag"
            (call (tag_resource config.token new id) (λ s. c.tagged s new id))
          >> wrap "failed to remove old UID tag"
              (call (untag_resource config.token machine.uid id) (λ s. c.untagged s machine.uid id))
          >> rest)
      else rest

  unfoldable pub migrate_uid : Machine → String → Act Request (Unit {0})
  migrate_uid machine new = do
    (config, pc) ←
        wrap "failed to decode providerconfig"
          (configured c.decoder (get_config c machine.spec.provider_spec))
    droplets ←
        wrap "failed to list droplets"
          (call (list_droplets config.token) (λ s. (c.droplets s).result))
    reply ← call (create_tag config.token new) (λ s. ok (c.created_tag s new))
    check_tag reply.code reply.result
    migrate_each machine new config droplets

  unfoldable pub machine_metrics_labels : Machine → Sources → Act ConfigCall Pairs
  machine_metrics_labels machine sources =
      get_config c machine.spec.provider_spec sources >>= λ (config, pc).
      lift (ok (("size", config.size) ∷ ("region", config.region) ∷ []))
