-- ===== src/Providers/Azure/Resources.antt =====
-- pkg/cloudprovider/provider/azure/create_delete_resources.go, and the machine's finalizers that
-- stand for the resources.
use machine_controller.Base.{if◌then◌else◌, keep, String, Option, List, [], ◌∷◌, ◌++◌, map}
use machine_controller.Outcome.{
  new_error, wrapped, Act, pure, raise, call, query, deref, attempt, ◌>>=◌, ◌>>◌, wrap,
}
use machine_controller.Kube.{Machine}
use machine_controller.Kube.Sets.{has_finalizer, remove_finalizer}
use machine_controller.Providers.Azure.{
  Config, has_uid, uid_tags, Resource, Vm, Nic, PublicIp, Kind, Request, list_nics, list_public_ips,
  list_disks, list_vms, get_subnet, get_nic, get_public_ip, create_public_ip, create_nic,
  wait_created, delete_resource, wait_deleted, add_machine_finalizer, drop_machine_finalizer, Pages,
  done, page, broken, Cloud,
}
use machine_controller.Providers.Azure.Settings.{get_client}

unfoldable pub all_pages : {A : Type 0} → Pages A → Act Request (List A)
all_pages done = pure []
all_pages (page values next) = let rest = all_pages next in rest >>= λ more. pure (values ++ more)
all_pages (broken values e) = raise (wrapped "failed to iterate the result list" e)

-- An error that is replaced by a message without its cause.
abbrev pub replaced : {A : Type 0} → String → Act Request A → Act Request A
replaced text m = attempt m pure (λ _. raise (new_error text))

abbrev pub vm_resource : Vm → Resource
vm_resource v = record { name = v.name; tags = v.tags }

module _ (c : Cloud) where
  -- `Delete`, and the wait for its completion
  unfoldable pub delete_and_wait : Kind → Config → String → Act Request (Unit {0})
  delete_and_wait kind config name =
      call (delete_resource kind config.resource_group name) (λ s. c.started s kind name)
      >> call (wait_deleted kind name) (λ s. c.completed s kind name)

  -- The loop over all that is listed
  unfoldable pub delete_tagged : Kind → Config → String → List Resource → Act Request (Unit {0})
  delete_tagged kind config uid [] = pure tt
  delete_tagged kind config uid (x ∷ xs) =
      let rest = delete_tagged kind config uid xs in
      if has_uid uid x.tags
      then deref x.name >>= (λ name. delete_and_wait kind config name >> rest)
      else rest

  unfoldable pub delete_interfaces_by_machine_uid : Config → String → Act Request (Unit {0})
  delete_interfaces_by_machine_uid config uid = do
    wrap "failed to create interfaces client" (get_client c config)
    list ←
        replaced "failed to list interfaces in resource group"
          (call (list_nics config.resource_group) c.nics)
    all_interfaces ← all_pages list
    delete_tagged Kind.nic config uid all_interfaces

  unfoldable pub delete_ip_addresses_by_machine_uid : Config → String → Act Request (Unit {0})
  delete_ip_addresses_by_machine_uid config uid = do
    wrap "failed to create IP addresses client" (get_client c config)
    list ←
        replaced "failed to list public IP addresses in resource group"
          (call (list_public_ips config.resource_group) c.public_ips)
    all_ips ← all_pages list
    delete_tagged Kind.public_ip config uid all_ips

  -- `vmClient.ListAll`, read to its end
  unfoldable pub all_vms : Config → Act Request (List Vm)
  all_vms config = do get_client c config; list ← call list_vms c.vms; all_pages list

  unfoldable pub delete_vms_by_machine_uid : Config → String → Act Request (Unit {0})
  delete_vms_by_machine_uid config uid = all_vms config >>= λ all_servers.
      delete_tagged Kind.vm config uid (map vm_resource all_servers)

  unfoldable pub get_disks_by_machine_uid : String → Act Request (List Resource)
  get_disks_by_machine_uid uid = do
    list ← wrap "failed to list disks" (call list_disks c.disks)
    all_disks ← all_pages list
    pure (keep (λ x. has_uid uid x.tags) all_disks)

  unfoldable pub delete_each_disk : Config → List Resource → Act Request (Unit {0})
  delete_each_disk config [] = pure tt
  delete_each_disk config (x ∷ xs) =
      let rest = delete_each_disk config xs in
      deref x.name >>= λ name.
      wrap "failed to delete disk" (
        call (delete_resource Kind.disk config.resource_group name)
          (λ s. c.started s Kind.disk name))
      >> wrap "failed to wait for deletion of disk"
          (call (wait_deleted Kind.disk name) (λ s. c.completed s Kind.disk name))
      >> rest

  unfoldable pub delete_disks_by_machine_uid : Config → String → Act Request (Unit {0})
  delete_disks_by_machine_uid config uid = do
    wrap "failed to get disks client" (get_client c config)
    matching_disks ← get_disks_by_machine_uid uid
    delete_each_disk config matching_disks

  unfoldable pub create_or_update_public_ip_address :
      String → String → Config → Act Request PublicIp
  create_or_update_public_ip_address name uid config = do
    get_client c config
    wrap "failed to create public IP address" (
        call
          (create_public_ip config.resource_group
            (record { name = name; location = config.location; tags = uid_tags uid }))
          (λ s. c.started s Kind.public_ip name))
    wrap "failed to retrieve public IP address creation result"
        (call (wait_created Kind.public_ip name) (λ s. c.completed s Kind.public_ip name))
    wrap "failed to create public IP address" (query (λ s. c.creation_result s Kind.public_ip name))
    wrap "failed to fetch info about public IP"
        (call (get_public_ip config.resource_group name) (λ s. c.public_ip s name))

  unfoldable pub create_or_update_network_interface :
      String → String → Config → Option PublicIp → Act Request Nic
  create_or_update_network_interface name uid config ip = do
    wrap "failed to create interfaces client" (get_client c config)
    subnet ←
        wrap "failed to fetch subnet"
          (wrap "failed to create subnets client" (get_client c config) >> call get_subnet c.subnet)
    wrap "failed to create interface" (
        call
          (create_nic config.resource_group (record {
            name = name;
            location = config.location;
            subnet = subnet;
            public_ip = ip;
            tags = uid_tags uid;
          }))
          (λ s. c.started s Kind.nic name))
    wrap "failed to get interface creation response"
        (call (wait_created Kind.nic name) (λ s. c.completed s Kind.nic name))
    wrap "failed to get interface creation result" (query (λ s. c.creation_result s Kind.nic name))
    wrap "failed to fetch info about interface"
        (call (get_nic config.resource_group name) (λ s. c.nic s name))

  -- `if !HasFinalizer(machine, name) { machine, err = data.Updater(...) }`
  unfoldable pub ensure_finalizer : String → Machine → Act Request Machine
  ensure_finalizer name machine =
      if has_finalizer machine.finalizers name
      then pure machine
      else call (add_machine_finalizer name)
          (λ s. c.updated s machine (λ m. record m { finalizers = m.finalizers ++ (name ∷ []) }))

  unfoldable pub drop_finalizer : String → Machine → Act Request Machine
  drop_finalizer name machine = call (drop_machine_finalizer name) (λ s.
      c.updated s machine
        (λ m. record m { finalizers = remove_finalizer c.sorted m.finalizers name }))
