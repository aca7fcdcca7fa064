-- ===== src/Providers/Azure/Machines.antt =====
-- pkg/cloudprovider/provider/azure/provider.go: Get, Create, Cleanup and MigrateUID.
pub mod Addresses
use machine_controller.Base.{
  ◌==◌, concat, if◌then◌else◌, find, String, Bool, true, Option, none, some, List, [], ◌∷◌, map,
}
use machine_controller.Outcome.{
  instance_not_found, wrapped, is_instance_not_found, err, Act, pure, raise, lift, call, query, ask,
  deref, attempt, on_option, ◌>>=◌, ◌>>◌, wrap, or_terminal,
}
use machine_controller.Kube.{MachineSpec, Machine}
use machine_controller.Kube.Sets.{delete, has_finalizer}
use machine_controller.Providers.Common.{
  deleted, PublicKey, invalid_configuration, configured, first_that,
}
use machine_controller.Providers.Azure.{
  machine_uid_tag, finalizer_public_ip, finalizer_nic, finalizer_disks, finalizer_vm, Config,
  put_tag, has_uid, vm_tags, Resource, Vm, Nic, PublicIp, ImageReference, VmParams, Kind, disk, vm,
  Request, get_vm, create_vm, update_disk, wait_created, Cloud,
}
use machine_controller.Providers.Azure.Settings.{get_os_image_reference, get_client, get_config}
use machine_controller.Providers.Azure.Resources.{
  delete_interfaces_by_machine_uid, delete_ip_addresses_by_machine_uid, all_vms,
  delete_vms_by_machine_uid, get_disks_by_machine_uid, delete_disks_by_machine_uid,
  create_or_update_public_ip_address, create_or_update_network_interface, ensure_finalizer,
  drop_finalizer,
}
use machine_controller.Providers.Azure.Machines.Addresses.{
  AzureVm, get_vm_ip_addresses, get_vm_status,
}

abbrev pub admin_user_name : String
admin_user_name = "kubermatic"

abbrev pub iface_name : Machine → String
iface_name machine = concat machine.spec.name "-netiface"

abbrev pub public_ip_name : Machine → String
public_ip_name machine = concat (iface_name machine) "-pubip"

module _ (c : Cloud) where
  unfoldable pub get_vm_by_uid : Config → String → Act Request Vm
  get_vm_by_uid config uid = all_vms c config >>= λ all_servers.
      on_option (first_that (λ v. has_uid uid v.tags) all_servers) (raise instance_not_found) pure

  -- The address and the status of a virtual machine that was read
  unfoldable pub described : Config → String → Vm → Act Request AzureVm
  described config name v = do
    addresses ← wrap "failed to retrieve IP addresses for VM" (get_vm_ip_addresses c config v)
    status ← wrap "failed to retrieve status for VM" (get_vm_status c config name)
    pure (record { vm = v; ip_addresses = addresses; status = status })

  unfoldable pub get : Machine → Act Request AzureVm
  get machine = do
    (config, pc) ←
        wrap "failed to parse MachineSpec"
          (configured c.decoder (get_config c machine.spec.provider_spec))
    v ← attempt (get_vm_by_uid config machine.uid) pure (λ e.
        if is_instance_not_found e
        then raise instance_not_found
        else raise (wrapped "failed to find machine by its UID" e))
    described config machine.spec.name v

  unfoldable pub vm_spec : Machine → String → Config → PublicKey → ImageReference → Nic → VmParams
  vm_spec machine user_data config key image iface = record {
    location = config.location;
    properties = some (record {
      vm_size = config.vm_size;
      network_interface = iface.id;
      admin_username = admin_user_name;
      computer_name = machine.spec.name;
      key_data = key.public_key;
      custom_data = c.base64 user_data;
      image_reference = image;
      availability_set =
          if config.availability_set == ""
          then none
          else some (
              concat "/subscriptions/" (
                concat config.subscription_id (
                  concat "/resourceGroups/" (
                    concat config.resource_group (
                      concat "/providers/Microsoft.Compute/availabilitySets/"
                        config.availability_set)))));
    });
    tags = vm_tags config.tags machine.uid;
  }

  -- `if config.AssignPublicIP { ... }`: the machine as it was written, and the address
  unfoldable pub assign_public_ip :
      Machine → Config → String → Act Request (Machine × Option PublicIp)
  assign_public_ip machine config name =
      if config.assign_public_ip
      then (ensure_finalizer c finalizer_public_ip machine >>= λ machine'.
          wrap "failed to create public IP"
            (create_or_update_public_ip_address c name machine'.uid config)
          >>= λ ip. pure (machine', some ip))
      else pure (machine, none)

  unfoldable pub start_vm : Config → String → VmParams → Act Request AzureVm
  start_vm config name params = do
    wrap "trying to create a VM"
        (call (create_vm config.resource_group name params) (λ s. c.started s Kind.vm name))
    wrap "waiting for operation returned"
        (call (wait_created Kind.vm name) (λ s. c.completed s Kind.vm name))
    wrap "decoding result" (query (λ s. c.creation_result s Kind.vm name))
    v ←
        wrap "failed to retrieve updated data for VM"
          (call (get_vm config.resource_group name) (λ s. c.vm s name))
    described config name v

  -- `Create` after the public IP address: the interface, and then the virtual machine and its disks
  unfoldable pub create_vm_of :
      Machine
      → String
      → Config
      → PublicKey
      → ImageReference
      → String
      → Option PublicIp
      → Act Request AzureVm
  create_vm_of machine user_data config key image name ip = do
    with_nic ← ensure_finalizer c finalizer_nic machine
    iface ←
        wrap "failed to generate main network interface"
          (create_or_update_network_interface c name with_nic.uid config ip)
    with_disks ← ensure_finalizer c finalizer_disks with_nic
    with_vm ← ensure_finalizer c finalizer_vm with_disks
    start_vm config with_vm.spec.name (vm_spec with_nic user_data config key image iface)

  unfoldable pub create : Machine → String → Act Request AzureVm
  create machine user_data = do
    (config, pc) ←
        or_terminal c.decoder.error_text invalid_configuration
          "failed to parse MachineSpec, due to "
          (configured c.decoder (get_config c machine.spec.provider_spec))
    wrap "failed to create VM client" (get_client c config)
    image ← lift (get_os_image_reference pc.operating_system)
    key ← wrap "failed to generate ssh key" (ask c.new_key >>= lift)
    (machine', ip) ← assign_public_ip machine config (public_ip_name machine)
    create_vm_of machine' user_data config key image (iface_name machine) ip

  -- The machine's resources are deleted kind by kind, and the finalizer of each kind after it.
  unfoldable pub release : String → String → Act Request (Unit {0}) → Machine → Act Request Machine
  release finalizer text deletion machine = wrap text deletion >> drop_finalizer c finalizer machine

  -- `_, err = p.Get(machine); if err != ErrInstanceNotFound { ... }`
  unfoldable pub delete_vms_unless_gone : Config → Machine → Act Request (Unit {0})
  delete_vms_unless_gone config machine =
      let delete = delete_vms_by_machine_uid c config machine.uid in
      attempt (get machine) (λ _. delete) (λ e. if is_instance_not_found e then pure tt else delete)

  unfoldable pub cleanup : Machine → Act Request Bool
  cleanup machine = do
    (config, pc) ←
        wrap "failed to parse MachineSpec"
          (configured c.decoder (get_config c machine.spec.provider_spec))
    without_vm ←
        release finalizer_vm "failed to delete instance for machine"
          (delete_vms_unless_gone config machine) machine
    without_disks ←
        release finalizer_disks "failed to remove disks of machine"
          (delete_disks_by_machine_uid c config without_vm.uid) without_vm
    without_nic ←
        release finalizer_nic "failed to remove network interfaces of machine"
          (delete_interfaces_by_machine_uid c config without_disks.uid) without_disks
    without_ip ←
        release finalizer_public_ip "failed to remove public IP addresses of machine"
          (delete_ip_addresses_by_machine_uid c config without_nic.uid) without_nic
    pure true

  -- The loop over the disks in `MigrateUID`; writing to the nil map panics.
  unfoldable pub retag_disks : Config → String → List Resource → Act Request (Unit {0})
  retag_disks config new [] = pure tt
  retag_disks config new (x ∷ xs) =
      let rest = retag_disks config new xs in
      deref x.tags >>= λ tags. deref x.name >>= λ name.
      wrap "failed to update UID for disk" (
        call (update_disk config.resource_group name (some (put_tag machine_uid_tag new tags)))
          (λ s. c.started s Kind.disk name))
      >> wrap "failed waiting for completion of update UID operation for disk"
          (call (wait_created Kind.disk name) (λ s. c.completed s Kind.disk name))
      >> rest

  -- `if HasFinalizer(machine, name) { ... }`
  unfoldable pub if_finalizer : Machine → String → Act Request (Unit {0}) → Act Request (Unit {0})
  if_finalizer machine name m = if has_finalizer machine.finalizers name then m else pure tt

  -- The variable `publicIP` is never assigned.
  unfoldable pub migrate_uid : Machine → String → Act Request (Unit {0})
  migrate_uid machine new = do
    (config, pc) ←
        or_terminal c.decoder.error_text invalid_configuration
          "failed to parse MachineSpec, due to "
          (configured c.decoder (get_config c machine.spec.provider_spec))
    wrap "failed to create VM client" (get_client c config)
    if_finalizer machine finalizer_public_ip (
        wrap "failed to update UID on public IP"
          (create_or_update_public_ip_address c (public_ip_name machine) new config)
        >>= λ _. pure tt)
    if_finalizer machine finalizer_nic (
        wrap "failed to update UID on main network interface"
          (create_or_update_network_interface c (iface_name machine) new config none)
        >>= λ _. pure tt)
    if_finalizer machine finalizer_disks (
        wrap "failed to get disks client" (get_client c config)
        >> wrap "failed to get disks" (get_disks_by_machine_uid c machine.uid)
        >>= retag_disks config new)
    wrap "failed to update UID of the instance" (
        call
          (create_vm config.resource_group machine.spec.name (record {
            location = config.location;
            properties = none;
            tags = vm_tags config.tags new;
          }))
          (λ s. c.started s Kind.vm machine.spec.name))
    wrap "error waiting for instance to have the updated UID" (
        call (wait_created Kind.vm machine.spec.name)
          (λ s. c.completed s Kind.vm machine.spec.name))
