-- ===== src/Providers/Azure/Machines/Addresses.antt =====
-- pkg/cloudprovider/provider/azure/provider.go: the addresses and the status of a virtual machine.
use machine_controller.Base.{◌==◌, if◌then◌else◌, String, Option, none, some, List, [], ◌∷◌, ◌++◌}
use machine_controller.Outcome.{
  new_error, Act, pure, raise, panic, call, attempt, on_option, ◌>>=◌, ◌>>◌, wrap,
}
use machine_controller.Providers.Common.{Status}
use machine_controller.Providers.Azure.{
  Config, Vm, IpConfiguration, Request, get_nic, get_public_ip, instance_view, Cloud,
}
use machine_controller.Providers.Azure.Settings.{last_segment, get_client}

-- `azureVM`
pub record AzureVm : Type 0 where
  pub vm : Vm
  pub ip_addresses : List String
  pub status : Status

-- A pointer to a string that must be neither nil nor empty
unfoldable pub non_empty : String → Option String → Act Request String
non_empty text none = raise (new_error text)
non_empty text (some id) = if id == "" then raise (new_error text) else pure id

unfoldable pub present : Option String → List String
present none = []
present (some address) = address ∷ []

unfoldable pub public_address : Option (Option String) → List String
public_address none = []
public_address (some address) = present address

-- The code of the provisioning status, where there is one status only
unfoldable pub provisioning_status : Option String → Status
provisioning_status none = Status.unknown
provisioning_status (some code) =
    if code == "ProvisioningState/deleting" then Status.deleting else Status.unknown

unfoldable pub power_status : Option String → Status
power_status none = Status.unknown
power_status (some code) =
    if code == "PowerState/running"
    then Status.running
    else if code == "PowerState/starting"
    then Status.creating
    else Status.unknown

-- `(*iv.Statuses)[0]` of the empty slice panics.
unfoldable pub status_of : Option (List (Option String)) → Act Request Status
status_of none = pure Status.unknown
status_of (some []) = panic
status_of (some (provisioning ∷ [])) = pure (provisioning_status provisioning)
status_of (some (_ ∷ power ∷ _)) = pure (power_status power)

module _ (c : Cloud) where
  unfoldable pub get_ip_address_strings : Config → String → Act Request (List String)
  get_ip_address_strings config name = do
    wrap "failed to create IP address client" (get_client c config)
    ip ←
        wrap "failed to get IP"
          (call (get_public_ip config.resource_group name) (λ s. c.public_ip s name))
    on_option ip.ip_configuration (raise (new_error "IP has nil IPConfiguration"))
        (λ conf. pure (public_address conf.public_ip_address ++ present conf.private_ip_address))

  unfoldable pub configuration_name : IpConfiguration → Act Request String
  configuration_name conf =
      on_option conf.name
        (non_empty "IP configuration of NIC was returned with no ID" conf.id >>= λ id.
          pure (last_segment id))
        pure

  -- The loop of `getNICIPAddresses`
  unfoldable pub addresses_of_each : Config → List IpConfiguration → Act Request (List String)
  addresses_of_each config [] = pure []
  addresses_of_each config (conf ∷ confs) =
      let rest = addresses_of_each config confs in
      configuration_name conf >>= λ name.
      wrap "failed to retrieve IP string for IP" (get_ip_address_strings config name) >>= λ addrs.
      rest >>= λ more. pure (addrs ++ more)

  unfoldable pub get_nic_ip_addresses : Config → String → Act Request (List String)
  get_nic_ip_addresses config name = do
    wrap "failed to create interfaces client" (get_client c config)
    iface ←
        wrap "failed to get interface"
          (call (get_nic config.resource_group name) (λ s. c.nic s name))
    on_option iface.ip_configurations (pure []) (addresses_of_each config)

  -- The loop of `getVMIPAddresses`. The error of `getNICIPAddresses` is not looked at: where there
  -- is one, its addresses are nil.
  unfoldable pub addresses_of_interfaces : Config → List (Option String) → Act Request (List String)
  addresses_of_interfaces config [] = pure []
  addresses_of_interfaces config (id ∷ ids) =
      let rest = addresses_of_interfaces config ids in
      non_empty "interface has no ID" id >>= λ iface_id.
      attempt (get_nic_ip_addresses config (last_segment iface_id)) pure (λ _. pure []) >>= λ addrs.
      rest >>= λ more. pure (addrs ++ more)

  unfoldable pub get_vm_ip_addresses : Config → Vm → Act Request (List String)
  get_vm_ip_addresses config v =
      on_option v.properties (raise (new_error "machine is missing properties")) (λ properties.
        on_option properties.network_profile (raise (new_error "machine has no network profile"))
          (λ profile.
            on_option profile.network_interfaces
              (raise (new_error "machine has no network interfaces data"))
              (addresses_of_interfaces config)))

  unfoldable pub get_vm_status : Config → String → Act Request Status
  get_vm_status config name = do
    get_client c config
    statuses ←
        wrap "failed to get instance view for machine"
          (call (instance_view config.resource_group name) (λ s. c.statuses s name))
    status_of statuses
