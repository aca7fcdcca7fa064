-- ===== src/Providers/Azure/Settings.antt =====
-- pkg/cloudprovider/provider/azure/provider.go and get_client.go: the configuration and its check.
use Prim.Native.Char.{code}
use machine_controller.Base.{
  ◌==◌, concat, nat_eq, if◌then◌else◌, Pairs, String, Option, none, some, [], ◌∷◌,
}
use machine_controller.Outcome.{
  new_error, Outcome, ok, err, Act, pure, lift, call, query, ◌>>=◌, ◌>>◌, wrap,
}
use machine_controller.Kube.{MachineSpec, Machine}
use machine_controller.ProviderConfig.Values.{ConfigVar}
use machine_controller.ProviderConfig.Resolution.{
  ConfigCall, Sources, get_config_var_string_value, get_config_var_bool_value,
}
use machine_controller.Providers.Common.{MachineConfig, decode_spec, configured}
use machine_controller.Providers.Azure.{
  Config, ImageReference, Request, list_vms, get_subnet, get_virtual_network, Cloud,
}

unfoldable pub get_os_image_reference : String → Outcome ImageReference
get_os_image_reference os =
    if os == "coreos"
    then ok (record { publisher = "CoreOS"; offer = "CoreOS"; sku = "Stable"; version = "latest" })
    else if os == "centos"
    then ok (record { publisher = "OpenLogic"; offer = "CentOS"; sku = "7-CI"; version = "latest" })
    else if os == "ubuntu"
    then ok (record {
      publisher = "Canonical";
      offer = "UbuntuServer";
      sku = "18.04-LTS";
      version = "latest";
    })
    else err (new_error "operating system not supported")

unfoldable pub check_config : Config → Outcome (Unit {0})
check_config config =
    if config.subscription_id == ""
    then err (new_error "subscriptionID is missing")
    else if config.tenant_id == ""
    then err (new_error "tenantID is missing")
    else if config.client_id == ""
    then err (new_error "clientID is missing")
    else if config.client_secret == ""
    then err (new_error "clientSecret is missing")
    else if config.resource_group == ""
    then err (new_error "resourceGroup is missing")
    else if config.vm_size == ""
    then err (new_error "vmSize is missing")
    else if config.vnet_name == ""
    then err (new_error "vnetName is missing")
    else if config.subnet_name == ""
    then err (new_error "subnetName is missing")
    else ok tt

-- The part after the last slash: `splitIfaceID[len(splitIfaceID)-1]`
abbrev segments : String → String × Option String
segments String.[] = ("", none)
segments (String.◌∷◌ ch s) =
    let (part, last) = segments s in
    if nat_eq (code ch) 47
    then ("", some (elim last [ none ↦ part | some l ↦ l ]))
    else (String.◌∷◌ ch part, last)

unfoldable pub last_segment : String → String
last_segment s = let (part, last) = segments s in elim last [ none ↦ part | some l ↦ l ]

module _ (c : Cloud) where
  -- `getVMClient` and the other five
  unfoldable pub get_client : Config → Act Request (Unit {0})
  get_client config = wrap "failed to create authorizer" (query (λ s. c.authorizer s config))

  unfoldable pub get_config : Option String → Sources → Act ConfigCall (Config × MachineConfig)
  get_config spec sources = do
    (pconfig, raw) ← decode_spec c.decoder spec
    subscription_id ← resolved "subscriptionID" raw.subscription_id
    tenant_id ← resolved "tenantID" raw.tenant_id
    client_id ← resolved "clientID" raw.client_id
    client_secret ← resolved "clientSecret" raw.client_secret
    resource_group ← resolved "resourceGroup" raw.resource_group
    location ← resolved "location" raw.location
    vm_size ← resolved "vmSize" raw.vm_size
    vnet_name ← resolved "vnetName" raw.vnet_name
    subnet_name ← resolved "subnetName" raw.subnet_name
    route_table_name ← resolved "routeTableName" raw.route_table_name
    assign_public_ip ←
        wrap "failed to get the value of \"assignPublicIP\" field"
          (get_config_var_bool_value sources raw.assign_public_ip)
    availability_set ← resolved "availabilitySet" raw.availability_set
    security_group_name ← resolved "securityGroupName" raw.security_group_name
    lift (
        ok (
          record {
            subscription_id = subscription_id;
            tenant_id = tenant_id;
            client_id = client_id;
            client_secret = client_secret;
            location = location;
            resource_group = resource_group;
            vm_size = vm_size;
            vnet_name = vnet_name;
            subnet_name = subnet_name;
            route_table_name = route_table_name;
            availability_set = availability_set;
            security_group_name = security_group_name;
            assign_public_ip = assign_public_ip;
            tags = raw.tags;
          },
          pconfig,
        ))
    where
      resolved : String → ConfigVar String → Act ConfigCall String
      resolved field v =
          wrap (concat "failed to get the value of field " field)
            (get_config_var_string_value sources v)

  unfoldable pub validate : MachineSpec → Act Request (Unit {0})
  validate spec = do
    (config, pc) ←
        wrap "failed to parse config" (configured c.decoder (get_config spec.provider_spec))
    lift (check_config config)
    wrap "failed to (create) vm client" (get_client config)
    vms ← wrap "failed to list all" (call list_vms c.vms)
    wrap "failed to get virtual network"
        (get_client config >> call get_virtual_network c.virtual_network)
    subnet ←
        wrap "failed to get subnet"
          (wrap "failed to create subnets client" (get_client config) >> call get_subnet c.subnet)
    image ← lift (get_os_image_reference pc.operating_system)
    pure tt

  unfoldable pub get_cloud_config : MachineSpec → Act Request (String × String)
  get_cloud_config spec = do
    (config, pc) ←
        wrap "failed to parse config" (configured c.decoder (get_config spec.provider_spec))
    text ← wrap "failed to convert cloud-config to string" (lift (c.cloud_config_to_string config))
    pure (text, "azure")

  unfoldable pub machine_metrics_labels : Machine → Sources → Act ConfigCall Pairs
  machine_metrics_labels machine sources =
      get_config machine.spec.provider_spec sources >>= λ (config, pc).
      lift (ok (("size", config.vm_size) ∷ ("location", config.location) ∷ []))
