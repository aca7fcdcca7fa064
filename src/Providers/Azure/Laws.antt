-- ===== src/Providers/Azure/Laws.antt =====
-- pkg/cloudprovider/provider/azure/provider.go: which requests the operations make.
use machine_controller.Base.{String, ◌≡◌, Bool, true, false, Option, none, some, List, [], ◌∷◌}
use machine_controller.Outcome.Emits.{Emits, Emits-bind, emits_rules}
use machine_controller.Kube.{Machine}
use machine_controller.Providers.Common.{configured-Emits}
use machine_controller.Providers.Azure.{
  Config, Vm, IpConfiguration, Request, list_nics, list_public_ips, list_disks, list_vms,
  get_subnet, get_virtual_network, get_nic, get_public_ip, get_vm, instance_view, Pages, done, page,
  broken, Cloud,
}
use machine_controller.Providers.Azure.Settings.{get_client}
use machine_controller.Providers.Azure.Resources.{all_pages, all_vms}
use machine_controller.Providers.Azure.Machines.{get_vm_by_uid, described, get}
use machine_controller.Providers.Azure.Machines.Addresses.{
  non_empty, status_of, get_ip_address_strings, configuration_name, addresses_of_each,
  get_nic_ip_addresses, addresses_of_interfaces, get_vm_ip_addresses, get_vm_status,
}

abbrev pub is_read : Request → Bool
is_read (list_nics _) = true
is_read (list_public_ips _) = true
is_read list_disks = true
is_read list_vms = true
is_read get_subnet = true
is_read get_virtual_network = true
is_read (get_nic _ _) = true
is_read (get_public_ip _ _) = true
is_read (get_vm _ _) = true
is_read (instance_view _ _) = true
is_read _ = false

module _ {P : Request → Bool} where
  pub all_pages-Emits : {A : Type 0} (pages : Pages A) → Emits P (all_pages pages)
  unfolding all_pages
  all_pages-Emits done = search emits_rules
  all_pages-Emits (page values next) = search (emits_rules, all_pages-Emits next)
  all_pages-Emits (broken values e) = search emits_rules

  pub status_of-Emits : (statuses : Option (List (Option String))) → Emits P (status_of statuses)
  unfolding status_of
  status_of-Emits none = search emits_rules
  status_of-Emits (some []) = search emits_rules
  status_of-Emits (some (_ ∷ [])) = search emits_rules
  status_of-Emits (some (_ ∷ _ ∷ _)) = search emits_rules

  pub non_empty-Emits : (text : String) (o : Option String) → Emits P (non_empty text o)
  unfolding non_empty
  non_empty-Emits text none = search emits_rules
  non_empty-Emits text (some id) = search emits_rules

module _ (c : Cloud) {P : Request → Bool} where
  pub get_client-Emits : (config : Config) → Emits P (get_client c config)
  unfolding get_client
  get_client-Emits config = search emits_rules

module _ (c : Cloud) {P : Request → Bool}
    (reads : (e : Request) → is_read e ≡ true → P e ≡ true) where
  strings-Emits : (config : Config) (name : String) → Emits P (get_ip_address_strings c config name)
  unfolding get_ip_address_strings
  strings-Emits config name = search (emits_rules, get_client-Emits, reads) depth 14

  configuration_name-Emits : (conf : IpConfiguration) → Emits P (configuration_name c conf)
  unfolding configuration_name
  configuration_name-Emits conf = search (emits_rules, non_empty-Emits) depth 14

  addresses_of_each-Emits :
      (config : Config) (confs : List IpConfiguration) → Emits P (addresses_of_each c config confs)
  unfolding addresses_of_each
  addresses_of_each-Emits config [] = search emits_rules
  addresses_of_each-Emits config (conf ∷ confs) =
      Emits-bind _ _ (configuration_name-Emits conf) (λ name.
        Emits-bind _ _ (search (emits_rules, strings-Emits)) (λ addrs.
          Emits-bind _ _ (addresses_of_each-Emits config confs) (λ more. search emits_rules)))

  nic-Emits : (config : Config) (name : String) → Emits P (get_nic_ip_addresses c config name)
  unfolding get_nic_ip_addresses
  nic-Emits config name =
      search (emits_rules, get_client-Emits, addresses_of_each-Emits, reads) depth 14

  addresses_of_interfaces-Emits :
      (config : Config) (ids : List (Option String))
      → Emits P (addresses_of_interfaces c config ids)
  unfolding addresses_of_interfaces
  addresses_of_interfaces-Emits config [] = search emits_rules
  addresses_of_interfaces-Emits config (id ∷ ids) =
      Emits-bind _ _ (non_empty-Emits _ id) (λ iface_id.
        Emits-bind _ _ (search (emits_rules, nic-Emits)) (λ addrs.
          Emits-bind _ _ (addresses_of_interfaces-Emits config ids) (λ more. search emits_rules)))

  pub addresses-Emits : (config : Config) (v : Vm) → Emits P (get_vm_ip_addresses c config v)
  unfolding get_vm_ip_addresses
  addresses-Emits config v = search (emits_rules, addresses_of_interfaces-Emits) depth 14

  pub status-Emits : (config : Config) (name : String) → Emits P (get_vm_status c config name)
  unfolding get_vm_status
  status-Emits config name = search (emits_rules, get_client-Emits, status_of-Emits, reads) depth 14

  pub described-Emits :
      (config : Config) (name : String) (v : Vm) → Emits P (described c config name v)
  unfolding described
  described-Emits config name v = search (emits_rules, addresses-Emits, status-Emits) depth 14

  pub all_vms-Emits : (config : Config) → Emits P (all_vms c config)
  unfolding all_vms
  all_vms-Emits config = search (emits_rules, get_client-Emits, all_pages-Emits, reads) depth 14

  -- Looking changes nothing.
  pub get-Emits : (m : Machine) → Emits P (get c m)
  unfolding get get_vm_by_uid
  get-Emits m = search (emits_rules, configured-Emits, all_vms-Emits, described-Emits) depth 16
