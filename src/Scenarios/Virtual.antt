-- ===== src/Scenarios/Virtual.antt =====
-- KubeVirt's provider for the small cluster.
use machine_controller.Base.{◌≡◌, refl, none, [], ◌∷◌}
use machine_controller.Outcome.{ok, ◌>>=◌, ◌>>◌, wrap, or_terminal}
use machine_controller.ProviderConfig.Resolution.{
  get_config_var_string_value, get_config_var_string_value_or_env,
}
use machine_controller.Providers.Common.{decode_spec, configured, machine_config}
use machine_controller.Providers.Kubevirt.{Vmi, Cloud, get_config, parse_resources, connect}
use machine_controller.Providers.Kubevirt.Instances.{create_with_secret, create}
use machine_controller.Providers.Kubevirt.Linking.{IsLinked, create-IsLinked}
use machine_controller.Scenarios.World.{worker}
use machine_controller.Scenarios.Settings.{in_place, decoder}

abbrev vmi : Vmi
vmi = record {
  namespace = "vms";
  name = "worker";
  uid = "9";
  deletion_timestamp = none;
  phase = "Running";
  interface_ips = "10.0.0.1" ∷ [];
}

abbrev vm_cloud : Cloud
vm_cloud = record {
  decoder = decoder (record {
    config = in_place "kubeconfig";
    cpus = in_place "1";
    memory = in_place "1Gi";
    registry_image = in_place "ubuntu";
    namespace = in_place "vms";
  });
  rest_config = λ text. ok text;
  new_client = λ _ _. ok tt;
  parse_quantity = λ text. ok text;
  vmi = λ _ _ _. ok vmi;
  deleted_vmi = λ _ _ _. ok tt;
  created_vmi = λ _ _. ok vmi;
  created_secret = λ _ _. ok tt;
  now = λ _. 5;
}

vmi_created : (create vm_cloud worker "data" []).0 ≡ ok vmi
unfolding create create_with_secret connect parse_resources machine_config configured get_config
    decode_spec get_config_var_string_value get_config_var_string_value_or_env ◌>>=◌ ◌>>◌
    or_terminal wrap
vmi_created = refl

create-IsLinked_example : IsLinked worker "data" vmi (create vm_cloud worker "data" []).1
create-IsLinked_example = create-IsLinked vm_cloud worker "data" [] vmi vmi_created
