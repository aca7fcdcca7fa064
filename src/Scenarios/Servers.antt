-- ===== src/Scenarios/Servers.antt =====
-- Hetzner's and Linode's provider for the small cluster.
use machine_controller.Base.{◌⊎◌, ◌<◌, ◌≡◌, refl, true, false, none, some, [], ◌∷◌, arith}
use machine_controller.Outcome.{timed_out, new_error, ok, err, ◌>>=◌, wrap, or_terminal}
use machine_controller.Outcome.Emits.{Emits}
use machine_controller.Kube.Cluster.{Cluster, IsLawful}
use machine_controller.Controller.Update.{has_instance_finalizer}
use machine_controller.Controller.Delete.{delete_cloud_provider_instance}
use machine_controller.Controller.Writes.{writes}
use machine_controller.ProviderConfig.Resolution.{
  get_config_var_string_value, get_config_var_string_value_or_env,
}
use machine_controller.Providers.Common.{first_that, machine_config, configured, decode_spec}
use machine_controller.Providers.Contract.{IsProvider}
use machine_controller.Providers.Release.{IsServedBy, delete_cloud_provider_instance-released}
use machine_controller.Providers.Hetzner.{Server, Cloud, Config, get_config, uid_labels}
use machine_controller.Providers.Hetzner.Instances.{get, create, cleanup}
use machine_controller.Providers.Hetzner.Laws.{hetzner, hetzner-IsProvider}
use machine_controller.Providers.Hetzner.Keys.{IsKeyless, IsKeyDeleted, create-IsKeyDeleted}
use machine_controller.Providers.Hetzner.Draining.{live, IsObliging, rounds, tagged, rounds-finish}
use machine_controller.Providers.Linode
use machine_controller.Providers.Linode.Laws.{linode, linode-IsProvider}
use machine_controller.Scenarios.World.{world, world-IsLawful, leaving, worker}
use machine_controller.Scenarios.Settings.{in_place, decoder, temporary_key}

abbrev server : Server
server = record {
  id = 7;
  name = "worker";
  labels = uid_labels "2";
  status = "running";
  floating_ips = [];
  ipv4 = "10.0.0.1";
  ipv6 = "::1";
}

abbrev cloud : Cloud
cloud = record {
  decoder = decoder (record {
    token = in_place "t";
    server_type = in_place "cx11";
    datacenter = in_place "";
    location = in_place "nbg1";
  });
  servers = λ s _. ok (live (server ∷ []) s);
  server = λ _ _. ok (some server);
  location = λ _ name. ok (some name);
  datacenter = λ _ name. ok (some name);
  image = λ _ name. ok (some name);
  server_type = λ _ name. ok (some name);
  new_key = λ _. ok temporary_key;
  created_ssh_key = λ _ key. ok (key.name, 201);
  deleted_ssh_key = λ _ _. ok tt;
  created_server = λ _ _. ok (server, 201);
  updated_server = λ _ _. ok 200;
  deleted_server = λ _ _. ok 200;
  is_unauthorized = λ _. false;
}

abbrev settings : Config
settings = record { token = "t"; server_type = "cx11"; datacenter = ""; location = "nbg1" }

cloud-IsObliging : IsObliging cloud (server ∷ []) leaving settings
unfolding machine_config configured get_config decode_spec get_config_var_string_value
    get_config_var_string_value_or_env ◌>>=◌ or_terminal wrap
cloud-IsObliging = record {
  servers_live = λ s selector. refl;
  deleted_server_ok = λ s x. refl;
  pconfig = record { operating_system = "ubuntu"; cloud_provider_spec = "{}" };
  config_resolves = λ s. refl;
}

hetzner-IsProvider_example : IsProvider (hetzner cloud)
hetzner-IsProvider_example = hetzner-IsProvider cloud

one_left : tagged leaving.uid (live (server ∷ []) []) < 2
unfolding live
one_left = omega arith

rounds-finish_example : (rounds cloud 2 leaving []).0 ≡ true
rounds-finish_example = rounds-finish cloud-IsObliging 2 [] one_left

create-IsKeyDeleted_example :
    IsKeyless cloud [] (create cloud worker "data" []).1
    ⊎ IsKeyDeleted cloud [] (create cloud worker "data" []).1
create-IsKeyDeleted_example = create-IsKeyDeleted cloud worker "data" []

-- The cluster whose provider is Hetzner's.
abbrev served : Cluster
served = record world { cleaned_up = λ _ m. (cleanup cloud m []).0 }

served-IsLawful : IsLawful served
served-IsLawful = record {
  retry_machine_attempts = world-IsLawful.retry_machine_attempts;
  retry_node_attempts = world-IsLawful.retry_node_attempts;
  poll_polls = world-IsLawful.poll_polls;
  sorted_members = world-IsLawful.sorted_members;
  match_taint_refl = world-IsLawful.match_taint_refl;
}

served-IsServedBy : IsServedBy served (hetzner cloud) (λ _. [])
served-IsServedBy = record { cleaned_up_cleanup = λ s m. refl }

leaving_found : (get cloud leaving []).0 ≡ ok server
unfolding get live machine_config configured get_config decode_spec get_config_var_string_value
    get_config_var_string_value_or_env ◌>>=◌ or_terminal wrap first_that
leaving_found = refl

delete_cloud_provider_instance-released_example :
    Emits (writes has_instance_finalizer) (delete_cloud_provider_instance served leaving)
delete_cloud_provider_instance-released_example =
    delete_cloud_provider_instance-released served-IsLawful (hetzner-IsProvider cloud)
      served-IsServedBy leaving (λ s e. ground (arith, leaving_found, e))
      (λ s x e. ground (arith, e))

abbrev linode_cloud : Linode.Cloud
linode_cloud = record {
  decoder = decoder (record {
    token = in_place "t";
    region = in_place "eu-central";
    type = in_place "g6";
    backups = in_place false;
    private_networking = in_place true;
    tags = in_place "team" ∷ [];
  });
  region = λ _ _. ok tt;
  type = λ _ _. ok tt;
  instances = λ _ _. ok [];
  created_instance = λ _ opts. err (new_error "quota");
  running_instance = λ _ _. err timed_out;
  deleted_instance = λ _ _. ok tt;
  updated_instance = λ _ _. ok tt;
  new_key = λ _. ok temporary_key;
  random_password = λ _. ok "secret";
  error_code = λ _. none;
  update_tags = λ i. some i.tags;
  base64 = λ s. s;
  trim_space = λ s. s;
}

linode-IsProvider_example : IsProvider (linode linode_cloud)
linode-IsProvider_example = linode-IsProvider linode_cloud
