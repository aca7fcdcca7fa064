-- ===== src/Scenarios/Endpoints.antt =====
-- The kubeconfig of a cluster without the config map.
use machine_controller.Base.{◌≡◌, refl, some, [], ◌∷◌}
use machine_controller.Outcome.{not_found, ok, err, wrap, ◌>>=◌}
use machine_controller.Kube.{Kubeconfig}
use machine_controller.ClusterInfo.{
  EndpointPort, EndpointSubset, InfoSources, single_cluster, get_kubeconfig,
  get_kubeconfig_from_config_map, build_kubeconfig_from_endpoint, build_from_subset, build_for,
  get_ca_data, get_secure_port,
}

abbrev http : EndpointPort
http = record { name = "http"; port = 80 }

abbrev https : EndpointPort
https = record { name = "https"; port = 6443 }

abbrev api_server : EndpointSubset
api_server = record { addresses = "10.0.0.10" ∷ []; ports = http ∷ https ∷ [] }

abbrev info : InfoSources
info = record {
  config_map = λ _. err not_found;
  endpoints = λ _. ok (api_server ∷ []);
  load = λ _. err not_found;
  parse_ip = λ ip. some ip;
  decimal = λ _. "6443";
  ca_data = "CA";
  ca_file = "";
  read_file = λ _. err not_found;
}

abbrev built : Kubeconfig
built = single_cluster "https://10.0.0.10:6443" "CA"

no_config_map : (get_kubeconfig_from_config_map info []).0 ≡ err not_found
unfolding get_kubeconfig_from_config_map ◌>>=◌
no_config_map = refl

builds : (get_kubeconfig info []).0 ≡ ok built
unfolding get_kubeconfig get_kubeconfig_from_config_map build_kubeconfig_from_endpoint
    build_from_subset build_for get_ca_data get_secure_port ◌>>=◌ wrap
builds = refl
