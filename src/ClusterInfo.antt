-- ===== src/ClusterInfo.antt =====
-- pkg/clusterinfo/configmap.go: the kubeconfig of the cluster, from the config map that kubeadm
-- publishes or else from the endpoints of the API server.
pub mod Fallback
use Prim.Native.String.{◌++◌}
use machine_controller.Base.{
  ℕ, String, ◌≡◌, Option, none, some, List, [], ◌∷◌, StringMap, lookup, ◌==◌, if◌then◌else◌,
}
use machine_controller.Outcome.{
  new_error, Outcome, ok, Act, pure, raise, lift, attempt, on_option, wrap, ◌>>=◌,
}
use machine_controller.Kube.{ClusterEntry, Kubeconfig}
use machine_controller.Kube.Calls.{Call}

pub record EndpointPort : Type 0 where
  pub name : String
  pub port : ℕ

pub record EndpointSubset : Type 0 where
  pub addresses : List String
  pub ports : List EndpointPort

-- The listers, `clientcmd.Load`, `net.ParseIP` with the text of an address, `%d`, and the CA of the
-- client's configuration.
pub record InfoSources : Type 0 where
  pub config_map : String → Outcome StringMap
  pub endpoints : String → Outcome (List EndpointSubset)
  pub load : String → Outcome Kubeconfig
  pub parse_ip : String → Option String
  pub decimal : ℕ → String
  pub ca_data : String
  pub ca_file : String
  pub read_file : String → Outcome String

abbrev pub server_url : String → String → String
server_url ip port = "https://" ++ ip ++ ":" ++ port

abbrev pub single_cluster : String → String → Kubeconfig
single_cluster url ca = record {
  clusters = record { name = ""; server = url; ca_data = ca } ∷ [];
  token = none;
}

-- `getSecurePort`
unfoldable pub get_secure_port : List EndpointPort → Option EndpointPort
get_secure_port [] = none
get_secure_port (p ∷ ports) =
    let rest = get_secure_port ports in if p.name == "https" then some p else rest

abbrev pub head : {A : Type 0} → List A → Option A
head [] = none
head (x ∷ _) = some x

module _ (i : InfoSources) where
  unfoldable pub get_kubeconfig_from_config_map : Act Call Kubeconfig
  get_kubeconfig_from_config_map = lift (i.config_map "cluster-info") >>= λ contents.
      on_option (lookup "kubeconfig" contents)
        (raise (new_error "no kubeconfig found in cluster-info configmap"))
        (λ text. lift (i.load text))

  unfoldable pub get_ca_data : Act Call String
  get_ca_data = if i.ca_data == "" then lift (i.read_file i.ca_file) else pure i.ca_data

  unfoldable pub build_for : String → EndpointPort → Act Call Kubeconfig
  build_for ip port = wrap "failed to get ca data from config" get_ca_data >>= λ ca.
      pure (single_cluster (server_url ip (i.decimal port.port)) ca)

  unfoldable pub build_from_subset : EndpointSubset → Act Call Kubeconfig
  build_from_subset subset =
      on_option (head subset.addresses) (raise (new_error "no addresses in the first subset"))
        (λ address.
          on_option (i.parse_ip address) (raise (new_error "could not parse ip from ")) (λ ip.
            on_option (get_secure_port subset.ports)
              (raise (new_error "no secure port in the subset")) (build_for ip)))

  unfoldable pub build_kubeconfig_from_endpoint : Act Call Kubeconfig
  build_kubeconfig_from_endpoint =
      wrap "failed to get endpoint from lister" (lift (i.endpoints "kubernetes")) >>= λ subsets.
      on_option (head subsets) (raise (new_error "no subsets in the kubernetes endpoints resource"))
        build_from_subset

  unfoldable pub get_kubeconfig : Act Call Kubeconfig
  get_kubeconfig = attempt get_kubeconfig_from_config_map pure (λ _. build_kubeconfig_from_endpoint)
