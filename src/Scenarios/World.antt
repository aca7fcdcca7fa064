-- ===== src/Scenarios/World.antt =====
-- A small cluster with one machine that stays and one that goes, and two nodes.
use machine_controller.Base.{
  ◌≡◌, refl, Bool, true, false, ◌&&◌, none, some, [], ◌∷◌, ◌==◌, if◌then◌else◌, arith, eq_refl,
}
use machine_controller.Outcome.{new_error, not_found, ok, err}
use machine_controller.Kube.{
  Taint, MachineSpec, MachineStatus, Machine, Node, Pod, Secret, Instance, Kubeconfig,
}
use machine_controller.Kube.Cluster.{
  Cluster, goroutine, select_finished, ProviderConfig, attempts, polls, IsLawful,
}
use machine_controller.Bootstrap.{bootstrap_secret}

abbrev pub worker_spec : MachineSpec
worker_spec = record {
  name = "worker";
  provider_spec = some "{}";
  labels = ("role", "worker") ∷ [];
  annotations = [];
  taints = record { key = "dedicated"; value = "x"; effect = "NoSchedule" } ∷ [];
  config_source = none;
  kubelet_version = "1.13.0";
}

abbrev pub no_status : MachineStatus
no_status = record {
  node_ref = none;
  error_reason = none;
  error_message = none;
  addresses = [];
  conditions = [];
  versions = none;
}

abbrev pub worker : Machine
worker = record {
  namespace = "kube-system";
  name = "worker";
  uid = "1";
  labels = none;
  annotations = none;
  finalizers = "machine-delete-finalizer" ∷ "machine-node-delete-finalizer" ∷ [];
  pending_initializers = [];
  creation_timestamp = 0;
  deletion_timestamp = none;
  owner_references = [];
  spec = worker_spec;
  status = no_status;
}

-- To be deleted, its instance still there.
abbrev pub leaving : Machine
leaving = record worker { uid = "2"; deletion_timestamp = some 5 }

-- To be deleted, its instance gone.
abbrev pub gone : Machine
gone = record leaving { uid = "3" }

-- Without a configuration, and yet without finalizers.
abbrev pub fresh : Machine
fresh = record worker { finalizers = []; spec = record worker_spec { provider_spec = none } }

abbrev pub worker_node : Node
worker_node = record {
  name = "worker";
  labels = some (("machine-controller/owned-by", "1") ∷ []);
  annotations = some [];
  owner_references = [];
  resource_version = "1";
  taints = [];
  unschedulable = false;
  provider_id = "aws:///i-1";
  config_source = none;
  addresses = "10.0.0.1" ∷ [];
  conditions = [];
  kubelet_version = "1.13.0";
}

abbrev pub other_node : Node
other_node = record worker_node {
  name = "other";
  labels = some [];
  annotations = some (("kubermatic.io/skip-eviction", "true") ∷ []);
  provider_id = "aws:///i-2";
  addresses = "10.0.0.2" ∷ [];
}

abbrev pub worker_pod : Pod
worker_pod = record {
  namespace = "default";
  name = "web";
  phase = "Running";
  controller_kind = some "ReplicaSet";
  annotations = none;
}

abbrev pub worker_instance : Instance
worker_instance = record { id = "i-1"; addresses = "10.0.0.1" ∷ [] }

abbrev pub kubeconfig : Kubeconfig
kubeconfig = record { clusters = []; token = none }

abbrev pub config : ProviderConfig
config = record { cloud_provider = "aws"; operating_system = "ubuntu"; ssh_public_keys = [] }

abbrev pub worker_secret : Secret
worker_secret = bootstrap_secret "worker" "abcdef" "abcdef" "later"

abbrev same_taint : Taint → Taint → Bool
same_taint a b = a.key == b.key && a.effect == b.effect

abbrev pub world : Cluster
world = record {
  skip_eviction_after = 60;
  join_cluster_timeout = none;
  bootstrap_service_account = none;
  now = λ _. 100;
  machines = λ _. ok (worker ∷ leaving ∷ []);
  machine = λ _ _ _. ok worker;
  updated_machine = λ _ m. ok m;
  deleted_machine = λ _ _. ok tt;
  lister_node = λ _ name. if name == "other" then ok other_node else ok worker_node;
  api_node = λ _ name. if name == "other" then ok other_node else ok worker_node;
  nodes = λ _. ok (other_node ∷ worker_node ∷ []);
  updated_node = λ _ n. ok n;
  deleted_node = λ _ _. ok tt;
  pods = λ _ _. ok (worker_pod ∷ []);
  pod = λ _ _ _. err not_found;
  evicted = λ _ _. err (new_error "forbidden");
  schedule = λ _. goroutine 0 ∷ select_finished ∷ [];
  labelled_secrets = λ s _. elim s [ [] ↦ ok [] | _ ∷ _ ↦ ok (worker_secret ∷ []) ];
  secret = λ _ _ _. err not_found;
  service_account = λ _ _ _. err not_found;
  created_secret = λ _ _. ok tt;
  updated_secret = λ _ _. ok tt;
  info_kubeconfig = λ _. ok kubeconfig;
  random_string = λ _ _. "abcdef";
  next_key = λ _. none;
  instance_of = λ _ _. ok (some worker_instance);
  created = λ _ _ _. ok (some worker_instance);
  cleaned_up = λ _ m. ok (m.uid == "3");
  cloud_config = λ _ _. ok ("", "");
  user_data = λ _ _ _ _ _. ok "";
  plugin_for_os = λ _ _. ok tt;
  parse_config = λ _. ok config;
  split_key = λ key. ok ("kube-system", key);
  key_of = λ m. ok m.name;
  reference_to = λ n. ok (record { kind = "Node"; name = n.name; uid = "" });
  equal_machines = λ _ _. false;
  equal_references = λ _ _. false;
  match_taint = same_taint;
  equal_fold = λ a b. a == b;
  trim_left_slashes = λ s. s;
  sorted = λ xs. xs;
  format_time = λ _. "later";
  parse_time = λ _. ok 3700;
  error_text = λ _. "error";
  retry_machine = attempts 4;
  retry_node = attempts 4;
  label_requirement = λ _. ok tt;
  poll = polls 3;
}

same_taint_refl : (t : Taint) → same_taint t t ≡ true
same_taint_refl t = ground (arith, eq_refl t.key, eq_refl t.effect)

pub world-IsLawful : IsLawful world
world-IsLawful = record {
  retry_machine_attempts = λ m s. (4, refl);
  retry_node_attempts = λ m s. (4, refl);
  poll_polls = λ m s. (3, refl);
  sorted_members = λ k xs. refl;
  match_taint_refl = same_taint_refl;
}
