-- ===== src/Controller/Benign.antt =====
-- Which calls the functions of machine.go can make at all: lemmas for any set of calls that
-- allows the benign ones.
use machine_controller.Base.{String, ◌≡◌, Bool, true, Option, none, some, List, [], ◌∷◌}
use machine_controller.Outcome.{Error, call}
use machine_controller.Outcome.Emits.{Emits, emits_rules, Emits-bind}
use machine_controller.Kube.{Machine, Node, Instance, Secret}
use machine_controller.Kube.Calls.{Call, is_benign}
use machine_controller.Kube.Cluster.{Cluster, IsLawful, retry_machine-Emits, retry_node-Emits}
use machine_controller.Bootstrap.{
  only_secret, get_secret_if_exists, update_secret_expiration_and_get_token, new_bootstrap_token,
  create_bootstrap_token, service_account_token, get_token_from_service_account,
  create_bootstrap_kubeconfig,
}
use machine_controller.Controller.Update.{
  update_machine_once, update_machine, update_machine_error, update_machine_error_if_terminal_error,
  ensure_delete_finalizer_exists, update_node,
}
use machine_controller.Controller.Nodes.{
  get_node, ensure_node_labels_annotations_and_taints, update_machine_status,
  ensure_machine_has_node_ready_condition,
}
use machine_controller.Controller.Instances.{
  enqueue_machine_after, set_node_owner, set_config_source,
}

module _ {c : Cluster} (l : IsLawful c) {P : Call → Bool}
    (benign : (e : Call) → is_benign e ≡ true → P e ≡ true) where
  pub update_machine-Emits : (m : Machine) (f : Machine → Machine) → Emits P (update_machine c m f)
  unfolding update_machine update_machine_once
  update_machine-Emits m f = search (emits_rules, retry_machine-Emits l, benign) depth 8

  pub update_node-Emits : (name : String) (f : Node → Option Node) → Emits P (update_node c name f)
  unfolding update_node
  update_node-Emits name f = search (emits_rules, retry_node-Emits l, benign) depth 8

  pub update_machine_error_if_terminal_error-Emits :
      (m : Machine) (reason message : String) (e : Error) (text : String)
      → Emits P (update_machine_error_if_terminal_error c m reason message e text)
  unfolding update_machine_error_if_terminal_error update_machine_error
  update_machine_error_if_terminal_error-Emits m reason message e text =
      search (emits_rules, update_machine-Emits) depth 8

  pub ensure_delete_finalizer_exists-Emits :
      (m : Machine) → Emits P (ensure_delete_finalizer_exists c m)
  unfolding ensure_delete_finalizer_exists
  ensure_delete_finalizer_exists-Emits m = search (emits_rules, update_machine-Emits)

  pub get_node-Emits : (i : Option Instance) (p : String) → Emits P (get_node c i p)
  unfolding get_node
  get_node-Emits none p = search emits_rules
  get_node-Emits (some i) p = search (emits_rules, benign)

  pub ensure_node_labels-Emits :
      (node : Node) (m : Machine) → Emits P (ensure_node_labels_annotations_and_taints c node m)
  unfolding ensure_node_labels_annotations_and_taints
  ensure_node_labels-Emits node m = search (emits_rules, benign) depth 8

  pub update_machine_status-Emits :
      (m : Machine) (node : Node) → Emits P (update_machine_status c m node)
  unfolding update_machine_status
  update_machine_status-Emits m node = search (emits_rules, update_machine-Emits) depth 8

  pub ensure_machine_has_node_ready_condition-Emits :
      (m : Machine) → Emits P (ensure_machine_has_node_ready_condition c m)
  unfolding ensure_machine_has_node_ready_condition
  ensure_machine_has_node_ready_condition-Emits m = search (emits_rules, update_machine-Emits)

  pub enqueue_machine_after-Emits : (m : Machine) (n : _) → Emits P (enqueue_machine_after c m n)
  unfolding enqueue_machine_after
  enqueue_machine_after-Emits m n = search (emits_rules, benign)

  pub set_node_owner-Emits : (m : Machine) (node : Node) → Emits P (set_node_owner c m node)
  unfolding set_node_owner
  set_node_owner-Emits m node = search (emits_rules, update_node-Emits)

  pub set_config_source-Emits : (m : Machine) (node : Node) → Emits P (set_config_source c m node)
  unfolding set_config_source
  set_config_source-Emits m node = search (emits_rules, update_node-Emits)

module _ (c : Cluster) {P : Call → Bool}
    (benign : (e : Call) → is_benign e ≡ true → P e ≡ true) where
  only_secret-Emits : (secrets : List Secret) → Emits P (only_secret secrets)
  unfolding only_secret
  only_secret-Emits [] = search emits_rules
  only_secret-Emits (x ∷ []) = search emits_rules
  only_secret-Emits (x ∷ y ∷ secrets) = search emits_rules

  get_secret_if_exists-Emits : (name : String) → Emits P (get_secret_if_exists c name)
  unfolding get_secret_if_exists
  get_secret_if_exists-Emits name = search (emits_rules, benign, only_secret-Emits) depth 8

  update_secret-Emits :
      (secret : Secret) → Emits P (update_secret_expiration_and_get_token c secret)
  unfolding update_secret_expiration_and_get_token
  update_secret-Emits secret = search (emits_rules, benign) depth 8

  new_bootstrap_token-Emits : (name : String) → Emits P (new_bootstrap_token c name)
  unfolding new_bootstrap_token
  new_bootstrap_token-Emits name = search (emits_rules, benign) depth 8

  create_bootstrap_token-Emits : (name : String) → Emits P (create_bootstrap_token c name)
  unfolding create_bootstrap_token
  create_bootstrap_token-Emits name =
      search
        (emits_rules, get_secret_if_exists-Emits, new_bootstrap_token-Emits, update_secret-Emits)

  service_account_token-Emits :
      (namespace : String) (names : List String) → Emits P (service_account_token c namespace names)
  unfolding service_account_token
  service_account_token-Emits namespace [] = search emits_rules
  service_account_token-Emits namespace (name ∷ names) =
      let rest = service_account_token-Emits namespace names in
      Emits-bind (call _ _) _ (search (emits_rules, benign)) (λ secret. search (emits_rules, rest))

  get_token-Emits : (account : String × String) → Emits P (get_token_from_service_account c account)
  unfolding get_token_from_service_account
  get_token-Emits (namespace, name) = search (emits_rules, benign, service_account_token-Emits)

  pub create_bootstrap_kubeconfig-Emits :
      (name : String) → Emits P (create_bootstrap_kubeconfig c name)
  unfolding create_bootstrap_kubeconfig
  create_bootstrap_kubeconfig-Emits name =
      search (emits_rules, create_bootstrap_token-Emits, get_token-Emits) depth 8
