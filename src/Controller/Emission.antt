-- ===== src/Controller/Emission.antt =====
-- Which calls the steps of a reconciliation of machine.go make.
use machine_controller.Base.{
  ℕ, ap, ◌∙◌, String, ◌≡◌, Bool, true, false, Option, none, some, List, [], ◌∷◌, arith,
}
use machine_controller.Outcome.{Error, instance_not_found, is_instance_not_found, err, call}
use machine_controller.Outcome.Emits.{
  Emits, emits_rules, Emits-attempt_eq, Emits-bind, Emits-if, Emits-then, Emits-pure,
}
use machine_controller.Kube.{Machine, Node, Instance, ObjectReference}
use machine_controller.Kube.Calls.{
  Call, is_benign, is_evict, is_create, is_cleanup, is_delete_node, delete_machine_object,
  provider_get,
}
use machine_controller.Kube.Cluster.{Cluster, ProviderConfig, IsLawful}
use machine_controller.Eviction.Order.{run-Emits}
use machine_controller.Controller.Update.{has_instance_finalizer}
use machine_controller.Controller.Nodes.{get_node_by_node_ref}
use machine_controller.Controller.Instances.{
  check_join_timeout, ensure_node_owner_ref_and_config_source, keep_instance,
  create_provider_instance, create_instance, ensure_instance_exists_for_machine,
}
use machine_controller.Controller.Delete.{
  should_evict, evict_if, delete_cloud_provider_instance, delete_nodes, delete_node_for_machine,
  delete_machine,
}
use machine_controller.Controller.Sync.{default_name, sync_node, sync_present, sync_named, sync}
use machine_controller.Controller.Benign.{
  update_machine-Emits, update_machine_error_if_terminal_error-Emits,
  ensure_delete_finalizer_exists-Emits, get_node-Emits, ensure_node_labels-Emits,
  update_machine_status-Emits, ensure_machine_has_node_ready_condition-Emits,
  enqueue_machine_after-Emits, set_node_owner-Emits, set_config_source-Emits,
  create_bootstrap_kubeconfig-Emits,
}

not_found_eq : (e : Error) → is_instance_not_found e ≡ true → e ≡ instance_not_found
not_found_eq e h = ground arith

module _ {c : Cluster} (l : IsLawful c) {P : Call → Bool}
    (benign : (e : Call) → is_benign e ≡ true → P e ≡ true) where
  should_evict-Emits : (m : Machine) → Emits P (should_evict c m)
  unfolding should_evict
  should_evict-Emits m = search (emits_rules, benign) depth 10

  evict_if-Emits :
      ((e : Call) → is_evict e ≡ true → P e ≡ true)
      → (b : Bool) (m : Machine) → Emits P (evict_if c b m)
  unfolding evict_if
  evict_if-Emits evicts b m =
      let run = run-Emits l benign evicts in search (emits_rules, run) depth 8

  delete_instance-Emits :
      ((e : Call) → is_cleanup e ≡ true → P e ≡ true)
      → (m : Machine) → Emits P (delete_cloud_provider_instance c m)
  unfolding delete_cloud_provider_instance
  delete_instance-Emits cleans m =
      let update = update_machine-Emits l benign in
      let failed = update_machine_error_if_terminal_error-Emits l benign in
      let enqueue = enqueue_machine_after-Emits l benign in
      search (emits_rules, cleans, update, failed, enqueue) depth 8

  delete_nodes-Emits :
      ((e : Call) → is_delete_node e ≡ true → P e ≡ true)
      → (nodes : List Node) → Emits P (delete_nodes c nodes)
  unfolding delete_nodes
  delete_nodes-Emits deletes [] = search emits_rules
  delete_nodes-Emits deletes (node ∷ nodes) =
      Emits-then (call _ _) _ (search (emits_rules, deletes)) (delete_nodes-Emits deletes nodes)

  pub delete_node_for_machine-Emits :
      ((e : Call) → is_delete_node e ≡ true → P e ≡ true)
      → (m : Machine) → Emits P (delete_node_for_machine c m)
  unfolding delete_node_for_machine
  delete_node_for_machine-Emits deletes m =
      let update = update_machine-Emits l benign in
      let nodes = delete_nodes-Emits deletes in search (emits_rules, benign, update, nodes) depth 8

  module _
      (deletes : (namespace name : String) → P (delete_machine_object namespace name) ≡ true) where
    check_join_timeout-Emits : (m : Machine) → Emits P (check_join_timeout c m)
    unfolding check_join_timeout
    check_join_timeout-Emits m =
        let enqueue = enqueue_machine_after-Emits l benign in
        search (emits_rules, deletes, enqueue) depth 10

    ensure_node_owner_ref-Emits :
        (i : Option Instance) (m : Machine) (config : ProviderConfig)
        → Emits P (ensure_node_owner_ref_and_config_source c i m config)
    unfolding ensure_node_owner_ref_and_config_source
    ensure_node_owner_ref-Emits i m config =
        let get = get_node-Emits l benign in
        let owner = set_node_owner-Emits l benign in
        let source = set_config_source-Emits l benign in
        let status = update_machine_status-Emits l benign in
        search (emits_rules, check_join_timeout-Emits, get, owner, source, status) depth 10

    keep_instance-Emits :
        (i : Option Instance) (m : Machine) (config : ProviderConfig)
        → Emits P (keep_instance c i m config)
    unfolding keep_instance
    keep_instance-Emits i m config =
        let update = update_machine-Emits l benign in
        let ensure = ensure_delete_finalizer_exists-Emits l benign in
        search (emits_rules, benign, ensure_node_owner_ref-Emits, update, ensure) depth 10

    -- The instance is created only on an answer that there is none.
    ensure_instance_exists-Emits :
        (m : Machine) (config : ProviderConfig)
        → ((s : List Call)
            → c.instance_of s m ≡ err instance_not_found
            → Emits P (create_instance c m))
        → Emits P (ensure_instance_exists_for_machine c m config)
    unfolding ensure_instance_exists_for_machine call
    ensure_instance_exists-Emits m config missing =
        let failed = update_machine_error_if_terminal_error-Emits l benign in
        Emits-attempt_eq (call (provider_get m) (λ s. c.instance_of s m)) _ _
          (search (emits_rules, benign)) (λ s found _. keep_instance-Emits found m config)
          (λ s e h.
            Emits-if (is_instance_not_found e) _ _
              (λ is. missing s (h ∙ ap err (not_found_eq e is)))
              (λ _. search (emits_rules, failed)))

    sync_node-Emits :
        (m : Machine) (config : ProviderConfig) (ref : ObjectReference)
        → ((s : List Call)
            → c.instance_of s m ≡ err instance_not_found
            → Emits P (create_instance c m))
        → Emits P (sync_node c m config ref)
    unfolding sync_node get_node_by_node_ref
    sync_node-Emits m config ref missing =
        let update = update_machine-Emits l benign in
        let ready = ensure_machine_has_node_ready_condition-Emits l benign in
        let labels = ensure_node_labels-Emits l benign in
        search (emits_rules, benign, update, ready, labels, ensure_instance_exists-Emits) depth 10

    pub sync_present-Emits :
        (m : Machine) (config : ProviderConfig)
        → ((s : List Call)
            → c.instance_of s m ≡ err instance_not_found
            → Emits P (create_instance c m))
        → Emits P (sync_present c m config)
    unfolding sync_present
    sync_present-Emits m config missing =
        search (emits_rules, ensure_instance_exists-Emits, sync_node-Emits) depth 10

  pub create_instance-Emits :
      ((e : Call) → is_create e ≡ true → P e ≡ true) → (m : Machine) → Emits P (create_instance c m)
  unfolding create_instance create_provider_instance
  create_instance-Emits creates m =
      let kubeconfig = create_bootstrap_kubeconfig-Emits c benign in
      let ensure = ensure_delete_finalizer_exists-Emits l benign in
      let enqueue = enqueue_machine_after-Emits l benign in
      let failed = update_machine_error_if_terminal_error-Emits l benign in
      search (emits_rules, benign, creates, kubeconfig, ensure, enqueue, failed) depth 12

  -- The nodes are deleted only if the finalizer was gone before.
  pub delete_machine-Emits :
      ((e : Call) → is_evict e ≡ true → P e ≡ true)
      → ((e : Call) → is_cleanup e ≡ true → P e ≡ true)
      → (m : Machine) → (has_instance_finalizer m ≡ false → Emits P (delete_node_for_machine c m))
      → Emits P (delete_machine c m)
  unfolding delete_machine
  delete_machine-Emits evicts cleans m nodes =
      Emits-bind (should_evict c m) _ (should_evict-Emits m) (λ evict.
        Emits-then (evict_if c evict m) _ (evict_if-Emits evicts evict m) (
          Emits-then (delete_cloud_provider_instance c m) _ (delete_instance-Emits cleans m)
            (Emits-if (has_instance_finalizer m) _ _ (λ _. Emits-pure tt) nodes)))

  -- The two ways that `sync` can go, by the deletion timestamp.
  pub sync_named-Emits :
      (m : Machine)
      → ((t : ℕ) → m.deletion_timestamp ≡ some t → Emits P (delete_machine c m))
      → ((config : ProviderConfig)
          → m.deletion_timestamp ≡ none
          → Emits P (sync_present c m config))
      → Emits P (sync_named c m)
  unfolding sync_named
  sync_named-Emits m deleting present = search (emits_rules, deleting, present) depth 10

  -- Any set of calls that allows all kinds, but the return of a key to the queue, holds of all
  -- calls of `sync`.
  pub sync-Emits :
      ((e : Call) → is_evict e ≡ true → P e ≡ true)
      → ((e : Call) → is_cleanup e ≡ true → P e ≡ true)
      → ((e : Call) → is_create e ≡ true → P e ≡ true)
      → ((e : Call) → is_delete_node e ≡ true → P e ≡ true)
      → ((namespace name : String) → P (delete_machine_object namespace name) ≡ true)
      → (m : Machine) → Emits P (sync c m)
  unfolding sync
  sync-Emits evicts cleans creates nodes machines m =
      let n = default_name m in
      sync_named-Emits n
        (λ t _. delete_machine-Emits evicts cleans n (λ _. delete_node_for_machine-Emits nodes n))
        (λ config _.
          sync_present-Emits machines n config (λ s missing. create_instance-Emits creates n))
