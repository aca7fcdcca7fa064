-- ===== src/Controller/Instances.antt =====
-- The parts of machine.go about the instance of a machine: createProviderInstance,
-- ensureInstanceExistsForMachine, ensureNodeOwnerRefAndConfigSource, enqueueMachineAfter.
use machine_controller.Base.{
  ℕ, String, concat, ◌-◌, not, ◌&&◌, Option, none, some, ltb, index, assign, is_some, ◌==◌, List,
  if◌then◌else◌,
}
use machine_controller.Outcome.{
  wrapped, is_terminal_error, is_instance_not_found, Act, pure, raise, lift, call, ask, query, tell,
  deref, attempt, wrap, on_option, ◌>>=◌, ◌>>◌,
}
use machine_controller.Kube.{Machine, Node, Instance}
use machine_controller.Kube.Calls.{
  Call, delete_machine_object, record_event, provider_get, provider_create, queue_add_after,
  handle_error,
}
use machine_controller.Kube.Cluster.{Cluster, ProviderConfig}
use machine_controller.Bootstrap.{create_bootstrap_kubeconfig}
use machine_controller.Controller.Update.{
  update_machine, update_machine_error_if_terminal_error, ensure_delete_finalizer_exists,
  update_node,
}
use machine_controller.Controller.Nodes.{
  node_owner_label, has_machine_set, get_node, update_machine_status,
}

abbrev pub set_addresses : List String → Machine → Machine
set_addresses addresses m = record m { status = record m.status { addresses = addresses } }

-- `n.Labels[NodeOwnerLabelName] = uid`
abbrev pub set_owner : String → Node → Option Node
set_owner uid n = elim (assign node_owner_label uid n.labels) [
  | none ↦ none
  | some labels ↦ some (record n { labels = labels })
]

module _ (c : Cluster) where
  unfoldable pub enqueue_machine_after : Machine → ℕ → Act Call (Unit {0})
  enqueue_machine_after machine after =
      attempt (lift (c.key_of machine)) (λ key. tell (queue_add_after key after))
        (λ _. tell handle_error)

  unfoldable pub create_provider_instance : Machine → String → Act Call (Option Instance)
  create_provider_instance machine userdata = do
    instance_ ← call (provider_create machine userdata) (λ s. c.created s machine userdata)
    updated ← ensure_delete_finalizer_exists c machine
    pure instance_

  -- Case 2.1 of `ensureInstanceExistsForMachine`: no instance was found, and one is created.
  unfoldable pub create_instance : Machine → Act Call (Unit {0})
  create_instance machine = do
    kubeconfig ←
        wrap "failed to create bootstrap kubeconfig" (create_bootstrap_kubeconfig c machine.name)
    config ← wrap "failed to render cloud config" (query (λ s. c.cloud_config s machine.spec))
    userdata ←
        wrap "failed get userdata"
          (query (λ s. c.user_data s machine.spec kubeconfig config.0 config.1))
    attempt (create_provider_instance machine userdata)
        (λ _. tell (record_event "Created") >> enqueue_machine_after machine 30)
        (λ e.
          update_machine_error_if_terminal_error c machine "CreateError"
            (concat (c.error_text e) ". Unable to create a machine.") e
            "failed to create machine at cloudprover")

  unfoldable pub set_config_source : Machine → Node → Act Call (Unit {0})
  set_config_source machine node =
      if not (is_some node.config_source) && is_some machine.spec.config_source
      then (wrap "failed to update node after setting the config source" (
            update_node c node.name
              (λ n. some (record n { config_source = machine.spec.config_source })))
          >>= λ _. pure tt)
      else pure tt

  unfoldable pub set_node_owner : Machine → Node → Act Call (Unit {0})
  set_node_owner machine node =
      if not (index node_owner_label node.labels == machine.uid)
      then (update_node c node.name (set_owner machine.uid) >>= λ _. pure tt)
      else pure tt

  -- What is done if the machine has no node: past the timeout it is deleted, to be created again.
  unfoldable pub check_join_timeout : Machine → Act Call (Unit {0})
  check_join_timeout machine = on_option c.join_cluster_timeout (pure tt) (λ timeout.
      if has_machine_set machine.owner_references
      then (ask c.now >>= λ now.
          if ltb timeout (now - machine.creation_timestamp)
          then wrap "failed to delete machine that didn't join cluster within expected period" (
              call (delete_machine_object machine.namespace machine.name)
                (λ s. c.deleted_machine s machine.name))
          else enqueue_machine_after machine 300)
      else pure tt)

  unfoldable pub ensure_node_owner_ref_and_config_source :
      Option Instance → Machine → ProviderConfig → Act Call (Unit {0})
  ensure_node_owner_ref_and_config_source instance_ machine config = do
    found ← wrap "failed to get node for machine" (get_node c instance_ config.cloud_provider)
    on_option found (check_join_timeout machine) (λ node. do
      set_node_owner machine node
      set_config_source machine node
      wrap "failed to update machine status" (update_machine_status c machine node))

  -- Case 3 of `ensureInstanceExistsForMachine`: the instance was found.
  unfoldable pub keep_instance : Option Instance → Machine → ProviderConfig → Act Call (Unit {0})
  keep_instance found machine config = do
    finalized ← ensure_delete_finalizer_exists c machine
    instance_ ← deref found
    tell (record_event "InstanceFound")
    updated ←
        wrap "failed to update machine after setting .status.addresses"
          (update_machine c finalized (set_addresses instance_.addresses))
    ensure_node_owner_ref_and_config_source found updated config

  unfoldable pub ensure_instance_exists_for_machine : Machine → ProviderConfig → Act Call (Unit {0})
  ensure_instance_exists_for_machine machine config =
      attempt (call (provider_get machine) (λ s. c.instance_of s machine))
        (λ found. keep_instance found machine config)
        (λ e.
          if is_instance_not_found e
          then create_instance machine
          else if is_some (is_terminal_error e)
          then update_machine_error_if_terminal_error c machine "CreateError"
              (concat (c.error_text e) ". Unable to create a machine.") e
              "failed to get instance from provider"
          else raise (wrapped "failed to get instance from provider" e))
