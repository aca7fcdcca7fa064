-- ===== src/Controller/Sync.antt =====
-- syncHandler and sync of machine.go.
use machine_controller.Base.{String, not, none, index, ◌==◌, if◌then◌else◌}
use machine_controller.Outcome.{
  wrapped, is_not_found, Act, pure, raise, lift, call, query, tell, attempt, wrap, on_option, ◌>>=◌,
  ◌>>◌,
}
use machine_controller.Kube.{Machine, ObjectReference}
use machine_controller.Kube.Calls.{Call, get_machine_object, record_event}
use machine_controller.Kube.Cluster.{Cluster, ProviderConfig}
use machine_controller.CloudProvider.{for_provider}
use machine_controller.ProviderConfig.{get_config}
use machine_controller.Controller.Update.{update_machine}
use machine_controller.Controller.Nodes.{
  node_is_ready, get_node_by_node_ref, ensure_machine_has_node_ready_condition,
  ensure_node_labels_annotations_and_taints,
}
use machine_controller.Controller.Instances.{ensure_instance_exists_for_machine}
use machine_controller.Controller.Delete.{delete_machine}

abbrev pub uninitialized_annotation : String
uninitialized_annotation = "machine-controller.kubermatic.io/initializers"

abbrev pub default_name : Machine → Machine
default_name m =
    if m.spec.name == "" then record m { spec = record m.spec { name = m.name } } else m

abbrev pub clear_node_ref : Machine → Machine
clear_node_ref m = record m { status = record m.status { node_ref = none } }

module _ (c : Cluster) where
  -- What `sync` does with a machine that has a node reference.
  unfoldable pub sync_node : Machine → ProviderConfig → ObjectReference → Act Call (Unit {0})
  sync_node machine config ref =
      attempt (get_node_by_node_ref c ref)
        (λ node.
          if node_is_ready node
          then (wrap "failed to set nodeReady condition on machine"
                (ensure_machine_has_node_ready_condition c machine)
              >>= λ updated. ensure_node_labels_annotations_and_taints c node updated)
          else ensure_instance_exists_for_machine c machine config)
        (λ e.
          if is_not_found e
          then (update_machine c machine clear_node_ref >>= λ _. pure tt)
          else raise (wrapped "failed to check if node for machine exists" e))

  -- What `sync` does with a machine that is to be there.
  unfoldable pub sync_present : Machine → ProviderConfig → Act Call (Unit {0})
  sync_present machine config = do
    wrap "failed to userdata provider" (query (λ s. c.plugin_for_os s config.operating_system))
    on_option machine.status.node_ref (ensure_instance_exists_for_machine c machine config)
        (sync_node machine config)

  unfoldable pub sync_named : Machine → Act Call (Unit {0})
  sync_named machine = do
    config ←
        wrap "failed to get provider config"
          (lift (get_config c.parse_config machine.spec.provider_spec))
    provider ← wrap "failed to get cloud provider" (lift (for_provider config.cloud_provider))
    on_option machine.deletion_timestamp (sync_present machine config)
        (λ _. delete_machine c machine)

  unfoldable pub sync : Machine → Act Call (Unit {0})
  sync machine = sync_named (default_name machine)

  -- The rest of `syncHandler` once the machine is there. The `err` that it returns is that of the
  -- lister, nil by then: the one of `sync` is declared in the scope of its `if`.
  unfoldable pub sync_listed : Machine → Act Call (Unit {0})
  sync_listed machine =
      if not (index uninitialized_annotation machine.annotations == "")
      then pure tt
      else attempt (sync machine) (λ _. pure tt) (λ e. tell (record_event "ReconcilingError"))

  unfoldable pub sync_handler : String → Act Call (Unit {0})
  sync_handler key = do
    (namespace, name) ← wrap "failed to split metaNamespaceKey" (lift (c.split_key key))
    attempt (call (get_machine_object namespace name) (λ s. c.machine s namespace name)) sync_listed
        (λ e. if is_not_found e then pure tt else raise e)
