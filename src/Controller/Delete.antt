-- ===== src/Controller/Delete.antt =====
-- The parts of machine.go that delete a machine: shouldEvict, deleteMachine,
-- deleteCloudProviderInstance, deleteNodeForMachine.
use machine_controller.Base.{
  ◌-◌, String, concat, Bool, true, false, List, [], ◌∷◌, ltb, keep, has_value, if◌then◌else◌,
}
use machine_controller.Outcome.{
  new_error, is_not_found, Act, pure, raise, call, ask, deref, attempt, wrap, on_option, ◌>>=◌,
  ◌>>◌,
}
use machine_controller.Kube.{Machine, Node}
use machine_controller.Kube.Sets.{has}
use machine_controller.Kube.Calls.{
  Call, get_lister_node, list_nodes, delete_node_object, provider_cleanup,
}
use machine_controller.Kube.Cluster.{Cluster}
use machine_controller.Eviction
use machine_controller.Controller.Update.{
  finalizer_delete_instance, finalizer_delete_node, has_instance_finalizer, update_machine,
  update_machine_error_if_terminal_error, without_finalizer,
}
use machine_controller.Controller.Nodes.{node_owner_label}
use machine_controller.Controller.Instances.{enqueue_machine_after}

-- `ownedNodesPredicateFactory`
unfoldable pub is_owned_by : Machine → Node → Bool
is_owned_by machine node = has_value node_owner_label machine.uid node.labels

abbrev deletion_message : String → String
deletion_message cause = concat cause (
    concat ". Please manually delete "
      (concat finalizer_delete_instance " finalizer from the machine object."))

module _ (c : Cluster) where
  unfoldable pub should_evict : Machine → Act Call Bool
  should_evict machine = do
    now ← ask c.now
    deleted_at ← deref machine.deletion_timestamp
    if ltb c.skip_eviction_after (now - deleted_at)
        then pure false
        else on_option machine.status.node_ref (pure false) (λ ref.
          attempt (call (get_lister_node ref.name) (λ s. c.lister_node s ref.name)) (λ _. pure true)
            (λ e. if is_not_found e then pure false else raise (new_error "failed to get node")))

  unfoldable pub delete_cloud_provider_instance : Machine → Act Call (Unit {0})
  delete_cloud_provider_instance machine =
      if has_instance_finalizer machine
      then attempt (call (provider_cleanup machine) (λ s. c.cleaned_up s machine))
          (λ completely_gone.
            if completely_gone
            then (update_machine c machine (without_finalizer c finalizer_delete_instance) >>= λ _.
                pure tt)
            else enqueue_machine_after c machine 10)
          (λ e.
            update_machine_error_if_terminal_error c machine "DeleteError"
              (deletion_message (c.error_text e)) e "failed to delete machine at cloud provider")
      else pure tt

  -- The loop of `deleteNodeForMachine`.
  unfoldable pub delete_nodes : List Node → Act Call (Unit {0})
  delete_nodes [] = pure tt
  delete_nodes (node ∷ nodes) =
      let rest = delete_nodes nodes in
      call (delete_node_object node.name) (λ s. c.deleted_node s node.name) >> rest

  unfoldable pub delete_node_for_machine : Machine → Act Call (Unit {0})
  delete_node_for_machine machine = do
    nodes ← wrap "failed to list nodes" (call list_nodes c.nodes)
    delete_nodes (keep (is_owned_by machine) nodes)
    if has finalizer_delete_node machine.finalizers
        then (update_machine c machine (without_finalizer c finalizer_delete_node) >>= λ _. pure tt)
        else pure tt

  unfoldable pub evict_if : Bool → Machine → Act Call (Unit {0})
  evict_if evict machine =
      if evict
      then (deref machine.status.node_ref >>= λ ref.
          wrap "failed to evict node" (Eviction.run c ref.name))
      else pure tt

  unfoldable pub delete_machine : Machine → Act Call (Unit {0})
  delete_machine machine = do
    evict ← should_evict machine
    evict_if evict machine
    delete_cloud_provider_instance machine
    if has_instance_finalizer machine then pure tt else delete_node_for_machine machine
