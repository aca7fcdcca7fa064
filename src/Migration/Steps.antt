-- ===== src/Migration/Steps.antt =====
-- The steps of migrations.go, from one machine to the whole migration.
use machine_controller.Base.{
  ℕ, zero, suc, String, Bool, true, false, none, some, List, [], ◌∷◌, ◌++◌, StringMap, assign, ◌==◌,
  if◌then◌else◌,
}
use machine_controller.Outcome.{
  wrapped, new_error, is_not_found, Act, pure, raise, panic, lift, call, attempt, on_option, wrap,
  ◌>>=◌, ◌>>◌,
}
use machine_controller.Kube.{Machine}
use machine_controller.Kube.Sets.{has}
use machine_controller.ProviderConfig.{get_config}
use machine_controller.CloudProvider.{for_provider}
use machine_controller.Controller.Update.{finalizer_delete_instance, finalizer_delete_node}
use machine_controller.Controller.Nodes.{node_owner_label}
use machine_controller.Controller.Sync.{default_name}
use machine_controller.Migration.{
  OldMachine, MigrationCall, Migrator, convert, get_crd, delete_crd, list_old_machines,
  get_cluster_machine, create_cluster_machine, update_cluster_machine, get_cluster_node,
  update_cluster_node, provider_migrate_uid, provider_find, update_old_machine, delete_old_machine,
  get_old_machine,
}

abbrev pub Step : Type 0 → Type 0
Step A = Act MigrationCall A

abbrev pub old_crd : String
old_crd = "machines.machine.k8s.io"

abbrev pub cluster_crd : String
cluster_crd = "machines.cluster.k8s.io"

-- The converted machine, with the finalizer that is added to it.
abbrev pub with_node_finalizer : Machine → Machine
with_node_finalizer m = record m { finalizers = m.finalizers ++ (finalizer_delete_node ∷ []) }

-- The machine that is there already, with the metadata of the converted one.
abbrev pub with_metadata : Machine → Machine → Machine
with_metadata existing m = record existing {
  labels = m.labels;
  annotations = m.annotations;
  finalizers = m.finalizers;
}

-- The nodes that may be the machine's.
abbrev pub node_name_candidates : Machine → List String
node_name_candidates m = elim m.status.node_ref [
  | none ↦ m.spec.name ∷ []
  | some ref ↦ if ref.name == m.spec.name then m.spec.name ∷ [] else m.spec.name ∷ ref.name ∷ []
]

abbrev pub has_instance : Machine → Bool
has_instance m = has finalizer_delete_instance m.finalizers

module _ (g : Migrator) where
  -- The part of `migrateMachines` that stores the converted machine.
  unfoldable pub store : Machine → Step Machine
  store m =
      attempt (call (get_cluster_machine m.namespace m.name) (λ s. g.machine s m.namespace m.name))
        (λ existing.
          if g.equal_specs m.spec existing.spec
          then wrap "failed to update metadata of existing clusterV1Alpha1 machine" (
              call (update_cluster_machine (with_metadata existing m))
                (λ s. g.updated_machine s (with_metadata existing m)))
          else raise (new_error "---manual intervention required!---"))
        (λ e.
          if is_not_found e
          then wrap "failed to create clusterv1alpha1.machine"
              (call (create_cluster_machine m) (λ s. g.created_machine s m))
          else raise (wrapped "failed to check if converted machine already exists" e))

  unfoldable pub own_once : String → StringMap → Step (Unit {0})
  own_once name labels = call (get_cluster_node name) (λ s. g.node s name) >>= λ node.
      call (update_cluster_node (record node { owner_references = []; labels = labels }))
        (λ s. g.updated_node s (record node { owner_references = []; labels = labels }))

  unfoldable pub own_node : Machine → String → Step (Unit {0})
  own_node m name =
      attempt (call (get_cluster_node name) (λ s. g.node s name))
        (λ node.
          on_option (assign node_owner_label m.uid node.labels) panic
            (λ labels. wrap "failed to update OwnerLabel on node" (g.retry (own_once name labels))))
        (λ e. if is_not_found e then pure tt else raise (wrapped "Failed to get node" e))

  unfoldable pub own_nodes : Machine → List String → Step (Unit {0})
  own_nodes m [] = pure tt
  own_nodes m (name ∷ names) = let rest = own_nodes m names in own_node m name >> rest

  -- It defaults the name of the machine that the caller points to.
  unfoldable pub ensure_cluster_v1alpha1_node_ownership : Machine → Step Machine
  ensure_cluster_v1alpha1_node_ownership m =
      own_nodes (default_name m) (node_name_candidates (default_name m)) >> pure (default_name m)

  unfoldable pub wait_for_instance : ℕ → Machine → Step (Unit {0})
  wait_for_instance zero m = raise (new_error "failed to GET instance after UID migration")
  wait_for_instance (suc n) m =
      let again = wait_for_instance n m in
      attempt (call (provider_find m) (λ s. g.found s m)) pure (λ _. again)

  unfoldable pub migrate_uid : OldMachine → Machine → Step (Unit {0})
  migrate_uid o m =
      if has_instance m
      then (wrap "running the provider migration for the UID failed" (
            call (provider_migrate_uid (record m { uid = o.uid }) m.uid)
              (λ s. g.migrated_uid s (record m { uid = o.uid }) m.uid))
          >> wait_for_instance 100 m)
      else pure tt

  unfoldable pub is_machines_v1alpha1_machine_deleted : String → Step Bool
  is_machines_v1alpha1_machine_deleted name =
      attempt (call (get_old_machine name) (λ s. g.old_machine s name)) (λ _. pure false)
        (λ e. if is_not_found e then pure true else raise e)

  unfoldable pub delete_machines_v1alpha1_machine : String → Step (Unit {0})
  delete_machines_v1alpha1_machine name = do
    wrap "failed to update machine after removing finalizer"
        (call (update_old_machine name) (λ s. g.updated_old s name))
    wrap "failed to delete machine" (call (delete_old_machine name) (λ s. g.deleted_old s name))
    wrap "failed to wait for machine to be deleted"
        (g.poll (is_machines_v1alpha1_machine_deleted name))

  -- The new machine is stored, given its node, and given the instance.
  unfoldable pub take_over : OldMachine → Machine → Step (Unit {0})
  take_over o m = store m >>= λ stored.
      ensure_cluster_v1alpha1_node_ownership stored >>= λ named. migrate_uid o named

  -- One round of the loop of `migrateMachines`, up to the deletion of the old machine.
  unfoldable pub prepare : OldMachine → Step (Unit {0})
  prepare o = wrap "failed to convert machine" (lift (convert g o)) >>= λ converted.
      wrap "failed to get provider config"
        (lift (get_config g.parse_config converted.spec.provider_spec))
      >>= λ config.
          wrap "failed to get cloud provider" (lift (for_provider config.cloud_provider))
          >>= λ provider. take_over o (with_node_finalizer converted)

  unfoldable pub migrate_machine : OldMachine → Step (Unit {0})
  migrate_machine o = prepare o >> delete_machines_v1alpha1_machine o.name

  unfoldable pub migrate_each : List OldMachine → Step (Unit {0})
  migrate_each [] = pure tt
  migrate_each (o ∷ os) = let rest = migrate_each os in migrate_machine o >> rest

  unfoldable pub migrate_machines : Step (Unit {0})
  migrate_machines =
      wrap "failed to list machinesV1Alpha1 machines" (call list_old_machines g.old_machines)
      >>= migrate_each

  -- `MigrateMachinesv1Alpha1MachineToClusterv1Alpha1MachineIfNecessary`
  unfoldable pub migrate_if_necessary : Step (Unit {0})
  migrate_if_necessary =
      attempt (call (get_crd old_crd) (λ s. g.crd s old_crd))
        (λ _. do
          wrap "error when checking for existence of crd"
              (call (get_crd cluster_crd) (λ s. g.crd s cluster_crd))
          wrap "failed to migrate machines" migrate_machines
          wrap "failed to delete machinesv1alpha1.machine crd"
              (call (delete_crd old_crd) g.deleted_crd))
        (λ e. if is_not_found e then pure tt else raise (wrapped "failed to get crds" e))
