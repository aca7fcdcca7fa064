-- ===== src/Controller/Queue.antt =====
-- The work queue of machine.go: clearMachineError, processNextWorkItem, runWorker,
-- enqueueMachine, handleObject, and the readiness check.
use machine_controller.Base.{
  ℕ, zero, suc, String, Bool, true, false, ◌||◌, none, some, List, [], ◌∷◌, index, lookup, is_some,
  ◌==◌, if◌then◌else◌,
}
use machine_controller.Outcome.{
  new_error, Outcome, Act, pure, lift, call, ask, query, tell, attempt, wrap, on_option, ◌>>=◌,
  ◌>>◌,
}
use machine_controller.Kube.{
  Machine, ObjectMeta, Notification, object, tombstone, other, ClusterEntry,
}
use machine_controller.Kube.Calls.{
  Call, get_machine_object, list_machine_objects, queue_get, queue_done, queue_forget,
  queue_add_rate_limited, handle_error,
}
use machine_controller.Kube.Cluster.{Cluster}
use machine_controller.Controller.Update.{update_machine}
use machine_controller.Controller.Nodes.{node_owner_label}
use machine_controller.Controller.Sync.{sync_handler}

abbrev pub clear_error : Machine → Machine
clear_error m = record m { status = record m.status { error_message = none; error_reason = none } }

abbrev pub has_error : Machine → Bool
has_error m = is_some m.status.error_message || is_some m.status.error_reason

module _ (c : Cluster) where
  -- Every error ends in the error handler.
  unfoldable pub clear_machine_error : String → Act Call (Unit {0})
  clear_machine_error key =
      attempt
        (do
          (namespace, name) ← lift (c.split_key key)
          machine ← call (get_machine_object namespace name) (λ s. c.machine s namespace name)
          if has_error machine
              then (update_machine c machine clear_error >>= λ _. pure tt)
              else pure tt)
        pure (λ _. tell handle_error)

  -- What is done with a key from the queue, without the deferred `Done`.
  unfoldable pub process_key : String → Act Call (Unit {0})
  process_key key =
      attempt (sync_handler c key) (λ _. clear_machine_error key >> tell (queue_forget key))
        (λ e. tell handle_error >> tell (queue_add_rate_limited key))

  -- The result says whether to go on.
  unfoldable pub process_next_work_item : Act Call Bool
  process_next_work_item = do
    next ← ask c.next_key
    tell queue_get
    on_option next (pure false) (λ key. process_key key >> tell (queue_done key) >> pure true)

  -- `runWorker`, for a number of rounds.
  unfoldable pub run_worker : ℕ → Act Call (Unit {0})
  run_worker zero = pure tt
  run_worker (suc n) =
      process_next_work_item >>= λ more. let rest = run_worker n in if more then rest else pure tt

  unfoldable pub enqueue_machine : Machine → Act Call (Unit {0})
  enqueue_machine machine =
      attempt (lift (c.key_of machine)) (λ key. tell (queue_add_rate_limited key))
        (λ _. tell handle_error)

  -- The first loop of `handleObject`: machines without a node reference are queued.
  unfoldable pub enqueue_unassigned : List Machine → Act Call (Unit {0})
  enqueue_unassigned [] = pure tt
  enqueue_unassigned (m ∷ machines) =
      let rest = enqueue_unassigned machines in
      (if is_some m.status.node_ref then pure tt else enqueue_machine m) >> rest

  -- The second loop: the first machine with the UID is queued.
  unfoldable pub enqueue_owner : String → List Machine → Act Call (Unit {0})
  enqueue_owner uid [] = pure tt
  enqueue_owner uid (m ∷ machines) =
      let rest = enqueue_owner uid machines in if m.uid == uid then enqueue_machine m else rest

  unfoldable pub handle_meta : ObjectMeta → Act Call (Unit {0})
  handle_meta meta =
      attempt (call list_machine_objects c.machines)
        (λ machines.
          (if is_some (lookup node_owner_label meta.labels)
            then pure tt
            else enqueue_unassigned machines)
          >> enqueue_owner (index node_owner_label meta.labels) machines)
        (λ _. tell handle_error)

  unfoldable pub handle_object : Notification → Act Call (Unit {0})
  handle_object (object meta) = handle_meta meta
  handle_object (tombstone (some meta)) = handle_meta meta
  handle_object (tombstone none) = tell handle_error
  handle_object other = tell handle_error

  -- The check `valid-info-kubeconfig` of `ReadinessChecks`.
  unfoldable pub check_clusters : List ClusterEntry → Outcome (Unit {0})
  check_clusters (entry ∷ []) =
      if entry.ca_data == ""
      then Outcome.err (new_error "invalid kubeconfig: no certificate authority data was specified")
      else if entry.server == ""
      then Outcome.err (new_error "invalid kubeconfig: no server was specified")
      else Outcome.ok tt
  check_clusters _ = Outcome.err (new_error "invalid kubeconfig: no clusters found")

  unfoldable pub valid_info_kubeconfig : Act Call (Unit {0})
  valid_info_kubeconfig = do
    config ← wrap "failed to get cluster-info configmap" (query c.info_kubeconfig)
    lift (check_clusters config.clusters)
