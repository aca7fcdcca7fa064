-- ===== src/Controller/Update.antt =====
-- How machine.go writes machines and nodes: updateMachine, updateMachineError,
-- updateMachineErrorIfTerminalError, ensureDeleteFinalizerExists, updateNode.
use Prim.Native.String.{◌++◌}
use machine_controller.Base.{String, Bool, Option, some, if◌then◌else◌}
use machine_controller.Outcome.{
  Error, wrapped, is_terminal_error, Act, pure, raise, call, panic, attempt, wrap, on_option, ◌>>=◌,
}
use machine_controller.Kube.{Machine, Node}
use machine_controller.Kube.Sets.{has, insert, delete}
use machine_controller.Kube.Calls.{
  Call, get_machine_object, update_machine_object, get_api_node, update_node_object,
}
use machine_controller.Kube.Cluster.{Cluster}

abbrev pub finalizer_delete_instance : String
finalizer_delete_instance = "machine-delete-finalizer"

abbrev pub finalizer_delete_node : String
finalizer_delete_node = "machine-node-delete-finalizer"

abbrev pub has_instance_finalizer : Machine → Bool
has_instance_finalizer m = has finalizer_delete_instance m.finalizers

abbrev pub set_error : String → String → Machine → Machine
set_error reason message m = record m {
  status = record m.status { error_message = some message; error_reason = some reason };
}

module _ (c : Cluster) where
  -- The body of `updateMachine`, which is retried on conflicts.
  unfoldable pub update_machine_once : String → String → (Machine → Machine) → Act Call Machine
  update_machine_once namespace name modify =
      call (get_machine_object namespace name) (λ s. c.machine s namespace name) >>= λ current.
      if c.equal_machines current (modify current)
      then pure (modify current)
      else call (update_machine_object (modify current)) (λ s. c.updated_machine s (modify current))

  unfoldable pub update_machine : Machine → (Machine → Machine) → Act Call Machine
  update_machine machine modify =
      c.retry_machine (update_machine_once machine.namespace machine.name modify)

  unfoldable pub update_machine_error : Machine → String → String → Act Call Machine
  update_machine_error machine reason message = update_machine machine (set_error reason message)

  -- It never returns nil: the terminal error itself, or an error of no special kind.
  unfoldable pub update_machine_error_if_terminal_error :
      Machine → String → String → Error → String → Act Call (Unit {0})
  update_machine_error_if_terminal_error machine reason message e text =
      on_option (is_terminal_error e) (raise (wrapped text e)) (λ _.
        attempt (update_machine_error machine reason message) (λ _. raise e)
          (λ nested.
            raise
              (wrapped ("failed to update machine error, terminal error = " ++ message) nested)))

  abbrev pub with_delete_finalizers : Machine → Machine
  with_delete_finalizers m = record m {
    finalizers =
        c.sorted (insert finalizer_delete_node (insert finalizer_delete_instance m.finalizers));
  }

  abbrev pub without_finalizer : String → Machine → Machine
  without_finalizer finalizer m = record m { finalizers = c.sorted (delete finalizer m.finalizers) }

  unfoldable pub ensure_delete_finalizer_exists : Machine → Act Call Machine
  ensure_delete_finalizer_exists machine =
      if has_instance_finalizer machine
      then pure machine
      else wrap "failed to update machine after adding the delete instance finalizer"
          (update_machine machine with_delete_finalizers)

  -- `modify` is `none` where it writes to a nil map.
  unfoldable pub update_node : String → (Node → Option Node) → Act Call Node
  update_node name modify = c.retry_node (do
    current ← call (get_api_node name) (λ s. c.api_node s name)
    on_option (modify current) panic
        (λ changed. call (update_node_object changed) (λ s. c.updated_node s changed)))
