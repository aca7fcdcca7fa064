-- ===== src/Controller/Lifecycle.antt =====
-- What a reconciliation of machine.go may do to instances and nodes, and when.
use machine_controller.Base.{
  sym, ◌∙◌, ◌⊎◌, inl, inr, ◌≡◌, ◌≢◌, refl, Bool, true, not, ◌&&◌, none, List, arith,
}
use machine_controller.Outcome.{instance_not_found, err}
use machine_controller.Outcome.Emits.{Emits}
use machine_controller.Kube.{Machine}
use machine_controller.Kube.Calls.{Call, is_benign, is_evict, is_create, is_cleanup, is_delete_node}
use machine_controller.Kube.Cluster.{Cluster, IsLawful}
use machine_controller.Controller.Update.{has_instance_finalizer}
use machine_controller.Controller.Delete.{delete_machine}
use machine_controller.Controller.Sync.{default_name, sync}
use machine_controller.Controller.Emission.{
  delete_node_for_machine-Emits, sync_present-Emits, create_instance-Emits, delete_machine-Emits,
  sync_named-Emits,
}

abbrev pub keeps_nodes : Call → Bool
keeps_nodes e = not (is_delete_node e)

abbrev pub creates_nothing : Call → Bool
creates_nothing e = not (is_create e)

-- No pod is evicted, no instance is cleaned up and no node is deleted.
abbrev pub removes_nothing : Call → Bool
removes_nothing e = not (is_evict e) && (not (is_cleanup e) && not (is_delete_node e))

keeps_nodes-benign : (e : Call) → is_benign e ≡ true → keeps_nodes e ≡ true
keeps_nodes-benign e h = ground arith

keeps_nodes-evict : (e : Call) → is_evict e ≡ true → keeps_nodes e ≡ true
keeps_nodes-evict e h = ground arith

keeps_nodes-cleanup : (e : Call) → is_cleanup e ≡ true → keeps_nodes e ≡ true
keeps_nodes-cleanup e h = ground arith

creates_nothing-benign : (e : Call) → is_benign e ≡ true → creates_nothing e ≡ true
creates_nothing-benign e h = ground arith

creates_nothing-evict : (e : Call) → is_evict e ≡ true → creates_nothing e ≡ true
creates_nothing-evict e h = ground arith

creates_nothing-cleanup : (e : Call) → is_cleanup e ≡ true → creates_nothing e ≡ true
creates_nothing-cleanup e h = ground arith

creates_nothing-delete_node : (e : Call) → is_delete_node e ≡ true → creates_nothing e ≡ true
creates_nothing-delete_node e h = ground arith

removes_nothing-benign : (e : Call) → is_benign e ≡ true → removes_nothing e ≡ true
removes_nothing-benign e h = ground arith

removes_nothing-create : (e : Call) → is_create e ≡ true → removes_nothing e ≡ true
removes_nothing-create e h = ground arith

module _ {c : Cluster} (l : IsLawful c) (m : Machine) where
  -- While the machine has the finalizer that stands for its instance, `deleteMachine` deletes no
  -- node, whatever the cloud provider and the API server answer.
  pub delete_machine-keeps_nodes :
      has_instance_finalizer m ≡ true → Emits keeps_nodes (delete_machine c m)
  delete_machine-keeps_nodes finalized =
      delete_machine-Emits l keeps_nodes-benign keeps_nodes-evict keeps_nodes-cleanup m
        (λ gone. cc (finalized, gone))

  delete_machine-creates_nothing : Emits creates_nothing (delete_machine c m)
  delete_machine-creates_nothing =
      delete_machine-Emits l creates_nothing-benign creates_nothing-evict creates_nothing-cleanup m
        (λ gone.
          delete_node_for_machine-Emits l creates_nothing-benign creates_nothing-delete_node m)

deletion-default_name : (m : Machine) → (default_name m).deletion_timestamp ≡ m.deletion_timestamp
deletion-default_name m = ground arith

-- A machine without a deletion timestamp loses nothing: a reconciliation of it evicts no pod,
-- cleans up no instance and deletes no node.
pub sync-removes_nothing :
    {c : Cluster} (l : IsLawful c) (m : Machine)
    → m.deletion_timestamp ≡ none
    → Emits removes_nothing (sync c m)
unfolding sync
sync-removes_nothing {c} l m present =
    let n = default_name m in
    sync_named-Emits l removes_nothing-benign n
      (λ t deleting. ground (arith, deletion-default_name m))
      (λ config _.
        sync_present-Emits l removes_nothing-benign (λ _ _. refl) n config
          (λ s missing. create_instance-Emits l removes_nothing-benign removes_nothing-create n))

-- An instance is created only for a machine that is not to be deleted, and only when the cloud
-- provider has answered that there is none: where a machine has a deletion timestamp, or the
-- provider never answers so for it, a reconciliation creates no instance.
pub sync-creates_nothing :
    {c : Cluster} (l : IsLawful c) (m : Machine)
    → (m.deletion_timestamp ≢ none)
      ⊎ ((s : List Call) → c.instance_of s (default_name m) ≢ err instance_not_found)
    → Emits creates_nothing (sync c m)
unfolding sync
sync-creates_nothing {c} l m (inl deleted) =
    let n = default_name m in
    sync_named-Emits l creates_nothing-benign n (λ t _. delete_machine-creates_nothing l n)
      (λ config present. absurd (deleted (sym (deletion-default_name m) ∙ present)))
sync-creates_nothing {c} l m (inr there) =
    let n = default_name m in
    sync_named-Emits l creates_nothing-benign n (λ t _. delete_machine-creates_nothing l n)
      (λ config _.
        sync_present-Emits l creates_nothing-benign (λ _ _. refl) n config
          (λ s missing. absurd (there s missing)))
