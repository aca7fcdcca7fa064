-- ===== src/Migration/Emission.antt =====
-- Which calls the steps of migrations.go make.
use machine_controller.Base.{
  ℕ, zero, suc, String, ◌≡◌, Bool, true, false, ◌&&◌, List, [], ◌∷◌, has_value,
}
use machine_controller.Outcome.{Outcome, ok, lift, call, wrap, ◌>>=◌}
use machine_controller.Outcome.Emits.{
  Emits, Emits-bind, Emits-bind_eq, Emits-then, Emits-attempt, Emits-pure, emits_rules,
}
use machine_controller.Outcome.Inversion.{wrap-eq-ok}
use machine_controller.Kube.{Machine}
use machine_controller.Kube.Sets.{has}
use machine_controller.Kube.Cluster.{attempts-Emits, polls-Emits}
use machine_controller.Controller.Update.{finalizer_delete_node}
use machine_controller.Admission.Machines.{type_revision_annotation, type_revision_current}
use machine_controller.Migration.{
  OldMachine, MigrationCall, Migrator, IsLawfulMigrator, convert, delete_crd, list_old_machines,
  create_cluster_machine, update_cluster_machine, provider_find, update_old_machine,
  delete_old_machine,
}
use machine_controller.Migration.Steps.{
  Step, with_node_finalizer, with_metadata, store, own_once, own_node, own_nodes,
  ensure_cluster_v1alpha1_node_ownership, wait_for_instance, migrate_uid,
  is_machines_v1alpha1_machine_deleted, delete_machines_v1alpha1_machine, take_over, prepare,
  migrate_machine, migrate_each, migrate_machines,
}

-- Calls that store no machine and delete nothing.
abbrev pub is_neutral : MigrationCall → Bool
is_neutral (create_cluster_machine _) = false
is_neutral (update_cluster_machine _) = false
is_neutral (update_old_machine _) = false
is_neutral (delete_old_machine _) = false
is_neutral (delete_crd _) = false
is_neutral _ = true

-- Calls that leave the old machines and their definition alone.
abbrev pub keeps_old : MigrationCall → Bool
keeps_old (update_old_machine _) = false
keeps_old (delete_old_machine _) = false
keeps_old (delete_crd _) = false
keeps_old _ = true

abbrev pub keeps_crd : MigrationCall → Bool
keeps_crd (delete_crd _) = false
keeps_crd _ = true

abbrev pub is_finalized : Machine → Bool
is_finalized m =
    has finalizer_delete_node m.finalizers
    && has_value type_revision_annotation type_revision_current m.annotations

-- Machines are only stored with the node finalizer and the current type revision.
abbrev pub stores_finalized : MigrationCall → Bool
stores_finalized (create_cluster_machine m) = is_finalized m
stores_finalized (update_cluster_machine m) = is_finalized m
stores_finalized _ = true

pub lift-eq-ok :
    {A : Type 0} (o : Outcome A) (s : List MigrationCall) (a : A) → (lift o s).0 ≡ ok a → o ≡ ok a
unfolding ◌>>=◌
lift-eq-ok o s a h = h

module _ {g : Migrator} (l : IsLawfulMigrator g) {P : MigrationCall → Bool}
    (neutral : (e : MigrationCall) → is_neutral e ≡ true → P e ≡ true) where
  retry-Emits : (m : Step (Unit {0})) → Emits P m → Emits P (g.retry m)
  retry-Emits m h = record {
    at = λ s. let (n, e) = l.retry_attempts m s in rw e ((attempts-Emits n m h).at s);
  }

  poll-Emits : (m : Step Bool) → Emits P m → Emits P (g.poll m)
  poll-Emits m h = record {
    at = λ s. let (n, e) = l.poll_polls m s in rw e ((polls-Emits n m h).at s);
  }

  own_node-Emits : (m : Machine) (name : String) → Emits P (own_node g m name)
  unfolding own_node own_once
  own_node-Emits m name = search (emits_rules, retry-Emits, neutral) depth 12

  own_nodes-Emits : (m : Machine) (names : List String) → Emits P (own_nodes g m names)
  unfolding own_nodes
  own_nodes-Emits m [] = search emits_rules
  own_nodes-Emits m (name ∷ names) =
      Emits-then (own_node g m name) _ (own_node-Emits m name) (own_nodes-Emits m names)

  ownership-Emits : (m : Machine) → Emits P (ensure_cluster_v1alpha1_node_ownership g m)
  unfolding ensure_cluster_v1alpha1_node_ownership
  ownership-Emits m = search (emits_rules, own_nodes-Emits)

  wait_for_instance-Emits : (n : ℕ) (m : Machine) → Emits P (wait_for_instance g n m)
  unfolding wait_for_instance
  wait_for_instance-Emits zero m = search emits_rules
  wait_for_instance-Emits (suc n) m =
      Emits-attempt (call (provider_find m) _) _ _ (search (emits_rules, neutral)) Emits-pure
        (λ _. wait_for_instance-Emits n m)

  migrate_uid-Emits : (o : OldMachine) (m : Machine) → Emits P (migrate_uid g o m)
  unfolding migrate_uid
  migrate_uid-Emits o m = search (emits_rules, neutral, wait_for_instance-Emits) depth 12

  store-Emits :
      (m : Machine)
      → P (create_cluster_machine m) ≡ true
      → ((existing : Machine) → P (update_cluster_machine (with_metadata existing m)) ≡ true)
      → Emits P (store g m)
  unfolding store
  store-Emits m creates updates = search (emits_rules, neutral, creates, updates) depth 12

  take_over-Emits :
      (o : OldMachine) (m : Machine)
      → P (create_cluster_machine m) ≡ true
      → ((existing : Machine) → P (update_cluster_machine (with_metadata existing m)) ≡ true)
      → Emits P (take_over g o m)
  unfolding take_over
  take_over-Emits o m creates updates =
      Emits-bind (store g m) _ (store-Emits m creates updates) (λ stored.
        Emits-bind (ensure_cluster_v1alpha1_node_ownership g stored) _ (ownership-Emits stored)
          (λ named. migrate_uid-Emits o named))

  pub prepare-Emits :
      (o : OldMachine)
      → ((m : Machine)
          → convert g o ≡ ok m
          → P (create_cluster_machine (with_node_finalizer m)) ≡ true)
      → ((m existing : Machine)
          → convert g o ≡ ok m
          → P (update_cluster_machine (with_metadata existing (with_node_finalizer m))) ≡ true)
      → Emits P (prepare g o)
  unfolding prepare
  prepare-Emits o creates updates =
      Emits-bind_eq (wrap "failed to convert machine" (lift (convert g o))) _ (search emits_rules)
        (λ s m e.
          let converted = lift-eq-ok _ s m (wrap-eq-ok _ (lift (convert g o)) s m e) in
          Emits-bind (wrap _ (lift _)) _ (search emits_rules) (λ config.
            Emits-bind (wrap _ (lift _)) _ (search emits_rules) (λ provider.
              take_over-Emits o (with_node_finalizer m) (creates m converted)
                (λ x. updates m x converted))))

  module _ (updates_old : (name : String) → P (update_old_machine name) ≡ true)
      (deletes_old : (name : String) → P (delete_old_machine name) ≡ true) where
    delete_old-Emits : (name : String) → Emits P (delete_machines_v1alpha1_machine g name)
    unfolding delete_machines_v1alpha1_machine is_machines_v1alpha1_machine_deleted
    delete_old-Emits name =
        search (emits_rules, neutral, poll-Emits, updates_old, deletes_old) depth 12

    module _
        (creates : (o : OldMachine) (m : Machine)
          → convert g o ≡ ok m
          → P (create_cluster_machine (with_node_finalizer m)) ≡ true)
        (updates : (o : OldMachine) (m existing : Machine)
          → convert g o ≡ ok m
          → P (update_cluster_machine (with_metadata existing (with_node_finalizer m)))
            ≡ true) where
      migrate_each-Emits : (os : List OldMachine) → Emits P (migrate_each g os)
      unfolding migrate_each migrate_machine
      migrate_each-Emits [] = search emits_rules
      migrate_each-Emits (o ∷ os) =
          Emits-then (migrate_machine g o) _
            (Emits-then (prepare g o) _ (prepare-Emits o (creates o) (updates o))
              (delete_old-Emits o.name))
            (migrate_each-Emits os)

      pub migrate_machines-Emits : Emits P (migrate_machines g)
      unfolding migrate_machines
      migrate_machines-Emits =
          Emits-bind (wrap _ (call list_old_machines g.old_machines)) _
            (search (emits_rules, neutral)) migrate_each-Emits
