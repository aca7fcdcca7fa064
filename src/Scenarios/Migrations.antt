-- ===== src/Scenarios/Migrations.antt =====
-- The migration of one old machine.
use mathlib.Core.Path.{subst}
use mathlib.Core.List.{Mem, mem-cons_self}
use machine_controller.Base.{◌≡◌, refl, sym, ap, inl, true, none, List, [], ◌∷◌, arith}
use machine_controller.Outcome.{not_found, new_error, ok, err}
use machine_controller.Outcome.Emits.{Emits}
use machine_controller.Outcome.Yields.{ok-inj}
use machine_controller.Kube.{Machine}
use machine_controller.Kube.Cluster.{attempts, polls}
use machine_controller.Migration.{
  OldMachine, MigrationCall, provider_migrate_uid, Migrator, IsLawfulMigrator,
}
use machine_controller.Migration.Steps.{migrate_uid, migrate_machine, migrate_if_necessary}
use machine_controller.Migration.Emission.{keeps_old, keeps_crd, stores_finalized}
use machine_controller.Migration.Handover.{never_shown, NeverTakesOver}
use machine_controller.Migration.Safety.{
  migrate_machine-keeps_old, asked, migrate_uid-waits, migrate_if_necessary-keeps_crd,
  migrate_if_necessary-finalizes,
}
use machine_controller.Scenarios.World.{no_status, worker, worker_node, config}

abbrev old_worker : OldMachine
old_worker = record {
  namespace = "";
  name = "worker";
  uid = "0";
  labels = none;
  annotations = none;
  finalizers = "machine-delete-finalizer" ∷ [];
  pending_initializers = [];
  creation_timestamp = 0;
  deletion_timestamp = none;
  owner_references = [];
  spec = record {
    name = "worker";
    labels = [];
    annotations = [];
    taints = [];
    provider_config = "{}";
    versions = "1.12.0";
    config_source = none;
  };
  status = "{}";
}

abbrev migrator : Migrator
migrator = record {
  crd = λ _ _. ok tt;
  deleted_crd = λ _. ok tt;
  old_machines = λ _. ok (old_worker ∷ []);
  machine = λ _ _ _. err not_found;
  created_machine = λ _ m. ok (record m { uid = "1" });
  updated_machine = λ _ m. ok m;
  node = λ _ _. ok worker_node;
  updated_node = λ _ _. ok tt;
  migrated_uid = λ _ _ _. ok tt;
  found = λ _ _. err (new_error "instance not found");
  updated_old = λ _ _. ok tt;
  deleted_old = λ _ _. ok tt;
  old_machine = λ _ _. err not_found;
  convert_status = λ _. ok no_status;
  convert_versions = λ v. ok v;
  marshal_config = λ raw. ok raw;
  parse_config = λ _. ok config;
  equal_specs = λ _ _. true;
  retry = attempts 4;
  poll = polls 120;
}

migrator-IsLawfulMigrator : IsLawfulMigrator migrator
migrator-IsLawfulMigrator = record {
  retry_attempts = λ m s. (4, refl);
  poll_polls = λ m s. (120, refl);
}

-- The provider never shows an instance, and the old machine has one.
migrator-NeverTakesOver : NeverTakesOver migrator old_worker
migrator-NeverTakesOver =
    never_shown refl (λ s m x e. ap (λ (n : Machine). n.finalizers) (sym (ok-inj e)))
      (λ s m x e. ap (λ (n : Machine). n.finalizers) (sym (ok-inj e))) (λ s m e. ground (arith, e))

migrate_machine-keeps_old_example : Emits keeps_old (migrate_machine migrator old_worker)
migrate_machine-keeps_old_example =
    migrate_machine-keeps_old migrator old_worker migrator-IsLawfulMigrator migrator-NeverTakesOver

migrate_uid-waits_example : migrate_uid migrator old_worker worker [] ≡ (
  err (new_error "failed to GET instance after UID migration"),
  asked 100 worker (provider_migrate_uid (record worker { uid = "0" }) worker.uid ∷ []),
)
migrate_uid-waits_example =
    migrate_uid-waits migrator old_worker worker (λ s. (new_error "instance not found", refl)) []
      refl refl

migrator-lists :
    (s : List MigrationCall) (os : List OldMachine)
    → migrator.old_machines s ≡ ok os
    → Mem old_worker os
migrator-lists s os e = subst (Mem old_worker) (ok-inj e) mem-cons_self

migrate_if_necessary-keeps_crd_example : Emits keeps_crd (migrate_if_necessary migrator)
migrate_if_necessary-keeps_crd_example =
    migrate_if_necessary-keeps_crd migrator-IsLawfulMigrator old_worker migrator-lists
      (inl migrator-NeverTakesOver)

migrate_if_necessary-finalizes_example : Emits stores_finalized (migrate_if_necessary migrator)
migrate_if_necessary-finalizes_example = migrate_if_necessary-finalizes migrator-IsLawfulMigrator
