-- ===== src/Migration/Safety.antt =====
-- What the migration of migrations.go keeps, and what it writes.
use mathlib.Core.List.{Mem}
use machine_controller.Base.{
  StringMap, has_value, find-put, ℕ, zero, suc, String, ◌≡◌, refl, true, none, some, List, [], ◌∷◌,
  ◌++◌, arith, eq_refl,
}
use machine_controller.Outcome.{Error, new_error, is_not_found, ok, err, call, ◌>>=◌, ◌>>◌, wrap}
use machine_controller.Outcome.Emits.{
  Emits, Emits-pure, Emits-raise, Emits-if, Emits-attempt, Emits-bind, Emits-bind_eq, Emits-then,
  Emits-wrap, emits_rules,
}
use machine_controller.Outcome.Inversion.{wrap-eq-ok}
use machine_controller.Kube.{Machine}
use machine_controller.Kube.Sets.{has}
use machine_controller.Controller.Update.{finalizer_delete_node}
use machine_controller.Admission.Machines.{type_revision_annotation, type_revision_current}
use machine_controller.Migration.{
  OldMachine, MigrationCall, get_crd, provider_migrate_uid, provider_find, Migrator,
  IsLawfulMigrator, revised, convert,
}
use machine_controller.Migration.Emission.{
  migrate_machines-Emits, keeps_old, keeps_crd, is_finalized, stores_finalized, prepare-Emits,
}
use machine_controller.Migration.Steps.{
  old_crd, cluster_crd, with_node_finalizer, has_instance, wait_for_instance, migrate_uid, prepare,
  migrate_machine, migrate_machines, migrate_if_necessary,
}
use machine_controller.Migration.Handover.{
  NeverTakesOver, prepare-fails, IsStuck, migrate_machines-fails,
}

module _ (g : Migrator) (o : OldMachine) where
  -- An old machine is not touched before the new one has taken over: where the API stores no new
  -- machine, or where the old machine has an instance, the API stores finalizers as they are given
  -- and the provider never shows an instance for a new machine, the migration of the machine
  -- neither takes its finalizers away nor deletes it.
  pub migrate_machine-keeps_old :
      IsLawfulMigrator g → NeverTakesOver g o → Emits keeps_old (migrate_machine g o)
  unfolding migrate_machine ◌>>◌
  migrate_machine-keeps_old l never =
      Emits-bind_eq (prepare g o) _
        (prepare-Emits l (λ e h. ground (arith, h)) o (λ _ _. refl) (λ _ _ _. refl))
        (λ s _ e. absurd (prepare-fails g o never s e))

-- The log after `n` questions for the instance of `m`.
abbrev pub asked : ℕ → Machine → List MigrationCall → List MigrationCall
asked zero m s = s
asked (suc n) m s = asked n m (provider_find m ∷ s)

module _ (g : Migrator) (o : OldMachine) (m : Machine)
    (never : (s : List MigrationCall) → (e : Error) × (g.found s m ≡ err e)) where
  wait_for_instance-asked :
      (n : ℕ) (s : List MigrationCall)
      → wait_for_instance g n m s
        ≡ (err (new_error "failed to GET instance after UID migration"), asked n m s)
  unfolding wait_for_instance ◌>>=◌
  wait_for_instance-asked zero s = refl
  wait_for_instance-asked (suc n) s =
      let (e, h) = never s in ground (arith, h, wait_for_instance-asked n (provider_find m ∷ s))

  -- Handing the instance over waits for the provider to show it: where the provider took the new
  -- UID and then answers every question for the instance with an error, `migrate_uid` asks exactly
  -- 100 times after the one request for the UID, and fails.
  pub migrate_uid-waits :
      (s : List MigrationCall)
      → has_instance m ≡ true
      → g.migrated_uid s (record m { uid = o.uid }) m.uid ≡ ok tt
      → migrate_uid g o m s ≡ (
        err (new_error "failed to GET instance after UID migration"),
        asked 100 m (provider_migrate_uid (record m { uid = o.uid }) m.uid ∷ s),
      )
  unfolding migrate_uid ◌>>=◌ ◌>>◌ wrap
  migrate_uid-waits s instance_ migrated =
      rw instance_ (rw migrated (wait_for_instance-asked 100 _))

has-append : (k : String) (xs : List String) → has k (xs ++ (k ∷ [])) ≡ true
has-append k [] = ground (arith, eq_refl k)
has-append k (x ∷ xs) = ground (arith, has-append k xs)

revised-has_value :
    (a : StringMap) → has_value type_revision_annotation type_revision_current (revised a) ≡ true
revised-has_value none = refl
revised-has_value (some a) =
    ground
      (arith, find-put type_revision_annotation type_revision_annotation type_revision_current a)

convert-revised :
    (g : Migrator) (o : OldMachine) (m : Machine)
    → convert g o ≡ ok m
    → has_value type_revision_annotation type_revision_current m.annotations ≡ true
unfolding convert
convert-revised g o m h = ground (arith, h, revised-has_value o.annotations)

with_node_finalizer-is_finalized :
    (g : Migrator) (o : OldMachine) (m : Machine)
    → convert g o ≡ ok m
    → is_finalized (with_node_finalizer m) ≡ true
with_node_finalizer-is_finalized g o m h =
    ground (arith, has-append finalizer_delete_node m.finalizers, convert-revised g o m h)

module _ {g : Migrator} (l : IsLawfulMigrator g) where
  -- The definition of the old machines stays as long as one of them is not migrated: where every
  -- list of the old machines that the API answers has `o`, and the API never accepts the update or
  -- the deletion of `o`, or stores no new machine, or `o` has an instance, the API stores finalizers
  -- as they are given and the provider never shows an instance for a new machine, the migration
  -- does not delete the definition.
  pub migrate_if_necessary-keeps_crd :
      (o : OldMachine)
      → ((s : List MigrationCall) (os : List OldMachine) → g.old_machines s ≡ ok os → Mem o os)
      → IsStuck g o
      → Emits keeps_crd (migrate_if_necessary g)
  unfolding migrate_if_necessary ◌>>◌
  migrate_if_necessary-keeps_crd o listed stuck =
      Emits-attempt (call (get_crd old_crd) (λ s. g.crd s old_crd)) _ _ (search emits_rules)
        (λ _.
          Emits-bind
            (wrap "error when checking for existence of crd"
              (call (get_crd cluster_crd) (λ s. g.crd s cluster_crd)))
            _ (search emits_rules)
            (λ _.
              Emits-bind_eq (wrap "failed to migrate machines" (migrate_machines g)) _
                (Emits-wrap _ (migrate_machines g) (
                  migrate_machines-Emits l (λ e h. ground (arith, h)) (λ _. refl) (λ _. refl)
                    (λ _ _ _. refl) (λ _ _ _ _. refl)))
                (λ s _ e. absurd (
                  migrate_machines-fails g o listed stuck s
                    (wrap-eq-ok _ (migrate_machines g) s tt e)))))
        (λ e. Emits-if (is_not_found e) _ _ (λ _. Emits-pure tt) (λ _. Emits-raise _))

  -- Every machine that the migration creates or updates in the new group has the finalizer for
  -- its node and the annotation with the current type revision.
  pub migrate_if_necessary-finalizes : Emits stores_finalized (migrate_if_necessary g)
  unfolding migrate_if_necessary
  migrate_if_necessary-finalizes =
      let machines =
        migrate_machines-Emits l {P = stores_finalized} (λ e h. ground (arith, h)) (λ _. refl)
          (λ _. refl) (λ o m h. with_node_finalizer-is_finalized g o m h)
          (λ o m x h. with_node_finalizer-is_finalized g o m h) in
      Emits-attempt (call (get_crd _) _) _ _ (search emits_rules)
        (λ _. Emits-then (wrap _ (call (get_crd _) _)) _ (search emits_rules) (
          Emits-then (wrap _ (migrate_machines g)) _ (Emits-wrap _ (migrate_machines g) machines)
            (search emits_rules)))
        (λ e. search emits_rules)
