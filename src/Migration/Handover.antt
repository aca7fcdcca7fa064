-- ===== src/Migration/Handover.antt =====
-- Under which answers a new machine of migrations.go does not take over from the old one.
use mathlib.Core.Path.{subst}
use mathlib.Core.Logic.Or
use mathlib.Core.HLevel.{⊥_prop}
use mathlib.Core.List.{Mem, not-mem-nil, eq-or-mem_of_mem-cons}
use machine_controller.Base.{
  ◌==◌, Bool-cases, ℕ, zero, suc, String, ◌≡◌, ap, ◌∙◌, ◌≢◌, ◌⊎◌, inl, inr, true, List, [], ◌∷◌,
  ◌++◌, arith,
}
use machine_controller.Outcome.{ok, pure, call, ◌>>=◌, wrap}
use machine_controller.Outcome.Inversion.{attempt-eq-ok, >>=-eq-ok, >>-eq-ok, wrap-eq-ok}
use machine_controller.Kube.{Machine}
use machine_controller.Kube.Sets.{has}
use machine_controller.Controller.Update.{finalizer_delete_instance}
use machine_controller.Migration.{
  OldMachine, MigrationCall, list_old_machines, provider_migrate_uid, provider_find,
  update_old_machine, delete_old_machine, Migrator, convert,
}
use machine_controller.Migration.Steps.{
  with_node_finalizer, has_instance, wait_for_instance, migrate_uid,
  delete_machines_v1alpha1_machine, prepare, migrate_machine, migrate_each, migrate_machines,
}
use machine_controller.Migration.Preparation.{created, updated, prepare-eq-ok}

has-append_left : (k : String) (xs ys : List String) → has k xs ≡ true → has k (xs ++ ys) ≡ true
has-append_left k [] ys h = absurd (ground (arith, h))
has-append_left k (x ∷ xs) ys h = elim (Bool-cases (x == k)) [
  | inl e ↦ ground (arith, e)
  | inr e ↦ ground (arith, e, h, has-append_left k xs ys)
]

module _ (g : Migrator) (o : OldMachine) where
  -- The new machine of `o` does not take over: the API stores no machine of the new group, or `o`
  -- has an instance, the API stores finalizers as they are given, and the provider never shows an
  -- instance for a new machine.
  pub data NeverTakesOver : Type 0 where
    never_stored :
        ((s : List MigrationCall) (m x : Machine) → g.created_machine s m ≢ ok x)
        → ((s : List MigrationCall) (m x : Machine) → g.updated_machine s m ≢ ok x)
        → NeverTakesOver
    never_shown :
        has finalizer_delete_instance o.finalizers ≡ true
        → ((s : List MigrationCall) (m x : Machine)
            → g.created_machine s m ≡ ok x
            → x.finalizers ≡ m.finalizers)
        → ((s : List MigrationCall) (m x : Machine)
            → g.updated_machine s m ≡ ok x
            → x.finalizers ≡ m.finalizers)
        → ((s : List MigrationCall) (m : Machine) → g.found s m ≢ ok tt)
        → NeverTakesOver

  convert-finalizers : (m : Machine) → convert g o ≡ ok m → m.finalizers ≡ o.finalizers
  unfolding convert
  convert-finalizers m h = ground (arith, h)

  wait_for_instance-fails :
      (n : ℕ) (m : Machine) (s : List MigrationCall)
      → ((s' : List MigrationCall) → g.found s' m ≢ ok tt)
      → (wait_for_instance g n m s).0 ≢ ok tt
  unfolding wait_for_instance ◌>>=◌
  wait_for_instance-fails zero m s never h = cc
  wait_for_instance-fails (suc n) m s never h =
      elim (attempt-eq-ok (call (provider_find m) (λ s'. g.found s' m)) pure
        (λ _. wait_for_instance g n m) s tt h) [
          | inl (_, e, _) ↦ never s e
          | inr (_, _, k) ↦ wait_for_instance-fails n m _ never k
        ]

  migrate_uid-fails :
      (m : Machine) (s : List MigrationCall)
      → has_instance m ≡ true
      → ((s' : List MigrationCall) → g.found s' m ≢ ok tt)
      → (migrate_uid g o m s).0 ≢ ok tt
  unfolding migrate_uid
  migrate_uid-fails m s instance_ never h =
      let (_, waited) =
        >>-eq-ok
          (wrap "running the provider migration for the UID failed" (
            call (provider_migrate_uid (record m { uid = o.uid }) m.uid)
              (λ s. g.migrated_uid s (record m { uid = o.uid }) m.uid)))
          (wait_for_instance g 100 m) s tt (rw instance_ at h) in
      wait_for_instance-fails 100 m _ never waited

  pub prepare-fails : NeverTakesOver → (s : List MigrationCall) → (prepare g o s).0 ≢ ok tt
  prepare-fails (never_stored creates updates) s h =
      let (m, _, done) = prepare-eq-ok g o s h in
      elim done.is_stored [
        | created s' e ↦ creates s' _ _ e
        | updated s' existing e ↦ updates s' _ _ e
      ]
  prepare-fails (never_shown instance_ creates updates found) s h =
      let (m, converted, done) = prepare-eq-ok g o s h in
      let kept : done.stored.finalizers ≡ (with_node_finalizer m).finalizers = elim done.is_stored [
        | created s' e ↦ creates s' _ _ e
        | updated s' existing e ↦ updates s' _ _ e
      ] in
      let old : has_instance (with_node_finalizer m) ≡ true =
        has-append_left finalizer_delete_instance m.finalizers _
          (ap (has finalizer_delete_instance) (convert-finalizers m converted) ∙ instance_) in
      migrate_uid-fails done.named done.log
        (ap (has finalizer_delete_instance) (done.is_named ∙ kept) ∙ old)
        (λ s'. found s' done.named) done.is_migrated

  -- A machine whose successor does not take over, or that the API does not give up, is not migrated.
  abbrev pub IsStuck : Type 0
  IsStuck =
      NeverTakesOver
      ⊎ ((s : List MigrationCall) → g.updated_old s o.name ≢ ok tt)
      ⊎ ((s : List MigrationCall) → g.deleted_old s o.name ≢ ok tt)

  delete_old-fails :
      ((s : List MigrationCall) → g.updated_old s o.name ≢ ok tt)
        ⊎ ((s : List MigrationCall) → g.deleted_old s o.name ≢ ok tt)
      → (s : List MigrationCall) → (delete_machines_v1alpha1_machine g o.name s).0 ≢ ok tt
  unfolding delete_machines_v1alpha1_machine call
  delete_old-fails refused s h =
      let (first, rest) = >>-eq-ok (wrap _ (call (update_old_machine o.name) _)) _ s tt h in
      let (second, _) = >>-eq-ok (wrap _ (call (delete_old_machine o.name) _)) _ _ tt rest in
      elim refused [
        | inl kept ↦ kept s (wrap-eq-ok _ (call (update_old_machine o.name) _) s tt first)
        | inr kept ↦ kept _ (wrap-eq-ok _ (call (delete_old_machine o.name) _) _ tt second)
      ]

  pub migrate_machine-fails : IsStuck → (s : List MigrationCall) → (migrate_machine g o s).0 ≢ ok tt
  unfolding migrate_machine
  migrate_machine-fails stuck s h =
      let (prepared, deleted) =
        >>-eq-ok (prepare g o) (delete_machines_v1alpha1_machine g o.name) s tt h in
      elim stuck [
        | inl never ↦ prepare-fails never s prepared
        | inr refused ↦ delete_old-fails refused _ deleted
      ]

pub migrate_each-fails :
    (g : Migrator) (o : OldMachine) (os : List OldMachine)
    → IsStuck g o
    → Mem o os
    → (s : List MigrationCall) → (migrate_each g os s).0 ≢ ok tt
unfolding migrate_each
migrate_each-fails g o [] stuck listed s h = not-mem-nil listed
migrate_each-fails g o (x ∷ xs) stuck listed s h =
    let (first, rest) = >>-eq-ok (migrate_machine g x) (migrate_each g xs) s tt h in
    Or.elim ⊥_prop (eq-or-mem_of_mem-cons listed)
      (λ e. migrate_machine-fails g x (subst (IsStuck g) e stuck) s first)
      (λ there. migrate_each-fails g o xs stuck there _ rest)

pub migrate_machines-fails :
    (g : Migrator) (o : OldMachine)
    → ((s : List MigrationCall) (os : List OldMachine) → g.old_machines s ≡ ok os → Mem o os)
    → IsStuck g o
    → (s : List MigrationCall) → (migrate_machines g s).0 ≢ ok tt
unfolding migrate_machines call
migrate_machines-fails g o listed stuck s h =
    let (os, e, rest) =
      >>=-eq-ok
        (wrap "failed to list machinesV1Alpha1 machines" (call list_old_machines g.old_machines))
        (migrate_each g) s tt h in
    migrate_each-fails g o os stuck
      (listed s os (wrap-eq-ok _ (call list_old_machines g.old_machines) s os e)) _ rest
