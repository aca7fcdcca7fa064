-- ===== src/Migration/Preparation.antt =====
-- What a preparation of migrations.go that succeeds has done.
use machine_controller.Base.{◌==◌, Bool-cases, ◌≡◌, inl, inr, List, arith}
use machine_controller.Outcome.{wrap, is_not_found, ok, lift, call, ◌>>=◌}
use machine_controller.Outcome.Yields.{
  Yields, Yields-pure, Yields-raise, Yields-call, Yields-if, Yields-wrap, Yields-attempt,
  Yields-then,
}
use machine_controller.Outcome.Inversion.{>>=-eq-ok, wrap-eq-ok}
use machine_controller.Kube.{Machine}
use machine_controller.ProviderConfig.{get_config}
use machine_controller.CloudProvider.{for_provider}
use machine_controller.Migration.{OldMachine, MigrationCall, Migrator, get_cluster_machine, convert}
use machine_controller.Migration.Emission.{lift-eq-ok}
use machine_controller.Migration.Steps.{
  with_node_finalizer, with_metadata, store, ensure_cluster_v1alpha1_node_ownership, migrate_uid,
  take_over, prepare,
}

module _ (g : Migrator) (o : OldMachine) where
  -- The API answered `x` when it was to create or to update `m`.
  pub data IsStored (m x : Machine) : Type 0 where
    created : (s : List MigrationCall) → g.created_machine s m ≡ ok x → IsStored m x
    updated :
        (s : List MigrationCall) (existing : Machine)
        → g.updated_machine s (with_metadata existing m) ≡ ok x
        → IsStored m x

  store-IsStored : (m : Machine) → Yields (IsStored m) (store g m)
  unfolding store
  store-IsStored m =
      Yields-attempt (call (get_cluster_machine m.namespace m.name) _) _ _
        (λ existing.
          Yields-if (g.equal_specs m.spec existing.spec) _ _
            (λ _. Yields-wrap _ _ (Yields-call _ _ (λ s x e. updated s existing e)))
            (λ _. Yields-raise _))
        (λ e.
          Yields-if (is_not_found e) _ _
            (λ _. Yields-wrap _ _ (Yields-call _ _ (λ s x e. created s e))) (λ _. Yields-raise _))

  ownership-finalizers :
      (m : Machine)
      → Yields (λ n. n.finalizers ≡ m.finalizers) (ensure_cluster_v1alpha1_node_ownership g m)
  unfolding ensure_cluster_v1alpha1_node_ownership
  ownership-finalizers m = Yields-then _ _ (
      Yields-pure _ (elim (Bool-cases (m.spec.name == "")) [
        | inl e ↦ ground (arith, e)
        | inr e ↦ ground (arith, e)
      ]))

  -- What a preparation that succeeds has done.
  pub record HasTakenOver (converted : Machine) : Type 0 where
    pub stored : Machine
    pub is_stored : IsStored (with_node_finalizer converted) stored
    pub named : Machine
    pub is_named : named.finalizers ≡ stored.finalizers
    pub log : List MigrationCall
    pub is_migrated : (migrate_uid g o named log).0 ≡ ok tt

  take_over-eq-ok :
      (m : Machine) (s : List MigrationCall)
      → (take_over g o (with_node_finalizer m) s).0 ≡ ok tt
      → HasTakenOver m
  unfolding take_over
  take_over-eq-ok m s h =
      let (stored, e, rest) =
        >>=-eq-ok (store g (with_node_finalizer m))
          (λ stored. ensure_cluster_v1alpha1_node_ownership g stored >>= λ n. migrate_uid g o n) s
          tt h in
      let (n, k, rest) =
        >>=-eq-ok (ensure_cluster_v1alpha1_node_ownership g stored) (λ n. migrate_uid g o n) _ tt
          rest in
      record {
        stored = stored;
        is_stored = (store-IsStored (with_node_finalizer m)).at s stored e;
        named = n;
        is_named = (ownership-finalizers stored).at _ n k;
        log = _;
        is_migrated = rest;
      }

  pub prepare-eq-ok :
      (s : List MigrationCall)
      → (prepare g o s).0 ≡ ok tt
      → (m : Machine) × (convert g o ≡ ok m) × HasTakenOver m
  unfolding prepare
  prepare-eq-ok s h =
      let (m, converted, rest) =
        >>=-eq-ok (wrap "failed to convert machine" (lift (convert g o)))
          (λ m.
            wrap "failed to get provider config"
              (lift (get_config g.parse_config m.spec.provider_spec))
            >>= λ config.
                wrap "failed to get cloud provider" (lift (for_provider config.cloud_provider))
                >>= λ provider. take_over g o (with_node_finalizer m))
          s tt h in
      let (config, _, rest) =
        >>=-eq-ok
          (wrap "failed to get provider config"
            (lift (get_config g.parse_config m.spec.provider_spec)))
          (λ config.
            wrap "failed to get cloud provider" (lift (for_provider config.cloud_provider))
            >>= λ provider. take_over g o (with_node_finalizer m))
          _ tt rest in
      let (_, _, rest) =
        >>=-eq-ok (wrap "failed to get cloud provider" (lift (for_provider config.cloud_provider)))
          (λ provider. take_over g o (with_node_finalizer m)) _ tt rest in
      (
        m,
        lift-eq-ok _ s m (wrap-eq-ok _ (lift (convert g o)) s m converted),
        take_over-eq-ok m _ rest,
      )
