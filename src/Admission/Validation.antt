-- ===== src/Admission/Validation.antt =====
-- What the webhooks of machines.go and machinedeployments.go have validated.
use mathlib.Core.Path.{subst}
use machine_controller.Base.{
  String, ◌≡◌, refl, sym, ap, ◌∙◌, Bool, true, false, Bool-cases, List, [], ◌∷◌, ◌⊎◌, inl, inr,
  ◌==◌, arith,
}
use machine_controller.Outcome.{Outcome, ok, err, panicked, pure, lift, call, wrap, ◌>>=◌, ◌>>◌}
use machine_controller.Outcome.Inversion.{>>=-eq-ok, >>-eq-ok, wrap-eq-ok, wrap-log}
use machine_controller.Kube.{Machine, MachineSpec}
use machine_controller.Kube.Cluster.{ProviderConfig}
use machine_controller.ProviderConfig.{get_config}
use machine_controller.CloudProvider.{for_provider}
use machine_controller.Admission.Deployments.{
  FieldError, DeploymentSpec, validate_machine_deployment,
}
use machine_controller.Admission.Machines.{
  is_create, is_update, Request, Question, WebhookSources, mutated, validate_created, refuse,
  validate_if, mutate_machines, add_defaults, validate, check_spec, validate_defaulted,
  default_and_validate_machine_spec, validate_public_keys, needs_validation, admit_deployment,
  mutate_machine_deployments,
}
use machine_controller.Admission.Immutability.{accepted_parts, lift-eq-ok, pure-eq-ok, ok-pair-eq}

-- A spec whose configuration reads, whose provider and operating system are known, whose kubelet
-- version is set, whose keys are valid, and whose defaulted version the provider found valid.
abbrev pub IsValidated : WebhookSources → MachineSpec → Type 0
IsValidated r spec =
    (config : ProviderConfig) × (provider : String) × (defaulted : MachineSpec) × (s : List
      Question)
    × (get_config r.parse_config spec.provider_spec ≡ ok config)
    × (for_provider config.cloud_provider ≡ ok provider)
    × (r.plugin_for_os config.operating_system ≡ ok tt)
    × ((spec.kubelet_version == "") ≡ false)
    × (validate_public_keys r config.ssh_public_keys ≡ ok tt)
    × (r.defaulted s provider spec ≡ ok defaulted)
    × (r.validated (add_defaults provider spec ∷ s) provider defaulted ≡ ok tt)

module _ {A : Type 0} where
  call-eq-ok :
      (q : Question) (f : List Question → Outcome A) (s : List Question) (a : A)
      → (call q f s).0 ≡ ok a
      → f s ≡ ok a
  unfolding ◌>>=◌
  call-eq-ok q f s a h = h

  wrap-call-log :
      (text : String) (q : Question) (f : List Question → Outcome A) (s : List Question)
      → (wrap text (call q f) s).1 ≡ q ∷ s
  unfolding ◌>>=◌
  wrap-call-log text q f s = wrap-log text (call q f) s

module _ (r : WebhookSources) where
  check_spec-accepts :
      (config : ProviderConfig) (spec : MachineSpec) (s : List Question)
      → (check_spec r config spec s).0 ≡ ok tt
      → (r.plugin_for_os config.operating_system ≡ ok tt)
        × ((spec.kubelet_version == "") ≡ false)
        × (validate_public_keys r config.ssh_public_keys ≡ ok tt)
  unfolding check_spec ◌>>=◌ ◌>>◌ wrap
  check_spec-accepts config spec s h =
      go (r.plugin_for_os config.operating_system) (validate_public_keys r config.ssh_public_keys)
        refl refl
    where
      go :
          (p k : Outcome (Unit {0}))
          → r.plugin_for_os config.operating_system ≡ p
          → validate_public_keys r config.ssh_public_keys ≡ k
          → (r.plugin_for_os config.operating_system ≡ ok tt)
            × ((spec.kubelet_version == "") ≡ false)
            × (validate_public_keys r config.ssh_public_keys ≡ ok tt)
      go p k d e = ground (arith, d, e, h)

  validate_defaulted-accepts :
      (provider : String) (spec : MachineSpec) (s : List Question)
      → (validate_defaulted r provider spec s).0 ≡ ok tt
      → (defaulted : MachineSpec) × (r.defaulted s provider spec ≡ ok defaulted)
        × (r.validated (add_defaults provider spec ∷ s) provider defaulted ≡ ok tt)
  unfolding validate_defaulted
  validate_defaulted-accepts provider spec s h =
      let (d, defaults, rest) =
        >>=-eq-ok
          (wrap "failed to default machineSpec"
            (call (add_defaults provider spec) (λ s. r.defaulted s provider spec)))
          (λ d.
            wrap "validation failed" (call (validate provider d) (λ s. r.validated s provider d)))
          s tt h in
      (
        d,
        call-eq-ok _ _ s d (wrap-eq-ok "failed to default machineSpec" (call _ _) s d defaults),
        call-eq-ok _ _ _ tt (
            wrap-eq-ok "validation failed" (call _ _) (add_defaults provider spec ∷ s) tt (
              subst
                (λ t.
                  (wrap "validation failed"
                    (call (validate provider d) (λ s. r.validated s provider d)) t).0
                  ≡ ok tt)
                (wrap-call-log "failed to default machineSpec" (add_defaults provider spec)
                  (λ s. r.defaulted s provider spec) s)
                rest)),
      )

  default_and_validate_machine_spec-IsValidated :
      (spec : MachineSpec) (s : List Question)
      → (default_and_validate_machine_spec r spec s).0 ≡ ok tt
      → IsValidated r spec
  unfolding default_and_validate_machine_spec
  default_and_validate_machine_spec-IsValidated spec s h =
      let (config, configured, rest) =
        >>=-eq-ok
          (wrap "failed to read machine.spec.providerSpec"
            (lift (get_config r.parse_config spec.provider_spec)))
          (λ config.
            wrap "failed to get cloud provider" (lift (for_provider config.cloud_provider))
            >>= λ provider. check_spec r config spec >> validate_defaulted r provider spec)
          s tt h in
      let (provider, provided, rest) =
        >>=-eq-ok (wrap "failed to get cloud provider" (lift (for_provider config.cloud_provider)))
          (λ provider. check_spec r config spec >> validate_defaulted r provider spec) _ tt rest in
      let (checked, rest) =
        >>-eq-ok (check_spec r config spec) (validate_defaulted r provider spec) _ tt rest in
      let (system, version, keys) = check_spec-accepts config spec _ checked in
      let (defaulted, defaults, valid) = validate_defaulted-accepts provider spec _ rest in
      (
        config,
        provider,
        defaulted,
        _,
        lift-eq-ok _ _ _ (
            wrap-eq-ok "failed to read machine.spec.providerSpec"
              (lift (get_config r.parse_config spec.provider_spec)) _ _ configured),
        lift-eq-ok _ _ _ (
            wrap-eq-ok "failed to get cloud provider" (lift (for_provider config.cloud_provider)) _
              _ provided),
        system,
        version,
        keys,
        defaults,
        valid,
      )

  needs_validation-unneeded :
      (request : Request) (d : DeploymentSpec) (s : List Question)
      → (needs_validation r request d s).0 ≡ ok false
      → (is_update request.operation ≡ true)
        × (old : DeploymentSpec) × (r.decode_deployment request.old_raw ≡ ok old)
        × (r.equal_specs old.template_spec d.template_spec ≡ true)
  unfolding needs_validation ◌>>=◌ wrap
  needs_validation-unneeded request d s h = go (r.decode_deployment request.old_raw) refl
    where
      go :
          (o : Outcome DeploymentSpec)
          → r.decode_deployment request.old_raw ≡ o
          → (is_update request.operation ≡ true)
            × (old : DeploymentSpec) × (r.decode_deployment request.old_raw ≡ ok old)
            × (r.equal_specs old.template_spec d.template_spec ≡ true)
      go (ok old) e = (ground (arith, h), old, e, ground (arith, e, h))
      go (err x) e = absurd (ground (arith, e, h))
      go panicked e = absurd (ground (arith, e, h))

  refuse-none :
      (errors : List FieldError) (s : List Question) → (refuse r errors s).0 ≡ ok tt → errors ≡ []
  unfolding refuse ◌>>=◌
  refuse-none errors s h = ground (arith, h)

  -- A machine that the webhook lets be created has a spec whose provider and operating system are
  -- known, whose kubelet version is set and whose keys are valid, and its provider found the spec
  -- with the provider's defaults valid.
  pub mutate_machines-validates :
      (request : Request) (s : List Question) (original m : Machine)
      → (mutate_machines r request s).0 ≡ ok (original, m)
      → is_create request.operation ≡ true
      → IsValidated r m.spec
  unfolding validate_created
  mutate_machines-validates request s original m accepted creates =
      let (changed, passed) = accepted_parts r request s original m accepted in
      let (_, _, _, s', created) = passed in
      rw changed (
        default_and_validate_machine_spec-IsValidated (mutated original).spec s'
          (ground (arith, created, creates)))

  -- A spec that was validated, or that an update left equal.
  abbrev pub IsReviewed : Request → DeploymentSpec → Type 0
  IsReviewed request d =
      IsValidated r d.template_spec
      ⊎ ((is_update request.operation ≡ true)
          × (old : DeploymentSpec) × (r.decode_deployment request.old_raw ≡ ok old)
          × (r.equal_specs old.template_spec d.template_spec ≡ true))

  admit_deployment-reviews :
      (request : Request) (s : List Question) (o d original m : DeploymentSpec)
      → (admit_deployment r request o d s).0 ≡ ok (original, m)
      → (o ≡ original)
        × (d ≡ m)
        × (validate_machine_deployment r.validators d ≡ ok [])
        × IsReviewed request d
  unfolding admit_deployment validate_if
  admit_deployment-reviews request s o d original m h =
      let (errors, found, rest) =
        >>=-eq-ok (lift (validate_machine_deployment r.validators d))
          (λ errors.
            refuse r errors
            >> (needs_validation r request d >>= λ needed. validate_if r needed d >> pure (o, d)))
          s (original, m) h in
      let (refused, rest) =
        >>-eq-ok (refuse r errors)
          (needs_validation r request d >>= λ needed. validate_if r needed d >> pure (o, d)) _
          (original, m) rest in
      let (needed, decided, rest) =
        >>=-eq-ok (needs_validation r request d) (λ needed. validate_if r needed d >> pure (o, d)) _
          (original, m) rest in
      let (valid, rest) = >>-eq-ok (validate_if r needed d) (pure (o, d)) _ (original, m) rest in
      let (same, changed) = ok-pair-eq (pure-eq-ok _ _ _ rest) in
      (
        same,
        changed,
        lift-eq-ok _ _ _ found ∙ ap ok (refuse-none errors _ refused),
        elim (Bool-cases needed) [
          | inl need ↦ inl (
              default_and_validate_machine_spec-IsValidated d.template_spec _
                (at_true needed _ need valid))
          | inr unneeded ↦ inr (needs_validation-unneeded request d _ (decided ∙ ap ok unneeded))
        ],
      )
    where
      at_true :
          (needed : Bool) (t : List Question)
          → needed ≡ true
          → (validate_if r needed d t).0 ≡ ok tt
          → (default_and_validate_machine_spec r d.template_spec t).0 ≡ ok tt
      at_true needed t e h = ground (arith, e, h)

  -- A machine deployment that the webhook lets through is the one that came with its defaults; it
  -- has no validation error; and its machine spec was validated, or an update left it equal.
  pub mutate_machine_deployments-validates :
      (request : Request) (s : List Question) (original d : DeploymentSpec)
      → (mutate_machine_deployments r request s).0 ≡ ok (original, d)
      → (d ≡ r.validators.populate_defaults original)
        × (validate_machine_deployment r.validators d ≡ ok [])
        × IsReviewed request d
  unfolding mutate_machine_deployments
  mutate_machine_deployments-validates request s original d accepted =
      let (o, _, rest) =
        >>=-eq-ok (wrap "failed to unmarshal" (lift (r.decode_deployment request.raw)))
          (λ o. admit_deployment r request o (r.validators.populate_defaults o)) s (original, d)
          accepted in
      let (same, changed, valid, reviewed) =
        admit_deployment-reviews request _ o (r.validators.populate_defaults o) original d rest in
      (
        sym changed ∙ ap r.validators.populate_defaults same,
        subst (λ x. validate_machine_deployment r.validators x ≡ ok []) changed valid,
        subst (IsReviewed request) changed reviewed,
      )
