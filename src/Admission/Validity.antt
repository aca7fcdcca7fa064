-- ===== src/Admission/Validity.antt =====
-- Which whole machine deployments the validation of machinedeployments_validation.go accepts.
use machine_controller.Base.{
  ◌+◌, ◌≡◌, sym, ◌∙◌, refl, ◌↔◌, Bool, true, false, not, Option, none, some, List, [], ◌++◌, length,
  nat_eq, StringMap, arith, eq_iff,
}
use machine_controller.Base.Int.{ℤ, is_negative}
use machine_controller.Outcome.{Outcome, ok, err, panicked}
use machine_controller.Admission.Deployments.{
  FieldError, RollingUpdate, Strategy, DeploymentSpec, Validators, single, error_if,
  rolling_update_type, validate_machine_deployment_strategy, validate_selector, validate_replicas,
  validate_machine_deployment, both,
}
use machine_controller.Admission.Acceptance.{
  append-eq-nil, error_if-eq-nil, IsUnavailable, IsSurge, MakesProgress,
  validate_machine_rolling_update_deployment-accepts,
}

module _ (v : Validators) where
  abbrev pub IsSelected : DeploymentSpec → Type 0
  IsSelected spec =
      (v.validate_label_selector spec.selector ≡ [])
      × (nat_eq (length spec.selector.match_labels + length spec.selector.match_expressions) 0
          ≡ false)
      × (matches : StringMap → Bool) × (v.as_selector spec.selector ≡ some matches)
      × (matches spec.template_labels ≡ true)

  abbrev pub IsRolling : Strategy → Type 0
  IsRolling s =
      (s.type ≡ rolling_update_type)
      × ((u : RollingUpdate)
          → s.rolling_update ≡ some u
          → IsUnavailable v u.max_unavailable × IsSurge v u.max_surge × MakesProgress v u)

  selector_iff : (spec : DeploymentSpec) → (validate_selector v spec ≡ []) ↔ IsSelected spec
  unfolding validate_selector
  selector_iff spec = (
    λ e.
        let (a, rest) = (append-eq-nil _ _).0 e in
        let (b, d) = (append-eq-nil _ _).0 rest in
        let (m, found, matched) = go (v.as_selector spec.selector) refl d in
        (a, (error_if-eq-nil _ _ _).0 b, m, found, matched),
    λ (a, b, m, found, matched). (append-eq-nil _ _).1 (
      a,
      (append-eq-nil _ _).1 ((error_if-eq-nil _ _ _).1 b, rw found (ground (arith, matched))),
    ),
  )
    where
      go :
          (o : Option (StringMap → Bool))
          → v.as_selector spec.selector ≡ o
          → (elim o [
            | none ↦ single "selector" "invalid label selector."
            | some matches ↦
                error_if
                  (not (matches spec.template_labels))
                  "template.metadata.labels"
                  "`selector` does not match template `labels`"
          ])
            ≡ []
          → (m : StringMap → Bool) × (v.as_selector spec.selector ≡ some m)
            × (m spec.template_labels ≡ true)
      go none o d = absurd (ground (arith, d))
      go (some m) o d = (m, o, ground (arith, d))

  strategy_iff :
      (s : Strategy) → (validate_machine_deployment_strategy v (some s) ≡ ok []) ↔ IsRolling s
  unfolding validate_machine_deployment_strategy
  strategy_iff s = (
    λ e. (
      (eq_iff s.type rolling_update_type).0 (ground (arith, e)),
      λ u given.
          (validate_machine_rolling_update_deployment-accepts v u).0 (ground (arith, e, given)),
    ),
    λ (rolling, accepted). go s.rolling_update refl rolling accepted,
  )
    where
      go :
          (o : Option RollingUpdate)
          → s.rolling_update ≡ o
          → s.type ≡ rolling_update_type
          → ((u : RollingUpdate)
              → s.rolling_update ≡ some u
              → IsUnavailable v u.max_unavailable × IsSurge v u.max_surge × MakesProgress v u)
          → validate_machine_deployment_strategy v (some s) ≡ ok []
      go none o rolling h = ground (arith, o, (eq_iff s.type rolling_update_type).1 rolling)
      go (some u) o rolling h = ground (
        arith,
        o,
        (eq_iff s.type rolling_update_type).1 rolling,
        (validate_machine_rolling_update_deployment-accepts v u).1 (h u o),
      )

  both_iff :
      (a b : List FieldError) (x : Outcome (List FieldError))
      → (both (ok a) (both (ok b) x) ≡ ok []) ↔ ((a ≡ []) × (b ≡ []) × (x ≡ ok []))
  both_iff a b (ok d) = (
    λ e.
        let (p, q) = (append-eq-nil a (b ++ d)).0 (ground (arith, e)) in
        let (q, r) = (append-eq-nil b d).0 q in (p, q, cc),
    λ (p, q, r). rw (p, q) r,
  )
  both_iff a b (err f) = (λ e. absurd (ground (arith, e)), λ (p, q, r). absurd (ground (arith, r)))
  both_iff a b panicked = (λ e. absurd (ground (arith, e)), λ (p, q, r). absurd (ground (arith, r)))

  deployment_at :
      (spec : DeploymentSpec) (n : ℤ) (s : Strategy)
      → spec.replicas ≡ some n
      → spec.strategy ≡ some s
      → validate_machine_deployment v spec
        ≡ both
            (ok (validate_selector v spec))
            (both (validate_replicas v (some n)) (validate_machine_deployment_strategy v (some s)))
  unfolding validate_machine_deployment
  deployment_at spec n s replicas strategy i = both (ok (validate_selector v spec)) (
      both (validate_replicas v (replicas i)) (validate_machine_deployment_strategy v (strategy i)))

  -- A machine deployment whose replicas and strategy are set is accepted if and only if its
  -- selector is valid, not empty and matches the labels of the template, the replicas are not
  -- negative, and the strategy is `RollingUpdate` with a rolling update that is absent or has an
  -- acceptable `maxUnavailable` and `maxSurge`, not both of them zero.
  pub validate_machine_deployment-accepts :
      (spec : DeploymentSpec) (n : ℤ) (s : Strategy)
      → spec.replicas ≡ some n
      → spec.strategy ≡ some s
      → (validate_machine_deployment v spec ≡ ok [])
        ↔ (IsSelected spec × (is_negative n ≡ false) × IsRolling s)
  unfolding validate_machine_deployment validate_replicas
  validate_machine_deployment-accepts spec n s replicas strategy =
      let computed = deployment_at spec n s replicas strategy in
      (
        λ e.
            let (a, b, d) = (both_iff _ _ _).0 (sym computed ∙ e) in
            ((selector_iff spec).0 a, (error_if-eq-nil _ _ _).0 b, (strategy_iff s).0 d),
        λ (a, b, d).
            computed
            ∙ (both_iff _ _ _).1
                ((selector_iff spec).1 a, (error_if-eq-nil _ _ _).1 b, (strategy_iff s).1 d),
      )
