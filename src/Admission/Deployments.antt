-- ===== src/Admission/Deployments.antt =====
-- machinedeployments_validation.go and machinedeployments.go: the validation of a machine
-- deployment. `field.ErrorList` is a list of paths with details; following a nil pointer panics.
use machine_controller.Base.{
  ◌+◌, String, nat_eq, Bool, true, false, not, ◌&&◌, Option, none, some, List, [], ◌∷◌, ◌++◌,
  length, Pairs, StringMap, ◌==◌, if◌then◌else◌,
}
use machine_controller.Base.Int.{ℤ, pos, is_negative, is_above, is_zero}
use machine_controller.Outcome.{Outcome, ok, err, panicked}
use machine_controller.Kube.{MachineSpec}

pub record FieldError : Type 0 where
  pub path : String
  pub detail : String

-- `intstr.IntOrString`: its string, empty for a number, and its number.
pub record IntOrString : Type 0 where
  pub str_val : String
  pub int_val : ℤ

pub record RollingUpdate : Type 0 where
  pub max_unavailable : Option IntOrString
  pub max_surge : Option IntOrString

pub record Strategy : Type 0 where
  pub type : String
  pub rolling_update : Option RollingUpdate

pub record LabelSelector : Type 0 where
  pub match_labels : Pairs
  pub match_expressions : List String

pub record DeploymentSpec : Type 0 where
  pub replicas : Option ℤ
  pub selector : LabelSelector
  pub template_labels : StringMap
  pub template_spec : MachineSpec
  pub strategy : Option Strategy

-- Functions of apimachinery and cluster-api: the value of an `IntOrString` out of 100, with
-- rounding up or down, or an error; percentages; label selectors; the defaults.
pub record Validators : Type 0 where
  pub value_out_of_100 : IntOrString → Bool → Option ℤ
  pub is_valid_percent : String → Bool
  pub validate_label_selector : LabelSelector → List FieldError
  pub as_selector : LabelSelector → Option (StringMap → Bool)
  pub populate_defaults : DeploymentSpec → DeploymentSpec

abbrev pub value_or_zero : Option ℤ → ℤ
value_or_zero none = pos 0
value_or_zero (some n) = n

abbrev pub single : String → String → List FieldError
single path detail = record { path = path; detail = detail } ∷ []

abbrev pub error_if : Bool → String → String → List FieldError
error_if b path detail = if b then single path detail else []

abbrev pub rolling_update_type : String
rolling_update_type = "RollingUpdate"

-- `append` of two lists, the first computed first.
abbrev pub both : Outcome (List FieldError) → Outcome (List FieldError) → Outcome (List FieldError)
both (ok a) (ok b) = ok (a ++ b)
both (ok a) (err e) = err e
both (ok a) panicked = panicked
both (err e) _ = err e
both panicked _ = panicked

module _ (v : Validators) where
  unfoldable pub validate_positive_int_or_percent : IntOrString → String → List FieldError
  validate_positive_int_or_percent s path = elim (v.value_out_of_100 s false) [
    | none ↦ single path "value should be int(5) or percentage(5%)"
    | some x ↦ error_if (is_negative x) path "value should not be negative"
  ]

  -- The part of `validateMachineRollingUpdateDeployment` for `maxUnavailable`.
  unfoldable pub validate_max_unavailable : Option IntOrString → List FieldError
  validate_max_unavailable none = []
  validate_max_unavailable (some s) =
      validate_positive_int_or_percent s "maxUnavailable"
      ++ error_if
          (v.is_valid_percent s.str_val
            && is_above 100 (value_or_zero (v.value_out_of_100 s false)))
          "maxUnavailable" "should not be more than 100%"

  unfoldable pub validate_max_surge : Option IntOrString → List FieldError
  validate_max_surge none = []
  validate_max_surge (some s) = validate_positive_int_or_percent s "maxSurge"

  abbrev pub both_zero : RollingUpdate → Bool
  both_zero u = elim u.max_unavailable [
    | none ↦ false
    | some a ↦ elim u.max_surge [
      | none ↦ false
      | some b ↦
          is_zero (value_or_zero (v.value_out_of_100 a false))
          && is_zero (value_or_zero (v.value_out_of_100 b true))
    ]
  ]

  unfoldable pub validate_machine_rolling_update_deployment : RollingUpdate → List FieldError
  validate_machine_rolling_update_deployment u =
      validate_max_unavailable u.max_unavailable
      ++ (validate_max_surge u.max_surge
          ++ error_if (both_zero u) "maxUnavailable" "may not be 0 when `maxSurge` is 0")

  unfoldable pub validate_machine_deployment_strategy : Option Strategy → Outcome (List FieldError)
  validate_machine_deployment_strategy none = panicked
  validate_machine_deployment_strategy (some strategy) =
      if strategy.type == rolling_update_type
      then elim strategy.rolling_update [
        | none ↦ ok []
        | some u ↦ ok (validate_machine_rolling_update_deployment u)
      ]
      else ok (single "Type" "is an invalid type")

  unfoldable pub validate_selector : DeploymentSpec → List FieldError
  validate_selector spec =
      v.validate_label_selector spec.selector
      ++ (error_if
            (nat_eq (length spec.selector.match_labels + length spec.selector.match_expressions) 0)
            "selector" "empty selector is not valid for MachineSet."
          ++ elim (v.as_selector spec.selector) [
            | none ↦ single "selector" "invalid label selector."
            | some matches ↦
                error_if (not (matches spec.template_labels)) "template.metadata.labels"
                  "`selector` does not match template `labels`"
          ])

  -- `*spec.Replicas` is evaluated for the message too, also where the pointer is nil.
  unfoldable pub validate_replicas : Option ℤ → Outcome (List FieldError)
  validate_replicas none = panicked
  validate_replicas (some n) =
      ok (error_if (is_negative n) "replicas" "replicas must be specified and can not be negative")

  unfoldable pub validate_machine_deployment : DeploymentSpec → Outcome (List FieldError)
  validate_machine_deployment spec =
      both (ok (validate_selector spec)) (
        both (validate_replicas spec.replicas) (validate_machine_deployment_strategy spec.strategy))
