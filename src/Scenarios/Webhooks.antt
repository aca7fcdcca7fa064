-- ===== src/Scenarios/Webhooks.antt =====
-- Requests to the webhooks.
use machine_controller.Base.{
  String, ◌≢◌, ◌≡◌, refl, true, false, none, some, [], ◌∷◌, ◌↔◌, lookup, is_some, ◌==◌,
}
use machine_controller.Base.Int.{pos, is_negative}
use machine_controller.Outcome.{Error, ok, err, Act, ◌>>=◌, ◌>>◌, wrap}
use machine_controller.Kube.{Machine}
use machine_controller.ProviderConfig.{get_config}
use machine_controller.CloudProvider.{for_provider}
use machine_controller.Admission.Deployments.{
  IntOrString, RollingUpdate, Strategy, LabelSelector, DeploymentSpec, Validators,
  validate_machine_rolling_update_deployment, validate_machine_deployment, validate_selector,
  validate_replicas, validate_machine_deployment_strategy, validate_max_unavailable,
  validate_max_surge, validate_positive_int_or_percent,
}
use machine_controller.Admission.Acceptance.{
  IsUnavailable, IsSurge, MakesProgress, validate_machine_rolling_update_deployment-accepts,
}
use machine_controller.Admission.Validity.{
  IsSelected, IsRolling, validate_machine_deployment-accepts,
}
use machine_controller.Admission.Machines.{
  Question, bypass_annotation, type_revision_annotation, create, update, Request, WebhookSources,
  mutated, mutate_machines, check_immutable, validate_created, default_and_validate_machine_spec,
  check_spec, validate_defaulted, validate_public_keys, mutate_machine_deployments,
  admit_deployment, refuse, needs_validation, validate_if,
}
use machine_controller.Admission.Immutability.{
  IsUnchanged, kept_revision, mutate_machines-immutable, mutate_machines-changes,
}
use machine_controller.Admission.Validation.{
  IsValidated, IsReviewed, mutate_machines-validates, mutate_machine_deployments-validates,
}
use machine_controller.Admission.Review.{
  Response, HttpRequest, Patcher, respond, admission_executor, handle,
}
use machine_controller.Admission.Answers.{IsAnswered, handle-IsAnswered}
use machine_controller.Scenarios.World.{worker, worker_spec, config}

abbrev one : IntOrString
one = record { str_val = ""; int_val = pos 1 }

abbrev rolling : RollingUpdate
rolling = record { max_unavailable = some one; max_surge = none }

abbrev strategy : Strategy
strategy = record { type = "RollingUpdate"; rolling_update = some rolling }

abbrev selector : LabelSelector
selector = record { match_labels = ("role", "worker") ∷ []; match_expressions = [] }

abbrev deployment : DeploymentSpec
deployment = record {
  replicas = some (pos 3);
  selector = selector;
  template_labels = some (("role", "worker") ∷ []);
  template_spec = worker_spec;
  strategy = some strategy;
}

abbrev validators : Validators
validators = record {
  value_out_of_100 = λ i _. some i.int_val;
  is_valid_percent = λ _. false;
  validate_label_selector = λ _. [];
  as_selector = λ _. some (λ labels. is_some (lookup "role" labels));
  populate_defaults = λ d. d;
}

abbrev webhook_sources : WebhookSources
webhook_sources = record {
  decode_machine = λ _. ok worker;
  decode_deployment = λ _. ok deployment;
  equal_specs = λ a b. a.name == b.name;
  parse_config = λ _. ok config;
  parse_authorized_key = λ _. ok tt;
  plugin_for_os = λ _. ok tt;
  defaulted = λ _ _ spec. ok spec;
  validated = λ _ _ _. ok tt;
  validators = validators;
}

abbrev creation : Request
creation = record { operation = create; raw = "{}"; old_raw = "" }

abbrev change : Request
change = record { operation = update; raw = "{}"; old_raw = "{}" }

validate_machine_rolling_update_deployment-accepts_example :
    (validate_machine_rolling_update_deployment validators rolling ≡ []) ↔ (
      IsUnavailable validators rolling.max_unavailable
      × IsSurge validators rolling.max_surge
      × MakesProgress validators rolling)
validate_machine_rolling_update_deployment-accepts_example =
    validate_machine_rolling_update_deployment-accepts validators rolling

validate_machine_deployment-accepts_example :
    (validate_machine_deployment validators deployment ≡ ok []) ↔ (
      IsSelected validators deployment
      × (is_negative (pos 3) ≡ false)
      × IsRolling validators strategy)
validate_machine_deployment-accepts_example =
    validate_machine_deployment-accepts validators deployment (pos 3) strategy refl refl

change_accepted : (mutate_machines webhook_sources change []).0 ≡ ok (worker, mutated worker)
unfolding mutate_machines check_immutable validate_created ◌>>=◌ ◌>>◌ wrap
change_accepted = refl

creation_accepted : (mutate_machines webhook_sources creation []).0 ≡ ok (worker, mutated worker)
unfolding mutate_machines check_immutable validate_created default_and_validate_machine_spec
    check_spec validate_defaulted validate_public_keys get_config for_provider ◌>>=◌ ◌>>◌ wrap
creation_accepted = refl

deployment_accepted :
    (mutate_machine_deployments webhook_sources creation []).0 ≡ ok (deployment, deployment)
unfolding mutate_machine_deployments admit_deployment refuse needs_validation validate_if
    validate_machine_deployment validate_selector validate_replicas
    validate_machine_deployment_strategy validate_machine_rolling_update_deployment
    validate_max_unavailable validate_max_surge validate_positive_int_or_percent
    default_and_validate_machine_spec check_spec validate_defaulted validate_public_keys get_config
    for_provider ◌>>=◌ ◌>>◌ wrap
deployment_accepted = refl

mutate_machines-immutable_example : IsUnchanged webhook_sources change worker
mutate_machines-immutable_example =
    mutate_machines-immutable webhook_sources change [] worker (mutated worker) change_accepted refl

mutate_machines-changes_example :
    (webhook_sources.decode_machine "{}" ≡ ok worker)
    × (mutated worker
        ≡ record worker { annotations = (mutated worker).annotations; spec = worker_spec })
    × (lookup bypass_annotation (mutated worker).annotations ≡ none)
    × (lookup type_revision_annotation (mutated worker).annotations
        ≡ some (kept_revision worker.annotations))
    × ((k : String)
        → k ≢ bypass_annotation
        → k ≢ type_revision_annotation
        → lookup k (mutated worker).annotations ≡ lookup k worker.annotations)
mutate_machines-changes_example =
    mutate_machines-changes webhook_sources change [] worker (mutated worker) change_accepted

mutate_machines-validates_example : IsValidated webhook_sources (mutated worker).spec
mutate_machines-validates_example =
    mutate_machines-validates webhook_sources creation [] worker (mutated worker) creation_accepted
      refl

mutate_machine_deployments-validates_example :
    (deployment ≡ webhook_sources.validators.populate_defaults deployment)
    × (validate_machine_deployment webhook_sources.validators deployment ≡ ok [])
    × IsReviewed webhook_sources creation deployment
mutate_machine_deployments-validates_example =
    mutate_machine_deployments-validates webhook_sources creation [] deployment deployment
      deployment_accepted

abbrev patcher : Patcher Machine
patcher = record { equal = λ _ _. false; json_patch = λ _ _. ok "[]" }

abbrev machines_hook : Request → Act Question Response
machines_hook = respond patcher (mutate_machines webhook_sources)

abbrev post : HttpRequest
post = record { body = some "{}"; content_type = "application/json" }

handle-IsAnswered_example :
    ((response : Response)
      → handle ok (λ _. ok creation) machines_hook post [] ≡ ok response
      → response.allowed ≡ true
      → IsAnswered ok (λ _. ok creation) machines_hook post response)
    × ((e : Error)
        → (admission_executor ok (λ _. ok creation) machines_hook post []).0 ≡ err e
        → handle ok (λ _. ok creation) machines_hook post []
          ≡ ok (record { allowed = false; patch = none; message = some e }))
handle-IsAnswered_example = handle-IsAnswered ok (λ _. ok creation) machines_hook post []
