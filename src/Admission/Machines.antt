-- ===== src/Admission/Machines.antt =====
-- pkg/admission/machines.go and machinedeployments.go: the mutating webhooks, up to the response.
use machine_controller.Base.{
  String, Bool, true, false, not, ◌&&◌, none, some, List, [], ◌∷◌, is_some, drop_key, put, lookup,
  index, StringMap, ◌==◌, if◌then◌else◌,
}
use machine_controller.Outcome.{
  wrapped, new_error, Outcome, ok, err, Act, pure, raise, lift, call, wrap, ◌>>=◌, ◌>>◌,
}
use machine_controller.Kube.{Machine, MachineSpec}
use machine_controller.Kube.Cluster.{ProviderConfig}
use machine_controller.CloudProvider.{for_provider}
use machine_controller.ProviderConfig.{get_config}
use machine_controller.Admission.Deployments.{
  Validators, DeploymentSpec, FieldError, validate_machine_deployment,
}

abbrev pub bypass_annotation : String
bypass_annotation = "kubermatic.io/bypass-no-spec-mutation-requirement"

abbrev pub type_revision_annotation : String
type_revision_annotation = "machine-controller/machine-type-revision"

abbrev pub type_revision_current : String
type_revision_current = "c63bf6f67ab631a449b6eb76dfe29458441051e0"

pub data Operation : Type 0 where
  create update delete connect : Operation

abbrev pub is_update : Operation → Bool
is_update update = true
is_update _ = false

abbrev pub is_create : Operation → Bool
is_create create = true
is_create _ = false

-- The request of an admission review, with the JSON of the object and of the old object.
pub record Request : Type 0 where
  pub operation : Operation
  pub raw : String
  pub old_raw : String

-- What a provider, named first, is asked.
pub data Question : Type 0 where
  add_defaults validate : String → MachineSpec → Question

-- The JSON and comparison functions of the libraries, `ssh.ParseAuthorizedKey`, the user-data
-- plugins, and the providers. A machine deployment is its spec.
pub record WebhookSources : Type 0 where
  pub decode_machine : String → Outcome Machine
  pub decode_deployment : String → Outcome DeploymentSpec
  pub equal_specs : MachineSpec → MachineSpec → Bool
  pub parse_config : String → Outcome ProviderConfig
  pub parse_authorized_key : String → Outcome (Unit {0})
  pub plugin_for_os : String → Outcome (Unit {0})
  pub defaulted : List Question → String → MachineSpec → Outcome MachineSpec
  pub validated : List Question → String → MachineSpec → Outcome (Unit {0})
  pub validators : Validators

abbrev pub without_bypass : StringMap → StringMap
without_bypass none = none
without_bypass (some m) = some (drop_key bypass_annotation m)

abbrev pub with_revision : StringMap → StringMap
with_revision none = some (put type_revision_annotation type_revision_current [])
with_revision (some m) =
    if is_some (lookup type_revision_annotation (some m))
    then some m
    else some (put type_revision_annotation type_revision_current m)

abbrev pub with_name : String → MachineSpec → MachineSpec
with_name name spec = record spec { name = name }

-- Everything that `mutateMachines` itself changes: the annotations and the default name.
abbrev pub mutated : Machine → Machine
mutated m = record m {
  annotations = with_revision (without_bypass m.annotations);
  spec = if m.spec.name == "" then with_name m.name m.spec else m.spec;
}

-- The spec of the old machine, to which the name that the controller sets is carried over.
abbrev pub old_spec : Machine → Machine → MachineSpec
old_spec old m =
    if not (old.spec.name == m.spec.name) && m.spec.name == m.name
    then with_name m.spec.name old.spec
    else old.spec

abbrev pub has_pending : Machine → Bool
has_pending old = elim old.pending_initializers [ [] ↦ false | _ ∷ _ ↦ true ]

abbrev pub bypasses : Machine → Bool
bypasses m = index bypass_annotation m.annotations == "true"

module _ (r : WebhookSources) where
  unfoldable pub validate_public_keys : List String → Outcome (Unit {0})
  validate_public_keys [] = ok tt
  validate_public_keys (key ∷ keys) =
      let rest = validate_public_keys keys in
      elim (r.parse_authorized_key key) [
        | ok _ ↦ rest
        | err e ↦ err (wrapped "invalid public key" e)
        | Outcome.panicked ↦ Outcome.panicked
      ]

  -- The checks of `defaultAndValidateMachineSpec` before the provider is asked.
  unfoldable pub check_spec : ProviderConfig → MachineSpec → Act Question (Unit {0})
  check_spec config spec =
      wrap "failed to get OS" (lift (r.plugin_for_os config.operating_system))
      >> (if spec.kubelet_version == ""
          then raise (new_error "Kubelet version must be set")
          else wrap "Invalid public keys specified"
              (lift (validate_public_keys config.ssh_public_keys)))

  unfoldable pub validate_defaulted : String → MachineSpec → Act Question (Unit {0})
  validate_defaulted provider spec =
      wrap "failed to default machineSpec"
        (call (add_defaults provider spec) (λ s. r.defaulted s provider spec))
      >>= λ defaulted_spec.
          wrap "validation failed"
            (call (validate provider defaulted_spec) (λ s. r.validated s provider defaulted_spec))

  -- `spec = &defaultedSpec` assigns to the parameter: what the caller points to stays.
  unfoldable pub default_and_validate_machine_spec : MachineSpec → Act Question (Unit {0})
  default_and_validate_machine_spec spec =
      wrap "failed to read machine.spec.providerSpec"
        (lift (get_config r.parse_config spec.provider_spec))
      >>= λ config.
          wrap "failed to get cloud provider" (lift (for_provider config.cloud_provider))
          >>= λ provider. check_spec config spec >> validate_defaulted provider spec

  -- The test of `mutateMachines` that an update leaves the spec as it is.
  unfoldable pub check_immutable : Request → Machine → Act Question (Unit {0})
  check_immutable request machine =
      if is_update request.operation
      then (wrap "failed to unmarshal OldObject" (lift (r.decode_machine request.old_raw))
          >>= λ old.
              if not (has_pending old)
                && not (bypasses machine)
                && not (r.equal_specs machine.spec (old_spec old machine))
              then raise (new_error "machine.spec is immutable")
              else pure tt)
      else pure tt

  -- The spec is defaulted and validated on creation only.
  unfoldable pub validate_created : Request → Machine → Act Question (Unit {0})
  validate_created request machine =
      if is_create request.operation
      then default_and_validate_machine_spec (mutated machine).spec
      else pure tt

  -- `mutateMachines`, up to the response: the machine as it came and the mutated one.
  unfoldable pub mutate_machines : Request → Act Question (Machine × Machine)
  mutate_machines request = do
    machine ← wrap "failed to unmarshal" (lift (r.decode_machine request.raw))
    check_immutable request machine
    validate_created request machine
    pure (machine, mutated machine)

  -- The spec is validated unless an update leaves it as it is.
  unfoldable pub needs_validation : Request → DeploymentSpec → Act Question Bool
  needs_validation request d =
      if is_update request.operation
      then (wrap "failed to unmarshal OldObject" (lift (r.decode_deployment request.old_raw))
          >>= λ old. pure (not (r.equal_specs old.template_spec d.template_spec)))
      else pure true

  unfoldable pub refuse : List FieldError → Act Question (Unit {0})
  refuse [] = pure tt
  refuse (_ ∷ _) = raise (new_error "validation failed")

  unfoldable pub validate_if : Bool → DeploymentSpec → Act Question (Unit {0})
  validate_if needed d =
      if needed then default_and_validate_machine_spec d.template_spec else pure tt

  -- `mutateMachineDeployments` once the object is read and defaulted, up to the response.
  unfoldable pub admit_deployment :
      Request → DeploymentSpec → DeploymentSpec → Act Question (DeploymentSpec × DeploymentSpec)
  admit_deployment request original deployment =
      lift (validate_machine_deployment r.validators deployment) >>= λ errors.
      refuse errors
      >> (needs_validation request deployment >>= λ needed.
          validate_if needed deployment >> pure (original, deployment))

  unfoldable pub mutate_machine_deployments :
      Request → Act Question (DeploymentSpec × DeploymentSpec)
  mutate_machine_deployments request =
      wrap "failed to unmarshal" (lift (r.decode_deployment request.raw)) >>= λ original.
      admit_deployment request original (r.validators.populate_defaults original)
