-- ===== src/Providers/Common.antt =====
-- What the cloud providers share: pkg/cloudprovider/instance/instance.go, the configuration that
-- all of them read first, and the SSH keys of pkg/cloudprovider/common/ssh/ssh.go.
use machine_controller.Base.{
  Bool-cases, inl, inr, String, ◌≡◌, Bool, true, Option, none, some, List, [], ◌∷◌, if◌then◌else◌,
  arith,
}
use machine_controller.Outcome.{
  Error, new_error, Outcome, Act, pure, raise, lift, query, on_option, or_terminal, ◌>>=◌,
}
use machine_controller.Outcome.Emits.{Emits, emits_rules}
use machine_controller.Outcome.Yields.{Yields, Yields-pure, Yields-raise, Yields-on_option}
use machine_controller.ProviderConfig.Values.{ConfigVar}
use machine_controller.ProviderConfig.Resolution.{ConfigCall, Sources, get_config_var_string_value}

-- `instance.Status`
pub data Status : Type 0 where
  running deleting deleted creating unknown : Status

-- `providerconfig.Config`, with the fields that the providers read.
pub record MachineConfig : Type 0 where
  pub operating_system : String
  -- `CloudProviderSpec.Raw`
  pub cloud_provider_spec : String

pub record PublicKey : Type 0 where
  pub name : String
  pub public_key : String
  pub fingerprint_md5 : String

-- The reasons of machine errors in sigs.k8s.io/cluster-api/pkg/apis/cluster/common.
abbrev pub invalid_configuration : String
invalid_configuration = "InvalidConfiguration"

abbrev pub insufficient_resources : String
insufficient_resources = "InsufficientResources"

abbrev pub rejected : Error
rejected =
    Error.terminal_error invalid_configuration
      "A request has been rejected due to invalid credentials which were taken from the MachineSpec"

abbrev pub os_not_supported : Error
os_not_supported = new_error "os not supported"

-- How a machine's configuration is decoded, where `json.Unmarshal` is given by its answers, and
-- what its references resolve to, which may depend on the requests made before.
pub record Decoder (E R : Type 0) : Type 0 where
  pub decode : String → Outcome MachineConfig
  pub decode_raw : String → Outcome R
  pub sources : List E → Sources
  pub error_text : Error → String

module _ {E R : Type 0} (d : Decoder E R) where
  -- The two steps of `getConfig` that all providers begin with.
  unfoldable pub decode_spec : Option String → Act ConfigCall (MachineConfig × R)
  decode_spec spec = do
    raw ←
        on_option spec (raise (new_error "machine.spec.providerconfig.value is nil"))
          (λ raw. lift (Outcome.ok raw))
    pconfig ← lift (d.decode raw)
    raw_config ← lift (d.decode_raw pconfig.cloud_provider_spec)
    lift (Outcome.ok (pconfig, raw_config))

  -- `getConfig` is called: it reads, and asks nothing of the cloud.
  unfoldable pub configured : {A : Type 0} → (Sources → Act ConfigCall A) → Act E A
  configured get_config = query (λ s. (get_config (d.sources s) []).0)

  unfoldable pub machine_config : {A : Type 0} → (Sources → Act ConfigCall A) → Act E A
  machine_config get_config =
      or_terminal d.error_text invalid_configuration "Failed to parse MachineSpec, due to "
        (configured get_config)

-- `for _, v := range values { ... GetConfigVarStringValue(v) ... append ... }`
unfoldable pub resolve_each : Sources → List (ConfigVar String) → Act ConfigCall (List String)
resolve_each sources [] = lift (Outcome.ok [])
resolve_each sources (v ∷ vs) =
    let rest = resolve_each sources vs in
    get_config_var_string_value sources v >>= λ value.
    rest >>= λ values. lift (Outcome.ok (value ∷ values))

-- `for _, x := range xs { if test(x) { return x } }`
unfoldable pub first_that : {A : Type 0} → (A → Bool) → List A → Option A
first_that test [] = none
first_that test (x ∷ xs) = let rest = first_that test xs in if test x then some x else rest

pub first_that-eq-some :
    {A : Type 0} (test : A → Bool) (xs : List A) (a : A)
    → first_that test xs ≡ some a
    → test a ≡ true
unfolding first_that
first_that-eq-some test [] a h = absurd (ground (arith, h))
first_that-eq-some test (x ∷ xs) a h = elim (Bool-cases (test x)) [
  | inl e ↦ ground (arith, e, h)
  | inr e ↦ first_that-eq-some test xs a (ground (arith, e, h))
]

module _ {E R A : Type 0} {P : E → Bool} (d : Decoder E R)
    (get_config : Sources → Act ConfigCall A) where
  pub configured-Emits : Emits P (configured d get_config)
  unfolding configured
  configured-Emits = search emits_rules

  pub machine_config-Emits : Emits P (machine_config d get_config)
  unfolding machine_config
  machine_config-Emits = search (emits_rules, configured-Emits)

-- What is found passes the test.
pub first_that-Yields :
    {E A : Type 0} (test : A → Bool) (xs : List A) (e : Error)
    → Yields {E = E} (λ a. test a ≡ true) (on_option (first_that test xs) (raise e) pure)
first_that-Yields test xs e =
    Yields-on_option _ _ _ (λ _. Yields-raise e)
      (λ a found. Yields-pure a (first_that-eq-some test xs a found))
