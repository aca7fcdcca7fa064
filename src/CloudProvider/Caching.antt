-- ===== src/CloudProvider/Caching.antt =====
-- pkg/cloudprovider/cache/cloudprovidercache.go and pkg/cloudprovider/validationwrapper.go: the
-- validation of a machine spec by a cloud provider, behind a cache that all providers share.
use machine_controller.Base.{String, ◌≡◌, Option, none, some, List, ◌∷◌, ◌++◌}
use machine_controller.Outcome.{
  Error, wrapped, Outcome, ok, err, panicked, Act, lift, call, query, tell, on_option, ◌>>=◌, ◌>>◌,
  wrap,
}
use machine_controller.Kube.{MachineSpec}

-- What changes the cache, and what the wrapped provider is asked.
pub data Consultation : Type 0 where
  cache_set : String → Option Error → Consultation
  provider_validate : MachineSpec → Consultation

-- `none` where the error is nil
abbrev pub result : Option Error → Outcome (Unit {0})
result none = ok tt
result (some e) = err e

-- The go-cache library with its clock, the key of a spec (the SHA-256 of its JSON), and the
-- wrapped provider. What is kept under a key is a nil or an error.
pub record Wrapped : Type 0 where
  pub entry : List Consultation → String → Option (Option Error)
  pub marshal_and_hash : Option String → Outcome String
  pub validated : List Consultation → MachineSpec → Option Error

-- A value in the cache is one that was set for its key.
pub record IsCache (w : Wrapped) : Type 0 where
  pub entry_was_set :
      (s : List Consultation) (id : String) (v : Option Error)
      → w.entry s id ≡ some v
      → (l r : List Consultation) × (s ≡ l ++ (cache_set id v ∷ r))

module _ (w : Wrapped) where
  unfoldable pub get_id : MachineSpec → Outcome String
  get_id spec = elim (w.marshal_and_hash spec.provider_spec) [
    | ok id ↦ ok id
    | err e ↦ err (wrapped "failed to marshal MachineSpec" e)
    | panicked ↦ panicked
  ]

  -- `none` for a miss
  unfoldable pub get : MachineSpec → Act Consultation (Option (Option Error))
  get spec = lift (get_id spec) >>= λ id. query (λ s. ok (w.entry s id))

  unfoldable pub set : MachineSpec → Option Error → Act Consultation (Unit {0})
  set spec value = lift (get_id spec) >>= λ id. tell (cache_set id value)

  unfoldable pub validate_and_set : MachineSpec → Act Consultation (Unit {0})
  validate_and_set spec = do
    value ← call (provider_validate spec) (λ s. ok (w.validated s spec))
    wrap "failed to set cache after validation" (set spec value)
    lift (result value)

  unfoldable pub validate : MachineSpec → Act Consultation (Unit {0})
  validate spec = do
    found ← wrap "error getting validation result from cache" (get spec)
    on_option found (validate_and_set spec) (λ value. lift (result value))
