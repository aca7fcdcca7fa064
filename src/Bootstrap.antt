-- ===== src/Bootstrap.antt =====
-- pkg/controller/machine/kubeconfig.go: the kubeconfig with a bootstrap token that a new machine
-- joins the cluster with.
pub mod Tokens
use Prim.Native.String.{◌++◌}
use machine_controller.Base.{
  ℕ, ◌+◌, String, Option, none, some, List, [], ◌∷◌, StringMap, index, put, ltb, ◌==◌,
  if◌then◌else◌,
}
use machine_controller.Outcome.{
  new_error, Act, pure, raise, lift, call, ask, query, wrap, on_option, ◌>>=◌, ◌>>◌,
}
use machine_controller.Kube.{Secret, Kubeconfig}
use machine_controller.Kube.Calls.{
  Call, list_secrets, get_secret, get_service_account, create_secret, update_secret,
}
use machine_controller.Kube.Cluster.{Cluster}

abbrev pub machine_name_label : String
machine_name_label = "machine.k8s.io/machine.name"

abbrev pub hour : ℕ
hour = 3600

-- A nil map is replaced by an empty one.
abbrev pub or_empty : StringMap → StringMap
or_empty none = some []
or_empty (some m) = some m

abbrev pub replace : String → String → StringMap → StringMap
replace k v none = none
replace k v (some m) = some (put k v m)

-- `tokenFormatter` over the data of a secret.
abbrev pub token_of : Secret → String
token_of secret = index "token-id" secret.contents ++ "." ++ index "token-secret" secret.contents

abbrev pub bootstrap_secret : String → String → String → String → Secret
bootstrap_secret name token_id token_secret expiration = record {
  name = "bootstrap-token-" ++ token_id;
  labels = some ((machine_name_label, name) ∷ []);
  type = "bootstrap.kubernetes.io/token";
  contents = some (
      ("description", "bootstrap token for " ++ name)
      ∷ ("token-id", token_id)
      ∷ ("token-secret", token_secret)
      ∷ ("expiration", expiration)
      ∷ ("usage-bootstrap-authentication", "true")
      ∷ ("usage-bootstrap-signing", "true")
      ∷ ("auth-extra-groups", "system:bootstrappers:machine-controller:default-node-token")
      ∷ []);
}

-- The secret with its expiration set anew.
abbrev pub renewed : Secret → String → Secret
renewed secret expiration = record secret {
  contents = replace "expiration" expiration (or_empty secret.contents);
}

-- The result of `getSecretIfExists` for a list of secrets.
unfoldable pub only_secret : List Secret → Act Call (Option Secret)
only_secret [] = pure none
only_secret (secret ∷ []) = pure (some secret)
only_secret _ = raise (new_error "expected to find exactly one secret for the given machine name")

module _ (c : Cluster) where
  unfoldable pub get_secret_if_exists : String → Act Call (Option Secret)
  get_secret_if_exists name = do
    lift (c.label_requirement name)
    secrets ← call (list_secrets name) (λ s. c.labelled_secrets s name)
    only_secret secrets

  unfoldable pub update_secret_expiration_and_get_token : Secret → Act Call String
  update_secret_expiration_and_get_token secret = do
    expiration_time ← lift (c.parse_time (index "expiration" secret.contents))
    now ← ask c.now
    if ltb expiration_time (now + 1800)
        then (do
          let fresh = renewed secret (c.format_time (now + hour))
          call (update_secret fresh) (λ s. c.updated_secret s fresh)
          pure (token_of secret))
        else pure (token_of secret)

  unfoldable pub new_bootstrap_token : String → Act Call String
  new_bootstrap_token name = do
    token_id ← ask (λ s. c.random_string s 6)
    token_secret ← ask (λ s. c.random_string s 16)
    now ← ask c.now
    let secret = bootstrap_secret name token_id token_secret (c.format_time (now + hour))
    call (create_secret secret) (λ s. c.created_secret s secret)
    pure (token_id ++ "." ++ token_secret)

  unfoldable pub create_bootstrap_token : String → Act Call String
  create_bootstrap_token name = do
    existing ← get_secret_if_exists name
    on_option existing (new_bootstrap_token name) update_secret_expiration_and_get_token

  -- The loop over the secrets of a service account.
  unfoldable pub service_account_token : String → List String → Act Call String
  service_account_token namespace [] = raise (new_error "no serviceAccountSecret found")
  service_account_token namespace (name ∷ names) =
      let rest = service_account_token namespace names in
      call (get_secret namespace name) (λ s. c.secret s namespace name) >>= λ secret.
      if secret.type == "kubernetes.io/service-account-token"
      then pure (index "token" secret.contents)
      else rest

  unfoldable pub get_token_from_service_account : String × String → Act Call String
  get_token_from_service_account (namespace, name) = do
    names ← call (get_service_account namespace name) (λ s. c.service_account s namespace name)
    service_account_token namespace names

  unfoldable pub create_bootstrap_kubeconfig : String → Act Call Kubeconfig
  create_bootstrap_kubeconfig name = do
    token ←
        on_option c.bootstrap_service_account
          (wrap "failed to create bootstrap token" (create_bootstrap_token name))
          (λ account.
            wrap "failed to get token from ServiceAccount" (get_token_from_service_account account))
    info ← query c.info_kubeconfig
    pure (record info { token = some token })
