-- ===== src/Bootstrap/Tokens.antt =====
-- What the bootstrap tokens of kubeconfig.go promise.
use machine_controller.Base.{ℕ, ◌+◌, String, ◌≡◌, List, [], ◌∷◌, index, ltb, if◌then◌else◌, arith}
use machine_controller.Outcome.{ok, ◌>>=◌, ◌>>◌}
use machine_controller.Kube.{Secret}
use machine_controller.Kube.Calls.{Call, list_secrets, create_secret, update_secret}
use machine_controller.Kube.Cluster.{Cluster}
use machine_controller.Bootstrap.{
  hour, machine_name_label, token_of, bootstrap_secret, renewed, only_secret, get_secret_if_exists,
  update_secret_expiration_and_get_token, new_bootstrap_token, create_bootstrap_token,
}

module _ (c : Cluster) (name : String) (labelled : c.label_requirement name ≡ ok tt) where
  -- If the lister holds one secret for the machine, whose expiration time can be read, then no
  -- secret is created: the secret is updated, with an expiration time an hour from now, exactly
  -- if it expires within 30 minutes, and nothing else is called but the lister.
  pub create_bootstrap_token_existing :
      (s : List Call) (secret : Secret) (t : ℕ)
      → c.labelled_secrets s name ≡ ok (secret ∷ [])
      → c.parse_time (index "expiration" secret.contents) ≡ ok t
      → let s' = list_secrets name ∷ s in
        (create_bootstrap_token c name s).1 ≡ (
          if ltb t (c.now s' + 1800)
          then update_secret (renewed secret (c.format_time (c.now s' + hour))) ∷ s'
          else s')
  unfolding create_bootstrap_token get_secret_if_exists only_secret new_bootstrap_token
      update_secret_expiration_and_get_token ◌>>=◌ ◌>>◌
  create_bootstrap_token_existing s secret t one parsed = ground arith

  -- the secret that is created after the calls `s`
  abbrev pub fresh_secret : List Call → Secret
  fresh_secret s =
      bootstrap_secret name (c.random_string s 6) (c.random_string s 16)
        (c.format_time (c.now s + hour))

  -- A machine is given the same token each time: if the lister held no secret for it at the first
  -- call, and later holds the one that this call created, with an expiration time that can be
  -- read, then both calls return the same token (where the API server accepts each write).
  pub create_bootstrap_token_stable :
      (s s₂ : List Call) (t : ℕ)
      → let s₁ = list_secrets name ∷ s in
        let secret = fresh_secret s₁ in
        c.labelled_secrets s name ≡ ok []
        → c.created_secret s₁ secret ≡ ok tt
        → c.labelled_secrets s₂ name ≡ ok (secret ∷ [])
        → c.parse_time (index "expiration" secret.contents) ≡ ok t
        → c.updated_secret
            (list_secrets name ∷ s₂)
            (renewed secret (c.format_time (c.now (list_secrets name ∷ s₂) + hour)))
          ≡ ok tt
        → ((create_bootstrap_token c name s).1 ≡ create_secret secret ∷ s₁)
          × (index machine_name_label secret.labels ≡ name)
          × ((create_bootstrap_token c name s).0 ≡ ok (token_of secret))
          × ((create_bootstrap_token c name s₂).0 ≡ ok (token_of secret))
  unfolding create_bootstrap_token get_secret_if_exists only_secret new_bootstrap_token
      update_secret_expiration_and_get_token ◌>>=◌ ◌>>◌
  create_bootstrap_token_stable s s₂ t none_yet created one parsed updated =
      (ground arith, ground arith, ground arith, ground arith)
