-- ===== src/Providers/DigitalOcean/Keys.antt =====
-- pkg/cloudprovider/provider/digitalocean/provider.go: the temporary SSH key of Create.
use machine_controller.Base.{
  ℕ, ℕ, String, ◌≢◌, sym, arith, ◌≡◌, refl, ap, ◌∙◌, ◌⊎◌, inl, inr, Bool, true, false, Option, List,
  ◌∷◌,
}
use machine_controller.Outcome.{Error, Outcome, ok, err, panicked, Act, panic, call, ◌>>=◌}
use machine_controller.Outcome.Emits.{Extends, same, more, Emits, emits_rules}
use machine_controller.Outcome.Yields.{ok-inj}
use machine_controller.Outcome.Runs.{
  Holds, Runs, Runs-pure, Runs-raise, Runs-call, Runs-if, Runs-deref, Runs-mono, Runs-bind,
  Holds-always, Runs-finally, Runs-Emits,
}
use machine_controller.Kube.{Machine}
use machine_controller.Providers.Common.{PublicKey, machine_config-Emits}
use machine_controller.Providers.DigitalOcean.{
  Config, Request, delete_key_by_fingerprint, create_key, create_droplet, Reply, Cloud, check_reply,
}
use machine_controller.Providers.DigitalOcean.Instances.{
  fetch_failed, upload_random_ssh_public_key, is_created, create_and_wait, create_with_key,
  remove_key, create,
}
use machine_controller.Providers.DigitalOcean.Laws.{
  IsPolling, check_reply-Emits, key_exists-Emits, poll-Emits,
}

-- Neither the upload of a key nor a droplet is asked for.
abbrev pub asks_neither : Request → Bool
asks_neither (create_key _ _) = false
asks_neither (create_droplet _ _) = false
asks_neither _ = true

-- The requests up to the reply to the upload, since `s₀`
data IsReplied (c : Cloud) (s₀ : List Request) (token : String) (reply : Reply String)
    : List Request → Type 0 where
  replied :
      (key : PublicKey) (s : List Request)
      → Extends asks_neither s₀ s
      → c.created_key s key ≡ reply
      → IsReplied c s₀ token reply (create_key token key ∷ s)

-- The same, where the reply gives the fingerprint
data IsUploaded (c : Cloud) (s₀ : List Request) (token fingerprint : String)
    : List Request → Type 0 where
  uploaded :
      (key : PublicKey) (s : List Request)
      → Extends asks_neither s₀ s
      → (c.created_key s key).result ≡ ok fingerprint
      → IsUploaded c s₀ token fingerprint (create_key token key ∷ s)

-- No droplet was asked for since `s₀`, and no key was given: none was uploaded, or the last request
-- is an upload that failed.
pub data IsKeyless (c : Cloud) (s₀ : List Request) : List Request → Type 0 where
  never_uploaded : {s : List Request} → Extends asks_neither s₀ s → IsKeyless c s₀ s
  not_given :
      (token : String) (key : PublicKey) (s : List Request)
      → Extends asks_neither s₀ s
      → ((fingerprint : String) → (c.created_key s key).result ≢ ok fingerprint)
      → IsKeyless c s₀ (create_key token key ∷ s)

-- The last request since `s₀` deletes the key whose fingerprint the API gave for an upload, with the
-- upload's token; `u` are the requests up to the deletion.
pub data IsKeyDeleted (c : Cloud) (s₀ : List Request) : List Request → Type 0 where
  key_deleted :
      (token : String) (key : PublicKey) (fingerprint : String) (s u : List Request)
      → Extends asks_neither s₀ s
      → (c.created_key s key).result ≡ ok fingerprint
      → Extends (λ _. true) (create_key token key ∷ s) u
      → IsKeyDeleted c s₀ (delete_key_by_fingerprint token fingerprint ∷ u)

module _ (c : Cloud) (s₀ : List Request) where
  -- Neither an upload nor a droplet was asked for since `s₀`.
  abbrev Before : List Request → Type 0
  Before s = Extends asks_neither s₀ s

  abbrev Cleared : List Request → Type 0
  Cleared s = IsKeyless c s₀ s ⊎ IsKeyDeleted c s₀ s

  quiet :
      {A : Type 0} (m : Act Request A)
      → Emits asks_neither m
      → Runs Cleared Before (λ _. Before) (λ _. Cleared) m
  quiet m h =
      Runs-mono m (λ s i. inl (never_uploaded i)) (λ s i. i) (λ _ s i. i)
        (λ _ s i. inl (never_uploaded i)) (Runs-Emits m (λ e s p i. more e p i) h)

  reply-Runs :
      (token : String) (key : PublicKey)
      → Runs Cleared Before
          (λ reply. IsReplied c s₀ token reply)
          (λ _. Cleared)
          (call (create_key token key) (λ s. ok (c.created_key s key)))
  reply-Runs token key = Runs-call _ _ at
    where
      at :
          (s : List Request) (r : Outcome (Reply String))
          → Before s
          → ok (c.created_key s key) ≡ r
          → Holds Cleared
              (λ reply. IsReplied c s₀ token reply)
              (λ _. Cleared)
              r
              (create_key token key ∷ s)
      at s (ok reply) i e = replied key s i (ok-inj e)
      at s (err _) i e = absurd (ground (arith, e))
      at s panicked i e = absurd (ground (arith, e))

  refused :
      (token : String) (reply : Reply String) (s : List Request)
      → ((fingerprint : String) → reply.result ≢ ok fingerprint)
      → IsReplied c s₀ token reply s
      → Cleared s
  refused token reply _ failed (replied key s i e) =
      inl (not_given token key s i (λ f k. failed f (ap (λ x. x.result) (sym e) ∙ k)))

  accepted :
      (token fingerprint : String) (reply : Reply String) (s : List Request)
      → reply.result ≡ ok fingerprint
      → IsReplied c s₀ token reply s
      → IsUploaded c s₀ token fingerprint s
  accepted token fingerprint reply _ k (replied key s i e) =
      uploaded key s i (ap (λ x. x.result) e ∙ k)

  check-Runs :
      (token : String) (explain : Error → Error) (reply : Reply String) (code : Option ℕ)
      (r : Outcome String)
      → reply.result ≡ r
      → Runs Cleared
          (IsReplied c s₀ token reply)
          (λ fingerprint. IsUploaded c s₀ token fingerprint)
          (λ _. Cleared)
          (check_reply explain code r)
  unfolding check_reply panic
  check-Runs token explain reply code (ok fingerprint) k =
      Runs-pure fingerprint (λ s x. accepted token fingerprint reply s k x)
  check-Runs token explain reply code (err e) k =
      let failed : (f : String) → reply.result ≢ ok f = λ f h. ground (arith, k, h) in
      Runs-bind _ _
        (Runs-deref code (λ s x. refused token reply s failed x)
          (λ n s _ x. refused token reply s failed x))
        (λ n. Runs-raise _ (λ s x. x))
  check-Runs token explain reply code panicked k = record {
    at = λ s x. refused token reply s (λ f h. ground (arith, k, h)) x;
  }

  upload-Runs :
      (token : String)
      → Runs Cleared Before
          (λ fingerprint. IsUploaded c s₀ token fingerprint)
          (λ _. Cleared)
          (upload_random_ssh_public_key c token)
  unfolding upload_random_ssh_public_key
  upload-Runs token = Runs-bind _ _ (quiet _ (search emits_rules)) (λ key.
      Runs-bind _ _ (quiet _ (search emits_rules)) (λ looked.
        Runs-bind _ _ (quiet _ (key_exists-Emits _ _)) (λ exists.
          Runs-if exists _ _ (λ _. Runs-raise _ (λ s i. inl (never_uploaded i)))
            (λ _.
              Runs-bind _ _ (reply-Runs token key)
                (λ reply. check-Runs token _ reply reply.code reply.result refl)))))

  deletes :
      (config : Config) (fingerprint : String) (s u : List Request)
      → IsUploaded c s₀ config.token fingerprint s
      → Extends (λ _. true) s u
      → Cleared (remove_key c config fingerprint u).1
  unfolding remove_key ◌>>=◌
  deletes config fingerprint _ u (uploaded key s i e) x =
      inr (key_deleted config.token key fingerprint s u i e x)

  created-Emits :
      IsPolling c
      → (config : Config) (id : ℕ) (uid : String)
      → Emits (λ _. true) (c.poll (is_created c config.token id uid))
  unfolding is_created fetch_failed
  created-Emits l config id uid = poll-Emits l _ (search (emits_rules, check_reply-Emits) depth 14)

  create-Runs :
      IsPolling c
      → (m : Machine) (user_data : String)
      → Runs Cleared Before (λ _. Cleared) (λ _. Cleared) (create c m user_data)
  unfolding create create_with_key create_and_wait
  create-Runs l m user_data = Runs-bind _ _ (quiet _ (machine_config-Emits _ _)) (λ (config, pc).
      Runs-bind _ _ (upload-Runs config.token) (λ fingerprint.
        Runs-finally _ _ (search (emits_rules, check_reply-Emits, created-Emits l config) depth 16)
          (deletes config fingerprint)))

-- Whatever the API answers, when `create` returns or panics it holds no temporary SSH key: either
-- it asked for no droplet, and uploaded no key, or as its last request one that failed; or its last
-- request deletes the key whose fingerprint the API gave for the upload of this run, with the same
-- token. That is so also where the droplet never carries the tag and the wait for it fails. Polling
-- calls the condition some number of times.
pub create-droplet-IsKeyDeleted :
    (c : Cloud)
    → IsPolling c
    → (m : Machine) (user_data : String) (s : List Request)
    → IsKeyless c s (create c m user_data s).1 ⊎ IsKeyDeleted c s (create c m user_data s).1
create-droplet-IsKeyDeleted c l m user_data s =
    Holds-always (Cleared c s) _ _ ((create-Runs c s l m user_data).at s same)
