-- ===== src/Providers/Hetzner/Keys.antt =====
-- pkg/cloudprovider/provider/hetzner/provider.go: the temporary SSH key of Create.
use mathlib.Core.Path.{subst}
use machine_controller.Base.{
  nat_eq, ℕ, String, ◌≢◌, ◌≡◌, ◌⊎◌, inl, inr, Bool, true, false, List, ◌∷◌, arith,
}
use machine_controller.Outcome.{Outcome, ok, err, panicked, Act, call, ◌>>=◌}
use machine_controller.Outcome.Emits.{Extends, same, more, Emits, emits_rules}
use machine_controller.Outcome.Runs.{
  Holds, Runs, Runs-pure, Runs-raise, Runs-call, Runs-if, Runs-mono, Runs-bind, Runs-wrap,
  Holds-always, Runs-finally, Runs-Emits,
}
use machine_controller.Kube.{Machine}
use machine_controller.Providers.Common.{PublicKey, machine_config-Emits}
use machine_controller.Providers.Hetzner.{
  Config, ServerCreateOpts, Request, create_ssh_key, delete_ssh_key, create_server, Cloud,
  look_up_location, look_up_datacenter, look_up_server_type,
}
use machine_controller.Providers.Hetzner.Instances.{
  look_up_if_set, server_create_opts, upload_key, create_with, remove_key, create,
}

-- Neither the upload of a key nor a server is asked for.
abbrev pub asks_neither : Request → Bool
asks_neither (create_ssh_key _ _) = false
asks_neither (create_server _ _) = false
asks_neither _ = true

-- The requests up to the answer to the upload, since `s₀`
data IsAnswered (c : Cloud) (s₀ : List Request) (token hkey : String) (code : ℕ)
    : List Request → Type 0 where
  answered :
      (key : PublicKey) (s : List Request)
      → Extends asks_neither s₀ s
      → c.created_ssh_key s key ≡ ok (hkey, code)
      → IsAnswered c s₀ token hkey code (create_ssh_key token key ∷ s)

-- No server was asked for since `s₀`, and no key was given: none was uploaded, or the last request
-- is an upload that the API did not accept.
pub data IsKeyless (c : Cloud) (s₀ : List Request) : List Request → Type 0 where
  never_uploaded : {s : List Request} → Extends asks_neither s₀ s → IsKeyless c s₀ s
  not_given :
      (token : String) (key : PublicKey) (s : List Request)
      → Extends asks_neither s₀ s
      → ((hkey : String) → c.created_ssh_key s key ≢ ok (hkey, 201))
      → IsKeyless c s₀ (create_ssh_key token key ∷ s)

-- The last request since `s₀` deletes the key that the API gave for an upload, with the upload's
-- token; `u` are the requests up to the deletion.
pub data IsKeyDeleted (c : Cloud) (s₀ : List Request) : List Request → Type 0 where
  key_deleted :
      (token : String) (key : PublicKey) (hkey : String) (s u : List Request)
      → Extends asks_neither s₀ s
      → c.created_ssh_key s key ≡ ok (hkey, 201)
      → Extends (λ _. true) (create_ssh_key token key ∷ s) u
      → IsKeyDeleted c s₀ (delete_ssh_key token hkey ∷ u)

module _ (c : Cloud) (s₀ : List Request) where
  -- Neither an upload nor a server was asked for since `s₀`.
  abbrev Before : List Request → Type 0
  Before s = Extends asks_neither s₀ s

  abbrev Cleared : List Request → Type 0
  Cleared s = IsKeyless c s₀ s ⊎ IsKeyDeleted c s₀ s

  quiet :
      {A : Type 0} (m : Act Request A)
      → Emits asks_neither m
      → Runs Cleared Before (λ _. Before) (λ _. Cleared) m
  quiet m h =
      Runs-mono m (λ s i. inl (never_uploaded i)) (λ s i. i) (λ _ s i. i)
        (λ _ s i. inl (never_uploaded i)) (Runs-Emits m (λ e s p i. more e p i) h)

  opts-Emits :
      (m : Machine) (user_data : String) (config : Config) (image : String)
      → Emits asks_neither (server_create_opts c m user_data config image)
  unfolding server_create_opts look_up_if_set look_up_datacenter look_up_location
      look_up_server_type
  opts-Emits m user_data config image = search emits_rules depth 16

  answer-Runs :
      (config : Config) (key : PublicKey)
      → Runs Cleared Before
          (λ (hkey, code). IsAnswered c s₀ config.token hkey code)
          (λ _. Cleared)
          (call (create_ssh_key config.token key) (λ s. c.created_ssh_key s key))
  answer-Runs config key = Runs-call _ _ at
    where
      at :
          (s : List Request) (r : Outcome (String × ℕ))
          → Before s
          → c.created_ssh_key s key ≡ r
          → Holds Cleared
              (λ (hkey, code). IsAnswered c s₀ config.token hkey code)
              (λ _. Cleared)
              r
              (create_ssh_key config.token key ∷ s)
      at s (ok (hkey, code)) i e = answered key s i e
      at s (err _) i e = inl (not_given _ key s i (λ hkey k. ground (arith, e, k)))
      at s panicked i e = inl (not_given _ key s i (λ hkey k. ground (arith, e, k)))

  refused :
      (token hkey : String) (code : ℕ) (s : List Request)
      → nat_eq code 201 ≡ false
      → IsAnswered c s₀ token hkey code s
      → Cleared s
  refused token hkey code _ other (answered key s i e) =
      inl (not_given token key s i (λ h k. ground (arith, e, k, other)))

  upload-Runs :
      (config : Config)
      → Runs Cleared Before
          (λ hkey. IsAnswered c s₀ config.token hkey 201)
          (λ _. Cleared)
          (upload_key c config)
  unfolding upload_key
  upload-Runs config = Runs-bind _ _ (quiet _ (search emits_rules)) (λ key.
      Runs-bind _ _ (Runs-wrap _ _ (λ _ s x. x) (answer-Runs config key)) (λ (hkey, code).
        Runs-if (nat_eq code 201) _ _
          (λ e.
            Runs-pure hkey
              (λ s x. subst (λ n. IsAnswered c s₀ config.token hkey n s) (ground (arith, e)) x))
          (λ e. Runs-raise _ (λ s x. refused config.token hkey code s e x))))

  deletes :
      (config : Config) (hkey : String) (s u : List Request)
      → IsAnswered c s₀ config.token hkey 201 s
      → Extends (λ _. true) s u
      → Cleared (remove_key c config hkey u).1
  unfolding remove_key ◌>>=◌
  deletes config hkey _ u (answered key s i e) x = inr (key_deleted config.token key hkey s u i e x)

  create_with-Emits :
      (config : Config) (opts : ServerCreateOpts) → Emits (λ _. true) (create_with c config opts)
  unfolding create_with
  create_with-Emits config opts = search emits_rules depth 12

  create-Runs :
      (m : Machine) (user_data : String)
      → Runs Cleared Before (λ _. Cleared) (λ _. Cleared) (create c m user_data)
  unfolding create
  create-Runs m user_data = Runs-bind _ _ (quiet _ (machine_config-Emits _ _)) (λ (config, pc).
      Runs-bind _ _ (quiet _ (search emits_rules)) (λ image.
        Runs-bind _ _ (quiet _ (opts-Emits m user_data config image)) (λ opts.
          Runs-bind _ _ (upload-Runs config)
            (λ hkey. Runs-finally _ _ (create_with-Emits config _) (deletes config hkey)))))

-- Whatever the API answers, when `create` returns or panics it holds no temporary SSH key: either
-- it asked for no server, and uploaded no key, or as its last request one that the API did not
-- accept with status 201; or its last request deletes the key that the API gave for the upload of
-- this run, with the same token.
pub create-IsKeyDeleted :
    (c : Cloud) (m : Machine) (user_data : String) (s : List Request)
    → IsKeyless c s (create c m user_data s).1 ⊎ IsKeyDeleted c s (create c m user_data s).1
create-IsKeyDeleted c m user_data s =
    Holds-always (Cleared c s) _ _ ((create-Runs c s m user_data).at s same)
