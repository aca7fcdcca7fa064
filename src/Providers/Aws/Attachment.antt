-- ===== src/Providers/Aws/Attachment.antt =====
-- pkg/cloudprovider/provider/aws/provider.go: Create and the security groups of what it starts.
use mathlib.Core.Path.{subst}
use machine_controller.Base.{
  String, ◌≡◌, refl, sym, ◌≢◌, ◌⊎◌, inl, inr, Bool, true, false, Option, List, [], ◌∷◌, arith,
}
use machine_controller.Outcome.{
  Error, Outcome, ok, err, panicked, Act, pure, call, deref, attempt, ◌>>=◌,
}
use machine_controller.Outcome.Emits.{Extends, more, Emits, emits_rules}
use machine_controller.Outcome.Runs.{
  Holds, Runs, Runs-pure, Runs-raise, Runs-call, Runs-mono, Runs-attempt, Runs-bind, Runs-Emits,
  Runs-given,
}
use machine_controller.Kube.{Machine}
use machine_controller.Providers.Common.{MachineConfig}
use machine_controller.Providers.Aws.Instances.{connect, packed, run_and_attach, create}
use machine_controller.Providers.Aws.Laws.{client-Emits, ami-Emits}
use machine_controller.Providers.Aws.{
  Config, Instance, RunInstancesInput, Request, run_instances, modify_instance_groups,
  terminate_instance, Cloud,
}
use machine_controller.Providers.Aws.Instances.{first_instance, take_back}

abbrev pub starts_nothing : Request → Bool
starts_nothing (run_instances _) = false
starts_nothing _ = true

module _ (c : Cloud) (m : Machine) (s₀ : List Request) where
  -- `config` is what the configuration of the machine reads as.
  abbrev pub IsConfigured : Config → Type 0
  IsConfigured config = (pc : MachineConfig) × ((connect c m s₀).0 ≡ ok (config, pc))

  -- No instance was started since `s₀`: none was asked for, or the last request gave none.
  pub data IsRefused : List Request → Type 0 where
    never_asked : {t : List Request} → Extends starts_nothing s₀ t → IsRefused t
    gave_none :
        (input : RunInstancesInput) (u : List Request)
        → Extends starts_nothing s₀ u
        → ((i : Instance) (more : List Instance) → c.run u input ≢ ok (i ∷ more))
        → IsRefused (run_instances input ∷ u)

  -- The last request asked to attach the configured security groups to the instance that the one
  -- before it started, the first one since `s₀`; `answer` is what came of it.
  pub data IsModified (i : Instance) (answer : Outcome (Unit {0})) : List Request → Type 0 where
    modified :
        (input : RunInstancesInput) (u : List Request) (more : List Instance) (config : Config)
        → IsConfigured config
        → Extends starts_nothing s₀ u
        → c.run u input ≡ ok (i ∷ more)
        → c.modified (run_instances input ∷ u) i.id config.security_group_ids ≡ answer
        → IsModified i answer
            (modify_instance_groups i.id config.security_group_ids ∷ run_instances input ∷ u)

  -- The last request is to terminate the instance that was started, whose groups were refused.
  pub data IsTakenBack : List Request → Type 0 where
    taken_back :
        (i : Instance) (e : Error) {t : List Request}
        → IsModified i (err e) t
        → IsTakenBack (terminate_instance i.id ∷ t)

  abbrev pub Unsettled : List Request → Type 0
  Unsettled t = IsRefused t ⊎ IsTakenBack t

  -- A panic may also come from the client, where the groups are to be attached.
  abbrev pub Panicked : List Request → Type 0
  Panicked t = Unsettled t ⊎ ((i : Instance) × IsModified i panicked t)

  abbrev Before : List Request → Type 0
  Before t = Extends starts_nothing s₀ t

  quiet :
      {A : Type 0} (act : Act Request A)
      → Emits starts_nothing act
      → Runs Panicked Before (λ _. Before) (λ _. Unsettled) act
  quiet act h =
      Runs-mono act (λ t x. inl (inl (never_asked x))) (λ t x. x) (λ _ t x. x)
        (λ _ t x. inl (never_asked x)) (Runs-Emits act (λ e t p x. more e p x) h)

  -- The request for the instance was answered.
  data IsStarted (instances : List Instance) : List Request → Type 0 where
    started :
        (input : RunInstancesInput) (u : List Request)
        → Extends starts_nothing s₀ u
        → c.run u input ≡ ok instances
        → IsStarted instances (run_instances input ∷ u)

  run-Runs :
      (input : RunInstancesInput)
      → Runs Panicked Before IsStarted
          (λ _. Unsettled)
          (call (run_instances input) (λ s. c.run s input))
  run-Runs input = Runs-call _ _ at
    where
      at :
          (s : List Request) (r : Outcome (List Instance))
          → Before s
          → c.run s input ≡ r
          → Holds Panicked IsStarted (λ _. Unsettled) r (run_instances input ∷ s)
      at s (ok instances) b e = started input s b e
      at s (err x) b e = inl (gave_none input s b (λ i rest k. ground (arith, e, k)))
      at s panicked b e = inl (inl (gave_none input s b (λ i rest k. ground (arith, e, k))))

  modify-Runs :
      (i : Instance) (rest : List Instance) (config : Config)
      → IsConfigured config
      → Runs Panicked
          (IsStarted (i ∷ rest))
          (λ _. IsModified i (ok tt))
          (λ e. IsModified i (err e))
          (call
            (modify_instance_groups i.id config.security_group_ids)
            (λ s. c.modified s i.id config.security_group_ids))
  modify-Runs i rest config read = Runs-call _ _ at
    where
      at :
          (s : List Request) (r : Outcome (Unit {0}))
          → IsStarted (i ∷ rest) s
          → c.modified s i.id config.security_group_ids ≡ r
          → Holds Panicked
              (λ _. IsModified i (ok tt))
              (λ e. IsModified i (err e))
              r
              (modify_instance_groups i.id config.security_group_ids ∷ s)
      at _ (ok tt) (started input u b k) e = modified input u rest config read b k e
      at _ (err x) (started input u b k) e = modified input u rest config read b k e
      at _ panicked (started input u b k) e = inr (i, modified input u rest config read b k e)

  take_back-Runs :
      (i : Instance) (e : Error)
      → Runs Panicked
          (IsModified i (err e))
          (λ j. IsModified j (ok tt))
          (λ _. Unsettled)
          (take_back c i e)
  unfolding take_back
  take_back-Runs i e =
      Runs-attempt _ _ _ (Runs-call _ _ at) (λ _. Runs-raise _ (λ t x. x))
        (λ _. Runs-raise _ (λ t x. x))
    where
      at :
          (s : List Request) (r : Outcome (Option (Unit {0})))
          → IsModified i (err e) s
          → c.terminated s i.id ≡ r
          → Holds Panicked (λ _. Unsettled) (λ _. Unsettled) r (terminate_instance i.id ∷ s)
      at s (ok _) x k = inr (taken_back i e x)
      at s (err _) x k = inr (taken_back i e x)
      at s panicked x k = inl (inr (taken_back i e x))

  attach-Runs :
      (config : Config)
      → IsConfigured config
      → (instances : List Instance)
      → Runs Panicked
          (IsStarted instances)
          (λ i. IsModified i (ok tt))
          (λ _. Unsettled)
          (deref (first_instance instances) >>= λ i.
            attempt
              (call
                (modify_instance_groups i.id config.security_group_ids)
                (λ s. c.modified s i.id config.security_group_ids))
              (λ _. pure i)
              (take_back c i))
  unfolding first_instance ◌>>=◌
  attach-Runs config read [] = record { at = λ s x. inl (inl (none_started s x)) }
    where
      none_started : (s : List Request) → IsStarted [] s → IsRefused s
      none_started _ (started input u b e) = gave_none input u b (λ i rest k. ground (arith, e, k))
  attach-Runs config read (i ∷ rest) = record {
    at =
        (Runs-attempt
          (call (modify_instance_groups i.id config.security_group_ids)
            (λ s. c.modified s i.id config.security_group_ids))
          (λ _. pure i) (take_back c i) (modify-Runs i rest config read)
          (λ _. Runs-pure i (λ t x. x)) (take_back-Runs i)).at;
  }

  run_and_attach-Runs :
      (config : Config)
      → IsConfigured config
      → (input : RunInstancesInput)
      → Runs Panicked Before
          (λ i. IsModified i (ok tt))
          (λ _. Unsettled)
          (run_and_attach c config input)
  unfolding run_and_attach
  run_and_attach-Runs config read input =
      Runs-bind _ _
        (Runs-attempt _ _ _ (run-Runs input) (λ instances. Runs-pure instances (λ t x. x))
          (λ e. Runs-raise _ (λ t x. x)))
        (attach-Runs config read)

  connect-Runs :
      Runs Panicked
        (λ s. s ≡ s₀)
        (λ x s. Before s × IsConfigured x.0)
        (λ _. Unsettled)
        (connect c m)
  connect-Runs = record {
    at = λ s e.
        subst
          (λ t.
            Holds Panicked (λ x u. Before u × IsConfigured x.0) (λ _. Unsettled) (connect c m t).0
              (connect c m t).1)
          (sym e) (go (connect c m s₀).0 refl ((client-Emits c (λ k. refl) m).at s₀));
  }
    where
      go :
          (r : Outcome (Config × MachineConfig))
          → (connect c m s₀).0 ≡ r
          → Before (connect c m s₀).1
          → Holds Panicked
              (λ x u. Before u × IsConfigured x.0)
              (λ _. Unsettled)
              r
              (connect c m s₀).1
      go (ok (config, pc)) e b = (b, (pc, e))
      go (err x) e b = inl (never_asked b)
      go panicked e b = inl (inl (never_asked b))

  create-Runs :
      (user_data : String)
      → Runs Panicked
          (λ s. s ≡ s₀)
          (λ i. IsModified i (ok tt))
          (λ _. Unsettled)
          (create c m user_data)
  unfolding create packed
  create-Runs user_data = Runs-bind (connect c m) _ connect-Runs (λ (config, pc).
      Runs-given _ (λ read. Runs-bind _ _ (quiet _ (search emits_rules)) (λ path.
        Runs-bind _ _ (quiet _ (ami-Emits c (λ r h. ground (arith, h)) config pc)) (λ image.
          Runs-bind _ _ (quiet _ (search emits_rules depth 8))
            (λ text. run_and_attach-Runs config read _)))))

  -- However the API answers, where `Create` gives an instance, it is the one that its only request
  -- for instances was answered with, and the configured security groups were attached to it after
  -- that; where `Create` fails, its only request for an instance, if it made one, gave none, or the
  -- groups were refused for the instance that it gave, and the last request is to terminate that
  -- instance, whatever comes of it. A panic may also come right after the request for the groups.
  pub create-takes_back :
      (user_data : String)
      → Holds Panicked
          (λ i. IsModified i (ok tt))
          (λ _. Unsettled)
          (create c m user_data s₀).0
          (create c m user_data s₀).1
  create-takes_back user_data = (create-Runs user_data).at s₀ refl
