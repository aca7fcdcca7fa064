-- ===== src/Kube/Cluster.antt =====
-- What the controller does not implement, as the fields of one record: the settings that it was
-- started with, the answers of the API server, the listers and the cloud provider, and the
-- functions of the libraries that it calls. An answer may depend on all calls made before.
use machine_controller.Base.{
  ℕ, zero, suc, String, ◌≡◌, refl, ◌∙◌, Bool, true, Option, List, if◌then◌else◌,
}
use machine_controller.Outcome.{
  Error, timed_out, is_conflict, Outcome, ok, Act, pure, raise, attempt, ◌>>=◌,
}
use machine_controller.Outcome.Emits.{Emits, emits_rules, Emits-attempt, Emits-bind}
use machine_controller.Kube.Objects.{
  ObjectReference, Taint, Machine, MachineSpec, Node, Pod, Secret, Instance, Kubeconfig,
}
use machine_controller.Kube.Sets.{KeepsMembers}
use machine_controller.Kube.Calls.{Call}

-- A step of the scheduler while pods are evicted: a goroutine goes round its loop once, or the
-- `select` of the waiting goroutine takes one of its three cases.
pub data Move : Type 0 where
  goroutine : ℕ → Move
  select_finished select_error select_timeout : Move

pub record ProviderConfig : Type 0 where
  pub cloud_provider : String
  pub operating_system : String
  pub ssh_public_keys : List String

pub record Cluster : Type 0 where
  -- the controller's settings; durations and times are in seconds
  pub skip_eviction_after : ℕ
  pub join_cluster_timeout : Option ℕ
  pub bootstrap_service_account : Option (String × String)
  -- answers
  pub now : List Call → ℕ
  pub machines : List Call → Outcome (List Machine)
  pub machine : List Call → String → String → Outcome Machine
  pub updated_machine : List Call → Machine → Outcome Machine
  pub deleted_machine : List Call → String → Outcome (Unit {0})
  pub lister_node : List Call → String → Outcome Node
  pub api_node : List Call → String → Outcome Node
  pub nodes : List Call → Outcome (List Node)
  pub updated_node : List Call → Node → Outcome Node
  pub deleted_node : List Call → String → Outcome (Unit {0})
  pub pods : List Call → String → Outcome (List Pod)
  pub pod : List Call → String → String → Outcome Pod
  pub evicted : List Call → Pod → Outcome (Unit {0})
  pub schedule : List Call → List Move
  pub labelled_secrets : List Call → String → Outcome (List Secret)
  pub secret : List Call → String → String → Outcome Secret
  pub service_account : List Call → String → String → Outcome (List String)
  pub created_secret : List Call → Secret → Outcome (Unit {0})
  pub updated_secret : List Call → Secret → Outcome (Unit {0})
  pub info_kubeconfig : List Call → Outcome Kubeconfig
  pub random_string : List Call → ℕ → String
  pub next_key : List Call → Option String
  pub instance_of : List Call → Machine → Outcome (Option Instance)
  pub created : List Call → Machine → String → Outcome (Option Instance)
  pub cleaned_up : List Call → Machine → Outcome Bool
  pub cloud_config : List Call → MachineSpec → Outcome (String × String)
  pub user_data : List Call → MachineSpec → Kubeconfig → String → String → Outcome String
  pub plugin_for_os : List Call → String → Outcome (Unit {0})
  -- functions of the libraries
  pub parse_config : String → Outcome ProviderConfig
  pub split_key : String → Outcome (String × String)
  pub key_of : Machine → Outcome String
  pub reference_to : Node → Outcome ObjectReference
  pub equal_machines : Machine → Machine → Bool
  pub equal_references : Option ObjectReference → ObjectReference → Bool
  pub match_taint : Taint → Taint → Bool
  pub equal_fold : String → String → Bool
  pub trim_left_slashes : String → String
  pub sorted : List String → List String
  pub format_time : ℕ → String
  pub parse_time : String → Outcome ℕ
  pub error_text : Error → String
  pub retry_machine : Act Call Machine → Act Call Machine
  pub retry_node : Act Call Node → Act Call Node
  pub label_requirement : String → Outcome (Unit {0})
  pub poll : Act Call Bool → Act Call (Unit {0})

-- `retry.RetryOnConflict` calls the function again while it answers with a conflict, and then
-- passes its last answer on.
unfoldable pub attempts : {E A : Type 0} → ℕ → Act E A → Act E A
attempts zero m = m
attempts (suc n) m =
    attempt m pure (λ e. let again = attempts n m in if is_conflict e then again else raise e)

-- `wait.Poll` calls the condition until it holds, fails, or the time is up.
unfoldable pub polls : {E : Type 0} → ℕ → Act E Bool → Act E (Unit {0})
polls zero m = raise timed_out
polls (suc n) m = m >>= λ holds. let again = polls n m in if holds then pure tt else again

-- What the code relies on.
pub record IsLawful (c : Cluster) : Type 0 where
  pub retry_machine_attempts :
      (m : Act Call Machine) (s : List Call) → (n : ℕ) × (c.retry_machine m s ≡ attempts n m s)
  pub retry_node_attempts :
      (m : Act Call Node) (s : List Call) → (n : ℕ) × (c.retry_node m s ≡ attempts n m s)
  pub poll_polls : (m : Act Call Bool) (s : List Call) → (n : ℕ) × (c.poll m s ≡ polls n m s)
  pub sorted_members : KeepsMembers c.sorted
  pub match_taint_refl : (t : Taint) → c.match_taint t t ≡ true

-- A function that succeeds is called once.
pub attempts-eq-ok :
    {E A : Type 0} (n : ℕ) (m : Act E A) (s : List E) (a : A) (t : List E)
    → m s ≡ (ok a, t)
    → attempts n m s ≡ (ok a, t)
unfolding attempts attempt ◌>>=◌
attempts-eq-ok zero m s a t e = e
attempts-eq-ok (suc n) m s a t e = rw e refl

module _ {E : Type 0} {P : E → Bool} where
  pub attempts-Emits : {A : Type 0} (n : ℕ) (m : Act E A) → Emits P m → Emits P (attempts n m)
  unfolding attempts
  attempts-Emits zero m h = h
  attempts-Emits (suc n) m h =
      let again = attempts-Emits n m h in
      Emits-attempt m _ _ h (λ a. search emits_rules) (λ e. search (emits_rules, again))

  pub polls-Emits : (n : ℕ) (m : Act E Bool) → Emits P m → Emits P (polls n m)
  unfolding polls
  polls-Emits zero m h = search emits_rules
  polls-Emits (suc n) m h =
      let again = polls-Emits n m h in Emits-bind m _ h (λ holds. search (emits_rules, again))

module _ {c : Cluster} (l : IsLawful c) {P : Call → Bool} where
  pub retry_machine-Emits : (m : Act Call Machine) → Emits P m → Emits P (c.retry_machine m)
  retry_machine-Emits m h = record {
    at = λ s. let (n, e) = l.retry_machine_attempts m s in rw e ((attempts-Emits n m h).at s);
  }

  pub retry_node-Emits : (m : Act Call Node) → Emits P m → Emits P (c.retry_node m)
  retry_node-Emits m h = record {
    at = λ s. let (n, e) = l.retry_node_attempts m s in rw e ((attempts-Emits n m h).at s);
  }

  pub poll-Emits : (m : Act Call Bool) → Emits P m → Emits P (c.poll m)
  poll-Emits m h = record {
    at = λ s. let (n, e) = l.poll_polls m s in rw e ((polls-Emits n m h).at s);
  }

module _ {c : Cluster} (l : IsLawful c) where
  pub retry_machine-eq-ok :
      (m : Act Call Machine) (s : List Call) (a : Machine) (t : List Call)
      → m s ≡ (ok a, t)
      → c.retry_machine m s ≡ (ok a, t)
  retry_machine-eq-ok m s a t e =
      let (n, retried) = l.retry_machine_attempts m s in retried ∙ attempts-eq-ok n m s a t e
