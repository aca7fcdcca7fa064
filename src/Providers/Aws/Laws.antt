-- ===== src/Providers/Aws/Laws.antt =====
-- pkg/cloudprovider/provider/aws/provider.go keeps the contract of providers, if the API filters by
-- tags.
use machine_controller.Base.{
  ◌==◌, Bool-cases, Option-cases, all, String, ◌≡◌, refl, inl, inr, Bool, true, false, some, List,
  [], ◌∷◌, arith, eq_refl,
}
use machine_controller.Outcome.{ok, call}
use machine_controller.Outcome.Emits.{Emits, Emits-bind, emits_rules}
use machine_controller.Outcome.Yields.{
  Yields, Yields-pure, Yields-raise, Yields-call, Yields-on_option, Yields-bind,
  Yields-attempt-Yields, Yields-bind-Yields, yields_rules,
}
use machine_controller.Kube.{Machine}
use machine_controller.Providers.Common.{MachineConfig, first_that, machine_config-Emits}
use machine_controller.Providers.Contract.{Provider, IsProvider, attempt-CleansUp}
use machine_controller.Providers.Aws.{
  machine_uid_tag, Config, Image, Instance, RunInstancesInput, Credentials, Request, new_session,
  describe_instances, run_instances, modify_instance_groups, terminate_instance, create_tag, Cloud,
}
use machine_controller.Providers.Aws.Settings.{get_tag_value, checked, get_client}
use machine_controller.Providers.Aws.Images.{newest_of, find_default_ami_id, get_default_ami_id}
use machine_controller.Providers.Aws.Instances.{
  is_live, first_live, connect, get, remove_found, cleanup, ami_id_of, packed, run_instances_input,
  take_back, run_and_attach, create,
}

abbrev pub is_read : Request → Bool
is_read (run_instances _) = false
is_read (modify_instance_groups _ _) = false
is_read (terminate_instance _) = false
is_read (create_tag _ _) = false
is_read _ = true

abbrev pub removes : Instance → Request → Bool
removes i (terminate_instance id) = id == i.id
removes i request = is_read request

-- What was just created gets its security groups, or is taken back.
abbrev pub creates : String → Request → Bool
creates uid (run_instances input) = get_tag_value machine_uid_tag input.tags == uid
creates uid (modify_instance_groups _ _) = true
creates uid (terminate_instance _) = true
creates uid request = is_read request

abbrev pub has_uid : String → Instance → Bool
has_uid uid i = get_tag_value machine_uid_tag i.tags == uid

-- `DescribeInstances` with a filter answers with instances that pass it.
pub record IsFiltering (c : Cloud) : Type 0 where
  pub instances_tagged :
      (s : List Request) (uid : String) (reservations : List (List Instance))
      → c.instances s uid ≡ ok reservations
      → all (all (has_uid uid)) reservations ≡ true

abbrev pub aws : Cloud → Provider Request Instance
aws c = record {
  get = get c;
  create = create c;
  cleanup = cleanup c;
  is_tagged = λ i uid. has_uid uid i;
  reads = is_read;
  removes = removes;
  creates = creates;
}

first_that-all :
    (p q : Instance → Bool) (xs : List Instance) (a : Instance)
    → all q xs ≡ true
    → first_that p xs ≡ some a
    → q a ≡ true
unfolding first_that
first_that-all p q [] a h e = absurd (ground (arith, e))
first_that-all p q (x ∷ xs) a h e = elim (Bool-cases (p x)) [
  | inl k ↦ ground (arith, k, h, e)
  | inr k ↦ first_that-all p q xs a (ground (arith, h)) (ground (arith, k, e))
]

first_live-all :
    (q : Instance → Bool) (rs : List (List Instance)) (a : Instance)
    → all (all q) rs ≡ true
    → first_live rs ≡ some a
    → q a ≡ true
unfolding first_live
first_live-all q [] a h e = absurd (ground (arith, e))
first_live-all q (r ∷ rs) a h e = elim (Option-cases (first_that is_live r)) [
  | inl k ↦ first_live-all q rs a (ground (arith, h)) (ground (arith, k, e))
  | inr (x, k) ↦ first_that-all is_live q r a (ground (arith, h)) (ground (arith, k, e))
]

module _ (c : Cloud) where
  pub client-Emits :
      {P : Request → Bool}
      → ((k : Credentials) → P (new_session k) ≡ true)
      → (m : Machine) → Emits P (connect c m)
  unfolding connect get_client
  client-Emits h m = search (emits_rules, machine_config-Emits, h) depth 14

  get-reads : (m : Machine) → Emits is_read (get c m)
  unfolding get
  get-reads m = search (emits_rules, client-Emits, λ (k : Credentials). refl {a = true}) depth 14

  reservations-Yields :
      IsFiltering c
      → (m : Machine)
      → Yields
          (λ rs. all (all (has_uid m.uid)) rs ≡ true)
          (checked c "failed to list instances from aws"
            (call (describe_instances m.uid) (λ s. c.instances s m.uid)))
  reservations-Yields f m =
      Yields-attempt-Yields _ _ _ (Yields-call _ _ (λ s rs e. f.instances_tagged s m.uid rs e))
        (λ rs tagged. Yields-pure rs tagged) (λ e. Yields-raise _)

  get-tagged : IsFiltering c → (m : Machine) → Yields (λ i. has_uid m.uid i ≡ true) (get c m)
  unfolding get
  get-tagged f m = Yields-bind _ _ (λ (config, pc).
      Yields-bind-Yields _ _ (reservations-Yields f m) (λ rs tagged.
        Yields-on_option _ _ _ (λ _. Yields-raise _)
          (λ i found. Yields-pure i (first_live-all (has_uid m.uid) rs i tagged found))))

  cleanup-removes : (m : Machine) (i : Instance) → Emits (removes i) (remove_found c m i)
  unfolding remove_found
  cleanup-removes m i =
      search (emits_rules, client-Emits, λ (k : Credentials). refl {a = true}, eq_refl) depth 14

  cleanup-unfinished :
      (m : Machine) (i : Instance) → Yields (λ done. done ≡ false) (remove_found c m i)
  unfolding remove_found
  cleanup-unfinished m i = search yields_rules depth 12

  newest_of-Emits : {P : Request → Bool} (images : List Image) → Emits P (newest_of c images)
  unfolding newest_of
  newest_of-Emits [] = search emits_rules
  newest_of-Emits (image ∷ images) = search emits_rules

  image-Emits :
      {P : Request → Bool}
      → ((r : Request) → is_read r ≡ true → P r ≡ true)
      → (os region : String) → Emits P (get_default_ami_id c os region)
  unfolding get_default_ami_id find_default_ami_id
  image-Emits reads os region = search (emits_rules, newest_of-Emits, reads) depth 16

  pub ami-Emits :
      {P : Request → Bool}
      → ((r : Request) → is_read r ≡ true → P r ≡ true)
      → (config : Config) (pc : MachineConfig) → Emits P (ami_id_of c config pc)
  unfolding ami_id_of
  ami-Emits reads config pc = search (emits_rules, image-Emits, reads) depth 8

  run-Emits :
      (uid : String) (config : Config) (input : RunInstancesInput)
      → (get_tag_value machine_uid_tag input.tags == uid) ≡ true
      → Emits (creates uid) (run_and_attach c config input)
  unfolding run_and_attach take_back
  run-Emits uid config input tagged = search (emits_rules, tagged) depth 16

  input-tagged :
      (m : Machine) (config : Config) (path image text : String)
      → (get_tag_value machine_uid_tag (run_instances_input c m config path image text).tags
          == m.uid)
        ≡ true
  unfolding run_instances_input get_tag_value
  input-tagged m config path image text = eq_refl m.uid

  create-tags : (m : Machine) (user_data : String) → Emits (creates m.uid) (create c m user_data)
  unfolding create packed
  create-tags m user_data = Emits-bind _ _ (client-Emits (λ k. refl) m) (λ (config, pc).
      Emits-bind _ _ (search emits_rules) (λ path.
        Emits-bind _ _ (ami-Emits (λ r h. ground (arith, h)) config pc) (λ image.
          Emits-bind _ _ (search emits_rules depth 8)
            (λ text. run-Emits m.uid config _ (input-tagged m config path image text)))))

  -- The AWS provider keeps the contract, if the API answers a filter with instances that pass it.
  pub aws-IsProvider : IsFiltering c → IsProvider (aws c)
  unfolding cleanup
  aws-IsProvider f = record {
    get_reads = get-reads;
    get_tagged = get-tagged f;
    cleanup_refines = λ m s.
        attempt-CleansUp (aws c) m (remove_found c m) (cleanup-removes m) (cleanup-unfinished m) s;
    create_tags = create-tags;
  }
