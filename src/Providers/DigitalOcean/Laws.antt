-- ===== src/Providers/DigitalOcean/Laws.antt =====
-- pkg/cloudprovider/provider/digitalocean/provider.go keeps the contract of providers.
use machine_controller.Base.{
  ℕ, String, ◌≡◌, Bool, true, false, Option, none, some, List, [], ◌∷◌, ◌++◌, nat_eq, arith,
  eq_refl,
}
use machine_controller.Base.Decimal.{atoi, atoi-itoa}
use machine_controller.Outcome.{Error, Outcome, ok, err, new_error, Act, pure, raise, on_option}
use machine_controller.Outcome.Emits.{Emits, emits_rules, Emits-bind}
use machine_controller.Outcome.Yields.{
  Yields, yields_rules, Emits-bind-Yields, Yields-bind, Yields-on_option, Yields-pure, Yields-raise,
}
use machine_controller.Kube.{Machine}
use machine_controller.Kube.Sets.{has, has-++}
use machine_controller.Providers.Common.{MachineConfig, machine_config-Emits, first_that-eq-some}
use machine_controller.Kube.Cluster.{polls, polls-Emits}
use machine_controller.Providers.Contract.{Provider, IsProvider, attempt-CleansUp}
use machine_controller.Providers.DigitalOcean.{
  Config, Droplet, DropletCreateRequest, Request, delete_key_by_fingerprint, create_key,
  create_droplet, delete_droplet, create_tag, tag_resource, untag_resource, Cloud, instance_id,
  check_reply, is_machine_droplet,
}
use machine_controller.Providers.DigitalOcean.Instances.{
  key_exists, fetch_failed, upload_random_ssh_public_key, create_request, is_created,
  create_and_wait, create_with_key, remove_key, create, get, remove_found, cleanup,
}

abbrev pub is_read : Request → Bool
is_read (create_key _ _) = false
is_read (delete_key_by_fingerprint _ _) = false
is_read (create_droplet _ _) = false
is_read (delete_droplet _ _) = false
is_read (create_tag _ _) = false
is_read (tag_resource _ _ _) = false
is_read (untag_resource _ _ _) = false
is_read _ = true

abbrev pub removes : Droplet → Request → Bool
removes droplet (delete_droplet _ id) = nat_eq id droplet.id
removes droplet request = is_read request

-- A temporary SSH key may come and go.
abbrev pub creates : String → Request → Bool
creates uid (create_droplet _ request) = has uid request.tags
creates uid (create_key _ _) = true
creates uid (delete_key_by_fingerprint _ _) = true
creates uid request = is_read request

-- What is relied on: a poll calls its condition a finite number of times.
pub record IsPolling (c : Cloud) : Type 0 where
  pub poll_polls : (m : Act Request Bool) (s : List Request) → (n : ℕ) × (c.poll m s ≡ polls n m s)

abbrev pub digital_ocean : Cloud → Provider Request Droplet
digital_ocean c = record {
  get = get c;
  create = create c;
  cleanup = cleanup c;
  is_tagged = λ i uid. has uid i.tags;
  reads = is_read;
  removes = removes;
  creates = creates;
}

pub check_reply-Emits :
    {A : Type 0} {P : Request → Bool} (explain : Error → Error) (code : Option ℕ) (r : Outcome A)
    → Emits P (check_reply explain code r)
unfolding check_reply
check_reply-Emits explain code (ok a) = search emits_rules
check_reply-Emits explain code (err e) = search emits_rules
check_reply-Emits explain code Outcome.panicked = search emits_rules

pub key_exists-Emits :
    {P : Request → Bool} (code : Option ℕ) (r : Outcome (Option String))
    → Emits P (key_exists code r)
unfolding key_exists
key_exists-Emits code (ok (some _)) = search emits_rules
key_exists-Emits code (ok none) = search emits_rules
key_exists-Emits code (err e) = search emits_rules
key_exists-Emits code Outcome.panicked = search emits_rules

-- The UID is the last of the tags.
has_last : (uid : String) (tags : List String) → has uid (tags ++ (uid ∷ [])) ≡ true
has_last uid tags = ground (arith, has-++ uid tags (uid ∷ []), eq_refl uid)

module _ (c : Cloud) where
  get-reads : (m : Machine) → Emits is_read (get c m)
  unfolding get
  get-reads m = search (emits_rules, machine_config-Emits, check_reply-Emits) depth 14

  get-tagged : (m : Machine) → Yields (λ i. has m.uid i.tags ≡ true) (get c m)
  unfolding get
  get-tagged m = Yields-bind _ _ (λ (config, pc). Yields-bind _ _ (λ droplets.
      Yields-on_option _ _ _ (λ _. Yields-raise _)
        (λ i found.
          Yields-pure i
            (ground (arith, first_that-eq-some (is_machine_droplet m) droplets i found)))))

  -- The id that is read back from its text is the id.
  read_back : (i : Droplet) (k : ℕ) → atoi (instance_id i) ≡ some k → nat_eq k i.id ≡ true
  unfolding instance_id
  read_back i k h = ground (arith, atoi-itoa i.id, h)

  read_back-Yields :
      (i : Droplet)
      → Yields
          (λ k. nat_eq k i.id ≡ true)
          (on_option
            (atoi (instance_id i))
            (raise {E = Request} (new_error "failed to convert instance id to int"))
            pure)
  read_back-Yields i =
      Yields-on_option _ _ _ (λ _. Yields-raise _) (λ k h. Yields-pure k (read_back i k h))

  cleanup-removes : (m : Machine) (i : Droplet) → Emits (removes i) (remove_found c m i)
  unfolding remove_found
  cleanup-removes m i = Emits-bind _ _ (machine_config-Emits _ _) (λ (config, pc).
      Emits-bind-Yields _ _ (search emits_rules depth 8) (read_back-Yields i)
        (λ id same. search (emits_rules, same, check_reply-Emits) depth 12))

  cleanup-unfinished :
      (m : Machine) (i : Droplet) → Yields (λ done. done ≡ false) (remove_found c m i)
  unfolding remove_found
  cleanup-unfinished m i = search yields_rules depth 12

module _ {c : Cloud} (l : IsPolling c) where
  pub poll-Emits : {P : Request → Bool} (m : Act Request Bool) → Emits P m → Emits P (c.poll m)
  poll-Emits m h = record {
    at = λ s. let (n, e) = l.poll_polls m s in rw e ((polls-Emits n m h).at s);
  }

  is_created-Emits :
      (token : String) (id : ℕ) (uid uid' : String)
      → Emits (creates uid) (is_created c token id uid')
  unfolding is_created fetch_failed
  is_created-Emits token id uid uid' = search (emits_rules, check_reply-Emits) depth 12

  create_and_wait-Emits :
      (uid : String) (config : Config) (request : DropletCreateRequest)
      → has uid request.tags ≡ true
      → Emits (creates uid) (create_and_wait c config uid request)
  unfolding create_and_wait
  create_and_wait-Emits uid config request tagged =
      search (emits_rules, check_reply-Emits, poll-Emits, is_created-Emits, tagged) depth 14

  create_with_key-Emits :
      (m : Machine) (user_data : String) (config : Config) (pc : MachineConfig) (key : String)
      → Emits (creates m.uid) (create_with_key c m user_data config pc key)
  unfolding create_with_key create_request
  create_with_key-Emits m user_data config pc key =
      Emits-bind _ _ (search emits_rules)
        (λ slug. create_and_wait-Emits m.uid config _ (has_last m.uid config.tags))

  -- DigitalOcean's provider keeps the contract, whatever the API and the configuration answer.
  pub digital_ocean-IsProvider : IsProvider (digital_ocean c)
  unfolding cleanup create upload_random_ssh_public_key remove_key
  digital_ocean-IsProvider = record {
    get_reads = get-reads c;
    get_tagged = get-tagged c;
    cleanup_refines = λ m s.
        attempt-CleansUp (digital_ocean c) m (remove_found c m) (cleanup-removes c m)
          (cleanup-unfinished c m) s;
    create_tags = λ m user_data.
        search
          (
            emits_rules,
            machine_config-Emits,
            key_exists-Emits,
            check_reply-Emits,
            create_with_key-Emits m user_data,
          )
          depth 20;
  }
