-- ===== src/Providers/Linode/Laws.antt =====
-- pkg/cloudprovider/provider/linode/provider.go keeps the contract of providers.
use machine_controller.Base.{
  ℕ, String, ◌≡◌, Bool, true, false, some, List, [], ◌∷◌, ◌++◌, nat_eq, arith, eq_refl,
}
use machine_controller.Base.Decimal.{atoi, atoi-itoa}
use machine_controller.Outcome.{new_error, pure, raise, on_option}
use machine_controller.Outcome.Emits.{Emits, emits_rules, Emits-bind}
use machine_controller.Outcome.Yields.{
  Yields, yields_rules, Emits-bind-Yields, Yields-on_option, Yields-pure, Yields-raise,
}
use machine_controller.Kube.{Machine}
use machine_controller.Kube.Sets.{has, has-++}
use machine_controller.Providers.Common.{machine_config-Emits, first_that-Yields}
use machine_controller.Providers.Contract.{Provider, IsProvider, attempt-CleansUp}
use machine_controller.Providers.Linode.{
  Config, Linode, InstanceCreateOptions, Request, create_instance, delete_instance, update_instance,
  Cloud, instance_id,
}
use machine_controller.Providers.Linode.Instances.{
  list_by_name, get, remove_found, cleanup, create_options, create_and_wait, create,
}

abbrev pub is_read : Request → Bool
is_read (create_instance _ _) = false
is_read (delete_instance _ _) = false
is_read (update_instance _ _ _) = false
is_read _ = true

abbrev pub removes : Linode → Request → Bool
removes linode (delete_instance _ id) = nat_eq id linode.id
removes linode request = is_read request

abbrev pub creates : String → Request → Bool
creates uid (create_instance _ opts) = has uid opts.tags
creates uid request = is_read request

abbrev pub linode : Cloud → Provider Request Linode
linode c = record {
  get = get c;
  create = create c;
  cleanup = cleanup c;
  is_tagged = λ i uid. has uid i.tags;
  reads = is_read;
  removes = removes;
  creates = creates;
}

-- The UID is the last of the tags.
has_last : (uid : String) (tags : List String) → has uid (tags ++ (uid ∷ [])) ≡ true
has_last uid tags = ground (arith, has-++ uid tags (uid ∷ []), eq_refl uid)

module _ (c : Cloud) where
  get-reads : (m : Machine) → Emits is_read (get c m)
  unfolding get list_by_name
  get-reads m = search (emits_rules, machine_config-Emits) depth 14

  get-tagged : (m : Machine) → Yields (λ i. has m.uid i.tags ≡ true) (get c m)
  unfolding get
  get-tagged m = search (yields_rules, first_that-Yields) depth 12

  -- The id that is read back from its text is the id.
  read_back : (i : Linode) (k : ℕ) → atoi (instance_id i) ≡ some k → nat_eq k i.id ≡ true
  unfolding instance_id
  read_back i k h = ground (arith, atoi-itoa i.id, h)

  read_back-Yields :
      (i : Linode)
      → Yields
          (λ k. nat_eq k i.id ≡ true)
          (on_option
            (atoi (instance_id i))
            (raise {E = Request} (new_error "failed to convert instance id to int"))
            pure)
  read_back-Yields i =
      Yields-on_option _ _ _ (λ _. Yields-raise _) (λ k h. Yields-pure k (read_back i k h))

  cleanup-removes : (m : Machine) (i : Linode) → Emits (removes i) (remove_found c m i)
  unfolding remove_found
  cleanup-removes m i = Emits-bind _ _ (machine_config-Emits _ _) (λ (config, pc).
      Emits-bind-Yields _ _ (search emits_rules depth 8) (read_back-Yields i)
        (λ id same. search (emits_rules, same) depth 12))

  cleanup-unfinished :
      (m : Machine) (i : Linode) → Yields (λ done. done ≡ false) (remove_found c m i)
  unfolding remove_found
  cleanup-unfinished m i = search yields_rules depth 12

  create_and_wait-Emits :
      (uid : String) (config : Config) (opts : InstanceCreateOptions)
      → has uid opts.tags ≡ true
      → Emits (creates uid) (create_and_wait c config opts)
  unfolding create_and_wait
  create_and_wait-Emits uid config opts tagged = search (emits_rules, tagged) depth 12

  create-tags : (m : Machine) (user_data : String) → Emits (creates m.uid) (create c m user_data)
  unfolding create create_options
  create-tags m user_data = Emits-bind _ _ (machine_config-Emits _ _) (λ (config, pc).
      Emits-bind _ _ (search emits_rules) (λ key. Emits-bind _ _ (search emits_rules) (λ slug.
        Emits-bind _ _ (search emits_rules)
          (λ password. create_and_wait-Emits m.uid config _ (has_last m.uid config.tags)))))

  -- Linode's provider keeps the contract, whatever the API and the configuration answer.
  pub linode-IsProvider : IsProvider (linode c)
  unfolding cleanup
  linode-IsProvider = record {
    get_reads = get-reads;
    get_tagged = get-tagged;
    cleanup_refines = λ m s.
        attempt-CleansUp (linode c) m (remove_found c m) (cleanup-removes m) (cleanup-unfinished m)
          s;
    create_tags = create-tags;
  }
