-- ===== src/Providers/Hetzner/Laws.antt =====
-- pkg/cloudprovider/provider/hetzner/provider.go keeps the contract of providers.
use machine_controller.Base.{
  String, ◌≡◌, Bool, true, false, nat_eq_refl, [], ◌∷◌, nat_eq, ◌==◌, index, eq_refl,
}
use machine_controller.Outcome.Emits.{Emits, emits_rules, Emits-bind}
use machine_controller.Outcome.Yields.{Yields, yields_rules, Emits-bind-Yields}
use machine_controller.Kube.{Machine}
use machine_controller.Providers.Common.{machine_config-Emits, first_that-Yields}
use machine_controller.Providers.Contract.{Provider, IsProvider, attempt-CleansUp}
use machine_controller.Providers.Hetzner.Instances.{
  get, delete, cleanup, remove_found, look_up_if_set, server_create_opts, upload_key, remove_key,
  create_with, create,
}
use machine_controller.Providers.Hetzner.{
  Server, Config, ServerCreateOpts, Request, Cloud, create_ssh_key, delete_ssh_key, create_server,
  update_server, delete_server, machine_uid_label_key, has_uid, uid_labels, look_up_location,
  look_up_datacenter, look_up_server_type,
}

abbrev pub is_read : Request → Bool
is_read (create_ssh_key _ _) = false
is_read (delete_ssh_key _ _) = false
is_read (create_server _ _) = false
is_read (update_server _ _ _) = false
is_read (delete_server _ _) = false
is_read _ = true

abbrev pub removes : Server → Request → Bool
removes server (delete_server _ x) = nat_eq x.id server.id
removes server (create_ssh_key _ _) = false
removes server (delete_ssh_key _ _) = false
removes server (create_server _ _) = false
removes server (update_server _ _ _) = false
removes server _ = true

-- A temporary SSH key may come and go; a server gets the label of the UID.
abbrev pub creates : String → Request → Bool
creates uid (create_server _ opts) = index machine_uid_label_key opts.labels == uid
creates uid (update_server _ _ _) = false
creates uid (delete_server _ _) = false
creates uid _ = true

abbrev pub hetzner : Cloud → Provider Request Server
hetzner c = record {
  get = get c;
  create = create c;
  cleanup = cleanup c;
  is_tagged = λ server uid. has_uid uid server;
  reads = is_read;
  removes = removes;
  creates = creates;
}

module _ (c : Cloud) where
  get-reads : (m : Machine) → Emits is_read (get c m)
  unfolding get
  get-reads m = search (emits_rules, machine_config-Emits) depth 12

  get-tagged : (m : Machine) → Yields (λ i. has_uid m.uid i ≡ true) (get c m)
  unfolding get
  get-tagged m = search (yields_rules, first_that-Yields) depth 12

  cleanup-removes : (m : Machine) (i : Server) → Emits (removes i) (remove_found c m i)
  unfolding remove_found delete
  cleanup-removes m i = search (emits_rules, machine_config-Emits, nat_eq_refl) depth 12

  cleanup-unfinished :
      (m : Machine) (i : Server) → Yields (λ done. done ≡ false) (remove_found c m i)
  unfolding remove_found delete
  cleanup-unfinished m i = search (yields_rules) depth 12

  opts-labels :
      (m : Machine) (user_data : String) (config : Config) (image : String)
      → Yields (λ o. o.labels ≡ uid_labels m.uid) (server_create_opts c m user_data config image)
  unfolding server_create_opts
  opts-labels m user_data config image = search yields_rules depth 12

  opts-Emits :
      (m : Machine) (user_data : String) (config : Config) (image : String)
      → Emits (creates m.uid) (server_create_opts c m user_data config image)
  unfolding server_create_opts look_up_if_set look_up_datacenter look_up_location
      look_up_server_type
  opts-Emits m user_data config image = search emits_rules depth 16

  upload_key-Emits : (uid : String) (config : Config) → Emits (creates uid) (upload_key c config)
  unfolding upload_key
  upload_key-Emits uid config = search emits_rules depth 12

  create_with-Emits :
      (uid : String) (config : Config) (opts : ServerCreateOpts)
      → opts.labels ≡ uid_labels uid
      → Emits (creates uid) (create_with c config opts)
  unfolding create_with
  create_with-Emits uid config opts e = search (emits_rules, tagged) depth 8
    where
      tagged : (index machine_uid_label_key opts.labels == uid) ≡ true
      tagged = rw (e, eq_refl uid)

  create-tags : (m : Machine) (user_data : String) → Emits (creates m.uid) (create c m user_data)
  unfolding create remove_key
  create-tags m user_data = Emits-bind _ _ (machine_config-Emits _ _) (λ (config, pc).
      Emits-bind _ _ (search emits_rules) (λ image.
        Emits-bind-Yields _ _ (opts-Emits m user_data config image)
          (opts-labels m user_data config image)
          (λ opts e. Emits-bind _ _ (upload_key-Emits m.uid config) (λ key. search (
            emits_rules,
            create_with-Emits m.uid config (record opts { ssh_keys = key ∷ [] }) e,
          )))))

  -- Hetzner's provider keeps the contract, whatever the API and the configuration answer.
  pub hetzner-IsProvider : IsProvider (hetzner c)
  unfolding cleanup
  hetzner-IsProvider = record {
    get_reads = get-reads;
    get_tagged = get-tagged;
    cleanup_refines = λ m s.
        attempt-CleansUp (hetzner c) m (remove_found c m) (cleanup-removes m) (cleanup-unfinished m)
          s;
    create_tags = create-tags;
  }
