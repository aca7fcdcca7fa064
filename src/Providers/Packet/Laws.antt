-- ===== src/Providers/Packet/Laws.antt =====
-- pkg/cloudprovider/provider/packet/provider.go keeps the contract of providers.
use machine_controller.Base.{
  ℕ, String, ◌≡◌, refl, Bool, true, false, Option, some, [], ◌∷◌, ◌==◌, arith, eq_refl,
}
use machine_controller.Outcome.{Outcome, ok, err}
use machine_controller.Outcome.Emits.{Emits, emits_rules}
use machine_controller.Outcome.Yields.{
  Yields, yields_rules, Yields-bind, Yields-on_option, Yields-pure, Yields-raise,
  Yields-bind-Yields,
}
use machine_controller.Kube.{Machine}
use machine_controller.Providers.Common.{machine_config-Emits, first_that-eq-some}
use machine_controller.Providers.Contract.{Provider, IsProvider, attempt-CleansUp}
use machine_controller.Providers.Packet.{
  Config, Device, Request, list_devices, create_device, update_device, delete_device, Cloud,
  generate_tag, item_in_list, check_reply, create_request,
}
use machine_controller.Providers.Packet.Instances.{
  get_device_by_tag, get_packet_device, get, remove_found, cleanup, create,
}

abbrev pub is_read : Request → Bool
is_read (create_device _ _) = false
is_read (update_device _ _ _) = false
is_read (delete_device _ _) = false
is_read _ = true

abbrev pub removes : Device → Request → Bool
removes device (delete_device _ id) = id == device.id
removes device request = is_read request

abbrev pub creates : String → Request → Bool
creates uid (create_device _ request) = item_in_list request.tags (generate_tag uid)
creates uid request = is_read request

abbrev pub packet : Cloud → Provider Request Device
packet c = record {
  get = get c;
  create = create c;
  cleanup = cleanup c;
  is_tagged = λ device uid. item_in_list device.tags (generate_tag uid);
  reads = is_read;
  removes = removes;
  creates = creates;
}

check_reply-Emits :
    {A : Type 0} {P : Request → Bool} (msg : String) (code : Option ℕ) (r : Outcome A)
    → Emits P (check_reply msg code r)
unfolding check_reply
check_reply-Emits msg code (ok a) = search emits_rules
check_reply-Emits msg code (err e) = search emits_rules
check_reply-Emits msg code Outcome.panicked = search emits_rules

module _ (c : Cloud) where
  get_packet_device-Emits :
      {P : Request → Bool} (h : (key project : String) → P (list_devices key project) ≡ true)
      (m : Machine)
      → Emits P (get_packet_device c m)
  unfolding get_packet_device get_device_by_tag
  get_packet_device-Emits h m =
      search (emits_rules, machine_config-Emits, check_reply-Emits, h) depth 14

  get-reads : (m : Machine) → Emits is_read (get c m)
  unfolding get
  get-reads m =
      search (emits_rules, get_packet_device-Emits, λ (k p : String). refl {a = true}) depth 14

  by_tag-Yields :
      (config : Config) (tag : String)
      → Yields
          (λ found. (i : Device) → found ≡ some i → item_in_list i.tags tag ≡ true)
          (get_device_by_tag c config tag)
  unfolding get_device_by_tag
  by_tag-Yields config tag = Yields-bind _ _ (λ devices.
      Yields-pure _ (first_that-eq-some (λ device. item_in_list device.tags tag) devices))

  device-Yields :
      (m : Machine)
      → Yields
          (λ found.
            (i : Device) → found.0 ≡ some i → item_in_list i.tags (generate_tag m.uid) ≡ true)
          (get_packet_device c m)
  unfolding get_packet_device
  device-Yields m = Yields-bind _ _ (λ (config, raw, pc).
      Yields-bind-Yields _ _ (by_tag-Yields config (generate_tag m.uid))
        (λ device h. Yields-pure _ h))

  get-tagged :
      (m : Machine) → Yields (λ i. item_in_list i.tags (generate_tag m.uid) ≡ true) (get c m)
  unfolding get
  get-tagged m = Yields-bind-Yields _ _ (device-Yields m) (λ (found, config) h.
      Yields-on_option _ _ _ (λ _. Yields-raise _) (λ i e. Yields-pure i (h i e)))

  cleanup-removes : (m : Machine) (i : Device) → Emits (removes i) (remove_found c m i)
  unfolding remove_found
  cleanup-removes m i =
      search (emits_rules, machine_config-Emits, check_reply-Emits, eq_refl) depth 14

  cleanup-unfinished :
      (m : Machine) (i : Device) → Yields (λ done. done ≡ false) (remove_found c m i)
  unfolding remove_found
  cleanup-unfinished m i = search yields_rules depth 12

  has_own : (uid : String) → item_in_list (generate_tag uid ∷ []) (generate_tag uid) ≡ true
  unfolding item_in_list
  has_own uid = ground (arith, eq_refl (generate_tag uid))

  create-tags : (m : Machine) (user_data : String) → Emits (creates m.uid) (create c m user_data)
  unfolding create create_request
  create-tags m user_data =
      search (emits_rules, machine_config-Emits, check_reply-Emits, has_own) depth 16

  -- Packet's provider keeps the contract, whatever the API and the configuration answer.
  pub packet-IsProvider : IsProvider (packet c)
  unfolding cleanup
  packet-IsProvider = record {
    get_reads = get-reads;
    get_tagged = get-tagged;
    cleanup_refines = λ m s.
        attempt-CleansUp (packet c) m (remove_found c m) (cleanup-removes m) (cleanup-unfinished m)
          s;
    create_tags = create-tags;
  }
