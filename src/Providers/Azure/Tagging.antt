-- ===== src/Providers/Azure/Tagging.antt =====
-- pkg/cloudprovider/provider/azure/provider.go: the UID on what Create and MigrateUID ask for.
use machine_controller.Base.{
  ◌==◌, Bool-cases, Pairs, String, ◌≡◌, refl, ◌∙◌, inl, inr, Bool, true, false, Option, some, List,
  [], ◌∷◌, map, arith, eq_refl,
}
use machine_controller.Kube.Sets.{has_finalizer}
use machine_controller.Outcome.Emits.{Emits, Emits-if, Emits-bind, Emits-then, emits_rules}
use machine_controller.Outcome.Yields.{
  Yields, Yields-pure, Yields-call, Yields-if, Yields-bind, Yields-bind-Yields, Emits-bind-Yields,
}
use machine_controller.Kube.{Machine}
use machine_controller.Providers.Common.{PublicKey, configured-Emits}
use machine_controller.Providers.Azure.{
  machine_uid_tag, Config, tag_of, put_tag, has_uid, uid_tags, vm_tags, Resource, PublicIp,
  ImageReference, VmParams, Request, list_nics, list_public_ips, list_disks, list_vms, get_subnet,
  get_virtual_network, get_nic, get_public_ip, get_vm, instance_view, create_public_ip, create_nic,
  create_vm, update_disk, wait_created, delete_resource, wait_deleted, add_machine_finalizer,
  drop_machine_finalizer, Cloud,
}
use machine_controller.Providers.Azure.Resources.{
  get_disks_by_machine_uid, create_or_update_public_ip_address, create_or_update_network_interface,
  ensure_finalizer,
}
use machine_controller.Providers.Azure.Machines.{
  vm_spec, assign_public_ip, start_vm, create_vm_of, create, retag_disks, if_finalizer, migrate_uid,
}
use machine_controller.Providers.Azure.Laws.{
  is_read, all_pages-Emits, get_client-Emits, described-Emits,
}
use machine_controller.Providers.Azure.Finalizers.{IsUpdater}

tag_of-put_tag :
    (k v : String) (tags : List (String × Option String)) → tag_of k (put_tag k v tags) ≡ some v
unfolding tag_of put_tag
tag_of-put_tag k v [] = ground (arith, eq_refl k)
tag_of-put_tag k v ((j, w) ∷ tags) = elim (Bool-cases (j == k)) [
  | inl e ↦ ground (arith, e, eq_refl k)
  | inr e ↦ ground (arith, e, tag_of-put_tag k v tags)
]

uid_tags-has : (uid : String) → has_uid uid (uid_tags uid) ≡ true
unfolding has_uid uid_tags tag_of
uid_tags-has uid = ground (arith, eq_refl uid)

put_tag-has :
    (uid : String) (tags : List (String × Option String))
    → has_uid uid (some (put_tag machine_uid_tag uid tags)) ≡ true
unfolding has_uid
put_tag-has uid tags = ground (arith, tag_of-put_tag machine_uid_tag uid tags, eq_refl uid)

-- The UID's tag is set last: no configured tag takes its place.
vm_tags-has : (pairs : Pairs) (uid : String) → has_uid uid (vm_tags pairs uid) ≡ true
unfolding vm_tags
vm_tags-has pairs uid = put_tag-has uid (map (λ (k, v). (k, some v)) pairs)

abbrev pub tags_with : String → Request → Bool
tags_with uid (create_public_ip _ p) = has_uid uid p.tags
tags_with uid (create_nic _ p) = has_uid uid p.tags
tags_with uid (create_vm _ _ p) = has_uid uid p.tags
tags_with uid (update_disk _ _ tags) = has_uid uid tags
tags_with uid (delete_resource _ _ _) = false
tags_with uid (drop_machine_finalizer _) = false
tags_with uid _ = true

read-tags_with : (uid : String) (e : Request) → is_read e ≡ true → tags_with uid e ≡ true
read-tags_with uid (list_nics _) h = refl
read-tags_with uid (list_public_ips _) h = refl
read-tags_with uid list_disks h = refl
read-tags_with uid list_vms h = refl
read-tags_with uid get_subnet h = refl
read-tags_with uid get_virtual_network h = refl
read-tags_with uid (get_nic _ _) h = refl
read-tags_with uid (get_public_ip _ _) h = refl
read-tags_with uid (get_vm _ _) h = refl
read-tags_with uid (instance_view _ _) h = refl
read-tags_with uid (create_public_ip _ _) h = absurd (ground (arith, h))
read-tags_with uid (create_nic _ _) h = absurd (ground (arith, h))
read-tags_with uid (create_vm _ _ _) h = absurd (ground (arith, h))
read-tags_with uid (update_disk _ _ _) h = absurd (ground (arith, h))
read-tags_with uid (wait_created _ _) h = refl
read-tags_with uid (delete_resource _ _ _) h = absurd (ground (arith, h))
read-tags_with uid (wait_deleted _ _) h = refl
read-tags_with uid (add_machine_finalizer _) h = refl
read-tags_with uid (drop_machine_finalizer _) h = absurd (ground (arith, h))

module _ (c : Cloud) (uid : String) where
  public_ip-tags :
      (name : String) (config : Config)
      → Emits (tags_with uid) (create_or_update_public_ip_address c name uid config)
  unfolding create_or_update_public_ip_address
  public_ip-tags name config = search (emits_rules, get_client-Emits, uid_tags-has) depth 16

  nic-tags :
      (name : String) (config : Config) (ip : Option PublicIp)
      → Emits (tags_with uid) (create_or_update_network_interface c name uid config ip)
  unfolding create_or_update_network_interface
  nic-tags name config ip = search (emits_rules, get_client-Emits, uid_tags-has) depth 16

  start_vm-tags :
      (config : Config) (name : String) (params : VmParams)
      → has_uid uid params.tags ≡ true
      → Emits (tags_with uid) (start_vm c config name params)
  unfolding start_vm
  start_vm-tags config name params h =
      search (emits_rules, described-Emits c (read-tags_with uid), h) depth 16

  ensure_finalizer-Emits :
      (name : String) (m : Machine) → Emits (tags_with uid) (ensure_finalizer c name m)
  unfolding ensure_finalizer
  ensure_finalizer-Emits name m = search emits_rules depth 8

  retag_disks-tags :
      (config : Config) (xs : List Resource) → Emits (tags_with uid) (retag_disks c config uid xs)
  unfolding retag_disks
  retag_disks-tags config [] = search emits_rules
  retag_disks-tags config (x ∷ xs) = Emits-bind _ _ (search emits_rules) (λ tags.
      Emits-bind _ _ (search emits_rules) (λ name.
        Emits-then _ _ (search (emits_rules, put_tag-has uid) depth 12)
          (retag_disks-tags config xs)))

module _ (c : Cloud) (updater : IsUpdater c) where
  ensure_finalizer-uid :
      (name uid : String) (m : Machine)
      → m.uid ≡ uid
      → Yields (λ m'. m'.uid ≡ uid) (ensure_finalizer c name m)
  unfolding ensure_finalizer
  ensure_finalizer-uid name uid m e =
      Yields-if (has_finalizer m.finalizers name) _ _ (λ _. Yields-pure m e)
        (λ _. Yields-call _ _ (λ s m' h. updater.updated_uid s m m' _ h ∙ e))

  assign_public_ip-Emits :
      (m : Machine) (config : Config) (name : String)
      → Emits (tags_with m.uid) (assign_public_ip c m config name)
  unfolding assign_public_ip
  assign_public_ip-Emits m config name =
      Emits-if config.assign_public_ip _ _
        (λ _.
          Emits-bind-Yields _ _ (ensure_finalizer-Emits c m.uid _ m)
            (ensure_finalizer-uid _ m.uid m refl)
            (λ m' e.
              Emits-bind _ _ (search (emits_rules, of_copy m' e)) (λ ip. search emits_rules)))
        (λ _. search emits_rules)
    where
      of_copy :
          (m' : Machine)
          → m'.uid ≡ m.uid
          → Emits (tags_with m.uid) (create_or_update_public_ip_address c name m'.uid config)
      of_copy m' e = rw e (public_ip-tags c m.uid name config)

  assign_public_ip-uid :
      (m : Machine) (config : Config) (name : String)
      → Yields (λ (m', ip). m'.uid ≡ m.uid) (assign_public_ip c m config name)
  unfolding assign_public_ip
  assign_public_ip-uid m config name =
      Yields-if config.assign_public_ip _ _
        (λ _.
          Yields-bind-Yields _ _ (ensure_finalizer-uid _ m.uid m refl)
            (λ m' e. Yields-bind _ _ (λ ip. Yields-pure _ e)))
        (λ _. Yields-pure _ refl)

  create_vm_of-Emits :
      (uid : String) (m : Machine) (user_data : String) (config : Config) (key : PublicKey)
      (image : ImageReference) (name : String) (ip : Option PublicIp)
      → m.uid ≡ uid
      → Emits (tags_with uid) (create_vm_of c m user_data config key image name ip)
  unfolding create_vm_of vm_spec
  create_vm_of-Emits uid m user_data config key image name ip e =
      Emits-bind-Yields _ _ (ensure_finalizer-Emits c uid _ m) (ensure_finalizer-uid _ uid m e)
        (λ m1 e1. Emits-bind _ _ (search (emits_rules, of_copy m1 e1)) (λ iface.
          Emits-bind _ _ (ensure_finalizer-Emits c uid _ m1) (λ m2.
            Emits-bind _ _ (ensure_finalizer-Emits c uid _ m2)
              (λ m3. start_vm-tags c uid config _ _ (tagged m1 e1)))))
    where
      of_copy :
          (m1 : Machine)
          → m1.uid ≡ uid
          → Emits (tags_with uid) (create_or_update_network_interface c name m1.uid config ip)
      of_copy m1 e1 = rw e1 (nic-tags c uid name config ip)

      tagged : (m1 : Machine) → m1.uid ≡ uid → has_uid uid (vm_tags config.tags m1.uid) ≡ true
      tagged m1 e1 = rw e1 (vm_tags-has config.tags uid)

  -- Every public IP address, network interface and virtual machine that `create` asks for carries the
  -- machine's UID, also where the configured tags name the UID's tag; it deletes nothing and takes no
  -- finalizer away. The updater does not give another machine back.
  pub create-tags_with :
      (m : Machine) (user_data : String) → Emits (tags_with m.uid) (create c m user_data)
  unfolding create
  create-tags_with m user_data =
      Emits-bind _ _ (search (emits_rules, configured-Emits)) (λ (config, pc).
        Emits-then _ _ (search (emits_rules, get_client-Emits)) (
          Emits-bind _ _ (search emits_rules) (λ image. Emits-bind _ _ (search emits_rules) (λ key.
            Emits-bind-Yields _ _ (assign_public_ip-Emits m config _)
              (assign_public_ip-uid m config _)
              (λ (m', ip) e. create_vm_of-Emits m.uid m' user_data config key image _ ip e)))))

module _ (c : Cloud) where
  -- Every resource that `migrate_uid` writes, also each disk, carries the new UID, and it deletes
  -- nothing.
  pub migrate_uid-tags_with :
      (m : Machine) (new : String) → Emits (tags_with new) (migrate_uid c m new)
  unfolding migrate_uid if_finalizer get_disks_by_machine_uid
  migrate_uid-tags_with m new =
      Emits-bind _ _ (search (emits_rules, configured-Emits)) (λ (config, pc).
        Emits-then _ _ (search (emits_rules, get_client-Emits)) (
          Emits-then _ _ (search (emits_rules, public_ip-tags c new) depth 12) (
            Emits-then _ _ (search (emits_rules, nic-tags c new) depth 12) (
              Emits-then _ _
                (search
                  (emits_rules, get_client-Emits, all_pages-Emits, retag_disks-tags c new config)
                  depth 14)
                (search (emits_rules, vm_tags-has) depth 12)))))
