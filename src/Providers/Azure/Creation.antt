-- ===== src/Providers/Azure/Creation.antt =====
-- pkg/cloudprovider/provider/azure/provider.go: Create asks for a resource after its finalizer is
-- written.
use machine_controller.Base.{String, ◌≡◌, refl, true, Option, List, [], ◌∷◌, ◌++◌, arith, eq_refl}
use machine_controller.Outcome.{Outcome, ok, err, Act}
use machine_controller.Outcome.Emits.{Emits, emits_rules}
use machine_controller.Outcome.Runs.{
  Holds, Runs, Runs-pure, Runs-if, Runs-mono, Runs-bind, Runs-then,
}
use machine_controller.Kube.{Machine}
use machine_controller.Kube.Sets.{has, has-++}
use machine_controller.Providers.Common.{PublicKey, configured-Emits}
use machine_controller.Providers.Azure.{
  finalizer_public_ip, finalizer_nic, finalizer_disks, finalizer_vm, Config, PublicIp, IpParams,
  NicParams, ImageReference, VmParams, Request, create_public_ip, create_nic, create_vm, Cloud,
}
use machine_controller.Providers.Azure.Resources.{
  create_or_update_public_ip_address, create_or_update_network_interface,
}
use machine_controller.Providers.Azure.Machines.{
  iface_name, public_ip_name, assign_public_ip, start_vm, create_vm_of, create,
}
use machine_controller.Providers.Azure.Machines.Addresses.{AzureVm, present}
use machine_controller.Providers.Azure.Laws.{get_client-Emits, described-Emits}
use machine_controller.Providers.Azure.Finalizers.{
  backed, guarded, IsUpdater, within, read-within, Guarded, Stands, quiet, ensure_finalizer-Runs,
}

has_middle : (name : String) (xs ys : List String) → has name (xs ++ (name ∷ ys)) ≡ true
has_middle name xs ys = ground (arith, has-++ name xs (name ∷ ys), eq_refl name)

has_later :
    (n name : String) (xs ys : List String) → has n ys ≡ true → has n (xs ++ (name ∷ ys)) ≡ true
has_later n name xs ys h = ground (arith, has-++ n xs (name ∷ ys), h)

module _ (c : Cloud) (names : List String) where
  public_ip-Emits :
      (name uid : String) (config : Config)
      → has finalizer_public_ip names ≡ true
      → Emits (within names) (create_or_update_public_ip_address c name uid config)
  unfolding create_or_update_public_ip_address
  public_ip-Emits name uid config h = search (emits_rules, get_client-Emits, allowed) depth 16
    where
      allowed : (rg : String) (p : IpParams) → within names (create_public_ip rg p) ≡ true
      allowed rg p = ground (arith, h)

  nic-Emits :
      (name uid : String) (config : Config) (ip : Option PublicIp)
      → has finalizer_nic names ≡ true
      → Emits (within names) (create_or_update_network_interface c name uid config ip)
  unfolding create_or_update_network_interface
  nic-Emits name uid config ip h = search (emits_rules, get_client-Emits, allowed) depth 16
    where
      allowed : (rg : String) (p : NicParams) → within names (create_nic rg p) ≡ true
      allowed rg p = ground (arith, h)

  start_vm-Emits :
      (config : Config) (name : String) (params : VmParams)
      → has finalizer_vm names ≡ true
      → has finalizer_disks names ≡ true
      → Emits (within names) (start_vm c config name params)
  unfolding start_vm
  start_vm-Emits config name params h k =
      search (emits_rules, described-Emits c (read-within names), allowed) depth 16
    where
      allowed : (rg n : String) (p : VmParams) → within names (create_vm rg n p) ≡ true
      allowed rg n p = ground (arith, h, k)

module _ (c : Cloud) (l : IsUpdater c) (present : List String) where
  abbrev Makes : {A : Type 0} → List String → (A → List String) → Act Request A → Type 0
  Makes names after m =
      Runs (Guarded present) (Stands present names) (λ a. Stands present (after a))
        (λ _. Guarded present) m

  abbrev seen : Machine × Option PublicIp → List String
  seen (m, ip) = m.finalizers ++ []

  shrink :
      (name : String) (xs : List String) (s : List Request)
      → Stands present (xs ++ (name ∷ [])) s
      → Stands present (xs ++ []) s
  shrink name xs s k = record {
    is_guarded = k.is_guarded;
    is_backed = λ n b. k.is_backed n (ground (arith, b, has-++ n xs [], has-++ n xs (name ∷ [])));
  }

  assign_public_ip-Makes :
      (m : Machine) (config : Config) (name : String)
      → Makes (m.finalizers ++ []) seen (assign_public_ip c m config name)
  unfolding assign_public_ip
  assign_public_ip-Makes m config name =
      Runs-if config.assign_public_ip _ _
        (λ _. Runs-bind _ _ (ensure_finalizer-Runs c l present finalizer_public_ip [] m) (λ m'.
          Runs-bind _ _ (quiet present _ _ (search (emits_rules, public_ip-Emits c, has_middle)))
            (λ ip. Runs-pure _ (shrink finalizer_public_ip m'.finalizers))))
        (λ _. Runs-pure _ (λ s k. k))

  create_vm_of-Runs :
      (m : Machine) (user_data : String) (config : Config) (key : PublicKey)
      (image : ImageReference) (name : String) (ip : Option PublicIp)
      → Runs
          (Guarded present)
          (Stands present (m.finalizers ++ []))
          (λ _. Guarded present)
          (λ _. Guarded present)
          (create_vm_of c m user_data config key image name ip)
  unfolding create_vm_of
  create_vm_of-Runs m user_data config key image name ip =
      Runs-bind _ _ (ensure_finalizer-Runs c l present finalizer_nic [] m) (λ m1.
        Runs-bind _ _ (quiet present _ _ (search (emits_rules, nic-Emits c, has_middle))) (λ iface.
          Runs-bind _ _ (ensure_finalizer-Runs c l present finalizer_disks (finalizer_nic ∷ []) m1)
            (λ m2.
              Runs-bind _ _
                (ensure_finalizer-Runs c l present finalizer_vm
                  (finalizer_disks ∷ finalizer_nic ∷ []) m2)
                (λ m3.
                  Runs-mono _ (λ s k. k) (λ s k. k) (λ v s k. k.is_guarded) (λ e s k. k)
                    (quiet present _ _ (
                      start_vm-Emits c _ config m3.spec.name _ (has_middle _ m3.finalizers _)
                        (has_later finalizer_disks finalizer_vm m3.finalizers _ refl)))))))

  create-Runs :
      (m : Machine) (user_data : String)
      → Runs
          (Guarded present)
          (Stands present (m.finalizers ++ []))
          (λ _. Guarded present)
          (λ _. Guarded present)
          (create c m user_data)
  unfolding create
  create-Runs m user_data =
      Runs-bind _ _ (quiet present _ _ (search (emits_rules, configured-Emits))) (λ (config, pc).
        Runs-then _ _ (quiet present _ _ (search (emits_rules, get_client-Emits))) (
          Runs-bind _ _ (quiet present _ _ (search emits_rules)) (λ image.
            Runs-bind _ _ (quiet present _ _ (search emits_rules)) (λ key.
              Runs-bind _ _ (assign_public_ip-Makes m config (public_ip_name m))
                (λ (m', ip). create_vm_of-Runs m' user_data config key image (iface_name m) ip)))))

at_start :
    (present : List String) (n : String) (s : List Request)
    → has n present ≡ true
    → backed present n s ≡ true
at_start present n [] h = h
at_start present n (e ∷ s) h = ground (arith, at_start present n s h)

module _ (c : Cloud) (l : IsUpdater c) where
  -- Whatever Azure, the updater and the configuration answer, and wherever `create` stops: each
  -- request for a public IP address, a network interface or a virtual machine comes after the writes
  -- of the finalizers that stand for it (for the virtual machine and for its disks), where the
  -- machine did not carry them at the start. The updater adds no finalizers of its own.
  pub create-guarded :
      (m : Machine) (user_data : String) (s : List Request)
      → guarded m.finalizers s ≡ true
      → guarded m.finalizers (create c m user_data s).1 ≡ true
  create-guarded m user_data s g = ended _ _ ((create-Runs c l m.finalizers m user_data).at s start)
    where
      start : Stands m.finalizers (m.finalizers ++ []) s
      start = record {
        is_guarded = g;
        is_backed = λ n b. at_start m.finalizers n s (ground (arith, b, has-++ n m.finalizers []));
      }

      ended :
          (r : Outcome AzureVm) (t : List Request)
          → Holds (Guarded m.finalizers) (λ _. Guarded m.finalizers) (λ _. Guarded m.finalizers) r t
          → Guarded m.finalizers t
      ended (ok _) t h = h
      ended (err _) t h = h
      ended Outcome.panicked t h = h
