-- ===== src/Providers/Azure/Finalizers.antt =====
-- pkg/cloudprovider/provider/azure/provider.go: the finalizers that Create writes before it asks for
-- a resource.
use machine_controller.Base.{
  ◌==◌, all, String, ◌≡◌, refl, ap, Bool, true, false, ◌&&◌, ◌||◌, List, [], ◌∷◌, ◌++◌, arith,
  eq_iff,
}
use machine_controller.Outcome.{Outcome, ok, err, Act}
use machine_controller.Outcome.Emits.{Emits}
use machine_controller.Outcome.Runs.{
  Holds, Runs, Runs-pure, Runs-call, Runs-if, Runs-mono, Runs-Emits,
}
use machine_controller.Kube.Sets.{has_finalizer, has-++}
use machine_controller.Providers.Azure.Resources.{ensure_finalizer}
use machine_controller.Providers.Azure.Laws.{is_read}
use machine_controller.Kube.{Machine}
use machine_controller.Kube.Sets.{has}
use machine_controller.Providers.Azure.{
  finalizer_public_ip, finalizer_nic, finalizer_disks, finalizer_vm, Request, list_nics,
  list_public_ips, list_disks, list_vms, get_subnet, get_virtual_network, get_nic, get_public_ip,
  get_vm, instance_view, create_public_ip, create_nic, create_vm, update_disk, wait_created,
  delete_resource, wait_deleted, add_machine_finalizer, drop_machine_finalizer, Cloud,
}
use machine_controller.Providers.Azure.Machines.Addresses.{present}

abbrev pub adds : String → Request → Bool
adds name (add_machine_finalizer n) = n == name
adds name _ = false

-- The finalizers that must be there before a resource is asked for: a virtual machine brings its
-- disks.
abbrev pub needs : Request → List String
needs (create_public_ip _ _) = finalizer_public_ip ∷ []
needs (create_nic _ _) = finalizer_nic ∷ []
needs (create_vm _ _ _) = finalizer_vm ∷ finalizer_disks ∷ []
needs _ = []

-- The finalizer was written, or it was there at the start.
abbrev pub backed : List String → String → List Request → Bool
backed present name [] = has name present
backed present name (e ∷ s) = adds name e || backed present name s

-- Each request for a resource comes after the writes of its finalizers.
abbrev pub guarded : List String → List Request → Bool
guarded present [] = true
guarded present (e ∷ s) = all (λ name. backed present name s) (needs e) && guarded present s

-- `data.Updater` gives the machine as it was written: the same machine, with no finalizer that
-- neither it had nor the change added.
pub record IsUpdater (c : Cloud) : Type 0 where
  pub updated_uid :
      (s : List Request) (m m' : Machine) (f : Machine → Machine)
      → c.updated s m f ≡ ok m'
      → m'.uid ≡ (f m).uid
  pub updated_finalizers :
      (s : List Request) (m m' : Machine) (f : Machine → Machine) (name : String)
      → c.updated s m f ≡ ok m'
      → has name m'.finalizers ≡ true
      → has name (f m).finalizers ≡ true

-- Only resources that these finalizers stand for are asked for.
abbrev pub within : List String → Request → Bool
within names e = all (λ name. has name names) (needs e)

pub read-within : (names : List String) (e : Request) → is_read e ≡ true → within names e ≡ true
read-within names (list_nics _) h = refl
read-within names (list_public_ips _) h = refl
read-within names list_disks h = refl
read-within names list_vms h = refl
read-within names get_subnet h = refl
read-within names get_virtual_network h = refl
read-within names (get_nic _ _) h = refl
read-within names (get_public_ip _ _) h = refl
read-within names (get_vm _ _) h = refl
read-within names (instance_view _ _) h = refl
read-within names (create_public_ip _ _) h = absurd (ground (arith, h))
read-within names (create_nic _ _) h = absurd (ground (arith, h))
read-within names (create_vm _ _ _) h = absurd (ground (arith, h))
read-within names (update_disk _ _ _) h = refl
read-within names (wait_created _ _) h = refl
read-within names (delete_resource _ _ _) h = refl
read-within names (wait_deleted _ _) h = refl
read-within names (add_machine_finalizer _) h = refl
read-within names (drop_machine_finalizer _) h = refl

module _ (present : List String) where
  abbrev pub Guarded : List Request → Type 0
  Guarded s = guarded present s ≡ true

  -- The log is guarded, and these finalizers are backed.
  pub record Stands (names : List String) (s : List Request) : Type 0 where
    pub is_guarded : Guarded s
    pub is_backed : (name : String) → has name names ≡ true → backed present name s ≡ true

  all-backed :
      (names wanted : List String) (s : List Request)
      → Stands names s
      → all (λ name. has name names) wanted ≡ true
      → all (λ name. backed present name s) wanted ≡ true
  all-backed names [] s k h = refl
  all-backed names (name ∷ wanted) s k h =
      ground (arith, h, k.is_backed name, all-backed names wanted s k)

  Stands-step :
      (names : List String) (e : Request) (s : List Request)
      → within names e ≡ true
      → Stands names s
      → Stands names (e ∷ s)
  Stands-step names e s h k = record {
    is_guarded = ground (arith, k.is_guarded, all-backed names (needs e) s k h);
    is_backed = λ name b. ground (arith, k.is_backed name b);
  }

  pub quiet :
      {A : Type 0} (names : List String) (m : Act Request A)
      → Emits (within names) m
      → Runs Guarded (Stands names) (λ _. Stands names) (λ _. Guarded) m
  quiet names m h =
      Runs-mono m (λ s k. k.is_guarded) (λ s k. k) (λ a s k. k) (λ e s k. k.is_guarded)
        (Runs-Emits m (Stands-step names) h)

module _ (c : Cloud) (l : IsUpdater c) (present : List String) where
  written :
      (name : String) (names : List String) (m m' : Machine) (s : List Request)
      → Stands present (m.finalizers ++ names) s
      → ((n : String) → has n m'.finalizers ≡ true → has n (m.finalizers ++ (name ∷ [])) ≡ true)
      → Stands present (m'.finalizers ++ (name ∷ names)) (add_machine_finalizer name ∷ s)
  written name names m m' s k h = record {
    is_guarded = k.is_guarded;
    is_backed = λ n b. ground (
      arith,
      b,
      h n,
      k.is_backed n,
      has-++ n m.finalizers names,
      has-++ n m'.finalizers (name ∷ names),
      has-++ n m.finalizers (name ∷ []),
    );
  }

  there :
      (name : String) (names : List String) (m : Machine) (s : List Request)
      → has name m.finalizers ≡ true
      → Stands present (m.finalizers ++ names) s
      → Stands present (m.finalizers ++ (name ∷ names)) s
  there name names m s h k = record {
    is_guarded = k.is_guarded;
    is_backed = λ n b. k.is_backed n (either n b);
  }
    where
      either :
          (n : String)
          → has n (m.finalizers ++ (name ∷ names)) ≡ true
          → has n (m.finalizers ++ names) ≡ true
      either n b = ground (
        arith,
        b,
        h,
        has-++ n m.finalizers names,
        has-++ n m.finalizers (name ∷ names),
        eq_iff name n,
        λ (e : name ≡ n). ap (λ x. has x m.finalizers) e,
      )

  pub ensure_finalizer-Runs :
      (name : String) (names : List String) (m : Machine)
      → Runs
          (Guarded present)
          (Stands present (m.finalizers ++ names))
          (λ m'. Stands present (m'.finalizers ++ (name ∷ names)))
          (λ _. Guarded present)
          (ensure_finalizer c name m)
  unfolding ensure_finalizer has_finalizer
  ensure_finalizer-Runs name names m =
      Runs-if (has name m.finalizers) _ _ (λ e. Runs-pure m (λ s. there name names m s e))
        (λ e. Runs-call _ _ answered)
    where
      answered :
          (s : List Request) (r : Outcome Machine)
          → Stands present (m.finalizers ++ names) s
          → c.updated s m (λ x. record x { finalizers = x.finalizers ++ (name ∷ []) }) ≡ r
          → Holds
              (Guarded present)
              (λ m'. Stands present (m'.finalizers ++ (name ∷ names)))
              (λ _. Guarded present)
              r
              (add_machine_finalizer name ∷ s)
      answered s (ok m') k e = written name names m m' s k (λ n. l.updated_finalizers s m m' _ n e)
      answered s (err _) k e = k.is_guarded
      answered s Outcome.panicked k e = k.is_guarded
