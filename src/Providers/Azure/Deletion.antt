-- ===== src/Providers/Azure/Deletion.antt =====
-- pkg/cloudprovider/provider/azure/provider.go: what Cleanup asks for before it takes a finalizer away.
use machine_controller.Base.{
  ◌==◌, any, String, ◌≡◌, refl, Bool, true, false, not, ◌&&◌, ◌||◌, Option, none, some, List, [],
  ◌∷◌, ◌++◌, map, arith,
}
use machine_controller.Outcome.{
  Error, new_error, is_instance_not_found, Outcome, ok, err, Act, call,
}
use machine_controller.Outcome.Emits.{Emits}
use machine_controller.Outcome.Yields.{Yields, Yields-pure, Yields-raise, Yields-bind-Yields}
use machine_controller.Outcome.Runs.{Holds, Runs, Runs-call, Runs-mono, Runs-Emits}
use machine_controller.Providers.Azure.{
  finalizer_public_ip, finalizer_nic, finalizer_disks, finalizer_vm, has_uid, Resource, Vm, Kind,
  Request, list_nics, list_public_ips, list_disks, list_vms, get_subnet, get_virtual_network,
  get_nic, get_public_ip, get_vm, instance_view, create_public_ip, create_nic, create_vm,
  update_disk, wait_created, delete_resource, wait_deleted, add_machine_finalizer,
  drop_machine_finalizer, Pages, done, page, broken, Cloud,
}
use machine_controller.Providers.Azure.Resources.{all_pages, vm_resource}
use machine_controller.Providers.Azure.Laws.{is_read}

-- The finalizer that stands for the resources of a kind; it tells the kinds apart.
abbrev pub finalizer_of : Kind → String
finalizer_of Kind.nic = finalizer_nic
finalizer_of Kind.public_ip = finalizer_public_ip
finalizer_of Kind.disk = finalizer_disks
finalizer_of Kind.vm = finalizer_vm

abbrev pub same_kind : Kind → Kind → Bool
same_kind j k = finalizer_of j == finalizer_of k

abbrev pub removes : Kind → String → Request → Bool
removes kind name (delete_resource k _ n) = same_kind k kind && n == name
removes kind name _ = false

abbrev pub drops : String → Request → Bool
drops finalizer (drop_machine_finalizer n) = n == finalizer
drops finalizer _ = false

-- The resource was asked to be deleted.
abbrev pub asked : Kind → String → List Request → Bool
asked kind name s = any (removes kind name) s

-- The finalizer of the kind was taken away only after that.
abbrev pub kept : Kind → String → List Request → Bool
kept kind name [] = true
kept kind name (e ∷ s) =
    (not (drops (finalizer_of kind) e) || asked kind name s) && kept kind name s

abbrev pub is_name : String → Option String → Bool
is_name name none = false
is_name name (some n) = n == name

-- A resource of this name carries the UID.
abbrev pub occurs : String → String → List Resource → Bool
occurs uid name xs = any (λ x. has_uid uid x.tags && is_name name x.name) xs

-- The pages are read to their end.
abbrev pub ReadsAs : {A : Type 0} → Pages A → List A → Type 0
ReadsAs done xs = xs ≡ []
ReadsAs {A} (page values next) xs = (ys : List A) × ReadsAs next ys × (xs ≡ values ++ ys)
ReadsAs (broken _ _) xs = ⊥

abbrev pub pages_of : Cloud → Kind → List Request → Outcome (Pages Resource)
pages_of c Kind.nic s = c.nics s
pages_of c Kind.public_ip s = c.public_ips s
pages_of c Kind.disk s = c.disks s
pages_of c Kind.vm s = err (new_error "listed with more fields")

-- Azure lists the resource under the machine's UID until it is asked to delete it, and its errors
-- are not the provider's own.
pub record IsListed (c : Cloud) (kind : Kind) (uid name : String) : Type 0 where
  pub listed :
      (k : Kind) (s : List Request) (pages : Pages Resource) (xs : List Resource)
      → same_kind k kind ≡ true
      → asked kind name s ≡ false
      → pages_of c k s ≡ ok pages
      → ReadsAs pages xs
      → occurs uid name xs ≡ true
  pub listed_vm :
      (s : List Request) (pages : Pages Vm) (xs : List Vm)
      → same_kind Kind.vm kind ≡ true
      → asked kind name s ≡ false
      → c.vms s ≡ ok pages
      → ReadsAs pages xs
      → occurs uid name (map vm_resource xs) ≡ true
  pub listed_errors :
      (s : List Request) (e : Error) → c.vms s ≡ err e → is_instance_not_found e ≡ false

pub read-drops : (name : String) (e : Request) → is_read e ≡ true → drops name e ≡ false
read-drops name (list_nics _) h = refl
read-drops name (list_public_ips _) h = refl
read-drops name list_disks h = refl
read-drops name list_vms h = refl
read-drops name get_subnet h = refl
read-drops name get_virtual_network h = refl
read-drops name (get_nic _ _) h = refl
read-drops name (get_public_ip _ _) h = refl
read-drops name (get_vm _ _) h = refl
read-drops name (instance_view _ _) h = refl
read-drops name (create_public_ip _ _) h = refl
read-drops name (create_nic _ _) h = refl
read-drops name (create_vm _ _ _) h = refl
read-drops name (update_disk _ _ _) h = refl
read-drops name (wait_created _ _) h = refl
read-drops name (delete_resource _ _ _) h = refl
read-drops name (wait_deleted _ _) h = refl
read-drops name (add_machine_finalizer _) h = refl
read-drops name (drop_machine_finalizer _) h = absurd (ground (arith, h))

pub all_pages-Yields : {A : Type 0} (pages : Pages A) → Yields (ReadsAs pages) (all_pages pages)
unfolding all_pages
all_pages-Yields done = Yields-pure [] refl
all_pages-Yields (page values next) =
    Yields-bind-Yields _ _ (all_pages-Yields next)
      (λ ys r. Yields-pure (values ++ ys) (ys, r, refl))
all_pages-Yields (broken values e) = Yields-raise _

module _ (kind : Kind) (name : String) where
  abbrev pub Kept : List Request → Type 0
  Kept s = kept kind name s ≡ true

  -- Where `b` holds, the resource was asked to be deleted.
  pub record After (b : Bool) (s : List Request) : Type 0 where
    pub is_kept : Kept s
    pub is_asked : b ≡ true → asked kind name s ≡ true

  pub After-step :
      (b : Bool) (e : Request) (s : List Request)
      → drops (finalizer_of kind) e ≡ false
      → After b s
      → After b (e ∷ s)
  After-step b e s h k = record {
    is_kept = ground (arith, h, k.is_kept);
    is_asked = λ t. ground (arith, k.is_asked t);
  }

  pub quiet :
      {A : Type 0} (b : Bool) (m : Act Request A)
      → Emits is_read m
      → Runs Kept (After b) (λ _. After b) (λ _. After b) m
  quiet b m h =
      Runs-mono m (λ s k. k.is_kept) (λ s k. k) (λ a s k. k) (λ e s k. k)
        (Runs-Emits m (λ e s r. After-step b e s (read-drops (finalizer_of kind) e r)) h)

  -- One request that takes no finalizer away, with an answer that is not looked at.
  step :
      (b : Bool) (e : Request) (answer : List Request → Outcome (Unit {0}))
      → drops (finalizer_of kind) e ≡ false
      → Runs Kept (After b) (λ _. After (b || removes kind name e)) (λ _. After b) (call e answer)
  step b e answer h = Runs-call e answer (λ s r k _. answered s r k)
    where
      now : (s : List Request) → After b s → After (b || removes kind name e) (e ∷ s)
      now s k = record {
        is_kept = ground (arith, h, k.is_kept);
        is_asked = λ t. ground (arith, t, k.is_asked);
      }

      answered :
          (s : List Request) (r : Outcome (Unit {0}))
          → After b s
          → Holds Kept (λ _. After (b || removes kind name e)) (λ _. After b) r (e ∷ s)
      answered s (ok _) k = now s k
      answered s (err _) k = After-step b e s h k
      answered s Outcome.panicked k = (After-step b e s h k).is_kept
