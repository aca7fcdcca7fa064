-- ===== src/Providers/Azure/Sweeping.antt =====
-- pkg/cloudprovider/provider/azure/create_delete_resources.go: each of the four deletions asks for
-- what is listed.
use machine_controller.Base.{
  Bool-cases, keep, String, ◌≡◌, refl, inl, inr, true, false, List, [], ◌∷◌, ◌++◌, map, arith,
}
use machine_controller.Outcome.{is_instance_not_found, Outcome, ok, err, Act, call, ◌>>=◌, wrap}
use machine_controller.Outcome.Emits.{emits_rules}
use machine_controller.Outcome.Runs.{
  Holds, Runs, Runs-pure, Runs-raise, Runs-call, Runs-mono, Runs-attempt, Runs-bind, Runs-then,
  Runs-wrap,
}
use machine_controller.Providers.Azure.{
  Config, has_uid, Resource, Vm, Kind, Request, list_disks, list_vms, Pages, done, page, broken,
  Cloud,
}
use machine_controller.Providers.Azure.Settings.{get_client}
use machine_controller.Providers.Azure.Resources.{
  all_pages, replaced, vm_resource, delete_interfaces_by_machine_uid,
  delete_ip_addresses_by_machine_uid, all_vms, delete_vms_by_machine_uid, get_disks_by_machine_uid,
  delete_disks_by_machine_uid,
}
use machine_controller.Providers.Azure.Laws.{get_client-Emits}
use machine_controller.Providers.Azure.Deletion.{
  finalizer_of, same_kind, drops, asked, occurs, ReadsAs, pages_of, IsListed, Kept, After,
  After-step, quiet,
}
use machine_controller.Providers.Azure.Listing.{
  Shown, ShownPages, ShownPages-step, delete_tagged-Deletes, delete_each_disk-Deletes,
}

module _ {kind : Kind} {uid name : String} where
  -- What is read from the pages was shown.
  pub all_pages-Runs :
      {A : Type 0} (g : List A → List Resource) (k : Kind) (pages : Pages A)
      → Runs
          (Kept kind name)
          (ShownPages kind uid name g k pages)
          (λ xs. Shown kind uid name k (g xs))
          (λ e s. After kind name false s × (is_instance_not_found e ≡ false))
          (all_pages pages)
  unfolding all_pages
  all_pages-Runs g k done = Runs-pure [] (λ s shown. shown.is_due [] refl)
  all_pages-Runs g k (page values next) =
      Runs-bind _ _
        (Runs-mono _ (λ s h. h)
          (λ s shown. record {
            is_kept = shown.is_kept;
            is_due = λ ys r. shown.is_due (values ++ ys) (ys, r, refl);
          })
          (λ _ s h. h) (λ _ s h. h) (all_pages-Runs (λ ys. g (values ++ ys)) k next))
        (λ ys. Runs-pure (values ++ ys) (λ s h. h))
  all_pages-Runs g k (broken values e) = Runs-raise _ (λ s shown.
      (record { is_kept = shown.is_kept; is_asked = λ t. absurd (ground (arith, t)) }, refl))

module _ {c : Cloud} {kind : Kind} {uid name : String} (l : IsListed c kind uid name) where
  -- Where the resource is not listed any more it was asked to be deleted.
  shown :
      {A : Type 0} (g : List A → List Resource) (k : Kind) (pages : Pages A) (s : List Request)
      → After kind name false s
      → ((xs : List A)
          → same_kind k kind ≡ true
          → asked kind name s ≡ false
          → ReadsAs pages xs
          → occurs uid name (g xs) ≡ true)
      → ShownPages kind uid name g k pages s
  shown g k pages s before h = record {
    is_kept = before.is_kept;
    is_due = λ xs r. record {
      is_kept = before.is_kept;
      is_due = λ alike. elim (Bool-cases (asked kind name s)) [
        | inl a ↦ ground (arith, a)
        | inr a ↦ ground (arith, h xs alike a r)
      ];
    };
  }

  list-Runs :
      (k : Kind) (request : Request)
      → drops (finalizer_of kind) request ≡ false
      → Runs
          (Kept kind name)
          (After kind name false)
          (ShownPages kind uid name (λ xs. xs) k)
          (λ _. After kind name false)
          (call request (pages_of c k))
  list-Runs k request h = Runs-call _ _ answered
    where
      answered :
          (s : List Request) (r : Outcome (Pages Resource))
          → After kind name false s
          → pages_of c k s ≡ r
          → Holds
              (Kept kind name)
              (ShownPages kind uid name (λ xs. xs) k)
              (λ _. After kind name false)
              r
              (request ∷ s)
      answered s (ok pages) before e =
          ShownPages-step kind uid name (λ xs. xs) k pages request s h
            (shown (λ xs. xs) k pages s before (λ xs alike a r. l.listed k s pages xs alike a e r))
      answered s (err _) before e = After-step kind name false request s h before
      answered s Outcome.panicked before e = (After-step kind name false request s h before).is_kept

  list_vms-Runs :
      Runs
        (Kept kind name)
        (After kind name false)
        (ShownPages kind uid name (map vm_resource) Kind.vm)
        (λ e s. After kind name false s × (is_instance_not_found e ≡ false))
        (call list_vms c.vms)
  list_vms-Runs = Runs-call _ _ answered
    where
      answered :
          (s : List Request) (r : Outcome (Pages Vm))
          → After kind name false s
          → c.vms s ≡ r
          → Holds
              (Kept kind name)
              (ShownPages kind uid name (map vm_resource) Kind.vm)
              (λ e t. After kind name false t × (is_instance_not_found e ≡ false))
              r
              (list_vms ∷ s)
      answered s (ok pages) before e =
          ShownPages-step kind uid name (map vm_resource) Kind.vm pages list_vms s refl (
            shown (map vm_resource) Kind.vm pages s before
              (λ xs alike a r. l.listed_vm s pages xs alike a e r))
      answered s (err x) before e =
          (After-step kind name false list_vms s refl before, l.listed_errors s x e)
      answered s Outcome.panicked before e =
          (After-step kind name false list_vms s refl before).is_kept

  abbrev pub Sweeps : Kind → Act Request (Unit {0}) → Type 0
  Sweeps k m =
      Runs (Kept kind name) (After kind name false) (λ _. After kind name (same_kind k kind))
        (λ _. After kind name false) m

  client-Runs :
      (text : String) (config : Config)
      → Runs
          (Kept kind name)
          (After kind name false)
          (λ _. After kind name false)
          (λ _. After kind name false)
          (wrap text (get_client c config))
  client-Runs text config = quiet kind name false _ (search (emits_rules, get_client-Emits))

  -- An error that is replaced or passed on
  pages-then :
      {A : Type 0} (g : List A → List Resource) (k : Kind) (pages : Pages A)
      (f : List A → Act Request (Unit {0}))
      → ((xs : List A)
          → Runs
              (Kept kind name)
              (Shown kind uid name k (g xs))
              (λ _. After kind name (same_kind k kind))
              (λ _. After kind name false)
              (f xs))
      → Runs
          (Kept kind name)
          (ShownPages kind uid name g k pages)
          (λ _. After kind name (same_kind k kind))
          (λ _. After kind name false)
          (all_pages pages >>= f)
  pages-then g k pages f h =
      Runs-bind _ _
        (Runs-mono _ (λ s x. x) (λ s x. x) (λ _ s x. x) (λ _ s (x, _). x)
          (all_pages-Runs g k pages))
        h

  replaced-Runs :
      (text : String) (k : Kind) (request : Request)
      → drops (finalizer_of kind) request ≡ false
      → Runs
          (Kept kind name)
          (After kind name false)
          (ShownPages kind uid name (λ xs. xs) k)
          (λ _. After kind name false)
          (replaced text (call request (pages_of c k)))
  replaced-Runs text k request h =
      Runs-attempt _ _ _ (list-Runs k request h) (λ pages. Runs-pure pages (λ s x. x))
        (λ _. Runs-raise _ (λ s x. x))

  pub nic-Sweeps :
      (config : Config) → Sweeps Kind.nic (delete_interfaces_by_machine_uid c config uid)
  unfolding delete_interfaces_by_machine_uid
  nic-Sweeps config = Runs-then _ _ (client-Runs _ config) (
      Runs-bind _ _ (replaced-Runs _ Kind.nic _ refl) (λ pages.
        pages-then (λ xs. xs) Kind.nic pages _
          (delete_tagged-Deletes kind uid name c Kind.nic config)))

  pub public_ip-Sweeps :
      (config : Config) → Sweeps Kind.public_ip (delete_ip_addresses_by_machine_uid c config uid)
  unfolding delete_ip_addresses_by_machine_uid
  public_ip-Sweeps config = Runs-then _ _ (client-Runs _ config) (
      Runs-bind _ _ (replaced-Runs _ Kind.public_ip _ refl) (λ pages.
        pages-then (λ xs. xs) Kind.public_ip pages _
          (delete_tagged-Deletes kind uid name c Kind.public_ip config)))

  pub all_vms-Runs :
      (config : Config)
      → Runs
          (Kept kind name)
          (After kind name false)
          (λ xs. Shown kind uid name Kind.vm (map vm_resource xs))
          (λ e s. After kind name false s × (is_instance_not_found e ≡ false))
          (all_vms c config)
  unfolding all_vms get_client
  all_vms-Runs config =
      Runs-then _ _
        (Runs-wrap _ _ (λ _ s x. (x, refl)) (quiet kind name false _ (search emits_rules)))
        (Runs-bind _ _ list_vms-Runs (λ pages. all_pages-Runs (map vm_resource) Kind.vm pages))

  pub vm-Sweeps : (config : Config) → Sweeps Kind.vm (delete_vms_by_machine_uid c config uid)
  unfolding delete_vms_by_machine_uid
  vm-Sweeps config =
      Runs-bind _ _
        (Runs-mono _ (λ s x. x) (λ s x. x) (λ _ s x. x) (λ _ s (x, _). x) (all_vms-Runs config))
        (λ xs. delete_tagged-Deletes kind uid name c Kind.vm config (map vm_resource xs))

  occurs-keep :
      (xs : List Resource)
      → occurs uid name (keep (λ x. has_uid uid x.tags) xs) ≡ occurs uid name xs
  occurs-keep [] = refl
  occurs-keep (x ∷ xs) = ground (arith, occurs-keep xs)

  pub disk-Sweeps : (config : Config) → Sweeps Kind.disk (delete_disks_by_machine_uid c config uid)
  unfolding delete_disks_by_machine_uid get_disks_by_machine_uid
  disk-Sweeps config = Runs-then _ _ (client-Runs _ config) (
      Runs-bind _ _
        (Runs-bind _ _ (Runs-wrap _ _ (λ _ s x. x) (list-Runs Kind.disk list_disks refl)) (λ pages.
          Runs-bind _ _
            (Runs-mono _ (λ s x. x) (λ s x. x) (λ _ s x. x) (λ _ s (x, _). x)
              (all_pages-Runs (λ xs. xs) Kind.disk pages))
            (λ xs. Runs-pure _ (λ s x. kept_only xs s x))))
        (λ xs. delete_each_disk-Deletes kind uid name c config xs))
    where
      kept_only :
          (xs : List Resource) (s : List Request)
          → Shown kind uid name Kind.disk xs s
          → Shown kind uid name Kind.disk (keep (λ x. has_uid uid x.tags) xs) s
      kept_only xs s x = record {
        is_kept = x.is_kept;
        is_due = λ alike. ground (arith, occurs-keep xs, x.is_due alike);
      }
