-- ===== src/Providers/Azure/Releasing.antt =====
-- pkg/cloudprovider/provider/azure/provider.go: Cleanup takes a finalizer away after the deletion of
-- what it stands for.
use mathlib.Core.Path.{subst}
use machine_controller.Base.{
  Bool-cases, String, ◌≡◌, refl, sym, ◌∙◌, inl, inr, Bool, true, false, none, List, [], ◌∷◌, map,
  arith,
}
use machine_controller.Outcome.{Error, wrapped, is_instance_not_found, Outcome, ok, err, Act, wrap}
use machine_controller.Outcome.Emits.{Emits, emits_rules}
use machine_controller.Providers.Azure.Laws.{addresses-Emits, status-Emits}
use machine_controller.Outcome.Runs.{
  Holds, Runs, Runs-pure, Runs-raise, Runs-call, Runs-if, Runs-mono, Runs-attempt, Runs-bind,
  Runs-on_option, Runs-then, Runs-wrap, Runs-given,
}
use machine_controller.Kube.{Machine}
use machine_controller.Kube.Sets.{remove_finalizer}
use machine_controller.Providers.Common.{first_that, configured-Emits}
use machine_controller.Providers.Azure.{
  Config, has_uid, Vm, Kind, Request, drop_machine_finalizer, Cloud,
}
use machine_controller.Providers.Azure.Resources.{
  vm_resource, delete_interfaces_by_machine_uid, delete_ip_addresses_by_machine_uid,
  delete_disks_by_machine_uid, drop_finalizer,
}
use machine_controller.Providers.Azure.Machines.{
  get_vm_by_uid, described, get, release, delete_vms_unless_gone, cleanup,
}
use machine_controller.Providers.Azure.Laws.{is_read}
use machine_controller.Providers.Azure.Deletion.{
  finalizer_of, same_kind, asked, kept, occurs, IsListed, Kept, After, quiet,
}
use machine_controller.Providers.Azure.Listing.{Shown}
use machine_controller.Providers.Azure.Sweeping.{
  Sweeps, nic-Sweeps, public_ip-Sweeps, all_vms-Runs, vm-Sweeps, disk-Sweeps,
}
use machine_controller.Providers.Azure.Finalizers.{IsUpdater}

module _ {c : Cloud} {kind : Kind} {name : String} (updater : IsUpdater c) (m : Machine)
    (l : IsListed c kind m.uid name) where
  -- `Get` that answers that there is no instance: the machine was asked to be deleted, if it is one.
  abbrev Missing : Error → List Request → Type 0
  Missing e s =
      After kind name false s
      × (is_instance_not_found e ≡ true → same_kind Kind.vm kind ≡ true → asked kind name s ≡ true)

  other_error :
      (e : Error) (s : List Request)
      → After kind name false s
      → is_instance_not_found e ≡ false
      → Missing e s
  other_error e s k h = (k, λ t. absurd (ground (arith, h, t)))

  first_that-none :
      (xs : List Vm)
      → first_that (λ v. has_uid m.uid v.tags) xs ≡ none
      → occurs m.uid name (map vm_resource xs) ≡ false
  unfolding first_that
  first_that-none [] h = refl
  first_that-none (v ∷ xs) h = elim (Bool-cases (has_uid m.uid v.tags)) [
    | inl e ↦ absurd (ground (arith, h, e))
    | inr e ↦ ground (arith, e, first_that-none xs (ground (arith, h, e)))
  ]

  get_vm_by_uid-Runs :
      (config : Config)
      → Runs
          (Kept kind name)
          (After kind name false)
          (λ _. After kind name false)
          Missing
          (get_vm_by_uid c config m.uid)
  unfolding get_vm_by_uid
  get_vm_by_uid-Runs config =
      Runs-bind _ _
        (Runs-mono _ (λ s x. x) (λ s x. x) (λ _ s x. x) (λ e s (k, h). other_error e s k h)
          (all_vms-Runs l config))
        (λ xs.
          Runs-on_option _ _ _
            (λ e. Runs-raise _ (λ s shown. (
              before xs s shown,
              λ _ alike. ground (arith, shown.is_due alike, first_that-none xs e),
            )))
            (λ v _. Runs-pure v (before xs)))
    where
      before :
          (xs : List Vm) (s : List Request)
          → Shown kind m.uid name Kind.vm (map vm_resource xs) s
          → After kind name false s
      before xs s shown = record {
        is_kept = shown.is_kept;
        is_asked = λ t. absurd (ground (arith, t));
      }

  wrapped-Runs :
      {A : Type 0} (text : String) (act : Act Request A)
      → Emits is_read act
      → Runs
          (Kept kind name)
          (After kind name false)
          (λ _. After kind name false)
          Missing
          (wrap text act)
  wrapped-Runs text act h =
      Runs-wrap _ _ (λ e s k. other_error (wrapped text e) s k refl) (quiet kind name false act h)

  get-Runs :
      Runs (Kept kind name) (After kind name false) (λ _. After kind name false) Missing (get c m)
  unfolding get described
  get-Runs =
      Runs-bind _ _ (wrapped-Runs _ _ (search (emits_rules, configured-Emits))) (λ (config, pc).
        Runs-bind _ _
          (Runs-attempt _ _ _ (get_vm_by_uid-Runs config) (λ v. Runs-pure v (λ s x. x))
            (λ e.
              Runs-if (is_instance_not_found e) _ _
                (λ missing. Runs-raise _ (λ s (k, h). (k, λ _. h missing)))
                (λ _. Runs-raise (wrapped _ e) (λ s (k, _).
                  other_error (wrapped "failed to find machine by its UID" e) s k refl))))
          (λ v.
            Runs-bind _ _ (wrapped-Runs _ _ (addresses-Emits c (λ e h. h) config v)) (λ addresses.
              Runs-bind _ _ (wrapped-Runs _ _ (status-Emits c (λ e h. h) config _))
                (λ status. Runs-pure _ (λ s x. x)))))

  vm-gone : (config : Config) → Sweeps l Kind.vm (delete_vms_unless_gone c config m)
  unfolding delete_vms_unless_gone
  vm-gone config =
      Runs-attempt _ _ _ get-Runs (λ _. vm-Sweeps l config)
        (λ e.
          Runs-if (is_instance_not_found e) _ _
            (λ missing.
              Runs-pure tt (λ s (k, h). record { is_kept = k.is_kept; is_asked = h missing }))
            (λ _.
              Runs-mono _ (λ s x. x) (λ s (k, _). k) (λ _ s x. x) (λ _ s x. x)
                (vm-Sweeps l config)))

  drop-Runs :
      (k : Kind) (n : Machine)
      → Runs
          (Kept kind name)
          (After kind name (same_kind k kind))
          (λ n' s. After kind name false s × (n'.uid ≡ n.uid))
          (λ _. Kept kind name)
          (drop_finalizer c (finalizer_of k) n)
  unfolding drop_finalizer
  drop-Runs k n = Runs-call _ _ answered
    where
      still :
          (s : List Request)
          → After kind name (same_kind k kind) s
          → Kept kind name (drop_machine_finalizer (finalizer_of k) ∷ s)
      still s h = ground (arith, h.is_kept, h.is_asked)

      answered :
          (s : List Request) (r : Outcome Machine)
          → After kind name (same_kind k kind) s
          → c.updated s n (λ x. record x {
            finalizers = remove_finalizer c.sorted x.finalizers (finalizer_of k);
          })
            ≡ r
          → Holds
              (Kept kind name)
              (λ n' t. After kind name false t × (n'.uid ≡ n.uid))
              (λ _. Kept kind name)
              r
              (drop_machine_finalizer (finalizer_of k) ∷ s)
      answered s (ok n') h e = (
        record { is_kept = still s h; is_asked = λ t. absurd (ground (arith, t)) },
        updater.updated_uid s n n' _ e,
      )
      answered s (err _) h e = still s h
      answered s Outcome.panicked h e = still s h

  release-Runs :
      (k : Kind) (text : String) (deletion : Act Request (Unit {0})) (n : Machine)
      → n.uid ≡ m.uid
      → Sweeps l k deletion
      → Runs
          (Kept kind name)
          (After kind name false)
          (λ n' s. After kind name false s × (n'.uid ≡ m.uid))
          (λ _. Kept kind name)
          (release c (finalizer_of k) text deletion n)
  unfolding release
  release-Runs k text deletion n same_uid h = Runs-then _ _ (Runs-wrap _ _ (λ _ s x. x.is_kept) h) (
      Runs-mono _ (λ s x. x) (λ s x. x) (λ n' s (x, e). (x, e ∙ same_uid)) (λ _ s x. x)
        (drop-Runs k n))

  -- A deletion for another copy of the same machine
  for_copy :
      (k : Kind) (deletion : String → Act Request (Unit {0})) (n : Machine)
      → n.uid ≡ m.uid
      → Sweeps l k (deletion m.uid)
      → Sweeps l k (deletion n.uid)
  for_copy k deletion n e h = subst (λ u. Sweeps l k (deletion u)) (sym e) h

  cleanup-Runs :
      Runs
        (Kept kind name)
        (After kind name false)
        (λ _. After kind name false)
        (λ _. Kept kind name)
        (cleanup c m)
  unfolding cleanup
  cleanup-Runs =
      Runs-bind _ _
        (Runs-mono _ (λ s x. x) (λ s x. x) (λ _ s x. x) (λ _ s x. x.is_kept)
          (quiet kind name false _ (search (emits_rules, configured-Emits))))
        (λ (config, pc). Runs-bind _ _ (release-Runs Kind.vm _ _ m refl (vm-gone config)) (λ m1.
          Runs-given _ (λ e1.
            Runs-bind _ _
              (release-Runs Kind.disk _ _ m1 e1 (
                for_copy Kind.disk (delete_disks_by_machine_uid c config) m1 e1
                  (disk-Sweeps l config)))
              (λ m2. Runs-given _ (λ e2.
                Runs-bind _ _
                  (release-Runs Kind.nic _ _ m2 e2 (
                    for_copy Kind.nic (delete_interfaces_by_machine_uid c config) m2 e2
                      (nic-Sweeps l config)))
                  (λ m3. Runs-given _ (λ e3.
                    Runs-bind _ _
                      (release-Runs Kind.public_ip _ _ m3 e3 (
                        for_copy Kind.public_ip (delete_ip_addresses_by_machine_uid c config) m3 e3
                          (public_ip-Sweeps l config)))
                      (λ m4. Runs-pure true (λ s (x, _). x)))))))))

  -- A resource of any of the four kinds that carries the machine's UID: as long as Azure lists it
  -- until it is asked to delete it, the finalizer of its kind is never taken away before that request
  -- is made, whatever else is answered and wherever `cleanup` stops. The updater gives back the
  -- machine that it was given to write, and no error of listing the virtual machines is the
  -- provider's own error for a missing instance.
  pub cleanup-kept :
      (s : List Request) → kept kind name s ≡ true → kept kind name (cleanup c m s).1 ≡ true
  cleanup-kept s k =
      ended _ _
        (cleanup-Runs.at s (record { is_kept = k; is_asked = λ t. absurd (ground (arith, t)) }))
    where
      ended :
          (r : Outcome Bool) (t : List Request)
          → Holds (Kept kind name) (λ _. After kind name false) (λ _. Kept kind name) r t
          → Kept kind name t
      ended (ok _) t h = h.is_kept
      ended (err _) t h = h
      ended Outcome.panicked t h = h
