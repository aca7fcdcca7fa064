-- ===== src/Providers/Azure/Listing.antt =====
-- pkg/cloudprovider/provider/azure/create_delete_resources.go: what is listed is asked to be deleted.
use machine_controller.Base.{String, ◌≡◌, refl, ap, true, false, ◌||◌, some, List, [], ◌∷◌, arith}
use machine_controller.Outcome.{Outcome, ok, err, Act, call}
use machine_controller.Providers.Azure.Deletion.{Kept}
use machine_controller.Outcome.Runs.{
  Holds, Runs, Runs-pure, Runs-call, Runs-if, Runs-deref, Runs-mono, Runs-bind, Runs-then,
  Runs-wrap,
}
use machine_controller.Providers.Azure.{
  Config, has_uid, Resource, Kind, Request, delete_resource, wait_deleted, Pages, Cloud,
}
use machine_controller.Providers.Azure.Resources.{delete_and_wait, delete_tagged, delete_each_disk}
use machine_controller.Providers.Azure.Deletion.{
  finalizer_of, same_kind, drops, asked, is_name, occurs, ReadsAs, After,
}

module _ (kind : Kind) (uid name : String) where
  -- The resource is among those that were listed, or it was asked to be deleted already.
  pub record Shown (k : Kind) (xs : List Resource) (s : List Request) : Type 0 where
    pub is_kept : Kept kind name s
    pub is_due : same_kind k kind ≡ true → (occurs uid name xs || asked kind name s) ≡ true

  -- `g` gives the resources of what is listed.
  pub record ShownPages {A : Type 0} (g : List A → List Resource) (k : Kind) (pages : Pages A)
      (s : List Request) : Type 0 where
    pub is_kept : Kept kind name s
    pub is_due : (xs : List A) → ReadsAs pages xs → Shown k (g xs) s

  Shown-step :
      (k : Kind) (xs : List Resource) (e : Request) (s : List Request)
      → drops (finalizer_of kind) e ≡ false
      → Shown k xs s
      → Shown k xs (e ∷ s)
  Shown-step k xs e s h shown = record {
    is_kept = ground (arith, h, shown.is_kept);
    is_due = λ alike. ground (arith, shown.is_due alike);
  }

  pub ShownPages-step :
      {A : Type 0} (g : List A → List Resource) (k : Kind) (pages : Pages A) (e : Request)
      (s : List Request)
      → drops (finalizer_of kind) e ≡ false
      → ShownPages g k pages s
      → ShownPages g k pages (e ∷ s)
  ShownPages-step g k pages e s h shown = record {
    is_kept = ground (arith, h, shown.is_kept);
    is_due = λ xs r. Shown-step k (g xs) e s h (shown.is_due xs r);
  }

  Shown-After :
      (k : Kind) (xs : List Resource) (s : List Request) → Shown k xs s → After kind name false s
  Shown-After k xs s shown = record {
    is_kept = shown.is_kept;
    is_asked = λ t. absurd (ground (arith, t));
  }

  -- A request to delete the first of them
  first_deleted :
      (k : Kind) (rg n : String) (x : Resource) (xs : List Resource) (s : List Request)
      → x.name ≡ some n
      → Shown k (x ∷ xs) s
      → Shown k xs (delete_resource k rg n ∷ s)
  first_deleted k rg n x xs s e shown = record {
    is_kept = shown.is_kept;
    is_due = λ alike. ground (arith, alike, shown.is_due alike, ap (is_name name) e);
  }

  not_first :
      (k : Kind) (x : Resource) (xs : List Resource) (s : List Request)
      → has_uid uid x.tags ≡ false
      → Shown k (x ∷ xs) s
      → Shown k xs s
  not_first k x xs s e shown = record {
    is_kept = shown.is_kept;
    is_due = λ alike. ground (arith, e, shown.is_due alike);
  }

  none_left : (k : Kind) (s : List Request) → Shown k [] s → After kind name (same_kind k kind) s
  none_left k s shown = record {
    is_kept = shown.is_kept;
    is_asked = λ alike. ground (arith, shown.is_due alike);
  }

  delete-Runs :
      (c : Cloud) (k : Kind) (config : Config) (n : String) (x : Resource) (xs : List Resource)
      → Runs
          (Kept kind name)
          (λ s. (x.name ≡ some n) × Shown k (x ∷ xs) s)
          (λ _. Shown k xs)
          (λ _. After kind name false)
          (call (delete_resource k config.resource_group n) (λ s. c.started s k n))
  delete-Runs c k config n x xs =
      Runs-call _ _
        (λ s r (e, shown) _. answered s r (first_deleted k config.resource_group n x xs s e shown))
    where
      answered :
          (s : List Request) (r : Outcome (Unit {0}))
          → Shown k xs (delete_resource k config.resource_group n ∷ s)
          → Holds
              (Kept kind name)
              (λ _. Shown k xs)
              (λ _. After kind name false)
              r
              (delete_resource k config.resource_group n ∷ s)
      answered s (ok _) shown = shown
      answered s (err _) shown = Shown-After k xs _ shown
      answered s Outcome.panicked shown = shown.is_kept

  wait-Runs :
      (c : Cloud) (k : Kind) (n : String) (xs : List Resource)
      → Runs
          (Kept kind name)
          (Shown k xs)
          (λ _. Shown k xs)
          (λ _. After kind name false)
          (call (wait_deleted k n) (λ s. c.completed s k n))
  wait-Runs c k n xs =
      Runs-call _ _ (λ s r shown _. answered s r (Shown-step k xs (wait_deleted k n) s refl shown))
    where
      answered :
          (s : List Request) (r : Outcome (Unit {0}))
          → Shown k xs (wait_deleted k n ∷ s)
          → Holds
              (Kept kind name)
              (λ _. Shown k xs)
              (λ _. After kind name false)
              r
              (wait_deleted k n ∷ s)
      answered s (ok _) shown = shown
      answered s (err _) shown = Shown-After k xs _ shown
      answered s Outcome.panicked shown = shown.is_kept

  abbrev Deletes : Kind → List Resource → Act Request (Unit {0}) → Type 0
  Deletes k xs m =
      Runs (Kept kind name) (Shown k xs) (λ _. After kind name (same_kind k kind))
        (λ _. After kind name false) m

  pub delete_tagged-Deletes :
      (c : Cloud) (k : Kind) (config : Config) (xs : List Resource)
      → Deletes k xs (delete_tagged c k config uid xs)
  unfolding delete_tagged delete_and_wait
  delete_tagged-Deletes c k config [] = Runs-pure tt (none_left k)
  delete_tagged-Deletes c k config (x ∷ xs) =
      Runs-if (has_uid uid x.tags) _ _
        (λ _.
          Runs-bind _ _ (Runs-deref x.name (λ s shown. shown.is_kept) (λ n s e shown. (e, shown)))
            (λ n.
              Runs-then _ _ (Runs-then _ _ (delete-Runs c k config n x xs) (wait-Runs c k n xs))
                (delete_tagged-Deletes c k config xs)))
        (λ e.
          Runs-mono _ (λ s h. h) (λ s. not_first k x xs s e) (λ _ s h. h) (λ _ s h. h)
            (delete_tagged-Deletes c k config xs))

  pub delete_each_disk-Deletes :
      (c : Cloud) (config : Config) (xs : List Resource)
      → Deletes Kind.disk xs (delete_each_disk c config xs)
  unfolding delete_each_disk
  delete_each_disk-Deletes c config [] = Runs-pure tt (none_left Kind.disk)
  delete_each_disk-Deletes c config (x ∷ xs) =
      Runs-bind _ _ (Runs-deref x.name (λ s shown. shown.is_kept) (λ n s e shown. (e, shown))) (λ n.
        Runs-then _ _
          (Runs-then _ _ (Runs-wrap _ _ (λ _ s h. h) (delete-Runs c Kind.disk config n x xs))
            (Runs-wrap _ _ (λ _ s h. h) (wait-Runs c Kind.disk n xs)))
          (delete_each_disk-Deletes c config xs))
