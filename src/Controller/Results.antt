-- ===== src/Controller/Results.antt =====
-- What machine.go returns: errors of the cloud provider, and what the work queue makes of a
-- failed reconciliation.
use machine_controller.Base.{
  String, ◌≡◌, ◌≢◌, refl, inl, inr, Bool, true, not, none, some, List, ◌∷◌, arith, Option-cases,
  index, eq_iff, ◌==◌, Bool-cases,
}
use machine_controller.Outcome.{
  Error, wrapped, is_terminal_error, Outcome, ok, err, panicked, Act, pure, raise, tell, attempt,
  resume, wrap, on_option, ◌>>=◌,
}
use machine_controller.Outcome.Emits.{Emits, emits_rules, Emits-attempt_eq}
use machine_controller.Kube.{Machine}
use machine_controller.Kube.Calls.{
  Call, get_machine_object, is_rate_limited, is_benign, is_evict, is_cleanup, is_create,
  is_delete_node, record_event,
}
use machine_controller.Kube.Cluster.{Cluster, IsLawful}
use machine_controller.Controller.Update.{
  update_machine_error, update_machine_error_if_terminal_error,
}
use machine_controller.Controller.Sync.{uninitialized_annotation, sync, sync_listed, sync_handler}
use machine_controller.Controller.Benign.{update_machine-Emits}
use machine_controller.Controller.Emission.{sync-Emits}
use machine_controller.Controller.Queue.{clear_machine_error, process_key}

module _ (c : Cluster) (m : Machine) (reason message : String) (e : Error) (text : String)
    (s : List Call) where
  -- The handler for errors of the cloud provider never succeeds. An error that is not terminal
  -- leaves it wrapped, with no call made; a terminal one is returned as it is, if the machine
  -- could be updated with it.
  pub update_machine_error_if_terminal_error-fails :
      ((update_machine_error_if_terminal_error c m reason message e text s).0 ≢ ok tt)
      × (is_terminal_error e ≡ none
          → update_machine_error_if_terminal_error c m reason message e text s
            ≡ (err (wrapped text e), s))
      × ((r : String × String) (m' : Machine)
          → is_terminal_error e ≡ some r
          → (update_machine_error c m reason message s).0 ≡ ok m'
          → (update_machine_error_if_terminal_error c m reason message e text s).0 ≡ err e)
  unfolding update_machine_error_if_terminal_error on_option raise attempt
  update_machine_error_if_terminal_error-fails = (
    λ succeeds. elim (Option-cases (is_terminal_error e)) [
      | inl plain ↦ ground (arith, plain, succeeds)
      | inr (r, terminal) ↦ ground (arith, terminal, succeeds)
    ],
    λ plain. ground (arith, plain),
    λ r m' terminal updated. ground (arith, terminal, updated),
  )

module _ (c : Cluster) (key namespace name : String)
    (split : c.split_key key ≡ ok (namespace, name)) where
  -- `syncHandler` reports no error of a reconciliation: where the lister has the machine, and the
  -- reconciliation fails, it records an event and returns nil.
  pub sync_handler-swallows :
      (s : List Call) (m : Machine) (e : Error)
      → c.machine s namespace name ≡ ok m
      → index uninitialized_annotation m.annotations ≡ ""
      → let s' = get_machine_object namespace name ∷ s in
        (sync c m s').0 ≡ err e
        → sync_handler c key s ≡ (ok tt, record_event "ReconcilingError" ∷ (sync c m s').1)
  unfolding sync_handler sync_listed ◌>>=◌ wrap
  sync_handler-swallows s m e found initialized failed =
      rw (sync_handler, split)
        (rw (found, sync_listed)
          (ground (arith, failed, eq_iff (index uninitialized_annotation m.annotations) "")))

abbrev pub not_rate_limited : Call → Bool
not_rate_limited e = not (is_rate_limited e)

not_rate_limited-benign : (e : Call) → is_benign e ≡ true → not_rate_limited e ≡ true
not_rate_limited-benign e h = ground arith

not_rate_limited-evict : (e : Call) → is_evict e ≡ true → not_rate_limited e ≡ true
not_rate_limited-evict e h = ground arith

not_rate_limited-cleanup : (e : Call) → is_cleanup e ≡ true → not_rate_limited e ≡ true
not_rate_limited-cleanup e h = ground arith

not_rate_limited-create : (e : Call) → is_create e ≡ true → not_rate_limited e ≡ true
not_rate_limited-create e h = ground arith

not_rate_limited-delete_node : (e : Call) → is_delete_node e ≡ true → not_rate_limited e ≡ true
not_rate_limited-delete_node e h = ground arith

-- An `attempt` whose continuations never fail never fails.
attempt-ne-err :
    {A B : Type 0} (m : Act Call A) (f : A → Act Call B) (g : Error → Act Call B)
    → ((a : A) (s : List Call) (e : Error) → (f a s).0 ≢ err e)
    → ((x : Error) (s : List Call) (e : Error) → (g x s).0 ≢ err e)
    → (s : List Call) (e : Error) → (attempt m f g s).0 ≢ err e
unfolding attempt
attempt-ne-err m f g kf kg s e = go (m s).0
  where
    go : (r : Outcome _) → (resume r f g (m s).1).0 ≢ err e
    go (ok a) = kf a (m s).1 e
    go (err x) = kg x (m s).1 e
    go panicked = λ h. cc

pure-ne-err : {A : Type 0} (a : A) (s : List Call) (e : Error) → (pure a s).0 ≢ err e
unfolding pure
pure-ne-err a s e h = cc

tell-ne-err : (t : Call) (s : List Call) (e : Error) → (tell t s).0 ≢ err e
unfolding tell
tell-ne-err t s e h = cc

sync_listed-ne-err :
    (c : Cluster) (m : Machine) (s : List Call) (e : Error) → (sync_listed c m s).0 ≢ err e
unfolding sync_listed
sync_listed-ne-err c m s e =
    elim (Bool-cases (index uninitialized_annotation m.annotations == "")) [
      | inl initialized ↦
          rw initialized
            (attempt-ne-err (sync c m) _ _ (λ _. pure-ne-err tt) (λ _. tell-ne-err _) s e)
      | inr not_yet ↦ rw not_yet (pure-ne-err tt s e)
    ]

module _ {c : Cluster} (l : IsLawful c) (key namespace name : String)
    (split : c.split_key key ≡ ok (namespace, name)) where
  sync_handler-ne-err :
      ((s : List Call) → (m : Machine) × (c.machine s namespace name ≡ ok m))
      → (s : List Call) (e : Error) → (sync_handler c key s).0 ≢ err e
  unfolding sync_handler ◌>>=◌ wrap
  sync_handler-ne-err listed s e =
      let (m, found) = listed s in rw (sync_handler, split) (rw found (sync_listed-ne-err c m _ e))

  sync_handler-Emits : Emits not_rate_limited (sync_handler c key)
  unfolding sync_handler sync_listed
  sync_handler-Emits =
      let any_sync =
        sync-Emits l not_rate_limited-benign not_rate_limited-evict not_rate_limited-cleanup
          not_rate_limited-create not_rate_limited-delete_node (λ _ _. refl) in
      search (emits_rules, any_sync) depth 10

  clear_machine_error-Emits : Emits not_rate_limited (clear_machine_error c key)
  unfolding clear_machine_error
  clear_machine_error-Emits =
      let update = update_machine-Emits l not_rate_limited-benign in
      search (emits_rules, update) depth 10

  -- A key whose machine the lister has is never put back into the queue for a failure, however its
  -- reconciliation ends: the exponential back-off of the queue is used for other errors only.
  pub process_key-never_retries :
      ((s : List Call) → (m : Machine) × (c.machine s namespace name ≡ ok m))
      → Emits not_rate_limited (process_key c key)
  unfolding process_key
  process_key-never_retries listed =
      Emits-attempt_eq (sync_handler c key) _ _ sync_handler-Emits
        (λ s _ _. search (emits_rules, clear_machine_error-Emits))
        (λ s e failed. absurd (sync_handler-ne-err listed s e failed))
