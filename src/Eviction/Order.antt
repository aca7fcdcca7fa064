-- ===== src/Eviction/Order.antt =====
-- When the eviction of eviction.go evicts: after the cordon, and only the pods that need it.
use machine_controller.Base.{
  ℕ, zero, suc, String, ◌≡◌, Bool, true, false, not, some, List, [], ◌∷◌, lookup, arith,
  if◌then◌else◌, inl, inr,
}
use machine_controller.Outcome.{Error, ok, Act, pure, raise, wrap, call, ◌>>=◌, ◌>>◌}
use machine_controller.Outcome.Inversion.{attempt-eq-ok, >>=-eq-ok}
use machine_controller.Outcome.Emits.{
  Emits, Emits-if, Emits-pure, Emits-attempt_eq, Emits-bind, Emits-raise, Emits-wrap, emits_rules,
}
use machine_controller.Kube.{Node, Pod}
use machine_controller.Kube.Calls.{Call, get_lister_node, is_evict, is_benign}
use machine_controller.Kube.Cluster.{
  Cluster, Move, goroutine, select_finished, select_error, select_timeout, IsLawful, polls,
  retry_node-Emits, poll-Emits,
}
use machine_controller.Eviction.{
  skip_eviction_annotation, Worker, running, returned, sending, update_node, is_cordoned, cordoned,
  cordon_node, get_filtered_pods, send_error, turn, await, evict_pods, are_deleted,
  wait_for_deletion, evict_node, run,
}

module _ (c : Cluster) where
  -- A node with the skip annotation, whatever its value, is left alone: `Run` succeeds and makes
  -- no call but the one to the lister.
  pub run-skips :
      (name : String) (s : List Call) (node : Node) (v : String)
      → c.lister_node s name ≡ ok node
      → lookup skip_eviction_annotation node.annotations ≡ some v
      → run c name s ≡ (ok tt, get_lister_node name ∷ s)
  unfolding run ◌>>=◌ wrap
  run-skips name s node v found annotated = ground arith

module _ {c : Cluster} (l : IsLawful c) {P : Call → Bool}
    (benign : (e : Call) → is_benign e ≡ true → P e ≡ true) where
  cordon_node-Emits : (name : String) → Emits P (cordon_node c name)
  unfolding cordon_node update_node is_cordoned
  cordon_node-Emits name = search (emits_rules, retry_node-Emits l, poll-Emits l, benign)

  get_filtered_pods-Emits : (name : String) → Emits P (get_filtered_pods c name)
  unfolding get_filtered_pods
  get_filtered_pods-Emits name = search (emits_rules, benign)

  are_deleted-Emits : (pods : List Pod) → Emits P (are_deleted c pods)
  unfolding are_deleted
  are_deleted-Emits [] = search emits_rules
  are_deleted-Emits (pod ∷ pods) = search (emits_rules, benign)

  -- `Run` adds benign calls to those of `evict_node`.
  run-Emits_of : (name : String) → Emits P (evict_node c name) → Emits P (run c name)
  unfolding run
  run-Emits_of name h =
      Emits-bind (wrap _ (call (get_lister_node name) _)) _ (search (emits_rules, benign))
        (λ node. Emits-if _ _ _ (λ _. Emits-pure tt) (λ _. h))

  module _ (evicts : (e : Call) → is_evict e ≡ true → P e ≡ true) where
    turn-Emits : (room : Bool) (i : ℕ) (ws : List Worker) → Emits P (turn c room i ws)
    unfolding turn send_error
    turn-Emits room i [] = search emits_rules
    turn-Emits room zero (returned ∷ ws) = search emits_rules
    turn-Emits room zero (sending e ∷ ws) = search emits_rules
    turn-Emits room zero (running pod ∷ ws) = search (emits_rules, evicts)
    turn-Emits room (suc i) (w ∷ ws) =
        Emits-bind (turn c room i ws) _ (turn-Emits room i ws) (λ r. search emits_rules)

    await-Emits :
        (size : ℕ) (moves : List Move) (ws : List Worker) (es : List Error)
        → Emits P (await c size moves ws es)
    unfolding await
    await-Emits size [] ws es = search emits_rules
    await-Emits size (goroutine i ∷ moves) ws es =
        Emits-bind (turn c _ i ws) _ (turn-Emits _ i ws) (λ r. await-Emits size moves r.0 _)
    await-Emits size (select_finished ∷ moves) ws es =
        let rest = await-Emits size moves ws es in search (emits_rules, rest)
    await-Emits size (select_error ∷ moves) ws es =
        let rest = await-Emits size moves ws es in search (emits_rules, rest)
    await-Emits size (select_timeout ∷ moves) ws es = search emits_rules

    evict_pods-Emits : (pods : List Pod) → Emits P (evict_pods c pods)
    unfolding evict_pods
    evict_pods-Emits [] = search emits_rules
    evict_pods-Emits (pod ∷ pods) = search (emits_rules, await-Emits)

    evict_node-Emits : (name : String) → Emits P (evict_node c name)
    unfolding evict_node wait_for_deletion
    evict_node-Emits name =
        search
          (
            emits_rules,
            cordon_node-Emits,
            get_filtered_pods-Emits,
            evict_pods-Emits,
            poll-Emits l,
            are_deleted-Emits,
          )
          depth 12

    -- Any predicate that allows benign calls and evictions holds of all calls of `Run`.
    pub run-Emits : (name : String) → Emits P (run c name)
    run-Emits name = run-Emits_of name (evict_node-Emits name)

-- What `wait.Poll` does with a condition that is never met.
polls-never :
    (n : ℕ) (m : Act Call Bool) (s : List Call)
    → ((s : List Call) → (m s).0 ≡ ok true → ⊥)
    → (polls n m s).0 ≡ ok tt
    → ⊥
unfolding polls
polls-never zero m s never e = unfold raise in cc
polls-never (suc n) m s never e =
    let (holds, met, rest) = >>=-eq-ok m _ s tt e in
    go holds met (polls-never n m (m s).1 never) rest
  where
    go :
        (holds : Bool)
        → (m s).0 ≡ ok holds
        → ((polls n m (m s).1).0 ≡ ok tt → ⊥)
        → ((if holds then pure tt else polls n m) (m s).1).0 ≡ ok tt
        → ⊥
    go true met again rest = never s met
    go false met again rest = again rest

abbrev pub not_evict : Call → Bool
not_evict e = not (is_evict e)

benign-not_evict : (e : Call) → is_benign e ≡ true → not_evict e ≡ true
benign-not_evict e h = ground arith

module _ {c : Cluster} (l : IsLawful c) (name : String) where
  is_cordoned-unseen :
      ((s : List Call) (node : Node) → c.lister_node s name ≡ ok node → node.unschedulable ≡ false)
      → (s : List Call) → (is_cordoned c name s).0 ≡ ok true
      → ⊥
  unfolding is_cordoned
  is_cordoned-unseen never s e =
      let (node, found, rest) =
        >>=-eq-ok (call (get_lister_node name) (λ s. c.lister_node s name)) _ s true e in
      ground (arith, never s node)

  cordon_node-never :
      ((s : List Call) (node : Node) → c.lister_node s name ≡ ok node → node.unschedulable ≡ false)
      → (text : String) (s : List Call) → (wrap text (cordon_node c name) s).0 ≡ ok tt
      → ⊥
  unfolding wrap cordon_node
  cordon_node-never never text s e = elim (attempt-eq-ok (cordon_node c name) pure _ s tt e) [
    | inl (_, done, _) ↦
        let (node, _, polled) = >>=-eq-ok (update_node c name cordoned) _ s tt done in
        let (n, same) = l.poll_polls (is_cordoned c name) (update_node c name cordoned s).1 in
        polls-never n (is_cordoned c name) _ (is_cordoned-unseen never) (rw same at polled)
    | inr (x, _, failed) ↦ unfold raise in cc
  ]

  evict_node-stops :
      ((s : List Call) (node : Node) → c.lister_node s name ≡ ok node → node.unschedulable ≡ false)
      → Emits not_evict (evict_node c name)
  unfolding evict_node ◌>>◌ ◌>>=◌
  evict_node-stops never =
      let text : String = "failed to cordon node" in
      Emits-attempt_eq (wrap text (cordon_node c name)) _ _
        (Emits-wrap text (cordon_node c name) (cordon_node-Emits l benign-not_evict name))
        (λ s a e. absurd (cordon_node-never never text s e)) (λ s e _. Emits-raise e)

  -- No pod is evicted before the cordon shows: while the lister only ever shows the node as
  -- schedulable, `Run` evicts nothing, however the API server answers.
  pub run-evicts_after_cordon :
      ((s : List Call) (node : Node) → c.lister_node s name ≡ ok node → node.unschedulable ≡ false)
      → Emits not_evict (run c name)
  run-evicts_after_cordon never = run-Emits_of l benign-not_evict name (evict_node-stops never)
