-- ===== src/Eviction/Pods.antt =====
-- The goroutines of `evictPods` in eviction.go, and the wait for the deletion of the pods.
use machine_controller.Base.{
  if◌then◌else◌, length, all, ℕ, zero, suc, ◌+◌, ◌≤◌, ◌≡◌, refl, Bool, true, false, List, [], ◌∷◌,
  ◌++◌, map, arith,
}
use machine_controller.Outcome.{
  Error, wrapped, is_not_found, is_too_many_requests, ok, err, Act, pure, ◌>>=◌,
}
use machine_controller.Outcome.Inversion.{>>=-eq-ok}
use machine_controller.Kube.{Pod}
use machine_controller.Kube.Calls.{Call}
use machine_controller.Kube.Cluster.{
  Move, goroutine, select_finished, select_error, select_timeout, Cluster,
}
use machine_controller.Eviction.{
  Worker, running, sending, returned, channel_size, has_room, send_error, turn, await, evict_pods,
  are_deleted, wait_for_deletion,
}

abbrev pub running_count : List Worker → ℕ
running_count [] = 0
running_count (running _ ∷ ws) = suc (running_count ws)
running_count (returned ∷ ws) = running_count ws
running_count (sending _ ∷ ws) = running_count ws

abbrev pub is_free : Worker → Bool
is_free (sending _) = false
is_free _ = true

running_count-map : (pods : List Pod) → running_count (map running pods) ≡ length pods
running_count-map [] = refl
running_count-map (p ∷ pods) = ap_suc (running_count-map pods)
  where
    ap_suc : {m n : ℕ} → m ≡ n → suc m ≡ suc n
    ap_suc e i = suc (e i)

length-append : (xs ys : List Error) → length (xs ++ ys) ≡ length xs + length ys
length-append [] ys = omega arith
length-append (x ∷ xs) ys = omega (arith, length-append xs ys)

all_free : (pods : List Pod) → all is_free (map running pods) ≡ true
all_free [] = refl
all_free (p ∷ pods) = all_free pods

module _ (c : Cluster) where
  -- Goroutines that take turns, in any order, at a channel with `size` places.
  unfoldable pub turns : ℕ → List ℕ → List Worker → List Error → Act Call (List Worker × List Error)
  unfolding ◌>>=◌
  turns size [] ws errors = pure (ws, errors)
  turns size (i ∷ is) ws errors =
      turn c (has_room size errors) i ws >>= λ (ws', sent). turns size is ws' (errors ++ sent)

  -- With room for the goroutines that run, a turn leaves none at the channel.
  turn_free :
      (room : Bool) (i : ℕ) (ws : List Worker) (s : List Call) (ws' : List Worker)
      (sent : List Error)
      → all is_free ws ≡ true
      → (room ≡ false → running_count ws ≡ 0)
      → (turn c room i ws s).0 ≡ ok (ws', sent)
      → (all is_free ws' ≡ true) × (length sent + running_count ws' ≤ running_count ws)
  unfolding turn send_error
  turn_free room i [] s ws' sent free full e = (ground (arith, e), ground (arith, e))
  turn_free room zero (returned ∷ ws) s ws' sent free full e =
      (ground (arith, e, free), ground (arith, e))
  turn_free room zero (sending x ∷ ws) s ws' sent free full e = absurd (ground (arith, free))
  turn_free true zero (running pod ∷ ws) s ws' sent free full e =
      (ground (arith, e, free), ground (arith, e))
  turn_free false zero (running pod ∷ ws) s ws' sent free full e =
      absurd (ground (arith, full refl))
  turn_free room (suc i) (sending x ∷ ws) s ws' sent free full e = absurd (ground (arith, free))
  turn_free room (suc i) (running pod ∷ ws) s ws' sent free full e =
      let ((ws₁, sent₁), before, after) = >>=-eq-ok (turn c room i ws) _ s (ws', sent) e in
      let (h, k) =
        turn_free room i ws s ws₁ sent₁ free (λ no_room. absurd (ground (arith, full no_room)))
          before in
      (ground (arith, h, after), ground (arith, k, after))
  turn_free room (suc i) (returned ∷ ws) s ws' sent free full e =
      let ((ws₁, sent₁), before, after) = >>=-eq-ok (turn c room i ws) _ s (ws', sent) e in
      let (h, k) = turn_free room i ws s ws₁ sent₁ free full before in
      (ground (arith, h, after), ground (arith, k, after))

  turns_free :
      (size : ℕ) (is : List ℕ) (ws : List Worker) (errors : List Error) (s : List Call)
      (ws' : List Worker) (errors' : List Error)
      → all is_free ws ≡ true
      → length errors + running_count ws ≤ size
      → (turns size is ws errors s).0 ≡ ok (ws', errors')
      → (all is_free ws' ≡ true) × (length errors' + running_count ws' ≤ size)
  unfolding turns
  turns_free size [] ws errors s ws' errors' free room e =
      (ground (arith, e, free), ground (arith, e, room))
  turns_free size (i ∷ is) ws errors s ws' errors' free room e =
      let ((ws₁, sent), before, after) =
        >>=-eq-ok (turn c (has_room size errors) i ws) _ s (ws', errors') e in
      let (h, k) =
        turn_free (has_room size errors) i ws s ws₁ sent free (λ full. ground (arith, full, room))
          before in
      turns_free size is ws₁ (errors ++ sent) _ ws' errors' h
        (omega (arith, k, room, length-append errors sent)) after

  -- However the goroutines of `evictPods` take turns, one for each pod, none of them is ever
  -- blocked at the channel, whose places are as many as `evictPods` makes, also where nobody
  -- receives from it; and the errors in it and the goroutines that still run are never more than
  -- the pods.
  pub turns-never_block :
      (is : List ℕ) (pods : List Pod) (s : List Call) (ws : List Worker) (errors : List Error)
      → (turns (channel_size pods) is (map running pods) [] s).0 ≡ ok (ws, errors)
      → (all is_free ws ≡ true) × (length errors + running_count ws ≤ length pods)
  turns-never_block is pods s ws errors e =
      turns_free (channel_size pods) is (map running pods) [] s ws errors (all_free pods)
        (omega (arith, at_most (running_count-map pods))) e
    where
      at_most : {m n : ℕ} → m ≡ n → m ≤ n
      at_most e = omega arith

  await_at_most_one :
      (size : ℕ) (moves : List Move) (ws : List Worker) (errors : List Error) (s : List Call)
      (result : List Error)
      → (await c size moves ws errors s).0 ≡ ok result
      → length result ≤ 1
  unfolding await
  await_at_most_one size [] ws errors s result e = ground arith
  await_at_most_one size (goroutine i ∷ moves) ws errors s result e =
      let ((ws₁, sent), before, after) =
        >>=-eq-ok (turn c (has_room size errors) i ws) _ s result e in
      await_at_most_one size moves ws₁ (errors ++ sent) _ result after
  await_at_most_one size (select_finished ∷ moves) ws errors s result e =
      ground (arith, await_at_most_one size moves ws errors s result)
  await_at_most_one size (select_error ∷ moves) ws [] s result e =
      await_at_most_one size moves ws [] s result e
  await_at_most_one size (select_error ∷ moves) ws (x ∷ errors) s result e = ground arith
  await_at_most_one size (select_timeout ∷ moves) ws errors s result e = ground arith

  -- `evictPods` returns at most one error, whatever the schedule.
  pub evict_pods-at_most_one :
      (pods : List Pod) (s : List Call) (result : List Error)
      → (evict_pods c pods s).0 ≡ ok result
      → length result ≤ 1
  unfolding evict_pods
  evict_pods-at_most_one [] s result e = ground arith
  evict_pods-at_most_one (pod ∷ pods) s result e =
      await_at_most_one (channel_size (pod ∷ pods)) (c.schedule s) (map running (pod ∷ pods)) [] s
        result e

  -- If the eviction of a lone pod fails for good, what `evictPods` returns depends on the case
  -- that `select` takes when both are ready: it loses the error if it takes `finished`, and
  -- returns it if it takes `errCh`.
  pub evict_pods-loses_error :
      (pod : Pod) (s : List Call) (e : Error) (finished : Bool)
      → is_not_found e ≡ false
      → is_too_many_requests e ≡ false
      → c.evicted s pod ≡ err e
      → c.schedule s ≡ goroutine 0 ∷ (if finished then select_finished else select_error) ∷ []
      → (evict_pods c (pod ∷ []) s).0
        ≡ ok (if finished then [] else wrapped "error evicting pod" e ∷ [])
  unfolding evict_pods
  evict_pods-loses_error pod s e true gone retry failed order =
      rw (evict_pods, order) (ground arith)
  evict_pods-loses_error pod s e false gone retry failed order =
      rw (evict_pods, order) (ground arith)

  -- The wait for the deletion of pods looks at the first pod alone: with the same first pod, and
  -- any others that may still be there, it makes the same calls and ends in the same way.
  pub wait_for_deletion-first_only :
      (pod : Pod) (pods others : List Pod) (s : List Call)
      → wait_for_deletion c (pod ∷ pods) s ≡ wait_for_deletion c (pod ∷ others) s
  unfolding wait_for_deletion are_deleted
  wait_for_deletion-first_only pod pods others s = refl
