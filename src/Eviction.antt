-- ===== src/Eviction.antt =====
-- pkg/node/eviction/eviction.go: a node is cordoned, its pods are evicted by one goroutine each,
-- and the controller waits until they are gone. The scheduler, with the moment at which the
-- `select` of `evictPods` goes on, is the parameter `schedule`; goroutines that still run when
-- `evictPods` has returned only look at `isDone` or finish their last call, which is left out.
-- The channel `errCh` is the list of the errors in it, with the number of its places.
pub mod Pods
pub mod Order
use machine_controller.Base.{
  ℕ, zero, suc, String, Bool, true, false, not, ◌&&◌, ◌||◌, Option, none, some, List, [], ◌∷◌, ◌++◌,
  map, all, keep, length, ltb, is_some, lookup, ◌==◌, if◌then◌else◌,
}
use machine_controller.Outcome.{
  Error, new_error, wrapped, is_not_found, is_too_many_requests, Act, pure, raise, lift, call, ask,
  attempt, wrap, on_option, ◌>>=◌, ◌>>◌,
}
use machine_controller.Kube.{Node, Pod}
use machine_controller.Kube.Calls.{
  Call, get_lister_node, get_api_node, update_node_object, list_pods, get_pod, evict_pod,
}
use machine_controller.Kube.Cluster.{
  Cluster, Move, goroutine, select_finished, select_error, select_timeout,
}

abbrev pub skip_eviction_annotation : String
skip_eviction_annotation = "kubermatic.io/skip-eviction"

-- The condition under which `getFilteredPods` keeps a pod.
unfoldable pub needs_eviction : Pod → Bool
needs_eviction pod =
    not (pod.phase == "Succeeded" || pod.phase == "Failed")
    && not (elim pod.controller_kind [ none ↦ false | some kind ↦ kind == "DaemonSet" ])
    && not (is_some (lookup "kubernetes.io/config.mirror" pod.annotations))

-- A goroutine of `evictPods`: in its loop, or done.
pub data Worker : Type 0 where
  running : Pod → Worker
  -- with an error that the channel has no place for
  sending : Error → Worker
  returned : Worker

abbrev pub has_returned : Worker → Bool
has_returned (running _) = false
has_returned (sending _) = false
has_returned returned = true

abbrev pub first_error : List Error → Option Error
first_error [] = none
first_error (e ∷ _) = some e

-- `errCh := make(chan error, len(pods))`
abbrev pub channel_size : List Pod → ℕ
channel_size pods = length pods

abbrev pub has_room : ℕ → List Error → Bool
has_room size errors = ltb (length errors) size

abbrev pub cordoned : Node → Node
cordoned n = record n { unschedulable = true }

module _ (c : Cluster) where
  unfoldable pub update_node : String → (Node → Node) → Act Call Node
  unfolding ◌>>=◌
  update_node name modify = c.retry_node (do
    current ← call (get_api_node name) (λ s. c.api_node s name)
    call (update_node_object (modify current)) (λ s. c.updated_node s (modify current)))

  unfoldable pub is_cordoned : String → Act Call Bool
  unfolding ◌>>=◌
  is_cordoned name = do
    node ← call (get_lister_node name) (λ s. c.lister_node s name)
    pure node.unschedulable

  unfoldable pub cordon_node : String → Act Call (Unit {0})
  unfolding ◌>>=◌
  cordon_node name = do node ← update_node name cordoned; c.poll (is_cordoned name)

  unfoldable pub get_filtered_pods : String → Act Call (List Pod)
  unfolding ◌>>=◌
  get_filtered_pods name = do
    pods ← call (list_pods name) (λ s. c.pods s name)
    pure (keep needs_eviction pods)

  -- `errCh <- e`, which blocks while the channel has no room.
  unfoldable pub send_error : Bool → Error → List Worker → Act Call (List Worker × List Error)
  send_error room e ws = if room then pure (returned ∷ ws, e ∷ []) else pure (sending e ∷ ws, [])

  -- Goroutine `i` goes round its loop once. The second list is what it sends to `errCh`.
  unfoldable pub turn : Bool → ℕ → List Worker → Act Call (List Worker × List Error)
  unfolding ◌>>=◌ send_error
  turn room i [] = pure ([], [])
  turn room zero (returned ∷ ws) = pure (returned ∷ ws, [])
  turn room zero (sending e ∷ ws) = send_error room e ws
  turn room zero (running pod ∷ ws) =
      attempt (call (evict_pod pod.namespace pod.name) (λ s. c.evicted s pod))
        (λ _. pure (returned ∷ ws, []))
        (λ e.
          if is_not_found e
          then pure (returned ∷ ws, [])
          else if is_too_many_requests e
          then pure (running pod ∷ ws, [])
          else send_error room (wrapped "error evicting pod" e) ws)
  turn room (suc i) (w ∷ ws) = turn room i ws >>= λ (ws', sent). pure (w ∷ ws', sent)

  -- The `select`, with what the goroutines do before it goes on. `errors` is the channel `errCh`,
  -- which has `size` places.
  unfoldable pub await : ℕ → List Move → List Worker → List Error → Act Call (List Error)
  unfolding turn
  await size [] ws errors = pure (new_error "timed out waiting for evictions to complete" ∷ [])
  await size (goroutine i ∷ moves) ws errors =
      turn (has_room size errors) i ws >>= λ (ws', sent). await size moves ws' (errors ++ sent)
  await size (select_finished ∷ moves) ws errors =
      let rest = await size moves ws errors in if all has_returned ws then pure [] else rest
  await size (select_error ∷ moves) ws errors =
      let rest = await size moves ws errors in
      on_option (first_error errors) rest (λ e. pure (e ∷ []))
  await size (select_timeout ∷ moves) ws errors =
      pure (new_error "timed out waiting for evictions to complete" ∷ [])

  unfoldable pub evict_pods : List Pod → Act Call (List Error)
  unfolding await
  evict_pods [] = pure []
  evict_pods (pod ∷ pods) = ask c.schedule >>= λ moves.
      await (channel_size (pod ∷ pods)) moves (map running (pod ∷ pods)) []

  -- The condition that `waitForDeletion` polls.
  unfoldable pub are_deleted : List Pod → Act Call Bool
  unfolding ◌>>=◌
  are_deleted [] = pure true
  are_deleted (pod ∷ pods) =
      attempt (call (get_pod pod.namespace pod.name) (λ s. c.pod s pod.namespace pod.name))
        (λ _. pure false) (λ e. if is_not_found e then pure true else raise e)

  unfoldable pub wait_for_deletion : List Pod → Act Call (Unit {0})
  wait_for_deletion pods = c.poll (are_deleted pods)

  -- What `Run` does with a node that is not to be skipped.
  unfoldable pub evict_node : String → Act Call (Unit {0})
  evict_node name = do
    wrap "failed to cordon node" (cordon_node name)
    pods ← wrap "failed to get Pods to evict" (get_filtered_pods name)
    errors ← evict_pods pods
    on_option (first_error errors)
        (wrap "failed waiting for pods to be deleted" (wait_for_deletion pods))
        (λ e. raise (wrapped "failed to evict pods, errors encountered" e))

  unfoldable pub run : String → Act Call (Unit {0})
  run name = do
    node ←
        wrap "failed to get node from lister"
          (call (get_lister_node name) (λ s. c.lister_node s name))
    if is_some (lookup skip_eviction_annotation node.annotations) then pure tt else evict_node name
