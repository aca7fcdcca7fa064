-- ===== src/Scenarios/Pods.antt =====
-- Evictions on the small cluster.
use machine_controller.Base.{length, all, ◌+◌, ◌≤◌, ◌≡◌, refl, true, [], ◌∷◌, arith}
use machine_controller.Outcome.{new_error, wrapped, ok, ◌>>=◌, wrap}
use machine_controller.Outcome.Emits.{Emits}
use machine_controller.Eviction.{
  running, sending, returned, channel_size, send_error, turn, await, evict_pods, run,
}
use machine_controller.Eviction.Pods.{running_count, is_free, turns, turns-never_block}
use machine_controller.Eviction.Order.{not_evict, run-evicts_after_cordon}
use machine_controller.Scenarios.World.{worker_pod, world, world-IsLawful}

one_turn :
    (turns world (channel_size (worker_pod ∷ [])) (0 ∷ []) (running worker_pod ∷ []) [] []).0
    ≡ ok (returned ∷ [], wrapped "error evicting pod" (new_error "forbidden") ∷ [])
unfolding turns turn send_error ◌>>=◌ wrap
one_turn = refl

-- At a channel without places the goroutine would not return.
no_place :
    (turns world 0 (0 ∷ []) (running worker_pod ∷ []) [] []).0
    ≡ ok (sending (wrapped "error evicting pod" (new_error "forbidden")) ∷ [], [])
unfolding turns turn send_error ◌>>=◌ wrap
no_place = refl

nothing_returned : (evict_pods world (worker_pod ∷ []) []).0 ≡ ok []
unfolding evict_pods await turn ◌>>=◌ wrap
nothing_returned = refl

turns-never_block_example :
    (all is_free (returned ∷ []) ≡ true)
    × (length (wrapped "error evicting pod" (new_error "forbidden") ∷ [])
          + running_count (returned ∷ [])
        ≤ 1)
turns-never_block_example =
    turns-never_block world (0 ∷ []) (worker_pod ∷ []) [] (returned ∷ [])
      (wrapped "error evicting pod" (new_error "forbidden") ∷ []) one_turn

run-evicts_after_cordon_example : Emits not_evict (run world "worker")
run-evicts_after_cordon_example =
    run-evicts_after_cordon world-IsLawful "worker" (λ s node e. ground (arith, e))
