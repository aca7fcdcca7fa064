-- ===== src/Providers/Contract.antt =====
-- pkg/cloudprovider/types/types.go: the interface Provider, as a specification that the providers
-- refine.
use machine_controller.Base.{
  String, ◌≡◌, ◌≢◌, refl, ap, ◌∙◌, Bool, true, false, List, if◌then◌else◌, arith,
}
use machine_controller.Outcome.{
  Error, instance_not_found, is_instance_not_found, Outcome, ok, err, panicked, Act, pure, raise,
  attempt, resume, ◌>>=◌,
}
use machine_controller.Outcome.Emits.{Extends, Emits}
use machine_controller.Outcome.Yields.{Yields}
use machine_controller.Kube.{Machine}

-- The methods of a provider, and how its requests are told apart: those that change nothing, those
-- that may be made to remove an instance, and those that may be made to create one with a UID.
pub record Provider (E I : Type 0) : Type 1 where
  pub get : Machine → Act E I
  pub create : Machine → String → Act E I
  pub cleanup : Machine → Act E Bool
  pub is_tagged : I → String → Bool
  pub reads : E → Bool
  pub removes : I → E → Bool
  pub creates : String → E → Bool

module _ {E I : Type 0} (p : Provider E I) where
  -- What `Cleanup` may do: it is done exactly if `Get` finds nothing; else it asks for nothing but
  -- the removal of the instance that `Get` found, and is not done yet.
  pub data CleansUp (m : Machine) (s : List E) : Outcome Bool × List E → Type 0 where
    nothing_left :
        {t : List E} → p.get m s ≡ (err instance_not_found, t) → CleansUp m s (ok true, t)
    get_failed :
        {e : Error} {t : List E}
        → p.get m s ≡ (err e, t)
        → is_instance_not_found e ≡ false
        → CleansUp m s (err e, t)
    get_panicked : {t : List E} → p.get m s ≡ (panicked, t) → CleansUp m s (panicked, t)
    asked_to_remove :
        {i : I} {t u : List E} {r : Outcome Bool}
        → p.get m s ≡ (ok i, t)
        → Extends (p.removes i) t u
        → r ≢ ok true
        → CleansUp m s (r, u)

  pub record IsProvider : Type 0 where
    -- looking changes nothing
    pub get_reads : (m : Machine) → Emits p.reads (p.get m)
    -- the instance that is found carries the machine's UID
    pub get_tagged : (m : Machine) → Yields (λ i. p.is_tagged i m.uid ≡ true) (p.get m)
    pub cleanup_refines : (m : Machine) (s : List E) → CleansUp m s (p.cleanup m s)
    -- a server that is asked for carries the machine's UID
    pub create_tags :
        (m : Machine) (user_data : String) → Emits (p.creates m.uid) (p.create m user_data)

instance_not_found_only : (e : Error) → is_instance_not_found e ≡ true → e ≡ instance_not_found
instance_not_found_only instance_not_found h = refl
instance_not_found_only (Error.terminal_error _ _) h = absurd (ground (arith, h))
instance_not_found_only Error.not_found h = absurd (ground (arith, h))
instance_not_found_only Error.conflict h = absurd (ground (arith, h))
instance_not_found_only Error.too_many_requests h = absurd (ground (arith, h))
instance_not_found_only Error.timed_out h = absurd (ground (arith, h))
instance_not_found_only (Error.new_error _) h = absurd (ground (arith, h))
instance_not_found_only (Error.wrapped _ _) h = absurd (ground (arith, h))

false_is_not_done : {r : Outcome Bool} → ((done : Bool) → r ≡ ok done → done ≡ false) → r ≢ ok true
false_is_not_done h e = absurd (ground (arith, h true e))

module _ {E I : Type 0} (p : Provider E I) where
  -- A cleanup of the usual shape.
  pub attempt-CleansUp :
      (m : Machine) (rest : I → Act E Bool)
      → ((i : I) → Emits (p.removes i) (rest i))
      → ((i : I) → Yields (λ done. done ≡ false) (rest i))
      → (s : List E)
      → CleansUp p m s
          (attempt (p.get m) rest (λ e. if is_instance_not_found e then pure true else raise e) s)
  unfolding attempt ◌>>=◌
  attempt-CleansUp m rest removes unfinished s = let (r, t) = p.get m s in go (p.get m s) refl
    where
      failed :
          (e : Error) (b : Bool) (t : List E)
          → is_instance_not_found e ≡ b
          → p.get m s ≡ (err e, t)
          → CleansUp p m s ((if b then pure true else raise e) t)
      failed e true t h k = nothing_left (k ∙ ap (λ x. (err x, t)) (instance_not_found_only e h))
      failed e false t h k = get_failed k h

      go :
          (o : Outcome I × List E)
          → p.get m s ≡ o
          → CleansUp p m s
              (resume o.0 rest (λ e. if is_instance_not_found e then pure true else raise e) o.1)
      go (ok i, t) k =
          asked_to_remove k ((removes i).at t) (false_is_not_done ((unfinished i).at t))
      go (err e, t) k = failed e (is_instance_not_found e) t refl k
      go (panicked, t) k = get_panicked k
