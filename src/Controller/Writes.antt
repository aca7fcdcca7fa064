-- ===== src/Controller/Writes.antt =====
-- What `updateMachine` of machine.go writes.
use machine_controller.Base.{◌≡◌, refl, Bool, true, false, List, ◌∷◌}
use machine_controller.Outcome.{ok, call, ◌>>=◌}
use machine_controller.Outcome.Emits.{
  Emits, Emits-pure, Emits-call, Emits-if, Emits-attempt_eq, emits_rules,
}
use machine_controller.Kube.{Machine}
use machine_controller.Kube.Calls.{Call, get_machine_object, update_machine_object}
use machine_controller.Kube.Cluster.{Cluster, IsLawful, retry_machine-Emits, retry_machine-eq-ok}
use machine_controller.Controller.Update.{update_machine_once, update_machine}

-- A set of calls given by a test on the machines that are written.
abbrev pub writes : (Machine → Bool) → Call → Bool
writes p (update_machine_object m) = p m
writes p _ = true

module _ {c : Cluster} (l : IsLawful c) (p : Machine → Bool) where
  -- What `updateMachine` writes is what `modify` makes of a machine from the lister.
  pub update_machine-writes :
      (m : Machine) (modify : Machine → Machine)
      → ((s : List Call) (x : Machine)
          → c.machine s m.namespace m.name ≡ ok x
          → p (modify x) ≡ true)
      → Emits (writes p) (update_machine c m modify)
  unfolding update_machine update_machine_once ◌>>=◌ call
  update_machine-writes m modify h =
      retry_machine-Emits l (update_machine_once c m.namespace m.name modify) (
        Emits-attempt_eq
          (call (get_machine_object m.namespace m.name) (λ s. c.machine s m.namespace m.name)) _ _
          (Emits-call _ _ refl)
          (λ s x found.
            Emits-if (c.equal_machines x (modify x)) _ _ (λ _. Emits-pure _)
              (λ _. Emits-call (update_machine_object (modify x)) _ (h s x found)))
          (λ s e _. search emits_rules))

-- The last call writes a machine that passes the test.
pub data IsWritten (p : Machine → Bool) : List Call → Type 0 where
  written : (m : Machine) {s : List Call} → p m ≡ true → IsWritten p (update_machine_object m ∷ s)

-- The lister always shows `m` as `x`, and the API accepts each write of a machine.
pub record IsAccepting (c : Cluster) (m x : Machine) : Type 0 where
  pub machine_ok : (s : List Call) → c.machine s m.namespace m.name ≡ ok x
  pub updated_machine_ok :
      (s : List Call) (y : Machine) → (z : Machine) × (c.updated_machine s y ≡ ok z)

-- Where a change changes the machine that the lister shows, `updateMachine` writes it.
pub update_machine-eq :
    {c : Cluster} {m x : Machine}
    → IsLawful c
    → IsAccepting c m x
    → (modify : Machine → Machine) (s : List Call) → c.equal_machines x (modify x) ≡ false
    → (z : Machine) × (update_machine c m modify s
        ≡ (ok z, update_machine_object (modify x) ∷ get_machine_object m.namespace m.name ∷ s))
unfolding update_machine update_machine_once ◌>>=◌ call
update_machine-eq {c} {m} {x} l a modify s differs =
    let looked = get_machine_object m.namespace m.name ∷ s in
    let (z, accepted) = a.updated_machine_ok looked (modify x) in
    (
      z,
      retry_machine-eq-ok l (update_machine_once c m.namespace m.name modify) s z
          (update_machine_object (modify x) ∷ looked) (rw (a.machine_ok s, differs, accepted) refl),
    )
