-- ===== src/Controller/Matching.antt =====
-- Which node belongs to a machine, in machine.go: getNode, deleteNodeForMachine, handleObject.
use mathlib.Core.Path.{subst}
use machine_controller.Base.{
  Option, if◌then◌else◌, String, ◌≡◌, refl, Bool, true, false, ◌&&◌, none, some, List, [], ◌∷◌,
  ◌++◌, any, all, keep, lookup, ◌==◌, arith, eq_refl, Bool-cases, inl, inr,
}
use machine_controller.Outcome.{ok, call, wrap, ◌>>=◌, ◌>>◌}
use machine_controller.Outcome.Emits.{
  Emits, emits_rules, Emits-attempt_eq, Emits-then, Emits-call, Emits-wrap, Emits-raise,
}
use machine_controller.Kube.{Machine, Node, Instance, ObjectMeta}
use machine_controller.Kube.Calls.{
  Call, list_nodes, list_machine_objects, is_benign, delete_node_object, queue_add_rate_limited,
}
use machine_controller.Kube.Cluster.{Cluster, IsLawful}
use machine_controller.Controller.Nodes.{node_owner_label, is_node_of, first_node, get_node}
use machine_controller.Controller.Delete.{is_owned_by, delete_nodes, delete_node_for_machine}
use machine_controller.Controller.Queue.{enqueue_machine, enqueue_owner, handle_meta}
use machine_controller.Controller.Benign.{update_machine-Emits}

-- The first of a list that matches: those before it do not.
pub record IsFirst {A : Type 0} (matches : A → Bool) (xs : List A) (x : A) : Type 0 where
  pub before : List A
  pub after : List A
  pub split : xs ≡ before ++ x ∷ after
  pub matched : matches x ≡ true
  pub unmatched : any matches before ≡ false

-- A search: none of the list matches, or the first that does is found.
abbrev pub IsSearched : {A : Type 0} → (A → Bool) → List A → Option A → Type 0
IsSearched matches xs none = any matches xs ≡ false
IsSearched matches xs (some x) = IsFirst matches xs x

module _ {A : Type 0} (matches : A → Bool) where
  extended :
      (x : A) (xs : List A) (found : Option A)
      → matches x ≡ false
      → IsSearched matches xs found
      → IsSearched matches (x ∷ xs) found
  extended x xs none other h = ground (arith, other, h)
  extended x xs (some y) other first = record {
    before = x ∷ first.before;
    after = first.after;
    split = ground (arith, first.split);
    matched = first.matched;
    unmatched = ground (arith, other, first.unmatched);
  }

  searched : (xs : List A) → (found : Option A) × IsSearched matches xs found
  searched [] = (none, refl)
  searched (x ∷ xs) = elim (Bool-cases (matches x)) [
    | inl yes_it_is ↦ (
      some x,
      record { before = []; after = xs; split = refl; matched = yes_it_is; unmatched = refl },
    )
    | inr other ↦ let (found, h) = searched xs in (found, extended x xs found other h)
  ]

module _ (matches : Node → Bool) where
  first_node-IsSearched : (nodes : List Node) → IsSearched matches nodes (first_node matches nodes)
  unfolding first_node
  first_node-IsSearched [] = refl
  first_node-IsSearched (n ∷ nodes) = go (matches n) refl (first_node-IsSearched nodes)
    where
      go :
          (b : Bool)
          → matches n ≡ b
          → IsSearched matches nodes (first_node matches nodes)
          → IsSearched matches (n ∷ nodes) (if b then some n else first_node matches nodes)
      go true e _ = record {
        before = [];
        after = nodes;
        split = refl;
        matched = e;
        unmatched = refl;
      }
      go false e rest = extended matches n nodes _ e rest

module _ (c : Cluster) (i : Instance) (provider : String) (s : List Call) (nodes : List Node)
    (listed : c.nodes s ≡ ok nodes) where
  -- `getNode` asks the lister once and finds the first node of the list that has the provider ID
  -- of the instance or one of its addresses; it finds none exactly if there is no such node.
  pub get_node-IsFirst :
      (found : Option Node) × (get_node c (some i) provider s ≡ (ok found, list_nodes ∷ s))
      × IsSearched (is_node_of c i provider) nodes found
  unfolding get_node ◌>>=◌
  get_node-IsFirst =
      let p = is_node_of c i provider in
      (first_node p nodes, ground (arith, listed), first_node-IsSearched p nodes)

-- The only nodes that are deleted are those in the list with this name and the owner label.
abbrev pub deletes_owned : Machine → List Node → Call → Bool
deletes_owned m nodes (delete_node_object name) =
    any (λ node. node.name == name && is_owned_by m node) nodes
deletes_owned m nodes _ = true

all_mono :
    (p q : Node → Bool) (nodes : List Node)
    → ((n : Node) → p n ≡ true → q n ≡ true)
    → all p nodes ≡ true
    → all q nodes ≡ true
all_mono p q [] h e = refl
all_mono p q (n ∷ nodes) h e = ground (arith, h n, all_mono p q nodes h)

owned-listed :
    (m : Machine) (nodes : List Node)
    → all (λ n. any (λ x. x.name == n.name && is_owned_by m x) nodes) (keep (is_owned_by m) nodes)
      ≡ true
owned-listed m [] = refl
owned-listed m (n ∷ nodes) =
    let rest =
      all_mono (λ n. any (λ x. x.name == n.name && is_owned_by m x) nodes)
        (λ k. any (λ x. x.name == k.name && is_owned_by m x) (n ∷ nodes))
        (keep (is_owned_by m) nodes) (λ k h. ground (arith, h)) (owned-listed m nodes) in
    ground (arith, rest, eq_refl n.name)

abbrev IsOwned : Machine → List Node → List Node → Type 0
IsOwned m nodes ns = all (λ n. any (λ x. x.name == n.name && is_owned_by m x) nodes) ns ≡ true

deletes_owned-benign :
    (m : Machine) (nodes : List Node) (e : Call)
    → is_benign e ≡ true
    → deletes_owned m nodes e ≡ true
deletes_owned-benign m nodes e h = ground arith

module _ {c : Cluster} (l : IsLawful c) (m : Machine) (nodes : List Node)
    (listed : (s : List Call) → c.nodes s ≡ ok nodes) where
  delete_nodes-owned :
      (ns : List Node)
      → all (λ n. any (λ x. x.name == n.name && is_owned_by m x) nodes) ns ≡ true
      → Emits (deletes_owned m nodes) (delete_nodes c ns)
  unfolding delete_nodes
  delete_nodes-owned [] h = search emits_rules
  delete_nodes-owned (n ∷ ns) h =
      Emits-then (call (delete_node_object n.name) _) _ (Emits-call _ _ (ground (arith, h)))
        (delete_nodes-owned ns (ground (arith, h)))

  same_nodes :
      (text : String) (s : List Call) (ns : List Node)
      → (wrap text (call list_nodes c.nodes) s).0 ≡ ok ns
      → nodes ≡ ns
  unfolding wrap ◌>>=◌
  same_nodes text s ns e = ground (arith, listed s, e)

  -- When the instance of a machine is gone, no node is deleted but those of the list that carry
  -- the owner label with the UID of the machine.
  pub delete_node_for_machine-owned : Emits (deletes_owned m nodes) (delete_node_for_machine c m)
  unfolding delete_node_for_machine ◌>>=◌
  delete_node_for_machine-owned =
      let update = update_machine-Emits l (deletes_owned-benign m nodes) in
      Emits-attempt_eq (wrap _ (call list_nodes c.nodes)) _ _
        (Emits-wrap _ (call list_nodes c.nodes) (Emits-call _ _ refl))
        (λ s ns e.
          Emits-then (delete_nodes c (keep (is_owned_by m) ns)) _
            (delete_nodes-owned (keep (is_owned_by m) ns) (
              subst (λ k. IsOwned m nodes (keep (is_owned_by m) k)) (same_nodes _ s ns e)
                (owned-listed m nodes)))
            (search (emits_rules, update)))
        (λ s e _. Emits-raise e)

abbrev pub queued : (Machine → String) → Option Machine → List Call → List Call
queued key none s = s
queued key (some m) s = queue_add_rate_limited (key m) ∷ s

module _ (c : Cluster) (meta : ObjectMeta) (uid : String) (s : List Call) (machines : List Machine)
    (labelled : lookup node_owner_label meta.labels ≡ some uid)
    (listed : c.machines s ≡ ok machines) where
  enqueue_owner-first :
      (before after : List Machine) (m : Machine) (key : String) (s : List Call)
      → any (λ x. x.uid == uid) before ≡ false
      → (m.uid == uid) ≡ true
      → c.key_of m ≡ ok key
      → enqueue_owner c uid (before ++ m ∷ after) s ≡ (ok tt, queue_add_rate_limited key ∷ s)
  unfolding enqueue_owner enqueue_machine ◌>>=◌
  enqueue_owner-first [] after m key s others owned keyed = ground arith
  enqueue_owner-first (x ∷ before) after m key s others owned keyed =
      ground (arith, enqueue_owner-first before after m key s, others)

  enqueue_owner-none :
      (ms : List Machine) (s : List Call)
      → any (λ x. x.uid == uid) ms ≡ false
      → enqueue_owner c uid ms s ≡ (ok tt, s)
  unfolding enqueue_owner ◌>>=◌
  enqueue_owner-none [] s none_owned = refl
  enqueue_owner-none (x ∷ ms) s none_owned = ground (arith, enqueue_owner-none ms s, none_owned)

  handle_meta-some :
      (m : Machine) (key : String)
      → IsFirst (λ x. x.uid == uid) machines m
      → c.key_of m ≡ ok key
      → handle_meta c meta s ≡ (ok tt, queue_add_rate_limited key ∷ list_machine_objects ∷ s)
  unfolding handle_meta ◌>>◌ ◌>>=◌
  handle_meta-some m key first keyed = ground (
    arith,
    labelled,
    listed,
    first.split,
    enqueue_owner-first first.before first.after m key (list_machine_objects ∷ s) first.unmatched
        first.matched keyed,
  )

  handle_meta-none :
      any (λ x. x.uid == uid) machines ≡ false
      → handle_meta c meta s ≡ (ok tt, list_machine_objects ∷ s)
  unfolding handle_meta ◌>>◌ ◌>>=◌
  handle_meta-none none_owned =
      ground
        (arith, labelled, listed, enqueue_owner-none machines (list_machine_objects ∷ s) none_owned)

  -- A change of a node with an owner label queues exactly one machine, the first of the list
  -- with the UID on the label, and no machine if none has it (where each machine has a key).
  pub handle_meta-owner :
      (key : Machine → String)
      → ((m : Machine) → c.key_of m ≡ ok (key m))
      → (found : Option Machine) × IsSearched (λ x. x.uid == uid) machines found
        × (handle_meta c meta s ≡ (ok tt, queued key found (list_machine_objects ∷ s)))
  handle_meta-owner key keyed =
      let (found, h) = searched (λ x. x.uid == uid) machines in (found, h, go found h)
    where
      go :
          (found : Option Machine)
          → IsSearched (λ x. x.uid == uid) machines found
          → handle_meta c meta s ≡ (ok tt, queued key found (list_machine_objects ∷ s))
      go none h = handle_meta-none h
      go (some m) first = handle_meta-some m (key m) first (keyed m)
