-- ===== src/Controller/Nodes.antt =====
-- The parts of machine.go about nodes: readiness, the node of an instance, labels, annotations
-- and taints, the status of the machine, and the filter of the node informer.
use machine_controller.Base.{
  String, Bool, true, false, not, ◌&&◌, ◌||◌, Option, none, some, List, [], ◌∷◌, ◌++◌, concat, any,
  is_some, Pairs, StringMap, lookup, assign, ◌==◌, if◌then◌else◌,
}
use machine_controller.Outcome.{
  new_error, Act, pure, raise, lift, call, panic, wrap, on_option, tell, ◌>>=◌,
}
use machine_controller.Kube.{Taint, Condition, Machine, Node, Instance, ObjectReference}
use machine_controller.Kube.Calls.{
  Call, get_lister_node, list_nodes, update_node_object, record_event,
}
use machine_controller.Kube.Cluster.{Cluster}
use machine_controller.Controller.Update.{update_machine}

abbrev pub node_owner_label : String
node_owner_label = "machine-controller/owned-by"

abbrev pub is_ready_condition : Condition → Bool
is_ready_condition condition = condition.type == "Ready" && condition.status == "True"

unfoldable pub node_is_ready : Node → Bool
node_is_ready node = any is_ready_condition node.conditions

-- `UpdateFunc` of the node informer: an update is passed on if it has a new version, and no Ready
-- condition of the new node has the status of a Ready condition of the old one.
unfoldable pub node_update_matters : Node → Node → Bool
node_update_matters old_node new_node =
    not (new_node.resource_version == old_node.resource_version)
    && not (
        any
          (λ new.
            new.type == "Ready"
            && any (λ old. old.type == "Ready" && new.status == old.status) old_node.conditions)
          new_node.conditions)

-- The loop over the labels, or the annotations, of a machine: those that the node lacks are
-- added. `none` is the panic of a write to a nil map; the flag says whether one was added.
unfoldable pub add_missing : Pairs → StringMap → Option (StringMap × Bool)
add_missing [] m = some (m, false)
add_missing ((k, v) ∷ wanted) m =
    if is_some (lookup k m) then add_missing wanted m else elim (assign k v m) [
      | none ↦ none
      | some m' ↦ elim (add_missing wanted m') [ none ↦ none | some (m'', _) ↦ some (m'', true) ]
    ]

abbrev pub has_machine_set : List ObjectReference → Bool
has_machine_set = any (λ owner. owner.kind == "MachineSet")

-- The loop of `getNode`.
unfoldable pub first_node : (Node → Bool) → List Node → Option Node
first_node matches [] = none
first_node matches (node ∷ nodes) = if matches node then some node else first_node matches nodes

module _ (c : Cluster) where
  unfoldable pub add_missing_taints : List Taint → List Taint → List Taint × Bool
  add_missing_taints [] taints = (taints, false)
  add_missing_taints (t ∷ wanted) taints =
      let found = add_missing_taints wanted taints in
      let added = (add_missing_taints wanted (taints ++ t ∷ [])).0 in
      if any (λ u. c.match_taint u t) taints then found else (added, true)

  unfoldable pub get_node_by_node_ref : ObjectReference → Act Call Node
  get_node_by_node_ref node_ref =
      call (get_lister_node node_ref.name) (λ s. c.lister_node s node_ref.name)

  -- The test of `getNode` for one node.
  unfoldable pub is_node_of : Instance → String → Node → Bool
  is_node_of instance_ provider node =
      let provider_id = concat provider (concat ":///" (c.trim_left_slashes instance_.id)) in
      (if provider == "azure"
        then c.equal_fold node.provider_id provider_id
        else node.provider_id == provider_id)
      || any (λ a. any (λ b. a == b) instance_.addresses) node.addresses

  unfoldable pub get_node : Option Instance → String → Act Call (Option Node)
  get_node none provider = raise (new_error "getNode called with nil provider instance")
  get_node (some instance_) provider = do
    nodes ← call list_nodes c.nodes
    pure (first_node (is_node_of instance_ provider) nodes)

  -- The copy of the node with what the machine asks for, and whether it differs.
  unfoldable pub labelled_node : Node → Machine → Option (Node × Bool)
  labelled_node node machine = elim (add_missing machine.spec.labels node.labels) [
    | none ↦ none
    | some (labels, labels_updated) ↦ elim (add_missing machine.spec.annotations node.annotations) [
      | none ↦ none
      | some (annotations, annotations_updated) ↦
          let (taints, taints_updated) = add_missing_taints machine.spec.taints node.taints in
          some (
            record node { labels = labels; annotations = annotations; taints = taints },
            labels_updated || annotations_updated || taints_updated,
          )
    ]
  ]

  unfoldable pub ensure_node_labels_annotations_and_taints : Node → Machine → Act Call (Unit {0})
  ensure_node_labels_annotations_and_taints node machine =
      on_option (labelled_node node machine) panic (λ (changed, updated).
        if updated
        then (wrap "failed to update node after setting labels/annotations/taints"
              (call (update_node_object changed) (λ s. c.updated_node s changed))
            >>= λ _. tell (record_event "LabelsAnnotationsTaintsUpdated"))
        else pure tt)

  abbrev pub set_node_status : ObjectReference → String → Machine → Machine
  set_node_status ref version m = record m {
    status = record m.status { node_ref = some ref; versions = some version };
  }

  unfoldable pub update_machine_status : Machine → Node → Act Call (Unit {0})
  update_machine_status machine node = do
    ref ← wrap "failed to get node reference" (lift (c.reference_to node))
    if not (c.equal_references machine.status.node_ref ref) || (elim machine.status.versions [
      | none ↦ true
      | some version ↦ not (version == node.kubelet_version)
    ])
        then (wrap "failed to update machine after setting its status"
              (update_machine c machine (set_node_status ref node.kubelet_version))
            >>= λ _. pure tt)
        else pure tt

  unfoldable pub ensure_machine_has_node_ready_condition : Machine → Act Call Machine
  ensure_machine_has_node_ready_condition machine =
      if any is_ready_condition machine.status.conditions
      then pure machine
      else update_machine c machine (λ m. record m {
        status = record m.status {
          conditions = m.status.conditions ++ record { type = "Ready"; status = "True" } ∷ [];
        };
      })
