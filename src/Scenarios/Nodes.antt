-- ===== src/Scenarios/Nodes.antt =====
-- The nodes of the small cluster, and the machines that they belong to.
use machine_controller.Base.{◌≡◌, refl, true, some, [], ◌∷◌}
use machine_controller.Outcome.{ok}
use machine_controller.Outcome.Emits.{Emits}
use machine_controller.Kube.{Node, ObjectMeta}
use machine_controller.Controller.Nodes.{
  labelled_node, add_missing, add_missing_taints, ensure_node_labels_annotations_and_taints,
}
use machine_controller.Controller.Delete.{delete_node_for_machine}
use machine_controller.Controller.Labels.{ensure_node_labels-converges}
use machine_controller.Controller.Matching.{deletes_owned, delete_node_for_machine-owned}
use machine_controller.Scenarios.World.{world, world-IsLawful, worker, worker_node, other_node}

-- The node of the worker as the controller leaves it.
abbrev labelled : Node
labelled = record worker_node {
  labels = some (("machine-controller/owned-by", "1") ∷ ("role", "worker") ∷ []);
  taints = worker.spec.taints;
}

labels_worker : labelled_node world worker_node worker ≡ some (labelled, true)
unfolding labelled_node add_missing add_missing_taints
labels_worker = refl

ensure_node_labels-converges_example :
    ensure_node_labels_annotations_and_taints world labelled worker [] ≡ (ok tt, [])
ensure_node_labels-converges_example =
    ensure_node_labels-converges world-IsLawful worker_node labelled worker true [] labels_worker

delete_node_for_machine-owned_example :
    Emits
      (deletes_owned worker (other_node ∷ worker_node ∷ []))
      (delete_node_for_machine world worker)
delete_node_for_machine-owned_example =
    delete_node_for_machine-owned world-IsLawful worker (other_node ∷ worker_node ∷ []) (λ s. refl)

abbrev node_meta : ObjectMeta
node_meta = record { name = "worker"; labels = worker_node.labels }
