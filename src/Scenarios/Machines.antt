-- ===== src/Scenarios/Machines.antt =====
-- The life of the machines of the small cluster.
use machine_controller.Base.{refl, inl, [], ◌∷◌, arith}
use machine_controller.Outcome.{ok}
use machine_controller.Kube.{Machine}
use machine_controller.Kube.Cluster.{Cluster}
use machine_controller.Outcome.Emits.{Emits}
use machine_controller.Controller.Update.{has_instance_finalizer}
use machine_controller.Controller.Delete.{delete_machine, delete_cloud_provider_instance}
use machine_controller.Controller.Sync.{sync}
use machine_controller.Controller.Lifecycle.{
  keeps_nodes, creates_nothing, removes_nothing, delete_machine-keeps_nodes, sync-removes_nothing,
  sync-creates_nothing,
}
use machine_controller.Controller.Writes.{writes}
use machine_controller.Controller.Finalizers.{delete_cloud_provider_instance-unconfirmed}
use machine_controller.Scenarios.World.{world, world-IsLawful, worker, leaving, fresh}

delete_machine-keeps_nodes_example : Emits keeps_nodes (delete_machine world leaving)
delete_machine-keeps_nodes_example = delete_machine-keeps_nodes world-IsLawful leaving refl

sync-removes_nothing_example : Emits removes_nothing (sync world worker)
sync-removes_nothing_example = sync-removes_nothing world-IsLawful worker refl

sync-creates_nothing_example : Emits creates_nothing (sync world leaving)
sync-creates_nothing_example = sync-creates_nothing world-IsLawful leaving (inl (λ e. cc))

delete_cloud_provider_instance-unconfirmed_example :
    Emits (writes has_instance_finalizer) (delete_cloud_provider_instance world leaving)
delete_cloud_provider_instance-unconfirmed_example =
    delete_cloud_provider_instance-unconfirmed world-IsLawful leaving (λ s e. ground (arith, e))
      (λ s x e. ground (arith, e))

-- A machine that the controller has not seen yet, with a finalizer of another controller.
abbrev newcomer : Machine
newcomer = record fresh { finalizers = "foregroundDeletion" ∷ [] }

abbrev entered : Cluster
entered = record world { machine = λ _ _ _. ok newcomer }
