-- ===== src/Controller/Finalizers.antt =====
-- The finalizers in machine.go: what is written before an instance may be forgotten.
use machine_controller.Base.{String, ◌≡◌, refl, ap, ◌∙◌, ◌≢◌, Bool, true, not, ◌&&◌, List}
use machine_controller.Outcome.{Error, is_terminal_error, ok, lift, call}
use machine_controller.Outcome.Emits.{
  Emits, Emits-pure, Emits-raise, Emits-lift, Emits-call, Emits-if, Emits-tell, Emits-on_option,
  Emits-attempt_eq, Emits-attempt,
}
use machine_controller.Kube.{Machine}
use machine_controller.Kube.Sets.{has}
use machine_controller.Kube.Calls.{Call, provider_cleanup}
use machine_controller.Kube.Cluster.{Cluster, IsLawful}
use machine_controller.Controller.Update.{
  finalizer_delete_instance, finalizer_delete_node, has_instance_finalizer, set_error,
  update_machine, update_machine_error, update_machine_error_if_terminal_error,
}
use machine_controller.Controller.Instances.{enqueue_machine_after}
use machine_controller.Controller.Delete.{delete_cloud_provider_instance}
use machine_controller.Controller.Writes.{writes, update_machine-writes}

-- Three tests on machines.
abbrev pub lacks_instance_finalizer : Machine → Bool
lacks_instance_finalizer m = not (has_instance_finalizer m)

abbrev pub has_all_finalizers : String → Machine → Bool
has_all_finalizers k m =
    has finalizer_delete_instance m.finalizers
    && (has finalizer_delete_node m.finalizers && has k m.finalizers)

module _ {c : Cluster} (l : IsLawful c) (m : Machine) where
  set_error-writes :
      (reason message : String) (e : Error) (text : String)
      → ((s : List Call) (x : Machine)
          → c.machine s m.namespace m.name ≡ ok x
          → has_instance_finalizer x ≡ true)
      → Emits
          (writes has_instance_finalizer)
          (update_machine_error_if_terminal_error c m reason message e text)
  unfolding update_machine_error_if_terminal_error update_machine_error
  set_error-writes reason message e text h =
      let update = update_machine-writes l has_instance_finalizer m (set_error reason message) h in
      Emits-on_option (is_terminal_error e) _ _ (λ _. Emits-raise _)
        (λ _ _.
          Emits-attempt (update_machine c m _) _ _ update (λ _. Emits-raise _) (λ _. Emits-raise _))

  -- While the cloud provider has not answered that the instance is completely gone, be it that it
  -- still goes or that it failed, no machine is written without the finalizer that stands for the
  -- instance (where the lister shows the machine with that finalizer).
  pub delete_cloud_provider_instance-unconfirmed :
      ((s : List Call) → c.cleaned_up s m ≢ ok true)
      → ((s : List Call) (x : Machine)
          → c.machine s m.namespace m.name ≡ ok x
          → has_instance_finalizer x ≡ true)
      → Emits (writes has_instance_finalizer) (delete_cloud_provider_instance c m)
  unfolding delete_cloud_provider_instance call enqueue_machine_after
  delete_cloud_provider_instance-unconfirmed going h =
      Emits-if (has_instance_finalizer m) _ _
        (λ _.
          Emits-attempt_eq (call (provider_cleanup m) (λ s. c.cleaned_up s m)) _ _
            (Emits-call _ _ refl)
            (λ s gone answer.
              Emits-if gone _ _ (λ is_gone. absurd (going s (answer ∙ ap ok is_gone)))
                (λ _.
                  Emits-attempt (lift _) _ _ (Emits-lift _) (λ _. Emits-tell _ refl)
                    (λ _. Emits-tell _ refl)))
            (λ s e _. set_error-writes _ _ e _ h))
        (λ _. Emits-pure tt)
