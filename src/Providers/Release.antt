-- ===== src/Providers/Release.antt =====
-- pkg/controller/machine/machine.go with a provider that keeps the contract: when an instance may be
-- forgotten.
use machine_controller.Base.{◌≡◌, sym, ap, ◌∙◌, ◌≢◌, Bool, true, List, arith}
use machine_controller.Outcome.{instance_not_found, Outcome, ok, err}
use machine_controller.Outcome.Emits.{Emits}
use machine_controller.Kube.{Machine}
use machine_controller.Kube.Calls.{Call}
use machine_controller.Kube.Cluster.{Cluster, IsLawful}
use machine_controller.Controller.Update.{has_instance_finalizer}
use machine_controller.Controller.Delete.{delete_cloud_provider_instance}
use machine_controller.Controller.Writes.{writes}
use machine_controller.Controller.Finalizers.{delete_cloud_provider_instance-unconfirmed}
use machine_controller.Providers.Contract.{
  Provider, IsProvider, CleansUp, nothing_left, get_failed, get_panicked, asked_to_remove,
}

module _ {E I : Type 0} {p : Provider E I} where
  CleansUp-done :
      {m : Machine} {s : List E} {o : Outcome Bool × List E}
      → CleansUp p m s o
      → o.0 ≡ ok true
      → (p.get m s).0 ≡ err instance_not_found
  CleansUp-done (nothing_left e) h = ap (λ x. x.0) e
  CleansUp-done (get_failed e k) h = absurd (ground (arith, h))
  CleansUp-done (get_panicked e) h = absurd (ground (arith, h))
  CleansUp-done (asked_to_remove e x unfinished) h = absurd (unfinished h)

  -- A cleanup is reported as done only where the provider finds no instance of the machine.
  pub cleanup-done :
      IsProvider p
      → (m : Machine) (s : List E) → (p.cleanup m s).0 ≡ ok true
      → (p.get m s).0 ≡ err instance_not_found
  cleanup-done k m s h = CleansUp-done (k.cleanup_refines m s) h

-- The controller asks the provider `p`; `view` is what the provider has been asked so far.
pub record IsServedBy {E I : Type 0} (c : Cluster) (p : Provider E I) (view : List Call → List E)
    : Type 0 where
  pub cleaned_up_cleanup :
      (s : List Call) (m : Machine) → c.cleaned_up s m ≡ (p.cleanup m (view s)).0

module _ {E I : Type 0} {c : Cluster} {p : Provider E I} {view : List Call → List E} where
  -- As long as the provider, which keeps the contract, does not answer that there is no instance of
  -- the machine, no machine is written without the finalizer that stands for the instance (where the
  -- lister shows the machine with that finalizer).
  pub delete_cloud_provider_instance-released :
      IsLawful c
      → IsProvider p
      → IsServedBy c p view
      → (m : Machine) → ((s : List Call) → (p.get m (view s)).0 ≢ err instance_not_found)
      → ((s : List Call) (x : Machine)
          → c.machine s m.namespace m.name ≡ ok x
          → has_instance_finalizer x ≡ true)
      → Emits (writes has_instance_finalizer) (delete_cloud_provider_instance c m)
  delete_cloud_provider_instance-released l k served m present h =
      delete_cloud_provider_instance-unconfirmed l m
        (λ s done.
          present s (cleanup-done k m (view s) (sym (served.cleaned_up_cleanup s m) ∙ done)))
        h
