-- ===== src/Scenarios/Resources.antt =====
-- Azure's provider for the small cluster.
use mathlib.Core.Path.{subst}
use machine_controller.Base.{◌≡◌, refl, sym, ap, true, none, some, List, [], ◌∷◌, arith}
use machine_controller.Outcome.{new_error, ok, err}
use machine_controller.Outcome.Emits.{Emits}
use machine_controller.Outcome.Yields.{ok-inj}
use machine_controller.Kube.Sets.{has}
use machine_controller.Providers.Azure.{
  machine_uid_tag, tag_of, has_uid, Resource, Kind, Request, Pages, done, page, Cloud,
}
use machine_controller.Providers.Azure.Machines.{create, cleanup}
use machine_controller.Providers.Azure.Finalizers.{guarded, IsUpdater}
use machine_controller.Providers.Azure.Creation.{create-guarded}
use machine_controller.Providers.Azure.Deletion.{
  same_kind, kept, occurs, ReadsAs, pages_of, IsListed,
}
use machine_controller.Providers.Azure.Releasing.{cleanup-kept}
use machine_controller.Providers.Azure.Tagging.{tags_with, create-tags_with}
use machine_controller.Scenarios.World.{worker, leaving}
use machine_controller.Scenarios.Settings.{in_place, decoder, temporary_key}

abbrev interface : Resource
interface = record { name = some "worker-netiface"; tags = some ((machine_uid_tag, some "2") ∷ []) }

abbrev azure_cloud : Cloud
azure_cloud = record {
  decoder = decoder (record {
    subscription_id = in_place "subscription";
    tenant_id = in_place "tenant";
    client_id = in_place "client";
    client_secret = in_place "secret";
    location = in_place "westeurope";
    resource_group = in_place "group";
    vm_size = in_place "Standard_A1";
    vnet_name = in_place "net";
    subnet_name = in_place "subnet";
    route_table_name = in_place "routes";
    availability_set = in_place "";
    security_group_name = in_place "";
    assign_public_ip = in_place true;
    tags = [];
  });
  authorizer = λ _ _. ok tt;
  nics = λ _. ok (page (interface ∷ []) done);
  public_ips = λ _. ok done;
  disks = λ _. ok done;
  vms = λ _. ok done;
  subnet = λ _. ok "subnet";
  virtual_network = λ _. ok tt;
  nic = λ _ _. ok (record { id = some "worker-netiface"; ip_configurations = none });
  public_ip = λ _ _. ok (record { id = some "ip"; ip_configuration = none });
  vm = λ _ _. err (new_error "quota");
  statuses = λ _ _. ok none;
  started = λ _ _ _. ok tt;
  completed = λ _ _ _. ok tt;
  creation_result = λ _ _ _. ok tt;
  updated = λ _ m f. ok (f m);
  new_key = λ _. ok temporary_key;
  base64 = λ s. s;
  cloud_config_to_string = λ _. ok "{}";
  sorted = λ xs. xs;
}

updater : IsUpdater azure_cloud
updater = record {
  updated_uid = λ s m m' f e. ap (λ x. x.uid) (sym (ok-inj e));
  updated_finalizers =
      λ s m m' f name e h. subst (λ x. has name x.finalizers ≡ true) (sym (ok-inj e)) h;
}

one_interface :
    (xs : List Resource)
    → ReadsAs (page (interface ∷ []) done) xs
    → occurs "2" "worker-netiface" xs ≡ true
unfolding has_uid tag_of
one_interface xs (ys, r, e) = rw e refl

listed_interface :
    (k : Kind) (s : List Request) (pages : Pages Resource) (xs : List Resource)
    → same_kind k Kind.nic ≡ true
    → pages_of azure_cloud k s ≡ ok pages
    → ReadsAs pages xs
    → occurs "2" "worker-netiface" xs ≡ true
listed_interface Kind.nic s pages xs alike e r =
    one_interface xs (subst (λ p. ReadsAs p xs) (sym (ok-inj e)) r)
listed_interface Kind.public_ip s pages xs alike e r = absurd (ground (arith, alike))
listed_interface Kind.disk s pages xs alike e r = absurd (ground (arith, alike))
listed_interface Kind.vm s pages xs alike e r = absurd (ground (arith, alike))

interface-IsListed : IsListed azure_cloud Kind.nic "2" "worker-netiface"
interface-IsListed = record {
  listed = λ k s pages xs alike a e r. listed_interface k s pages xs alike e r;
  listed_vm = λ s pages xs alike a e r. absurd (ground (arith, alike));
  listed_errors = λ s x e. absurd (ground (arith, e));
}

cleanup-kept_example : kept Kind.nic "worker-netiface" (cleanup azure_cloud leaving []).1 ≡ true
cleanup-kept_example = cleanup-kept updater leaving interface-IsListed [] refl

create-guarded_example : guarded worker.finalizers (create azure_cloud worker "data" []).1 ≡ true
create-guarded_example = create-guarded azure_cloud updater worker "data" [] refl

create-tags_with_example : Emits (tags_with worker.uid) (create azure_cloud worker "data")
create-tags_with_example = create-tags_with azure_cloud updater worker "data"
