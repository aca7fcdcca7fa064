-- ===== src/Scenarios/Droplets.antt =====
-- DigitalOcean's and Packet's provider for the small cluster.
use machine_controller.Base.{◌⊎◌, keep, ◌≡◌, refl, true, false, not, none, some, [], ◌∷◌}
use machine_controller.Outcome.{not_found, timed_out, new_error, ok, err}
use machine_controller.Kube.Cluster.{polls}
use machine_controller.Kube.Sets.{has}
use machine_controller.Providers.Contract.{IsProvider}
use machine_controller.Providers.DigitalOcean.{Cloud, Droplet}
use machine_controller.Providers.DigitalOcean.Instances.{create}
use machine_controller.Providers.DigitalOcean.Laws.{
  digital_ocean, IsPolling, digital_ocean-IsProvider,
}
use machine_controller.Providers.DigitalOcean.Keys.{
  IsKeyless, IsKeyDeleted, create-droplet-IsKeyDeleted,
}
use machine_controller.Providers.Packet
use machine_controller.Providers.Packet.{items_not_in_list, generate_tag, migrated_tags}
use machine_controller.Providers.Packet.Laws.{packet, packet-IsProvider}
use machine_controller.Providers.Packet.Tags.{items_not_in_list-keep}
use machine_controller.Scenarios.World.{worker}
use machine_controller.Scenarios.Settings.{in_place, decoder, temporary_key}

abbrev droplet : Droplet
droplet = record { id = 7; name = "worker"; tags = "1" ∷ []; status = "active"; v4 = []; v6 = [] }

abbrev cloud : Cloud
cloud = record {
  decoder = decoder (record {
    token = in_place "t";
    region = in_place "fra1";
    size = in_place "s-1";
    backups = in_place false;
    ipv6 = in_place false;
    private_networking = in_place true;
    monitoring = in_place true;
    tags = [];
  });
  regions = λ _. ok ("fra1" ∷ []);
  sizes = λ _. ok (record { slug = "s-1"; available = true; regions = "fra1" ∷ [] } ∷ []);
  droplets = λ _. record { code = some 200; result = ok (droplet ∷ []) };
  key = λ _ _. record { code = some 404; result = err not_found };
  created_key = λ _ key. record { code = some 201; result = ok key.fingerprint_md5 };
  deleted_key = λ _ _. ok tt;
  created_droplet = λ _ _. record { code = some 202; result = ok droplet };
  droplet = λ _ _. record { code = some 200; result = ok droplet };
  deleted_droplet = λ _ _. record { code = none; result = err timed_out };
  created_tag = λ _ _. record { code = some 201; result = ok tt };
  tagged = λ _ _ _. ok tt;
  untagged = λ _ _ _. ok tt;
  new_key = λ _. ok temporary_key;
  poll = polls 3;
}

cloud-IsPolling : IsPolling cloud
cloud-IsPolling = record { poll_polls = λ m s. (3, refl) }

digital_ocean-IsProvider_example : IsProvider (digital_ocean cloud)
digital_ocean-IsProvider_example = digital_ocean-IsProvider cloud-IsPolling

create-droplet-IsKeyDeleted_example :
    IsKeyless cloud [] (create cloud worker "data" []).1
    ⊎ IsKeyDeleted cloud [] (create cloud worker "data" []).1
create-droplet-IsKeyDeleted_example =
    create-droplet-IsKeyDeleted cloud cloud-IsPolling worker "data" []

abbrev packet_cloud : Packet.Cloud
packet_cloud = record {
  decoder = decoder (record {
    api_key = in_place "t";
    project_id = in_place "p";
    billing_cycle = in_place "";
    instance_type = in_place "t1";
    facilities = in_place "ams1" ∷ [];
    tags = [];
  });
  facilities = λ _. ok ("ams1" ∷ []);
  plans = λ _. ok ("t1" ∷ []);
  devices = λ _ _. record { code = some 200; result = ok [] };
  created_device = λ _ _. record { code = some 403; result = err (new_error "forbidden") };
  updated_device = λ _ _. record { code = some 200; result = ok tt };
  deleted_device = λ _ _. record { code = none; result = err timed_out };
  encode = λ _. ok "{}";
  encode_raw = λ _. ok "{}";
}

packet-IsProvider_example : IsProvider (packet packet_cloud)
packet-IsProvider_example = packet-IsProvider packet_cloud

items_not_in_list-keep_example :
    items_not_in_list ("ams1" ∷ "ewr1" ∷ []) ("ewr1" ∷ "nrt1" ∷ [])
    ≡ keep (λ item. not (has item ("ams1" ∷ "ewr1" ∷ []))) ("ewr1" ∷ "nrt1" ∷ [])
items_not_in_list-keep_example =
    items_not_in_list-keep ("ams1" ∷ "ewr1" ∷ []) ("ewr1" ∷ "nrt1" ∷ [])
