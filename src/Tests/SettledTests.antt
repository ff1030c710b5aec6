-- ===== src/Tests/SettledTests.antt =====
-- Repeated syncs of pkg/manager/component against API servers that hold what they are sent.
use cloudpods_operator.Prelude.{◌≡◌, refl, true, false, Option, none, some, str_eq}
use cloudpods_operator.Exec.{Reply, good, bad, not_found, ok, done, Void, skip}
use cloudpods_operator.Sync.Objects.{
  ServiceObject, DaemonSet, Deployment, find, selector_matches_labels,
}
use cloudpods_operator.Sync.Kube.{Kube, Store}
use cloudpods_operator.Sync.Annotate.{
  set_service_last_applied, set_daemon_set_last_applied, set_deployment_last_applied, service_equal,
  daemon_set_equal, deployment_equal,
}
use cloudpods_operator.Sync.Kinds.{
  sync_one_service, create_service, write_service, update_daemon_set, write_daemon_set,
}
use cloudpods_operator.Sync.Deploy.{Slot, create_deployment, write_deployment, update_deployment}
use cloudpods_operator.Sync.Held.{Holds}
use cloudpods_operator.Sync.Converge.{DaemonSetLeftAlone, DaemonSetKept, update_daemon_set-Settled}
use cloudpods_operator.Sync.Redeploy.{
  DeploymentLeftAlone, DeploymentKept, update_deployment-Settled,
}
use cloudpods_operator.Sync.Services.{
  ServiceKept, ServiceLeftAlone, ServiceWrittenAgain, sync_one_service-created,
  sync_one_service-again,
}
use cloudpods_operator.Tests.SyncFixtures.{
  daemon_sets_json, deployments_json, services_json, daemon_sets_json-RoundTrips,
  deployments_json-RoundTrips, services_json-RoundTrips, old_service, new_service, host, region,
}

-- What a server holds of three kinds of objects, one of each.
record Server : Type 0 where
  service : Option (ServiceObject Void)
  daemon_set : Option (DaemonSet Void)
  deployment : Option (Deployment Void)

abbrev reply_of : {A : Type 0} → Option A → Reply A
reply_of none = bad not_found
reply_of (some a) = good a

abbrev store_in : {A : Type 0} → (Server → Option A) → (Option A → Server → Server) → Store Server A
store_in read write = record {
  get = λ name w. (reply_of (read w), w);
  create = λ new w. (good tt, write (some new) w);
  update = λ new w. (good tt, write (some new) w);
  delete = λ name w. (good tt, write none w);
}

abbrev no_store : {A : Type 0} → Store Server A
no_store = record {
  get = λ name w. (bad not_found, w);
  create = λ new w. (good tt, w);
  update = λ new w. (good tt, w);
  delete = λ name w. (good tt, w);
}

abbrev holding_kube : Kube
holding_kube = record {
  World = Server;
  P = Void;
  Config = Void;
  services = store_in (λ w. w.service) (λ o w. record w { service = o });
  ingresses = no_store;
  daemon_sets = store_in (λ w. w.daemon_set) (λ o w. record w { daemon_set = o });
  cron_jobs = no_store;
  deployments = store_in (λ w. w.deployment) (λ o w. record w { deployment = o });
  config_maps = no_store;
  claims = no_store;
  service_codec = services_json;
  daemon_set_codec = daemon_sets_json;
  cron_job_codec = record { encode = λ a. none; decode = λ text. none };
  deployment_codec = deployments_json;
  plain = record { encode = λ a. some "{}"; decode = λ text. some tt };
  same = λ a b. true;
  same_service = λ a b. str_eq a.cluster_ip b.cluster_ip;
  same_template = λ a b. true;
  get_config = λ w. (good tt, w);
}

-- The server as an old sync left it, before objects were annotated.
abbrev server : Server
server = record { service = some old_service; daemon_set = some host; deployment = some region }

daemon_sets-Holds : Holds holding_kube.daemon_sets (λ w. w.daemon_set) (DaemonSetKept holding_kube)
daemon_sets-Holds = record {
  created = λ o w e. (o, refl, (refl, refl));
  updated = λ o w e. (o, refl, (refl, refl));
}

host-updated : (update_daemon_set holding_kube host host server).0 ≡ done
unfolding update_daemon_set daemon_set_equal write_daemon_set set_daemon_set_last_applied
    selector_matches_labels find
host-updated = refl

update_daemon_set-Settled_example :
    DaemonSetLeftAlone holding_kube
      (λ w. w.daemon_set)
      host
      (update_daemon_set holding_kube host host server).1
unfolding selector_matches_labels
update_daemon_set-Settled_example =
    update_daemon_set-Settled holding_kube (λ w. w.daemon_set) daemon_sets-Holds
      daemon_sets_json-RoundTrips host refl refl host server refl refl host-updated

deployments-Holds : Holds holding_kube.deployments (λ w. w.deployment) (DeploymentKept holding_kube)
deployments-Holds = record {
  created = λ o w e. (o, refl, (refl, refl));
  updated = λ o w e. (o, refl, (refl, refl));
}

abbrev slot : Slot Server (Deployment Void)
slot = record { wanted = region; world = server }

update_deployment-Settled_example :
    ((create_deployment holding_kube region slot).0 ≡ done
      → DeploymentLeftAlone holding_kube
          (λ w. w.deployment)
          region
          (create_deployment holding_kube region slot).1.world)
    × ((old : Deployment Void)
        → server.deployment ≡ some old
        → (update_deployment holding_kube region old slot).0 ≡ done
        → DeploymentLeftAlone holding_kube
            (λ w. w.deployment)
            region
            (update_deployment holding_kube region old slot).1.world)
unfolding selector_matches_labels
update_deployment-Settled_example =
    update_deployment-Settled holding_kube (λ w. w.deployment) deployments-Holds
      deployments_json-RoundTrips region refl refl slot refl

services-Holds : Holds holding_kube.services (λ w. w.service) (ServiceKept holding_kube)
services-Holds = record { created = λ o w e. (o, refl, refl); updated = λ o w e. (o, refl, refl) }

service-created : (sync_one_service holding_kube skip true new_service none server).0 ≡ done
unfolding sync_one_service create_service set_service_last_applied
service-created = refl

sync_one_service-created_example :
    ServiceLeftAlone holding_kube
      (λ w. w.service)
      new_service
      (sync_one_service holding_kube skip true new_service none server).1
sync_one_service-created_example =
    sync_one_service-created holding_kube (λ w. w.service) services-Holds services_json-RoundTrips
      new_service skip server refl service-created

service-updated :
    (sync_one_service holding_kube skip true new_service (some old_service) server).0 ≡ done
unfolding sync_one_service service_equal write_service set_service_last_applied find
service-updated = refl

service-differs : service_equal holding_kube new_service old_service ≡ ok false
unfolding service_equal find
service-differs = refl

sync_one_service-again_example :
    ServiceWrittenAgain holding_kube
      (λ w. w.service)
      new_service
      (sync_one_service holding_kube skip true new_service (some old_service) server).1
sync_one_service-again_example =
    sync_one_service-again holding_kube (λ w. w.service) services-Holds services_json-RoundTrips
      new_service skip old_service server refl service-differs service-updated

-- Both hypotheses of the deployment's theorem hold at the server.
region-created :
    ((create_deployment holding_kube region slot).0 ≡ done)
    × ((update_deployment holding_kube region region slot).0 ≡ done)
unfolding create_deployment update_deployment deployment_equal write_deployment
    set_deployment_last_applied selector_matches_labels find
region-created = (refl, refl)
