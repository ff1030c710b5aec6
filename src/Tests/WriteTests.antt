-- ===== src/Tests/WriteTests.antt =====
-- Updates of pkg/controller that meet a conflict.
use cloudpods_operator.Prelude.{ℕ, ◌≡◌, none, some, []}
use cloudpods_operator.Exec.{good, bad, conflict}
use cloudpods_operator.Sync.Objects.{
  Template, Deployment, DaemonSet, CronJob, IngressObject, ServiceObject, ConfigMap,
}
use cloudpods_operator.Writes.{
  Client, ClusterObject, try_update_deployment, try_update_daemon_set, try_update_cron_job,
  try_update_ingress, try_update_cluster, try_update_service, try_update_config_map,
}
use cloudpods_operator.Writes.Retried.{
  attempts, try_update-keeps_spec, try_update_cluster-keeps_status, try_update_inverted-stale,
  SameOrNil,
}

-- Every write meets a conflict; the world counts them.
abbrev conflicting : {Obj : Type 0} → Obj → Client ℕ Obj
conflicting live = record { write = λ o w. (bad conflict, w); read = λ name w. (good live, w) }

abbrev pod : ℕ → Template ℕ
pod n = record { labels = []; annotations = none; spec = n }

abbrev deploy : ℕ → Deployment ℕ
deploy n = record {
  name = "region";
  annotations = [];
  spec = record { replicas = some n; selector = none; template = pod n; strategy = 0; rest = 0 };
}

abbrev ds : ℕ → DaemonSet ℕ
ds n = record {
  name = "host";
  annotations = [];
  spec = record { selector = none; template = pod n; update_strategy = 0; rest = 0 };
}

abbrev job : ℕ → CronJob ℕ
job n = record {
  name = "check";
  annotations = [];
  spec = record { schedule = "@hourly"; job_annotations = []; template = pod n; rest = 0 };
}

abbrev ing : ℕ → IngressObject ℕ
ing n = record { name = "web"; annotations = []; spec = n }

abbrev svc : ℕ → ServiceObject ℕ
svc n = record {
  name = "region";
  annotations = [];
  spec = record { cluster_ip = "10.0.0.7"; rest = n };
}

abbrev cfg : ℕ → ConfigMap ℕ
cfg n = record { name = "region"; annotations = []; contents = n }

abbrev oc : ℕ → ClusterObject ℕ
oc n = record { name = "one"; spec = n; status = n }

try_update-keeps_spec_example :
    ((attempts 3
        (try_update_deployment (conflicting (deploy 2)) (deploy 1))
        (record { sent = deploy 1; world = 0 })).1.sent.spec
      ≡ (deploy 1).spec)
    × ((attempts 3
          (try_update_daemon_set (conflicting (ds 2)) (ds 1))
          (record { sent = ds 1; world = 0 })).1.sent.spec
        ≡ (ds 1).spec)
    × ((attempts 3
          (try_update_cron_job (conflicting (job 2)) (job 1))
          (record { sent = job 1; world = 0 })).1.sent.spec
        ≡ (job 1).spec)
    × ((attempts 3
          (try_update_ingress (conflicting (ing 2)) (ing 1))
          (record { sent = ing 1; world = 0 })).1.sent.spec
        ≡ (ing 1).spec)
try_update-keeps_spec_example =
    try_update-keeps_spec 3 0 (deploy 1) (ds 1) (job 1) (ing 1) (conflicting (deploy 2))
      (conflicting (ds 2)) (conflicting (job 2)) (conflicting (ing 2))

try_update_cluster-keeps_status_example :
    (attempts 4
      (try_update_cluster (conflicting (oc 2)) (oc 1))
      (record { sent = oc 1; world = 0 })).1.sent.status
    ≡ 1
try_update_cluster-keeps_status_example =
    try_update_cluster-keeps_status 4 0 (oc 1) (conflicting (oc 2))

try_update_inverted-stale_example :
    ((attempts 3
        (try_update_service (conflicting (svc 2)) (svc 1))
        (record { sent = svc 1; world = 0 })).1.sent
      ≡ svc 1)
    × SameOrNil
        (cfg 1)
        (attempts 3
          (try_update_config_map (conflicting (cfg 2)) (cfg 1))
          (record { sent = some (cfg 1); world = 0 })).1.sent
try_update_inverted-stale_example =
    try_update_inverted-stale 3 0 (svc 1) (cfg 1) (conflicting (svc 2)) (conflicting (cfg 2))
