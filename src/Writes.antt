-- ===== src/Writes.antt =====
-- Updates of the Kubernetes objects: the function that each control in pkg/controller hands to
-- `RetryOnConflict`. The retry itself is client-go's.
pub mod Retried
use cloudpods_operator.Prelude.{Option, none, some, ℕ, String, List, [], ◌∷◌}
use cloudpods_operator.Exec.{
  Reply, good, bad, ApiError, api_error, Outcome, ok, err, panic, Exec, Void, done,
}
use cloudpods_operator.Sync.Objects.{
  Deployment, DaemonSet, CronJob, IngressObject, ServiceObject, ConfigMap,
}

-- The API server's update, and the lister's copy (the live object, for an ingress).
pub record Client (W Obj : Type 0) : Type 0 where
  pub write : Obj → W → Reply Obj × W
  pub read : String → W → Reply Obj × W

-- The captured variable, which the function reassigns, and the world.
pub record Attempt (W Obj : Type 0) : Type 0 where
  pub sent : Obj
  pub world : W

-- What a cluster's update sends: the specification and the status, both only copied.
pub record ClusterObject (P : Type 0) : Type 0 where
  pub name : String
  pub spec : P
  pub status : P

module _ {W Obj : Type 0} (client : Client W Obj) where
  open client use {write, read}

  -- After an error the object is read again and gets back what is wanted of it; where it cannot be
  -- read, that is logged, and the same object is sent again.
  unfoldable pub reload : (Obj → Obj) → ApiError → Reply Obj → Exec (Attempt W Obj) Obj
  reload restore e (good live) s = (err (api_error e), record s { sent = restore live })
  reload restore e (bad x) s = (err (api_error e), s)

  unfoldable pub settle_write : (Obj → Obj) → String → Reply Obj → Exec (Attempt W Obj) Obj
  settle_write restore name (good written) s = (ok written, s)
  settle_write restore name (bad e) s =
      reload restore e (read name s.world).0 (record s { world = (read name s.world).1 })

  unfoldable pub try_update : (Obj → Obj) → String → Exec (Attempt W Obj) Obj
  try_update restore name s =
      settle_write restore name (write s.sent s.world).0
        (record s { world = (write s.sent s.world).1 })

  -- A service's update, with the test the other way round: an object that was read is thrown away,
  -- and one that was not is a nil pointer, into which the specification is written.
  unfoldable pub reload_inverted : ApiError → Reply Obj → Exec (Attempt W Obj) Obj
  reload_inverted e (good live) s = (err (api_error e), s)
  reload_inverted e (bad x) s = (panic, s)

  unfoldable pub settle_write_inverted : String → Reply Obj → Exec (Attempt W Obj) Obj
  settle_write_inverted name (good written) s = (ok written, s)
  settle_write_inverted name (bad e) s =
      reload_inverted e (read name s.world).0 (record s { world = (read name s.world).1 })

  unfoldable pub try_update_inverted : String → Exec (Attempt W Obj) Obj
  try_update_inverted name s =
      settle_write_inverted name (write s.sent s.world).0
        (record s { world = (write s.sent s.world).1 })

module _ {W P : Type 0} where
  -- `UpdateDeployment`, `UpdateDaemonSet`, `UpdateCronJob`, `UpdateIngress`: the specification is
  -- put into the object that was read.
  unfoldable pub try_update_deployment :
      Client W (Deployment P) → Deployment P → Exec (Attempt W (Deployment P)) (Deployment P)
  try_update_deployment client deploy =
      try_update client (λ live. record live { spec = deploy.spec }) deploy.name

  unfoldable pub try_update_daemon_set :
      Client W (DaemonSet P) → DaemonSet P → Exec (Attempt W (DaemonSet P)) (DaemonSet P)
  try_update_daemon_set client ds =
      try_update client (λ live. record live { spec = ds.spec }) ds.name

  unfoldable pub try_update_cron_job :
      Client W (CronJob P) → CronJob P → Exec (Attempt W (CronJob P)) (CronJob P)
  try_update_cron_job client job =
      try_update client (λ live. record live { spec = job.spec }) job.name

  unfoldable pub try_update_ingress :
      Client W (IngressObject P)
      → IngressObject P
      → Exec (Attempt W (IngressObject P)) (IngressObject P)
  try_update_ingress client ing =
      try_update client (λ live. record live { spec = ing.spec }) ing.name

  -- `UpdateCluster` puts back the status only.
  unfoldable pub try_update_cluster :
      Client W (ClusterObject P)
      → ClusterObject P
      → Exec (Attempt W (ClusterObject P)) (ClusterObject P)
  try_update_cluster client oc =
      try_update client (λ live. record live { status = oc.status }) oc.name

  unfoldable pub try_update_service :
      Client W (ServiceObject P)
      → ServiceObject P
      → Exec (Attempt W (ServiceObject P)) (ServiceObject P)
  try_update_service client svc = try_update_inverted client svc.name

  -- A config map that was not read is not dereferenced: the variable is nil from then on.
  unfoldable pub reload_config_map :
      ApiError → Reply (ConfigMap P) → Exec (Attempt W (Option (ConfigMap P))) (ConfigMap P)
  reload_config_map e (good live) s = (err (api_error e), s)
  reload_config_map e (bad x) s = (err (api_error e), record s { sent = none })

  unfoldable pub settle_config_map_write :
      Client W (ConfigMap P)
      → String
      → Reply (ConfigMap P)
      → Exec (Attempt W (Option (ConfigMap P))) (ConfigMap P)
  unfolding reload_config_map
  settle_config_map_write client name (good written) s = (ok written, s)
  settle_config_map_write client name (bad e) s =
      reload_config_map e (client.read name s.world).0
        (record s { world = (client.read name s.world).1 })

  -- client-go reads the name of what it is to send, and panics on nil.
  unfoldable pub send_config_map :
      Client W (ConfigMap P)
      → String
      → Option (ConfigMap P)
      → Exec (Attempt W (Option (ConfigMap P))) (ConfigMap P)
  unfolding settle_config_map_write
  send_config_map client name none s = (panic, s)
  send_config_map client name (some cfg) s =
      settle_config_map_write client name (client.write cfg s.world).0
        (record s { world = (client.write cfg s.world).1 })

  unfoldable pub try_update_config_map :
      Client W (ConfigMap P) → ConfigMap P → Exec (Attempt W (Option (ConfigMap P))) (ConfigMap P)
  unfolding send_config_map
  try_update_config_map client cfg s = send_config_map client cfg.name s.sent s
