-- ===== src/Etcd/Manager/Run.antt =====
-- The start of a run, its rounds, and what `Sync` decides, in pkg/manager/component/etcd.go.
use Prim.Native.String.{◌++◌ as join}
use cloudpods_operator.Prelude.{
  ℕ, zero, suc, String, Bool, true, false, Option, none, some, str_eq, if◌then◌else◌,
}
use cloudpods_operator.Exec.{Err, Outcome, ok, err, panic, Exec, Void, ◌>>=◌, ◌>>◌, ignore, pure}
use cloudpods_operator.Etcd.Types.{Cluster, EtcdStatus, running}
use cloudpods_operator.Etcd.Api.{Api, State, call, get, modify_status}
use cloudpods_operator.Etcd.Manager.Spec.{client_port, adjust_spec}
use cloudpods_operator.Etcd.Manager.Pods.{update_etcd_status}
use cloudpods_operator.Etcd.Manager.Loop.{Next, again, stopped, restarted, round}
use cloudpods_operator.Etcd.Manager.Services.{setup_services}

-- `NewClusterComponentName` of pkg/controller/utils.go
abbrev pub new_cluster_component_name : String → String → String
new_cluster_component_name cluster component =
    if str_eq cluster "docker-compose-cluster" then component else join cluster (join "-" component)

abbrev pub serving : Cluster → EtcdStatus → EtcdStatus
serving oc st = record st {
  service_name = new_cluster_component_name oc.name "etcd-client";
  client_port = client_port;
  client_node_port = oc.etcd.client_node_port;
  phase = running;
}

module _ (api : Api) where
  open api use {World, sync_component, count_master_nodes, update_cluster}

  -- `run` before its loop: errors are logged.
  unfoldable pub start_run : Exec (State World) Void
  start_run = do
    ignore (setup_services api)
    m ← get
    modify_status (serving m.oc)
    ignore (update_etcd_status api)

  unfoldable pub then_rounds :
      (Option Err → Exec (State World) Next) → Next → Exec (State World) Next
  then_rounds rest (again e) = rest e
  then_rounds rest stopped = pure stopped
  then_rounds rest restarted = pure restarted

  -- At most `n` rounds of the loop; `keep_failed` is the flag EtcdKeepFailedPods.
  unfoldable pub run_for : ℕ → Bool → Option Err → Exec (State World) Next
  run_for zero keep_failed rerr = pure (again rerr)
  run_for (suc n) keep_failed rerr =
      let rest = run_for n keep_failed in round api keep_failed rerr >>= then_rounds rest

  -- An error is logged, and ends `Sync` without one.
  unfoldable pub or_nothing :
      {A : Type 0}
      → Outcome A
      → (A → Exec (State World) (Option Cluster))
      → Exec (State World) (Option Cluster)
  or_nothing (ok a) f s = f a s
  or_nothing (err e) f s = (ok none, s)
  or_nothing panic f s = (panic, s)

  -- A new sync starts only where none is under way.
  unfoldable pub start_unless_syncing : Cluster → Exec (State World) (Option Cluster)
  start_unless_syncing oc = do m ← get; pure (if m.syncing then none else some oc)

  unfoldable pub write_adjusted : Cluster × Bool → Exec (State World) (Option Cluster)
  write_adjusted (oc, true) s =
      or_nothing (call (update_cluster oc) s).0 start_unless_syncing (call (update_cluster oc) s).1
  write_adjusted (oc, false) s = start_unless_syncing oc s

  -- The rest of `Sync` for a cluster with an etcd.
  unfoldable pub adjusted_sync : Cluster → Exec (State World) (Option Cluster)
  adjusted_sync oc s =
      or_nothing (call count_master_nodes s).0 (λ masters. write_adjusted (adjust_spec masters oc))
        (call count_master_nodes s).1

  -- `Sync`: the value is the cluster that a new `sync` starts with, if one does.
  unfoldable pub sync_etcd : Cluster → Exec (State World) (Option Cluster)
  sync_etcd oc = do
    call (sync_component oc)
    if oc.etcd.disable then pure none else adjusted_sync oc
