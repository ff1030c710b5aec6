-- ===== src/Sync/Kinds.antt =====
-- Syncing one kind of object: `syncService`, `syncIngress`, `syncDaemonSet`, `syncCronJob`,
-- `syncPVC` of pkg/manager/component/component.go, once the factory has given the wanted objects.
use cloudpods_operator.Prelude.{
  Bool, true, false, not, Option, none, some, List, [], ◌∷◌, if◌then◌else◌,
}
use cloudpods_operator.Exec.{
  Reply, good, bad, not_found, wrap, Outcome, panic, Exec, Void, ◌>>=◌, ◌>>◌, annotate, skip,
}
use cloudpods_operator.Sync.Objects.{
  ServiceObject, IngressObject, DaemonSet, CronJob, Claim, selector_matches_labels,
}
use cloudpods_operator.Sync.Kube.{Kube, ask, look_up, encoded}
use cloudpods_operator.Sync.Annotate.{
  set_service_last_applied, set_ingress_last_applied, set_daemon_set_last_applied,
  set_cron_job_last_applied, service_equal, ingress_equal, daemon_set_equal, cron_job_equal,
}

-- A step that does not touch the world.
abbrev pub lift : {W A : Type 0} → Outcome A → Exec W A
lift r s = (r, s)

module _ (kube : Kube) where
  open kube use {World, P, services, ingresses, daemon_sets, cron_jobs, claims}

  -- `svc := *oldSvc` with the new specification and the old cluster IP.
  abbrev pub renewed_service : ServiceObject P → ServiceObject P → ServiceObject P
  renewed_service new old = record old {
    spec = record (new.spec) { cluster_ip = old.spec.cluster_ip };
  }

  unfoldable pub write_service : ServiceObject P → ServiceObject P → Exec World Void
  write_service new old = do
    svc ← lift (encoded (set_service_last_applied kube (renewed_service new old)))
    ask (services.update svc)

  unfoldable pub create_service : ServiceObject P → Exec World Void
  create_service new = do
    svc ← lift (encoded (set_service_last_applied kube new))
    ask (services.create svc)

  -- `next` is the rest of the loop, which only a service that is up to date reaches.
  unfoldable pub sync_one_service :
      Exec World Void → Bool → ServiceObject P → Option (ServiceObject P) → Exec World Void
  sync_one_service next true new none = create_service new
  sync_one_service next false new none = skip
  sync_one_service next false new (some old) = ask (services.delete old.name)
  sync_one_service next true new (some old) = do
    equal ← lift (service_equal kube new old)
    if equal then next else write_service new old

  unfoldable pub sync_services : Bool → List (ServiceObject P) → Exec World Void
  sync_services in_pv [] = skip
  sync_services in_pv (new ∷ rest) =
      let next = sync_services in_pv rest in
      look_up (services.get new.name) >>= sync_one_service next in_pv new

  -- An error of the lister other than "not found" falls through, and the nil object then panics.
  unfoldable pub renew_ingress :
      (IngressObject P → IngressObject P) → IngressObject P → IngressObject P → Exec World Void
  renew_ingress update new old = do
    equal ← lift (ingress_equal kube new old)
    if equal then skip else (do
      ing ← lift (encoded (set_ingress_last_applied kube (update old)))
      ask (ingresses.update ing))

  unfoldable pub create_ingress : IngressObject P → Exec World Void
  create_ingress new = do
    ing ← lift (encoded (set_ingress_last_applied kube new))
    ask (ingresses.create ing)

  unfoldable pub settle_ingress :
      (IngressObject P → IngressObject P)
      → Bool
      → IngressObject P
      → Reply (IngressObject P)
      → Exec World Void
  settle_ingress update true new (bad not_found) = create_ingress new
  settle_ingress update false new (bad not_found) = skip
  settle_ingress update in_pv new (bad e) = lift panic
  settle_ingress update false new (good old) = ask (ingresses.delete old.name)
  settle_ingress update true new (good old) = renew_ingress update new old

  unfoldable pub sync_ingress :
      (IngressObject P → IngressObject P) → Bool → IngressObject P → Exec World Void
  sync_ingress update in_pv new s =
      settle_ingress update in_pv new (ingresses.get new.name s).0 (ingresses.get new.name s).1

  abbrev pub renewed_daemon_set : DaemonSet P → DaemonSet P → DaemonSet P
  renewed_daemon_set new old = record old {
    spec = record (old.spec) {
      template = new.spec.template;
      update_strategy = new.spec.update_strategy;
    };
  }

  unfoldable pub write_daemon_set : DaemonSet P → DaemonSet P → Exec World Void
  write_daemon_set new old = do
    ds ← lift (encoded (set_daemon_set_last_applied kube (renewed_daemon_set new old)))
    ask (daemon_sets.update ds)

  unfoldable pub update_daemon_set : DaemonSet P → DaemonSet P → Exec World Void
  update_daemon_set new old =
      if not (selector_matches_labels old.spec.selector new.spec.template.labels)
      then ask (daemon_sets.delete old.name) >> ask (daemon_sets.create new)
      else if daemon_set_equal kube new old
      then skip
      else write_daemon_set new old

  unfoldable pub settle_daemon_set : Bool → DaemonSet P → Option (DaemonSet P) → Exec World Void
  settle_daemon_set unwanted new none = if unwanted then skip else ask (daemon_sets.create new)
  settle_daemon_set unwanted new (some old) =
      if unwanted then ask (daemon_sets.delete old.name) else update_daemon_set new old

  unfoldable pub sync_daemon_set : Bool → DaemonSet P → Exec World Void
  sync_daemon_set unwanted new =
      look_up (daemon_sets.get new.name) >>= settle_daemon_set unwanted new

  unfoldable pub write_cron_job : CronJob P → CronJob P → Exec World Void
  write_cron_job new old = do
    job ← lift (encoded (set_cron_job_last_applied kube (record old { spec = new.spec })))
    annotate wrap (ask (cron_jobs.update job))

  unfoldable pub update_cron_job : CronJob P → CronJob P → Exec World Void
  update_cron_job new old = if cron_job_equal kube new old then skip else write_cron_job new old

  unfoldable pub settle_cron_job : Bool → CronJob P → Option (CronJob P) → Exec World Void
  settle_cron_job in_pv new none = if in_pv then ask (cron_jobs.create new) else skip
  settle_cron_job in_pv new (some old) =
      if in_pv then update_cron_job new old else ask (cron_jobs.delete old.name)

  unfoldable pub sync_cron_job : Bool → CronJob P → Exec World Void
  sync_cron_job in_pv new =
      annotate wrap (look_up (cron_jobs.get new.name)) >>= settle_cron_job in_pv new

  -- A claim is created once and never updated.
  unfoldable pub settle_claim : Claim P → Option (Claim P) → Exec World Void
  settle_claim new none = ask (claims.create new)
  settle_claim new (some old) = skip

  unfoldable pub sync_claim : Claim P → Exec World Void
  sync_claim new = look_up (claims.get new.name) >>= settle_claim new
