-- ===== src/Sync/Outside.antt =====
-- A component outside the cluster's product version: `syncComponent` of
-- pkg/manager/component/sync.go deletes what there is of it and makes nothing.
use cloudpods_operator.Prelude.{
  String, ◌≡◌, Bool, true, false, not, ◌||◌, Option, none, some, List, [], ◌∷◌, arith,
  if◌then◌else◌,
}
use cloudpods_operator.Exec.{
  Reply, good, bad, not_found, already_exists, conflict, member_not_found, other_error, Outcome, ok,
  err, panic, Exec, Void, annotate, wrap, skip,
}
use cloudpods_operator.Sync.Objects.{ServiceObject, IngressObject, DaemonSet, CronJob, Deployment}
use cloudpods_operator.Sync.Kube.{Kube, ask, look_up}
use cloudpods_operator.Sync.Kinds.{
  sync_services, sync_one_service, sync_ingress, settle_ingress, sync_daemon_set, settle_daemon_set,
  sync_cron_job, settle_cron_job,
}
use cloudpods_operator.Sync.Deploy.{
  Slot, sync_one_deployment, settle_deployment, sync_read_only, then_read_only, sync_deployment,
}
use cloudpods_operator.Sync.Component.{
  OnecloudCluster, Flags, Factory, is_valid_product_version, is_in_product_version, sync_config_map,
  sync_pvc, sync_deployments, sync_daemon_sets, sync_cron_jobs, sync_service, sync_ingresses,
  sync_phase, sync_component, when_some,
}
use cloudpods_operator.Sync.Keeps.{Keeps, bind-Keeps, if-Keeps}

skipped : (a b p d : Bool) → p ≡ false → (a || not b || not p || d) ≡ true
skipped a b p d e = ground arith

module _ (kube : Kube) (flags : Flags) (f : Factory kube) (I : kube.World → Type 0) where
  open kube use {World, P, services, ingresses, daemon_sets, cron_jobs, deployments, get_config}

  -- The reads and the deletions keep the property; of creating, updating and setting up, nothing is
  -- said.
  pub record OnlyDeletes : Type 0 where
    pub reads_config : (w : World) → I w → I (get_config w).1
    pub reads_service : (n : String) (w : World) → I w → I (services.get n w).1
    pub deletes_service : (n : String) (w : World) → I w → I (services.delete n w).1
    pub reads_ingress : (n : String) (w : World) → I w → I (ingresses.get n w).1
    pub deletes_ingress : (n : String) (w : World) → I w → I (ingresses.delete n w).1
    pub reads_daemon_set : (n : String) (w : World) → I w → I (daemon_sets.get n w).1
    pub deletes_daemon_set : (n : String) (w : World) → I w → I (daemon_sets.delete n w).1
    pub reads_cron_job : (n : String) (w : World) → I w → I (cron_jobs.get n w).1
    pub deletes_cron_job : (n : String) (w : World) → I w → I (cron_jobs.delete n w).1
    pub reads_deployment : (n : String) (w : World) → I w → I (deployments.get n w).1
    pub deletes_deployment : (n : String) (w : World) → I w → I (deployments.delete n w).1
    pub makes_deployment :
        (oc : OnecloudCluster) (cfg : kube.Config) (zone : String) (w : World)
        → I w
        → I (f.deployment oc cfg zone w).1
    pub makes_daemon_set :
        (oc : OnecloudCluster) (cfg : kube.Config) (zone : String) (w : World)
        → I w
        → I (f.daemon_set oc cfg zone w).1
    pub makes_cron_job :
        (oc : OnecloudCluster) (cfg : kube.Config) (zone : String) (w : World)
        → I w
        → I (f.cron_job oc cfg zone w).1

  module _ (keeps : OnlyDeletes) where
    sync_one_service-Keeps :
        (next : Exec World Void) (new : ServiceObject P) (o : Option (ServiceObject P))
        → Keeps I (sync_one_service kube next false new o)
    unfolding sync_one_service
    sync_one_service-Keeps next new none s i = i
    sync_one_service-Keeps next new (some old) s i = keeps.deletes_service old.name s i

    sync_services-Keeps : (news : List (ServiceObject P)) → Keeps I (sync_services kube false news)
    unfolding sync_services
    sync_services-Keeps [] s i = i
    sync_services-Keeps (new ∷ rest) s i =
        bind-Keeps I (look_up (services.get new.name)) _ (keeps.reads_service new.name)
          (sync_one_service-Keeps _ new) s i

    settle_ingress-Keeps :
        (update : IngressObject P → IngressObject P) (new : IngressObject P)
        (r : Reply (IngressObject P))
        → Keeps I (settle_ingress kube update false new r)
    unfolding settle_ingress
    settle_ingress-Keeps update new (good old) s i = keeps.deletes_ingress old.name s i
    settle_ingress-Keeps update new (bad not_found) s i = i
    settle_ingress-Keeps update new (bad already_exists) s i = i
    settle_ingress-Keeps update new (bad conflict) s i = i
    settle_ingress-Keeps update new (bad member_not_found) s i = i
    settle_ingress-Keeps update new (bad other_error) s i = i

    settle_daemon_set-Keeps :
        (new : DaemonSet P) (o : Option (DaemonSet P)) → Keeps I (settle_daemon_set kube true new o)
    unfolding settle_daemon_set
    settle_daemon_set-Keeps new none s i = i
    settle_daemon_set-Keeps new (some old) s i = keeps.deletes_daemon_set old.name s i

    settle_cron_job-Keeps :
        (new : CronJob P) (o : Option (CronJob P)) → Keeps I (settle_cron_job kube false new o)
    unfolding settle_cron_job
    settle_cron_job-Keeps new none s i = i
    settle_cron_job-Keeps new (some old) s i = keeps.deletes_cron_job old.name s i

    abbrev SlotKeeps : Slot World (Deployment P) → Type 0
    SlotKeeps t = I t.world

    settle_deployment-Keeps :
        (post : Exec World Void) (new : Deployment P) (o : Option (Deployment P))
        → Keeps SlotKeeps (settle_deployment kube post true new o)
    unfolding settle_deployment
    settle_deployment-Keeps post new none s i = i
    settle_deployment-Keeps post new (some old) s i = keeps.deletes_deployment old.name s.world i

    sync_one_deployment-Keeps :
        (post : Exec World Void) (new : Deployment P)
        → Keeps SlotKeeps (sync_one_deployment kube post true new)
    unfolding sync_one_deployment
    sync_one_deployment-Keeps post new =
        bind-Keeps SlotKeeps _ _ (λ s i. keeps.reads_deployment new.name s.world i)
          (settle_deployment-Keeps post new)

    sync_read_only-Keeps :
        (post : Exec World Void) (o : Option (Deployment P))
        → Keeps SlotKeeps (sync_read_only kube post true o)
    unfolding sync_read_only
    sync_read_only-Keeps post none s i = i
    sync_read_only-Keeps post (some ro) s i = sync_one_deployment-Keeps post ro s i

    then_read_only-Keeps :
        (post : Exec World Void) (read_only : Deployment P → Option (Deployment P))
        (r : Outcome Void)
        → Keeps SlotKeeps (then_read_only kube post true read_only r)
    unfolding then_read_only
    then_read_only-Keeps post read_only (ok a) s i =
        sync_read_only-Keeps post (read_only s.wanted) s i
    then_read_only-Keeps post read_only (err e) s i =
        sync_read_only-Keeps post (read_only s.wanted) s i
    then_read_only-Keeps post read_only panic s i = i

    sync_deployment-Keeps :
        (post : Exec World Void) (read_only : Deployment P → Option (Deployment P))
        (new : Deployment P)
        → Keeps I (sync_deployment kube post true read_only new)
    unfolding sync_deployment
    sync_deployment-Keeps post read_only new w i =
        then_read_only-Keeps post read_only _ _
          (sync_one_deployment-Keeps post new (record { wanted = new; world = w }) i)

    when_some-Keeps :
        {A : Type 0} (o : Option A) (body : A → Exec World Void)
        → ((a : A) → Keeps I (body a))
        → Keeps I (when_some kube flags f o body)
    when_some-Keeps none body h s i = i
    when_some-Keeps (some a) body h s i = h a s i

    module _ (oc : OnecloudCluster) (zone : String)
        (outside : is_in_product_version kube flags f oc ≡ false) where
      sync_config_map-Keeps : Keeps I (sync_config_map kube flags f oc zone)
      unfolding sync_config_map
      sync_config_map-Keeps s i = rw outside i

      sync_pvc-Keeps : Keeps I (sync_pvc kube flags f oc zone)
      unfolding sync_pvc
      sync_pvc-Keeps s i = rw outside i

      sync_deployments-Keeps : Keeps I (sync_deployments kube flags f oc zone)
      unfolding sync_deployments
      sync_deployments-Keeps =
          bind-Keeps I (annotate wrap (ask get_config)) _ keeps.reads_config λ cfg.
            bind-Keeps I (annotate wrap (ask (f.deployment oc cfg zone))) _
              (keeps.makes_deployment oc cfg zone)
              λ new.
                when_some-Keeps new _
                  (λ d. rw outside (sync_deployment-Keeps (f.post oc zone) (f.read_only oc zone) d))

      sync_daemon_sets-Keeps : Keeps I (sync_daemon_sets kube flags f oc zone)
      unfolding sync_daemon_sets sync_daemon_set
      sync_daemon_sets-Keeps = bind-Keeps I (ask get_config) _ keeps.reads_config λ cfg.
          bind-Keeps I (ask (f.daemon_set oc cfg zone)) _ (keeps.makes_daemon_set oc cfg zone)
            λ new. when_some-Keeps new _ (λ d. rw outside (
              bind-Keeps I (look_up (daemon_sets.get d.name)) _ (keeps.reads_daemon_set d.name)
                (settle_daemon_set-Keeps d)))

      sync_cron_jobs-Keeps : Keeps I (sync_cron_jobs kube flags f oc zone)
      unfolding sync_cron_jobs sync_cron_job
      sync_cron_jobs-Keeps = bind-Keeps I (ask get_config) _ keeps.reads_config λ cfg.
          bind-Keeps I (ask (f.cron_job oc cfg zone)) _ (keeps.makes_cron_job oc cfg zone) λ new.
            when_some-Keeps new _ (λ d. rw outside (
              bind-Keeps I (annotate wrap (look_up (cron_jobs.get d.name))) _
                (keeps.reads_cron_job d.name) (settle_cron_job-Keeps d)))

      sync_service-Keeps : Keeps I (sync_service kube flags f oc zone)
      unfolding sync_service
      sync_service-Keeps =
          bind-Keeps I (annotate wrap (ask get_config)) _ keeps.reads_config
            λ cfg. rw outside (sync_services-Keeps (f.service oc cfg zone))

      sync_ingresses-Keeps : Keeps I (sync_ingresses kube flags f oc zone)
      unfolding sync_ingresses sync_ingress
      sync_ingresses-Keeps = when_some-Keeps (f.ingress oc zone) _ (λ ing s i.
          rw outside
            (settle_ingress-Keeps (f.update_ingress oc) ing _ _ (keeps.reads_ingress ing.name s i)))

      sync_phase-Keeps : Keeps I (sync_phase kube flags f oc zone)
      unfolding sync_phase
      sync_phase-Keeps s i =
          rw (skipped flags.stop_services (f.has_phase oc zone) _ (f.is_disabled oc) outside) i

      -- A component that is not in the cluster's product version is only read and deleted by a
      -- sync: what all reads and deletions keep, the sync keeps, whatever creating, updating and
      -- setting up would do, and also where it fails.
      pub sync_component-outside : (w : World) → I w → I (sync_component kube flags f oc zone w).1
      unfolding sync_component
      sync_component-outside =
          if-Keeps I (not (is_valid_product_version oc)) _ _ (λ s i. i)
            (bind-Keeps I (annotate wrap (sync_config_map kube flags f oc zone)) _
              sync_config_map-Keeps
              λ _.
                bind-Keeps I (annotate wrap (sync_pvc kube flags f oc zone)) _ sync_pvc-Keeps λ _.
                  bind-Keeps I (annotate wrap (sync_deployments kube flags f oc zone)) _
                    sync_deployments-Keeps
                    λ _.
                      bind-Keeps I (annotate wrap (sync_daemon_sets kube flags f oc zone)) _
                        sync_daemon_sets-Keeps
                        λ _.
                          bind-Keeps I (annotate wrap (sync_cron_jobs kube flags f oc zone)) _
                            sync_cron_jobs-Keeps
                            λ _.
                              bind-Keeps I (annotate wrap (sync_service kube flags f oc zone)) _
                                sync_service-Keeps
                                λ _.
                                  bind-Keeps I
                                    (if flags.disable_sync_ingress
                                      then skip
                                      else annotate wrap (sync_ingresses kube flags f oc zone))
                                    _
                                    (if-Keeps I flags.disable_sync_ingress skip _ (λ s i. i)
                                      sync_ingresses-Keeps)
                                    λ _. sync_phase-Keeps)
