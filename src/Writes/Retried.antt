-- ===== src/Writes/Retried.antt =====
-- What the controls of pkg/controller send to the API server, attempt after attempt.
use cloudpods_operator.Prelude.{ℕ, zero, suc, String, ◌≡◌, refl, ◌⊎◌, inl, inr, Option, none, some}
use cloudpods_operator.Exec.{Reply, good, bad, ApiError, Outcome, ok, err, panic, Exec}
use cloudpods_operator.Sync.Objects.{
  Deployment, DaemonSet, CronJob, IngressObject, ServiceObject, ConfigMap,
}
use cloudpods_operator.Writes.{
  Client, Attempt, ClusterObject, reload, settle_write, try_update, reload_inverted,
  settle_write_inverted, try_update_inverted, try_update_deployment, try_update_daemon_set,
  try_update_cron_job, try_update_ingress, try_update_cluster, try_update_service,
  try_update_config_map, reload_config_map, settle_config_map_write, send_config_map,
}

-- The attempts that a retry makes: another one after an error, up to `n` in all. Each is recorded.
abbrev again_after : {S A : Type 0} → Outcome A → Exec S A → Exec S A
again_after (ok a) rest s = (ok a, s)
again_after (err e) rest s = rest s
again_after panic rest s = (panic, s)

abbrev pub attempts : {S A : Type 0} → ℕ → Exec S A → Exec S A
attempts zero m s = m s
attempts (suc n) m s = let rest = attempts n m in again_after (m s).0 rest (m s).1

-- A property of the object to be sent that an attempt keeps holds after all of them, and a step
-- that does not panic makes none that do.
module _ {S A : Type 0} (I : S → Type 0) where
  again_after-keeps :
      (r : Outcome A) (rest : Exec S A) (t : S)
      → I t
      → ((u : S) → I u → I (rest u).1)
      → I (again_after r rest t).1
  again_after-keeps (ok a) rest t i k = i
  again_after-keeps (err e) rest t i k = k t i
  again_after-keeps panic rest t i k = i

  attempts-keeps :
      (n : ℕ) (m : Exec S A) → ((s : S) → I s → I (m s).1) → (s : S) → I s → I (attempts n m s).1
  attempts-keeps zero m k s i = k s i
  attempts-keeps (suc n) m k s i =
      again_after-keeps (m s).0 (attempts n m) (m s).1 (k s i) (attempts-keeps n m k)

module _ {W Obj : Type 0} (client : Client W Obj) (I : Obj → Type 0) (restore : Obj → Obj)
    (name : String) (restores : (live : Obj) → I (restore live)) where
  open client use {write, read}

  reload-keeps :
      (e : ApiError) (r : Reply Obj) (s : Attempt W Obj)
      → I s.sent
      → I (reload client restore e r s).1.sent
  unfolding reload
  reload-keeps e (good live) s i = restores live
  reload-keeps e (bad x) s i = i

  settle_write-keeps :
      (r : Reply Obj) (s : Attempt W Obj)
      → I s.sent
      → I (settle_write client restore name r s).1.sent
  unfolding settle_write
  settle_write-keeps (good written) s i = i
  settle_write-keeps (bad e) s i = reload-keeps e (read name s.world).0 _ i

  try_update-keeps : (s : Attempt W Obj) → I s.sent → I (try_update client restore name s).1.sent
  unfolding try_update
  try_update-keeps s i = settle_write-keeps (write s.sent s.world).0 _ i

module _ {W Obj : Type 0} (client : Client W Obj) (I : Obj → Type 0) (name : String) where
  open client use {write, read}

  reload_inverted-keeps :
      (e : ApiError) (r : Reply Obj) (s : Attempt W Obj)
      → I s.sent
      → I (reload_inverted client e r s).1.sent
  unfolding reload_inverted
  reload_inverted-keeps e (good live) s i = i
  reload_inverted-keeps e (bad x) s i = i

  settle_write_inverted-keeps :
      (r : Reply Obj) (s : Attempt W Obj)
      → I s.sent
      → I (settle_write_inverted client name r s).1.sent
  unfolding settle_write_inverted
  settle_write_inverted-keeps (good written) s i = i
  settle_write_inverted-keeps (bad e) s i = reload_inverted-keeps e (read name s.world).0 _ i

  try_update_inverted-keeps :
      (s : Attempt W Obj) → I s.sent → I (try_update_inverted client name s).1.sent
  unfolding try_update_inverted
  try_update_inverted-keeps s i = settle_write_inverted-keeps (write s.sent s.world).0 _ i

-- Either what the first attempt sent, or nil.
abbrev pub SameOrNil : {Obj : Type 0} → Obj → Option Obj → Type 0
SameOrNil o sent = (sent ≡ some o) ⊎ (sent ≡ none)

module _ {W P : Type 0} where
  -- However often the update of a deployment, a daemon set, a cron job or an ingress is tried, the
  -- object that the next attempt would send has the wanted specification.
  pub try_update-keeps_spec :
      (n : ℕ) (w : W) (deploy : Deployment P) (ds : DaemonSet P) (job : CronJob P)
      (ing : IngressObject P) (deploys : Client W (Deployment P)) (sets : Client W (DaemonSet P))
      (jobs : Client W (CronJob P)) (ings : Client W (IngressObject P))
      → ((attempts n
            (try_update_deployment deploys deploy)
            (record { sent = deploy; world = w })).1.sent.spec
          ≡ deploy.spec)
        × ((attempts n
              (try_update_daemon_set sets ds)
              (record { sent = ds; world = w })).1.sent.spec
            ≡ ds.spec)
        × ((attempts n
              (try_update_cron_job jobs job)
              (record { sent = job; world = w })).1.sent.spec
            ≡ job.spec)
        × ((attempts n (try_update_ingress ings ing) (record { sent = ing; world = w })).1.sent.spec
            ≡ ing.spec)
  unfolding try_update_deployment try_update_daemon_set try_update_cron_job try_update_ingress
  try_update-keeps_spec n w deploy ds job ing deploys sets jobs ings = (
    attempts-keeps (λ s. s.sent.spec ≡ deploy.spec) n _
        (try_update-keeps deploys (λ d. d.spec ≡ deploy.spec)
          (λ live. record live { spec = deploy.spec }) deploy.name (λ live. refl))
        _ refl,
    attempts-keeps (λ s. s.sent.spec ≡ ds.spec) n _
        (try_update-keeps sets (λ d. d.spec ≡ ds.spec) (λ live. record live { spec = ds.spec })
          ds.name (λ live. refl))
        _ refl,
    attempts-keeps (λ s. s.sent.spec ≡ job.spec) n _
        (try_update-keeps jobs (λ d. d.spec ≡ job.spec) (λ live. record live { spec = job.spec })
          job.name (λ live. refl))
        _ refl,
    attempts-keeps (λ s. s.sent.spec ≡ ing.spec) n _
        (try_update-keeps ings (λ d. d.spec ≡ ing.spec) (λ live. record live { spec = ing.spec })
          ing.name (λ live. refl))
        _ refl,
  )

  -- However often the update of the cluster is tried, what the next attempt would send has the
  -- wanted status.
  pub try_update_cluster-keeps_status :
      (n : ℕ) (w : W) (oc : ClusterObject P) (client : Client W (ClusterObject P))
      → (attempts n (try_update_cluster client oc) (record { sent = oc; world = w })).1.sent.status
        ≡ oc.status
  unfolding try_update_cluster
  try_update_cluster-keeps_status n w oc client =
      attempts-keeps (λ s. s.sent.status ≡ oc.status) n _
        (try_update-keeps client (λ c. c.status ≡ oc.status)
          (λ live. record live { status = oc.status }) oc.name (λ live. refl))
        _ refl

  module _ (client : Client W (ConfigMap P)) (cfg : ConfigMap P) where
    reload_config_map-keeps :
        (e : ApiError) (r : Reply (ConfigMap P)) (s : Attempt W (Option (ConfigMap P)))
        → SameOrNil cfg s.sent
        → SameOrNil cfg (reload_config_map e r s).1.sent
    unfolding reload_config_map
    reload_config_map-keeps e (good live) s i = i
    reload_config_map-keeps e (bad x) s i = inr refl

    settle_config_map_write-keeps :
        (r : Reply (ConfigMap P)) (s : Attempt W (Option (ConfigMap P)))
        → SameOrNil cfg s.sent
        → SameOrNil cfg (settle_config_map_write client cfg.name r s).1.sent
    unfolding settle_config_map_write
    settle_config_map_write-keeps (good written) s i = i
    settle_config_map_write-keeps (bad e) s i =
        reload_config_map-keeps e (client.read cfg.name s.world).0 _ i

    send_config_map-keeps :
        (o : Option (ConfigMap P)) (s : Attempt W (Option (ConfigMap P)))
        → SameOrNil cfg s.sent
        → SameOrNil cfg (send_config_map client cfg.name o s).1.sent
    unfolding send_config_map
    send_config_map-keeps none s i = i
    send_config_map-keeps (some sent) s i =
        settle_config_map_write-keeps (client.write sent s.world).0 _ i

    try_update_config_map-keeps :
        (s : Attempt W (Option (ConfigMap P)))
        → SameOrNil cfg s.sent
        → SameOrNil cfg (try_update_config_map client cfg s).1.sent
    unfolding try_update_config_map
    try_update_config_map-keeps s i = send_config_map-keeps s.sent s i

  -- However often the update of a service is tried, the next attempt would send the same object as
  -- the first one; the next attempt to update a config map would send the same object or nil. No
  -- attempt sends a version that was read after a conflict.
  pub try_update_inverted-stale :
      (n : ℕ) (w : W) (svc : ServiceObject P) (cfg : ConfigMap P)
      (services : Client W (ServiceObject P)) (config_maps : Client W (ConfigMap P))
      → ((attempts n (try_update_service services svc) (record { sent = svc; world = w })).1.sent
          ≡ svc)
        × SameOrNil cfg
            (attempts n
              (try_update_config_map config_maps cfg)
              (record { sent = some cfg; world = w })).1.sent
  unfolding try_update_service
  try_update_inverted-stale n w svc cfg services config_maps = (
    attempts-keeps (λ s. s.sent ≡ svc) n _
        (try_update_inverted-keeps services (λ o. o ≡ svc) svc.name) _ refl,
    attempts-keeps (λ s. SameOrNil cfg s.sent) n _ (try_update_config_map-keeps config_maps cfg) _
        (inl refl),
  )
