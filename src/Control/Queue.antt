-- ===== src/Control/Queue.antt =====
-- The work queue of pkg/controller/cluster/onecloud_cluster_controller.go: which cluster an event
-- of a deployment puts on it, and what a worker does with a key.
use Prim.Native.String.{◌++◌ as join}
use cloudpods_operator.Prelude.{
  String, Bool, true, false, not, Option, none, some, str_eq, if◌then◌else◌,
}
use cloudpods_operator.Exec.{
  Reply, good, bad, not_found, other_error, api_error, in_context, Outcome, ok, err, panic, Exec,
  Void, done, ◌>>=◌, annotate,
}
use cloudpods_operator.Sync.Kube.{ask}

-- The reference to the controlling owner.
pub record ControllerRef : Type 0 where
  pub kind : String
  pub name : String
  pub uid : String

-- The metadata of a deployment that the handlers read.
pub record DeploymentMeta : Type 0 where
  pub namespace : String
  pub deleting : Bool
  pub resource_version : String
  pub controller : Option ControllerRef

pub record ClusterMeta : Type 0 where
  pub namespace : String
  pub name : String
  pub uid : String

-- What an informer hands to a handler of deletions.
pub data Deleted : Type 0 where
  object : DeploymentMeta → Deleted
  tombstone : Option DeploymentMeta → Deleted

-- cache.MetaNamespaceKeyFunc, for a namespaced object
abbrev pub key_of : ClusterMeta → String
key_of oc = join oc.namespace (join "/" oc.name)

-- `lister` is the cached look-up of a cluster by namespace and name.
module _ (lister : String → String → Option ClusterMeta) where
  abbrev pub same_uid : ControllerRef → ClusterMeta → Option ClusterMeta
  same_uid ref oc = if str_eq oc.uid ref.uid then some oc else none

  abbrev pub listed : ControllerRef → Option ClusterMeta → Option ClusterMeta
  listed ref none = none
  listed ref (some oc) = same_uid ref oc

  abbrev pub resolve : String → Option ControllerRef → Option ClusterMeta
  resolve namespace none = none
  resolve namespace (some ref) =
      if not (str_eq ref.kind "OnecloudCluster")
      then none
      else listed ref (lister namespace ref.name)

  unfoldable pub resolve_onecloud_cluster_from_deployment :
      String → DeploymentMeta → Option ClusterMeta
  resolve_onecloud_cluster_from_deployment namespace deploy = resolve namespace deploy.controller

  abbrev pub enqueued : Option ClusterMeta → Option String
  enqueued none = none
  enqueued (some oc) = some (key_of oc)

  -- The value is the key that goes on the queue.
  unfoldable pub delete_deployment : Deleted → Outcome (Option String)
  unfolding resolve_onecloud_cluster_from_deployment
  delete_deployment (object deploy) =
      ok (enqueued (resolve_onecloud_cluster_from_deployment deploy.namespace deploy))
  -- The namespace is read through the nil pointer before the tombstone is looked at.
  delete_deployment (tombstone deploy) = panic

  unfoldable pub add_deployment : DeploymentMeta → Outcome (Option String)
  unfolding delete_deployment
  add_deployment deploy =
      if deploy.deleting
      then delete_deployment (object deploy)
      else ok (enqueued (resolve_onecloud_cluster_from_deployment deploy.namespace deploy))

  unfoldable pub update_deployment : DeploymentMeta → DeploymentMeta → Outcome (Option String)
  unfolding resolve_onecloud_cluster_from_deployment
  update_deployment old cur =
      if str_eq cur.resource_version old.resource_version
      then ok none
      else ok (enqueued (resolve_onecloud_cluster_from_deployment cur.namespace cur))

-- The queue's operations, and what a sync of a key calls.
pub record Worker (W C : Type 0) : Type 0 where
  -- `none` where the queue is shut down
  pub take : W → Option String × W
  pub finish : String → W → W
  pub add_rate_limited : String → W → W
  pub forget : String → W → W
  pub split_key : String → Option (String × String)
  pub get : String → String → W → Reply C × W
  pub with_defaults : C → C
  pub update : C → W → Reply C × W
  pub update_cluster : C → Exec W Void

module _ {W C : Type 0} (worker : Worker W C) where
  open worker use {
    take, finish, add_rate_limited, forget, split_key, get, with_defaults, update, update_cluster,
  }

  unfoldable pub sync_found : Reply C → Exec W Void
  sync_found (bad not_found) s = (done, s)
  sync_found (bad e) s = (err (in_context (api_error e)), s)
  sync_found (good oc) s =
      (annotate in_context (ask (update (with_defaults oc))) >>= update_cluster) s

  unfoldable pub sync_named : Option (String × String) → Exec W Void
  sync_named none s = (err (api_error other_error), s)
  sync_named (some (namespace, name)) s =
      sync_found (get namespace name s).0 (get namespace name s).1

  unfoldable pub sync_key : String → Exec W Void
  sync_key key = sync_named (split_key key)

  -- A key whose sync fails comes back; `Done` is deferred, so it runs also where the sync panics.
  unfoldable pub after_sync : String → Outcome Void → Exec W Bool
  after_sync key (ok a) s = (ok true, finish key (forget key s))
  after_sync key (err e) s = (ok true, finish key (add_rate_limited key s))
  after_sync key panic s = (panic, finish key s)

  unfoldable pub process_key : Option String → Exec W Bool
  process_key none s = (ok false, s)
  process_key (some key) s = after_sync key (sync_key key s).0 (sync_key key s).1

  unfoldable pub process_next_work_item : Exec W Bool
  process_next_work_item s = process_key (take s).0 (take s).1
