-- ===== src/Control/Resolve.antt =====
-- Which cluster an event of a deployment concerns, in
-- pkg/controller/cluster/onecloud_cluster_controller.go.
use cloudpods_operator.Prelude.{
  String, ◌≡◌, refl, sym, ap, ◌∙◌, ◌↔◌, false, Bool-cases, inl, inr, Option, none, some, str_eq,
  eq_iff, eq_refl,
}
use cloudpods_operator.Exec.{Outcome, ok}
use cloudpods_operator.Sync.Converge.{some-injective}
use cloudpods_operator.Control.Queue.{
  resolve, listed, enqueued, ControllerRef, DeploymentMeta, ClusterMeta, key_of,
  resolve_onecloud_cluster_from_deployment, update_deployment,
}

ok-injective : {A : Type 0} {a b : A} → ◌≡◌ {A = Outcome A} (ok a) (ok b) → a ≡ b
ok-injective e = cc

module _ (lister : String → String → Option ClusterMeta) where
  -- The deployment is controlled by the cluster: by its kind and name, as listed, and its UID.
  pub record Owns (oc : ClusterMeta) (deploy : DeploymentMeta) : Type 0 where
    pub ref : ControllerRef
    pub controlled : deploy.controller ≡ some ref
    pub right_kind : ref.kind ≡ "OnecloudCluster"
    pub is_listed : lister deploy.namespace ref.name ≡ some oc
    pub right_uid : oc.uid ≡ ref.uid

  listed-parts :
      (ref : ControllerRef) (o : Option ClusterMeta) (oc : ClusterMeta)
      → listed lister ref o ≡ some oc
      → (o ≡ some oc) × (oc.uid ≡ ref.uid)
  listed-parts ref none oc h = absurd (cc)
  listed-parts ref (some x) oc h = elim (Bool-cases (str_eq x.uid ref.uid)) [
    | inl e ↦
        let q : ◌≡◌ {A = Option ClusterMeta} (some x) (some oc) = rw e at h in
        (q, sym (ap uid_of (some-injective q)) ∙ (eq_iff x.uid ref.uid).0 e)
    | inr e ↦ absurd (none-some (rw e at h))
  ]
    where
      uid_of : ClusterMeta → String
      uid_of c = c.uid

      none-some : ◌≡◌ {A = Option ClusterMeta} none (some oc) → ⊥
      none-some q = cc

  resolve-parts :
      (namespace : String) (c : Option ControllerRef) (oc : ClusterMeta)
      → resolve lister namespace c ≡ some oc
      → (ref : ControllerRef) × (c ≡ some ref)
        × (ref.kind ≡ "OnecloudCluster")
        × (lister namespace ref.name ≡ some oc)
        × (oc.uid ≡ ref.uid)
  resolve-parts namespace none oc h = absurd (cc)
  resolve-parts namespace (some ref) oc h = elim (Bool-cases (str_eq ref.kind "OnecloudCluster")) [
    | inl e ↦
        let (found, same) = listed-parts ref (lister namespace ref.name) oc (rw e at h) in
        (ref, refl, (eq_iff ref.kind "OnecloudCluster").0 e, found, same)
    | inr e ↦ absurd (none-some (rw e at h))
  ]
    where
      none-some : ◌≡◌ {A = Option ClusterMeta} none (some oc) → ⊥
      none-some q = cc

  resolve-Owns :
      (deploy : DeploymentMeta) (oc : ClusterMeta)
      → resolve_onecloud_cluster_from_deployment lister deploy.namespace deploy ≡ some oc
      → Owns oc deploy
  unfolding resolve_onecloud_cluster_from_deployment
  resolve-Owns deploy oc h =
      let (ref, c, k, l, u) = resolve-parts deploy.namespace deploy.controller oc h in
      record { ref = ref; controlled = c; right_kind = k; is_listed = l; right_uid = u }

  Owns-resolve :
      (deploy : DeploymentMeta) (oc : ClusterMeta)
      → Owns oc deploy
      → resolve_onecloud_cluster_from_deployment lister deploy.namespace deploy ≡ some oc
  unfolding resolve_onecloud_cluster_from_deployment
  Owns-resolve deploy oc o =
      rw (o.controlled, o.right_kind, o.is_listed, o.right_uid, eq_refl o.ref.uid)

  enqueued-key :
      (o : Option ClusterMeta) (key : String)
      → enqueued lister o ≡ some key
      → (oc : ClusterMeta) × (o ≡ some oc) × (key_of oc ≡ key)
  enqueued-key none key h = absurd (cc)
  enqueued-key (some oc) key h = (oc, refl, some-injective h)

  -- The cluster that owns a deployment is the one that the resolution gives.
  pub resolve_iff :
      (deploy : DeploymentMeta) (oc : ClusterMeta)
      → (resolve_onecloud_cluster_from_deployment lister deploy.namespace deploy ≡ some oc)
        ↔ Owns oc deploy
  resolve_iff deploy oc = (resolve-Owns deploy oc, Owns-resolve deploy oc)

  keyed :
      (deploy : DeploymentMeta) (key : String)
      → enqueued lister (resolve_onecloud_cluster_from_deployment lister deploy.namespace deploy)
        ≡ some key
      → (oc : ClusterMeta) × (key_of oc ≡ key) × Owns oc deploy
  keyed deploy key h =
      let (oc, e, k) =
        enqueued-key (resolve_onecloud_cluster_from_deployment lister deploy.namespace deploy) key
          h in
      (oc, k, resolve-Owns deploy oc e)

  -- An update of a deployment that puts a key on the queue is a real one, and the key is that of
  -- the cluster that controls the deployment: of the right kind, listed under the owner's name,
  -- with the owner's UID.
  pub update_deployment-Owns :
      (old cur : DeploymentMeta) (key : String)
      → update_deployment lister old cur ≡ ok (some key)
      → (str_eq cur.resource_version old.resource_version ≡ false)
        × ((oc : ClusterMeta) × (key_of oc ≡ key) × Owns oc cur)
  unfolding update_deployment
  update_deployment-Owns old cur key h =
      elim (Bool-cases (str_eq cur.resource_version old.resource_version)) [
        | inl e ↦ absurd (none-some (ok-injective (rw e at h)))
        | inr e ↦ (e, keyed cur key (ok-injective (rw e at h)))
      ]
    where
      none-some : ◌≡◌ {A = Option String} none (some key) → ⊥
      none-some q = cc
