-- ===== src/Etcd/Behaviour/Pods.antt =====
-- How `pollPods` of pkg/manager/component/etcd.go sorts the pods.
use mathlib.Core.Bool.{false≢true}
use cloudpods_operator.Prelude.{
  ◌+◌, String, ◌≡◌, refl, Bool, true, false, ◌&&◌, List, [], ◌∷◌, arith, select, length, ap, ◌↔◌,
  str_eq, eq_iff, if◌then◌else◌, Bool-cases, inl, inr,
}
use cloudpods_operator.Etcd.Types.{Pod, PodPhase, pod_running, pod_pending, pod_failed, pod_unknown}
use cloudpods_operator.Etcd.Manager.Pods.{sort_pods, ready_names, unready_names}

abbrev pub is_running : PodPhase → Bool
is_running pod_running = true
is_running _ = false

abbrev pub is_pending : PodPhase → Bool
is_pending pod_pending = true
is_pending _ = false

abbrev pub is_broken : PodPhase → Bool
is_broken pod_failed = true
is_broken pod_unknown = true
is_broken _ = false

-- What the list of owners must begin with for a pod to be the cluster's.
abbrev pub begins_with : String → List String → Bool
begins_with uid [] = false
begins_with uid (o ∷ os) = str_eq o uid

-- A pod that is not being deleted and whose first owner is the cluster.
abbrev pub counts : String → Pod → Bool
counts uid p = if p.deleting then false else begins_with uid p.owners

begins_with_iff :
    (uid : String) (owners : List String)
    → (begins_with uid owners ≡ true) ↔ ((rest : List String) × (owners ≡ uid ∷ rest))
begins_with_iff uid [] = ((λ h. absurd (cc)), λ h. absurd (cc))
begins_with_iff uid (o ∷ os) = (
  (λ h. (os, ap (λ x. x ∷ os) ((eq_iff o uid).0 h))),
  (λ h. (eq_iff o uid).1 (head_is o os h.0 h.1)),
)
  where
    head_is : (x : String) (xs rest : List String) → x ∷ xs ≡ uid ∷ rest → x ≡ uid
    head_is x xs rest e = cc

counts_iff :
    (uid : String) (p : Pod)
    → (counts uid p ≡ true)
      ↔ ((p.deleting ≡ false) × (rest : List String) × (p.owners ≡ uid ∷ rest))
counts_iff uid p = elim (Bool-cases p.deleting) [
  | inl e ↦ ((λ h. absurd (false≢true (rw e at h))), λ h. absurd (cc))
  | inr e ↦ (
    (λ h. let owner = (begins_with_iff uid p.owners).0 (rw e at h) in (e, owner.0, owner.1)),
    (λ h. rw e ((begins_with_iff uid p.owners).1 (h.1, h.2))),
  )
]

abbrev pub chosen : (PodPhase → Bool) → String → List Pod → List Pod
chosen test uid pods = select (λ p. counts uid p && test p.phase) pods

pods_sorted :
    (uid : String) (pods : List Pod)
    → sort_pods uid pods ≡ record {
      running = chosen is_running uid pods;
      pending = chosen is_pending uid pods;
      failed = chosen is_broken uid pods;
    }
unfolding sort_pods
pods_sorted uid [] = refl
pods_sorted uid (p ∷ ps) = ground (arith, pods_sorted uid ps)

-- The three lists of `pollPods` are the pods that count, in the order of the API server, by their
-- phase: running, pending, and failed or unknown; the pods that succeeded are in none. A pod counts
-- exactly where it is not being deleted and its first owner is the cluster.
pub sort_pods-select :
    (uid : String) (pods : List Pod)
    → (sort_pods uid pods ≡ record {
      running = chosen is_running uid pods;
      pending = chosen is_pending uid pods;
      failed = chosen is_broken uid pods;
    })
      × ((p : Pod)
          → (counts uid p ≡ true)
            ↔ ((p.deleting ≡ false) × (rest : List String) × (p.owners ≡ uid ∷ rest)))
sort_pods-select uid pods = (pods_sorted uid pods, counts_iff uid)

-- Every pod's name is either among the ready members of the status or among the unready ones.
pub ready_names-unready_names :
    (pods : List Pod) → length (ready_names pods) + length (unready_names pods) ≡ length pods
unfolding ready_names unready_names
ready_names-unready_names [] = refl
ready_names-unready_names (p ∷ ps) = ground (arith, ready_names-unready_names ps)
