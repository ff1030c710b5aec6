-- ===== src/Etcd/Membership/Reconcile.antt =====
-- The whole of `reconcile` of pkg/manager/component/etcd.go, upgrades and the deferred size
-- included.
use cloudpods_operator.Prelude.{
  String, ◌≡◌, refl, ap, true, not, ◌||◌, some, List, [], ◌∷◌, arith, is_some, ◌==◌,
}
use cloudpods_operator.Exec.{Exec, Void, annotate, in_context}
use cloudpods_operator.Exec.Rules.{
  Holds, Holds-bind, Holds-annotate, Holds-ok, Holds-weaken, Holds-if,
}
use cloudpods_operator.Etcd.MemberSet.{MemberSet, add, size, is_equal, IsMap}
use cloudpods_operator.Etcd.MemberSet.Laws.{add-IsMap}
use cloudpods_operator.Etcd.MemberSet.Addresses.{HasAddresses}
use cloudpods_operator.Etcd.Types.{Cluster, Pod}
use cloudpods_operator.Etcd.Api.{Api, Manager, State, call}
use cloudpods_operator.Etcd.Manager.Members.{members_of, upgraded, upgrade_one_member}
use cloudpods_operator.Etcd.Manager.Reconcile.{
  pods_to_member_set, pick_one_old_member, need_upgrade, reconcile_members, upgrade, up_to_date,
  reconcile_to, finally_size, reconcile,
}
use cloudpods_operator.Etcd.Membership.Quiet.{Holds-call, Holds-pick}
use cloudpods_operator.Etcd.Membership.Change.{Change, kept, Moved, members_of-known}
use cloudpods_operator.Etcd.Membership.Refine.{reconcile_members-Good}

-- The members are known, and `R` holds of them; the rest of the manager is not said.
pub record Known {W : Type 0} (R : MemberSet → Type 0) (t : State W) : Type 0 where
  pub members : MemberSet
  pub known : t.manager.members ≡ some members
  pub fact : R members

Moved-Known :
    {W : Type 0} (m : Manager) (R : MemberSet → Type 0) (t : State W) → Moved m R t → Known R t
Moved-Known m R t h = record {
  members = h.members;
  known = ap (λ (k : Manager). k.members) h.moved;
  fact = h.fact;
}

pub pods_to_member_set-IsMap :
    (oc : Cluster) (pods : List Pod) (ms : MemberSet)
    → IsMap ms
    → IsMap (pods_to_member_set oc pods ms)
unfolding pods_to_member_set
pods_to_member_set-IsMap oc [] ms h = h
pods_to_member_set-IsMap oc (p ∷ ps) ms h =
    pods_to_member_set-IsMap oc ps (add _ ms) (add-IsMap _ ms h)

module _ (api : Api) (R : MemberSet → Type 0) where
  open api use {World}

  same : {w : World} {t : State World} → Known R t → Known R (record t { world = w })
  same k = record { members = k.members; known = k.known; fact = k.fact }

  upgrade_one_member-Known :
      (name : String) (t : State World)
      → Known R t
      → Holds (Known R) (upgrade_one_member api name t)
  unfolding upgrade_one_member
  upgrade_one_member-Known name t k =
      Holds-bind (Known R) (Known R) (annotate in_context (call (api.get_pod name))) _ t
        (Holds-annotate in_context (call (api.get_pod name)) t
          (Holds-call (Known R) (api.get_pod name) t (same k)))
        (λ u q. q)
        λ pod u q.
          Holds-annotate in_context (call (api.patch_pod (upgraded t.manager.oc pod))) u
            (Holds-call (Known R) (api.patch_pod (upgraded t.manager.oc pod)) u (same q))

  need_upgrade-old :
      (pods : List Pod) (oc : Cluster)
      → need_upgrade pods oc ≡ true
      → is_some (pick_one_old_member pods oc.etcd.version) ≡ true
  unfolding need_upgrade
  need_upgrade-old pods oc h = ground arith

  upgrade-Known :
      (pods : List Pod) (t : State World)
      → need_upgrade pods t.manager.oc ≡ true
      → Known R t
      → Holds (Known R) (upgrade api pods t)
  unfolding upgrade
  upgrade-Known pods t need k =
      Holds-pick (Known R) (pick_one_old_member pods t.manager.oc.etcd.version)
        (upgrade_one_member api) _ (need_upgrade-old pods t.manager.oc need)
        λ name e.
          upgrade_one_member-Known name _
            (record { members = k.members; known = k.known; fact = k.fact })

  up_to_date-Known : (t : State World) → Known R t → Holds (Known R) (up_to_date api t)
  unfolding up_to_date
  up_to_date-Known t k =
      Holds-ok tt _ (record { members = k.members; known = k.known; fact = k.fact })

module _ {W : Type 0} (R : MemberSet → Type 0) where
  members_of-Known : (t : State W) (k : Known R t) → members_of t.manager ≡ k.members
  members_of-Known t k = members_of-known t.manager k.members k.known

  -- What the deferred assignment leaves: the members as they are, and their number as the size.
  pub record Counted (t : State W) : Type 0 where
    pub members : MemberSet
    pub known : t.manager.members ≡ some members
    pub fact : R members
    pub counted : t.manager.status.size ≡ size members

  finally_size-Counted :
      (m : Exec (State W) Void) (s : State W)
      → Holds (Known R) (m s)
      → Holds Counted (finally_size m s)
  finally_size-Counted m s h = record {
    calm = h.calm;
    after = record {
      members = h.after.members;
      known = h.after.known;
      fact = h.after.fact;
      counted = ap (λ (k : MemberSet). size k) (members_of-Known (m s).1 h.after);
    };
  }

module _ (api : Api) where
  open api use {World}

  abbrev pub found_pods : State World → List Pod → MemberSet
  found_pods s pods = pods_to_member_set s.manager.oc pods []

  abbrev pub AllowedFrom : State World → List Pod → MemberSet → MemberSet → Type 0
  AllowedFrom s pods ms = Change s.manager.oc.etcd.size (found_pods s pods) ms

  module _ (s : State World) (pods : List Pod) (ms : MemberSet)
      (known : s.manager.members ≡ some ms) (addressed : HasAddresses ms) (mapped : IsMap ms) where
    abbrev Reached : State World → Type 0
    Reached = Known (AllowedFrom s pods ms)

    start : Reached s
    start = record { members = ms; known = known; fact = kept refl }

    reconcile_to-Known : Holds Reached (reconcile_to api pods (found_pods s pods) s)
    unfolding reconcile_to
    reconcile_to-Known =
        Holds-if
          (not (is_equal (found_pods s pods) (members_of s.manager))
            || not (size (members_of s.manager) == s.manager.oc.etcd.size))
          (reconcile_members api (found_pods s pods)) _ s
          (λ _.
            Holds-weaken _
              (reconcile_members-Good api s.manager ms (found_pods s pods) known addressed mapped
                (pods_to_member_set-IsMap s.manager.oc pods [] tt) s refl)
              (Moved-Known s.manager (AllowedFrom s pods ms)))
          λ _.
            Holds-if (need_upgrade pods s.manager.oc) (upgrade api pods) (up_to_date api) s
              (λ need. upgrade-Known api (AllowedFrom s pods ms) pods s need start)
              (λ _. up_to_date-Known api (AllowedFrom s pods ms) s start)

    -- Where the members are known, distinct and addressable, `reconcile` does not panic, whatever
    -- the
    -- API server and etcd answer. Also where it fails, the members are known after it, they differ
    -- from those before by one allowed change at most, and the size in the status is their number.
    pub reconcile-Change : Holds (Counted (AllowedFrom s pods ms)) (reconcile api pods s)
    unfolding reconcile
    reconcile-Change =
        finally_size-Counted (AllowedFrom s pods ms)
          (λ t. reconcile_to api pods (found_pods t pods) t) s reconcile_to-Known
