-- ===== src/Etcd/Membership/Shrink.antt =====
-- `removeMember` of pkg/manager/component/etcd.go removes one member, or fails and removes none or
-- that one.
use cloudpods_operator.Prelude.{ℕ, String, ◌≡◌, ◌∙◌, ap, ◌≢◌, Bool, true, false, some, List, arith}
use cloudpods_operator.Exec.{Reply, panic, Void, in_context}
use cloudpods_operator.Exec.Rules.{Holds, Holds-bind, Holds-annotate, Holds-ok, Holds-weaken}
use cloudpods_operator.Etcd.Member.{Member}
use cloudpods_operator.Etcd.MemberSet.{MemberSet, remove, client_urls}
use cloudpods_operator.Etcd.MemberSet.Addresses.{HasAddresses}
use cloudpods_operator.Etcd.Api.{Api, Manager, State, call, or_panic}
use cloudpods_operator.Etcd.Manager.Pods.{remove_pod}
use cloudpods_operator.Etcd.Manager.Members.{
  members_of, drop_member, expel, remove_claim_if, remove_member,
}
use cloudpods_operator.Etcd.Membership.Quiet.{
  At, Holds-call, Holds-or_panic, remove_pod-At, remove_claim-At,
}
use cloudpods_operator.Etcd.Membership.Change.{Moved, same_manager}
use cloudpods_operator.Etcd.Manager.Members.{settle_removal, take_out}
use cloudpods_operator.Etcd.Membership.Grow.{urls-known}

pub settle_removal-calm : (r : Reply Void) → settle_removal r ≢ panic
settle_removal-calm r = ground arith

module _ (api : Api) (m : Manager) where
  open api use {World}

  pub expel-At :
      (urls : List String) (id : ℕ) (t : State World) → At m t → Holds (At m) (expel api urls id t)
  unfolding expel
  expel-At urls id t h =
      Holds-bind (At m) (At m) (call (api.new_client urls)) _ t
        (Holds-call (At m) (api.new_client urls) t h) (λ u q. q)
        λ _ u q. record {
          calm = settle_removal-calm (api.member_remove urls id u.world).0;
          after = q;
        }

  pub remove_claim_if-At :
      (b : Bool) (name : String) (t : State World)
      → At m t
      → Holds (At m) (remove_claim_if api b name t)
  unfolding remove_claim_if
  remove_claim_if-At true name t h = remove_claim-At api m name t h
  remove_claim_if-At false name t h = Holds-ok tt t h

pub drop_member-known :
    (n : String) (m : Manager) (ms : MemberSet)
    → m.members ≡ some ms
    → drop_member n m ≡ record m { members = some (remove n ms) }
drop_member-known n m ms h = ground arith

module _ (api : Api) (m : Manager) (ms : MemberSet) (known : m.members ≡ some ms)
    (addressed : HasAddresses ms) where
  open api use {World}

  module _ (R : MemberSet → Type 0) (stay : R ms) (mb : Member)
      (leaves : R (remove mb.name ms)) where
    abbrev gone : Manager
    gone = record m { members = some (remove mb.name ms) }

    left : (t : State World) → At gone t → Moved m R t
    left t h = record { members = remove mb.name ms; moved = h; fact = leaves }

    stayed : (t : State World) → At m t → Moved m R t
    stayed t h = record { members = ms; moved = h ∙ same_manager m ms known; fact = stay }

    take_out-Moved : (s : State World) → At m s → Holds (Moved m R) (take_out api mb s)
    unfolding take_out
    take_out-Moved s h =
        Holds-bind (At m) (Moved m R) (or_panic (client_urls (members_of s.manager))) _ s
          (Holds-or_panic (At m) _ s (urls-known api m ms known addressed s h) h) stayed
          λ urls t p.
            Holds-bind (At m) (Moved m R) (expel api urls mb.id) _ t (expel-At api m urls mb.id t p)
              stayed
              λ _ u q.
                Holds-bind (At gone) (Moved m R) (remove_pod api mb.name) _ _
                  (remove_pod-At api gone mb.name _
                    (ap (drop_member mb.name) q ∙ drop_member-known mb.name m ms known))
                  left λ _ v r. Holds-weaken _ (remove_claim_if-At api gone _ mb.name v r) left

    -- The member is removed, or the call fails before that; it does not panic.
    pub remove_member-Moved :
        (s : State World) → At m s → Holds (Moved m R) (remove_member api mb s)
    unfolding remove_member
    remove_member-Moved s h = Holds-annotate in_context (take_out api mb) s (take_out-Moved s h)
