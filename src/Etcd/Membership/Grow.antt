-- ===== src/Etcd/Membership/Grow.antt =====
-- `addOneMember` of pkg/manager/component/etcd.go adds one member, or fails and adds none or that
-- one.
use mathlib.Core.Path.{subst}
use cloudpods_operator.Prelude.{◌≡◌, refl, ◌∙◌, ap, sym, ◌≢◌, true, some, arith, is_some}
use cloudpods_operator.Exec.{Reply, Outcome, ok, panic, Exec, Void, ◌>>=◌, annotate, in_context}
use cloudpods_operator.Exec.Rules.{
  Holds, Holds-bind, Holds-bind_value, Holds-annotate, Holds-weaken,
}
use cloudpods_operator.Etcd.Member.{Member, peer_url, unique_member_name}
use cloudpods_operator.Etcd.Member.Names.{
  has_address, has_address-unique_member_name, peer_url-has_address,
}
use cloudpods_operator.Etcd.MemberSet.{MemberSet, add, client_urls}
use cloudpods_operator.Etcd.MemberSet.Addresses.{
  HasAddresses, client_urls-HasAddresses, add-HasAddresses,
}
use cloudpods_operator.Etcd.Api.{Api, Manager, State, call, or_panic}
use cloudpods_operator.Etcd.Manager.Spec.{etcd_cluster_prefix}
use cloudpods_operator.Etcd.Manager.Pods.{create_pod}
use cloudpods_operator.Etcd.Manager.Members.{
  members_of, member_for, new_member, insert_member, add_one_member,
}
use cloudpods_operator.Etcd.Membership.Quiet.{At, Holds-call, Holds-or_panic, create_pod-At}
use cloudpods_operator.Etcd.Membership.Change.{Moved, members_of-known, same_manager}

ok-injective : {A : Type 0} {a b : A} → ◌≡◌ {A = Outcome A} (ok a) (ok b) → a ≡ b
ok-injective e = cc

module _ (api : Api) (m : Manager) (ms : MemberSet) (known : m.members ≡ some ms)
    (addressed : HasAddresses ms) where
  open api use {World}

  module _ (R : MemberSet → Type 0) where
    At-Moved : R ms → (t : State World) → At m t → Moved m R t
    At-Moved r t h = record { members = ms; moved = h ∙ same_manager m ms known; fact = r }

  pub urls-known : (t : State World) → At m t → is_some (client_urls (members_of t.manager)) ≡ true
  urls-known t h =
      ap (λ (k : Manager). is_some (client_urls (members_of k))) h
      ∙ ap (λ (k : MemberSet). is_some (client_urls k)) (members_of-known m ms known)
      ∙ client_urls-HasAddresses ms addressed

  insert_member-value :
      (mb : Member) (t : State World) → At m t → (insert_member api mb t).0 ≡ ok (add mb ms)
  unfolding insert_member
  insert_member-value mb t h = ground arith

  insert_member-manager :
      (mb : Member) (t : State World)
      → At m t
      → (insert_member api mb t).1.manager ≡ record m { members = some (add mb ms) }
  unfolding insert_member
  insert_member-manager mb t h = ground arith

  ok-calm : {A : Type 0} {r : Outcome A} {a : A} → r ≡ ok a → r ≢ panic
  ok-calm e h = cc

  insert_member-Holds :
      (mb : Member) (t : State World)
      → At m t
      → Holds (At (record m { members = some (add mb ms) })) (insert_member api mb t)
  insert_member-Holds mb t h = record {
    calm = ok-calm (insert_member-value mb t h);
    after = insert_member-manager mb t h;
  }

  -- A call that is wrapped in a message leaves the manager alone.
  pub called :
      {A : Type 0} (f : World → Reply A × World) (t : State World)
      → At m t
      → Holds (At m) (annotate in_context (call f) t)
  called f t h = Holds-annotate in_context (call f) t (Holds-call (At m) f t h)

  abbrev pub drawn : State World → Member
  drawn u =
      member_for u.manager.oc
        (unique_member_name (etcd_cluster_prefix u.manager.oc) (api.member_suffix u.world).0) 0

  pub drawn-has_address : (u : State World) → has_address (drawn u) ≡ true
  drawn-has_address u =
      has_address-unique_member_name (drawn u) (etcd_cluster_prefix u.manager.oc)
        (api.member_suffix u.world).0 refl

  abbrev pub join : Member → Exec (State World) Void
  join mb = insert_member api mb >>= λ set. annotate in_context (create_pod api set mb "existing")

  module _ (R : MemberSet → Type 0) where
    joined :
        (mb : Member)
        → R (add mb ms)
        → (t : State World) → At (record m { members = some (add mb ms) }) t
        → Moved m R t
    joined mb r t h = record { members = add mb ms; moved = h; fact = r }

    -- From here on the member is in the set, whether or not its pod is created.
    pub join-Moved :
        (mb : Member)
        → has_address mb ≡ true
        → R (add mb ms)
        → (t : State World) → At m t
        → Holds (Moved m R) (join mb t)
    join-Moved mb a r t h =
        Holds-bind_value (At (record m { members = some (add mb ms) })) (Moved m R)
          (insert_member api mb) _ t (insert_member-Holds mb t h) (joined mb r)
          λ set u e q.
            Holds-weaken _
              (Holds-annotate in_context (create_pod api set mb "existing") u (
                create_pod-At api (record m { members = some (add mb ms) }) set mb "existing" u
                  (subst HasAddresses (ok-injective (sym (insert_member-value mb t h) ∙ e))
                    (add-HasAddresses mb ms a addressed))
                  q))
              (joined mb r)

  module _ (R : MemberSet → Type 0) (stay : R ms) where
    abbrev Target : State World → Type 0
    Target = Moved m R

    pub unmoved : (t : State World) → At m t → Target t
    unmoved t h = record { members = ms; moved = h ∙ same_manager m ms known; fact = stay }

    module _ (joins : (mb : Member) → has_address mb ≡ true → R (add mb ms)) where
      pub add_one_member-Moved : (s : State World) → At m s → Holds Target (add_one_member api s)
      unfolding add_one_member new_member
      add_one_member-Moved s h =
          Holds-bind (At m) Target (or_panic (client_urls (members_of s.manager))) _ s
            (Holds-or_panic (At m) _ s (urls-known s h) h) unmoved
            λ urls t p.
              Holds-bind (At m) Target (annotate in_context (call (api.new_client urls))) _ t
                (called (api.new_client urls) t p) unmoved
                λ _ u q.
                  Holds-bind (At m) Target (or_panic (peer_url (drawn u))) _ _
                    (Holds-or_panic (At m) _ _
                      (peer_url-has_address (drawn u) (drawn-has_address u)) q)
                    unmoved
                    λ url v r.
                      Holds-bind (At m) Target
                        (annotate in_context (call (api.member_add urls url))) _ v
                        (called (api.member_add urls url) v r) unmoved
                        λ id w x.
                          let mb = record (drawn u) { id = id } in
                          let addressable = has_address-unique_member_name mb _ _ refl in
                          join-Moved R mb addressable (joins mb addressable) w x
