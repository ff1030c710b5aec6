-- ===== src/Etcd/Membership/Progress.antt =====
-- What `addOneMember` and `removeOneMember` of pkg/manager/component/etcd.go have done where they
-- succeed: one member more, under the name that was drawn, or one less.
use cloudpods_operator.Prelude.{String, List, ◌≡◌, refl, ◌∙◌, ap, Option, some}
use cloudpods_operator.Exec.{Exec, ◌>>=◌, annotate, in_context}
use cloudpods_operator.Exec.Returns.{Returns, Returns-bind, Returns-annotate, Returns-Holds}
use cloudpods_operator.Etcd.Member.{Member, peer_url, unique_member_name}
use cloudpods_operator.Etcd.Member.Names.{has_address-unique_member_name, peer_url-has_address}
use cloudpods_operator.Etcd.MemberSet.{MemberSet, add, remove, client_urls}
use cloudpods_operator.Etcd.MemberSet.Addresses.{HasAddresses}
use cloudpods_operator.Etcd.Api.{Api, Manager, State, call, or_panic}
use cloudpods_operator.Etcd.Manager.Spec.{etcd_cluster_prefix}
use cloudpods_operator.Etcd.Manager.Pods.{remove_pod}
use cloudpods_operator.Etcd.Manager.Members.{
  members_of, drop_member, expel, new_member, add_one_member, take_out, remove_member,
}
use cloudpods_operator.Etcd.Membership.Quiet.{At, Holds-call, Holds-or_panic, remove_pod-At}
use cloudpods_operator.Etcd.Membership.Change.{Moved, members_of-known}
use cloudpods_operator.Etcd.Membership.Grow.{
  urls-known, called, drawn, drawn-has_address, join-Moved,
}
use cloudpods_operator.Etcd.Membership.Shrink.{drop_member-known, expel-At, remove_claim_if-At}

module _ {S A B : Type 0} (P : S → Type 0) where
  -- A value that is there is handed on.
  pub Returns-given :
      (o : Option A) (a : A) (f : A → Exec S B) (s : S)
      → o ≡ some a
      → Returns P (f a s)
      → Returns P ((or_panic o >>= f) s)
  Returns-given o a f s e h = rw e h

module _ (api : Api) (m : Manager) (ms : MemberSet) (known : m.members ≡ some ms)
    (addressed : HasAddresses ms) where
  open api use {World}

  -- After the call of `urls` for a client, the world is that of the call.
  abbrev Asked : List String → World → State World → Type 0
  Asked urls w u = At m u × (u.world ≡ (api.new_client urls w).1)

  -- The name that a member is given after that call.
  abbrev pub name_after : List String → World → String
  name_after urls w =
      unique_member_name (etcd_cluster_prefix m.oc) (api.member_suffix (api.new_client urls w).1).0

  abbrev pub JoinedAs : String → MemberSet → Type 0
  JoinedAs name after = (mb : Member) × (mb.name ≡ name) × (after ≡ add mb ms)

  drawn-name :
      (urls : List String) (w : World) (u : State World)
      → Asked urls w u
      → (drawn api m ms known addressed u).name ≡ name_after urls w
  drawn-name urls w u q =
      ap
        (λ (k : Manager).
          unique_member_name (etcd_cluster_prefix k.oc) (api.member_suffix u.world).0)
        q.0
      ∙ ap (λ v. unique_member_name (etcd_cluster_prefix m.oc) (api.member_suffix v).0) q.1

  pub add_one_member-Joined :
      (s : State World) (urls : List String)
      → At m s
      → client_urls ms ≡ some urls
      → Returns (Moved m (JoinedAs (name_after urls s.world))) (add_one_member api s)
  unfolding add_one_member new_member
  add_one_member-Joined s urls h e =
      let Target = Moved {W = World} m (JoinedAs (name_after urls s.world)) in
      Returns-given Target (client_urls (members_of s.manager)) urls _ s
        (ap (λ (k : Manager). client_urls (members_of k)) h
          ∙ ap (λ (k : MemberSet). client_urls k) (members_of-known m ms known)
          ∙ e)
        (Returns-bind (Asked urls s.world) Target (annotate in_context (call (api.new_client urls)))
          _ s
          (Returns-annotate in_context (call (api.new_client urls)) s
            (Returns-Holds (Holds-call (Asked urls s.world) (api.new_client urls) s (h, refl))))
          λ _ u q.
            let mb = drawn api m ms known addressed u in
            Returns-bind (At m) Target (or_panic (peer_url mb)) _ _
              (Returns-Holds (
                Holds-or_panic (At m) _ _
                  (peer_url-has_address mb (drawn-has_address api m ms known addressed u)) q.0))
              λ url v r.
                Returns-bind (At m) Target (annotate in_context (call (api.member_add urls url))) _
                  v (Returns-Holds (called api m ms known addressed (api.member_add urls url) v r))
                  λ id w x.
                    let new = record mb { id = id } in
                    Returns-Holds (
                      join-Moved api m ms known addressed _ new
                        (has_address-unique_member_name new _ _ refl)
                        (new, drawn-name urls s.world u q, refl) w x))

  take_out-Left :
      (mb : Member) (s : State World)
      → At m s
      → Returns (At (record m { members = some (remove mb.name ms) })) (take_out api mb s)
  unfolding take_out
  take_out-Left mb s h =
      let gone = record m { members = some (remove mb.name ms) } in
      Returns-bind (At m) (At gone) (or_panic (client_urls (members_of s.manager))) _ s
        (Returns-Holds (Holds-or_panic (At m) _ s (urls-known api m ms known addressed s h) h))
        λ urls t p.
          Returns-bind (At m) (At gone) (expel api urls mb.id) _ t
            (Returns-Holds (expel-At api m urls mb.id t p))
            λ _ u q.
              Returns-bind (At gone) (At gone) (remove_pod api mb.name) _ _
                (Returns-Holds (
                  remove_pod-At api gone mb.name _
                    (ap (drop_member mb.name) q ∙ drop_member-known mb.name m ms known)))
                λ _ v r. Returns-Holds (remove_claim_if-At api gone _ mb.name v r)

  pub remove_member-Left :
      (mb : Member) (s : State World)
      → At m s
      → Returns (At (record m { members = some (remove mb.name ms) })) (remove_member api mb s)
  unfolding remove_member
  remove_member-Left mb s h = Returns-annotate in_context (take_out api mb) s (take_out-Left mb s h)
