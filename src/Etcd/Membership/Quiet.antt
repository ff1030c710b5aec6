-- ===== src/Etcd/Membership/Quiet.antt =====
-- The methods of pkg/manager/component/etcd.go that change the world and leave the manager alone.
use cloudpods_operator.Prelude.{
  String, ◌≡◌, refl, ◌≢◌, Bool, true, false, Option, none, some, arith, is_some,
}
use cloudpods_operator.Exec.{Reply, good, bad, panic, Exec, Void, ◌>>=◌, annotate, in_context}
use cloudpods_operator.Exec.Rules.{Holds, Holds-bind, Holds-annotate, Holds-ok}
use cloudpods_operator.Etcd.Member.{Member}
use cloudpods_operator.Etcd.MemberSet.{MemberSet, peer_url_pairs}
use cloudpods_operator.Etcd.MemberSet.Addresses.{HasAddresses, peer_url_pairs-HasAddresses}
use cloudpods_operator.Etcd.Api.{Api, Manager, State, call, or_panic, from_reply}
use cloudpods_operator.Etcd.Manager.Pods.{
  remove_pod, remove_claim, create_pod, make_claim, settle, call_settled,
}

-- The manager is `m`, whatever the world.
abbrev pub At : {W : Type 0} → Manager → State W → Type 0
At m t = t.manager ≡ m

pub from_reply-calm : {A : Type 0} (r : Reply A) → from_reply r ≢ panic
from_reply-calm (good a) e = cc
from_reply-calm (bad x) e = cc

settle-calm : (r : Reply Void) → settle r ≢ panic
settle-calm r = ground arith

module _ {W : Type 0} {A : Type 0} (P : State W → Type 0) where
  -- A call of an outside service does not panic, and touches the world only.
  pub Holds-call :
      (f : W → Reply A × W) (s : State W)
      → P (record s { world = (f s.world).1 })
      → Holds P (call f s)
  Holds-call f s h = record { calm = from_reply-calm (f s.world).0; after = h }

module _ {W : Type 0} (P : State W → Type 0) where
  pub Holds-call_settled :
      (f : W → Reply Void × W) (s : State W)
      → P (record s { world = (f s.world).1 })
      → Holds P (call_settled f s)
  Holds-call_settled f s h = record { calm = settle-calm (f s.world).0; after = h }

module _ {S A : Type 0} (P : S → Type 0) where
  pub Holds-or_panic : (o : Option A) (s : S) → is_some o ≡ true → P s → Holds P (or_panic o s)
  Holds-or_panic (some a) s h p = Holds-ok a s p
  Holds-or_panic none s h p = absurd (cc)

module _ {S A B : Type 0} (P : S → Type 0) where
  -- A value that is there is handed on.
  pub Holds-pick :
      (o : Option A) (f : A → Exec S B) (s : S)
      → is_some o ≡ true
      → ((a : A) → o ≡ some a → Holds P (f a s))
      → Holds P ((or_panic o >>= f) s)
  Holds-pick (some a) f s h k = k a refl
  Holds-pick none f s h k = absurd (cc)

module _ (api : Api) (m : Manager) where
  open api use {World}

  abbrev Here : State World → Type 0
  Here = At m

  pub remove_pod-At :
      (name : String) (s : State World) → At m s → Holds Here (remove_pod api name s)
  unfolding remove_pod
  remove_pod-At name s h = Holds-call_settled Here (api.delete_pod name) s h

  pub remove_claim-At :
      (name : String) (s : State World) → At m s → Holds Here (remove_claim api name s)
  unfolding remove_claim
  remove_claim-At name s h =
      Holds-annotate in_context (call_settled (api.delete_claim name)) s
        (Holds-call_settled Here (api.delete_claim name) s h)

  make_claim-At :
      (b : Bool) (name : String) (s : State World) → At m s → Holds Here (make_claim api b name s)
  unfolding make_claim
  make_claim-At true name s h =
      Holds-bind Here Here (annotate in_context (call (api.create_claim name))) _ s
        (Holds-annotate in_context (call (api.create_claim name)) s
          (Holds-call Here (api.create_claim name) s h))
        (λ t p. p) (λ a t p. Holds-ok (some name) t p)
  make_claim-At false name s h = Holds-ok none s h

  -- With an address for every member, creating a pod does not panic and leaves the manager alone.
  pub create_pod-At :
      (ms : MemberSet) (mb : Member) (state : String) (s : State World)
      → HasAddresses ms
      → At m s
      → Holds Here (create_pod api ms mb state s)
  unfolding create_pod
  create_pod-At ms mb state s a h =
      Holds-bind Here Here (or_panic (peer_url_pairs ms)) _ _
        (Holds-or_panic Here (peer_url_pairs ms) _ (peer_url_pairs-HasAddresses ms a) h) (λ t p. p)
        λ pairs t p.
          Holds-bind Here Here (make_claim api _ mb.name) _ t (make_claim-At _ mb.name t p)
            (λ u q. q) λ claim u q. Holds-call Here (api.create_pod _) u q
