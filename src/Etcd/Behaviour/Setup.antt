-- ===== src/Etcd/Behaviour/Setup.antt =====
-- How `sync` of pkg/manager/component/etcd.go begins: whether it goes on to `run`, and with what.
use cloudpods_operator.Prelude.{
  ◌≡◌, refl, ◌⊎◌, inl, inr, ◌∙◌, ap, Bool, true, false, Option, some, [], ◌∷◌, if◌then◌else◌,
}
use cloudpods_operator.Exec.{created_cluster, unexpected_phase, in_context, Reply, annotate, skip}
use cloudpods_operator.Exec.Rules.{Holds, Holds-bind, Holds-ok}
use cloudpods_operator.Exec.Returns.{
  Returns, Returns-bind, Returns-annotate, Returns-ok, Returns-if, Returns-fail, Returns-weaken,
  Returns-Holds,
}
use cloudpods_operator.Etcd.Manager.Pods.{update_etcd_status, create_pod}
use cloudpods_operator.Etcd.Types.{EtcdStatus, Phase, unset, creating, running, failed, other}
use cloudpods_operator.Etcd.MemberSet.{MemberSet}
use cloudpods_operator.Etcd.Api.{Api, Manager, State, call}
use cloudpods_operator.Etcd.Membership.Quiet.{Holds-call, from_reply-calm, At, create_pod-At}
use cloudpods_operator.Etcd.Member.{Member, unique_member_name}
use cloudpods_operator.Etcd.Member.Names.{has_address, has_address-unique_member_name}
use cloudpods_operator.Etcd.MemberSet.Addresses.{add-HasAddresses}
use cloudpods_operator.Etcd.MemberSet.{new_member_set}
use cloudpods_operator.Etcd.Manager.Spec.{is_secure, etcd_cluster_prefix}
use cloudpods_operator.Etcd.Manager.Members.{member_for}
use cloudpods_operator.Etcd.Manager.Setup.{
  start_of, load_tls, start_seed_member, create, prepare, setup_from,
}

-- What a call of an outside service leaves, where it succeeds.
module _ {W A : Type 0} (P : State W → Type 0) where
  Returns-call :
      (f : W → Reply A × W) (s : State W)
      → P (record s { world = (f s.world).1 })
      → Returns P (call f s)
  Returns-call f s h = record { calm = from_reply-calm (f s.world).0; result = λ a e. h }

module _ (api : Api) where
  open api use {World}

  module _ (ms : Option MemberSet) (st : EtcdStatus) where
    -- The members and the status are those given.
    abbrev pub Kept : State World → Type 0
    Kept t = (t.manager.members ≡ ms) × (t.manager.status ≡ st)

    load_tls-Kept : (s : State World) → Kept s → Returns Kept (load_tls api s)
    unfolding load_tls
    load_tls-Kept s h =
        Returns-bind Kept Kept (call (api.get_tls_secret s.manager.oc.namespace)) _ s
          (Returns-call Kept (api.get_tls_secret s.manager.oc.namespace) s h)
          λ secret t p.
            Returns-bind Kept Kept (call (api.new_tls_config secret)) _ t
              (Returns-call Kept (api.new_tls_config secret) t p) λ config u q. Returns-ok tt _ q

  abbrev Creating : State World → Type 0
  Creating t = t.manager.status.phase ≡ creating

  abbrev pub InPhase : Phase → State World → Type 0
  InPhase p t = t.manager.status.phase ≡ p

  pub update_etcd_status-InPhase :
      (p : Phase) (s : State World) → InPhase p s → Holds (InPhase p) (update_etcd_status api s)
  unfolding update_etcd_status
  update_etcd_status-InPhase p s h =
      Holds-bind (InPhase p) (InPhase p)
        (call (api.get_cluster s.manager.oc.namespace s.manager.oc.name)) _ s
        (Holds-call (InPhase p) (api.get_cluster s.manager.oc.namespace s.manager.oc.name) s h)
        (λ t q. q)
        λ oc t q.
          Holds-bind (InPhase p) (InPhase p)
            (call (api.update_cluster (record oc { status = s.manager.status }))) _ t
            (Holds-call (InPhase p) (api.update_cluster (record oc { status = s.manager.status })) t
              q)
            (λ u r. r) λ written u r. Holds-ok tt _ r

  -- A new cluster has one member, and an address for it.
  pub record Seeded (t : State World) : Type 0 where
    pub seed : Member
    pub alone : t.manager.members ≡ some (new_member_set (seed ∷ []))
    pub addressed : has_address seed ≡ true
    pub building : t.manager.status.phase ≡ creating

  abbrev seed_of : State World → Member
  seed_of s =
      member_for s.manager.oc
        (unique_member_name (etcd_cluster_prefix s.manager.oc) (api.member_suffix s.world).0) 0

  seed_of-has_address : (s : State World) → has_address (seed_of s) ≡ true
  seed_of-has_address s =
      has_address-unique_member_name (seed_of s) (etcd_cluster_prefix s.manager.oc)
        (api.member_suffix s.world).0 refl

  create_pod-phase :
      (mb : Member) (s : State World)
      → has_address mb ≡ true
      → Creating s
      → Returns Creating (create_pod api (new_member_set (mb ∷ [])) mb "new" s)
  unfolding new_member_set
  create_pod-phase mb s a h = record {
    calm = made.calm;
    result = λ v e. ap (λ (k : Manager). k.status.phase) made.after ∙ h;
  }
    where
      made : Holds (At s.manager) (create_pod api (new_member_set (mb ∷ [])) mb "new" s)
      made =
          create_pod-At api s.manager (new_member_set (mb ∷ [])) mb "new" s
            (add-HasAddresses mb [] a tt) refl

  start_seed_member-Seeded :
      (s : State World) → Creating s → Returns Seeded (start_seed_member api s)
  unfolding start_seed_member
  start_seed_member-Seeded s h =
      Returns-bind Creating Seeded
        (annotate in_context (create_pod api (new_member_set (seed_of s ∷ [])) (seed_of s) "new")) _
        _
        (Returns-annotate in_context
          (create_pod api (new_member_set (seed_of s ∷ [])) (seed_of s) "new") _
          (create_pod-phase (seed_of s) _ (seed_of-has_address s) h))
        λ v t p. Returns-ok tt _ (record {
          seed = seed_of s;
          alone = refl;
          addressed = seed_of-has_address s;
          building = p;
        })

  -- A first member and the size one.
  pub record Created (t : State World) : Type 0 where
    pub seeded : Seeded t
    pub counted : t.manager.status.size ≡ 1

  create-Created : (s : State World) → Returns Created (create api s)
  unfolding create
  create-Created s =
      Returns-bind Creating Created (annotate in_context (update_etcd_status api)) _ _
        (Returns-annotate in_context (update_etcd_status api) _
          (Returns-Holds (update_etcd_status-InPhase creating _ refl)))
        λ _ t p.
          Returns-bind Seeded Created (start_seed_member api) _ t (start_seed_member-Seeded t p)
            λ _ u q. Returns-ok tt _ (record {
              seeded = record {
                seed = q.seed;
                alone = q.alone;
                addressed = q.addressed;
                building = q.building;
              };
              counted = refl;
            })

  module _ (ms : Option MemberSet) (st : EtcdStatus) where
    -- What a setup leaves: the cluster that ran before, or a new one.
    pub data Ready (t : State World) : Type 0 where
      resumed : st.phase ≡ running → Kept ms st t → Ready t
      created : (st.phase ≡ unset) ⊎ (st.phase ≡ failed) → Created t → Ready t

    prepare-Ready :
        (b : Bool) (s : State World)
        → Kept ms st s
        → (b ≡ true → (st.phase ≡ unset) ⊎ (st.phase ≡ failed))
        → (b ≡ false → st.phase ≡ running)
        → Returns Ready (prepare api b s)
    unfolding prepare
    prepare-Ready b s h k l =
        Returns-bind (Kept ms st) Ready (if is_secure s.manager.oc then load_tls api else skip) _ s
          (Returns-if (is_secure s.manager.oc) (load_tls api) skip s (λ e. load_tls-Kept ms st s h)
            (λ e. Returns-ok tt s h))
          λ _ t p.
            Returns-if b (create api) skip t
              (λ e. Returns-weaken (create-Created t) (λ u q. created (k e) q))
              (λ e. Returns-ok tt t (resumed (l e) p))

    pub setup_from-Ready :
        (p : Phase) (s : State World)
        → Kept ms st s
        → st.phase ≡ p
        → Returns Ready (setup_from api (start_of p) s)
    unfolding setup_from start_of
    setup_from-Ready unset s h e = prepare-Ready true s h (λ _. inl e) (λ f. absurd (cc))
    setup_from-Ready failed s h e = prepare-Ready true s h (λ _. inr e) (λ f. absurd (cc))
    setup_from-Ready creating s h e = Returns-fail created_cluster s
    setup_from-Ready running s h e = prepare-Ready false s h (λ f. absurd (cc)) (λ _. e)
    setup_from-Ready (other x) s h e = Returns-fail unexpected_phase s
