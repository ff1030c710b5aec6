-- ===== src/Etcd/Behaviour/Run.antt =====
-- How a run of pkg/manager/component/etcd.go ends, after any number of rounds, and that its
-- services settle.
use cloudpods_operator.Prelude.{
  Bool-cases, inl, inr, ◌≡◌, refl, ap, ◌∙◌, Bool, true, false, Option, none, some, if◌then◌else◌,
}
use cloudpods_operator.Exec.{
  Reply, bad, not_found, Void, Err, good, Outcome, ok, err, panic, Exec, done, pure,
}
use cloudpods_operator.Etcd.Types.{Service, Cluster}
use cloudpods_operator.Etcd.Api.{Api, State, call, from_reply}
use cloudpods_operator.Etcd.Manager.Spec.{adjust_spec}
use cloudpods_operator.Etcd.Manager.Loop.{Next, again, round}
use cloudpods_operator.Etcd.Manager.Services.{renewed, settle_service}
use cloudpods_operator.Etcd.Manager.Run.{
  or_nothing, adjusted_sync, start_unless_syncing, write_adjusted, sync_etcd,
}
use cloudpods_operator.Etcd.Behaviour.Loop.{Gives, Gives-bind, Ended, LostQuorum, ok-injective}

module _ (api : Api) where
  open api use {
    World, sync_component, count_master_nodes, update_cluster, labels_equal, create_service,
    update_service,
  }

  -- The rounds from `s` on that went on: the last error and the state in which one begins.
  pub data Reached (keep_failed : Bool) (rerr : Option Err) (s : State World)
      : Option Err → State World → Type 0 where
    start : Reached keep_failed rerr s rerr s
    later :
        {e x : Option Err} {u : State World}
        → Reached keep_failed rerr s e u
        → (round api keep_failed e u).0 ≡ ok (again x)
        → Reached keep_failed rerr s x (round api keep_failed e u).1

  -- The run deleted all members in the round that began in `last`, which it had reached.
  pub record LostAfter (keep_failed : Bool) (rerr : Option Err) (s t : State World) : Type 0 where
    pub last_error : Option Err
    pub last : State World
    pub reached : Reached keep_failed rerr s last_error last
    pub lost : LostQuorum api keep_failed last t

  module _ (keep_failed : Bool) (rerr : Option Err) (s : State World) where
    abbrev RunEnded : Next → State World → Type 0
    RunEnded = Ended api (LostAfter keep_failed rerr s)

  -- What the API server keeps of a service that it has accepted: the annotations that were sent.
  -- `held` is what it holds under the service's name.
  pub record KeepsAnnotations (held : World → Option Service) : Type 0 where
    pub created :
        (svc : Service) (w : World)
        → (create_service svc w).0 ≡ good tt
        → (h : Service) × (held (create_service svc w).1 ≡ some h)
          × (h.annotations ≡ svc.annotations)
    pub updated :
        (svc : Service) (w : World)
        → (update_service svc w).0 ≡ good tt
        → (h : Service) × (held (update_service svc w).1 ≡ some h)
          × (h.annotations ≡ svc.annotations)

  -- The service that is held is left alone by the next run: nothing is called after the look-up.
  abbrev pub LeftAlone : (World → Option Service) → Service → World → Type 0
  LeftAlone held svc w =
      (h : Service) × (held w ≡ some h)
      × ((t : State World) → settle_service api svc (good h) t ≡ (done, t))

  settled :
      (svc h : Service) (s : State World)
      → labels_equal h.annotations svc.annotations ≡ true
      → settle_service api svc (good h) s ≡ (done, s)
  unfolding settle_service
  settled svc h s e = rw e

  kept-settled :
      (svc h : Service) (s : State World)
      → labels_equal svc.annotations svc.annotations ≡ true
      → h.annotations ≡ svc.annotations
      → settle_service api svc (good h) s ≡ (done, s)
  kept-settled svc h s e k = settled svc h s (ap (λ l. labels_equal l svc.annotations) k ∙ e)

  accepted : (r : Reply Void) → from_reply r ≡ done → r ≡ good tt
  accepted (good a) h = refl
  accepted (bad e) h = absurd (cc)

  module _ (held : World → Option Service) (keeps : KeepsAnnotations held) (svc : Service)
      (reflexive : labels_equal svc.annotations svc.annotations ≡ true) where
    found-LeftAlone :
        (old : Service) (s : State World)
        → held s.world ≡ some old
        → (settle_service api svc (good old) s).0 ≡ done
        → LeftAlone held svc (settle_service api svc (good old) s).1.world
    unfolding settle_service
    found-LeftAlone old s h e = elim (Bool-cases (labels_equal old.annotations svc.annotations)) [
      | inl same ↦ rw same (old, h, λ t. settled svc old t same)
      | inr differs ↦
          let sent = accepted (update_service (renewed svc old) s.world).0 (rw differs at e) in
          let (live, there, kept) = keeps.updated (renewed svc old) s.world sent in
          rw differs (live, there, λ t. kept-settled svc live t reflexive kept)
    ]

    created-LeftAlone :
        (s : State World)
        → (create_service svc s.world).0 ≡ good tt
        → LeftAlone held svc (settle_service api svc (bad not_found) s).1.world
    unfolding settle_service
    created-LeftAlone s sent =
        let (live, there, kept) = keeps.created svc s.world sent in
        (live, there, λ t. kept-settled svc live t reflexive kept)

    -- A service of etcd that a run has found and, where it differed, updated without an error is
    -- left alone by the next run, and so is one that the run did not find and has created. The API
    -- server keeps the annotations that are sent, and their comparison is reflexive.
    pub settle_service-Settled :
        (s : State World)
        → ((old : Service)
            → held s.world ≡ some old
            → (settle_service api svc (good old) s).0 ≡ done
            → LeftAlone held svc (settle_service api svc (good old) s).1.world)
          × ((create_service svc s.world).0 ≡ good tt
              → LeftAlone held svc (settle_service api svc (bad not_found) s).1.world)
    settle_service-Settled s = ((λ old. found-LeftAlone old s), created-LeftAlone s)

  -- A cluster to start a sync with is given only where none is under way.
  abbrev pub Starts : Option Cluster → State World → Type 0
  Starts o t = (oc : Cluster) → o ≡ some oc → t.manager.syncing ≡ false

  none-Starts : (t : State World) → Gives Starts (ok none, t)
  none-Starts t o h oc e = absurd (none-some (ok-injective h ∙ e))
    where
      none-some : ◌≡◌ {A = Option Cluster} none (some oc) → ⊥
      none-some q = cc

  start_unless_syncing-Starts :
      (oc : Cluster) (s : State World) → Gives Starts (start_unless_syncing api oc s)
  unfolding start_unless_syncing
  start_unless_syncing-Starts oc s o h c e = free s.manager.syncing (ok-injective h ∙ e)
    where
      free : (b : Bool) → (if b then none else some oc) ≡ some c → b ≡ false
      free true q = absurd (cc)
      free false q = refl

  or_nothing-Starts :
      {A : Type 0} (r : Outcome A) (f : A → Exec (State World) (Option Cluster)) (t : State World)
      → ((a : A) → Gives Starts (f a t))
      → Gives Starts (or_nothing api r f t)
  unfolding or_nothing
  or_nothing-Starts (ok a) f t k = k a
  or_nothing-Starts (err e) f t k = none-Starts t
  or_nothing-Starts panic f t k = panic-Starts t
    where
      panic-Starts : (u : State World) → Gives Starts (panic, u)
      panic-Starts u o h = absurd (cc)

  write_adjusted-Starts :
      (oc : Cluster) (changed : Bool) (s : State World)
      → Gives Starts (write_adjusted api (oc, changed) s)
  unfolding write_adjusted
  write_adjusted-Starts oc true s =
      or_nothing-Starts (call (update_cluster oc) s).0 (start_unless_syncing api)
        (call (update_cluster oc) s).1
        (λ c. start_unless_syncing-Starts c (call (update_cluster oc) s).1)
  write_adjusted-Starts oc false s = start_unless_syncing-Starts oc s

  enabled-Starts : (oc : Cluster) (s : State World) → Gives Starts (adjusted_sync api oc s)
  unfolding adjusted_sync
  enabled-Starts oc s =
      or_nothing-Starts (call count_master_nodes s).0 _ (call count_master_nodes s).1 (λ masters.
        write_adjusted-Starts (adjust_spec masters oc).0 (adjust_spec masters oc).1
          (call count_master_nodes s).1)

  abbrev pub EnabledStarts : Bool → Option Cluster → State World → Type 0
  EnabledStarts disabled o t =
      (oc : Cluster) → o ≡ some oc → (disabled ≡ false) × (t.manager.syncing ≡ false)

  decided :
      (disabled : Bool) (oc : Cluster) (s : State World)
      → Gives (EnabledStarts disabled) ((if disabled then pure none else adjusted_sync api oc) s)
  decided true oc s o h c e = (absurd (none-some c (ok-injective h ∙ e)), none-Starts s o h c e)
    where
      none-some : (x : Cluster) → ◌≡◌ {A = Option Cluster} none (some x) → ⊥
      none-some x q = cc
  decided false oc s o h c e = (refl, enabled-Starts oc s o h c e)

  -- `Sync` starts a new sync only where etcd is not disabled and no sync is under way.
  pub sync_etcd-started :
      (oc : Cluster) (s : State World) (c : Cluster)
      → (sync_etcd api oc s).0 ≡ ok (some c)
      → (oc.etcd.disable ≡ false) × ((sync_etcd api oc s).1.manager.syncing ≡ false)
  unfolding sync_etcd
  sync_etcd-started oc s c h =
      Gives-bind (EnabledStarts oc.etcd.disable) (call (sync_component oc)) _ s
        (λ v e. decided oc.etcd.disable oc (call (sync_component oc) s).1) (some c) h c refl
