-- ===== src/Etcd/Behaviour/Loop.antt =====
-- How one round of the loop of `run` in pkg/manager/component/etcd.go ends.
use mathlib.Core.Path.{subst}
use cloudpods_operator.Prelude.{
  ◌+◌, ◌/◌, ◌<◌, ◌≡◌, refl, inl, inr, Bool, true, Bool-cases, ◌||◌, Option, none, some, List, [],
  ◌∷◌, is_some, is_none, is_empty,
}
use cloudpods_operator.Exec.{
  Err, cause, Outcome, ok, err, panic, Exec, Void, done, ◌>>=◌, ignore, for_each, pure, next,
}
use cloudpods_operator.Etcd.Types.{failed, Pod}
use cloudpods_operator.Etcd.MemberSet.{size}
use cloudpods_operator.Etcd.MemberSet.Sizes.{running_members}
use cloudpods_operator.Etcd.Api.{Api, State}
use cloudpods_operator.Etcd.Manager.Pods.{
  Polled, update_etcd_status, update_member_status, poll_pods, fetch_cluster,
}
use cloudpods_operator.Etcd.Manager.Members.{members_of, clean_member, clean_all_members}
use cloudpods_operator.Etcd.Manager.Reconcile.{pods_to_member_set, reconcile}
use cloudpods_operator.Etcd.Manager.Setup.{Tried, fine, caught, attempt}
use cloudpods_operator.Etcd.Manager.Loop.{
  Next, again, stopped, restarted, is_lost_quorum, all_dead, clean_up, after_reconcile,
  reconcile_round, after_refresh, refresh_members, with_running, drop_failed, after_poll, or_again,
  then_poll, round,
}
use cloudpods_operator.Etcd.Membership.Quorum.{lost, reconcile-lost}
use cloudpods_operator.Etcd.Behaviour.Setup.{InPhase, update_etcd_status-InPhase}

-- Where the method succeeds, `Q` holds of its value and the state after it.
abbrev pub Gives : {S A : Type 0} → (A → S → Type 0) → Outcome A × S → Type 0
Gives Q r = (a : _) → r.0 ≡ ok a → Q a r.1

pub ok-injective : {A : Type 0} {a b : A} → ◌≡◌ {A = Outcome A} (ok a) (ok b) → a ≡ b
ok-injective e = cc

module _ {S A B : Type 0} (Q : B → S → Type 0) where
  next-Gives :
      (r : Outcome A) (f : A → Exec S B) (t : S)
      → ((a : A) → r ≡ ok a → Gives Q (f a t))
      → Gives Q (next r f t)
  next-Gives (ok a) f t k b h = k a refl b h
  next-Gives (err e) f t k b h = absurd (cc)
  next-Gives panic f t k b h = absurd (cc)

  pub Gives-bind :
      (m : Exec S A) (f : A → Exec S B) (s : S)
      → ((a : A) → (m s).0 ≡ ok a → Gives Q (f a (m s).1))
      → Gives Q ((m >>= f) s)
  Gives-bind m f s k = next-Gives (m s).0 f (m s).1 k

module _ (api : Api) where
  open api use {World}

  -- From which state a round reconciles: the one it has, or after the members were listed again.
  pub data Prepared (pods : List Pod) (s : State World) : State World → Type 0 where
    known : Prepared pods s s
    refreshed : Prepared pods s (refresh_members api pods s).1

  -- Why a round that starts in `s` has deleted all members and left `t`: with the pods that it
  -- found running, it reconciled from the state `before`, where fewer members than a quorum run.
  pub record LostQuorum (keep_failed : Bool) (s t : State World) : Type 0 where
    pub polled : Polled
    pub found : (poll_pods api (fetch_cluster api s).1).0 ≡ ok polled
    pub before : State World
    pub prepared :
        Prepared polled.running
          (drop_failed api keep_failed polled.failed (poll_pods api (fetch_cluster api s).1).1).1
          before
    pub few :
        size (
          running_members
            (pods_to_member_set before.manager.oc polled.running [])
            (members_of before.manager))
        < size (members_of before.manager) / 2 + 1
    pub deleted : t ≡ (clean_all_members api (reconcile api polled.running before).1).1

  -- How a round ends, and what it leaves; `Lost` is why all members were deleted.
  pub data Ended (Lost : State World → Type 0) : Next → State World → Type 0 where
    continues : {e : Option Err} {t : State World} → Ended Lost (again e) t
    stops : {t : State World} → InPhase api failed t → Ended Lost stopped t
    restarts : {t : State World} → Lost t → InPhase api failed t → Ended Lost restarted t

  module _ (Lost : State World → Type 0) where
    -- A reconcile that finds too few members running gives the reason.
    abbrev Explains : List Pod → State World → Type 0
    Explains pods s =
        size (running_members (pods_to_member_set s.manager.oc pods []) (members_of s.manager))
          < size (members_of s.manager) / 2 + 1
        → Lost (clean_all_members api (reconcile api pods s).1).1

    pub pure-Ended : (n : Next) (t : State World) → Ended Lost n t → Gives (Ended Lost) (ok n, t)
    pure-Ended n t q m e = subst (λ x. Ended Lost x t) (ok-injective e) q

    pub again-Ended : (e : Option Err) (t : State World) → Gives (Ended Lost) (ok (again e), t)
    again-Ended e t = pure-Ended (again e) t continues

    panic-Gives : (t : State World) → Gives (Ended Lost) (panic, t)
    panic-Gives t m e = cc

    all_dead-Ended : (s : State World) → Gives (Ended Lost) (all_dead api s)
    unfolding all_dead update_member_status
    all_dead-Ended s =
        Gives-bind (Ended Lost) (ignore (update_etcd_status api)) _ _
          λ v h. pure-Ended stopped _ (stops (update_etcd_status-InPhase api failed _ refl).after)

    clean_all_members-InPhase :
        (s : State World) → Gives (λ _. InPhase api failed) (clean_all_members api s)
    unfolding clean_all_members
    clean_all_members-InPhase s =
        Gives-bind (λ _. InPhase api failed) (for_each (members_of s.manager) (clean_member api)) _
          s λ v h a e. (update_etcd_status-InPhase api failed _ refl).after

    cleaned :
        (x : Err) (r : Outcome Void) (t : State World)
        → Lost t
        → (r ≡ done → InPhase api failed t)
        → Gives (Ended Lost) (
            next
              (attempt (λ _. (r, t)) t).0
              (λ n. elim n [ fine ↦ pure restarted | caught _ ↦ pure (again (some x)) ])
              t)
    cleaned x (ok a) t q h = pure-Ended restarted t (restarts q (h refl))
    cleaned x (err e) t q h = again-Ended (some x) t
    cleaned x panic t q h = panic-Gives t

    clean_up-Ended :
        (x : Err) (s : State World)
        → Lost (clean_all_members api s).1
        → Gives (Ended Lost) (clean_up api x s)
    unfolding clean_up
    clean_up-Ended x s q =
        cleaned x (clean_all_members api s).0 (clean_all_members api s).1 q
          (clean_all_members-InPhase s tt)

    reconciled-Ended :
        (pods : List Pod) (r : Outcome Void) (t : State World)
        → (lost r ≡ true → Lost (clean_all_members api t).1)
        → Gives (Ended Lost) (next (attempt (λ _. (r, t)) t).0 (after_reconcile api pods) t)
    unfolding after_reconcile
    reconciled-Ended pods (ok a) t q =
        Gives-bind (Ended Lost) (update_member_status api pods) _ t λ u h.
          Gives-bind (Ended Lost) (ignore (update_etcd_status api)) _ _ λ v k. again-Ended none _
    reconciled-Ended pods (err x) t q = elim (Bool-cases (is_lost_quorum (cause x))) [
      | inl e ↦ rw e (clean_up-Ended x t (q e))
      | inr e ↦ rw e (again-Ended (some x) t)
    ]
    reconciled-Ended pods panic t q = panic-Gives t

    reconcile_round-Ended :
        (pods : List Pod) (s : State World)
        → Explains pods s
        → Gives (Ended Lost) (reconcile_round api pods s)
    unfolding reconcile_round
    reconcile_round-Ended pods s k =
        reconciled-Ended pods (reconcile api pods s).0 (reconcile api pods s).1
          (λ h. k (reconcile-lost api pods s h))

    after_refresh-Ended :
        (pods : List Pod) (x : Tried) (s : State World)
        → Explains pods s
        → Gives (Ended Lost) (after_refresh api pods x s)
    unfolding after_refresh
    after_refresh-Ended pods fine s k = reconcile_round-Ended pods s k
    after_refresh-Ended pods (caught e) s k = again-Ended (some e) s

    with_running-Ended :
        (rerr : Option Err) (pods : List Pod) (s : State World)
        → ((t : State World) → Prepared pods s t → Explains pods t)
        → Gives (Ended Lost) (with_running api rerr pods s)
    unfolding with_running
    with_running-Ended rerr [] s k = all_dead-Ended s
    with_running-Ended rerr (p ∷ ps) s k =
        elim (Bool-cases (is_some rerr || is_none s.manager.members)) [
          | inl e ↦ rw e (
              Gives-bind (Ended Lost) (attempt (refresh_members api (p ∷ ps))) _ s
                λ x h. after_refresh-Ended (p ∷ ps) x _ (k _ refreshed))
          | inr e ↦ rw e (reconcile_round-Ended (p ∷ ps) s (k s known))
        ]

    after_poll-Ended :
        (keep_failed : Bool) (rerr : Option Err) (polled : Polled) (s : State World)
        → ((t : State World)
            → Prepared polled.running (drop_failed api keep_failed polled.failed s).1 t
            → Explains polled.running t)
        → Gives (Ended Lost) (after_poll api keep_failed rerr polled s)
    unfolding after_poll
    after_poll-Ended keep_failed rerr polled s k = elim (Bool-cases (is_empty polled.pending)) [
      | inl e ↦ rw e (
          Gives-bind (Ended Lost) (drop_failed api keep_failed polled.failed) _ s
            λ x h. with_running-Ended rerr polled.running _ k)
      | inr e ↦ rw e (again-Ended rerr s)
    ]

    or_again-Ended :
        {A : Type 0} (rerr : Option Err) (r : Outcome A) (f : A → Exec (State World) Next)
        (t : State World)
        → ((a : A) → r ≡ ok a → Gives (Ended Lost) (f a t))
        → Gives (Ended Lost) (or_again api rerr r f t)
    unfolding or_again
    or_again-Ended rerr (ok a) f t k = k a refl
    or_again-Ended rerr (err e) f t k = again-Ended rerr t
    or_again-Ended rerr panic f t k = panic-Gives t

  -- A round of the loop that stops has set the phase to failed. A round that deletes all members
  -- and starts a new sync does so only after its reconcile found fewer members running than a
  -- quorum, and has set the phase to failed too. Every other round goes on.
  pub round-Ended :
      (keep_failed : Bool) (rerr : Option Err) (s : State World) (n : Next)
      → (round api keep_failed rerr s).0 ≡ ok n
      → Ended (LostQuorum keep_failed s) n (round api keep_failed rerr s).1
  unfolding round then_poll
  round-Ended keep_failed rerr s =
      let L : State World → Type 0 = LostQuorum keep_failed s in
      or_again-Ended L rerr (fetch_cluster api s).0 _ (fetch_cluster api s).1 λ _ _.
        or_again-Ended L rerr (poll_pods api (fetch_cluster api s).1).0
          (after_poll api keep_failed rerr) (poll_pods api (fetch_cluster api s).1).1
          λ polled found. after_poll-Ended L keep_failed rerr polled _ λ t from few. record {
            polled = polled;
            found = found;
            before = t;
            prepared = from;
            few = few;
            deleted = refl;
          }
