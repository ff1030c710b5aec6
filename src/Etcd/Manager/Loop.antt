-- ===== src/Etcd/Manager/Loop.antt =====
-- One round of the loop of `run` in pkg/manager/component/etcd.go.
use cloudpods_operator.Prelude.{
  Bool, true, false, ◌||◌, Option, none, some, List, [], ◌∷◌, if◌then◌else◌, is_some, is_none,
  is_empty,
}
use cloudpods_operator.Exec.{
  Err, lost_quorum, cause, Outcome, ok, err, panic, Exec, Void, ◌>>=◌, ◌>>◌, ignore, skip, pure,
  for_each,
}
use cloudpods_operator.Etcd.Types.{failed, Pod}
use cloudpods_operator.Etcd.Api.{Api, State, get, modify_status}
use cloudpods_operator.Etcd.Manager.Pods.{
  Polled, remove_pod, poll_pods, fetch_cluster, update_etcd_status, update_member_status,
}
use cloudpods_operator.Etcd.Manager.Members.{clean_all_members, update_members}
use cloudpods_operator.Etcd.Manager.Reconcile.{pods_to_member_set, reconcile}
use cloudpods_operator.Etcd.Manager.Setup.{Tried, fine, caught, attempt}

-- How a round of the loop ends: it goes on with the last error, it stops, or it stops after it has
-- started a new `sync`.
pub data Next : Type 0 where
  again : Option Err → Next
  stopped restarted : Next

abbrev pub is_lost_quorum : Err → Bool
is_lost_quorum lost_quorum = true
is_lost_quorum _ = false

module _ (api : Api) where
  open api use {World}

  unfoldable pub all_dead : Exec (State World) Next
  all_dead = do
    update_member_status api []
    modify_status (λ st. record st { phase = failed })
    ignore (update_etcd_status api)
    pure stopped

  unfoldable pub clean_up : Err → Exec (State World) Next
  clean_up e = do
    t ← attempt (clean_all_members api)
    elim t [ fine ↦ pure restarted | caught _ ↦ pure (again (some e)) ]

  -- The loop after `reconcile`. Where it succeeds `rerr` is nil, so the test `isFatalError(rerr)`
  -- that the source makes there fails.
  unfoldable pub after_reconcile : List Pod → Tried → Exec (State World) Next
  after_reconcile pods fine = do
    update_member_status api pods
    ignore (update_etcd_status api)
    pure (again none)
  after_reconcile pods (caught e) =
      if is_lost_quorum (cause e) then clean_up e else pure (again (some e))

  unfoldable pub reconcile_round : List Pod → Exec (State World) Next
  reconcile_round pods = do t ← attempt (reconcile api pods); after_reconcile pods t

  unfoldable pub after_refresh : List Pod → Tried → Exec (State World) Next
  after_refresh pods fine = reconcile_round pods
  after_refresh pods (caught e) = pure (again (some e))

  -- The members are listed again after an error, and where none are known yet.
  unfoldable pub refresh_members : List Pod → Exec (State World) Void
  refresh_members pods = do m ← get; update_members api (pods_to_member_set m.oc pods [])

  unfoldable pub with_running : Option Err → List Pod → Exec (State World) Next
  with_running rerr [] = all_dead
  with_running rerr (p ∷ ps) = do
    m ← get
    if is_some rerr || is_none m.members
        then (do t ← attempt (refresh_members (p ∷ ps)); after_refresh (p ∷ ps) t)
        else reconcile_round (p ∷ ps)

  unfoldable pub drop_failed : Bool → List Pod → Exec (State World) Void
  drop_failed true pods = skip
  drop_failed false pods = for_each pods (λ p. ignore (remove_pod api p.name))

  unfoldable pub after_poll : Bool → Option Err → Polled → Exec (State World) Next
  after_poll keep_failed rerr polled =
      if is_empty polled.pending
      then (do drop_failed keep_failed polled.failed; with_running rerr polled.running)
      else pure (again rerr)

  -- A step that fails is logged, and the round ends with the old `rerr`.
  unfoldable pub or_again :
      {A : Type 0}
      → Option Err
      → Outcome A
      → (A → Exec (State World) Next)
      → Exec (State World) Next
  or_again rerr (ok a) f = f a
  or_again rerr (err e) f = pure (again rerr)
  or_again rerr panic f = λ s. (panic, s)

  unfoldable pub then_poll : Bool → Option Err → Exec (State World) Next
  then_poll keep_failed rerr s =
      or_again rerr (poll_pods api s).0 (after_poll keep_failed rerr) (poll_pods api s).1

  -- One round of the loop of `run`: `keep_failed` is the flag EtcdKeepFailedPods.
  unfoldable pub round : Bool → Option Err → Exec (State World) Next
  round keep_failed rerr s =
      or_again rerr (fetch_cluster api s).0 (λ _. then_poll keep_failed rerr)
        (fetch_cluster api s).1
