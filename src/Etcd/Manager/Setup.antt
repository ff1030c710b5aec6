-- ===== src/Etcd/Manager/Setup.antt =====
-- How a run is set up: `setup`, `create`, `startSeedMember` and the start of `sync` of
-- pkg/manager/component/etcd.go.
use cloudpods_operator.Prelude.{Bool, true, false, some, [], ◌∷◌, if◌then◌else◌}
use cloudpods_operator.Exec.{
  Err, created_cluster, unexpected_phase, in_context, Outcome, ok, err, panic, Exec, Void, ◌>>=◌,
  ◌>>◌, annotate, ignore, skip, fail, pure,
}
use cloudpods_operator.Etcd.Member.{unique_member_name}
use cloudpods_operator.Etcd.MemberSet.{new_member_set}
use cloudpods_operator.Etcd.Types.{Cluster, Phase, unset, creating, running, failed, other}
use cloudpods_operator.Etcd.Api.{Api, State, call, draw, get, modify, modify_status}
use cloudpods_operator.Etcd.Manager.Spec.{is_secure, etcd_cluster_prefix}
use cloudpods_operator.Etcd.Manager.Pods.{create_pod, update_etcd_status}
use cloudpods_operator.Etcd.Manager.Members.{member_for}

-- What the loop does with the error of a step: `rerr` of the source.
pub data Tried : Type 0 where
  fine : Tried
  caught : Err → Tried

abbrev attempted : Outcome Void → Outcome Tried
attempted (ok _) = ok fine
attempted (err e) = ok (caught e)
attempted panic = panic

abbrev pub attempt : {S : Type 0} → Exec S Void → Exec S Tried
attempt m s = (attempted (m s).0, (m s).1)

-- `setup` starts from the phase that the cluster's status shows.
pub data Start : Type 0 where
  create_first resume : Start
  refuse : Err → Start

unfoldable pub start_of : Phase → Start
start_of unset = create_first
start_of failed = create_first
start_of creating = refuse created_cluster
start_of running = resume
start_of (other p) = refuse unexpected_phase

abbrev pub is_failed : Phase → Bool
is_failed failed = true
is_failed _ = false

module _ (api : Api) where
  open api use {World, member_suffix, get_tls_secret, new_tls_config}

  unfoldable pub load_tls : Exec (State World) Void
  load_tls = do
    m ← get
    secret ← call (get_tls_secret m.oc.namespace)
    config ← call (new_tls_config secret)
    modify (λ r. record r { tls_config = some config })

  unfoldable pub start_seed_member : Exec (State World) Void
  start_seed_member = do
    m ← get
    suffix ← draw member_suffix
    let mb = member_for m.oc (unique_member_name (etcd_cluster_prefix m.oc) suffix) 0
    annotate in_context (create_pod api (new_member_set (mb ∷ [])) mb "new")
    modify (λ r. record r { members = some (new_member_set (mb ∷ [])) })

  unfoldable pub create : Exec (State World) Void
  create = do
    modify_status (λ st. record st { phase = creating })
    annotate in_context (update_etcd_status api)
    start_seed_member
    modify_status (λ st. record st { size = 1 })

  -- The part of `setup` after the switch on the phase.
  unfoldable pub prepare : Bool → Exec (State World) Void
  prepare should_create = do
    m ← get
    if is_secure m.oc then load_tls else skip
    if should_create then create else skip

  unfoldable pub setup_from : Start → Exec (State World) Void
  setup_from create_first = prepare true
  setup_from resume = prepare false
  setup_from (refuse e) = fail e

  unfoldable pub setup : Exec (State World) Void
  setup = do m ← get; setup_from (start_of m.status.phase)

  unfoldable pub report_setup_failure : Err → Exec (State World) Void
  report_setup_failure e = do
    m ← get
    if is_failed m.status.phase then skip else (do
      modify_status (λ st. record st { phase = failed; reason = some e })
      ignore (update_etcd_status api))

  unfoldable pub after_setup : Tried → Exec (State World) Bool
  after_setup fine = pure true
  after_setup (caught e) = do report_setup_failure e; pure false

  -- `sync` up to the call of `run`; the value says whether `run` is called. `setUnsync` is
  -- deferred, so it runs after `run` or, if that is not called, at once.
  unfoldable pub begin_sync : Cluster → Exec (State World) Bool
  begin_sync oc = do
    modify (λ r. record r { syncing = true; oc = oc; status = oc.status })
    t ← attempt setup
    after_setup t
