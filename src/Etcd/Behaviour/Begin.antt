-- ===== src/Etcd/Behaviour/Begin.antt =====
-- How `sync` of pkg/manager/component/etcd.go begins: the report of a setup that failed, and
-- whether the sync goes on to `run`.
use cloudpods_operator.Prelude.{◌≡◌, Bool, true, false, Option}
use cloudpods_operator.Exec.{done, Outcome, ok, Void}
use cloudpods_operator.Exec.Returns.{Returns}
use cloudpods_operator.Etcd.Types.{EtcdStatus, failed}
use cloudpods_operator.Etcd.MemberSet.{MemberSet}
use cloudpods_operator.Etcd.Api.{Api, State}
use cloudpods_operator.Etcd.Behaviour.Setup.{InPhase, Ready}

module _ (api : Api) where
  open api use {World}

  -- A setup that failed is reported without a panic, and the phase is then failed.
  record Reported (r : Outcome Void × State World) : Type 0 where
    reported : r.0 ≡ done
    shown : InPhase api failed r.1

  -- How the start of a sync ends: with a cluster to run, or with the phase failed.
  pub data Begun (ms : Option MemberSet) (st : EtcdStatus) : Bool → State World → Type 0 where
    proceeds : {t : State World} → Ready api ms st t → Begun ms st true t
    gives_up : {t : State World} → InPhase api failed t → Begun ms st false t

  pub record Ends (ms : Option MemberSet) (st : EtcdStatus) (r : Outcome Bool × State World)
      : Type 0 where
    pub goes_on : Bool
    pub returned : r.0 ≡ ok goes_on
    pub begun : Begun ms st goes_on r.1
