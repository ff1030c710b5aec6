-- ===== src/Build/Rollout.antt =====
-- Whether a deployment is rolled out: `deploymentIsRollout` and `deploymentIsUpgrading` of
-- pkg/manager/component/utils.go.
use cloudpods_operator.Prelude.{
  ℕ, ◌≤◌, String, Bool, true, false, not, Option, none, some, List, [], ◌∷◌, ◌≡◌, refl, ◌↔◌, ltb,
  leb, str_eq, if◌then◌else◌, arith,
}
use cloudpods_operator.Exec.{in_context, api_error, ApiError, Outcome, ok, err, panic}

pub record DeploymentCondition : Type 0 where
  pub kind : String
  pub reason : String

-- The generation and the replicas that are asked for, and the status.
pub record RolloutState : Type 0 where
  pub generation : ℕ
  pub wanted : Option ℕ
  pub observed_generation : ℕ
  pub replicas : ℕ
  pub updated : ℕ
  pub available : ℕ
  pub conditions : List DeploymentCondition

unfoldable pub get_deployment_condition :
    List DeploymentCondition → String → Option DeploymentCondition
get_deployment_condition [] kind = none
get_deployment_condition (c ∷ cs) kind =
    let later = get_deployment_condition cs kind in if str_eq c.kind kind then some c else later

abbrev pub timed_out : Option DeploymentCondition → Bool
timed_out none = false
timed_out (some c) = str_eq c.reason "ProgressDeadlineExceeded"

abbrev pub fewer_than_wanted : ℕ → Option ℕ → Bool
fewer_than_wanted updated none = false
fewer_than_wanted updated (some wanted) = ltb updated wanted

unfoldable pub deployment_is_rollout : RolloutState → Outcome Bool
unfolding get_deployment_condition
deployment_is_rollout d =
    if leb d.generation d.observed_generation
    then (if timed_out (get_deployment_condition d.conditions "Progressing")
        then err (in_context (api_error ApiError.other_error))
        else if fewer_than_wanted d.updated d.wanted
        then ok false
        else if ltb d.updated d.replicas
        then ok false
        else if ltb d.available d.updated
        then ok false
        else ok true)
    else ok false

abbrev pub is_done : Outcome Bool → Bool
is_done (ok b) = b
is_done (err e) = false
is_done panic = false

unfoldable pub deployment_is_upgrading : RolloutState → Bool
unfolding deployment_is_rollout
deployment_is_upgrading d = not (is_done (deployment_is_rollout d))

-- What a complete roll-out is: the wanted state is the one that was observed, every replica is of
-- it and available, none is left of an older one, and the progress has not stopped.
pub record RolledOut (d : RolloutState) : Type 0 where
  pub observed : d.generation ≤ d.observed_generation
  pub progressing : timed_out (get_deployment_condition d.conditions "Progressing") ≡ false
  pub all_updated : (n : ℕ) → d.wanted ≡ some n → n ≤ d.updated
  pub none_old : d.replicas ≤ d.updated
  pub all_available : d.updated ≤ d.available

wanted_iff :
    (updated : ℕ) (wanted : Option ℕ)
    → (fewer_than_wanted updated wanted ≡ false) ↔ ((n : ℕ) → wanted ≡ some n → n ≤ updated)
wanted_iff updated none = ((λ h n e. absurd (cc)), λ h. refl)
wanted_iff updated (some w) = ((λ h n e. ground arith), λ h. let le = h w refl in ground arith)

tests_hold :
    (d : RolloutState)
    → deployment_is_upgrading d ≡ false
    → (d.generation ≤ d.observed_generation)
      × (timed_out (get_deployment_condition d.conditions "Progressing") ≡ false)
      × (fewer_than_wanted d.updated d.wanted ≡ false)
      × (d.replicas ≤ d.updated)
      × (d.updated ≤ d.available)
unfolding deployment_is_upgrading
tests_hold d h = ground arith

tests_pass :
    (d : RolloutState)
    → d.generation ≤ d.observed_generation
    → timed_out (get_deployment_condition d.conditions "Progressing") ≡ false
    → fewer_than_wanted d.updated d.wanted ≡ false
    → d.replicas ≤ d.updated
    → d.updated ≤ d.available
    → deployment_is_upgrading d ≡ false
unfolding deployment_is_upgrading
tests_pass d a b c e f = ground arith

-- A deployment counts as upgrading exactly where it is not rolled out completely: its wanted state
-- was not observed, its progress has stopped, or a replica is missing, old or not available.
pub deployment_is_upgrading_iff :
    (d : RolloutState) → (deployment_is_upgrading d ≡ false) ↔ RolledOut d
deployment_is_upgrading_iff d = (
  (λ h.
      let (a, b, c, e, f) = tests_hold d h in
      record {
        observed = a;
        progressing = b;
        all_updated = (wanted_iff d.updated d.wanted).0 c;
        none_old = e;
        all_available = f;
      }),
  (λ r.
      tests_pass d r.observed r.progressing ((wanted_iff d.updated d.wanted).1 r.all_updated)
        r.none_old r.all_available),
)
