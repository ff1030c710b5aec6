-- ===== src/Sync/Kube.antt =====
-- What syncing a component calls outside itself: the listers and the controls of the Kubernetes API
-- server, JSON, `DeepEqual`, and what the component's own factory functions give.
use cloudpods_operator.Prelude.{String, Bool, Option, none, some}
use cloudpods_operator.Exec.{
  Reply, good, bad, ApiError, not_found, Outcome, ok, err, api_error, Exec, Void,
}
use cloudpods_operator.Sync.Objects.{
  Template, ServiceSpec, ServiceObject, IngressObject, DaemonSetSpec, DaemonSet, CronJobSpec,
  CronJob, DeploymentSpec, Deployment, ConfigMap, Claim,
}

-- The lister and the control of one kind of object.
pub record Store (W Obj : Type 0) : Type 0 where
  pub get : String → W → Reply Obj × W
  pub create : Obj → W → Reply Void × W
  pub update : Obj → W → Reply Void × W
  pub delete : String → W → Reply Void × W

-- `json.Marshal` and `json.Unmarshal` on a type.
pub record Codec (A : Type 0) : Type 0 where
  pub encode : A → Option String
  pub decode : String → Option A

pub record Kube : Type 1 where
  pub World : Type 0
  pub P : Type 0
  pub Config : Type 0
  pub services : Store World (ServiceObject P)
  pub ingresses : Store World (IngressObject P)
  pub daemon_sets : Store World (DaemonSet P)
  pub cron_jobs : Store World (CronJob P)
  pub deployments : Store World (Deployment P)
  pub config_maps : Store World (ConfigMap P)
  pub claims : Store World (Claim P)
  pub service_codec : Codec (ServiceSpec P)
  pub daemon_set_codec : Codec (DaemonSetSpec P)
  pub cron_job_codec : Codec (CronJobSpec P)
  pub deployment_codec : Codec (DeploymentSpec P)
  pub plain : Codec P
  -- `apiequality.Semantic.DeepEqual`
  pub same : P → P → Bool
  pub same_service : ServiceSpec P → ServiceSpec P → Bool
  pub same_template : Template P → Template P → Bool
  pub get_config : World → Reply Config × World

abbrev pub answer {ℓ} : {A : Type ℓ} → Reply A → Outcome A
answer (good a) = ok a
answer (bad e) = err (api_error e)

abbrev pub ask : {W A : Type 0} → (W → Reply A × W) → Exec W A
ask f s = (answer (f s).0, (f s).1)

-- A lister's answer where `IsNotFound` is told apart.
abbrev pub found : {A : Type 0} → Reply A → Outcome (Option A)
found (good a) = ok (some a)
found (bad not_found) = ok none
found (bad e) = err (api_error e)

abbrev pub look_up : {W A : Type 0} → (W → Reply A × W) → Exec W (Option A)
look_up f s = (found (f s).0, (f s).1)

-- An encoding that fails ends the method with its error.
abbrev pub encoded : {A : Type 0} → Option A → Outcome A
encoded (some a) = ok a
encoded none = err (api_error ApiError.other_error)
