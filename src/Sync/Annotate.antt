-- ===== src/Sync/Annotate.antt =====
-- The annotation that keeps the last applied specification, and the comparisons that read it:
-- pkg/manager/component/utils.go.
use cloudpods_operator.Prelude.{
  ℕ, String, Bool, true, false, ◌&&◌, Option, none, some, str_eq, ◌==◌,
}
use cloudpods_operator.Exec.{other_error, api_error, Outcome, ok, err}
use cloudpods_operator.Etcd.Types.{Labels}
use cloudpods_operator.Sync.Objects.{
  find, put, labels_of, Template, ServiceObject, IngressObject, DaemonSet, CronJob, Deployment,
  ConfigMap,
}
use cloudpods_operator.Sync.Kube.{Kube, Codec}

infixl 5 ◌>>=◌
abbrev ◌>>=◌ : {A B : Type 0} → Option A → (A → Option B) → Option B
none >>= f = none
some a >>= f = f a

-- LastAppliedConfigAnnotation
abbrev pub last_applied : String
last_applied = "onecloud.yunion.io/last-applied-configuration"

-- `*int32`s are compared by what they point to.
unfoldable pub same_replicas : Option ℕ → Option ℕ → Bool
same_replicas none none = true
same_replicas (some a) (some b) = a == b
same_replicas none (some b) = false
same_replicas (some a) none = false

-- A Go map with the text under the annotation's key; a nil map is made first.
abbrev pub annotated : String → Labels → Labels
annotated text annotations = put last_applied text annotations

-- What the annotation says: nothing, a text that JSON refuses, or a specification.
pub data Applied (A : Type 0) : Type 0 where
  never refused : Applied A
  applied : A → Applied A

abbrev decoded : {A : Type 0} → Option A → Applied A
decoded none = refused
decoded (some a) = applied a

abbrev read : {A : Type 0} → Codec A → Option String → Applied A
read codec none = never
read codec (some text) = decoded (codec.decode text)

abbrev pub applied_of : {A : Type 0} → Codec A → Labels → Applied A
applied_of codec annotations = read codec (find last_applied annotations)

-- Services, ingresses: a text that JSON refuses is an error.
abbrev pub verdict : {A : Type 0} → (A → Bool) → Applied A → Outcome Bool
verdict test never = ok false
verdict test refused = err (api_error other_error)
verdict test (applied old) = ok (test old)

-- Deployments, daemon sets, cron jobs: it is not equal.
abbrev pub lenient : {A : Type 0} → (A → Bool) → Applied A → Bool
lenient test never = false
lenient test refused = false
lenient test (applied old) = test old

module _ (kube : Kube) where
  open kube use {
    P, service_codec, daemon_set_codec, cron_job_codec, deployment_codec, plain, same, same_service,
    same_template,
  }

  unfoldable pub set_service_last_applied : ServiceObject P → Option (ServiceObject P)
  set_service_last_applied svc = do
    text ← service_codec.encode svc.spec
    some (record svc { annotations = annotated text svc.annotations })

  unfoldable pub set_ingress_last_applied : IngressObject P → Option (IngressObject P)
  set_ingress_last_applied ing = do
    text ← plain.encode ing.spec
    some (record ing { annotations = annotated text ing.annotations })

  unfoldable pub set_config_map_last_applied : ConfigMap P → Option (ConfigMap P)
  set_config_map_last_applied cfg = do
    text ← plain.encode cfg.contents
    some (record cfg { annotations = annotated text cfg.annotations })

  -- The text of the pod specification goes on the pod template.
  abbrev pub mark_template : String → Template P → Template P
  mark_template text template = record template {
    annotations = some (annotated text (labels_of template.annotations));
  }

  unfoldable pub set_deployment_last_applied : Deployment P → Option (Deployment P)
  set_deployment_last_applied deploy = do
    text ← deployment_codec.encode deploy.spec
    pod ← plain.encode deploy.spec.template.spec
    some (record deploy {
      annotations = annotated text deploy.annotations;
      spec = record (deploy.spec) { template = mark_template pod deploy.spec.template };
    })

  unfoldable pub set_daemon_set_last_applied : DaemonSet P → Option (DaemonSet P)
  set_daemon_set_last_applied ds = do
    text ← daemon_set_codec.encode ds.spec
    pod ← plain.encode ds.spec.template.spec
    some (record ds {
      annotations = annotated text ds.annotations;
      spec = record (ds.spec) { template = mark_template pod ds.spec.template };
    })

  -- The second text goes on the job template, not on its pod template.
  unfoldable pub set_cron_job_last_applied : CronJob P → Option (CronJob P)
  set_cron_job_last_applied job = do
    text ← cron_job_codec.encode job.spec
    pod ← plain.encode job.spec.rest
    some (record job {
      annotations = annotated text job.annotations;
      spec = record (job.spec) { job_annotations = annotated pod job.spec.job_annotations };
    })

  unfoldable pub service_equal : ServiceObject P → ServiceObject P → Outcome Bool
  service_equal new old =
      verdict (λ spec. same_service spec new.spec) (applied_of service_codec old.annotations)

  unfoldable pub ingress_equal : IngressObject P → IngressObject P → Outcome Bool
  ingress_equal new old = verdict (λ spec. same spec new.spec) (applied_of plain old.annotations)

  unfoldable pub deployment_equal : Deployment P → Deployment P → Bool
  unfolding same_replicas
  deployment_equal new old =
      lenient
        (λ spec.
          same_replicas spec.replicas new.spec.replicas
          && (same_template spec.template new.spec.template
              && same spec.strategy new.spec.strategy))
        (applied_of deployment_codec old.annotations)

  unfoldable pub daemon_set_equal : DaemonSet P → DaemonSet P → Bool
  daemon_set_equal new old =
      lenient
        (λ spec.
          same_template spec.template new.spec.template
          && same spec.update_strategy new.spec.update_strategy)
        (applied_of daemon_set_codec old.annotations)

  unfoldable pub cron_job_equal : CronJob P → CronJob P → Bool
  cron_job_equal new old =
      lenient
        (λ spec.
          str_eq spec.schedule new.spec.schedule && same_template spec.template new.spec.template)
        (applied_of cron_job_codec old.annotations)
