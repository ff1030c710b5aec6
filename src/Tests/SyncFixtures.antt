-- ===== src/Tests/SyncFixtures.antt =====
-- A small API server, and objects of each kind for pkg/manager/component/component.go.
use cloudpods_operator.Prelude.{
  ℕ, zero, suc, ap, sym, String, ◌≡◌, refl, true, false, Option, none, some, [], ◌∷◌, str_eq,
}
use cloudpods_operator.Exec.{good, Void, skip}
use cloudpods_operator.Etcd.Types.{Labels}
use cloudpods_operator.Sync.Objects.{
  Template, ServiceSpec, ServiceObject, DaemonSetSpec, DaemonSet, DeploymentSpec, Deployment,
}
use cloudpods_operator.Sync.Kube.{Kube, Store, Codec}
use cloudpods_operator.Sync.Component.{OnecloudCluster, Flags, Factory}
use cloudpods_operator.Sync.Converge.{RoundTrips}

-- A server that holds one object of each kind; the world counts what was made or changed.
abbrev pub store_of : {A : Type 0} → A → Store ℕ A
store_of object = record {
  get = λ name w. (good object, w);
  create = λ new w. (good tt, 1);
  update = λ new w. (good tt, 1);
  delete = λ name w. (good tt, w);
}

-- Pods without labels and annotations have a text; the opaque parts are the unit type.
abbrev pub plain_text : Option Labels → Labels → Option Labels → Option String
plain_text none [] none = some "text"
plain_text none [] (some m) = none
plain_text none (l ∷ ls) m = none
plain_text (some s) ls m = none

abbrev pub one_text : Option ℕ → Option String → Option String
one_text (some (suc zero)) t = t
one_text (some (suc (suc n))) t = none
one_text (some zero) t = none
one_text none t = none

abbrev pub bare_template : Template Void
bare_template = record { labels = []; annotations = none; spec = tt }

abbrev pub daemon_set_of : Option Labels → Labels → Option Labels → DaemonSetSpec Void
daemon_set_of s ls m = record {
  selector = s;
  template = record { labels = ls; annotations = m; spec = tt };
  update_strategy = tt;
  rest = tt;
}

abbrev pub deployment_of : Option ℕ → Option Labels → Labels → Option Labels → DeploymentSpec Void
deployment_of n s ls m = record {
  replicas = n;
  selector = s;
  template = record { labels = ls; annotations = m; spec = tt };
  strategy = tt;
  rest = tt;
}

abbrev pub daemon_sets_json : Codec (DaemonSetSpec Void)
daemon_sets_json = record {
  encode = λ a. plain_text a.selector a.template.labels a.template.annotations;
  decode = λ text. some (daemon_set_of none [] none);
}

abbrev pub deployments_json : Codec (DeploymentSpec Void)
deployments_json = record {
  encode =
      λ a. one_text a.replicas (plain_text a.selector a.template.labels a.template.annotations);
  decode = λ text. some (deployment_of (some 1) none [] none);
}

abbrev pub services_json : Codec (ServiceSpec Void)
services_json = record {
  encode = λ a. some a.cluster_ip;
  decode = λ text. some (record { cluster_ip = text; rest = tt });
}

daemon_set-text :
    (s : Option Labels) (ls : Labels) (m : Option Labels) (text : String)
    → plain_text s ls m ≡ some text
    → ◌≡◌ {A = Option (DaemonSetSpec Void)}
        (some (daemon_set_of none [] none))
        (some (daemon_set_of s ls m))
daemon_set-text none [] none text e = refl
daemon_set-text none [] (some m) text e = absurd (cc)
daemon_set-text none (l ∷ ls) m text e = absurd (cc)
daemon_set-text (some s) ls m text e = absurd (cc)

pub daemon_sets_json-RoundTrips : RoundTrips daemon_sets_json
daemon_sets_json-RoundTrips a text e =
    daemon_set-text a.selector a.template.labels a.template.annotations text e

deployment-plain_text :
    (s : Option Labels) (ls : Labels) (m : Option Labels) (text : String)
    → plain_text s ls m ≡ some text
    → ◌≡◌ {A = Option (DeploymentSpec Void)}
        (some (deployment_of (some 1) none [] none))
        (some (deployment_of (some 1) s ls m))
deployment-plain_text none [] none text e = refl
deployment-plain_text none [] (some m) text e = absurd (cc)
deployment-plain_text none (l ∷ ls) m text e = absurd (cc)
deployment-plain_text (some s) ls m text e = absurd (cc)

deployment-text :
    (n : Option ℕ) (s : Option Labels) (ls : Labels) (m : Option Labels) (text : String)
    → one_text n (plain_text s ls m) ≡ some text
    → ◌≡◌ {A = Option (DeploymentSpec Void)}
        (some (deployment_of (some 1) none [] none))
        (some (deployment_of n s ls m))
deployment-text (some (suc zero)) s ls m text e = deployment-plain_text s ls m text e
deployment-text (some (suc (suc n))) s ls m text e = absurd (cc)
deployment-text (some zero) s ls m text e = absurd (cc)
deployment-text none s ls m text e = absurd (cc)

pub deployments_json-RoundTrips : RoundTrips deployments_json
deployments_json-RoundTrips a text e =
    deployment-text a.replicas a.selector a.template.labels a.template.annotations text e

pub services_json-RoundTrips : RoundTrips services_json
services_json-RoundTrips a text e = ap (λ (o : Option String). back o) (sym e)
  where
    back : Option String → Option (ServiceSpec Void)
    back none = none
    back (some ip) = some (record { cluster_ip = ip; rest = tt })

abbrev pub old_service : ServiceObject Void
old_service = record {
  name = "region";
  annotations = [];
  spec = record { cluster_ip = "10.0.0.7"; rest = tt };
}

abbrev pub new_service : ServiceObject Void
new_service = record {
  name = "region";
  annotations = [];
  spec = record { cluster_ip = ""; rest = tt };
}

abbrev pub host : DaemonSet Void
host = record { name = "host"; annotations = []; spec = daemon_set_of none [] none }

abbrev pub region : Deployment Void
region = record { name = "region"; annotations = []; spec = deployment_of (some 1) none [] none }

abbrev pub small_kube : Kube
small_kube = record {
  World = ℕ;
  P = Void;
  Config = Void;
  services = store_of old_service;
  ingresses = store_of (record { name = "web"; annotations = []; spec = tt });
  daemon_sets = store_of host;
  cron_jobs = store_of (record {
    name = "job";
    annotations = [];
    spec = record { schedule = ""; job_annotations = []; template = bare_template; rest = tt };
  });
  deployments = store_of region;
  config_maps = store_of (record { name = "region"; annotations = []; contents = tt });
  claims = store_of (record { name = "glance"; rest = tt });
  service_codec = services_json;
  daemon_set_codec = daemon_sets_json;
  cron_job_codec = record { encode = λ a. none; decode = λ text. none };
  deployment_codec = deployments_json;
  plain = record { encode = λ a. some "{}"; decode = λ text. some tt };
  same = λ a b. true;
  same_service = λ a b. str_eq a.cluster_ip b.cluster_ip;
  same_template = λ a b. true;
  get_config = λ w. (good tt, w);
}

-- The text of an annotation.
abbrev pub noted : String → Labels
noted text = ("onecloud.yunion.io/last-applied-configuration", text) ∷ []

abbrev pub marked_template : Template Void
marked_template = record { labels = []; annotations = some (noted "{}"); spec = tt }

abbrev pub written_host : DaemonSet Void
written_host = record host {
  annotations = noted "text";
  spec = record (host.spec) { template = marked_template };
}

abbrev pub written_region : Deployment Void
written_region = record region {
  annotations = noted "text";
  spec = record (region.spec) { template = marked_template };
}

abbrev pub full_stack : OnecloudCluster
full_stack = record {
  product_version = "FullStack";
  clickhouse_host = "";
  zone = "zone0";
  custom_zones = [];
}

-- A component of the CMP version only.
abbrev pub cmp_only : Factory small_kube
cmp_only = record {
  component_type = "region";
  product_versions = "CMP" ∷ [];
  is_disabled = λ oc. false;
  database = λ cfg. none;
  is_dameng = λ oc. false;
  clickhouse = λ cfg. none;
  is_enterprise = λ oc. false;
  account = λ cfg. none;
  ensure_dameng = λ a w. (good tt, w);
  ensure_mysql = λ a w. (good tt, w);
  ensure_clickhouse = λ a w. (good tt, w);
  ensure_account = λ a w. (good tt, w);
  config_map = λ oc cfg zone w. (good none, w);
  claim = λ oc zone w. (good none, w);
  deployment = λ oc cfg zone w. (good (some region), w);
  read_only = λ oc zone d. none;
  post = λ oc zone. skip;
  daemon_set = λ oc cfg zone w. (good (some host), w);
  cron_job = λ oc cfg zone w. (good none, w);
  service = λ oc cfg zone. new_service ∷ [];
  ingress = λ oc zone. none;
  update_ingress = λ oc ing. ing;
  has_phase = λ oc zone. true;
  setup_phase = λ w. (good tt, 1);
  init_system = λ oc w. (good tt, 1);
  sync_client = λ oc. none;
}

abbrev pub no_flags : Flags
no_flags = record { stop_services = false; disable_sync_ingress = false }

abbrev pub Unwritten : ℕ → Type 0
Unwritten w = w ≡ 0
