-- ===== src/Sync/Objects.antt =====
-- The Kubernetes objects that the components are made of, as far as pkg/manager/component reads and
-- writes them. `P` stands for the parts that are only copied, encoded and compared.
use cloudpods_operator.Prelude.{
  ℕ, String, Bool, true, false, ◌&&◌, Option, none, some, [], ◌∷◌, str_eq, if◌then◌else◌,
}
use cloudpods_operator.Etcd.Types.{Labels}

-- A read of a Go map.
unfoldable pub find : String → Labels → Option String
find key [] = none
find key ((k, v) ∷ rest) = let found = find key rest in if str_eq key k then some v else found

-- A write to a Go map.
unfoldable pub put : String → String → Labels → Labels
put key value [] = (key, value) ∷ []
put key value ((k, v) ∷ rest) =
    let changed = put key value rest in if str_eq key k then (k, value) ∷ rest else (k, v) ∷ changed

-- `CombineAnnotations`: every entry of `b` is written into `a`.
unfoldable pub combine_annotations : Labels → Labels → Labels
unfolding put
combine_annotations a [] = a
combine_annotations a ((k, v) ∷ b) = combine_annotations (put k v a) b

abbrev pub labels_of : Option Labels → Labels
labels_of none = []
labels_of (some m) = m

-- `PodTemplateSpec`; `none` for the annotations is Go's nil map.
pub record Template (P : Type 0) : Type 0 where
  pub labels : Labels
  pub annotations : Option Labels
  pub spec : P

pub record ServiceSpec (P : Type 0) : Type 0 where
  pub cluster_ip : String
  pub rest : P

pub record ServiceObject (P : Type 0) : Type 0 where
  pub name : String
  pub annotations : Labels
  pub spec : ServiceSpec P

pub record IngressObject (P : Type 0) : Type 0 where
  pub name : String
  pub annotations : Labels
  pub spec : P

pub record DaemonSetSpec (P : Type 0) : Type 0 where
  pub selector : Option Labels
  pub template : Template P
  pub update_strategy : P
  pub rest : P

pub record DaemonSet (P : Type 0) : Type 0 where
  pub name : String
  pub annotations : Labels
  pub spec : DaemonSetSpec P

-- The job template's own annotations, its pod template, and what else there is.
pub record CronJobSpec (P : Type 0) : Type 0 where
  pub schedule : String
  pub job_annotations : Labels
  pub template : Template P
  pub rest : P

pub record CronJob (P : Type 0) : Type 0 where
  pub name : String
  pub annotations : Labels
  pub spec : CronJobSpec P

pub record DeploymentSpec (P : Type 0) : Type 0 where
  pub replicas : Option ℕ
  pub selector : Option Labels
  pub template : Template P
  pub strategy : P
  pub rest : P

pub record Deployment (P : Type 0) : Type 0 where
  pub name : String
  pub annotations : Labels
  pub spec : DeploymentSpec P

pub record ConfigMap (P : Type 0) : Type 0 where
  pub name : String
  pub annotations : Labels
  pub contents : P

pub record Claim (P : Type 0) : Type 0 where
  pub name : String
  pub rest : P

-- `selectorMatchesLabels`: every pair of the selector is among the labels.
abbrev pub has_value : Option String → String → Bool
has_value none v = false
has_value (some value) v = str_eq value v

unfoldable pub all_match : Labels → Labels → Bool
unfolding find
all_match [] labels = true
all_match ((k, v) ∷ rest) labels = has_value (find k labels) v && all_match rest labels

unfoldable pub selector_matches_labels : Option Labels → Labels → Bool
unfolding all_match
selector_matches_labels none labels = true
selector_matches_labels (some selector) labels = all_match selector labels
