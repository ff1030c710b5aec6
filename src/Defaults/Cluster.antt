-- ===== src/Defaults/Cluster.antt =====
-- `SetDefaults_OnecloudCluster` of pkg/apis/onecloud/v1alpha1/defaults.go, under the mutex that it
-- takes.
use Prim.Native.String.{◌++◌ as join}
use cloudpods_operator.Prelude.{ℕ, String, Bool, Option, some, is_some, if◌then◌else◌}
use cloudpods_operator.Etcd.Types.{Labels}
use cloudpods_operator.Sync.Objects.{find, put, labels_of}
use cloudpods_operator.Defaults.Types.{OnecloudCluster}
use cloudpods_operator.Defaults.Image.{is_enterprise_edition, is_ee_or_ese_edition}
use cloudpods_operator.Defaults.Tables.{Orders}
use cloudpods_operator.Defaults.Spec.{default_spec}

unfoldable pub instance_label_key : String
instance_label_key = "app.kubernetes.io/instance"

-- A cluster without the label gets one that is made of its name; its other labels are kept.
unfoldable pub set_instance_label : String → Option Labels → Option Labels
unfolding find put instance_label_key
set_instance_label name labels =
    if is_some (find instance_label_key (labels_of labels))
    then labels
    else some (put instance_label_key (join "onecloud-cluster-" name) (labels_of labels))

module _ {P : Type 0} (clear : Bool) (o : Orders) (draw : ℕ → String) where
  unfoldable pub default_cluster : OnecloudCluster P × ℕ → OnecloudCluster P × ℕ
  unfolding set_instance_label is_enterprise_edition is_ee_or_ese_edition default_spec
  default_cluster s =
      let ee = is_enterprise_edition s.0.annotations in
      let support = is_ee_or_ese_edition s.0.annotations in
      let set = default_spec clear o ee support draw (s.0.spec, s.1) in
      (record s.0 { labels = set_instance_label s.0.name s.0.labels; spec = set.0 }, set.1)
