-- ===== src/Defaults/Again.antt =====
-- `SetDefaults_OnecloudCluster` called a second time.
use cloudpods_operator.Prelude.{
  ℕ, String, ◌≡◌, refl, ◌≢◌, ◌∙◌, ap, false, Bool-cases, inl, inr, Option, is_some,
}
use cloudpods_operator.Etcd.Types.{Labels}
use cloudpods_operator.Sync.Objects.{find, labels_of}
use cloudpods_operator.Sync.Maps.{find-put}
use cloudpods_operator.Defaults.Types.{OnecloudCluster, OnecloudClusterSpec}
use cloudpods_operator.Defaults.Image.{is_enterprise_edition, is_ee_or_ese_edition}
use cloudpods_operator.Defaults.Tables.{Orders}
use cloudpods_operator.Defaults.Spec.{default_spec}
use cloudpods_operator.Defaults.Cluster.{instance_label_key, set_instance_label, default_cluster}
use cloudpods_operator.Defaults.Twice.{IsOrder, default_spec-default_spec}

set_instance_label-settled :
    (name : String) (labels : Option Labels)
    → set_instance_label name (set_instance_label name labels) ≡ set_instance_label name labels
unfolding set_instance_label
set_instance_label-settled name labels =
    elim (Bool-cases (is_some (find instance_label_key (labels_of labels)))) [
      | inl labelled ↦ rw labelled (rw labelled refl)
      | inr bare ↦ rw bare (rw (find-put instance_label_key) refl)
    ]

abbrev completed :
    {P : Type 0}
    → OnecloudCluster P
    → Option Labels
    → OnecloudClusterSpec P × ℕ
    → OnecloudCluster P × ℕ
completed oc labels s = (record oc { labels = labels; spec = s.0 }, s.1)

-- The defaults are settled after the first time: where ClearComponent is off, a second call, on the
-- result of the first, changes no field of the cluster, its labels included, and draws no password,
-- in whatever order either call visits its maps. It takes a source of passwords that are not empty.
pub default_cluster-default_cluster :
    {P : Type 0} (o o' : Orders) (draw : ℕ → String) (oc : OnecloudCluster P) (n : ℕ)
    → IsOrder o
    → IsOrder o'
    → ((m : ℕ) → draw m ≢ "")
    → default_cluster false o' draw (default_cluster false o draw (oc, n))
      ≡ default_cluster false o draw (oc, n)
unfolding default_cluster
default_cluster-default_cluster {P} o o' draw oc n is is' drawn =
    let ee = is_enterprise_edition oc.annotations in
    let support = is_ee_or_ese_edition oc.annotations in
    let once = default_spec false o ee support draw (oc.spec, n) in
    ap (λ labels. completed oc labels (default_spec false o' ee support draw once))
      (set_instance_label-settled oc.name oc.labels)
    ∙ ap (completed oc (set_instance_label oc.name oc.labels))
        (default_spec-default_spec o o' ee support draw oc.spec n is is' drawn)
