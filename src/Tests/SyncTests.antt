-- ===== src/Tests/SyncTests.antt =====
-- Syncing the objects of pkg/manager/component/component.go against a small API server.
use cloudpods_operator.Prelude.{String, ◌≡◌, refl, ◌↔◌, true, false, some, [], ◌∷◌}
use cloudpods_operator.Etcd.Types.{Labels}
use cloudpods_operator.Sync.Objects.{find, combine_annotations, selector_matches_labels}
use cloudpods_operator.Sync.Component.{sync_component, is_in_product_version}
use cloudpods_operator.Sync.Maps.{
  HasDistinctKeys, or_else, find-combine_annotations, selector_matches_labels_iff,
}
use cloudpods_operator.Sync.Outside.{OnlyDeletes, sync_component-outside}
use cloudpods_operator.Tests.SyncFixtures.{small_kube, full_stack, cmp_only, no_flags, Unwritten}

cmp_only-OnlyDeletes : OnlyDeletes small_kube no_flags cmp_only Unwritten
cmp_only-OnlyDeletes = record {
  reads_config = λ w i. i;
  reads_service = λ n w i. i;
  deletes_service = λ n w i. i;
  reads_ingress = λ n w i. i;
  deletes_ingress = λ n w i. i;
  reads_daemon_set = λ n w i. i;
  deletes_daemon_set = λ n w i. i;
  reads_cron_job = λ n w i. i;
  deletes_cron_job = λ n w i. i;
  reads_deployment = λ n w i. i;
  deletes_deployment = λ n w i. i;
  makes_deployment = λ oc cfg zone w i. i;
  makes_daemon_set = λ oc cfg zone w i. i;
  makes_cron_job = λ oc cfg zone w i. i;
}

full_stack-outside : is_in_product_version small_kube no_flags cmp_only full_stack ≡ false
unfolding is_in_product_version
full_stack-outside = refl

sync_component-outside_example : (sync_component small_kube no_flags cmp_only full_stack "" 0).1 ≡ 0
sync_component-outside_example =
    sync_component-outside small_kube no_flags cmp_only Unwritten cmp_only-OnlyDeletes full_stack ""
      full_stack-outside 0 refl

abbrev app_labels : Labels
app_labels = ("app", "region") ∷ ("instance", "one") ∷ []

app_selector-distinct : HasDistinctKeys (("app", "region") ∷ [])
unfolding find
app_selector-distinct = (refl, tt)

selector_matches_labels_iff_example :
    (selector_matches_labels (some (("app", "region") ∷ [])) app_labels ≡ true)
    ↔ ((k v : String) → find k (("app", "region") ∷ []) ≡ some v → find k app_labels ≡ some v)
selector_matches_labels_iff_example =
    selector_matches_labels_iff (("app", "region") ∷ []) app_labels app_selector-distinct

web_annotations-distinct : HasDistinctKeys (("app", "web") ∷ [])
unfolding find
web_annotations-distinct = (refl, tt)

find-combine_annotations_example :
    find "app" (combine_annotations app_labels (("app", "web") ∷ []))
    ≡ or_else (find "app" (("app", "web") ∷ [])) (find "app" app_labels)
find-combine_annotations_example =
    find-combine_annotations "app" app_labels (("app", "web") ∷ []) web_annotations-distinct
