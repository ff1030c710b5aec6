-- ===== src/Tests/SpecTests.antt =====
-- The specification and the pods of pkg/manager/component/etcd.go at concrete inputs.
use cloudpods_operator.Prelude.{
  ◌*◌, ◌^◌, ◌≤◌, ◌<◌, ◌≡◌, refl, ◌⊎◌, ◌↔◌, String, true, false, some, List, [], ◌∷◌, arith,
}
use cloudpods_operator.Etcd.Types.{
  unset, Pod, pod_running, pod_pending, pod_succeeded, pod_unknown, EtcdSpec,
}
use cloudpods_operator.Etcd.Manager.Spec.{
  default_quota, backend_quota_size, fixed_size, adjust_spec,
}
use cloudpods_operator.Etcd.Manager.Pods.{sort_pods}
use cloudpods_operator.Etcd.Behaviour.Spec.{
  backend_quota_size-bounds, backend_quota_size-exact, fixed_size-range, adjust_spec-adjust_spec,
}
use cloudpods_operator.Etcd.Behaviour.Pods.{
  is_running, is_pending, is_broken, chosen, counts, sort_pods-select,
}
use cloudpods_operator.Tests.Fixtures.{three_spec, cluster_in, pod_named}

-- 2^54 + 1 mebibytes overflow an int64 to one mebibyte, which is too little.
abbrev huge_spec : EtcdSpec
huge_spec = record three_spec { backend_quota_size = some 18014398509481985 }

backend_quota_size-bounds_example :
    (default_quota ≤ backend_quota_size huge_spec) × (backend_quota_size huge_spec < 2 ^ 63)
backend_quota_size-bounds_example = backend_quota_size-bounds huge_spec

backend_quota_size-exact_example :
    ((128 ≤ 256) × (backend_quota_size three_spec ≡ 256 * 1048576))
    ⊎ ((256 < 128) × (backend_quota_size three_spec ≡ default_quota))
backend_quota_size-exact_example = backend_quota_size-exact three_spec 256 refl (omega arith)

fixed_size-range_example :
    ((5 < 3) × (fixed_size 5 2 ≡ 1)) ⊎ ((3 ≤ 5) × (3 ≤ fixed_size 5 2) × (2 ≤ fixed_size 5 2))
fixed_size-range_example = fixed_size-range 5 2

adjust_spec-adjust_spec_example :
    adjust_spec 1 (adjust_spec 1 (cluster_in unset)).0
    ≡ ((adjust_spec 1 (cluster_in unset)).0, false)
adjust_spec-adjust_spec_example = adjust_spec-adjust_spec 1 (cluster_in unset)

abbrev mixed_pods : List Pod
mixed_pods =
    pod_named "a" pod_running
    ∷ pod_named "b" pod_pending
    ∷ pod_named "c" pod_succeeded
    ∷ pod_named "d" pod_unknown
    ∷ []

sort_pods-select_example :
    (sort_pods "u1" mixed_pods ≡ record {
      running = chosen is_running "u1" mixed_pods;
      pending = chosen is_pending "u1" mixed_pods;
      failed = chosen is_broken "u1" mixed_pods;
    })
    × ((p : Pod)
        → (counts "u1" p ≡ true)
          ↔ ((p.deleting ≡ false) × (rest : List String) × (p.owners ≡ "u1" ∷ rest)))
sort_pods-select_example = sort_pods-select "u1" mixed_pods
