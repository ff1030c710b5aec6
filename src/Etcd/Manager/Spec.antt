-- ===== src/Etcd/Manager/Spec.antt =====
-- The methods of pkg/manager/component/etcd.go that only read or adjust the specification.
use Prim.Native.String.{◌++◌}
use cloudpods_operator.Prelude.{
  ℕ, ◌*◌, ◌%◌, ◌^◌, String, Bool, true, false, not, ◌&&◌, Option, none, some, str_eq, ltb, ◌==◌,
  if◌then◌else◌,
}
use cloudpods_operator.Etcd.Types.{Cluster, EtcdSpec, PodPolicy}

-- constants.EtcdDefaultClusterSize
abbrev pub default_cluster_size : ℕ
default_cluster_size = 3

abbrev pub image_version : String
image_version = "3.5.12"

abbrev pub default_client_node_port : ℕ
default_client_node_port = 30379

abbrev pub client_port : ℕ
client_port = 2379

-- etcdBackendQuotaSize, 128 MiB
abbrev pub default_quota : ℕ
default_quota = 134217728

-- `a * b` on `int64`, as a bit pattern
abbrev pub mul64 : ℕ → ℕ → ℕ
mul64 a b = a * b % 2 ^ 64

-- `a > b` on `int64` for a `b` that is not negative: a pattern of 2^63 or more is negative
abbrev pub gt64 : ℕ → ℕ → Bool
gt64 a b = ltb b a && ltb a (2 ^ 63)

quota_of : Option ℕ → ℕ
quota_of none = default_quota
quota_of (some mib) =
    let bytes = mul64 (mul64 mib 1024) 1024 in
    if gt64 bytes default_quota then bytes else default_quota

unfoldable pub backend_quota_size : EtcdSpec → ℕ
unfolding quota_of
backend_quota_size spec = quota_of spec.backend_quota_size

abbrev pub enabled_or : Option Bool → Bool
enabled_or none = true
enabled_or (some b) = b

abbrev pub is_secure : Cluster → Bool
is_secure oc = enabled_or oc.etcd.enable_tls

abbrev has_claim : Option PodPolicy → Bool
has_claim none = false
has_claim (some policy) = policy.has_claim_spec

abbrev pub is_pod_pv_enabled : Cluster → Bool
is_pod_pv_enabled oc = has_claim oc.etcd.pod

abbrev pub etcd_cluster_prefix : Cluster → String
etcd_cluster_prefix oc = oc.name ++ "-etcd"

-- The new size of `fixEtcdSize`, for the number of master nodes that the lister gave.
unfoldable pub fixed_size : ℕ → ℕ → ℕ
fixed_size masters size =
    if ltb masters 3
    then 1
    else if ltb size default_cluster_size
    then default_cluster_size
    else size

-- `fixEtcdSize` after the nodes are listed: the cluster, and whether its size has changed.
unfoldable pub fix_etcd_size : ℕ → Cluster → Cluster × Bool
unfolding fixed_size
fix_etcd_size masters oc =
    let new_size = fixed_size masters oc.etcd.size in
    (record oc { etcd = record (oc.etcd) { size = new_size } }, not (new_size == oc.etcd.size))

-- The two defaults that `Sync` sets after the size: version and client port.
unfoldable pub fill_version : Cluster × Bool → Cluster × Bool
fill_version (oc, changed) =
    if str_eq oc.etcd.version ""
    then (record oc { etcd = record (oc.etcd) { version = image_version } }, true)
    else (oc, changed)

unfoldable pub fill_node_port : Cluster × Bool → Cluster × Bool
fill_node_port (oc, changed) =
    if oc.etcd.client_node_port == 0
    then (
      record oc { etcd = record (oc.etcd) { client_node_port = default_client_node_port } },
      true,
    )
    else (oc, changed)

unfoldable pub adjust_spec : ℕ → Cluster → Cluster × Bool
unfolding fill_node_port fill_version fix_etcd_size
adjust_spec masters oc = fill_node_port (fill_version (fix_etcd_size masters oc))
