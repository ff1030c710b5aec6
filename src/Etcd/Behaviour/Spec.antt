-- ===== src/Etcd/Behaviour/Spec.antt =====
-- The quota and the size that pkg/manager/component/etcd.go derives from the specification.
use cloudpods_operator.Prelude.{
  ℕ, ◌*◌, ◌^◌, ◌≤◌, ◌<◌, ◌≡◌, ◌∙◌, sym, ap, ◌⊎◌, inl, inr, Bool, false, Bool-cases, some, arith,
  str_eq, ◌==◌,
}
use cloudpods_operator.Etcd.Types.{Cluster, EtcdSpec}
use cloudpods_operator.Etcd.Manager.Spec.{
  default_quota, backend_quota_size, fixed_size, fix_etcd_size, fill_version, fill_node_port,
  adjust_spec,
}

-- The quota that the manager passes to etcd is never under 128 MiB, and never negative as an int64.
pub backend_quota_size-bounds :
    (spec : EtcdSpec)
    → (default_quota ≤ backend_quota_size spec) × (backend_quota_size spec < 2 ^ 63)
unfolding backend_quota_size
backend_quota_size-bounds spec = ground arith

-- A quota of `mib` mebibytes that an int64 holds is exact from 128 MiB on, and 128 MiB below that.
pub backend_quota_size-exact :
    (spec : EtcdSpec) (mib : ℕ)
    → spec.backend_quota_size ≡ some mib
    → mib < 8796093022208
    → ((128 ≤ mib) × (backend_quota_size spec ≡ mib * 1048576))
      ⊎ ((mib < 128) × (backend_quota_size spec ≡ default_quota))
unfolding backend_quota_size
backend_quota_size-exact spec mib h k = ground arith

-- `fixEtcdSize` settles on one member where there are fewer than three master nodes, and else on at
-- least three.
pub fixed_size-range :
    (masters size : ℕ)
    → ((masters < 3) × (fixed_size masters size ≡ 1))
      ⊎ ((3 ≤ masters) × (3 ≤ fixed_size masters size) × (size ≤ fixed_size masters size))
unfolding fixed_size
fixed_size-range masters size = ground arith

fixed_size-fixed_size :
    (masters size : ℕ) → fixed_size masters (fixed_size masters size) ≡ fixed_size masters size
unfolding fixed_size
fixed_size-fixed_size masters size = ground arith

-- A specification that the defaults have nothing to do for.
record Settled (masters : ℕ) (oc : Cluster) : Type 0 where
  sized : fixed_size masters oc.etcd.size ≡ oc.etcd.size
  versioned : str_eq oc.etcd.version "" ≡ false
  exposed : (oc.etcd.client_node_port == 0) ≡ false

fix_etcd_size-Settled :
    (masters : ℕ) (oc : Cluster) → Settled masters oc → fix_etcd_size masters oc ≡ (oc, false)
unfolding fix_etcd_size
fix_etcd_size-Settled masters oc s = ground (arith, s.sized)

fill_version-Settled :
    (masters : ℕ) (oc : Cluster) → Settled masters oc → fill_version (oc, false) ≡ (oc, false)
unfolding fill_version
fill_version-Settled masters oc s = rw s.versioned

fill_node_port-Settled :
    (masters : ℕ) (oc : Cluster) → Settled masters oc → fill_node_port (oc, false) ≡ (oc, false)
unfolding fill_node_port
fill_node_port-Settled masters oc s = rw s.exposed

adjust_spec-Settled :
    (masters : ℕ) (oc : Cluster) → Settled masters oc → adjust_spec masters oc ≡ (oc, false)
unfolding adjust_spec
adjust_spec-Settled masters oc s =
    ap (λ p. fill_node_port (fill_version p)) (fix_etcd_size-Settled masters oc s)
    ∙ ap fill_node_port (fill_version-Settled masters oc s)
    ∙ fill_node_port-Settled masters oc s

module _ (p : Cluster × Bool) where
  fill_version-size : (fill_version p).0.etcd.size ≡ p.0.etcd.size
  unfolding fill_version
  fill_version-size = elim (Bool-cases (str_eq p.0.etcd.version "")) [ inl e ↦ rw e | inr e ↦ rw e ]

  fill_version-version : str_eq (fill_version p).0.etcd.version "" ≡ false
  unfolding fill_version
  fill_version-version = elim (Bool-cases (str_eq p.0.etcd.version "")) [
    | inl e ↦ rw e
    | inr e ↦ rw (e, e)
  ]

  fill_node_port-size : (fill_node_port p).0.etcd.size ≡ p.0.etcd.size
  unfolding fill_node_port
  fill_node_port-size = elim (Bool-cases (p.0.etcd.client_node_port == 0)) [
    | inl e ↦ rw e
    | inr e ↦ rw e
  ]

  fill_node_port-version : (fill_node_port p).0.etcd.version ≡ p.0.etcd.version
  unfolding fill_node_port
  fill_node_port-version = elim (Bool-cases (p.0.etcd.client_node_port == 0)) [
    | inl e ↦ rw e
    | inr e ↦ rw e
  ]

  fill_node_port-port : ((fill_node_port p).0.etcd.client_node_port == 0) ≡ false
  unfolding fill_node_port
  fill_node_port-port = elim (Bool-cases (p.0.etcd.client_node_port == 0)) [
    | inl e ↦ rw e
    | inr e ↦ rw (e, e)
  ]

adjust_spec-size :
    (masters : ℕ) (oc : Cluster)
    → (adjust_spec masters oc).0.etcd.size ≡ fixed_size masters oc.etcd.size
unfolding adjust_spec fix_etcd_size
adjust_spec-size masters oc =
    fill_node_port-size (fill_version (fix_etcd_size masters oc))
    ∙ fill_version-size (fix_etcd_size masters oc)

adjusted-Settled : (masters : ℕ) (oc : Cluster) → Settled masters (adjust_spec masters oc).0
unfolding adjust_spec
adjusted-Settled masters oc = record {
  sized =
      ap (fixed_size masters) (adjust_spec-size masters oc)
      ∙ fixed_size-fixed_size masters oc.etcd.size
      ∙ sym (adjust_spec-size masters oc);
  versioned =
      ap (λ v. str_eq v "") (fill_node_port-version (fill_version (fix_etcd_size masters oc)))
      ∙ fill_version-version (fix_etcd_size masters oc);
  exposed = fill_node_port-port (fill_version (fix_etcd_size masters oc));
}

-- What the defaults make of a specification is left alone by a second pass, which reports no
-- change.
pub adjust_spec-adjust_spec :
    (masters : ℕ) (oc : Cluster)
    → adjust_spec masters (adjust_spec masters oc).0 ≡ ((adjust_spec masters oc).0, false)
adjust_spec-adjust_spec masters oc =
    adjust_spec-Settled masters (adjust_spec masters oc).0 (adjusted-Settled masters oc)
