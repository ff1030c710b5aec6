-- ===== src/Build/Selects.antt =====
-- Which pods the services of pkg/manager/component/component.go select.
use cloudpods_operator.Prelude.{
  String, ◌≡◌, refl, sym, ◌↔◌, Bool, true, false, ◌&&◌, Option, some, List, str_eq, eq_refl, eq_iff,
  and-left, and-right, if◌then◌else◌,
}
use cloudpods_operator.Etcd.Types.{ServicePort}
use cloudpods_operator.Volumes.{VolumeHelper}
use cloudpods_operator.Sync.Objects.{find, selector_matches_labels}
use cloudpods_operator.Build.Labels.{role_name, text_or_empty, get_component_label}
use cloudpods_operator.Build.Objects.{BuildCluster, BuiltDeployment, DeploymentConfig}
use cloudpods_operator.Build.Resources.{Quantities}
use cloudpods_operator.Build.Services.{new_service_with_cluster_ip}
use cloudpods_operator.Build.Deployments.{ContainerFactory, new_deployment, gen_readonly_deployment}
use cloudpods_operator.Build.Suffix.{IsPlain, role_name_injective}

-- The instance that a cluster's objects are labelled with.
abbrev pub instance_of : BuildCluster → String
instance_of oc = text_or_empty (find "app.kubernetes.io/instance" oc.labels)

abbrev matches : BuildCluster → BuildCluster → String → String → Bool → Bool → Bool
matches a b c d r s =
    selector_matches_labels (some (get_component_label a c r)) (get_component_label b d s)

equal_parts :
    (x y u v : String) (z : Bool) → (str_eq x y && (str_eq u v && z)) ≡ true → (y ≡ x) × (v ≡ u)
equal_parts x y u v z h =
    let rest = and-right (str_eq x y) (str_eq u v && z) h in
    (
      sym ((eq_iff x y).0 (and-left (str_eq x y) (str_eq u v && z) h)),
      sym ((eq_iff u v).0 (and-left (str_eq u v) z rest)),
    )

match_parts :
    (a b : BuildCluster) (c d : String) (r s : Bool)
    → matches a b c d r s ≡ true
    → (instance_of a ≡ instance_of b) × (role_name c r ≡ role_name d s)
unfolding selector_matches_labels get_component_label
match_parts a b c d true true h =
    equal_parts (instance_of b) (instance_of a) (role_name d true) (role_name c true)
      (str_eq (role_name d true) (role_name c true) && true) h
match_parts a b c d true false h =
    equal_parts (instance_of b) (instance_of a) (role_name d false) (role_name c true)
      (str_eq (role_name d false) (role_name c true) && false) h
match_parts a b c d false true h =
    equal_parts (instance_of b) (instance_of a) (role_name d true) (role_name c false)
      (str_eq (role_name d true) (role_name c false) && true) h
match_parts a b c d false false h =
    equal_parts (instance_of b) (instance_of a) (role_name d false) (role_name c false)
      (str_eq (role_name d false) (role_name c false) && true) h

match_same :
    (a b : BuildCluster) (c : String) (r : Bool)
    → instance_of a ≡ instance_of b
    → matches a b c c r r ≡ true
unfolding selector_matches_labels get_component_label
match_same a b c true e = rw (e, eq_refl (instance_of b), eq_refl (role_name c true))
match_same a b c false e = rw (e, eq_refl (instance_of b), eq_refl c)

module _ {P : Type 0} (world : Quantities) (helper : VolumeHelper) (zone_component : String) where
  -- The deployment of a role: the component's, or the read-only one that is made of it.
  unfoldable pub role_deployment :
      String
      → BuildCluster
      → DeploymentConfig P
      → Option ContainerFactory
      → Option ContainerFactory
      → Bool
      → BuiltDeployment P
  unfolding new_deployment gen_readonly_deployment
  role_deployment component oc spec init containers read_only =
      let (deploy, changed) =
        new_deployment world component zone_component oc helper spec init containers false
          "ClusterFirst" in
      if read_only then gen_readonly_deployment component oc deploy changed else deploy

  pod_labels_lem :
      (component : String) (oc : BuildCluster) (spec : DeploymentConfig P)
      → (init containers : Option ContainerFactory) (read_only : Bool)
      → (role_deployment component oc spec init containers read_only).pod_labels
        ≡ get_component_label oc component read_only
  unfolding role_deployment
  pod_labels_lem component oc spec init containers true = refl
  pod_labels_lem component oc spec init containers false = refl

  -- The service of a component, in a role, selects the pods of a deployment exactly where the two
  -- are of one instance, one component and one role, whatever the zone, for components whose names
  -- do not end in the suffix of the read-only role.
  pub new_service-selects_iff :
      (a b : BuildCluster) (c d : String) (r s : Bool)
      → IsPlain c
      → IsPlain d
      → (kind : String) (ports : List ServicePort) (ip : String) (spec : DeploymentConfig P)
      → (init containers : Option ContainerFactory)
      → (selector_matches_labels
            (some (new_service_with_cluster_ip c a kind ports ip r).selector)
            (role_deployment d b spec init containers s).pod_labels
          ≡ true)
        ↔ ((instance_of a ≡ instance_of b) × (c ≡ d) × (r ≡ s))
  unfolding new_service_with_cluster_ip
  new_service-selects_iff a b c d r s p q kind ports ip spec init containers =
      let same = pod_labels_lem d b spec init containers s in
      (
        (λ h.
            let (instance, role) = match_parts a b c d r s (rw (same) at h) in
            let both = role_name_injective c d r s p q role in (instance, both.0, both.1)),
        (λ e. rw (same, sym e.1, sym e.2, match_same a b c r e.0)),
      )
