-- ===== src/Build/Labels.antt =====
-- The labels of a component: pkg/label/label.go, and `getComponentLabel` of
-- pkg/manager/component/component.go. A method that writes to the map and returns it is a function
-- from the old map to the new one.
use Prim.Native.String.{◌++◌ as join}
use cloudpods_operator.Prelude.{String, Bool, Option, none, some, [], ◌∷◌, if◌then◌else◌}
use cloudpods_operator.Etcd.Types.{Labels}
use cloudpods_operator.Sync.Objects.{find, put}
use cloudpods_operator.Build.Objects.{BuildCluster}

abbrev pub new_label : Labels
new_label =
    ("app.kubernetes.io/name", "onecloud-cluster")
    ∷ ("app.kubernetes.io/managed-by", "onecloud-operator")
    ∷ []

unfoldable pub instance_label : String → Labels → Labels
unfolding put
instance_label name l = put "app.kubernetes.io/instance" name l

unfoldable pub zone_label : String → Labels → Labels
unfolding put
zone_label zone l = put "zone" zone l

abbrev pub role_name : String → Bool → String
role_name name read_only = if read_only then join name "-slave" else name

unfoldable pub component_label : String → Bool → Labels → Labels
unfolding put
component_label name read_only l =
    let named =
      put "app" (role_name name read_only)
        (put "app.kubernetes.io/component" (role_name name read_only) l) in
    if read_only then put "read-only" "true" named else named

-- What a read of a Go map gives, the empty text where the key is missing.
abbrev pub text_or_empty : Option String → String
text_or_empty none = ""
text_or_empty (some s) = s

unfoldable pub get_component_label : BuildCluster → String → Bool → Labels
unfolding find instance_label component_label
get_component_label oc component read_only =
    component_label component read_only
      (instance_label (text_or_empty (find "app.kubernetes.io/instance" oc.labels)) new_label)
