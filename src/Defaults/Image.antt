-- ===== src/Defaults/Image.antt =====
-- The images: `getImage`, `getEditionImage`, and the editions of
-- pkg/apis/onecloud/v1alpha1/defaults.go.
use Prim.Native.String.{◌++◌ as join}
use cloudpods_operator.Prelude.{String, Bool, ◌||◌, Option, none, some, str_eq, if◌then◌else◌}
use cloudpods_operator.Etcd.Types.{Labels}
use cloudpods_operator.Sync.Objects.{find}

-- `if s == "" { s = value }`
abbrev pub or_default : String → String → String
or_default s value = if str_eq s "" then value else s

unfoldable pub edition_key : String
edition_key = "onecloud.yunion.io/edition"

abbrev found_edition : Option String → String
found_edition none = "ce"
found_edition (some edition) = or_default edition "ce"

abbrev in_annotations : Option Labels → Option String
in_annotations none = none
in_annotations (some annotations) = find edition_key annotations

-- `GetEdition`; `none` is Go's nil map, and a missing key reads as the empty text.
unfoldable pub get_edition : Option Labels → String
unfolding edition_key find
get_edition annotations = found_edition (in_annotations annotations)

unfoldable pub is_enterprise_edition : Option Labels → Bool
unfolding get_edition
is_enterprise_edition annotations = str_eq (get_edition annotations) "ee"

unfoldable pub is_ee_or_ese_edition : Option Labels → Bool
unfolding is_enterprise_edition
is_ee_or_ese_edition annotations =
    is_enterprise_edition annotations || str_eq (get_edition annotations) "ce/support"

unfoldable pub get_hyper_image_name : Bool → String
get_hyper_image_name ee = if ee then "cloudpods-ee" else "cloudpods"

unfoldable pub get_image :
    String → String → String → String → String → String → Bool → Bool → String
unfolding get_hyper_image_name
get_image global_repo spec_repo component_type component_name global_version tag hyper ee =
    let repo = or_default spec_repo global_repo in
    let version = or_default tag global_version in
    let name =
      or_default component_name (if hyper then get_hyper_image_name ee else component_type) in
    join repo (join "/" (join name (join ":" version)))

abbrev edition_name : String → Bool → Bool → String
edition_name component_type hyper ee =
    if hyper
    then get_hyper_image_name ee
    else if ee
    then join component_type "-ee"
    else component_type

unfoldable pub get_edition_image :
    String → String → String → String → String → String → Bool → Bool → String
unfolding get_image get_hyper_image_name
get_edition_image global_repo spec_repo component_type component_name global_version tag hyper ee =
    get_image global_repo spec_repo component_type
      (or_default component_name (edition_name component_type hyper ee)) global_version tag hyper ee
