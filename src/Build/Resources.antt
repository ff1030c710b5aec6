-- ===== src/Build/Resources.antt =====
-- The resources of the containers: `setContainerResources` and its helpers, in
-- pkg/manager/component/component.go, and `GetReadyMasterNodes` of pkg/util/k8sutil/node_util.go.
use Prim.Native.String.{◌++◌ as join}
use cloudpods_operator.Prelude.{
  ℕ, ◌/◌, String, Bool, false, Option, none, some, List, [], ◌∷◌, map, select, ltb, str_eq,
  if◌then◌else◌,
}
use cloudpods_operator.Exec.{
  ApiError, Reply, good, bad, wrap, in_context, api_error, Exec, Void, pure, fail, change, ◌>>=◌,
  ◌>>◌, annotate,
}
use cloudpods_operator.Etcd.Types.{Condition}
use cloudpods_operator.Etcd.Manager.Services.{decimal}
use cloudpods_operator.Sync.Objects.{put}
use cloudpods_operator.Build.Objects.{Node, RequiredAmounts, Container}

-- The first condition of type Ready decides.
node_is_ready : List Condition → Bool
node_is_ready [] = false
node_is_ready (c ∷ cs) =
    let later = node_is_ready cs in if str_eq c.kind "Ready" then str_eq c.status "True" else later

unfoldable pub is_node_ready : Node → Bool
unfolding node_is_ready
is_node_ready n = node_is_ready n.conditions

-- What is outside: the lister's nodes with the master's label, the parser of a quantity, and the
-- text of a third of a number with six decimals.
pub record Quantities : Type 0 where
  pub list_masters : Reply (List Node)
  pub parse_quantity : String → Reply String
  pub third_text : ℕ → String

-- A requirement, which is pointed to and may be absent.
abbrev pub some_or_new : Option RequiredAmounts → RequiredAmounts
some_or_new none = record { cpu = none; memory = none }
some_or_new (some r) = r

abbrev pub amount_or : Option String → Option String → Option String
amount_or none d = d
amount_or (some s) d = some s

-- The quantity of `q, _ := ParseQuantity(s)`.
abbrev pub parsed : Reply String → String
parsed (good q) = q
parsed (bad e) = "0"

abbrev pub asked : {S A : Type 0} → Reply A → Exec S A
asked (good a) = pure a
asked (bad e) = fail (wrap (api_error e))

-- What `setContainerResources` changes: the specification and the containers.
pub record ResourceState : Type 0 where
  pub limits : Option RequiredAmounts
  pub requests : Option RequiredAmounts
  pub containers : List Container

abbrev without_amounts : Option RequiredAmounts → Option RequiredAmounts
without_amounts none = none
without_amounts (some r) = some (record r { cpu = none; memory = none })

unfoldable pub with_amounts : String → String → String → Container → Container
unfolding put
with_amounts key limit request c = record c {
  limits = put key limit c.limits;
  requests = put key request c.requests;
}

-- `setPodSpecResources`
unfoldable pub set_pod_spec_resources :
    String → Option String → Option String → List Container → List Container
unfolding with_amounts
set_pod_spec_resources key none request cs = cs
set_pod_spec_resources key (some limit) none cs = cs
set_pod_spec_resources key (some limit) (some request) cs = map (with_amounts key limit request) cs

abbrev pub default_memory : ℕ → ℕ
default_memory bytes = let mb = bytes / 1000 / 1000 / 16 in if ltb mb 512 then 512 else mb

module _ (world : Quantities) where
  open world use {list_masters, parse_quantity, third_text}

  abbrev pub limits_of : {S : Type 0} → Option ℕ → Option ℕ → Exec S (Option String × Option String)
  limits_of none memory = fail (wrap (in_context (api_error ApiError.other_error)))
  limits_of (some cpu) none = fail (wrap (in_context (api_error ApiError.other_error)))
  limits_of (some cpu) (some memory) = do
    c ← asked (parse_quantity (third_text cpu))
    m ← asked (parse_quantity (join (decimal (default_memory memory)) "Mi"))
    pure (some c, some m)

  -- Where no master is ready the error that is wrapped is nil, so nothing is returned, with no
  -- error.
  abbrev pub first_limits : {S : Type 0} → List Node → Exec S (Option String × Option String)
  first_limits [] = pure (none, none)
  first_limits (node ∷ nodes) = limits_of node.cpu node.memory

  unfoldable pub get_default_resource_limits : {S : Type 0} → Exec S (Option String × Option String)
  unfolding is_node_ready
  get_default_resource_limits =
      asked list_masters >>= λ nodes. first_limits (select is_node_ready nodes)

  abbrev fill : Option String × Option String → Option RequiredAmounts → RequiredAmounts
  fill (cpu, memory) r = record {
    cpu = amount_or (some_or_new r).cpu cpu;
    memory = amount_or (some_or_new r).memory memory;
  }

  abbrev pub filled : Option String × Option String → ResourceState → ResourceState
  filled defaults s =
      let limits = fill defaults s.limits in
      let requests =
        fill (some (parsed (parse_quantity "0.01")), some (parsed (parse_quantity "10Mi")))
          s.requests in
      record {
        limits = some limits;
        requests = some requests;
        containers =
            set_pod_spec_resources "memory" limits.memory requests.memory
              (set_pod_spec_resources "cpu" limits.cpu requests.cpu s.containers);
      }

  unfoldable pub set_container_resources : Bool → Exec ResourceState Void
  unfolding get_default_resource_limits set_pod_spec_resources
  set_container_resources disable =
      if disable
      then (change λ s. record s {
        limits = without_amounts s.limits;
        requests = without_amounts s.requests;
      })
      else ((change λ s. record s { limits = some (some_or_new s.limits) })
          >> annotate wrap get_default_resource_limits
          >>= λ defaults. change (filled defaults))
