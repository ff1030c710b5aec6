-- ===== src/Build/Limits.antt =====
-- What `setContainerResources` of pkg/manager/component/component.go does to the containers.
use Prim.Native.String.{◌++◌ as join}
use cloudpods_operator.Prelude.{
  ℕ, String, ◌≡◌, refl, ap, ◌∙◌, Bool, true, false, inl, inr, ◌⊎◌, Option, none, some, List, [],
  ◌∷◌, map, select,
}
use cloudpods_operator.Exec.{
  ok, err, Exec, Reply, good, bad, annotate, wrap, Err, api_error, ApiError, in_context, done,
  ◌>>=◌,
}
use cloudpods_operator.Build.Objects.{Container, Node}
use cloudpods_operator.Build.Resources.{
  Quantities, ResourceState, set_container_resources, set_pod_spec_resources, with_amounts,
  some_or_new, get_default_resource_limits, asked, limits_of, first_limits, filled, default_memory,
  is_node_ready,
}
use cloudpods_operator.Etcd.Manager.Services.{decimal}

-- A method that only reads: it ends with an error or a value, and leaves the state.
abbrev Reads : {S A : Type 0} → Exec S A → S → Type 0
Reads {A} m s = ((e : Err) × (m s ≡ (err e, s))) ⊎ ((a : A) × (m s ≡ (ok a, s)))

module _ {S A : Type 0} where
  asked-Reads : (r : Reply A) (s : S) → Reads (asked r) s
  asked-Reads (good a) s = inr (a, refl)
  asked-Reads (bad e) s = inl (wrap (api_error e), refl)

  annotate-Reads : (m : Exec S A) (s : S) → Reads m s → Reads (annotate wrap m) s
  annotate-Reads m s (inl (e, h)) = inl (wrap e, rw h)
  annotate-Reads m s (inr (a, h)) = inr (a, rw h)

  bind-Reads :
      {B : Type 0} (m : Exec S A) (f : A → Exec S B) (s : S)
      → Reads m s
      → ((a : A) → Reads (f a) s)
      → Reads (m >>= f) s
  bind-Reads m f s (inl (e, h)) g = inl (e, rw h)
  bind-Reads m f s (inr (a, h)) g = elim (g a) [
    | inl (e, k) ↦ inl (e, rw (h, k))
    | inr (b, k) ↦ inr (b, rw (h, k))
  ]

module _ {S : Type 0} (world : Quantities) (s : S) where
  open world use {parse_quantity, third_text}

  limits_of-Reads : (cpu memory : Option ℕ) → Reads (limits_of world cpu memory) s
  limits_of-Reads none memory = inl (wrap (in_context (api_error ApiError.other_error)), refl)
  limits_of-Reads (some cpu) none = inl (wrap (in_context (api_error ApiError.other_error)), refl)
  limits_of-Reads (some cpu) (some memory) =
      bind-Reads (asked (parse_quantity (third_text cpu))) _ s
        (asked-Reads (parse_quantity (third_text cpu)) s)
        λ c.
          bind-Reads (asked (parse_quantity (join (decimal (default_memory memory)) "Mi"))) _ s
            (asked-Reads (parse_quantity (join (decimal (default_memory memory)) "Mi")) s)
            λ m. inr ((some c, some m), refl)

  first_limits-Reads : (nodes : List Node) → Reads (first_limits world nodes) s
  first_limits-Reads [] = inr ((none, none), refl)
  first_limits-Reads (node ∷ nodes) = limits_of-Reads node.cpu node.memory

  get_default_resource_limits-Reads : Reads (get_default_resource_limits world) s
  unfolding get_default_resource_limits
  get_default_resource_limits-Reads =
      bind-Reads (asked world.list_masters)
        (λ nodes. first_limits world (select is_node_ready nodes)) s
        (asked-Reads world.list_masters s) λ nodes. first_limits-Reads (select is_node_ready nodes)

-- The specification gets its limits before anything can fail.
abbrev started : ResourceState → ResourceState
started s = record s { limits = some (some_or_new s.limits) }

-- Where the resources are managed, the method fails and has changed no container, or fills in the
-- defaults.
set_container_resources-ends :
    (world : Quantities) (s : ResourceState)
    → ((e : Err) × (set_container_resources world false s ≡ (err e, started s)))
      ⊎ ((d : Option String × Option String) × (get_default_resource_limits world (started s)
            ≡ (ok d, started s))
          × (set_container_resources world false s ≡ (done, filled world d (started s))))
unfolding set_container_resources
set_container_resources-ends world s = elim (get_default_resource_limits-Reads world (started s)) [
  | inl (e, h) ↦ inl (wrap e, rw h)
  | inr (d, h) ↦ inr (d, h, rw h)
]

disabled-containers :
    (world : Quantities) (s : ResourceState)
    → (set_container_resources world true s).1.containers ≡ s.containers
unfolding set_container_resources
disabled-containers world s = refl

-- A view of the containers that the amounts do not enter.
abbrev pub Ignores {ℓ} : {A : Type ℓ} → (Container → A) → Type ℓ
Ignores view =
    (key limit request : String) (c : Container) → view (with_amounts key limit request c) ≡ view c

module _ {ℓ} {A : Type ℓ} (view : Container → A) (ignores : Ignores view) where
  map-with_amounts :
      (key limit request : String) (cs : List Container)
      → map view (map (with_amounts key limit request) cs) ≡ map view cs
  map-with_amounts key limit request [] = refl
  map-with_amounts key limit request (c ∷ cs) =
      rw (ignores key limit request c, map-with_amounts key limit request cs)

  map-set_pod_spec_resources :
      (key : String) (limit request : Option String) (cs : List Container)
      → map view (set_pod_spec_resources key limit request cs) ≡ map view cs
  unfolding set_pod_spec_resources
  map-set_pod_spec_resources key none request cs = refl
  map-set_pod_spec_resources key (some limit) none cs = refl
  map-set_pod_spec_resources key (some limit) (some request) cs =
      map-with_amounts key limit request cs

  map-filled :
      (world : Quantities) (d : Option String × Option String) (s : ResourceState)
      → map view (filled world d s).containers ≡ map view s.containers
  map-filled world d s =
      map-set_pod_spec_resources "memory" _ _ _ ∙ map-set_pod_spec_resources "cpu" _ _ s.containers

  pub map-set_container_resources :
      (world : Quantities) (disable : Bool) (s : ResourceState)
      → map view (set_container_resources world disable s).1.containers ≡ map view s.containers
  map-set_container_resources world true s = ap (map view) (disabled-containers world s)
  map-set_container_resources world false s = elim (set_container_resources-ends world s) [
    | inl (e, h) ↦ rw h
    | inr (d, k, h) ↦ ap (λ r. map view r.1.containers) h ∙ map-filled world d (started s)
  ]

no_master-defaults :
    (world : Quantities) (s : ResourceState) (nodes : List Node)
    → world.list_masters ≡ good nodes
    → select is_node_ready nodes ≡ []
    → get_default_resource_limits world s ≡ (ok (none, none), s)
unfolding get_default_resource_limits
no_master-defaults world s nodes listed h = rw (listed, h)

-- Where no master is ready, a specification without limits is accepted and no container gets an
-- amount, not even the default requests: the method reports no error.
pub set_container_resources-no_master :
    (world : Quantities) (s : ResourceState) (nodes : List Node)
    → world.list_masters ≡ good nodes
    → select is_node_ready nodes ≡ []
    → s.limits ≡ none
    → ((set_container_resources world false s).0 ≡ done)
      × ((set_container_resources world false s).1.containers ≡ s.containers)
unfolding set_container_resources set_pod_spec_resources
set_container_resources-no_master world s nodes listed h e =
    let d = no_master-defaults world (started s) nodes listed h in (rw d, rw (d, e))
