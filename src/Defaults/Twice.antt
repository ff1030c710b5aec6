-- ===== src/Defaults/Twice.antt =====
-- `SetDefaults_OnecloudClusterSpec` called a second time, and in another order of its maps.
use cloudpods_operator.Prelude.{
  ℕ, String, ◌≡◌, refl, ◌≢◌, ◌∙◌, sym, ap, Bool, true, false, ◌||◌, ◌&&◌, eq_iff, arith,
}
use cloudpods_operator.Defaults.Types.{
  DeploymentSpec, StatefulDeploymentSpec, OptionalSpec, MonitorStackSpec, OnecloudClusterSpec,
  Fields,
}
use cloudpods_operator.Defaults.Image.{or_default}
use cloudpods_operator.Defaults.Parts.{or_number, set_deployment_spec, set_stateful_spec}
use cloudpods_operator.Defaults.Tables.{
  Orders, source_orders, service_ports, shared_components, edition_components, support_components,
  daemon_components, stateful_components,
}
use cloudpods_operator.Defaults.Spec.{
  for_range, set_deployments, set_daemon_sets, set_sidecars, set_stateful, set_optional, set_parts,
  set_globals, image_of, stateful_version, fill_password, fill_passwords, set_monitor_stack,
  default_spec, init_image,
}
use cloudpods_operator.Defaults.Loops.{
  is_keyed-Keyed, Keyed, SameMap, for_range-for_range, for_range-order,
}
use cloudpods_operator.Defaults.Settled.{
  KeyedOrders, set_deployments-settled, set_daemon_sets-settled, set_sidecars-settled,
  init_image-settled,
}

or_default-settled : (s value : String) → or_default (or_default s value) value ≡ or_default s value
or_default-settled s value = ground arith

or_number-settled : (n value : ℕ) → or_number (or_number n value) value ≡ or_number n value
or_number-settled n value = ground arith

or-again : (a b : Bool) → (a || (a || b)) ≡ (a || b)
or-again true b = refl
or-again false b = refl

module _ {P : Type 0} where
  -- The settled part of a deployment whose image is made anew from the same names.
  set_deployment_spec-settled :
      (image : String) (d : DeploymentSpec P)
      → set_deployment_spec false image (set_deployment_spec false image d)
        ≡ set_deployment_spec false image d
  unfolding set_deployment_spec
  set_deployment_spec-settled image d = ground arith

  set_stateful_spec-settled :
      (size image : String) (d : StatefulDeploymentSpec P)
      → set_stateful_spec false size image (set_stateful_spec false size image d)
        ≡ set_stateful_spec false size image d
  unfolding set_stateful_spec
  set_stateful_spec-settled size image d = ground arith

  set_globals-settled :
      (obj : OnecloudClusterSpec P) → set_globals (set_globals obj) ≡ set_globals obj
  unfolding set_globals
  set_globals-settled obj = simp (or_default-settled, or_number-settled, or-again)

  set_optional-settled :
      (obj : OnecloudClusterSpec P) (version type : String) (spec : OptionalSpec P)
      → set_optional false obj version type (set_optional false obj version type spec)
        ≡ set_optional false obj version type spec
  unfolding set_optional set_deployment_spec
  set_optional-settled obj version type spec = ground arith

ports_keyed : Keyed service_ports
unfolding service_ports
ports_keyed = is_keyed-Keyed service_ports refl

set_ports-settled :
    (fields : Fields ℕ)
    → for_range service_ports
        (λ name port own. or_number own port)
        (for_range service_ports (λ name port own. or_number own port) fields)
      ≡ for_range service_ports (λ name port own. or_number own port) fields
set_ports-settled fields =
    for_range-for_range _ service_ports fields ports_keyed
      (λ name port own. or_number-settled own port)

module _ {P : Type 0} (o : Orders) (ee support : Bool) (k : KeyedOrders o) where
  set_stateful-settled :
      (obj : OnecloudClusterSpec P)
      → set_stateful false o ee support (set_parts false o ee support obj)
        ≡ set_stateful false o ee support obj
  unfolding set_parts set_stateful set_stateful_spec
  set_stateful-settled obj = for_range-for_range _ o.stateful obj.stateful k.stateful (λ name s d.
      set_stateful_spec-settled s.size
        (image_of obj (stateful_version obj s.own_version) name (s.hyper && obj.use_hyper_image) ee
          d.deployment.container)
        d)

  set_optional_parts :
      (obj : OnecloudClusterSpec P) (version type : String) (spec : OptionalSpec P)
      → set_optional false (set_parts false o ee support obj) version type spec
        ≡ set_optional false obj version type spec
  unfolding set_parts set_optional
  set_optional_parts obj version type spec = refl

  set_parts-settled :
      (obj : OnecloudClusterSpec P)
      → set_parts false o ee support (set_parts false o ee support obj)
        ≡ set_parts false o ee support obj
  unfolding set_parts
  set_parts-settled obj = simp (
    or_default-settled,
    or_number-settled,
    set_optional_parts,
    set_optional-settled,
    set_ports-settled,
    set_stateful-settled,
    set_deployments-settled o ee support k obj,
    set_daemon_sets-settled o ee support k obj,
    set_sidecars-settled o ee support k obj,
    init_image-settled o ee support k obj,
  )

  set_globals-parts :
      (obj : OnecloudClusterSpec P) (password : String) (stack : MonitorStackSpec P)
      → set_globals (record (set_parts false o ee support (set_globals obj)) {
        bootstrap_password = password;
        monitor_stack = stack;
      })
        ≡ record (set_parts false o ee support (set_globals obj)) {
          bootstrap_password = password;
          monitor_stack = stack;
        }
  unfolding set_globals set_parts
  set_globals-parts obj password stack = simp (or_default-settled, or_number-settled, or-again)

  set_parts-passwords :
      (obj : OnecloudClusterSpec P) (password : String) (stack : MonitorStackSpec P)
      → set_parts false o ee support
          (record obj { bootstrap_password = password; monitor_stack = stack })
        ≡ record (set_parts false o ee support obj) {
          bootstrap_password = password;
          monitor_stack = stack;
        }
  unfolding set_parts set_deployments set_daemon_sets set_sidecars set_stateful init_image
      set_optional
  set_parts-passwords obj password stack = refl

module _ (draw : ℕ → String) (drawn : (n : ℕ) → draw n ≢ "") where
  fill_password-settled :
      (n m : ℕ) (s : String)
      → fill_password draw m (fill_password draw n s).0 ≡ ((fill_password draw n s).0, m)
  unfolding fill_password
  fill_password-settled n m s = ground (arith, drawn n, eq_iff s "", eq_iff (draw n) "")

  set_monitor_stack-settled :
      {P : Type 0} (stack : MonitorStackSpec P) (n m : ℕ)
      → set_monitor_stack draw (set_monitor_stack draw stack n).0 m
        ≡ ((set_monitor_stack draw stack n).0, m)
  unfolding set_monitor_stack
  set_monitor_stack-settled stack n m = simp (or_default-settled, fill_password-settled)

  fill_passwords-settled :
      {P : Type 0} (obj : OnecloudClusterSpec P) (n m : ℕ)
      → fill_passwords draw (fill_passwords draw obj n).0 m ≡ ((fill_passwords draw obj n).0, m)
  unfolding fill_passwords
  fill_passwords-settled obj n m = rw (fill_password-settled n m obj.bootstrap_password) (
      rw
        (set_monitor_stack-settled obj.monitor_stack (fill_password draw n obj.bootstrap_password).1
          m)
        refl)

module _ {P : Type 0} (o : Orders) (ee support : Bool) (k : KeyedOrders o) (draw : ℕ → String) where
  parts-again :
      (obj : OnecloudClusterSpec P) (n : ℕ)
      → set_parts false o ee support
          (set_globals (fill_passwords draw (set_parts false o ee support (set_globals obj)) n).0)
        ≡ (fill_passwords draw (set_parts false o ee support (set_globals obj)) n).0
  unfolding fill_passwords
  parts-again obj n =
      let set = set_parts false o ee support (set_globals obj) in
      let password = (fill_password draw n set.bootstrap_password).0 in
      let stack =
        (set_monitor_stack draw set.monitor_stack
          (fill_password draw n set.bootstrap_password).1).0 in
      ap (set_parts false o ee support) (set_globals-parts o ee support k obj password stack)
      ∙ set_parts-passwords o ee support k set password stack
      ∙ ap
          (λ (s : OnecloudClusterSpec P). record s {
            bootstrap_password = password;
            monitor_stack = stack;
          })
          (set_parts-settled o ee support k (set_globals obj))

  -- A second pass in the same order.
  default_spec-again :
      (drawn : (n : ℕ) → draw n ≢ "") (obj : OnecloudClusterSpec P) (n : ℕ)
      → default_spec false o ee support draw (default_spec false o ee support draw (obj, n))
        ≡ default_spec false o ee support draw (obj, n)
  unfolding default_spec
  default_spec-again drawn obj n =
      let set = set_parts false o ee support (set_globals obj) in
      ap (λ again. fill_passwords draw again (fill_passwords draw set n).1) (parts-again obj n)
      ∙ fill_passwords-settled draw drawn set n _

-- One order for each map literal.
pub record IsOrder (o : Orders) : Type 0 where
  pub shared : SameMap o.shared shared_components
  pub edition : SameMap o.edition edition_components
  pub support : SameMap o.support support_components
  pub daemons : SameMap o.daemons daemon_components
  pub stateful : SameMap o.stateful stateful_components

sources_keyed : KeyedOrders source_orders
unfolding source_orders shared_components edition_components support_components stateful_components
sources_keyed = record {
  shared = is_keyed-Keyed shared_components refl;
  edition = is_keyed-Keyed edition_components refl;
  support = is_keyed-Keyed support_components refl;
  daemons = is_keyed-Keyed daemon_components refl;
  stateful = is_keyed-Keyed stateful_components refl;
}

module _ {P : Type 0} (clear : Bool) (o : Orders) (ee support : Bool) (is : IsOrder o) where
  set_deployments-order :
      (obj : OnecloudClusterSpec P)
      → set_deployments clear o ee support obj ≡ set_deployments clear source_orders ee support obj
  unfolding set_deployments source_orders
  set_deployments-order obj =
      rw (for_range-order _ _ _ _ is.support)
        (rw (for_range-order _ _ _ _ is.edition) (rw (for_range-order _ _ _ _ is.shared) refl))

  set_daemon_sets-order :
      (obj : OnecloudClusterSpec P)
      → set_daemon_sets clear o ee support obj ≡ set_daemon_sets clear source_orders ee support obj
  unfolding set_daemon_sets source_orders
  set_daemon_sets-order obj = rw (for_range-order _ _ _ _ is.daemons) refl

  set_stateful-order :
      (obj : OnecloudClusterSpec P)
      → set_stateful clear o ee support obj ≡ set_stateful clear source_orders ee support obj
  unfolding set_stateful source_orders
  set_stateful-order obj = for_range-order _ _ _ _ is.stateful

  set_parts-order :
      (obj : OnecloudClusterSpec P)
      → set_parts clear o ee support obj ≡ set_parts clear source_orders ee support obj
  unfolding set_parts init_image set_sidecars
  set_parts-order obj = simp (set_deployments-order, set_daemon_sets-order, set_stateful-order)

-- Go visits a map in an order of its own; the defaults come out the same as in the order of the
-- source, for every order of the five maps, with ClearComponent on or off.
pub default_spec-order :
    {P : Type 0} (clear : Bool) (o : Orders) (ee support : Bool) (draw : ℕ → String)
    (s : OnecloudClusterSpec P × ℕ)
    → IsOrder o
    → default_spec clear o ee support draw s ≡ default_spec clear source_orders ee support draw s
unfolding default_spec
default_spec-order clear o ee support draw (obj, n) is =
    ap (λ set. fill_passwords draw set n) (set_parts-order clear o ee support is (set_globals obj))

-- A second call, in another order of the maps, changes nothing.
pub default_spec-default_spec :
    {P : Type 0} (o o' : Orders) (ee support : Bool) (draw : ℕ → String)
    (obj : OnecloudClusterSpec P) (n : ℕ)
    → IsOrder o
    → IsOrder o'
    → ((m : ℕ) → draw m ≢ "")
    → default_spec false o' ee support draw (default_spec false o ee support draw (obj, n))
      ≡ default_spec false o ee support draw (obj, n)
default_spec-default_spec o o' ee support draw obj n is is' drawn =
    default_spec-order false o' ee support draw _ is'
    ∙ ap (default_spec false source_orders ee support draw)
        (default_spec-order false o ee support draw (obj, n) is)
    ∙ default_spec-again source_orders ee support sources_keyed draw drawn obj n
    ∙ sym (default_spec-order false o ee support draw (obj, n) is)
