-- ===== src/Defaults/Settled.antt =====
-- A second pass over the deployments, daemon sets, containers and the rest of a specification
-- changes nothing, where ClearComponent is off.
use cloudpods_operator.Prelude.{String, ◌≡◌, refl, ap, Bool, true, false, ◌&&◌, some, str_eq}
use cloudpods_operator.Exec.{Void}
use cloudpods_operator.Defaults.Types.{DaemonSetSpec, OnecloudClusterSpec}
use cloudpods_operator.Defaults.Image.{get_image, get_edition_image}
use cloudpods_operator.Defaults.Parts.{set_sidecar, set_deployment_spec, set_daemon_set_spec}
use cloudpods_operator.Defaults.Tables.{Orders}
use cloudpods_operator.Defaults.Spec.{
  set_deployments, set_daemon_sets, set_sidecars, hyper_daemon, set_parts, init_image,
}
use cloudpods_operator.Defaults.Loops.{entry, Keyed}
use cloudpods_operator.Defaults.Effects.{
  Naming, fill, force, ContainerEffect, Effect, DaemonEffect, idle, idle_daemon, after_daemon,
  nothing, after, after_container, on_deployments, on_daemon_sets, on_containers, on_deployment,
  on_daemon_set, on_container,
}
use cloudpods_operator.Defaults.Passes.{if_named, if_found, then_update, then_loop, second_pass}

abbrev image : String → String → String → Bool → Bool → Naming
image global version type hyper ee repository name tag =
    get_image global repository type name version tag hyper ee

abbrev edition_image : String → String → String → Bool → Bool → Naming
edition_image global version type hyper ee repository name tag =
    get_edition_image global repository type name version tag hyper ee

abbrev sets : Naming → Effect
sets f = record { container = record { image = some f; pull = fill }; defaults = true; dns = false }

abbrev sets_region : Naming → Effect
sets_region f = record (sets f) { dns = true }

abbrev forces : Naming → ContainerEffect
forces f = record { image = some f; pull = force }

abbrev only_container : Naming → Effect
only_container f = record { container = forces f; defaults = false; dns = false }

abbrev sets_daemon : Naming → DaemonEffect
sets_daemon f = record { container = record { image = some f; pull = fill }; defaults = true }

abbrev only_daemon_container : Naming → DaemonEffect
only_daemon_container f = record { container = forces f; defaults = false }

-- Every map has each key once.
pub record KeyedOrders (o : Orders) : Type 0 where
  pub shared : Keyed o.shared
  pub edition : Keyed o.edition
  pub support : Keyed o.support
  pub daemons : Keyed o.daemons
  pub stateful : Keyed o.stateful

module _ (o : Orders) (ee support : Bool) where
  abbrev deployment_effect : String → String → Bool → String → Effect
  deployment_effect global version hyper name =
      let edition = λ (edition : Bool) (able : Bool).
        sets (edition_image global version name (able && hyper) edition) in
      after
        (if_named idle (str_eq "ovn-north" name)
          (only_container (image global "2.12.4-20260415" "openvswitch" false ee)))
        (after (if_found idle (edition support) (entry name o.support)) (
          after (if_found idle (edition ee) (entry name o.edition)) (
            after
              (if_found idle (λ able. sets (image global version name (able && hyper) ee))
                (entry name o.shared))
              (after
                (if_named idle (str_eq "monitor" name)
                  (sets (edition_image global version "monitor" hyper ee)))
                (after
                  (if_named idle (str_eq "region" name)
                    (sets_region (edition_image global version "region" hyper ee)))
                  (after
                    (if_named idle (str_eq "keystone" name)
                      (sets (image global version "keystone" hyper ee)))
                    idle))))))

  abbrev daemon_effect : String → String → Bool → String → DaemonEffect
  daemon_effect global version hyper name =
      after_daemon
        (if_named idle_daemon (str_eq "telegraf" name)
          (sets_daemon (image global "release-1.36.4-13" "telegraf" false ee)))
        (after_daemon
          (if_named idle_daemon (str_eq "host-image" name)
            (only_daemon_container (image global "v1.0.10" "host-image" false ee)))
          (after_daemon
            (if_found idle_daemon
              (λ (_ : Void).
                sets_daemon (image global version name (hyper_daemon name && hyper) ee))
              (entry name o.daemons))
            (after_daemon
              (if_named idle_daemon (str_eq "region-dns" name)
                (sets_daemon (image global version "region-dns" false false)))
              idle_daemon)))

-- One further container of a pod.
abbrev at_sidecar : String → String → Naming → ContainerEffect → ContainerEffect
at_sidecar key name f before =
    after_container (if_named nothing (str_eq key name) (forces f)) before

abbrev sidecar_effect : Bool → String → String → Bool → String → ContainerEffect
sidecar_effect ee global version hyper name =
    let ovn = image global "2.12.4-20260415" "openvswitch" false ee in
    at_sidecar "notify.plugins" name (image global version "notify-plugins" false ee) (
      at_sidecar "telegraf.telegraf_raid" name
        (image global "v4.0-20260115.0" "telegraf-raid-plugin" false ee)
        (at_sidecar "lbagent.ovn_controller" name ovn (
          at_sidecar "host_agent.host_health" name (image global "v0.0.5" "host-health" false ee) (
            at_sidecar "host_agent.ovn_controller" name ovn (
              at_sidecar "host_agent.sdn_agent" name (image global version "sdnagent" hyper ee) (
                at_sidecar "webconsole.guacd" name (image global "1.6.0" "guacd" false false) (
                  at_sidecar "web.docs" name (image global version "docs-ee" false ee) (
                    at_sidecar "web.overview" name
                      (image global version "dashboard-overview" false ee) nothing))))))))

module _ {P : Type 0} (o : Orders) (ee support : Bool) (k : KeyedOrders o) where
  set_deployments-at :
      (obj : OnecloudClusterSpec P) (name : String)
      → set_deployments false o ee support obj name
        ≡ on_deployment
            (deployment_effect o ee support obj.image_repository obj.version obj.use_hyper_image
              name)
            (obj.deployments name)
  unfolding set_deployments set_deployment_spec set_sidecar
  set_deployments-at obj name =
      let d = obj.deployments name in
      then_update on_deployments "ovn-north" name _ _ _ _ d (λ d. refl)
        (then_loop on_deployments _ _ _ o.support name _ d k.support (λ able d. refl)
          (then_loop on_deployments _ _ _ o.edition name _ d k.edition (λ able d. refl)
            (then_loop on_deployments _ _ _ o.shared name _ d k.shared (λ able d. refl)
              (then_update on_deployments "monitor" name _ _ _ _ d (λ d. refl)
                (then_update on_deployments "region" name _ _ _ _ d (λ d. refl)
                  (then_update on_deployments "keystone" name _ _ idle _ d (λ d. refl) refl))))))

  set_daemon_sets-at :
      (obj : OnecloudClusterSpec P) (name : String)
      → set_daemon_sets false o ee support obj name
        ≡ on_daemon_set
            (daemon_effect o ee support obj.image_repository obj.version obj.use_hyper_image name)
            (obj.daemon_sets name)
  unfolding set_daemon_sets set_daemon_set_spec set_sidecar
  set_daemon_sets-at obj name =
      let d = obj.daemon_sets name in
      then_update on_daemon_sets "telegraf" name _ _ _ _ d (λ d. refl)
        (then_update on_daemon_sets "host-image" name _ _ _ _ d (λ d. refl)
          (then_loop on_daemon_sets _ _ _ o.daemons name _ d k.daemons (λ _ d. refl)
            (then_update on_daemon_sets "region-dns" name _ _ idle_daemon _ d (λ d. refl) refl)))

  set_sidecars-at :
      (obj : OnecloudClusterSpec P) (name : String)
      → set_sidecars false o ee support obj name
        ≡ on_container
            (sidecar_effect ee obj.image_repository obj.version obj.use_hyper_image name)
            (obj.sidecars name)
  unfolding set_sidecars set_sidecar
  set_sidecars-at obj name =
      let d = obj.sidecars name in
      then_update on_containers "notify.plugins" name _ _ _ _ d (λ d. refl)
        (then_update on_containers "telegraf.telegraf_raid" name _ _ _ _ d (λ d. refl)
          (then_update on_containers "lbagent.ovn_controller" name _ _ _ _ d (λ d. refl)
            (then_update on_containers "host_agent.host_health" name _ _ _ _ d (λ d. refl)
              (then_update on_containers "host_agent.ovn_controller" name _ _ _ _ d (λ d. refl)
                (then_update on_containers "host_agent.sdn_agent" name _ _ _ _ d (λ d. refl)
                  (then_update on_containers "webconsole.guacd" name _ _ _ _ d (λ d. refl)
                    (then_update on_containers "web.docs" name _ _ _ _ d (λ d. refl)
                      (then_update on_containers "web.overview" name _ _ nothing _ d (λ d. refl)
                        refl))))))))

  pub set_deployments-settled :
      (obj : OnecloudClusterSpec P)
      → set_deployments false o ee support (set_parts false o ee support obj)
        ≡ set_deployments false o ee support obj
  unfolding set_parts
  set_deployments-settled obj =
      second_pass on_deployments
        (deployment_effect o ee support obj.image_repository obj.version obj.use_hyper_image)
        obj.deployments _ _ (set_deployments-at obj)
        (set_deployments-at (set_parts false o ee support obj))

  pub set_daemon_sets-settled :
      (obj : OnecloudClusterSpec P)
      → set_daemon_sets false o ee support (set_parts false o ee support obj)
        ≡ set_daemon_sets false o ee support obj
  unfolding set_parts
  set_daemon_sets-settled obj =
      second_pass on_daemon_sets
        (daemon_effect o ee support obj.image_repository obj.version obj.use_hyper_image)
        obj.daemon_sets _ _ (set_daemon_sets-at obj)
        (set_daemon_sets-at (set_parts false o ee support obj))

  pub set_sidecars-settled :
      (obj : OnecloudClusterSpec P)
      → set_sidecars false o ee support (set_parts false o ee support obj)
        ≡ set_sidecars false o ee support obj
  unfolding set_parts
  set_sidecars-settled obj =
      second_pass on_containers
        (sidecar_effect ee obj.image_repository obj.version obj.use_hyper_image) obj.sidecars _ _
        (set_sidecars-at obj) (set_sidecars-at (set_parts false o ee support obj))

  -- The repository of Telegraf's daemon set, which its init container's image takes, stays as it
  -- is.
  pub init_image-settled :
      (obj : OnecloudClusterSpec P)
      → init_image false o ee support (set_parts false o ee support obj)
        ≡ init_image false o ee support obj
  unfolding set_parts init_image
  init_image-settled obj =
      ap
        (λ (d : DaemonSetSpec P).
          get_image obj.image_repository d.container.repository "telegraf-init" "" "release-1.36-1"
            "" false ee)
        (set_daemon_sets-at obj "telegraf")
