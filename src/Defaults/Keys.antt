-- ===== src/Defaults/Keys.antt =====
-- The key of itsm, which `setDefaults_ItsmConfig` draws anew each time.
use mathlib.Core.Path.{subst}
use cloudpods_operator.Prelude.{
  ℕ, ◌+◌, ◌≤◌, ◌<◌, String, ◌≡◌, refl, Bool-cases, inl, inr, none, some, Option-cases, List, [],
  ◌∷◌, ◌==◌, some_of, arith,
}
use cloudpods_operator.Defaults.Types.{Fields, set_at}
use cloudpods_operator.Defaults.Spec.{fill_password}
use cloudpods_operator.Defaults.Options.{
  DbConfig, UserPort, UserDbPort, ServiceCommonOptions, ServiceDbCommonOptions,
  OnecloudClusterConfig, KeystoneConfig,
}
use cloudpods_operator.Defaults.Config.{
  set_db_config, set_service_common_options, set_service_db_common_options, set_services,
  set_db_services, default_config, set_keystone_config, finish_config, set_global_common_config,
}

module _ (draw : ℕ → String) where
  fill_password-le : (n : ℕ) (s : String) → n ≤ (fill_password draw n s).1
  unfolding fill_password
  fill_password-le n s = ground arith

  set_db_config-le :
      (database username : String) (obj : DbConfig) (n : ℕ)
      → n ≤ (set_db_config draw database username obj n).1
  unfolding set_db_config
  set_db_config-le database username obj n = fill_password-le n obj.password

  set_common-le :
      (user : String) (port : ℕ) (obj : ServiceCommonOptions) (n : ℕ)
      → n ≤ (set_service_common_options draw user port obj n).1
  unfolding set_service_common_options
  set_common-le user port obj n = fill_password-le n obj.cloud_user.password

  set_db_common-le :
      (svc : UserDbPort) (obj : ServiceDbCommonOptions) (n : ℕ)
      → n ≤ (set_service_db_common_options draw svc obj n).1
  unfolding set_service_db_common_options
  set_db_common-le svc obj n =
      let db = set_db_config draw svc.db svc.db_user obj.db n in
      let clickhouse = set_db_config draw svc.db svc.db_user obj.clickhouse_conf db.1 in
      omega (
        arith,
        set_db_config-le svc.db svc.db_user obj.db n,
        set_db_config-le svc.db svc.db_user obj.clickhouse_conf db.1,
        set_common-le svc.user svc.port obj.common clickhouse.1,
      )

  set_keystone-le : (obj : KeystoneConfig) (n : ℕ) → n ≤ (set_keystone_config draw obj n).1
  unfolding set_keystone_config
  set_keystone-le obj n =
      let db = set_db_config draw "keystone" "keystone" obj.db n in
      omega (
        arith,
        set_db_config-le "keystone" "keystone" obj.db n,
        set_db_config-le "keystone" "keystone" obj.clickhouse_conf db.1,
      )

  set_services-le :
      (xs : List (String × UserPort)) (s : Fields ServiceCommonOptions × ℕ)
      → s.1 ≤ (set_services draw xs s).1
  unfolding set_services
  set_services-le [] s = omega arith
  set_services-le ((name, svc) ∷ rest) s =
      let set = set_service_common_options draw svc.user svc.port (s.0 name) s.1 in
      omega (
        arith,
        set_common-le svc.user svc.port (s.0 name) s.1,
        set_services-le rest (set_at name set.0 s.0, set.1),
      )

  set_db_services-le :
      (xs : List (String × UserDbPort)) (registry : List ℕ)
      (s t : Fields ServiceDbCommonOptions × ℕ)
      → set_db_services draw xs registry s ≡ some t
      → s.1 ≤ t.1
  unfolding set_db_services
  set_db_services-le [] registry s t h = let e : s ≡ t = cc in rw e (omega arith)
  set_db_services-le ((name, svc) ∷ rest) registry s t h =
      let set = set_service_db_common_options draw svc (s.0 name) s.1 in
      elim (Bool-cases (some_of (λ port. port == svc.port) registry)) [
        | inl taken ↦ let e : none ≡ some t = rw taken at h in absurd (cc)
        | inr free ↦ omega (
          arith,
          set_db_common-le svc (s.0 name) s.1,
          set_db_services-le rest (svc.port ∷ registry) (set_at name set.0 s.0, set.1) t
              (rw free at h),
        )
      ]

  -- A key that was drawn once `n` passwords were.
  abbrev NewKey : ℕ → OnecloudClusterConfig × ℕ → Type 0
  NewKey n r = (k : ℕ) × (n ≤ k) × (k < r.1) × (r.0.itsm_encryption_key ≡ draw k)

  finish_config-NewKey :
      (obj : OnecloudClusterConfig) (services : Fields ServiceCommonOptions)
      (s : Fields ServiceDbCommonOptions × ℕ) (n : ℕ)
      → n ≤ s.1
      → NewKey n (finish_config draw obj services s)
  unfolding finish_config
  finish_config-NewKey obj services s n h =
      let cloudmon = set_service_common_options draw "cloudmon" 30931 (services "cloudmon") s.1 in
      (
        cloudmon.1,
        omega (arith, set_common-le "cloudmon" 30931 (services "cloudmon") s.1),
        omega (arith, set_db_config-le "grafana" "grafana" obj.grafana_db (cloudmon.1 + 1)),
        refl,
      )

  -- The key of itsm's mail links is a new password after each pass, whatever the configuration
  -- held: it is one that the pass itself draws.
  pub default_config-new_key :
      (users : List (String × UserPort)) (db_users : List (String × UserDbPort))
      (obj : OnecloudClusterConfig) (n : ℕ) (r : OnecloudClusterConfig × ℕ)
      → default_config draw users db_users (obj, n) ≡ some r
      → (k : ℕ) × (n ≤ k) × (k < r.1) × (r.0.itsm_encryption_key ≡ draw k)
  unfolding default_config
  default_config-new_key users db_users obj n r h =
      let keystone = set_keystone_config draw obj.keystone n in
      let set = record obj {
        common_config = set_global_common_config obj.common_config;
        keystone = keystone.0;
      } in
      let services = set_services draw users (obj.services, keystone.1) in
      elim (Option-cases (set_db_services draw db_users [] (obj.db_services, services.1))) [
        | inl fatal ↦ let e : none ≡ some r = rw fatal at h in absurd (cc)
        | inr (t, returned) ↦
            let e : some (finish_config draw set services.0 t) ≡ some r = rw returned at h in
            let same : finish_config draw set services.0 t ≡ r = cc in
            subst (NewKey n) same (
              finish_config-NewKey set services.0 t n (
                omega (
                  arith,
                  set_keystone-le obj.keystone n,
                  set_services-le users (obj.services, keystone.1),
                  set_db_services-le db_users [] (obj.db_services, services.1) t returned,
                )))
      ]
