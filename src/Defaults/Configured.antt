-- ===== src/Defaults/Configured.antt =====
-- What `SetDefaults_OnecloudClusterConfig` leaves: a configuration, in every order of its maps,
-- whose services with a database have all they need.
use mathlib.Core.Option
use mathlib.Core.Path.{subst}
use cloudpods_operator.Prelude.{
  ℕ, String, ◌≡◌, refl, ◌≢◌, ◌∙◌, ap, Bool-cases, inl, inr, none, some, List, [], ◌∷◌, str_eq,
  eq_iff, arith,
}
use cloudpods_operator.Defaults.Types.{Fields, set_at}
use cloudpods_operator.Defaults.Image.{or_default}
use cloudpods_operator.Defaults.Parts.{or_number}
use cloudpods_operator.Defaults.Spec.{fill_password}
use cloudpods_operator.Defaults.Options.{
  UserPort, UserDbPort, ServiceDbCommonOptions, OnecloudClusterConfig, user_db_ports,
}
use cloudpods_operator.Defaults.Config.{
  set_db_config, set_service_db_common_options, default_config, set_keystone_config, set_services,
  finish_config, set_global_common_config,
}
use cloudpods_operator.Defaults.Loops.{entry, Keyed, SameMap}
use cloudpods_operator.Defaults.Registry.{
  set_all_db_services, set_db_services-all, none-Unregistered, order-PortsDiffer,
}

-- The options of a service before and after: what is set is kept, the rest is filled in, and no
-- password is missing.
pub record Configured (svc : UserDbPort) (old new : ServiceDbCommonOptions) : Type 0 where
  pub port : new.common.port ≡ or_number old.common.port svc.port
  pub user : new.common.cloud_user.username ≡ or_default old.common.cloud_user.username svc.user
  pub password : new.common.cloud_user.password ≢ ""
  pub database : new.db.database ≡ or_default old.db.database svc.db
  pub db_user : new.db.username ≡ or_default old.db.username svc.db_user
  pub db_password : new.db.password ≢ ""
  pub clickhouse_password : new.clickhouse_conf.password ≢ ""
  pub clickhouse_database :
      new.clickhouse_conf.database ≡ or_default old.clickhouse_conf.database svc.db
  pub clickhouse_user :
      new.clickhouse_conf.username ≡ or_default old.clickhouse_conf.username svc.db_user
  pub password_kept :
      old.common.cloud_user.password ≢ ""
      → new.common.cloud_user.password ≡ old.common.cloud_user.password
  pub db_password_kept : old.db.password ≢ "" → new.db.password ≡ old.db.password
  pub clickhouse_password_kept :
      old.clickhouse_conf.password ≢ ""
      → new.clickhouse_conf.password ≡ old.clickhouse_conf.password

module _ (draw : ℕ → String) (drawn : (n : ℕ) → draw n ≢ "") where
  fill_password-set : (n : ℕ) (s : String) → (fill_password draw n s).0 ≢ ""
  unfolding fill_password
  fill_password-set n s = ground (arith, drawn n, eq_iff s "")

  fill_password-kept : (n : ℕ) (s : String) → s ≢ "" → (fill_password draw n s).0 ≡ s
  unfolding fill_password
  fill_password-kept n s h = elim (Bool-cases (str_eq s "")) [
    | inl e ↦ absurd (h ((eq_iff s "").0 e))
    | inr e ↦ rw e
  ]

  set_service_db_common_options-Configured :
      (svc : UserDbPort) (old : ServiceDbCommonOptions) (n : ℕ)
      → Configured svc old (set_service_db_common_options draw svc old n).0
  unfolding set_service_db_common_options
  set_service_db_common_options-Configured svc old n = record {
    port = refl;
    user = refl;
    password =
        fill_password-set
          (set_db_config draw svc.db svc.db_user old.clickhouse_conf
            (set_db_config draw svc.db svc.db_user old.db n).1).1
          old.common.cloud_user.password;
    database = refl;
    db_user = refl;
    db_password = fill_password-set n old.db.password;
    clickhouse_password =
        fill_password-set (set_db_config draw svc.db svc.db_user old.db n).1
          old.clickhouse_conf.password;
    clickhouse_database = refl;
    clickhouse_user = refl;
    password_kept =
        fill_password-kept
          (set_db_config draw svc.db svc.db_user old.clickhouse_conf
            (set_db_config draw svc.db svc.db_user old.db n).1).1
          old.common.cloud_user.password;
    db_password_kept = fill_password-kept n old.db.password;
    clickhouse_password_kept =
        fill_password-kept (set_db_config draw svc.db svc.db_user old.db n).1
          old.clickhouse_conf.password;
  }

-- The loop leaves the fields that it does not name.
module _ (draw : ℕ → String) where
  set_all-other :
      (xs : List (String × UserDbPort)) (s : Fields ServiceDbCommonOptions × ℕ) (name : String)
      → entry name xs ≡ none
      → (set_all_db_services draw xs s).0 name ≡ s.0 name
  unfolding set_all_db_services
  set_all-other [] s name h = refl
  set_all-other ((key, svc) ∷ rest) s name h = elim (Bool-cases (str_eq key name)) [
    | inl same ↦ let found : some svc ≡ none = rw same at h in absurd (cc)
    | inr other ↦ set_all-other rest _ name (rw other at h) ∙ (rw other refl)
  ]

  set_all-named :
      (drawn : (n : ℕ) → draw n ≢ "") (xs : List (String × UserDbPort))
      (s : Fields ServiceDbCommonOptions × ℕ) (name : String) (svc : UserDbPort)
      → Keyed xs
      → entry name xs ≡ some svc
      → Configured svc (s.0 name) ((set_all_db_services draw xs s).0 name)
  unfolding set_all_db_services
  set_all-named drawn [] s name svc k h = absurd (cc)
  set_all-named drawn ((key, own) ∷ rest) s name svc k h =
      let set = set_service_db_common_options draw own (s.0 key) s.1 in
      let later : Fields ServiceDbCommonOptions × ℕ = (set_at key set.0 s.0, set.1) in
      elim (Bool-cases (str_eq key name)) [
        | inl same ↦
            let q = (eq_iff key name).0 same in
            let found : some own ≡ some svc = rw same at h in
            let absent = subst (λ x. entry x rest ≡ none) q k.0 in
            rw (set_all-other rest later name absent) (
              rw same (
                subst (λ x. Configured svc (s.0 x) set.0) q
                  (subst (λ (x : UserDbPort). Configured x (s.0 key) set.0) (cc)
                    (set_service_db_common_options-Configured draw drawn own (s.0 key) s.1))))
        | inr other ↦
            let kept : later.0 name ≡ s.0 name = rw other refl in
            subst (λ old. Configured svc old ((set_all_db_services draw rest later).0 name)) kept
              (set_all-named drawn rest later name svc k.1 (rw other at h))
      ]

-- `SetDefaults_OnecloudClusterConfig` returns, in every order in which Go visits its two maps: it
-- never finds a port that is registered already, which would end the program. Each service with a
-- database then keeps what its options said, has the port, the users and the database that they did
-- not say, and has its three passwords. It takes a source of passwords that are not empty.
pub default_config-Configured :
    (draw : ℕ → String) (users : List (String × UserPort)) (db_users : List (String × UserDbPort))
    (obj : OnecloudClusterConfig) (n : ℕ)
    → ((m : ℕ) → draw m ≢ "")
    → SameMap db_users user_db_ports
    → (r : OnecloudClusterConfig × ℕ) × (default_config draw users db_users (obj, n) ≡ some r)
      × ((name : String) (svc : UserDbPort)
          → entry name user_db_ports ≡ some svc
          → Configured svc (obj.db_services name) (r.0.db_services name))
unfolding default_config
default_config-Configured draw users db_users obj n drawn order =
    let keystone = set_keystone_config draw obj.keystone n in
    let set = record obj {
      common_config = set_global_common_config obj.common_config;
      keystone = keystone.0;
    } in
    let services = set_services draw users (obj.services, keystone.1) in
    let all = set_all_db_services draw db_users (obj.db_services, services.1) in
    (
      finish_config draw set services.0 all,
      ap (Option.map (finish_config draw set services.0)) (
          set_db_services-all draw db_users [] (obj.db_services, services.1)
            (none-Unregistered db_users) (order-PortsDiffer db_users order)),
      λ name svc e.
          set_all-named draw drawn db_users (obj.db_services, services.1) name svc order.keyed
            (order.entries name ∙ e),
    )
