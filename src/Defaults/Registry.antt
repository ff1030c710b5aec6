-- ===== src/Defaults/Registry.antt =====
-- The ports that `SetDefaults_OnecloudClusterConfig` registers: no two services with a database
-- have one port, so the program never ends in `log.Fatalf`.
use cloudpods_operator.Prelude.{
  ℕ, String, ◌≡◌, refl, ◌≢◌, ◌∙◌, sym, Bool, true, false, ◌&&◌, not, Bool-cases, inl, inr, none,
  some, List, [], ◌∷◌, ◌==◌, some_of, str_eq, eq_iff, eq_refl, and-left, and-right, arith,
}
use cloudpods_operator.Defaults.Types.{Fields, set_at}
use cloudpods_operator.Defaults.Options.{UserDbPort, ServiceDbCommonOptions, user_db_ports}
use cloudpods_operator.Defaults.Config.{set_db_services, set_service_db_common_options}
use cloudpods_operator.Defaults.Loops.{entry, Keyed, SameMap}

abbrev Entries : Type 0
Entries = List (String × UserDbPort)

-- No entry has this port.
abbrev Differs : ℕ → Entries → Type 0
Differs port [] = Unit {0}
Differs port ((name, svc) ∷ rest) = (svc.port ≢ port) × Differs port rest

abbrev pub PortsDiffer : Entries → Type 0
PortsDiffer [] = Unit {0}
PortsDiffer ((name, svc) ∷ rest) = Differs svc.port rest × PortsDiffer rest

-- No entry's port is registered.
abbrev pub Unregistered : List ℕ → Entries → Type 0
Unregistered registry [] = Unit {0}
Unregistered registry ((name, svc) ∷ rest) =
    (some_of (λ port. port == svc.port) registry ≡ false) × Unregistered registry rest

pub none-Unregistered : (xs : Entries) → Unregistered [] xs
none-Unregistered [] = tt
none-Unregistered ((name, svc) ∷ rest) = (refl, none-Unregistered rest)

register-Unregistered :
    (port : ℕ) (registry : List ℕ) (xs : Entries)
    → Unregistered registry xs
    → Differs port xs
    → Unregistered (port ∷ registry) xs
register-Unregistered port registry [] u d = tt
register-Unregistered port registry ((name, svc) ∷ rest) u d =
    (ground arith, register-Unregistered port registry rest u.1 d.1)

-- The loop with no test of the registry.
unfoldable pub set_all_db_services :
    (ℕ → String) → Entries → Fields ServiceDbCommonOptions × ℕ → Fields ServiceDbCommonOptions × ℕ
set_all_db_services draw [] s = s
set_all_db_services draw ((name, svc) ∷ rest) s =
    let set = set_service_db_common_options draw svc (s.0 name) s.1 in
    set_all_db_services draw rest (set_at name set.0 s.0, set.1)

pub set_db_services-all :
    (draw : ℕ → String) (xs : Entries) (registry : List ℕ) (s : Fields ServiceDbCommonOptions × ℕ)
    → Unregistered registry xs
    → PortsDiffer xs
    → set_db_services draw xs registry s ≡ some (set_all_db_services draw xs s)
unfolding set_db_services set_all_db_services
set_db_services-all draw [] registry s u d = refl
set_db_services-all draw ((name, svc) ∷ rest) registry s u d =
    let set = set_service_db_common_options draw svc (s.0 name) s.1 in
    rw u.0 (
      set_db_services-all draw rest (svc.port ∷ registry) (set_at name set.0 s.0, set.1)
        (register-Unregistered svc.port registry rest u.1 d.0) d.1)

-- Entries with one port have one name.
abbrev Spread : Entries → Type 0
Spread xs =
    (a b : String) (v w : UserDbPort)
    → entry a xs ≡ some v
    → entry b xs ≡ some w
    → v.port ≡ w.port
    → a ≡ b

Differs-entry :
    (port : ℕ) (xs : Entries) (b : String) (w : UserDbPort)
    → Differs port xs
    → entry b xs ≡ some w
    → w.port ≢ port
Differs-entry port [] b w d e = absurd (cc)
Differs-entry port ((name, svc) ∷ rest) b w d e = elim (Bool-cases (str_eq name b)) [
  | inl same ↦ λ p. d.0 (cc)
  | inr other ↦ Differs-entry port rest b w d.1 (rw other at e)
]

PortsDiffer-Spread : (xs : Entries) → PortsDiffer xs → Spread xs
PortsDiffer-Spread [] d a b v w e f p = absurd (cc)
PortsDiffer-Spread ((name, svc) ∷ rest) d a b v w e f p = elim (Bool-cases (str_eq name a)) [
  | inl at_a ↦
      let head : some svc ≡ some v = rw at_a at e in
      elim (Bool-cases (str_eq name b)) [
        | inl at_b ↦ sym ((eq_iff name a).0 at_a) ∙ (eq_iff name b).0 at_b
        | inr in_b ↦ absurd (Differs-entry svc.port rest b w d.0 (rw in_b at f) (cc))
      ]
  | inr in_a ↦ elim (Bool-cases (str_eq name b)) [
    | inl at_b ↦
        let head : some svc ≡ some w = rw at_b at f in
        absurd (Differs-entry svc.port rest a v d.0 (rw in_a at e) (cc))
    | inr in_b ↦ PortsDiffer-Spread rest d.1 a b v w (rw in_a at e) (rw in_b at f) p
  ]
]

tail_entry :
    (name : String) (svc : UserDbPort) (rest : Entries) (b : String) (w : UserDbPort)
    → entry name rest ≡ none
    → entry b rest ≡ some w
    → entry b ((name, svc) ∷ rest) ≡ some w
tail_entry name svc rest b w absent e = elim (Bool-cases (str_eq name b)) [
  | inl same ↦ let q = (eq_iff name b).0 same in absurd (cc)
  | inr other ↦ rw other e
]

entries-Differs :
    (port : ℕ) (xs : Entries)
    → Keyed xs
    → ((b : String) (w : UserDbPort) → entry b xs ≡ some w → w.port ≢ port)
    → Differs port xs
entries-Differs port [] k h = tt
entries-Differs port ((name, svc) ∷ rest) k h = (
  h name svc (rw (eq_refl name) refl),
  entries-Differs port rest k.1 (λ b w e. h b w (tail_entry name svc rest b w k.0 e)),
)

Spread-PortsDiffer : (xs : Entries) → Keyed xs → Spread xs → PortsDiffer xs
Spread-PortsDiffer [] k h = tt
Spread-PortsDiffer ((name, svc) ∷ rest) k h = (
  entries-Differs svc.port rest k.1 (λ b w e p.
      let q = h b name w svc (tail_entry name svc rest b w k.0 e) (rw (eq_refl name) refl) p in
      absurd (cc)),
  Spread-PortsDiffer rest k.1 (λ a b v w e f.
      h a b v w (tail_entry name svc rest a v k.0 e) (tail_entry name svc rest b w k.0 f)),
)

-- The test of `PortsDiffer`, for the table of the source.
abbrev differs : ℕ → Entries → Bool
differs port [] = true
differs port ((name, svc) ∷ rest) = not (svc.port == port) && differs port rest

abbrev ports_differ : Entries → Bool
ports_differ [] = true
ports_differ ((name, svc) ∷ rest) = differs svc.port rest && ports_differ rest

differs-Differs : (port : ℕ) (xs : Entries) → differs port xs ≡ true → Differs port xs
differs-Differs port [] h = tt
differs-Differs port ((name, svc) ∷ rest) h = (
  λ e. ground arith,
  differs-Differs port rest (and-right (not (svc.port == port)) (differs port rest) h),
)

ports_differ-PortsDiffer : (xs : Entries) → ports_differ xs ≡ true → PortsDiffer xs
ports_differ-PortsDiffer [] h = tt
ports_differ-PortsDiffer ((name, svc) ∷ rest) h = (
  differs-Differs svc.port rest (and-left (differs svc.port rest) (ports_differ rest) h),
  ports_differ-PortsDiffer rest (and-right (differs svc.port rest) (ports_differ rest) h),
)

user_db_ports-PortsDiffer : PortsDiffer user_db_ports
unfolding user_db_ports
user_db_ports-PortsDiffer = ports_differ-PortsDiffer user_db_ports refl

-- In every order of the map the ports differ.
pub order-PortsDiffer : (xs : Entries) → SameMap xs user_db_ports → PortsDiffer xs
order-PortsDiffer xs m = Spread-PortsDiffer xs m.keyed (λ a b v w e f.
    PortsDiffer-Spread user_db_ports user_db_ports-PortsDiffer a b v w (sym (m.entries a) ∙ e)
      (sym (m.entries b) ∙ f))
