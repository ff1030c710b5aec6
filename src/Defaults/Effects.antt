-- ===== src/Defaults/Effects.antt =====
-- What a sequence of defaults does to one deployment or daemon set, where ClearComponent is off:
-- the last image wins, and all else is done once.
use cloudpods_operator.Prelude.{
  ℕ, String, ◌≡◌, refl, Bool, true, false, ◌||◌, Option, none, some, [], ◌∷◌, List, if◌then◌else◌,
  arith,
}
use cloudpods_operator.Defaults.Types.{
  ContainerSpec, DeploymentSpec, DaemonSetSpec, DnsConfig, Toleration,
}
use cloudpods_operator.Defaults.Image.{or_default}
use cloudpods_operator.Defaults.Parts.{default_replicas, default_tolerations, default_dns_config}

-- An image is made of the repository, the name and the tag of the container.
abbrev pub Naming : Type 0
Naming = String → String → String → String

-- The image, and whether the pull policy is set where there is none, or in any case.
pub data Pull : Type 0 where
  keep fill force : Pull

pub record ContainerEffect : Type 0 where
  pub image : Option Naming
  pub pull : Pull

pub record Effect : Type 0 where
  pub container : ContainerEffect
  pub defaults : Bool
  pub dns : Bool

-- A daemon set has no DNS configuration.
pub record DaemonEffect : Type 0 where
  pub container : ContainerEffect
  pub defaults : Bool

abbrev pub nothing : ContainerEffect
nothing = record { image = none; pull = keep }

abbrev pub idle : Effect
idle = record { container = nothing; defaults = false; dns = false }

abbrev pub idle_daemon : DaemonEffect
idle_daemon = record { container = nothing; defaults = false }

abbrev pull_policy : Pull → String → String
pull_policy keep p = p
pull_policy fill p = or_default p "IfNotPresent"
pull_policy force p = "IfNotPresent"

abbrev named : Option Naming → String → String → String → String → String
named none image repository name tag = image
named (some f) image repository name tag = f repository name tag

abbrev later_pull : Pull → Pull → Pull
later_pull keep q = q
later_pull fill keep = fill
later_pull fill fill = fill
later_pull fill force = force
later_pull force q = force

abbrev later_image : Option Naming → Option Naming → Option Naming
later_image none g = g
later_image (some f) g = some f

abbrev pub after_container : ContainerEffect → ContainerEffect → ContainerEffect
after_container e f = record {
  image = later_image e.image f.image;
  pull = later_pull e.pull f.pull;
}

-- `after e f`: first `f`, then `e`.
abbrev pub after : Effect → Effect → Effect
after e f = record {
  container = after_container e.container f.container;
  defaults = e.defaults || f.defaults;
  dns = e.dns || f.dns;
}

abbrev pub after_daemon : DaemonEffect → DaemonEffect → DaemonEffect
after_daemon e f = record {
  container = after_container e.container f.container;
  defaults = e.defaults || f.defaults;
}

pull_policy-later :
    (p q : Pull) (s : String) → pull_policy p (pull_policy q s) ≡ pull_policy (later_pull p q) s
pull_policy-later keep q s = refl
pull_policy-later fill keep s = refl
pull_policy-later fill fill s = ground arith
pull_policy-later fill force s = refl
pull_policy-later force q s = refl

named-later :
    (f g : Option Naming) (image r n t : String)
    → named f (named g image r n t) r n t ≡ named (later_image f g) image r n t
named-later none g image r n t = refl
named-later (some f) g image r n t = refl

pub default_tolerations-settled :
    (ts : List Toleration) → default_tolerations (default_tolerations ts) ≡ default_tolerations ts
unfolding default_tolerations
default_tolerations-settled [] = refl
default_tolerations-settled (t ∷ ts) = refl

pub default_replicas-settled :
    (disable : Bool) (n : ℕ)
    → default_replicas disable (default_replicas disable n) ≡ default_replicas disable n
unfolding default_replicas
default_replicas-settled disable n = ground arith

default_dns_config-settled :
    (c : Option DnsConfig) → default_dns_config (default_dns_config c) ≡ default_dns_config c
unfolding default_dns_config
default_dns_config-settled none = refl
default_dns_config-settled (some c) = refl

module _ {P : Type 0} where
  abbrev pub on_container : ContainerEffect → ContainerSpec P → ContainerSpec P
  on_container e c = record c {
    image = named e.image c.image c.repository c.image_name c.tag;
    image_pull_policy = pull_policy e.pull c.image_pull_policy;
  }

  abbrev pub on_deployment : Effect → DeploymentSpec P → DeploymentSpec P
  on_deployment e d = record d {
    container = on_container e.container d.container;
    replicas = if e.defaults then default_replicas d.disable d.replicas else d.replicas;
    tolerations = if e.defaults then default_tolerations d.tolerations else d.tolerations;
    dns_config = if e.dns then default_dns_config d.dns_config else d.dns_config;
  }

  abbrev pub on_daemon_set : DaemonEffect → DaemonSetSpec P → DaemonSetSpec P
  on_daemon_set e d = record d {
    container = on_container e.container d.container;
    tolerations = if e.defaults then default_tolerations d.tolerations else d.tolerations;
  }

once {ℓ} :
    {A : Type ℓ} (f : A → A) (a : A) (b c : Bool)
    → f (f a) ≡ f a
    → (if b then f (if c then f a else a) else (if c then f a else a)) ≡ (if b || c then f a else a)
once f a true true h = h
once f a true false h = refl
once f a false c h = refl

module _ {P : Type 0} where
  pub on_container-after :
      (e f : ContainerEffect) (c : ContainerSpec P)
      → on_container e (on_container f c) ≡ on_container (after_container e f) c
  on_container-after e f c = simp (named-later e.image f.image, pull_policy-later e.pull f.pull)

  pub on_deployment-after :
      (e f : Effect) (d : DeploymentSpec P)
      → on_deployment e (on_deployment f d) ≡ on_deployment (after e f) d
  on_deployment-after e f d = simp (
    named-later,
    pull_policy-later,
    once (default_replicas d.disable) d.replicas e.defaults f.defaults
        (default_replicas-settled _ _),
    once default_tolerations d.tolerations e.defaults f.defaults (default_tolerations-settled _),
    once default_dns_config d.dns_config e.dns f.dns (default_dns_config-settled _),
  )

  pub on_daemon_set-after :
      (e f : DaemonEffect) (d : DaemonSetSpec P)
      → on_daemon_set e (on_daemon_set f d) ≡ on_daemon_set (after_daemon e f) d
  on_daemon_set-after e f d = simp (
    named-later,
    pull_policy-later,
    once default_tolerations d.tolerations e.defaults f.defaults (default_tolerations-settled _),
  )

later_pull_self : (p : Pull) → later_pull p p ≡ p
later_pull_self keep = refl
later_pull_self fill = refl
later_pull_self force = refl

later_image_self : (f : Option Naming) → later_image f f ≡ f
later_image_self none = refl
later_image_self (some f) = refl

or_self : (b : Bool) → (b || b) ≡ b
or_self true = refl
or_self false = refl

pub after_container_self : (e : ContainerEffect) → after_container e e ≡ e
after_container_self e = simp (later_pull_self, later_image_self)

pub after_self_lem : (e : Effect) → after e e ≡ e
after_self_lem e = simp (later_pull_self, later_image_self, or_self)

pub after_daemon_self : (e : DaemonEffect) → after_daemon e e ≡ e
after_daemon_self e = simp (later_pull_self, later_image_self, or_self)

-- Effects that follow one another, and are settled after the first time.
pub record Action (E D : Type 0) : Type 0 where
  pub on : E → D → D
  pub then_on : E → E → E
  pub idle_effect : E
  pub on_idle : (d : D) → on idle_effect d ≡ d
  pub on_after : (e f : E) (d : D) → on e (on f d) ≡ on (then_on e f) d
  pub after_self : (e : E) → then_on e e ≡ e

abbrev pub on_deployments : {P : Type 0} → Action Effect (DeploymentSpec P)
on_deployments = record {
  on = on_deployment;
  then_on = after;
  idle_effect = idle;
  on_idle = λ d. refl;
  on_after = on_deployment-after;
  after_self = after_self_lem;
}

abbrev pub on_daemon_sets : {P : Type 0} → Action DaemonEffect (DaemonSetSpec P)
on_daemon_sets = record {
  on = on_daemon_set;
  then_on = after_daemon;
  idle_effect = idle_daemon;
  on_idle = λ d. refl;
  on_after = on_daemon_set-after;
  after_self = after_daemon_self;
}

abbrev pub on_containers : {P : Type 0} → Action ContainerEffect (ContainerSpec P)
on_containers = record {
  on = on_container;
  then_on = after_container;
  idle_effect = nothing;
  on_idle = λ d. refl;
  on_after = on_container-after;
  after_self = after_container_self;
}
