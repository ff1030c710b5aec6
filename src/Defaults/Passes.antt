-- ===== src/Defaults/Passes.antt =====
-- A sequence of writes and loops over one family of fields, read at a single field: the effects of
-- those that reach it, in their order. A second pass of the same effects changes nothing.
use mathlib.Core.Path.{fun_ext}
use cloudpods_operator.Prelude.{
  String, ◌≡◌, ◌∙◌, sym, ap, Bool, true, false, Option, none, some, List, str_eq, if◌then◌else◌,
}
use cloudpods_operator.Defaults.Types.{Fields}
use cloudpods_operator.Defaults.Spec.{for_range, update}
use cloudpods_operator.Defaults.Loops.{entry, Keyed, visit, for_range-at, update-at}
use cloudpods_operator.Defaults.Effects.{Action}

-- The effect of a write, and of a loop, on one field.
abbrev pub if_named : {E : Type 0} → E → Bool → E → E
if_named unchanged named e = if named then e else unchanged

abbrev pub if_found : {E B : Type 0} → E → (B → E) → Option B → E
if_found unchanged effect none = unchanged
if_found unchanged effect (some value) = effect value

module _ {E D : Type 0} (a : Action E D) where
  open a use {on, then_on, idle_effect, on_idle, on_after, after_self}

  written :
      (named : Bool) (f : D → D) (e before : E) (field d : D)
      → ((d : D) → f d ≡ on e d)
      → field ≡ on before d
      → (if named then f field else field) ≡ on (then_on (if_named idle_effect named e) before) d
  written true f e before field d is same = is field ∙ ap (on e) same ∙ on_after e before d
  written false f e before field d is same =
      sym (on_idle field) ∙ ap (on idle_effect) same ∙ on_after idle_effect before d

  pub then_update :
      (key name : String) (f : D → D) (e before : E) (fields : Fields D) (d : D)
      → ((d : D) → f d ≡ on e d)
      → fields name ≡ on before d
      → update key f fields name ≡ on (then_on (if_named idle_effect (str_eq key name) e) before) d
  then_update key name f e before fields d is same =
      update-at key name f fields ∙ written (str_eq key name) f e before (fields name) d is same

  visited :
      {B : Type 0} (body : String → B → D → D) (effect : B → E) (before : E) (name : String)
      (found : Option B) (field d : D)
      → ((value : B) (d : D) → body name value d ≡ on (effect value) d)
      → field ≡ on before d
      → visit body name found field ≡ on (then_on (if_found idle_effect effect found) before) d
  visited body effect before name none field d is same =
      sym (on_idle field) ∙ ap (on idle_effect) same ∙ on_after idle_effect before d
  visited body effect before name (some value) field d is same =
      is value field ∙ ap (on (effect value)) same ∙ on_after (effect value) before d

  pub then_loop :
      {B : Type 0} (body : String → B → D → D) (effect : B → E) (before : E)
      (xs : List (String × B)) (name : String) (fields : Fields D) (d : D)
      → Keyed xs
      → ((value : B) (d : D) → body name value d ≡ on (effect value) d)
      → fields name ≡ on before d
      → for_range xs body fields name
        ≡ on (then_on (if_found idle_effect effect (entry name xs)) before) d
  then_loop body effect before xs name fields d k is same =
      for_range-at body xs fields name k
      ∙ visited body effect before name (entry name xs) (fields name) d is same

  on-on : (e : E) (d : D) → on e (on e d) ≡ on e d
  on-on e d = on_after e e d ∙ ap (λ f. on f d) (after_self e)

  -- A second pass with the same effects leaves every field as the first did.
  pub second_pass :
      (e : String → E) (before first second : Fields D)
      → ((name : String) → first name ≡ on (e name) (before name))
      → ((name : String) → second name ≡ on (e name) (first name))
      → second ≡ first
  second_pass e before first second p q =
      fun_ext
        (λ name. q name ∙ ap (on (e name)) (p name) ∙ on-on (e name) (before name) ∙ sym (p name))
