-- ===== src/Defaults/Loops.antt =====
-- What a loop over a Go map does at each of its keys, in whatever order it visits them.
use cloudpods_operator.Prelude.{
  String, ◌≡◌, refl, ◌∙◌, sym, ap, Bool, true, Bool-cases, inl, inr, Option, none, some, List, [],
  ◌∷◌, str_eq, eq_iff, ◌&&◌, is_none, and-left, and-right, if◌then◌else◌,
}
use mathlib.Core.Path.{fun_ext}
use cloudpods_operator.Defaults.Types.{Fields, set_at}
use cloudpods_operator.Defaults.Spec.{for_range, update}

module _ {B : Type 0} where
  abbrev pub entry : String → List (String × B) → Option B
  entry name [] = none
  entry name ((key, value) ∷ rest) =
      let found = entry name rest in if str_eq key name then some value else found

  -- Each key occurs once.
  abbrev pub Keyed : List (String × B) → Type 0
  Keyed [] = Unit
  Keyed ((key, value) ∷ rest) = (entry key rest ≡ none) × Keyed rest

  -- The two lists are orders of one Go map.
  pub record SameMap (xs ys : List (String × B)) : Type 0 where
    pub keyed : Keyed xs
    pub keyed' : Keyed ys
    pub entries : (name : String) → entry name xs ≡ entry name ys

module _ {A B : Type 0} (body : String → B → A → A) where
  abbrev pub visit : String → Option B → A → A
  visit name none field = field
  visit name (some value) field = body name value field

  for_range-head :
      (key name : String) (value : B) (rest : List (String × B)) (fields : Fields A)
      → entry key rest ≡ none
      → visit name (entry name rest) (set_at key (body key value (fields key)) fields name)
        ≡ visit name (entry name ((key, value) ∷ rest)) (fields name)
  for_range-head key name value rest fields absent = elim (Bool-cases (str_eq key name)) [
    | inl same ↦ let e = (eq_iff key name).0 same in rw same (rw (← e) (rw absent refl))
    | inr other ↦ rw other refl
  ]

  pub for_range-at :
      (xs : List (String × B)) (fields : Fields A) (name : String)
      → Keyed xs
      → for_range xs body fields name ≡ visit name (entry name xs) (fields name)
  unfolding for_range
  for_range-at [] fields name k = refl
  for_range-at ((key, value) ∷ rest) fields name k =
      for_range-at rest (set_at key (body key value (fields key)) fields) name k.1
      ∙ for_range-head key name value rest fields k.0

-- The loop does not depend on the order in which Go visits the map.
pub for_range-order :
    {A B : Type 0} (body : String → B → A → A) (xs ys : List (String × B)) (fields : Fields A)
    → SameMap xs ys
    → for_range xs body fields ≡ for_range ys body fields
for_range-order body xs ys fields m = fun_ext (λ name.
    for_range-at body xs fields name m.keyed
    ∙ ap (λ found. visit body name found (fields name)) (m.entries name)
    ∙ sym (for_range-at body ys fields name m.keyed'))

-- A write of one field.
pub update-at :
    {A : Type 0} (key name : String) (f : A → A) (fields : Fields A)
    → update key f fields name ≡ (if str_eq key name then f (fields name) else fields name)
unfolding update
update-at key name f fields = elim (Bool-cases (str_eq key name)) [
  | inl same ↦ let e = (eq_iff key name).0 same in rw same (rw e refl)
  | inr other ↦ rw other refl
]

-- The test of `Keyed`, for the tables of the source.
abbrev is_keyed : {B : Type 0} → List (String × B) → Bool
is_keyed [] = true
is_keyed ((key, value) ∷ rest) = is_none (entry key rest) && is_keyed rest

is_none-none : {B : Type 0} (o : Option B) → is_none o ≡ true → o ≡ none
is_none-none none h = refl
is_none-none (some b) h = cc

pub is_keyed-Keyed : {B : Type 0} (xs : List (String × B)) → is_keyed xs ≡ true → Keyed xs
is_keyed-Keyed [] h = tt
is_keyed-Keyed ((key, value) ∷ rest) h = (
  is_none-none (entry key rest) (and-left _ (is_keyed rest) h),
  is_keyed-Keyed rest (and-right (is_none (entry key rest)) _ h),
)

module _ {A B : Type 0} (body : String → B → A → A) where
  visit-visit :
      (name : String) (found : Option B) (field : A)
      → ((value : B) → body name value (body name value field) ≡ body name value field)
      → visit body name found (visit body name found field) ≡ visit body name found field
  visit-visit name none field h = refl
  visit-visit name (some value) field h = h value

  -- A loop whose body settles each field settles them all.
  pub for_range-for_range :
      (xs : List (String × B)) (fields : Fields A)
      → Keyed xs
      → ((name : String) (value : B) (field : A)
          → body name value (body name value field) ≡ body name value field)
      → for_range xs body (for_range xs body fields) ≡ for_range xs body fields
  for_range-for_range xs fields k h = fun_ext (λ name.
      for_range-at body xs (for_range xs body fields) name k
      ∙ ap (visit body name (entry name xs)) (for_range-at body xs fields name k)
      ∙ visit-visit name (entry name xs) (fields name) (λ value. h name value (fields name))
      ∙ sym (for_range-at body xs fields name k))
