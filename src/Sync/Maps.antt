-- ===== src/Sync/Maps.antt =====
-- Go maps of labels and annotations, in pkg/manager/component/utils.go.
use mathlib.Core.Bool.{false≢true}
use cloudpods_operator.Prelude.{
  String, ◌≡◌, refl, ◌∙◌, ◌↔◌, inl, inr, true, false, Bool-cases, Option-cases, Option, none, some,
  [], ◌∷◌, str_eq, eq_iff, eq_refl, arith,
}
use cloudpods_operator.Etcd.Types.{Labels}
use cloudpods_operator.Sync.Objects.{
  find, put, combine_annotations, all_match, selector_matches_labels,
}

pub find-put : (key value : String) (m : Labels) → find key (put key value m) ≡ some value
unfolding find put
find-put key value [] = rw (eq_refl key)
find-put key value ((k, v) ∷ rest) = elim (Bool-cases (str_eq key k)) [
  | inl e ↦ rw (e, e)
  | inr e ↦ rw (e, e, find-put key value rest)
]

pub find-put_other :
    (key other value : String) (m : Labels)
    → str_eq key other ≡ false
    → find key (put other value m) ≡ find key m
unfolding find put
find-put_other key other value [] h = rw h
find-put_other key other value ((k, v) ∷ rest) h =
    ground
      (arith, find-put_other key other value rest h, eq_iff key k, eq_iff other k, eq_iff key other)

-- The keys of a Go map are distinct.
abbrev pub HasDistinctKeys : Labels → Type 0
HasDistinctKeys [] = Unit
HasDistinctKeys ((k, v) ∷ rest) = (find k rest ≡ none) × HasDistinctKeys rest

abbrev pub or_else : Option String → Option String → Option String
or_else none b = b
or_else (some a) b = some a

-- After annotations are combined, a key has the second map's value, where that has one, and else
-- the first map's.
pub find-combine_annotations :
    (key : String) (a b : Labels)
    → HasDistinctKeys b
    → find key (combine_annotations a b) ≡ or_else (find key b) (find key a)
unfolding find combine_annotations
find-combine_annotations key a [] h = refl
find-combine_annotations key a ((k, v) ∷ b) h =
    find-combine_annotations key (put k v a) b h.1 ∙ elim (Bool-cases (str_eq key k)) [
      | inl e ↦ rw (e, (eq_iff key k).0 e, h.0, find-put k v a)
      | inr e ↦ rw (e, find-put_other key k v a e)
    ]

all_match-cons :
    (k v : String) (rest labels : Labels)
    → all_match ((k, v) ∷ rest) labels ≡ true
    → (find k labels ≡ some v) × (all_match rest labels ≡ true)
unfolding all_match
all_match-cons k v rest labels h = elim (Option-cases (find k labels)) [
  | inl e ↦ absurd (false≢true (rw e at h))
  | inr (value, e) ↦ ground (arith, rw e at h, e, eq_iff value v)
]

cons-all_match :
    (k v : String) (rest labels : Labels)
    → find k labels ≡ some v
    → all_match rest labels ≡ true
    → all_match ((k, v) ∷ rest) labels ≡ true
unfolding all_match
cons-all_match k v rest labels e h = rw (e, eq_refl v, h)

all_match-find :
    (selector labels : Labels)
    → all_match selector labels ≡ true
    → (k v : String) → find k selector ≡ some v
    → find k labels ≡ some v
unfolding find
all_match-find [] labels h k v e = absurd (cc)
all_match-find ((x, y) ∷ rest) labels h k v e =
    let (first, others) = all_match-cons x y rest labels h in
    ground (arith, first, all_match-find rest labels others k v, eq_iff k x)

find-all_match :
    (selector labels : Labels)
    → HasDistinctKeys selector
    → ((k v : String) → find k selector ≡ some v → find k labels ≡ some v)
    → all_match selector labels ≡ true
unfolding find all_match
find-all_match [] labels d h = refl
find-all_match ((x, y) ∷ rest) labels d h =
    cons-all_match x y rest labels (h x y (rw (eq_refl x)))
      (find-all_match rest labels d.1 λ k v e. h k v (later k v e))
  where
    later : (k v : String) → find k rest ≡ some v → find k ((x, y) ∷ rest) ≡ some v
    later k v e = ground (arith, e, d.0, eq_iff k x)

-- A selector matches exactly where every pair of it is among the labels.
pub selector_matches_labels_iff :
    (selector labels : Labels)
    → HasDistinctKeys selector
    → (selector_matches_labels (some selector) labels ≡ true)
      ↔ ((k v : String) → find k selector ≡ some v → find k labels ≡ some v)
unfolding selector_matches_labels
selector_matches_labels_iff selector labels d =
    (all_match-find selector labels, find-all_match selector labels d)
