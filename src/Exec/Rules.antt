-- ===== src/Exec/Rules.antt =====
-- Rules for proofs about `Exec`: no panic, and a property of the state that a method leaves.
use cloudpods_operator.Prelude.{◌≡◌, refl, ◌≢◌, Bool, true, false, List, [], ◌∷◌, if◌then◌else◌}
use cloudpods_operator.Exec.{
  Outcome, ok, err, panic, Err, Exec, Void, next, ◌>>=◌, map_err, annotate, for_each,
}

-- The method did not panic, and `P` holds of the state after it, also where it failed.
pub record Holds {S A : Type 0} (P : S → Type 0) (r : Outcome A × S) : Type 0 where
  pub calm : r.0 ≢ panic
  pub after : P r.1

module _ {S A B : Type 0} (P Q : S → Type 0) where
  next-Holds :
      (r : Outcome A) (f : A → Exec S B) (t : S)
      → r ≢ panic
      → P t
      → (P t → Q t)
      → ((a : A) → P t → Holds Q (f a t))
      → Holds Q (next r f t)
  next-Holds (ok a) f t c p weaken k = k a p
  next-Holds (err e) f t c p weaken k = record { calm = λ h. cc; after = weaken p }
  next-Holds panic f t c p weaken k = absurd (c refl)

  -- What the first part leaves is handed to the second, and weakened where the first part fails.
  pub Holds-bind :
      (m : Exec S A) (f : A → Exec S B) (s : S)
      → Holds P (m s)
      → ((t : S) → P t → Q t)
      → ((a : A) (t : S) → P t → Holds Q (f a t))
      → Holds Q ((m >>= f) s)
  Holds-bind m f s h weaken k =
      next-Holds (m s).0 f (m s).1 h.calm h.after (weaken (m s).1) (λ a p. k a (m s).1 p)

module _ {S A B : Type 0} (P Q : S → Type 0) where
  next-Holds_value :
      (r : Outcome A) (f : A → Exec S B) (t : S)
      → r ≢ panic
      → P t
      → (P t → Q t)
      → ((a : A) → r ≡ ok a → P t → Holds Q (f a t))
      → Holds Q (next r f t)
  next-Holds_value (ok a) f t c p weaken k = k a refl p
  next-Holds_value (err e) f t c p weaken k = record { calm = λ h. cc; after = weaken p }
  next-Holds_value panic f t c p weaken k = absurd (c refl)

  -- The same, where the second part wants to know what the first returned.
  pub Holds-bind_value :
      (m : Exec S A) (f : A → Exec S B) (s : S)
      → Holds P (m s)
      → ((t : S) → P t → Q t)
      → ((a : A) (t : S) → (m s).0 ≡ ok a → P t → Holds Q (f a t))
      → Holds Q ((m >>= f) s)
  Holds-bind_value m f s h weaken k =
      next-Holds_value (m s).0 f (m s).1 h.calm h.after (weaken (m s).1) (λ a e p. k a (m s).1 e p)

map_err-calm : {A : Type 0} (g : Err → Err) (r : Outcome A) → r ≢ panic → map_err g r ≢ panic
map_err-calm g (ok a) c = c
map_err-calm g (err e) c = λ h. cc
map_err-calm g panic c = c

module _ {S A : Type 0} {P : S → Type 0} where
  pub Holds-annotate :
      (g : Err → Err) (m : Exec S A) (s : S) → Holds P (m s) → Holds P (annotate g m s)
  Holds-annotate g m s h = record { calm = map_err-calm g (m s).0 h.calm; after = h.after }

  pub Holds-ok : (a : A) (s : S) → P s → Holds {A = A} P (ok a, s)
  Holds-ok a s p = record { calm = λ h. cc; after = p }

  pub Holds-err : (e : Err) (s : S) → P s → Holds {A = A} P (err e, s)
  Holds-err e s p = record { calm = λ h. cc; after = p }

  pub Holds-if :
      (b : Bool) (m n : Exec S A) (s : S)
      → (b ≡ true → Holds P (m s))
      → (b ≡ false → Holds P (n s))
      → Holds P ((if b then m else n) s)
  Holds-if true m n s h k = h refl
  Holds-if false m n s h k = k refl

  pub Holds-weaken :
      {Q : S → Type 0} (r : Outcome A × S) → Holds P r → ((t : S) → P t → Q t) → Holds Q r
  Holds-weaken r h w = record { calm = h.calm; after = w r.1 h.after }

module _ {S A : Type 0} {P : S → Type 0} where
  pub Holds-for_each :
      (xs : List A) (body : A → Exec S Void) (s : S)
      → ((x : A) (t : S) → P t → Holds P (body x t))
      → P s
      → Holds P (for_each xs body s)
  Holds-for_each [] body s h p = Holds-ok tt s p
  Holds-for_each (x ∷ xs) body s h p =
      Holds-bind P P (body x) (λ _. for_each xs body) s (h x s p) (λ t q. q)
        (λ a t q. Holds-for_each xs body t h q)
