-- ===== src/Exec/Returns.antt =====
-- Rules for proofs about `Exec`: no panic, and a property of the state where the method succeeds.
use cloudpods_operator.Prelude.{◌≡◌, refl, ◌≢◌, Bool, true, false, if◌then◌else◌}
use cloudpods_operator.Exec.{Outcome, ok, err, panic, Err, Exec, next, ◌>>=◌, map_err, annotate}
use cloudpods_operator.Exec.Rules.{Holds}

-- The method did not panic, and `P` holds of the state after it, where it did not fail.
pub record Returns {S A : Type 0} (P : S → Type 0) (r : Outcome A × S) : Type 0 where
  pub calm : r.0 ≢ panic
  pub result : (a : A) → r.0 ≡ ok a → P r.1

err-Returns : {S A : Type 0} (P : S → Type 0) (e : Err) (t : S) → Returns {A = A} P (err e, t)
err-Returns P e t = record { calm = λ h. cc; result = λ a h. absurd (cc) }

module _ {S A B : Type 0} (P Q : S → Type 0) where
  next-Returns :
      (r : Outcome A) (f : A → Exec S B) (t : S)
      → r ≢ panic
      → ((a : A) → r ≡ ok a → P t)
      → ((a : A) → P t → Returns Q (f a t))
      → Returns Q (next r f t)
  next-Returns (ok a) f t c p k = k a (p a refl)
  next-Returns (err e) f t c p k = err-Returns Q e t
  next-Returns panic f t c p k = absurd (c refl)

  pub Returns-bind :
      (m : Exec S A) (f : A → Exec S B) (s : S)
      → Returns P (m s)
      → ((a : A) (t : S) → P t → Returns Q (f a t))
      → Returns Q ((m >>= f) s)
  Returns-bind m f s h k = next-Returns (m s).0 f (m s).1 h.calm h.result (λ a p. k a (m s).1 p)

module _ {S A : Type 0} {P : S → Type 0} where
  mapped-Returns :
      (g : Err → Err) (r : Outcome A) (t : S) → Returns P (r, t) → Returns P (map_err g r, t)
  mapped-Returns g (ok a) t h = h
  mapped-Returns g (err e) t h = err-Returns P (g e) t
  mapped-Returns g panic t h = h

  pub Returns-annotate :
      (g : Err → Err) (m : Exec S A) (s : S) → Returns P (m s) → Returns P (annotate g m s)
  Returns-annotate g m s h = mapped-Returns g (m s).0 (m s).1 h

  pub Returns-ok : (a : A) (s : S) → P s → Returns {A = A} P (ok a, s)
  Returns-ok a s p = record { calm = λ h. cc; result = λ b h. p }

  pub Returns-if :
      (b : Bool) (m n : Exec S A) (s : S)
      → (b ≡ true → Returns P (m s))
      → (b ≡ false → Returns P (n s))
      → Returns P ((if b then m else n) s)
  Returns-if true m n s h k = h refl
  Returns-if false m n s h k = k refl

  pub Returns-fail : (e : Err) (s : S) → Returns {A = A} P (err e, s)
  Returns-fail e s = err-Returns P e s

  pub Returns-weaken :
      {Q : S → Type 0} {r : Outcome A × S} → Returns P r → ((t : S) → P t → Q t) → Returns Q r
  Returns-weaken {r = r} h w = record { calm = h.calm; result = λ a e. w r.1 (h.result a e) }

  pub Returns-Holds : {r : Outcome A × S} → Holds P r → Returns P r
  Returns-Holds h = record { calm = h.calm; result = λ a e. h.after }
