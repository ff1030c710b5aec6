-- ===== src/Sync/Keeps.antt =====
-- Rules for a property of the world that a method keeps, whatever its outcome.
use cloudpods_operator.Prelude.{◌≡◌, refl, Bool, true, false, List, [], ◌∷◌, if◌then◌else◌}
use cloudpods_operator.Exec.{Outcome, ok, err, panic, Exec, Void, next, ◌>>=◌, for_each}

abbrev pub Keeps : {S A : Type 0} → (S → Type 0) → Exec S A → Type 0
Keeps {S} I m = (s : S) → I s → I (m s).1

module _ {S A B : Type 0} (I : S → Type 0) where
  next-Keeps :
      (r : Outcome A) (f : A → Exec S B) (t : S)
      → I t
      → ((a : A) → r ≡ ok a → Keeps I (f a))
      → I (next r f t).1
  next-Keeps (ok a) f t i k = k a refl t i
  next-Keeps (err e) f t i k = i
  next-Keeps panic f t i k = i

  pub bind-Keeps :
      (m : Exec S A) (f : A → Exec S B) → Keeps I m → ((a : A) → Keeps I (f a)) → Keeps I (m >>= f)
  bind-Keeps m f h k s i = next-Keeps (m s).0 f (m s).1 (h s i) (λ a _. k a)

module _ {S A : Type 0} (I : S → Type 0) where
  pub if-Keeps : (b : Bool) (m n : Exec S A) → Keeps I m → Keeps I n → Keeps I (if b then m else n)
  if-Keeps true m n h k = h
  if-Keeps false m n h k = k

  pub for_each-Keeps :
      (xs : List A) (body : A → Exec S Void)
      → ((a : A) → Keeps I (body a))
      → Keeps I (for_each xs body)
  for_each-Keeps [] body h s i = i
  for_each-Keeps (x ∷ xs) body h s i =
      bind-Keeps I (body x) _ (h x) (λ _. for_each-Keeps xs body h) s i
