-- ===== src/Exec.antt =====
-- Go methods that mutate their receiver, call other services, and return an error. The state, which
-- holds both the receiver and the outside world, comes back whatever the outcome; a Go panic ends
-- the method with no value.
pub mod Rules
pub mod Returns
use cloudpods_operator.Prelude.{◌≡◌, List, [], ◌∷◌}

-- The errors of the Kubernetes and etcd clients, as far as the code tells them apart.
pub data ApiError : Type 0 where
  not_found already_exists conflict member_not_found other_error : ApiError

-- What a call of an outside service answers.
pub data Reply {ℓ} (A : Type ℓ) : Type ℓ where
  good : A → Reply A
  bad : ApiError → Reply A

-- `in_context` is `fmt.Errorf`, which hides the cause; `wrap` is `errors.Wrap`, which keeps it.
pub data Err : Type 0 where
  lost_quorum created_cluster unexpected_phase fatal_error requeue : Err
  api_error : ApiError → Err
  in_context : Err → Err
  wrap : Err → Err

-- `errors.Cause`
unfoldable pub cause : Err → Err
cause (wrap e) = cause e
cause lost_quorum = lost_quorum
cause created_cluster = created_cluster
cause unexpected_phase = unexpected_phase
cause fatal_error = fatal_error
cause requeue = requeue
cause (api_error a) = api_error a
cause (in_context e) = in_context e

pub data Outcome {ℓ} (A : Type ℓ) : Type ℓ where
  ok : A → Outcome A
  err : Err → Outcome A
  panic : Outcome A

abbrev pub Exec : Type 0 → Type 0 → Type 0
Exec S A = S → Outcome A × S

abbrev pub Void : Type 0
Void = Unit {0}

abbrev pub done : Outcome Void
done = ok tt

abbrev pub next : {S A B : Type 0} → Outcome A → (A → Exec S B) → Exec S B
next (ok a) f s = f a s
next (err e) f s = (err e, s)
next panic f s = (panic, s)

infixl 5 ◌>>=◌ ◌>>◌
abbrev pub ◌>>=◌ : {S A B : Type 0} → Exec S A → (A → Exec S B) → Exec S B
◌>>=◌ m f s = next (m s).0 f (m s).1

abbrev pub ◌>>◌ : {S B : Type 0} → Exec S Void → Exec S B → Exec S B
m >> k = m >>= λ _. k

abbrev pub pure : {S A : Type 0} → A → Exec S A
pure a s = (ok a, s)

abbrev pub fail : {S A : Type 0} → Err → Exec S A
fail e s = (err e, s)

abbrev pub skip : {S : Type 0} → Exec S Void
skip s = (done, s)

abbrev pub change : {S : Type 0} → (S → S) → Exec S Void
change f s = (done, f s)

-- `if err := m(); err != nil { return wrap(err) }`
abbrev pub map_err : {A : Type 0} → (Err → Err) → Outcome A → Outcome A
map_err f (ok a) = ok a
map_err f (err e) = err (f e)
map_err f panic = panic

abbrev pub annotate : {S A : Type 0} → (Err → Err) → Exec S A → Exec S A
annotate f m s = (map_err f (m s).0, (m s).1)

-- The error of a step is logged and dropped.
abbrev pub forget : {A : Type 0} → Outcome A → Outcome Void
forget (ok a) = done
forget (err e) = done
forget panic = panic

abbrev pub ignore : {S A : Type 0} → Exec S A → Exec S Void
ignore m s = (forget (m s).0, (m s).1)

-- A loop whose body may return with an error.
abbrev pub for_each : {S A : Type 0} → List A → (A → Exec S Void) → Exec S Void
for_each [] body = skip
for_each (x ∷ xs) body = let rest = for_each xs body in body x >> rest

abbrev pub IsPanic : {A : Type 0} → Outcome A → Type 0
IsPanic r = r ≡ panic
