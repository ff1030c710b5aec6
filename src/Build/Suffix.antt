-- ===== src/Build/Suffix.antt =====
-- The names of the roles of pkg/label/label.go: the suffix of the read-only role tells them apart.
use Prim.Native.String.{◌++◌ as join}
use text.Mathlib.TextLemmas.{append_cancel_right}
use cloudpods_operator.Prelude.{String, ◌≡◌, sym, ◌≢◌, Bool, true, false}
use cloudpods_operator.Build.Labels.{role_name}

-- A name that the suffix does not end.
abbrev pub IsPlain : String → Type 0
IsPlain name = (s : String) → name ≢ join s "-slave"

pub role_name_injective :
    (c d : String) (r s : Bool)
    → IsPlain c
    → IsPlain d
    → role_name c r ≡ role_name d s
    → (c ≡ d) × (r ≡ s)
role_name_injective c d true true p q h = (append_cancel_right c d "-slave" h, λ i. true)
role_name_injective c d true false p q h = absurd (q c (sym h))
role_name_injective c d false true p q h = absurd (p d h)
role_name_injective c d false false p q h = (h, λ i. false)
