-- ===== src/Etcd/PeerUrl.antt =====
-- `MemberNameFromPeerURL` of pkg/util/etcdutil/member.go. The pattern `^\w+:\/\/[\w\.\-]+(:\d+)?$`
-- is read from left to right: no character of one part can start the next, so the longest match of
-- each part is the only one.
use Prim.Native.Char.{code}
use Prim.Native.String.{[], ◌∷◌}
use cloudpods_operator.Prelude.{
  ℕ, String, Bool, true, false, not, ◌&&◌, ◌||◌, Option, none, some, leb, ◌==◌, if◌then◌else◌,
}

abbrev pub is_digit : ℕ → Bool
is_digit c = leb b'0' c && leb c b'9'

abbrev pub is_letter : ℕ → Bool
is_letter c = (leb b'a' c && leb c b'z') || (leb b'A' c && leb c b'Z')

-- `\w`
abbrev pub is_word : ℕ → Bool
is_word c = is_letter c || (is_digit c || c == b'_')

-- `[\w\.\-]`
abbrev pub is_host : ℕ → Bool
is_host c = is_word c || (c == b'.' || c == b'-')

-- The longest prefix of characters that pass, and what follows it.
pub take_while : (ℕ → Bool) → String → String
take_while p [] = []
take_while p (c ∷ s) = let rest = take_while p s in if p (code c) then c ∷ rest else []

pub drop_while : (ℕ → Bool) → String → String
drop_while p [] = []
drop_while p (c ∷ s) = let rest = drop_while p s in if p (code c) then rest else c ∷ s

is_nil : String → Bool
is_nil [] = true
is_nil (c ∷ s) = false

all_digits : String → Bool
all_digits [] = true
all_digits (c ∷ s) = is_digit (code c) && all_digits s

-- `(:\d+)?$`
valid_port : String → Bool
unfolding is_nil all_digits
valid_port [] = true
valid_port (c ∷ s) = code c == b':' && (not (is_nil s) && all_digits s)

-- `:\/\/` and what follows.
after_scheme : String → Option String
after_scheme (a ∷ b ∷ c ∷ s) =
    if code a == b':' && (code b == b'/' && code c == b'/') then some s else none
after_scheme _ = none

-- `url.Parse` wants a letter first in the scheme, and no underscore in it.
scheme_tail : String → Bool
scheme_tail [] = true
scheme_tail (c ∷ s) = (is_letter (code c) || is_digit (code c)) && scheme_tail s

valid_scheme : String → Bool
unfolding scheme_tail
valid_scheme [] = false
valid_scheme (c ∷ s) = is_letter (code c) && scheme_tail s

-- `strings.Split(strings.Split(u.Host, ":")[0], ".")[0]`
host_name : String → Option String
unfolding take_while drop_while is_nil valid_port
host_name s =
    if not (is_nil (take_while is_host s)) && valid_port (drop_while is_host s)
    then some (take_while (λ c. not (c == b'.')) (take_while (λ c. not (c == b':')) s))
    else none

-- `none` is an error.
unfoldable pub member_name_from_peer_url : String → Option String
unfolding take_while drop_while after_scheme valid_scheme host_name
member_name_from_peer_url pu =
    if valid_scheme (take_while is_word pu)
    then elim (after_scheme (drop_while is_word pu)) [ some s ↦ host_name s | none ↦ none ]
    else none
