-- ===== src/Etcd/Member/Names.antt =====
-- Member names and their cluster, pkg/util/etcdutil/member.go: a name that the operator draws with
-- `UniqueMemberName` leads back to its cluster, so its address is there.
use Prim.Native.Char.{Char, code}
use Prim.Native.String.{◌++◌, len, slice}
use text.Mathlib.TextLemmas.{nil-append, cons-append}
use mathlib.Core.Path.{subst}
use cloudpods_operator.Prelude.{
  ap, sym, ◌∙◌, ℕ, ◌≤◌, String, ◌≡◌, refl, Bool, true, false, none, some, arith, is_some,
  if◌then◌else◌, ◌==◌, ltb,
}
use cloudpods_operator.Etcd.Member.{
  Member, before_last_dash, cluster_name_from_member_name, unique_member_name, addr, client_url,
  peer_url, max_name_length,
}

not-ltb : (n : ℕ) → n ≤ 52 → ltb 52 n ≡ false
not-ltb n h = ground arith

-- No character of the text is a dash.
abbrev pub NoDash : String → Type 0
NoDash String.[] = Unit
NoDash (String.◌∷◌ c s) = ((code c == b'-') ≡ false) × NoDash s

before_last_dash-NoDash : (s : String) → NoDash s → before_last_dash s ≡ none
unfolding before_last_dash
before_last_dash-NoDash String.[] h = refl
before_last_dash-NoDash (String.◌∷◌ c s) h = rw (before_last_dash-NoDash s h.1, h.0)

before_last_dash-cons :
    (c : Char) (s p : String)
    → before_last_dash s ≡ some p
    → before_last_dash (String.◌∷◌ c s) ≡ some (String.◌∷◌ c p)
unfolding before_last_dash
before_last_dash-cons c s p h = rw h

dash-append : (s : String) → "-" ++ s ≡ String.◌∷◌ "-" s
dash-append s = cons-append "-" String.[] s ∙ ap (String.◌∷◌ "-") (nil-append s)

before_last_dash-dash :
    (s : String) → NoDash s → before_last_dash (String.◌∷◌ "-" s) ≡ some String.[]
unfolding before_last_dash
before_last_dash-dash s h = rw (before_last_dash-NoDash s h)

before_last_dash-append : (a s : String) → NoDash s → before_last_dash (a ++ ("-" ++ s)) ≡ some a
before_last_dash-append String.[] s h =
    rw (nil-append ("-" ++ s), dash-append s) (before_last_dash-dash s h)
before_last_dash-append (String.◌∷◌ c a) s h =
    rw cons-append (before_last_dash-cons c (a ++ ("-" ++ s)) a (before_last_dash-append a s h))

-- A name that the operator draws for a cluster of at most 52 bytes leads back to that cluster.
pub cluster_name-unique_member_name :
    (cluster suffix : String)
    → len cluster ≤ max_name_length
    → NoDash suffix
    → cluster_name_from_member_name (unique_member_name cluster suffix) ≡ some cluster
unfolding cluster_name_from_member_name unique_member_name
cluster_name-unique_member_name cluster suffix short h =
    rw (not-ltb (len cluster) short) (before_last_dash-append cluster suffix h)

-- With any suffix the name has a dash, so there is a cluster name.
dash-is_some : (s : String) → is_some (before_last_dash (String.◌∷◌ "-" s)) ≡ true
unfolding before_last_dash
dash-is_some s = ground arith

cons-is_some :
    (c : Char) (s : String)
    → is_some (before_last_dash s) ≡ true
    → is_some (before_last_dash (String.◌∷◌ c s)) ≡ true
unfolding before_last_dash
cons-is_some c s h = ground arith

append-is_some : (a s : String) → is_some (before_last_dash (a ++ ("-" ++ s))) ≡ true
append-is_some String.[] s = rw (nil-append ("-" ++ s), dash-append s) (dash-is_some s)
append-is_some (String.◌∷◌ c a) s =
    rw cons-append (cons-is_some c (a ++ ("-" ++ s)) (append-is_some a s))

abbrev pub has_address : Member → Bool
has_address m = is_some (addr m)

has_address_of_dash : (m : Member) → is_some (before_last_dash m.name) ≡ true → has_address m ≡ true
unfolding addr
has_address_of_dash m h = ground arith

unique_member_name-is_some :
    (cluster suffix : String)
    → is_some (before_last_dash (unique_member_name cluster suffix)) ≡ true
unfolding unique_member_name
unique_member_name-is_some cluster suffix =
    append-is_some
      (if ltb max_name_length (len cluster) then slice cluster 0 max_name_length else cluster)
      suffix

-- A member with a drawn name has an address, whatever the cluster and the suffix.
pub has_address-unique_member_name :
    (m : Member) (cluster suffix : String)
    → m.name ≡ unique_member_name cluster suffix
    → has_address m ≡ true
has_address-unique_member_name m cluster suffix h = has_address_of_dash m (
    subst (λ n. is_some (before_last_dash n) ≡ true) (sym h)
      (unique_member_name-is_some cluster suffix))

pub client_url-has_address : (m : Member) → has_address m ≡ true → is_some (client_url m) ≡ true
unfolding client_url
client_url-has_address m h = ground arith

pub peer_url-has_address : (m : Member) → has_address m ≡ true → is_some (peer_url m) ≡ true
unfolding peer_url
peer_url-has_address m h = ground arith
