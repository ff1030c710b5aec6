-- ===== src/Etcd/Member.antt =====
-- pkg/util/etcdutil/member.go: one member of the etcd cluster and its addresses, and the naming
-- of members of pkg/util/k8sutil/k8sutil.go. A Go string is a native `String`; the suffix that
-- `UniqueMemberName` draws at random is an argument.
pub mod Names
use Prim.Native.Char.{code}
use Prim.Native.String.{[], ◌∷◌, ◌++◌, len, slice}
use cloudpods_operator.Prelude.{ℕ, String, Bool, Option, none, some, ◌==◌, ltb, if◌then◌else◌}

pub record Member : Type 0 where
  pub name : String
  pub namespace : String
  pub id : ℕ
  pub secure_peer : Bool
  pub secure_client : Bool
  pub ipv6_cluster : Bool

-- `mn[:strings.LastIndex(mn, "-")]`; `none` where the index is -1.
pub before_last_dash : String → Option String
before_last_dash [] = none
before_last_dash (c ∷ rest) = elim (before_last_dash rest) [
  | some p ↦ some (c ∷ p)
  | none ↦ if code c == b'-' then some [] else none
]

-- `none` is the panic on a name with no dash.
unfoldable pub cluster_name_from_member_name : String → Option String
unfolding before_last_dash
cluster_name_from_member_name mn = before_last_dash mn

-- 63 - randomSuffixLength - 1
abbrev pub max_name_length : ℕ
max_name_length = 52

unfoldable pub unique_member_name : String → String → String
unique_member_name cluster suffix =
    let short =
      if ltb max_name_length (len cluster) then slice cluster 0 max_name_length else cluster in
    short ++ ("-" ++ suffix)

unfoldable pub addr : Member → Option String
unfolding cluster_name_from_member_name
addr m = elim (cluster_name_from_member_name m.name) [
  | some cluster ↦ some (m.name ++ ("." ++ (cluster ++ ("." ++ (m.namespace ++ ".svc")))))
  | none ↦ none
]

unfoldable pub client_scheme : Member → String
client_scheme m = if m.secure_client then "https" else "http"

unfoldable pub peer_scheme : Member → String
peer_scheme m = if m.secure_peer then "https" else "http"

-- `fmt.Sprintf("%s://%s:<port>", scheme, addr)`, where the address may have panicked.
url_at : String → Option String → String → Option String
url_at scheme (some host) port = some (scheme ++ ("://" ++ (host ++ (":" ++ port))))
url_at scheme none port = none

unfoldable pub client_url : Member → Option String
unfolding client_scheme addr url_at
client_url m = url_at (client_scheme m) (addr m) "2379"

unfoldable pub peer_url : Member → Option String
unfolding peer_scheme addr url_at
peer_url m = url_at (peer_scheme m) (addr m) "2380"

unfoldable pub listen_client_url : Member → String
unfolding client_scheme
listen_client_url m =
    client_scheme m ++ (if m.ipv6_cluster then "://[::]:2379" else "://0.0.0.0:2379")

unfoldable pub listen_peer_url : Member → String
unfolding peer_scheme
listen_peer_url m = peer_scheme m ++ (if m.ipv6_cluster then "://[::]:2380" else "://0.0.0.0:2380")
