-- ===== src/Etcd/MemberSet/Addresses.antt =====
-- The URL lists of pkg/util/etcdutil/member.go: none of them panics on members that have addresses.
use cloudpods_operator.Prelude.{String, ◌≡◌, refl, true, [], ◌∷◌, arith, is_some}
use cloudpods_operator.Etcd.Member.{Member}
use cloudpods_operator.Etcd.Member.Names.{has_address, client_url-has_address, peer_url-has_address}
use cloudpods_operator.Etcd.MemberSet.{MemberSet, add, remove, client_urls, peer_url_pairs}

abbrev pub HasAddresses : MemberSet → Type 0
HasAddresses [] = Unit
HasAddresses (m ∷ ms) = (has_address m ≡ true) × HasAddresses ms

pub client_urls-HasAddresses : (ms : MemberSet) → HasAddresses ms → is_some (client_urls ms) ≡ true
unfolding client_urls
client_urls-HasAddresses [] h = refl
client_urls-HasAddresses (m ∷ ms) h =
    ground (arith, client_urls-HasAddresses ms h.1, client_url-has_address m h.0)

pub peer_url_pairs-HasAddresses :
    (ms : MemberSet) → HasAddresses ms → is_some (peer_url_pairs ms) ≡ true
unfolding peer_url_pairs
peer_url_pairs-HasAddresses [] h = refl
peer_url_pairs-HasAddresses (m ∷ ms) h =
    ground (arith, peer_url_pairs-HasAddresses ms h.1, peer_url-has_address m h.0)

pub add-HasAddresses :
    (m : Member) (ms : MemberSet) → has_address m ≡ true → HasAddresses ms → HasAddresses (add m ms)
unfolding add
add-HasAddresses m [] a h = (a, tt)
add-HasAddresses m (x ∷ xs) a h = ground (arith, add-HasAddresses m xs a h.1)

pub remove-HasAddresses :
    (n : String) (ms : MemberSet) → HasAddresses ms → HasAddresses (remove n ms)
unfolding remove
remove-HasAddresses n [] h = tt
remove-HasAddresses n (x ∷ xs) h = ground (arith, remove-HasAddresses n xs h.1)
