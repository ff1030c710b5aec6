-- ===== src/Etcd/MemberSet.antt =====
-- `MemberSet` of pkg/util/etcdutil/member.go: a Go map from names to members. Every write of the
-- source files a member under its own name, so the map is the list of its members; the order of
-- the list is the order in which Go happens to visit the map.
pub mod Laws
pub mod Sizes
pub mod Addresses
use cloudpods_operator.Prelude.{
  ℕ, String, ◌≡◌, Bool, true, false, not, ◌&&◌, ◌||◌, Option, none, some, List, [], ◌∷◌, str_eq,
  ◌==◌, if◌then◌else◌, length, select, every,
}
use cloudpods_operator.Etcd.Member.{Member, client_url, peer_url}

abbrev pub MemberSet : Type 0
MemberSet = List Member

-- `_, ok := ms[n]`
unfoldable pub has : String → MemberSet → Bool
has n [] = false
has n (m ∷ ms) = str_eq m.name n || has n ms

-- `ms[m.Name] = m`
unfoldable pub add : Member → MemberSet → MemberSet
add m [] = m ∷ []
add m (x ∷ xs) = if str_eq x.name m.name then m ∷ xs else x ∷ add m xs

-- `delete(ms, name)`
unfoldable pub remove : String → MemberSet → MemberSet
remove n [] = []
remove n (x ∷ xs) = let rest = remove n xs in if str_eq x.name n then rest else x ∷ rest

unfoldable pub add_all : List Member → MemberSet → MemberSet
add_all [] ms = ms
add_all (x ∷ xs) ms = add_all xs (add x ms)

-- `NewMemberSet`
unfoldable pub new_member_set : List Member → MemberSet
unfolding add_all add
new_member_set xs = add_all xs []

abbrev pub size : MemberSet → ℕ
size ms = length ms

unfoldable pub diff : MemberSet → MemberSet → MemberSet
diff [] other = []
diff (m ∷ ms) other = let rest = diff ms other in if has m.name other then rest else m ∷ rest

all_in : MemberSet → MemberSet → Bool
all_in [] other = true
all_in (m ∷ ms) other = has m.name other && all_in ms other

unfoldable pub is_equal : MemberSet → MemberSet → Bool
unfolding all_in
is_equal ms other = if size ms == size other then all_in ms other else false

-- `none` is the panic on the empty set.
abbrev pub pick_one : MemberSet → Option Member
pick_one [] = none
pick_one (m ∷ ms) = some m

-- `none` where an address panics.
collect : (Member → Option String) → MemberSet → Option (List String)
collect f [] = some []
collect f (m ∷ ms) =
    let rest = collect f ms in
    elim (f m) [ none ↦ none | some u ↦ elim rest [ none ↦ none | some us ↦ some (u ∷ us) ] ]

unfoldable pub client_urls : MemberSet → Option (List String)
unfolding collect
client_urls = collect client_url

unfoldable pub peer_url_pairs : MemberSet → Option (List (String × String))
peer_url_pairs [] = some []
peer_url_pairs (m ∷ ms) =
    let rest = peer_url_pairs ms in
    elim (peer_url m) [
      | none ↦ none
      | some u ↦ elim rest [ none ↦ none | some us ↦ some ((m.name, u) ∷ us) ]
    ]

-- A Go map has each name once.
abbrev pub IsMap : MemberSet → Type 0
IsMap [] = Unit
IsMap (m ∷ ms) = (has m.name ms ≡ false) × IsMap ms
