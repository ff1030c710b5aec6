-- ===== src/Etcd/MemberSet/Laws.antt =====
-- What the map operations do to names and sizes.
use cloudpods_operator.Prelude.{
  String, ◌≡◌, refl, not, ◌&&◌, ◌||◌, [], ◌∷◌, str_eq, eq_iff, List, arith, Bool-cases, inl, inr,
}
use cloudpods_operator.Etcd.Member.{Member}
use cloudpods_operator.Etcd.MemberSet.{MemberSet, has, add, remove, add_all, diff, IsMap}

-- After `ms[m.Name] = m` the name is a key, and no other key has changed.
pub has-add :
    (n : String) (m : Member) (ms : MemberSet) → has n (add m ms) ≡ (str_eq m.name n || has n ms)
unfolding has add
has-add n m [] = refl
has-add n m (x ∷ xs) =
    ground (arith, has-add n m xs, eq_iff x.name m.name, eq_iff x.name n, eq_iff m.name n)

pub has-remove :
    (n k : String) (ms : MemberSet) → has n (remove k ms) ≡ (not (str_eq k n) && has n ms)
unfolding has remove
has-remove n k [] = ground arith
has-remove n k (x ∷ xs) =
    ground (arith, has-remove n k xs, eq_iff x.name k, eq_iff x.name n, eq_iff k n)

pub has-diff : (n : String) (a b : MemberSet) → has n (diff a b) ≡ (has n a && not (has n b))
unfolding has diff
has-diff n [] b = refl
has-diff n (x ∷ xs) b = elim (Bool-cases (str_eq x.name n)) [
  | inl e ↦ ground (arith, has-diff n xs b, (eq_iff x.name n).0 e)
  | inr e ↦ ground (arith, has-diff n xs b)
]

pub add-IsMap : (m : Member) (ms : MemberSet) → IsMap ms → IsMap (add m ms)
unfolding has add
add-IsMap m [] h = (refl, tt)
add-IsMap m (x ∷ xs) h =
    ground
      (arith, add-IsMap m xs h.1, has-add x.name m xs, eq_iff x.name m.name, eq_iff m.name x.name)

pub remove-IsMap : (n : String) (ms : MemberSet) → IsMap ms → IsMap (remove n ms)
unfolding has remove
remove-IsMap n [] h = tt
remove-IsMap n (x ∷ xs) h = ground (arith, remove-IsMap n xs h.1, has-remove x.name n xs)

pub diff-IsMap : (a b : MemberSet) → IsMap a → IsMap (diff a b)
unfolding has diff
diff-IsMap [] b h = tt
diff-IsMap (x ∷ xs) b h = ground (arith, diff-IsMap xs b h.1, has-diff x.name xs b)

pub add_all-IsMap : (xs : List Member) (ms : MemberSet) → IsMap ms → IsMap (add_all xs ms)
unfolding add_all
add_all-IsMap [] ms h = h
add_all-IsMap (x ∷ xs) ms h = add_all-IsMap xs (add x ms) (add-IsMap x ms h)
