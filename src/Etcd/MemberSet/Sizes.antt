-- ===== src/Etcd/MemberSet/Sizes.antt =====
-- Counting names: `Size`, `Diff` and `IsEqual` of pkg/util/etcdutil/member.go agree with the sets
-- of names.
use cloudpods_operator.Prelude.{
  ◌+◌, ◌≤◌, ◌<◌, String, ◌≡◌, refl, sym, ◌∙◌, some, ap, ◌≢◌, ◌↔◌, true, false, ◌&&◌, [], ◌∷◌,
  eq_iff, eq_refl, if◌then◌else◌, arith, Bool-cases, inl, inr,
}
use cloudpods_operator.Etcd.Member.{Member}
use cloudpods_operator.Etcd.MemberSet.{
  MemberSet, pick_one, has, add, remove, size, diff, all_in, is_equal, IsMap,
}
use cloudpods_operator.Etcd.MemberSet.Laws.{has-remove, has-diff, diff-IsMap}

pub size-add :
    (m : Member) (ms : MemberSet)
    → size (add m ms) ≡ (if has m.name ms then size ms else size ms + 1)
unfolding has add
size-add m [] = omega arith
size-add m (x ∷ xs) = ground (arith, size-add m xs)

remove-absent : (n : String) (ms : MemberSet) → has n ms ≡ false → remove n ms ≡ ms
unfolding has remove
remove-absent n [] h = refl
remove-absent n (x ∷ xs) h = ground (arith, remove-absent n xs)

pub size-remove :
    (n : String) (ms : MemberSet)
    → IsMap ms
    → size (remove n ms) + (if has n ms then 1 else 0) ≡ size ms
unfolding has remove
size-remove n [] h = omega arith
size-remove n (x ∷ xs) h = ground (arith, size-remove n xs h.1, remove-absent n xs, eq_iff x.name n)

size-remove-le : (n : String) (ms : MemberSet) → size (remove n ms) ≤ size ms
unfolding remove
size-remove-le n [] = omega arith
size-remove-le n (x ∷ xs) = ground (arith, size-remove-le n xs)

size-remove-lt : (n : String) (ms : MemberSet) → has n ms ≡ true → size (remove n ms) < size ms
unfolding has remove
size-remove-lt n [] h = absurd (ground arith)
size-remove-lt n (x ∷ xs) h = ground (arith, size-remove-lt n xs, size-remove-le n xs)

pub size-diff-le : (a b : MemberSet) → size (diff a b) ≤ size a
unfolding diff
size-diff-le [] b = omega arith
size-diff-le (x ∷ xs) b = ground (arith, size-diff-le xs b)

-- Every name of `a` is a name of `b`.
abbrev pub Included : MemberSet → MemberSet → Type 0
Included a b = (n : String) → has n a ≡ true → has n b ≡ true

all_in_sound : (a b : MemberSet) → all_in a b ≡ true → Included a b
unfolding all_in has
all_in_sound [] b h n k = absurd (ground arith)
all_in_sound (x ∷ xs) b h n k =
    ground (arith, all_in_sound xs b, eq_iff x.name n, all_in_sound xs b (ground arith) n)

all_in_complete : (a b : MemberSet) → Included a b → all_in a b ≡ true
unfolding all_in has
all_in_complete [] b h = refl
all_in_complete (x ∷ xs) b h =
    ground (arith, h x.name, eq_refl x.name, all_in_complete xs b (λ n k. h n (ground arith)))

Included-remove :
    (x : Member) (xs b : MemberSet)
    → has x.name xs ≡ false
    → Included (x ∷ xs) b
    → Included xs (remove x.name b)
unfolding has
Included-remove x xs b fresh h n k = ground (arith, h n, has-remove n x.name b, eq_iff x.name n)

-- Fewer names cannot hold more: the names of `a` are distinct, so `b` has at least as many.
pub size-le_of_Included : (a b : MemberSet) → IsMap a → Included a b → size a ≤ size b
size-le_of_Included [] b m h = omega arith
size-le_of_Included (x ∷ xs) b m h = omega (
  arith,
  size-le_of_Included xs (remove x.name b) m.1 (Included-remove x xs b m.0 h),
  size-remove-lt x.name b (unfold has in h x.name (ground (arith, eq_refl x.name))),
)

-- If moreover the sizes agree, the names do.
pub Included-sym_of_size :
    (a b : MemberSet) → IsMap a → Included a b → size b ≤ size a → Included b a
Included-sym_of_size a b m h le n k = elim (Bool-cases (has n a)) [
  | inl e ↦ e
  | inr e ↦ absurd (
      omega (
        arith,
        size-remove-lt n b k,
        size-le_of_Included a (remove n b) m
            (λ j r. ground (arith, h j, has-remove j n b, eq_iff n j)),
      ))
]

is_equal_parts : (a b : MemberSet) → is_equal a b ≡ true → (size a ≡ size b) × (all_in a b ≡ true)
unfolding is_equal
is_equal_parts a b h = ground arith

diff-all_in : (a b : MemberSet) → all_in a b ≡ true → diff a b ≡ []
unfolding diff all_in
diff-all_in [] b h = refl
diff-all_in (x ∷ xs) b h = ground (arith, diff-all_in xs b)

pub is_equal-diff : (a b : MemberSet) → is_equal a b ≡ true → (size a ≡ size b) × (diff a b ≡ [])
is_equal-diff a b h = let (sizes, inside) = is_equal_parts a b h in (sizes, diff-all_in a b inside)

pub diff-nil : (a : MemberSet) → diff a [] ≡ a
unfolding diff has
diff-nil [] = refl
diff-nil (x ∷ xs) = ap (λ rest. x ∷ rest) (diff-nil xs)

is_equal-intro :
    (a b : MemberSet) → all_in a b ≡ true → size a ≤ size b → size b ≤ size a → is_equal a b ≡ true
unfolding is_equal
is_equal-intro a b h p q = ground arith

same_names : (n : String) (a b : MemberSet) → Included a b → Included b a → has n a ≡ has n b
same_names n a b h k = ground (arith, h n, k n)

-- `IsEqual` holds exactly when the two sets have the same names.
pub is_equal_iff :
    (a b : MemberSet)
    → IsMap a
    → IsMap b
    → (is_equal a b ≡ true) ↔ ((n : String) → has n a ≡ has n b)
is_equal_iff a b ma mb = (forward, backward)
  where
    forward : is_equal a b ≡ true → (n : String) → has n a ≡ has n b
    forward h n =
        let (sizes, inside) = is_equal_parts a b h in
        let sub = all_in_sound a b inside in
        same_names n a b sub (Included-sym_of_size a b ma sub (omega arith))

    backward : ((n : String) → has n a ≡ has n b) → is_equal a b ≡ true
    backward h =
        let ab : Included a b = λ n k. ground (arith, h n) in
        let ba : Included b a = λ n k. ground (arith, h n) in
        is_equal-intro a b (all_in_complete a b ab) (size-le_of_Included a b ma ab)
          (size-le_of_Included b a mb ba)

-- What is left of the running pods after the unknown ones are gone: the members that run.
abbrev pub running_members : MemberSet → MemberSet → MemberSet
running_members running members = diff running (diff running members)

pub has-running_members :
    (n : String) (running members : MemberSet)
    → has n (running_members running members) ≡ (has n running && has n members)
has-running_members n running members =
    ground (arith, has-diff n running (diff running members), has-diff n running members)

pub size-running_members-le :
    (running members : MemberSet)
    → IsMap running
    → size (running_members running members) ≤ size members
size-running_members-le running members m =
    size-le_of_Included (running_members running members) members (diff-IsMap running _ m)
      (λ n k. ground (arith, has-running_members n running members))

diff-nil-Included : (a b : MemberSet) → diff a b ≡ [] → Included a b
unfolding has
diff-nil-Included a b e n h = ground (arith, has-diff n a b)

pub dead_members-ne-nil :
    (running members : MemberSet)
    → IsMap running
    → IsMap members
    → size (running_members running members) ≢ size members
    → diff members (running_members running members) ≢ []
dead_members-ne-nil running members mr mm ne e = ne (
    omega (
      arith,
      size-running_members-le running members mr,
      size-le_of_Included members (running_members running members) mm
          (diff-nil-Included members (running_members running members) e),
    ))

picked_member :
    (dead running members : MemberSet)
    → dead ≡ diff members (running_members running members)
    → dead ≢ []
    → (m : Member) × (pick_one dead ≡ some m)
      × (has m.name members ≡ true)
      × (has m.name running ≡ false)
unfolding has
picked_member [] running members e ne = absurd (ne refl)
picked_member (m ∷ ms) running members e ne =
    let inside : has m.name (diff members (running_members running members)) ≡ true =
      ap (has m.name) (sym e) ∙ (rw (eq_refl m.name)) in
    let parts = sym (has-diff m.name members (running_members running members)) ∙ inside in
    (
      m,
      refl,
      ground (arith, parts),
      ground (arith, parts, has-running_members m.name running members),
    )

-- If some member does not run, `PickOne` on the dead members does not panic: it gives a member that
-- is known and does not run.
pub dead_member_exists :
    (running members : MemberSet)
    → IsMap running
    → IsMap members
    → size (running_members running members) ≢ size members
    → (m : Member) × (pick_one (diff members (running_members running members)) ≡ some m)
      × (has m.name members ≡ true)
      × (has m.name running ≡ false)
dead_member_exists running members mr mm ne =
    picked_member (diff members (running_members running members)) running members refl
      (dead_members-ne-nil running members mr mm ne)
