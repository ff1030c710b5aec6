-- ===== src/Etcd/Membership/Converge.antt =====
-- Repeated reconciles of pkg/manager/component/etcd.go bring the etcd cluster to the size that is
-- asked for.
use cloudpods_operator.Prelude.{
  ℕ, ◌+◌, ◌-◌, ◌<◌, String, ◌≡◌, refl, ◌∙◌, ap, ◌≢◌, true, false, not, ◌||◌, Option-cases, inl, inr,
  some, List, [], arith, ltb, ◌==◌,
}
use cloudpods_operator.Exec.{skip}
use cloudpods_operator.Exec.Returns.{Returns, Returns-if, Returns-weaken}
use cloudpods_operator.Etcd.Member.{Member}
use cloudpods_operator.Etcd.MemberSet.{
  MemberSet, has, remove, size, diff, is_equal, pick_one, client_urls, IsMap,
}
use cloudpods_operator.Etcd.MemberSet.Sizes.{size-add, size-remove, is_equal-diff, diff-nil}
use cloudpods_operator.Etcd.MemberSet.Addresses.{HasAddresses}
use cloudpods_operator.Etcd.Types.{Pod}
use cloudpods_operator.Etcd.Api.{Api, Manager, State}
use cloudpods_operator.Etcd.Manager.Members.{members_of, add_one_member, remove_one_member, resize}
use cloudpods_operator.Etcd.Manager.Reconcile.{settle_members, reconcile_members, reconcile_to}
use cloudpods_operator.Etcd.Membership.Change.{Moved, members_of-known}
use cloudpods_operator.Etcd.Membership.Refine.{pick_one-some, pick_one-has, nonempty_of_size}
use cloudpods_operator.Etcd.Membership.Progress.{
  Returns-given, name_after, JoinedAs, add_one_member-Joined, remove_member-Left,
}

-- How far a size is from the one that is asked for.
abbrev pub distance : ℕ → ℕ → ℕ
distance goal n = (goal - n) + (n - goal)

module _ (api : Api) (m : Manager) (ms : MemberSet) (known : m.members ≡ some ms)
    (addressed : HasAddresses ms) (mapped : IsMap ms) where
  open api use {World}

  -- The members after are one step nearer to the size that is asked for.
  abbrev pub Nearer : MemberSet → Type 0
  Nearer after = distance m.oc.etcd.size (size after) + 1 ≡ distance m.oc.etcd.size (size ms)

  joined-Nearer :
      (name : String) (after : MemberSet)
      → has name ms ≡ false
      → size ms < m.oc.etcd.size
      → JoinedAs api m ms known addressed name after
      → Nearer after
  joined-Nearer name after unused below (mb, named, e) =
      let grows : size after ≡ size ms + 1 =
        ap (λ (k : MemberSet). size k) e ∙ size-add mb ms ∙ rw named (rw unused refl) in
      omega arith

  left-Nearer :
      (mb : Member) → has mb.name ms ≡ true → m.oc.etcd.size < size ms → Nearer (remove mb.name ms)
  left-Nearer mb inside above =
      let one = size-remove mb.name ms mapped in
      let shrinks : size (remove mb.name ms) + 1 ≡ size ms = ground (arith, one) in omega arith

  size-known : size (members_of m) ≡ size ms
  size-known = ap (λ (k : MemberSet). size k) (members_of-known m ms known)

  module _ (w : World) (urls : List String) (asked : client_urls ms ≡ some urls)
      (unused : has (name_after api m ms known addressed urls w) ms ≡ false) where
    abbrev pub here : State World
    here = record { manager = m; world = w }

    remove_one_member-Nearer :
        m.oc.etcd.size < size ms → Returns (Moved m Nearer) (remove_one_member api here)
    unfolding remove_one_member
    remove_one_member-Nearer above = elim (Option-cases (pick_one ms)) [
      | inl nobody ↦
          let somebody = pick_one-some ms (nonempty_of_size m.oc.etcd.size ms above) in absurd (cc)
      | inr (mb, e) ↦
          Returns-given (Moved m Nearer) (pick_one (members_of m)) mb _ here
            (ap (λ (k : MemberSet). pick_one k) (members_of-known m ms known) ∙ e)
            (Returns-weaken (remove_member-Left api m ms known addressed mb here refl) (λ t h.
              record {
                members = remove mb.name ms;
                moved = h;
                fact = left-Nearer mb (pick_one-has ms mb e) above;
              }))
    ]

    resize-Nearer : size ms ≢ m.oc.etcd.size → Returns (Moved m Nearer) (resize api here)
    unfolding resize
    resize-Nearer ne =
        Returns-if (size (members_of m) == m.oc.etcd.size) skip _ here
          (λ e. absurd (ne (ground (arith, size-known))))
          λ d.
            Returns-if (ltb (size (members_of m)) m.oc.etcd.size) (add_one_member api)
              (remove_one_member api) here
              (λ e.
                Returns-weaken (add_one_member-Joined api m ms known addressed here urls refl asked)
                  (λ t h. record {
                    members = h.members;
                    moved = h.moved;
                    fact = joined-Nearer _ h.members unused (ground (arith, size-known)) h.fact;
                  }))
              (λ e. remove_one_member-Nearer (ground (arith, size-known)))

    module _ (found : MemberSet) (running : is_equal found ms ≡ true) where
      no_strays : diff found (members_of m) ≡ []
      no_strays =
          ap (λ (k : MemberSet). diff found k) (members_of-known m ms known)
          ∙ (is_equal-diff found ms running).1

      settle_members-Nearer :
          size ms ≢ m.oc.etcd.size
          → Returns (Moved m Nearer) (settle_members api (members_of m) found here)
      unfolding settle_members
      settle_members-Nearer ne =
          Returns-if (size found == size (members_of m)) (resize api) _ here (λ e. resize-Nearer ne)
            (λ d. absurd (ground (arith, (is_equal-diff found ms running).0, size-known)))

      -- Where the members run and nothing else does, only the size is settled.
      pub reconcile_members-Nearer :
          size ms ≢ m.oc.etcd.size → Returns (Moved m Nearer) (reconcile_members api found here)
      unfolding reconcile_members
      reconcile_members-Nearer ne = rw no_strays (rw (diff-nil found) (settle_members-Nearer ne))

      -- The test of `reconcile` sees the wrong size.
      pub reconcile_to-Nearer :
          (pods : List Pod)
          → size ms ≢ m.oc.etcd.size
          → Returns (Moved m Nearer) (reconcile_to api pods found here)
      unfolding reconcile_to
      reconcile_to-Nearer pods ne =
          Returns-if
            (not (is_equal found (members_of m)) || not (size (members_of m) == m.oc.etcd.size))
            (reconcile_members api found) _ here (λ e. reconcile_members-Nearer ne)
            (λ e. absurd (ne (ground (arith, size-known))))
