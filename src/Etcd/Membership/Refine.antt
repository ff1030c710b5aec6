-- ===== src/Etcd/Membership/Refine.antt =====
-- `resize`, `reconcileMembers` and `reconcile` of pkg/manager/component/etcd.go refine the
-- specification `Change`: from known members with addresses they do not panic, and they change the
-- membership in one of its ways only.
use mathlib.Core.Path.{subst}
use cloudpods_operator.Prelude.{
  ℕ, ◌+◌, ◌/◌, ◌≤◌, ◌<◌, ◌≡◌, refl, ◌∙◌, ap, sym, ◌≢◌, true, false, some, [], ◌∷◌, arith, is_some,
  ltb, ◌==◌, eq_refl,
}
use cloudpods_operator.Exec.{skip, fail, for_each, lost_quorum}
use cloudpods_operator.Exec.Rules.{Holds, Holds-bind, Holds-ok, Holds-err, Holds-if, Holds-for_each}
use cloudpods_operator.Etcd.Member.{Member}
use cloudpods_operator.Etcd.Member.Names.{has_address}
use cloudpods_operator.Etcd.MemberSet.{MemberSet, has, add, remove, size, diff, pick_one, IsMap}
use cloudpods_operator.Etcd.MemberSet.Laws.{has-diff}
use cloudpods_operator.Etcd.MemberSet.Sizes.{
  running_members, has-running_members, dead_members-ne-nil,
}
use cloudpods_operator.Etcd.MemberSet.Addresses.{HasAddresses}
use cloudpods_operator.Etcd.Api.{Api, Manager, State}
use cloudpods_operator.Etcd.Manager.Pods.{remove_pod}
use cloudpods_operator.Etcd.Manager.Members.{
  members_of, add_one_member, remove_member, remove_one_member, resize,
}
use cloudpods_operator.Etcd.Manager.Reconcile.{settle_members, reconcile_members}
use cloudpods_operator.Etcd.Membership.Quiet.{At, Holds-pick, remove_pod-At}
use cloudpods_operator.Etcd.Membership.Change.{
  Change, kept, grown, shrunk, buried, Moved, members_of-known, same_manager,
}
use cloudpods_operator.Etcd.Membership.Grow.{add_one_member-Moved}
use cloudpods_operator.Etcd.Membership.Shrink.{remove_member-Moved}

At-elim :
    {W : Type 0} {m : Manager} (C : State W → Type 0)
    → ((w : W) → C (record { manager = m; world = w }))
    → (t : State W) → At m t
    → C t
At-elim C f t h = subst (λ k. C (record { manager = k; world = t.world })) (sym h) (f t.world)

pub pick_one-some : (ms : MemberSet) → ms ≢ [] → is_some (pick_one ms) ≡ true
pick_one-some [] h = absurd (h refl)
pick_one-some (x ∷ xs) h = refl

pub pick_one-has : (ms : MemberSet) (mb : Member) → pick_one ms ≡ some mb → has mb.name ms ≡ true
unfolding has
pick_one-has [] mb h = absurd (cc)
pick_one-has (x ∷ xs) mb h = ground (arith, eq_refl mb.name)

pub nonempty_of_size : (n : ℕ) (ms : MemberSet) → n < size ms → ms ≢ []
nonempty_of_size n [] h e = absurd (omega arith)
nonempty_of_size n (x ∷ xs) h e = cc

module _ (api : Api) (m : Manager) (ms found : MemberSet) (known : m.members ≡ some ms)
    (addressed : HasAddresses ms) (mapped : IsMap ms) (found_mapped : IsMap found) where
  open api use {World}

  abbrev Allowed : MemberSet → Type 0
  Allowed = Change m.oc.etcd.size found ms

  abbrev Good : State World → Type 0
  Good = Moved m Allowed

  stay : Allowed ms
  stay = kept refl

  unchanged : (t : State World) → At m t → Good t
  unchanged t h = record { members = ms; moved = h ∙ same_manager m ms known; fact = stay }

  remove_chosen :
      (mb : Member)
      → Allowed (remove mb.name ms)
      → (w : World) → Holds Good (remove_member api mb (record { manager = m; world = w }))
  remove_chosen mb r w = remove_member-Moved api m ms known addressed Allowed stay mb r _ refl

  size-known : size (members_of m) ≡ size ms
  size-known = ap (λ (k : MemberSet). size k) (members_of-known m ms known)

  picked : (mb : Member) → pick_one (members_of m) ≡ some mb → has mb.name ms ≡ true
  picked mb e =
      pick_one-has ms mb
        (ap (λ (k : MemberSet). pick_one k) (sym (members_of-known m ms known)) ∙ e)

  remove_one_member-Good :
      m.oc.etcd.size < size ms
      → (w : World) → Holds Good (remove_one_member api (record { manager = m; world = w }))
  unfolding remove_one_member
  remove_one_member-Good above w =
      Holds-pick Good (pick_one (members_of m)) (λ mb. remove_member api mb) _
        (pick_one-some (members_of m)
          (nonempty_of_size m.oc.etcd.size (members_of m) (omega (arith, size-known))))
        (λ mb e. remove_chosen mb (shrunk mb above (picked mb e) refl) w)

  joins : size ms < m.oc.etcd.size → (mb : Member) → has_address mb ≡ true → Allowed (add mb ms)
  joins below mb a = grown mb below a refl

  resize-Good : (w : World) → Holds Good (resize api (record { manager = m; world = w }))
  unfolding resize
  resize-Good w =
      Holds-if (size (members_of m) == m.oc.etcd.size) skip _ _
        (λ e. Holds-ok tt _ (unchanged _ refl))
        λ ne.
          Holds-if (ltb (size (members_of m)) m.oc.etcd.size) (add_one_member api)
            (remove_one_member api) _
            (λ e.
              add_one_member-Moved api m ms known addressed Allowed stay (joins (below_of_ltb e)) _
                refl)
            (λ e. remove_one_member-Good (above_of_tests ne e) w)
    where
      below_of_ltb : ltb (size (members_of m)) m.oc.etcd.size ≡ true → size ms < m.oc.etcd.size
      below_of_ltb e = ground (arith, size-known)

      above_of_tests :
          (size (members_of m) == m.oc.etcd.size) ≡ false
          → ltb (size (members_of m)) m.oc.etcd.size ≡ false
          → m.oc.etcd.size < size ms
      above_of_tests d e = ground (arith, size-known)

  abbrev live : MemberSet
  live = running_members found ms

  -- The member that is given up is known and does not run.
  dead_member :
      (mb : Member)
      → pick_one (diff ms live) ≡ some mb
      → (has mb.name ms ≡ true) × (has mb.name found ≡ false)
  dead_member mb e =
      let inside = pick_one-has (diff ms live) mb e in
      (
        ground (arith, has-diff mb.name ms live, inside),
        ground (arith, has-diff mb.name ms live, has-running_members mb.name found ms, inside),
      )

  bury :
      (mb : Member)
      → size ms / 2 + 1 ≤ size live
      → pick_one (diff ms live) ≡ some mb
      → Allowed (remove mb.name ms)
  bury mb quorum e = let (inside, dead) = dead_member mb e in buried mb quorum inside dead refl

  settle_members-Good :
      (w : World) → Holds Good (settle_members api ms live (record { manager = m; world = w }))
  unfolding settle_members
  settle_members-Good w =
      Holds-if (size live == size ms) (resize api) _ _ (λ e. resize-Good w)
        λ ne.
          Holds-if (ltb (size live) (size ms / 2 + 1)) (fail lost_quorum) _ _
            (λ e. Holds-err lost_quorum _ (unchanged _ refl))
            (λ e.
              Holds-pick Good (pick_one (diff ms live)) (λ mb. remove_member api mb) _
                (pick_one-some (diff ms live)
                  (dead_members-ne-nil found ms found_mapped mapped (sizes_differ ne)))
                (λ mb p. remove_chosen mb (bury mb (quorum_of_ltb e) p) w))
    where
      sizes_differ : (size live == size ms) ≡ false → size live ≢ size ms
      sizes_differ d e = ground arith

      quorum_of_ltb : ltb (size live) (size ms / 2 + 1) ≡ false → size ms / 2 + 1 ≤ size live
      quorum_of_ltb e = ground arith

  settle-Good :
      (t : State World)
      → At m t
      → Holds Good (settle_members api (members_of m) (running_members found (members_of m)) t)
  settle-Good t h =
      At-elim
        (λ t.
          Holds Good (settle_members api (members_of m) (running_members found (members_of m)) t))
        (λ w.
          subst
            (λ k.
              Holds Good (
                settle_members api k (running_members found k) (record { manager = m; world = w })))
            (sym (members_of-known m ms known)) (settle_members-Good w))
        t h

  -- `reconcileMembers` makes an allowed change and does not panic.
  reconcile_members-at :
      (w : World) → Holds Good (reconcile_members api found (record { manager = m; world = w }))
  unfolding reconcile_members
  reconcile_members-at w =
      Holds-bind (At m) Good (for_each (diff found (members_of m)) (λ mb. remove_pod api mb.name)) _
        _
        (Holds-for_each (diff found (members_of m)) (λ mb. remove_pod api mb.name) _
          (λ mb t p. remove_pod-At api m mb.name t p) refl)
        unchanged λ _ t p. settle-Good t p

  pub reconcile_members-Good :
      (t : State World) → At m t → Holds Good (reconcile_members api found t)
  reconcile_members-Good t h =
      At-elim (λ t. Holds Good (reconcile_members api found t)) reconcile_members-at t h
