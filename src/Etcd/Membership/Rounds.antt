-- ===== src/Etcd/Membership/Rounds.antt =====
-- Rounds of `reconcile` of pkg/manager/component/etcd.go in which nothing fails.
use cloudpods_operator.Prelude.{
  ℕ, zero, suc, ◌-◌, ◌≤◌, String, ◌≡◌, ◌∙◌, ap, sym, ◌≢◌, true, false, Bool-cases, inl, inr, Option,
  Option-cases, none, some, List, [], arith, ◌==◌,
}
use cloudpods_operator.Exec.{done}
use cloudpods_operator.Etcd.MemberSet.{MemberSet, has, size, is_equal, client_urls, IsMap}
use cloudpods_operator.Etcd.MemberSet.Sizes.{is_equal_iff}
use cloudpods_operator.Etcd.MemberSet.Addresses.{HasAddresses, client_urls-HasAddresses}
use cloudpods_operator.Etcd.Types.{Pod}
use cloudpods_operator.Etcd.Api.{Api, Manager, State}
use cloudpods_operator.Etcd.Manager.Reconcile.{reconcile}
use cloudpods_operator.Etcd.Membership.Change.{kept, grown, shrunk, buried}
use cloudpods_operator.Etcd.Membership.Reconcile.{
  found_pods, AllowedFrom, reconcile-Change, pods_to_member_set-IsMap,
}
use cloudpods_operator.Etcd.Membership.Progress.{name_after}
use cloudpods_operator.Etcd.Membership.Converge.{distance, reconcile_to-Nearer}

abbrev size_of : Option MemberSet → ℕ
size_of none = 0
size_of (some ms) = size ms

module _ (api : Api) (goal : ℕ) where
  open api use {World}

  -- A round may start: the members are known, distinct and addressable, the pods that run are
  -- theirs, and the next name that is drawn is none of theirs.
  pub record Ready (s : State World) (pods : List Pod) : Type 0 where
    pub members : MemberSet
    pub known : s.manager.members ≡ some members
    pub addressed : HasAddresses members
    pub mapped : IsMap members
    pub wanted : s.manager.oc.etcd.size ≡ goal
    pub running : is_equal (found_pods api s pods) members ≡ true
    pub unused :
        (urls : List String)
        → client_urls members ≡ some urls
        → has (name_after api s.manager members known addressed urls s.world) members ≡ false

  -- From the members of `s` to those of `t` in a number of rounds that succeed. Between two rounds
  -- all but the members may change: the world, the specification, the status.
  pub data Rounds : ℕ → State World → State World → Type 0 where
    over : {s : State World} → Rounds zero s s
    round :
        {n : ℕ} {s u t : State World} (pods : List Pod)
        → Ready s pods
        → (reconcile api pods s).0 ≡ done
        → u.manager.members ≡ (reconcile api pods s).1.manager.members
        → Rounds n u t
        → Rounds (suc n) s t

  -- What a round leaves.
  record Stepped (ms : MemberSet) (t : State World) : Type 0 where
    after : MemberSet
    known : t.manager.members ≡ some after
    nearer : distance goal (size after) ≡ distance goal (size ms) - 1

  module _ (s : State World) (pods : List Pod) (r : Ready s pods) where
    kept_when_settled :
        (after : MemberSet)
        → size r.members ≡ goal
        → AllowedFrom api s pods r.members after
        → after ≡ r.members
    kept_when_settled after e (kept same) = same
    kept_when_settled after e (grown mb below a joined) = absurd (omega (arith, r.wanted))
    kept_when_settled after e (shrunk mb above inside left) = absurd (omega (arith, r.wanted))
    kept_when_settled after e (buried mb quorum inside dead left) =
        let names =
          (is_equal_iff (found_pods api s pods) r.members
              (pods_to_member_set-IsMap s.manager.oc pods [] tt) r.mapped).0
            r.running in
        let same = names mb.name in absurd (cc)

    settled_round : size r.members ≡ goal → Stepped r.members (reconcile api pods s).1
    settled_round e =
        let change = (reconcile-Change api s pods r.members r.known r.addressed r.mapped).after in
        let same = kept_when_settled change.members e change.fact in
        record {
          after = change.members;
          known = change.known;
          nearer = omega (arith, ap (λ (k : MemberSet). size k) same);
        }

    moving_round :
        size r.members ≢ goal
        → (reconcile api pods s).0 ≡ done
        → Stepped r.members (reconcile api pods s).1
    unfolding reconcile
    moving_round ne returned = elim (Option-cases (client_urls r.members)) [
      | inl nowhere ↦ let somewhere = client_urls-HasAddresses r.members r.addressed in absurd (cc)
      | inr (urls, asked) ↦
          let moved =
            (reconcile_to-Nearer api s.manager r.members r.known r.addressed r.mapped s.world urls
                asked (r.unused urls asked) (found_pods api s pods) r.running pods
                (λ e. ne (e ∙ r.wanted))).result
              tt returned in
          record {
            after = moved.members;
            known = ap (λ (k : Manager). k.members) moved.moved;
            nearer = omega (arith, moved.fact, r.wanted);
          }
    ]

    stepped : (reconcile api pods s).0 ≡ done → Stepped r.members (reconcile api pods s).1
    stepped returned = elim (Bool-cases (size r.members == goal)) [
      | inl settled ↦ settled_round (ground arith)
      | inr moving ↦ moving_round (λ e. ground arith) returned
    ]

  known_members :
      (ms ks : MemberSet) → ◌≡◌ {A = Option MemberSet} (some ms) (some ks) → size ms ≡ size ks
  known_members ms ks e = ap (λ (o : Option MemberSet). size_of o) e

  -- Repeated reconciles reach the size that is asked for. From `ms` members, as many rounds as the
  -- size is away from `goal` bring the etcd cluster to that size, and further rounds keep it there.
  -- In each round `reconcile` returns no error, the pods that run are those of the members, whose
  -- names are distinct and which have addresses, the specification asks for `goal`, and the next
  -- name that is drawn is new; between two rounds all but the members may change.
  pub Rounds-reach_size :
      {n : ℕ} {s t : State World} (ms : MemberSet)
      → Rounds n s t
      → s.manager.members ≡ some ms
      → distance goal (size ms) ≤ n
      → (after : MemberSet) × (t.manager.members ≡ some after) × (size after ≡ goal)
  Rounds-reach_size ms over known h = (ms, known, omega arith)
  Rounds-reach_size ms (round {n} {s} {u} {t} pods r returned between rest) known h =
      let next = stepped s pods r returned in
      let same = known_members ms r.members (sym known ∙ r.known) in
      Rounds-reach_size next.after rest (between ∙ next.known) (omega (arith, next.nearer))
