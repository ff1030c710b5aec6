-- ===== src/Etcd/Membership/Quorum.antt =====
-- Where ErrLostQuorum of pkg/manager/component/etcd.go comes from: `reconcile` returns it only
-- where fewer members than a quorum run. It makes the loop delete every member.
use mathlib.Core.Bool.{false≢true}
use cloudpods_operator.Prelude.{
  ◌+◌, ◌/◌, ◌<◌, String, ◌≡◌, refl, ◌∙◌, sym, Bool, true, false, Bool-cases, inl, inr, not, ◌||◌,
  Option, none, some, List, [], ◌∷◌, arith, if◌then◌else◌, ◌==◌, ltb,
}
use cloudpods_operator.Exec.{
  Reply, good, bad, cause, lost_quorum, in_context, Outcome, ok, err, panic, Exec, Void, next,
  ◌>>=◌, map_err, annotate, skip, fail, for_each,
}
use cloudpods_operator.Etcd.Member.{Member, peer_url, unique_member_name}
use cloudpods_operator.Etcd.MemberSet.{MemberSet, size, client_urls, diff, is_equal, pick_one}
use cloudpods_operator.Etcd.MemberSet.Sizes.{running_members}
use cloudpods_operator.Etcd.Types.{Pod}
use cloudpods_operator.Etcd.Api.{Api, State, call, or_panic, from_reply}
use cloudpods_operator.Etcd.Manager.Spec.{etcd_cluster_prefix}
use cloudpods_operator.Etcd.Manager.Pods.{remove_pod, create_pod, settle}
use cloudpods_operator.Etcd.Manager.Members.{
  members_of, member_for, new_member, insert_member, take_out, add_one_member, remove_member,
  remove_one_member, resize, upgraded, upgrade_one_member,
}
use cloudpods_operator.Etcd.Manager.Reconcile.{
  pods_to_member_set, settle_members, reconcile_members, upgrade, up_to_date, reconcile_to,
  need_upgrade, pick_one_old_member, reconcile,
}
use cloudpods_operator.Etcd.Manager.Loop.{is_lost_quorum}

-- The method failed with ErrLostQuorum as the cause.
abbrev pub lost : {A : Type 0} → Outcome A → Bool
lost (ok a) = false
lost (err e) = is_lost_quorum (cause e)
lost panic = false

abbrev Innocent : {S A : Type 0} → Exec S A → Type 0
Innocent {S} m = (s : S) → lost (m s).0 ≡ false

module _ {S A B : Type 0} where
  lost-next :
      (r : Outcome A) (f : A → Exec S B) (t : S)
      → lost r ≡ false
      → ((a : A) → Innocent (f a))
      → lost (next r f t).0 ≡ false
  lost-next (ok a) f t h k = k a t
  lost-next (err e) f t h k = h
  lost-next panic f t h k = refl

  bind-Innocent :
      (m : Exec S A) (f : A → Exec S B)
      → Innocent m
      → ((a : A) → Innocent (f a))
      → Innocent (m >>= f)
  bind-Innocent m f h k s = lost-next (m s).0 f (m s).1 (h s) k

map_err-lost : {A : Type 0} (r : Outcome A) → lost (map_err in_context r) ≡ false
unfolding cause
map_err-lost r = ground arith

module _ {S A : Type 0} where
  annotate-Innocent : (m : Exec S A) → Innocent (annotate in_context m)
  annotate-Innocent m s = map_err-lost (m s).0

  or_panic-Innocent : (o : Option A) → Innocent (or_panic {S = S} o)
  or_panic-Innocent (some a) s = refl
  or_panic-Innocent none s = refl

  if-Innocent :
      (b : Bool) (m n : Exec S A) → Innocent m → Innocent n → Innocent (if b then m else n)
  if-Innocent true m n h k = h
  if-Innocent false m n h k = k

  for_each-Innocent :
      (xs : List A) (body : A → Exec S Void)
      → ((a : A) → Innocent (body a))
      → Innocent (for_each xs body)
  for_each-Innocent [] body h s = refl
  for_each-Innocent (x ∷ xs) body h s =
      bind-Innocent (body x) _ (h x) (λ _. for_each-Innocent xs body h) s

from_reply-lost : {A : Type 0} (r : Reply A) → lost (from_reply r) ≡ false
unfolding cause
from_reply-lost (good a) = refl
from_reply-lost (bad e) = refl

settle-lost : (r : Reply Void) → lost (settle r) ≡ false
unfolding cause
settle-lost r = ground arith

module _ (api : Api) where
  open api use {World}

  call-Innocent : {A : Type 0} (f : World → Reply A × World) → Innocent (call f)
  call-Innocent f s = from_reply-lost (f s.world).0

  remove_pod-Innocent : (name : String) → Innocent (remove_pod api name)
  unfolding remove_pod
  remove_pod-Innocent name s = settle-lost (api.delete_pod name s.world).0

  remove_member-Innocent : (mb : Member) → Innocent (remove_member api mb)
  unfolding remove_member
  remove_member-Innocent mb = annotate-Innocent (take_out api mb)

  remove_one_member-Innocent : Innocent (remove_one_member api)
  unfolding remove_one_member
  remove_one_member-Innocent s =
      bind-Innocent (or_panic (pick_one (members_of s.manager))) _ (or_panic-Innocent _)
        (remove_member-Innocent) s

  insert_member-Innocent : (mb : Member) → Innocent (insert_member api mb)
  unfolding insert_member
  insert_member-Innocent mb s =
      bind-Innocent (or_panic s.manager.members) _ (or_panic-Innocent s.manager.members)
        (λ ms t. refl) s

  abbrev drawn : State World → Member
  drawn u =
      member_for u.manager.oc
        (unique_member_name (etcd_cluster_prefix u.manager.oc) (api.member_suffix u.world).0) 0

  add_one_member-Innocent : Innocent (add_one_member api)
  unfolding add_one_member new_member
  add_one_member-Innocent s =
      bind-Innocent (or_panic (client_urls (members_of s.manager))) _ (or_panic-Innocent _)
        (λ urls.
          bind-Innocent (annotate in_context (call (api.new_client urls))) _
            (annotate-Innocent (call (api.new_client urls)))
            (λ _ u.
              bind-Innocent (or_panic (peer_url (drawn u))) _ (or_panic-Innocent _)
                (λ url.
                  bind-Innocent (annotate in_context (call (api.member_add urls url))) _
                    (annotate-Innocent (call (api.member_add urls url)))
                    (λ id.
                      bind-Innocent (insert_member api (record (drawn u) { id = id })) _
                        (insert_member-Innocent (record (drawn u) { id = id }))
                        (λ ms.
                          annotate-Innocent
                            (create_pod api ms (record (drawn u) { id = id }) "existing"))))
                _))
        s

  resize-Innocent : Innocent (resize api)
  unfolding resize
  resize-Innocent s =
      if-Innocent (size (members_of s.manager) == s.manager.oc.etcd.size) skip _ (λ _. refl)
        (if-Innocent (ltb (size (members_of s.manager)) s.manager.oc.etcd.size) (add_one_member api)
          (remove_one_member api) add_one_member-Innocent remove_one_member-Innocent)
        s

  bury-Innocent : (o : Option Member) → Innocent (or_panic o >>= remove_member api)
  bury-Innocent o =
      bind-Innocent (or_panic o) (remove_member api) (or_panic-Innocent o) remove_member-Innocent

  if-lost :
      {A : Type 0} (b : Bool) (m n : Exec (State World) A) (s : State World)
      → lost ((if b then m else n) s).0 ≡ true
      → Innocent m
      → (b ≡ false) × (lost (n s).0 ≡ true)
  if-lost true m n s h k = absurd (false≢true (sym (k s) ∙ h))
  if-lost false m n s h k = (refl, h)

  if-fails :
      {A : Type 0} (b : Bool) (m n : Exec (State World) A) (s : State World)
      → lost ((if b then m else n) s).0 ≡ true
      → Innocent n
      → b ≡ true
  if-fails true m n s h k = refl
  if-fails false m n s h k = absurd (false≢true (sym (k s) ∙ h))

  settle_members-lost :
      (members live : MemberSet) (s : State World)
      → lost (settle_members api members live s).0 ≡ true
      → size live < size members / 2 + 1
  unfolding settle_members
  settle_members-lost members live s h =
      let (_, h') = if-lost (size live == size members) (resize api) _ s h resize-Innocent in
      ground (
        arith,
        if-fails (ltb (size live) (size members / 2 + 1)) (fail lost_quorum)
            (or_panic (pick_one (diff members live)) >>= remove_member api) s h'
            (bury-Innocent (pick_one (diff members live))),
      )

  after-innocent :
      {A B : Type 0} (m : Exec (State World) A) (f : A → Exec (State World) B) (P : Type 0)
      → Innocent m
      → ((a : A) (t : State World) → lost (f a t).0 ≡ true → P)
      → (s : State World) → lost ((m >>= f) s).0 ≡ true
      → P
  after-innocent m f P h k s l = go (m s).0 (h s) l
    where
      go : (r : Outcome _) → lost r ≡ false → lost (next r f (m s).1).0 ≡ true → P
      go (ok a) i q = k a (m s).1 q
      go (err e) i q = absurd (false≢true (sym i ∙ q))
      go panic i q = absurd (false≢true q)

  -- `reconcileMembers` reports a lost quorum only where fewer members than a quorum run.
  reconcile_members-lost :
      (found : MemberSet) (s : State World)
      → lost (reconcile_members api found s).0 ≡ true
      → size (running_members found (members_of s.manager)) < size (members_of s.manager) / 2 + 1
  unfolding reconcile_members
  reconcile_members-lost found s h =
      after-innocent (for_each (diff found (members_of s.manager)) (λ mb. remove_pod api mb.name)) _
        _
        (for_each-Innocent (diff found (members_of s.manager)) (λ mb. remove_pod api mb.name)
          (λ mb. remove_pod-Innocent mb.name))
        (λ _ t q.
          settle_members-lost (members_of s.manager) (running_members found (members_of s.manager))
            t q)
        s h

  upgrade_one_member-Innocent : (name : String) → Innocent (upgrade_one_member api name)
  unfolding upgrade_one_member
  upgrade_one_member-Innocent name s =
      bind-Innocent (annotate in_context (call (api.get_pod name))) _
        (annotate-Innocent (call (api.get_pod name)))
        (λ pod. annotate-Innocent (call (api.patch_pod (upgraded s.manager.oc pod)))) s

  keep_up-Innocent :
      (pods : List Pod) (b : Bool) → Innocent (if b then upgrade api pods else up_to_date api)
  unfolding upgrade up_to_date
  keep_up-Innocent pods true s =
      bind-Innocent (or_panic (pick_one_old_member pods s.manager.oc.etcd.version))
        (upgrade_one_member api) (or_panic-Innocent _) upgrade_one_member-Innocent _
  keep_up-Innocent pods false s = refl

  -- Where `reconcile` fails with a lost quorum, fewer than half of the known members, plus one, run
  -- among the given pods; no error of the API server or of etcd is taken for a lost quorum.
  pub reconcile-lost :
      (pods : List Pod) (s : State World)
      → lost (reconcile api pods s).0 ≡ true
      → size (running_members (pods_to_member_set s.manager.oc pods []) (members_of s.manager))
        < size (members_of s.manager) / 2 + 1
  unfolding reconcile reconcile_to
  reconcile-lost pods s h = elim (Bool-cases (need_members s)) [
    | inl e ↦ reconcile_members-lost (pods_to_member_set s.manager.oc pods []) s (rw e at h)
    | inr e ↦
        absurd (
          false≢true (sym (keep_up-Innocent pods (need_upgrade pods s.manager.oc) s) ∙ (rw e at h)))
  ]
    where
      need_members : State World → Bool
      need_members t =
          not (is_equal (pods_to_member_set t.manager.oc pods []) (members_of t.manager))
          || not (size (members_of t.manager) == t.manager.oc.etcd.size)
