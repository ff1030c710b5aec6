-- ===== src/Sync/Redeploy.antt =====
-- A deployment that a sync has created or updated is left alone by the next one: `updateDeployment`
-- of pkg/manager/component/component.go, with the comparison of utils.go.
use cloudpods_operator.Prelude.{
  ℕ, String, ◌≡◌, refl, sym, ap, ◌∙◌, true, Bool-cases, Option-cases, inl, inr, Option, none, some,
  arith, ◌⊎◌,
}
use cloudpods_operator.Exec.{Outcome, ok, err, panic, Void, done, next}
use cloudpods_operator.Sync.Objects.{Deployment, selector_matches_labels}
use cloudpods_operator.Sync.Kube.{Kube, answer}
use cloudpods_operator.Sync.Annotate.{
  annotated, mark_template, same_replicas, set_deployment_last_applied, deployment_equal,
}
use cloudpods_operator.Sync.Deploy.{
  Slot, copied, renewed_deployment, create_deployment, write_deployment, update_deployment,
}
use cloudpods_operator.Sync.Held.{Holds, answered}
use cloudpods_operator.Sync.Converge.{
  RoundTrips, applied_of-annotated, failed, Marked, mark_with, mark_with-Marked,
}

copied-new : (a b c : Option ℕ) → copied a b ≡ ok c → c ≡ b
copied-new none b c h = absurd (cc)
copied-new (some x) none c h = absurd (cc)
copied-new (some x) (some y) c h = cc

copied-cases : (a b : Option ℕ) → (copied a b ≡ ok b) ⊎ (copied a b ≡ panic)
copied-cases none b = inr refl
copied-cases (some x) none = inr refl
copied-cases (some x) (some y) = inl refl

stopped : ◌≡◌ {A = Outcome Void} panic done → ⊥
stopped h = cc

module _ (kube : Kube) where
  open kube use {World, P, deployment_codec, plain, same, same_template, deployments}

  abbrev mark_deployment : Deployment P → String → String → Deployment P
  mark_deployment deploy text pod = record deploy {
    annotations = annotated text deploy.annotations;
    spec = record (deploy.spec) { template = mark_template kube pod deploy.spec.template };
  }

  set_deployment_last_applied-mark_with :
      (deploy : Deployment P)
      → set_deployment_last_applied kube deploy
        ≡ mark_with
            (deployment_codec.encode deploy.spec)
            (plain.encode deploy.spec.template.spec)
            (mark_deployment deploy)
  unfolding set_deployment_last_applied
  set_deployment_last_applied-mark_with deploy = ground arith

  deployment-Marked :
      (deploy written : Deployment P)
      → set_deployment_last_applied kube deploy ≡ some written
      → Marked
          (deployment_codec.encode deploy.spec)
          (plain.encode deploy.spec.template.spec)
          (mark_deployment deploy)
          written
  deployment-Marked deploy written e =
      mark_with-Marked (deployment_codec.encode deploy.spec)
        (plain.encode deploy.spec.template.spec) (mark_deployment deploy) written
        (sym (set_deployment_last_applied-mark_with deploy) ∙ e)

  same_replicas_refl : (r : Option ℕ) → same_replicas r r ≡ true
  unfolding same_replicas
  same_replicas_refl none = refl
  same_replicas_refl (some n) = ground arith

  -- The parts of the wanted deployment that an update copies.
  record Carries (new deploy : Deployment P) : Type 0 where
    replicas_kept : deploy.spec.replicas ≡ new.spec.replicas
    template_kept : deploy.spec.template ≡ new.spec.template
    strategy_kept : deploy.spec.strategy ≡ new.spec.strategy

  -- The next sync calls nothing on the deployment that is held.
  abbrev pub DeploymentLeftAlone : (World → Option (Deployment P)) → Deployment P → World → Type 0
  DeploymentLeftAlone held new w =
      (live : Deployment P) × (held w ≡ some live)
      × ((t : Slot World (Deployment P)) → update_deployment kube new live t ≡ (done, t))

  -- The server keeps the annotations and the selector that were sent.
  abbrev pub DeploymentKept : Deployment P → Deployment P → Type 0
  DeploymentKept sent live =
      (live.annotations ≡ sent.annotations) × (live.spec.selector ≡ sent.spec.selector)

  equal-Settled :
      (new live : Deployment P) (t : Slot World (Deployment P))
      → selector_matches_labels live.spec.selector new.spec.template.labels ≡ true
      → deployment_equal kube new live ≡ true
      → update_deployment kube new live t ≡ (done, t)
  unfolding update_deployment
  equal-Settled new live t matches e = rw (matches, e)

  marked-equal :
      (new deploy live : Deployment P) (text : String)
      → RoundTrips deployment_codec
      → same_template new.spec.template new.spec.template ≡ true
      → same new.spec.strategy new.spec.strategy ≡ true
      → Carries new deploy
      → deployment_codec.encode deploy.spec ≡ some text
      → live.annotations ≡ annotated text deploy.annotations
      → deployment_equal kube new live ≡ true
  unfolding deployment_equal
  marked-equal new deploy live text law t u c e kept = rw (
    kept,
    applied_of-annotated deployment_codec deploy.spec text deploy.annotations law e,
    c.replicas_kept,
    c.template_kept,
    c.strategy_kept,
    same_replicas_refl new.spec.replicas,
    t,
    u,
  )

  module _ (held : World → Option (Deployment P)) (holds : Holds deployments held DeploymentKept)
      (law : RoundTrips deployment_codec) (new : Deployment P)
      (t : same_template new.spec.template new.spec.template ≡ true)
      (u : same new.spec.strategy new.spec.strategy ≡ true) where
    sent-LeftAlone :
        (deploy sent live : Deployment P)
        → selector_matches_labels deploy.spec.selector new.spec.template.labels ≡ true
        → Carries new deploy
        → set_deployment_last_applied kube deploy ≡ some sent
        → DeploymentKept sent live
        → (s : Slot World (Deployment P)) → update_deployment kube new live s ≡ (done, s)
    sent-LeftAlone deploy sent live matches c e kept s =
        let marked = deployment-Marked deploy sent e in
        let annotations =
          kept.0 ∙ ap (λ (d : Deployment P). d.annotations) (sym marked.result_is) in
        let selector = kept.1 ∙ ap (λ (d : Deployment P). d.spec.selector) (sym marked.result_is) in
        equal-Settled new live s
          (ap (λ x. selector_matches_labels x new.spec.template.labels) selector ∙ matches)
          (marked-equal new deploy live marked.text law t u c marked.first_is annotations)

    create-LeftAlone :
        (s : Slot World (Deployment P))
        → selector_matches_labels new.spec.selector new.spec.template.labels ≡ true
        → (create_deployment kube new s).0 ≡ done
        → DeploymentLeftAlone held new (create_deployment kube new s).1.world
    unfolding create_deployment
    create-LeftAlone s matches h = elim (Option-cases (set_deployment_last_applied kube new)) [
      | inl e ↦ absurd (failed (rw e at h))
      | inr (sent, e) ↦
          let (live, there, kept) =
            holds.created sent s.world (answered (deployments.create sent s.world).0 (rw e at h)) in
          rw e (
            live,
            there,
            sent-LeftAlone new sent live matches
                (record { replicas_kept = refl; template_kept = refl; strategy_kept = refl }) e
                kept,
          )
    ]

    write-LeftAlone :
        (old : Deployment P) (s : Slot World (Deployment P))
        → selector_matches_labels old.spec.selector new.spec.template.labels ≡ true
        → (write_deployment kube new old s).0 ≡ done
        → DeploymentLeftAlone held new (write_deployment kube new old s).1.world
    unfolding write_deployment
    write-LeftAlone old s matches h = elim (copied-cases old.spec.replicas new.spec.replicas) [
      | inr p ↦ absurd (stopped (rw p at h))
      | inl c ↦ elim (Option-cases (set_deployment_last_applied kube renewed)) [
        | inl e ↦ absurd (failed (rw (c, e) at h))
        | inr (sent, e) ↦
            let (live, there, kept) =
              holds.updated sent s.world
                (answered (deployments.update sent s.world).0 (rw (c, e) at h)) in
            rw (c, e)
              (
                live,
                there,
                sent-LeftAlone renewed sent live matches
                    (record { replicas_kept = refl; template_kept = refl; strategy_kept = refl }) e
                    kept,
              )
      ]
    ]
      where
        renewed : Deployment P
        renewed = renewed_deployment kube new new.spec.replicas old

    after_delete :
        (r : Outcome Void) (s : Slot World (Deployment P))
        → selector_matches_labels new.spec.selector new.spec.template.labels ≡ true
        → (next r (λ _. create_deployment kube new) s).0 ≡ done
        → DeploymentLeftAlone held new (next r (λ _. create_deployment kube new) s).1.world
    after_delete (ok a) s matches h = create-LeftAlone s matches h
    after_delete (err e) s matches h = absurd (failed h)
    after_delete panic s matches h = absurd (stopped h)

    update-LeftAlone :
        (old : Deployment P) (s : Slot World (Deployment P))
        → selector_matches_labels new.spec.selector new.spec.template.labels ≡ true
        → held s.world ≡ some old
        → (update_deployment kube new old s).0 ≡ done
        → DeploymentLeftAlone held new (update_deployment kube new old s).1.world
    unfolding update_deployment
    update-LeftAlone old s matches there h =
        elim (Bool-cases (selector_matches_labels old.spec.selector new.spec.template.labels)) [
          | inr m ↦
              rw m (
                after_delete (answer (deployments.delete old.name s.world).0) _ matches (rw m at h))
          | inl m ↦ elim (Bool-cases (deployment_equal kube new old)) [
            | inl e ↦ rw (m, e) (old, there, λ v. equal-Settled new old v m e)
            | inr e ↦ rw (m, e) (write-LeftAlone old s m (rw (m, e) at h))
          ]
        ]

    -- A deployment is left alone by the next sync, which calls nothing, after a creation and after
    -- an update that returned no error, whether the update had to write, to replace or to do
    -- nothing. JSON reads back what it wrote, comparisons are reflexive, the wanted selector
    -- matches the wanted template, and the API server keeps the annotations and the selector that
    -- are sent.
    pub update_deployment-Settled :
        (s : Slot World (Deployment P))
        → selector_matches_labels new.spec.selector new.spec.template.labels ≡ true
        → ((create_deployment kube new s).0 ≡ done
            → DeploymentLeftAlone held new (create_deployment kube new s).1.world)
          × ((old : Deployment P)
              → held s.world ≡ some old
              → (update_deployment kube new old s).0 ≡ done
              → DeploymentLeftAlone held new (update_deployment kube new old s).1.world)
    update_deployment-Settled s matches =
        (create-LeftAlone s matches, λ old. update-LeftAlone old s matches)
