-- ===== src/Sync/Services.antt =====
-- Services in pkg/manager/component/component.go keep their cluster IP over an update, and the
-- annotation with the last applied specification then holds that IP.
use cloudpods_operator.Prelude.{
  String, ◌≡◌, refl, sym, ap, ◌∙◌, Bool, true, false, Option-cases, inl, inr, Option, none, some,
  arith, if◌then◌else◌,
}
use cloudpods_operator.Exec.{ok, done, Exec, Void}
use cloudpods_operator.Sync.Objects.{ServiceObject}
use cloudpods_operator.Sync.Kube.{Kube}
use cloudpods_operator.Sync.Annotate.{annotated, set_service_last_applied, service_equal}
use cloudpods_operator.Sync.Kinds.{renewed_service, create_service, sync_one_service, write_service}
use cloudpods_operator.Sync.Converge.{RoundTrips, applied_of-annotated, some-injective, failed}
use cloudpods_operator.Sync.Held.{Holds, answered}

module _ (kube : Kube) where
  open kube use {World, P, service_codec, same_service, services}

  abbrev mark_service : ServiceObject P → String → ServiceObject P
  mark_service svc text = record svc { annotations = annotated text svc.annotations }

  abbrev mark_one : Option String → (String → ServiceObject P) → Option (ServiceObject P)
  mark_one none mark = none
  mark_one (some text) mark = some (mark text)

  set_service_last_applied-mark_one :
      (svc : ServiceObject P)
      → set_service_last_applied kube svc
        ≡ mark_one (service_codec.encode svc.spec) (mark_service svc)
  unfolding set_service_last_applied
  set_service_last_applied-mark_one svc = ground arith

  marked_service :
      (o : Option String) (svc written : ServiceObject P)
      → mark_one o (mark_service svc) ≡ some written
      → (text : String) × (o ≡ some text) × (mark_service svc text ≡ written)
  marked_service none svc written e = absurd (cc)
  marked_service (some text) svc written e = (text, refl, some-injective e)

  -- The server keeps the annotations that were sent.
  abbrev pub ServiceKept : ServiceObject P → ServiceObject P → Type 0
  ServiceKept sent live = live.annotations ≡ sent.annotations

  -- The next comparison is with the specification that was sent.
  service_equal-sent :
      (new svc sent live : ServiceObject P)
      → RoundTrips service_codec
      → set_service_last_applied kube svc ≡ some sent
      → ServiceKept sent live
      → service_equal kube new live ≡ ok (same_service svc.spec new.spec)
  unfolding service_equal
  service_equal-sent new svc sent live law e kept =
      let (text, first, result) =
        marked_service (service_codec.encode svc.spec) svc sent
          (sym (set_service_last_applied-mark_one svc) ∙ e) in
      let annotations : live.annotations ≡ annotated text svc.annotations =
        kept ∙ ap (λ (s : ServiceObject P). s.annotations) (sym result) in
      rw (annotations, applied_of-annotated service_codec svc.spec text svc.annotations law first)

  sync_one_service-equal :
      (next : Exec World Void) (new old : ServiceObject P) (b : Bool) (w : World)
      → service_equal kube new old ≡ ok b
      → sync_one_service kube next true new (some old) w
        ≡ (if b then next w else write_service kube new old w)
  unfolding sync_one_service
  sync_one_service-equal next new old true w e = rw e
  sync_one_service-equal next new old false w e = rw e

  -- The next sync goes on with the rest of the list.
  abbrev pub ServiceLeftAlone :
      (World → Option (ServiceObject P)) → ServiceObject P → World → Type 0
  ServiceLeftAlone held new w =
      (live : ServiceObject P) × (held w ≡ some live)
      × ((rest : Exec World Void) (v : World)
          → sync_one_service kube rest true new (some live) v ≡ rest v)

  -- The next sync writes the service that is held, and ends there.
  abbrev pub ServiceWrittenAgain :
      (World → Option (ServiceObject P)) → ServiceObject P → World → Type 0
  ServiceWrittenAgain held new w =
      (live : ServiceObject P) × (held w ≡ some live)
      × ((rest : Exec World Void) (v : World)
          → sync_one_service kube rest true new (some live) v ≡ write_service kube new live v)

  module _ (held : World → Option (ServiceObject P)) (holds : Holds services held ServiceKept)
      (law : RoundTrips service_codec) (new : ServiceObject P) where
    create_service-LeftAlone :
        (w : World)
        → same_service new.spec new.spec ≡ true
        → (create_service kube new w).0 ≡ done
        → ServiceLeftAlone held new (create_service kube new w).1
    unfolding create_service
    create_service-LeftAlone w same_new h =
        elim (Option-cases (set_service_last_applied kube new)) [
          | inl e ↦ absurd (failed (rw e at h))
          | inr (sent, e) ↦
              let (live, there, kept) =
                holds.created sent w (answered (services.create sent w).0 (rw e at h)) in
              rw e (
                live,
                there,
                λ rest v.
                    sync_one_service-equal rest new live true v
                      (service_equal-sent new new sent live law e kept ∙ ap ok same_new),
              )
        ]

    write_service-WrittenAgain :
        (old : ServiceObject P) (w : World)
        → same_service (renewed_service kube new old).spec new.spec ≡ false
        → (write_service kube new old w).0 ≡ done
        → ServiceWrittenAgain held new (write_service kube new old w).1
    unfolding write_service
    write_service-WrittenAgain old w differs h =
        elim (Option-cases (set_service_last_applied kube (renewed_service kube new old))) [
          | inl e ↦ absurd (failed (rw e at h))
          | inr (sent, e) ↦
              let (live, there, kept) =
                holds.updated sent w (answered (services.update sent w).0 (rw e at h)) in
              rw e (
                live,
                there,
                λ rest v. sync_one_service-equal rest new live false v (
                    service_equal-sent new (renewed_service kube new old) sent live law e kept
                    ∙ ap ok differs),
              )
        ]

    -- A service that a sync did not find and created without an error is left alone by the next
    -- sync, which goes on with the rest of the list. JSON reads back what it wrote, the comparison
    -- is reflexive, and the API server keeps the annotations that are sent.
    pub sync_one_service-created :
        (next : Exec World Void) (w : World)
        → same_service new.spec new.spec ≡ true
        → (sync_one_service kube next true new none w).0 ≡ done
        → ServiceLeftAlone held new (sync_one_service kube next true new none w).1
    unfolding sync_one_service
    sync_one_service-created next w same_new h = create_service-LeftAlone w same_new h

    -- A service that a sync found different and updated without an error is written again by the
    -- next sync to the same specification, and the rest of the list is not reached, where the
    -- comparison tells the live cluster IP from the wanted one. JSON reads back what it wrote, and
    -- the API server keeps the annotations that are sent.
    pub sync_one_service-again :
        (next : Exec World Void) (old : ServiceObject P) (w : World)
        → same_service (renewed_service kube new old).spec new.spec ≡ false
        → service_equal kube new old ≡ ok false
        → (sync_one_service kube next true new (some old) w).0 ≡ done
        → ServiceWrittenAgain held new (sync_one_service kube next true new (some old) w).1
    sync_one_service-again next old w differs unequal h =
        let writes = sync_one_service-equal next new old false w unequal in
        rw writes (write_service-WrittenAgain old w differs (rw writes at h))
