-- ===== src/Sync/Converge.antt =====
-- A sync that finds what an earlier one wrote writes nothing: the comparisons with the last applied
-- specification in pkg/manager/component/utils.go, and the updates of component.go that use them.
use cloudpods_operator.Prelude.{
  String, ◌≡◌, refl, sym, ap, ◌∙◌, true, Bool-cases, Option-cases, inl, inr, Option, none, some,
  arith,
}
use cloudpods_operator.Exec.{Err, Outcome, err, Void, done}
use cloudpods_operator.Etcd.Types.{Labels}
use cloudpods_operator.Sync.Objects.{DaemonSet, selector_matches_labels}
use cloudpods_operator.Sync.Kube.{Kube, Codec}
use cloudpods_operator.Sync.Annotate.{
  last_applied, annotated, mark_template, applied, applied_of, set_daemon_set_last_applied,
  daemon_set_equal,
}
use cloudpods_operator.Sync.Kinds.{renewed_daemon_set, write_daemon_set, update_daemon_set}
use cloudpods_operator.Sync.Held.{Holds, answered}
use cloudpods_operator.Sync.Maps.{find-put}

-- Reading back what was encoded: the documented round trip of encoding/json.
abbrev pub RoundTrips : {A : Type 0} → Codec A → Type 0
RoundTrips {A} codec =
    (a : A) (text : String) → codec.encode a ≡ some text → codec.decode text ≡ some a

pub applied_of-annotated :
    {A : Type 0} (codec : Codec A) (a : A) (text : String) (annotations : Labels)
    → RoundTrips codec
    → codec.encode a ≡ some text
    → applied_of codec (annotated text annotations) ≡ applied a
applied_of-annotated codec a text annotations law e =
    rw (find-put last_applied text annotations, law a text e)

pub some-injective : {A : Type 0} {a b : A} → ◌≡◌ {A = Option A} (some a) (some b) → a ≡ b
some-injective e = cc

pub failed : {e : Err} → ◌≡◌ {A = Outcome Void} (err e) done → ⊥
failed h = cc

-- An object was marked with two texts: both encodings have succeeded.
pub record Marked {O : Type 0} (first second : Option String) (mark : String → String → O)
    (result : O) : Type 0 where
  pub text : String
  pub pod : String
  pub first_is : first ≡ some text
  pub second_is : second ≡ some pod
  pub result_is : mark text pod ≡ result

abbrev pub mark_with :
    {O : Type 0} → Option String → Option String → (String → String → O) → Option O
mark_with none second mark = none
mark_with (some text) none mark = none
mark_with (some text) (some pod) mark = some (mark text pod)

pub mark_with-Marked :
    {O : Type 0} (first second : Option String) (mark : String → String → O) (result : O)
    → mark_with first second mark ≡ some result
    → Marked first second mark result
mark_with-Marked none second mark result e = absurd (cc)
mark_with-Marked (some text) none mark result e = absurd (cc)
mark_with-Marked (some text) (some pod) mark result e = record {
  text = text;
  pod = pod;
  first_is = refl;
  second_is = refl;
  result_is = some-injective e;
}

module _ (kube : Kube) where
  open kube use {
    World, P, daemon_set_codec, cron_job_codec, deployment_codec, service_codec, plain, same,
    same_template, same_service, daemon_sets, deployments,
  }

  abbrev mark_daemon_set : DaemonSet P → String → String → DaemonSet P
  mark_daemon_set ds text pod = record ds {
    annotations = annotated text ds.annotations;
    spec = record (ds.spec) { template = mark_template kube pod ds.spec.template };
  }

  set_daemon_set_last_applied-mark_with :
      (ds : DaemonSet P)
      → set_daemon_set_last_applied kube ds
        ≡ mark_with
            (daemon_set_codec.encode ds.spec)
            (plain.encode ds.spec.template.spec)
            (mark_daemon_set ds)
  unfolding set_daemon_set_last_applied
  set_daemon_set_last_applied-mark_with ds = ground arith

  daemon_set-Marked :
      (ds written : DaemonSet P)
      → set_daemon_set_last_applied kube ds ≡ some written
      → Marked
          (daemon_set_codec.encode ds.spec)
          (plain.encode ds.spec.template.spec)
          (mark_daemon_set ds)
          written
  daemon_set-Marked ds written e =
      mark_with-Marked (daemon_set_codec.encode ds.spec) (plain.encode ds.spec.template.spec)
        (mark_daemon_set ds) written (sym (set_daemon_set_last_applied-mark_with ds) ∙ e)

  -- The next sync calls nothing on the daemon set that is held.
  abbrev pub DaemonSetLeftAlone : (World → Option (DaemonSet P)) → DaemonSet P → World → Type 0
  DaemonSetLeftAlone held new w =
      (live : DaemonSet P) × (held w ≡ some live)
      × ((v : World) → update_daemon_set kube new live v ≡ (done, v))

  -- The server keeps the annotations and the selector that were sent.
  abbrev pub DaemonSetKept : DaemonSet P → DaemonSet P → Type 0
  DaemonSetKept sent live =
      (live.annotations ≡ sent.annotations) × (live.spec.selector ≡ sent.spec.selector)

  equal_daemon_set-Settled :
      (new live : DaemonSet P) (w : World)
      → selector_matches_labels live.spec.selector new.spec.template.labels ≡ true
      → daemon_set_equal kube new live ≡ true
      → update_daemon_set kube new live w ≡ (done, w)
  unfolding update_daemon_set
  equal_daemon_set-Settled new live w matches e = rw (matches, e)

  marked_daemon_set-equal :
      (new old live : DaemonSet P) (text pod : String)
      → RoundTrips daemon_set_codec
      → same_template new.spec.template new.spec.template ≡ true
      → same new.spec.update_strategy new.spec.update_strategy ≡ true
      → daemon_set_codec.encode (renewed_daemon_set kube new old).spec ≡ some text
      → live.annotations ≡ annotated text old.annotations
      → daemon_set_equal kube new live ≡ true
  unfolding daemon_set_equal
  marked_daemon_set-equal new old live text pod law t u e kept = rw (
    kept,
    applied_of-annotated daemon_set_codec (renewed_daemon_set kube new old).spec text
        old.annotations law e,
    t,
    u,
  )

  module _ (held : World → Option (DaemonSet P)) (holds : Holds daemon_sets held DaemonSetKept)
      (law : RoundTrips daemon_set_codec) (new : DaemonSet P)
      (t : same_template new.spec.template new.spec.template ≡ true)
      (u : same new.spec.update_strategy new.spec.update_strategy ≡ true) where
    sent_daemon_set-LeftAlone :
        (old sent live : DaemonSet P)
        → selector_matches_labels old.spec.selector new.spec.template.labels ≡ true
        → set_daemon_set_last_applied kube (renewed_daemon_set kube new old) ≡ some sent
        → DaemonSetKept sent live
        → (v : World) → update_daemon_set kube new live v ≡ (done, v)
    sent_daemon_set-LeftAlone old sent live matches e kept v =
        let marked = daemon_set-Marked (renewed_daemon_set kube new old) sent e in
        let annotations = kept.0 ∙ ap (λ (d : DaemonSet P). d.annotations) (sym marked.result_is) in
        let selector = kept.1 ∙ ap (λ (d : DaemonSet P). d.spec.selector) (sym marked.result_is) in
        equal_daemon_set-Settled new live v
          (ap (λ s. selector_matches_labels s new.spec.template.labels) selector ∙ matches)
          (marked_daemon_set-equal new old live marked.text marked.pod law t u marked.first_is
            annotations)

    write_daemon_set-LeftAlone :
        (old : DaemonSet P) (w : World)
        → selector_matches_labels old.spec.selector new.spec.template.labels ≡ true
        → (write_daemon_set kube new old w).0 ≡ done
        → DaemonSetLeftAlone held new (write_daemon_set kube new old w).1
    unfolding write_daemon_set
    write_daemon_set-LeftAlone old w matches h =
        elim (Option-cases (set_daemon_set_last_applied kube (renewed_daemon_set kube new old))) [
          | inl e ↦ absurd (failed (rw e at h))
          | inr (sent, e) ↦
              let (live, there, kept) =
                holds.updated sent w (answered (daemon_sets.update sent w).0 (rw e at h)) in
              rw e (live, there, sent_daemon_set-LeftAlone old sent live matches e kept)
        ]

    -- A daemon set whose selector matches the wanted template is left alone by the next sync after
    -- an update that returned no error: that sync calls nothing, whether the update had to write or
    -- not. JSON reads back what it wrote, comparisons are reflexive, and the API server keeps the
    -- annotations and the selector that are sent.
    pub update_daemon_set-Settled :
        (old : DaemonSet P) (w : World)
        → held w ≡ some old
        → selector_matches_labels old.spec.selector new.spec.template.labels ≡ true
        → (update_daemon_set kube new old w).0 ≡ done
        → DaemonSetLeftAlone held new (update_daemon_set kube new old w).1
    unfolding update_daemon_set
    update_daemon_set-Settled old w there matches h =
        elim (Bool-cases (daemon_set_equal kube new old)) [
          | inl e ↦ rw (matches, e) (old, there, λ v. equal_daemon_set-Settled new old v matches e)
          | inr e ↦
              rw (matches, e) (write_daemon_set-LeftAlone old w matches (rw (matches, e) at h))
        ]
