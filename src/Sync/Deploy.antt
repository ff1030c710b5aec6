-- ===== src/Sync/Deploy.antt =====
-- Syncing deployments: `syncDeployment` and `updateDeployment` of
-- pkg/manager/component/component.go, with the read-only deployment.
use cloudpods_operator.Prelude.{
  ℕ, Bool, true, false, not, ◌||◌, Option, none, some, if◌then◌else◌, ◌==◌,
}
use cloudpods_operator.Exec.{
  in_context, wrap, requeue, Outcome, ok, err, panic, Exec, Void, done, ◌>>=◌, ◌>>◌, annotate, skip,
  fail,
}
use cloudpods_operator.Etcd.Types.{Labels}
use cloudpods_operator.Sync.Objects.{Deployment, selector_matches_labels}
use cloudpods_operator.Sync.Kube.{Kube, ask, look_up, encoded}
use cloudpods_operator.Sync.Annotate.{set_deployment_last_applied, deployment_equal}

-- The wanted deployment that a sync is about, and the world. The source marks the wanted deployment
-- where it creates it, or where an update shares its annotations.
pub record Slot (W D : Type 0) : Type 0 where
  pub wanted : D
  pub world : W

abbrev pub in_world : {W D A : Type 0} → Exec W A → Exec (Slot W D) A
in_world m s = ((m s.world).0, record s { world = (m s.world).1 })

abbrev pub want : {W D : Type 0} → D → Exec (Slot W D) Void
want d s = (done, record s { wanted = d })

abbrev pub given : {W D A : Type 0} → Outcome A → Exec (Slot W D) A
given r s = (r, s)

-- `*old = *new` on pointers: a nil one panics.
abbrev pub copied : Option ℕ → Option ℕ → Outcome (Option ℕ)
copied (some old) (some new) = ok (some new)
copied none new = panic
copied (some old) none = panic

-- The map of annotations that the update shares with the wanted template, if there is one.
abbrev pub shared : Option Labels → Option Labels → Option Labels
shared none after = none
shared (some m) after = after

module _ (kube : Kube) where
  open kube use {World, P, deployments}

  unfoldable pub create_deployment : Deployment P → Exec (Slot World (Deployment P)) Void
  create_deployment new = do
    marked ← given (encoded (set_deployment_last_applied kube new))
    want marked
    in_world (ask (deployments.create marked))

  abbrev pub renewed_deployment : Deployment P → Option ℕ → Deployment P → Deployment P
  renewed_deployment new replicas old = record old {
    spec = record (old.spec) {
      template = new.spec.template;
      replicas = replicas;
      strategy = new.spec.strategy;
    };
  }

  abbrev pub with_shared : Deployment P → Deployment P → Deployment P
  with_shared new written = record new {
    spec = record (new.spec) {
      template = record (new.spec.template) {
        annotations = shared new.spec.template.annotations written.spec.template.annotations;
      };
    };
  }

  unfoldable pub write_deployment :
      Deployment P → Deployment P → Exec (Slot World (Deployment P)) Void
  write_deployment new old = do
    replicas ← given (copied old.spec.replicas new.spec.replicas)
    written ←
        given (encoded (set_deployment_last_applied kube (renewed_deployment new replicas old)))
    want (with_shared new written)
    in_world (ask (deployments.update written))

  unfoldable pub update_deployment :
      Deployment P → Deployment P → Exec (Slot World (Deployment P)) Void
  update_deployment new old =
      if not (selector_matches_labels old.spec.selector new.spec.template.labels)
      then in_world (ask (deployments.delete old.name)) >> create_deployment new
      else if deployment_equal kube new old
      then skip
      else write_deployment new old

  -- `post` is the function that runs after a sync; a new deployment asks for another round.
  unfoldable pub settle_deployment :
      Exec World Void
      → Bool
      → Deployment P
      → Option (Deployment P)
      → Exec (Slot World (Deployment P)) Void
  settle_deployment post true new none = skip
  settle_deployment post false new none =
      create_deployment new >> (annotate wrap (in_world post) >> fail requeue)
  settle_deployment post true new (some old) = in_world (ask (deployments.delete old.name))
  settle_deployment post false new (some old) =
      update_deployment new old >> annotate wrap (in_world post)

  unfoldable pub sync_one_deployment :
      Exec World Void → Bool → Deployment P → Exec (Slot World (Deployment P)) Void
  sync_one_deployment post unwanted new =
      in_world (look_up (deployments.get new.name)) >>= settle_deployment post unwanted new

  -- The errors of both syncs, of which an aggregate shows the first here.
  abbrev pub both : Outcome Void → Outcome Void → Outcome Void
  both panic r = panic
  both (ok a) r = r
  both (err e) panic = panic
  both (err e) (ok a) = err (in_context e)
  both (err e) (err x) = err (in_context e)

  abbrev pub no_replicas : Option ℕ → Bool
  no_replicas none = true
  no_replicas (some n) = n == 0

  -- The read-only deployment is derived from the wanted one as the main sync has left it.
  unfoldable pub sync_read_only :
      Exec World Void → Bool → Option (Deployment P) → Exec (Slot World (Deployment P)) Void
  sync_read_only post unwanted none = skip
  sync_read_only post unwanted (some ro) =
      annotate in_context (sync_one_deployment post (unwanted || no_replicas ro.spec.replicas) ro)

  unfoldable pub then_read_only :
      Exec World Void
      → Bool
      → (Deployment P → Option (Deployment P))
      → Outcome Void
      → Exec (Slot World (Deployment P)) Void
  then_read_only post unwanted read_only panic s = (panic, s)
  then_read_only post unwanted read_only (ok a) s =
      sync_read_only post unwanted (read_only s.wanted) s
  then_read_only post unwanted read_only (err e) s = (
    both (err e) (sync_read_only post unwanted (read_only s.wanted) s).0,
    (sync_read_only post unwanted (read_only s.wanted) s).1,
  )

  unfoldable pub sync_deployment :
      Exec World Void
      → Bool
      → (Deployment P → Option (Deployment P))
      → Deployment P
      → Exec World Void
  sync_deployment post unwanted read_only new w =
      let main = sync_one_deployment post unwanted new (record { wanted = new; world = w }) in
      let r = then_read_only post unwanted read_only main.0 main.1 in (r.0, r.1.world)
