-- ===== src/Sync/Held.antt =====
-- What the API server holds after the controls of pkg/controller were called: the law that the
-- theorems on repeated syncs take.
use cloudpods_operator.Prelude.{◌≡◌, refl, Option, some}
use cloudpods_operator.Exec.{Reply, good, bad, Void, done}
use cloudpods_operator.Sync.Kube.{Store, answer}

-- The server may fill in defaults, but what it holds of an object that it has accepted is `Kept` of
-- the object that was sent: `Kept sent live`. `held` is what it holds under the object's name.
pub record Holds {W Obj : Type 0} (store : Store W Obj) (held : W → Option Obj)
    (Kept : Obj → Obj → Type 0) : Type 0 where
  pub created :
      (o : Obj) (w : W)
      → (store.create o w).0 ≡ good tt
      → (live : Obj) × (held (store.create o w).1 ≡ some live) × Kept o live
  pub updated :
      (o : Obj) (w : W)
      → (store.update o w).0 ≡ good tt
      → (live : Obj) × (held (store.update o w).1 ≡ some live) × Kept o live

pub answered : (r : Reply Void) → answer r ≡ done → r ≡ good tt
answered (good a) h = refl
answered (bad e) h = absurd (cc)
