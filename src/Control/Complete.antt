-- ===== src/Control/Complete.antt =====
-- What a successful round of `updateOnecloudCluster` has done, and what a failing part stops:
-- pkg/controller/cluster/onecloud_cluster_control.go.
use cloudpods_operator.Prelude.{String, ◌≡◌, refl, false, List, [], ◌∷◌}
use cloudpods_operator.Exec.{
  Err, wrap, Outcome, ok, err, panic, Exec, Void, done, next, ◌>>=◌, map_err, annotate, ignore,
  for_each,
}
use cloudpods_operator.Control.Update.{
  Managers, component_list, depend_components, addon_components, reconcile_component, sync_listed,
  first_error, run_group, update_onecloud_cluster,
}

map_err-done : (g : Err → Err) (r : Outcome Void) → map_err g r ≡ done → r ≡ done
map_err-done g (ok a) e = refl
map_err-done g (err x) e = absurd (cc)
map_err-done g panic e = absurd (cc)

module _ {S : Type 0} where
  next-done :
      (r : Outcome Void) (f : Void → Exec S Void) (t : S)
      → (next r f t).0 ≡ done
      → (r ≡ done) × ((f tt t).0 ≡ done)
  next-done (ok a) f t e = (refl, e)
  next-done (err x) f t e = absurd (cc)
  next-done panic f t e = absurd (cc)

  -- A chain that succeeds has a first step that did, and a rest that did after it.
  bind-done :
      (m : Exec S Void) (f : Void → Exec S Void) (s : S)
      → ((m >>= f) s).0 ≡ done
      → ((m s).0 ≡ done) × ((f tt (m s).1).0 ≡ done)
  bind-done m f s e = next-done (m s).0 f (m s).1 e

module _ {S : Type 0} (Q : S → Type 0) where
  next-then :
      (r : Outcome Void) (f : Void → Exec S Void) (t : S)
      → (next r f t).0 ≡ done
      → (r ≡ done → (f tt t).0 ≡ done → Q (f tt t).1)
      → Q (next r f t).1
  next-then (ok a) f t e k = k refl e
  next-then (err x) f t e k = absurd (cc)
  next-then panic f t e k = absurd (cc)

  then-done :
      (m : Exec S Void) (f : Void → Exec S Void) (s : S)
      → ((m >>= f) s).0 ≡ done
      → ((m s).0 ≡ done → (f tt (m s).1).0 ≡ done → Q (f tt (m s).1).1)
      → Q ((m >>= f) s).1
  then-done m f s e k = next-then (m s).0 f (m s).1 e k

first_error-done : (a b : Outcome Void) → first_error a b ≡ done → (a ≡ done) × (b ≡ done)
first_error-done (ok a) b e = (refl, e)
first_error-done (err x) (ok b) e = absurd (cc)
first_error-done (err x) (err y) e = absurd (cc)
first_error-done (err x) panic e = absurd (cc)
first_error-done panic b e = absurd (cc)

module _ {S : Type 0} (managers : Managers S) where
  open managers use {sync_config, sync_certs, sync_part, schedule, put_checksum}

  -- Each of the components was synced without an error, one after the other.
  pub data AllFine : List String → S → S → Type 0 where
    fine_none : {s : S} → AllFine [] s s
    fine_one :
        {c : String} {cs : List String} {s t : S}
        → (sync_part c s).0 ≡ done
        → AllFine cs (sync_part c s).1 t
        → AllFine (c ∷ cs) s t

  abbrev all_synced : List String → Exec S Void
  all_synced cs = for_each cs (sync_listed managers false)

  for_each-AllFine :
      (cs : List String) (s : S) → (all_synced cs s).0 ≡ done → AllFine cs s (all_synced cs s).1
  unfolding sync_listed reconcile_component
  for_each-AllFine [] s e = fine_none
  for_each-AllFine (c ∷ cs) s e =
      then-done (AllFine (c ∷ cs) s) (annotate wrap (annotate wrap (sync_part c)))
        (λ _. all_synced cs) s e
        λ first rest.
          fine_one (map_err-done wrap (sync_part c s).0 (map_err-done wrap _ first))
            (for_each-AllFine cs (sync_part c s).1 rest)

  run_group-AllFine :
      (cs : List String) (s : S)
      → (run_group managers cs s).0 ≡ done
      → AllFine cs s (run_group managers cs s).1
  unfolding run_group reconcile_component
  run_group-AllFine [] s e = fine_none
  run_group-AllFine (c ∷ cs) s e =
      let (first, rest) = first_error-done _ _ e in
      fine_one (map_err-done wrap (sync_part c s).0 first)
        (run_group-AllFine cs (sync_part c s).1 rest)

  abbrev after_etcd : S → S
  after_etcd s = (sync_part "Etcd" (sync_certs (sync_config s).1).1).1

  abbrev after_addons : S → S
  after_addons s = (for_each addon_components (λ c. ignore (reconcile_component managers c)) s).1

  -- All that a successful round has done, in its order.
  pub record Completed (s : S) : Type 0 where
    pub configured : (sync_config s).0 ≡ done
    pub certified : (sync_certs (sync_config s).1).0 ≡ done
    pub etcd_synced : (sync_part "Etcd" (sync_certs (sync_config s).1).1).0 ≡ done
    pub middle : S
    pub end : S
    pub components_synced : AllFine component_list (after_etcd s) middle
    pub dependents_synced : AllFine (schedule depend_components) middle end
    pub summed : (put_checksum (after_addons end)).0 ≡ done

  -- A round that succeeds, with the services not being stopped, has synced without an error the
  -- configuration, the certificates, etcd, every component in the order of the list, then every
  -- dependent one in the order that the group happened to run, and has written the checksum after
  -- them; an error of an addon alone is passed over.
  pub update_onecloud_cluster-Completed :
      (s : S) → (update_onecloud_cluster managers false s).0 ≡ done → Completed s
  unfolding update_onecloud_cluster
  update_onecloud_cluster-Completed s e =
      let (config, e1) = bind-done (annotate wrap sync_config) _ s e in
      let (certs, e2) = bind-done (annotate wrap sync_certs) _ _ e1 in
      let (etcd, e3) = bind-done (annotate wrap (sync_part "Etcd")) _ _ e2 in
      let (parts, e4) = bind-done (all_synced component_list) _ _ e3 in
      let (group, e5) = bind-done (run_group managers (schedule depend_components)) _ _ e4 in
      let (addons, e6) =
        bind-done (for_each addon_components (λ c. ignore (reconcile_component managers c))) _ _
          e5 in
      let (sum, e7) = bind-done (annotate wrap put_checksum) _ _ e6 in
      record {
        configured = map_err-done wrap (sync_config s).0 config;
        certified = map_err-done wrap _ certs;
        etcd_synced = map_err-done wrap _ etcd;
        middle = (all_synced component_list (after_etcd s)).1;
        end =
            (run_group managers (schedule depend_components)
              (all_synced component_list (after_etcd s)).1).1;
        components_synced = for_each-AllFine component_list (after_etcd s) parts;
        dependents_synced = run_group-AllFine (schedule depend_components) _ group;
        summed = map_err-done wrap _ sum;
      }
