-- ===== src/System/Datasets.antt =====
-- Writes to the datasets and the steps of the poller keep the database sound.
use innovativeproject_pm_gen.Base.{
  ◌↔◌, ℕ, ◌+◌, ◌<◌, String, ◌≡◌, refl, sym, ap, subst, ◌∙◌, true, none, some, List, [], ◌∷◌, ◌++◌,
  eqb, arith, All-map, All-append, All-both, Option-cases, inl, inr,
}
use mathlib.Core.List.{map-append}
use innovativeproject_pm_gen.Base.Sets.{Distinct-snoc}
use innovativeproject_pm_gen.Schemas.{Dataset, DatasetType, ProcessRun, PipelineRunStatus}
use innovativeproject_pm_gen.Store.{Db, find_by_id, find_by_key, key_of, insert_dataset, update_run}
use innovativeproject_pm_gen.Store.Ids.{
  ids_of, AllBelow-suc, has-below, find_by_id-key, find_by_id-snoc,
}
use innovativeproject_pm_gen.Store.Laws.{snoc-Distinct, update_run-All, key-find}
use innovativeproject_pm_gen.Poller.{output_key, resolve_dataset_type, complete, set_run_status}
use innovativeproject_pm_gen.Poller.Invariant.{HasKey}
use innovativeproject_pm_gen.Poller.Steps.{Step, wait, fail, link, add}
use innovativeproject_pm_gen.System.Sound.{
  AreDatasets, AreRuns, IsSoundFor, IsRegistered, grown-AreModels, grown-AreRuns,
  complete-IsRegistered,
}

eqb_iff : (a b : ℕ) → (eqb a b ≡ true) ↔ (a ≡ b)
eqb_iff a b = ground arith

pub snoc-AreDatasets :
    (d : Dataset) (ds : List Dataset)
    → find_by_key (key_of d) ds ≡ none
    → AreDatasets ds d.id
    → AreDatasets (ds ++ (d ∷ [])) (d.id + 1)
snoc-AreDatasets d ds new h = record {
  keys = snoc-Distinct d ds new h.keys;
  ids =
      rw map-append (Distinct-snoc eqb eqb_iff d.id (ids_of ds) (has-below d.id ds h.below) h.ids);
  below =
      All-append (λ (x : Dataset). x.id < d.id + 1) ds (d ∷ []) (AllBelow-suc d.id ds h.below)
        (omega arith, tt);
}

module _ (key : ℕ → String × DatasetType) where
  -- The rows of a run change, and keep their ids and outputs.
  update-AreRuns :
      (i : ℕ) (f : ProcessRun → ProcessRun) (ds : List Dataset) {rs : List ProcessRun} {n : ℕ}
      → ((x : ProcessRun) → IsRegistered ds x → HasKey key x → x.id ≡ i → IsRegistered ds (f x))
      → ((x : ProcessRun) → output_key (f x) ≡ output_key x)
      → ((x : ProcessRun) → (f x).id ≡ x.id)
      → AreRuns key ds rs n
      → AreRuns key ds (update_run i f rs) n
  update-AreRuns i f ds {rs} {n} links same own h =
      let both =
        update_run-All (λ x. IsRegistered ds x × HasKey key x) i f rs
          (λ x p e. (links x p.0 p.1 e, same x ∙ p.1 ∙ ap key (sym (own x))))
          (All-both (IsRegistered ds) (HasKey key) rs h.registered h.outputs) in
      record {
        registered = All-map (λ (x : ProcessRun) p. p.0) (update_run i f rs) both;
        outputs = All-map (λ (x : ProcessRun) p. p.1) (update_run i f rs) both;
        below =
            update_run-All (λ x. x.id < n) i f rs (λ x p e. subst (λ k. k < n) (sym (own x)) p)
              h.below;
      }

  linked-AreRuns :
      (r : ProcessRun) (ds : List Dataset) (d : Dataset) {rs : List ProcessRun} {n : ℕ}
      → find_by_id d.id ds ≡ some d
      → key_of d ≡ output_key r
      → HasKey key r
      → AreRuns key ds rs n
      → AreRuns key ds (update_run r.id (complete (some d.id)) rs) n
  unfolding resolve_dataset_type
  linked-AreRuns r ds d found same own h =
      update-AreRuns r.id (complete (some d.id)) ds
        (λ x p q e. complete-IsRegistered key r x ds d found same own q e) (λ x. refl) (λ x. refl) h

  -- A step of the poller for a run of the database.
  pub step-IsSoundFor :
      (r : ProcessRun) {db db' : Db}
      → Step r db db'
      → HasKey key r
      → IsSoundFor key db
      → IsSoundFor key db'
  unfolding resolve_dataset_type
  step-IsSoundFor r (wait db) own h = h
  step-IsSoundFor r (fail db) own h = record {
    datasets = h.datasets;
    models = h.models;
    runs =
        update-AreRuns r.id (set_run_status PipelineRunStatus.failed) db.datasets (λ x p q e. p)
          (λ x. refl) (λ x. refl) h.runs;
  }
  step-IsSoundFor r (link db d found) own h = record {
    datasets = h.datasets;
    models = h.models;
    runs =
        linked-AreRuns r db.datasets d
          (find_by_id-key (output_key r) db.datasets h.datasets.ids found)
          (key-find (output_key r) db.datasets found) own h.runs;
  }
  step-IsSoundFor r (add db d new same id) own h =
      let grown = db.datasets ++ (d ∷ []) in
      let here = subst (λ n. AreDatasets db.datasets n) (sym id) h.datasets in
      record {
        datasets =
            subst (λ n. AreDatasets grown (n + 1)) id
              (snoc-AreDatasets d db.datasets (rw same new) here);
        runs =
            linked-AreRuns r grown d (find_by_id-snoc d db.datasets here.below) same own
              (grown-AreRuns key db.datasets (d ∷ []) h.runs);
        models = grown-AreModels db.datasets (d ∷ []) h.models;
      }

  -- A dataset is added, or its key is taken.
  pub insert_dataset-IsSoundFor :
      (d : Dataset) (db : Db) → IsSoundFor key db → IsSoundFor key (insert_dataset d db).1
  unfolding insert_dataset
  insert_dataset-IsSoundFor d db h = elim (Option-cases (find_by_key (key_of d) db.datasets)) [
    | inr (old, found) ↦ rw found h
    | inl new ↦ rw new (record {
      datasets = snoc-AreDatasets (record d { id = db.next_dataset_id }) db.datasets new h.datasets;
      runs = grown-AreRuns key db.datasets _ h.runs;
      models = grown-AreModels db.datasets _ h.models;
    })
  ]
