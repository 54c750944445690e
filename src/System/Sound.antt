-- ===== src/System/Sound.antt =====
-- What stays true of the backend's database, whoever writes to it.
use innovativeproject_pm_gen.Base.{
  ℕ, ◌<◌, String, ◌≡◌, sym, ap, subst, ◌∙◌, true, Option, some, List, ◌++◌, map, eqb, All, All-map,
  ◌==◌,
}
use innovativeproject_pm_gen.Base.Sets.{Distinct}
use innovativeproject_pm_gen.Schemas.{Dataset, DatasetType, ProcessRun, TrainedModel}
use innovativeproject_pm_gen.Store.{Db, find_by_id, key_of, same_key}
use innovativeproject_pm_gen.Store.Ids.{ids_of, AllBelow, find_by_id-append}
use innovativeproject_pm_gen.Store.Laws.{keys_of}
use innovativeproject_pm_gen.Poller.{output_key, resolve_dataset_type, complete}
use innovativeproject_pm_gen.Poller.Invariant.{HasKey}
use innovativeproject_pm_gen.Modeling.Models.{is_weights}

-- The dataset that a run is linked to is there, and has the key of the run's output.
abbrev pub IsRegistered : List Dataset → ProcessRun → Type 0
IsRegistered ds r =
    (i : ℕ)
    → r.registered_dataset_id ≡ some i
    → (d : Dataset) × (find_by_id i ds ≡ some d) × (key_of d ≡ output_key r)

-- The dataset of a model is there and PREPROCESSED.
abbrev pub IsTrainedOn : List Dataset → Option ℕ → Type 0
IsTrainedOn ds o =
    (i : ℕ)
    → o ≡ some i
    → (d : Dataset) × (find_by_id i ds ≡ some d) × (d.type ≡ DatasetType.preprocessed)

-- So is that of a model, whose file is one of weights.
abbrev pub IsUsable : List Dataset → TrainedModel → Type 0
IsUsable ds m = (is_weights m.s3_key ≡ true) × IsTrainedOn ds m.dataset_id

abbrev pub model_keys : List TrainedModel → List String
model_keys = map (λ (m : TrainedModel). m.s3_key)

abbrev pub model_ids : List TrainedModel → List ℕ
model_ids = map (λ (m : TrainedModel). m.id)

-- The datasets: ids and keys name one row each.
pub record AreDatasets (ds : List Dataset) (next : ℕ) : Type 0 where
  pub keys : Distinct same_key (keys_of ds)
  pub ids : Distinct eqb (ids_of ds)
  pub below : AllBelow next ds

-- The process runs: ids were given out, and each determines one output.
pub record AreRuns (key : ℕ → String × DatasetType) (ds : List Dataset) (rs : List ProcessRun)
    (next : ℕ) : Type 0 where
  pub registered : All (IsRegistered ds) rs
  pub outputs : All (HasKey key) rs
  pub below : All (λ (r : ProcessRun). r.id < next) rs

pub record AreModels (ds : List Dataset) (ms : List TrainedModel) (next : ℕ) : Type 0 where
  pub usable : All (IsUsable ds) ms
  pub keys : Distinct ◌==◌ (model_keys ms)
  pub ids : Distinct eqb (model_ids ms)
  pub below : All (λ (m : TrainedModel). m.id < next) ms

pub record IsSoundFor (key : ℕ → String × DatasetType) (db : Db) : Type 0 where
  pub datasets : AreDatasets db.datasets db.next_dataset_id
  pub runs : AreRuns key db.datasets db.process_runs db.next_process_id
  pub models : AreModels db.datasets db.trained_models db.next_model_id

-- Ids and keys name one row each; a run is linked to the dataset of its output, if to any; a model
-- has a file of weights and a PREPROCESSED dataset, if any.
abbrev pub IsSound : Db → Type 0
IsSound db = (key : ℕ → String × DatasetType) × IsSoundFor key db

-- More datasets do no harm.
pub grown-IsTrainedOn :
    (ds es : List Dataset) (o : Option ℕ) → IsTrainedOn ds o → IsTrainedOn (ds ++ es) o
grown-IsTrainedOn ds es o h i e =
    let (d, found, t) = h i e in (d, find_by_id-append i ds es found, t)

grown-IsRegistered :
    (ds es : List Dataset) (r : ProcessRun) → IsRegistered ds r → IsRegistered (ds ++ es) r
grown-IsRegistered ds es r h i e =
    let (d, found, k) = h i e in (d, find_by_id-append i ds es found, k)

pub grown-AreModels :
    (ds es : List Dataset) {ms : List TrainedModel} {n : ℕ}
    → AreModels ds ms n
    → AreModels (ds ++ es) ms n
grown-AreModels ds es {ms} h = record {
  usable =
      All-map (λ (m : TrainedModel) p. (p.0, grown-IsTrainedOn ds es m.dataset_id p.1)) ms h.usable;
  keys = h.keys;
  ids = h.ids;
  below = h.below;
}

module _ (key : ℕ → String × DatasetType) where
  pub grown-AreRuns :
      (ds es : List Dataset) {rs : List ProcessRun} {n : ℕ}
      → AreRuns key ds rs n
      → AreRuns key (ds ++ es) rs n
  grown-AreRuns ds es {rs} h = record {
    registered = All-map (grown-IsRegistered ds es) rs h.registered;
    outputs = h.outputs;
    below = h.below;
  }

  pub complete-IsRegistered :
      (r x : ProcessRun) (ds : List Dataset) (d : Dataset)
      → find_by_id d.id ds ≡ some d
      → key_of d ≡ output_key r
      → HasKey key r
      → HasKey key x
      → x.id ≡ r.id
      → IsRegistered ds (complete (some d.id) x)
  unfolding resolve_dataset_type
  complete-IsRegistered r x ds d found same own p e i q =
      let j : d.id ≡ i = cc in
      (d, subst (λ k. find_by_id k ds ≡ some d) j found, same ∙ own ∙ sym (p ∙ ap key e))
