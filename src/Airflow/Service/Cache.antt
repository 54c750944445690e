-- ===== src/Airflow/Service/Cache.antt =====
-- What the run caches hold after a run was dropped, and when a cached run is used.
use innovativeproject_pm_gen.Base.Exec.{raise, ◌>>=◌, ◌>>◌, modify, pure, gets}
use innovativeproject_pm_gen.Base.{
  ◌-◌, ap, Option, String, some, ℕ, inr, inl, Bool-cases, ◌≡◌, refl, none, List, [], ◌∷◌, ◌==◌,
  ◌&&◌, Bool, arith, if◌then◌else◌,
}
use innovativeproject_pm_gen.Airflow.Service.{
  aged, genpm_id, fresh_entry, fetch_dag_run_raw, or_fetch, of_run, store_run, get_dag_run_raw,
  fresh_run, forget_run, fetch_run, TaskKey, Flow, drop_tasks, RunKey, drop_run, cached_run,
}
use innovativeproject_pm_gen.Base.Table.{same_pair_iff, same_pair}
use innovativeproject_pm_gen.Airflow.Http.{World}
use innovativeproject_pm_gen.Base.Result.{Result, ok, err}
use innovativeproject_pm_gen.Errors.{Exn}
use innovativeproject_pm_gen.Base.Value.{as_dict, Fields, Fault, Value}

-- The entries of one run are gone; those of the others stand as they were.
pub cached-drop {ℓ} :
    {A : Type ℓ} (j k : RunKey) (c : List (RunKey × A))
    → cached_run j (drop_run k c) ≡ (if same_pair k j then none else cached_run j c)
unfolding cached_run drop_run
cached-drop j k [] = elim (Bool-cases (same_pair k j)) [ inl h ↦ rw h refl | inr h ↦ rw h refl ]
cached-drop j k ((i, a) ∷ c) =
    ground (arith, cached-drop j k c, same_pair_iff i k, same_pair_iff k j, same_pair_iff i j)

abbrev pub same_task : TaskKey → TaskKey → Bool
same_task (dag, run, task) (d, r, t) = same_pair (dag, run) (d, r) && task == t

-- What the cache of task instances holds under a key.
unfoldable pub cached_task {ℓ} : {A : Type ℓ} → TaskKey → List (TaskKey × A) → Option A
cached_task k [] = none
cached_task k ((j, a) ∷ c) = if same_task j k then some a else cached_task k c

cached_task-drop {ℓ} :
    {A : Type ℓ} (j : TaskKey) (k : RunKey) (c : List (TaskKey × A))
    → cached_task j (drop_tasks k c) ≡ (if of_run k j then none else cached_task j c)
unfolding cached_task drop_tasks
cached_task-drop j k [] = elim (Bool-cases (of_run k j)) [ inl h ↦ rw h refl | inr h ↦ rw h refl ]
cached_task-drop (dag, run, task) k (((d, r, t), a) ∷ c) = ground (
  arith,
  cached_task-drop (dag, run, task) k c,
  same_pair_iff (d, r) (dag, run),
  same_pair_iff (d, r) k,
  same_pair_iff (dag, run) k,
)

module _ (w : World) where
  -- The caches hold nothing of the run, and of the other runs what they held.
  abbrev pub IsForgotten : RunKey → Flow w → Flow w → Type 0
  IsForgotten k s s' =
      ((j : RunKey)
        → cached_run j s'.run_cache ≡ (if same_pair k j then none else cached_run j s.run_cache))
      × ((j : RunKey)
          → cached_run j s'.task_list_cache
            ≡ (if same_pair k j then none else cached_run j s.task_list_cache))
      × ((j : TaskKey)
          → cached_task j s'.task_cache ≡ (if of_run k j then none else cached_task j s.task_cache))

  pub forget_run-IsForgotten : (k : RunKey) (s : Flow w) → IsForgotten k s (forget_run w k s)
  unfolding forget_run
  forget_run-IsForgotten k s = (
    λ j. cached-drop j k s.run_cache,
    λ j. cached-drop j k s.task_list_cache,
    λ j. cached_task-drop j k s.task_cache,
  )

  -- The entry is there once it is stored.
  stored :
      (k : RunKey) (e : ℕ × Value) (c : List (RunKey × (ℕ × Value)))
      → cached_run k ((k, e) ∷ c) ≡ some e
  unfolding cached_run
  stored k e c = ground (arith, same_pair_iff k k)

  unfoldable pub IsCached : RunKey → Result Exn Value × Flow w → Type 0
  IsCached k (ok raw, s') = (at : ℕ) × (cached_run k s'.run_cache ≡ some (at, raw))
  IsCached k (err e, s') = Unit

  aged-payload :
      (age : ℕ) (v : Value) (d : Result Fault Fields) {raw : Value}
      → aged w age v d ≡ ok (some raw)
      → v ≡ raw
  unfolding aged
  aged-payload age v (ok d) h = ground arith
  aged-payload age v (err e) h = cc

  fresh-cached :
      (now : ℕ) (c : Option (ℕ × Value)) {raw : Value}
      → fresh_entry w now c ≡ ok (some raw)
      → (at : ℕ) × (c ≡ some (at, raw))
  unfolding fresh_entry
  fresh-cached now none h = cc
  fresh-cached now (some (at, v)) h =
      (at, ap (λ x. some (at, x)) (aged-payload (now - at) v (as_dict v) h))

  fetch-IsCached : (k : RunKey) (s : Flow w) → IsCached k (fetch_run w k s)
  unfolding fetch_run store_run ◌>>=◌ ◌>>◌ modify pure IsCached
  fetch-IsCached (dag_id, run_id) s =
      let (r, t) = fetch_dag_run_raw w dag_id run_id (genpm_id w run_id) s in after r t refl
    where
      after :
          (r : Result Exn Value) (t : Flow w)
          → fetch_dag_run_raw w dag_id run_id (genpm_id w run_id) s ≡ (r, t)
          → IsCached (dag_id, run_id) (fetch_run w (dag_id, run_id) s)
      after (ok raw) t h = rw h (_, stored (dag_id, run_id) _ _)
      after (err e) t h = rw h tt

  -- A payload that `get_dag_run` goes on from stands in the run cache afterwards, whether it was fresh
  -- there or was fetched.
  pub get_dag_run_raw-IsCached :
      (dag_id run_id : String) (s : Flow w)
      → IsCached (dag_id, run_id) (get_dag_run_raw w dag_id run_id s)
  unfolding get_dag_run_raw ◌>>=◌ gets pure raise or_fetch fresh_run IsCached
  get_dag_run_raw-IsCached dag_id run_id s = look (fresh_run w (dag_id, run_id) s) refl
    where
      look :
          (f : Result Fault (Option Value))
          → fresh_run w (dag_id, run_id) s ≡ f
          → IsCached (dag_id, run_id) (or_fetch w (dag_id, run_id) f s)
      look (ok (some raw)) h = fresh-cached _ _ h
      look (ok none) h = fetch-IsCached (dag_id, run_id) s
      look (err e) h = tt
