-- ===== src/Autofill/IdLaws.antt =====
-- The datasets and models that the fields name are among those offered.
use innovativeproject_pm_gen.Base.{
  eq_refl, Bool-cases, if◌then◌else◌, String, true, List, [], ◌∷◌, ◌≡◌, refl, ◌⊎◌, inl, inr, Option,
  none, some, arith,
}
use innovativeproject_pm_gen.Base.Value.{ℤ, pos, negsuc, Value, str, Fields, get_value}
use innovativeproject_pm_gen.Base.Result.{
  Ensures-if, Result, Ensures, Ensures-ok, Ensures-err, Ensures-bind,
}
use innovativeproject_pm_gen.Autofill.{
  is_blank, is_number, Failure, same_int, resolve_dataset_id, known_id, has_id, first_id,
  else_first, else_current, Numbers,
}
use innovativeproject_pm_gen.Autofill.Laws.{OnSome, IsComparison}
use innovativeproject_pm_gen.Autofill.Kinds.{
  a_dataset_or_none, a_dataset, a_model, Fits, IsListed, FieldKind,
}
use innovativeproject_pm_gen.Autofill.Fields.{
  model_found, first_or, or_current, or_first, model_id_field, known_model, dataset_id_field,
  comparison_id, comparison_field,
}
use innovativeproject_pm_gen.Base.Table.{member}
use innovativeproject_pm_gen.Base.Text.{is_empty}

module _ (n : Numbers) (c : IsComparison n) (ids : List ℤ) (model_ids : List String)
    (current : Fields) where
  abbrev Made : FieldKind → Result Failure (Option Value) → Type 0
  Made k = Ensures (OnSome (Fits n ids model_ids k))

  -- An id that was found is listed.
  Listed : Option ℤ → Type 0
  Listed none = Unit
  Listed (some i) = has_id n i ids ≡ true

  found-Listed : (i : ℤ) → Listed (if has_id n i ids then some i else none)
  unfolding Listed
  found-Listed i = elim (Bool-cases (has_id n i ids)) [ inl e ↦ rw e e | inr e ↦ rw e tt ]

  known_id-Listed : (v : Value) → Ensures Listed (known_id n ids v)
  unfolding known_id Listed
  known_id-Listed v =
      Ensures-if (is_number n v) (λ _. Ensures-bind _ _ λ i _. Ensures-ok _ (found-Listed i))
        (λ _. Ensures-ok _ tt)

  same_int_refl : (i : ℤ) → same_int i i ≡ true
  unfolding same_int
  same_int_refl (pos a) = ground arith
  same_int_refl (negsuc a) = ground arith

  first_id-listed : (is : List ℤ) → Ensures (λ i. has_id n i is ≡ true) (first_id n is)
  unfolding first_id has_id
  first_id-listed [] = Ensures-err _
  first_id-listed (i ∷ is) = Ensures-ok i (ground (arith, same_int_refl i))

  else_first-Listed :
      (o : Option ℤ) → Listed o → Ensures (λ i. has_id n i ids ≡ true) (else_first n ids o)
  unfolding else_first Listed
  else_first-Listed none h = first_id-listed ids
  else_first-Listed (some i) h = Ensures-ok i h

  else_current-Listed :
      (v : Value) (o : Option ℤ)
      → Listed o
      → Ensures (λ i. has_id n i ids ≡ true) (else_current n ids v o)
  unfolding else_current Listed
  else_current-Listed v none h =
      Ensures-bind _ _
        λ w _. Ensures-bind _ _ λ o e. else_first-Listed o ((known_id-Listed w).at o e)
  else_current-Listed v (some i) h = Ensures-ok i h

  -- The dataset that is resolved is one of those offered.
  pub resolve_dataset_id-listed :
      (v w : Value) → Ensures (λ i. has_id n i ids ≡ true) (resolve_dataset_id n v ids w)
  unfolding resolve_dataset_id
  resolve_dataset_id-listed v w =
      Ensures-bind _ _
        λ u _. Ensures-bind _ _ λ o e. else_current-Listed w o ((known_id-Listed u).at o e)

  pub dataset_id-listed : (v : Value) → Made a_dataset (dataset_id_field n current ids v)
  unfolding dataset_id_field OnSome Fits IsListed
  dataset_id-listed v = Ensures-bind _ _ λ i e.
      Ensures-ok _ (i, refl, (resolve_dataset_id-listed v (get_value current "dataset_id")).at i e)

  comparison_of :
      (o : Option ℤ)
      → (comparison_id n current ids o ≡ str "")
        ⊎ IsListed n ids model_ids (comparison_id n current ids o)
  unfolding comparison_id IsListed
  comparison_of none = inl refl
  comparison_of (some i) = elim (Bool-cases (has_id n i ids)) [
    | inl e ↦ inr (i, rw e refl, e)
    | inr e ↦ inl (rw e refl)
  ]

  pub comparison-listed : (v : Value) → Made a_dataset_or_none (comparison_field n current ids v)
  unfolding comparison_field comparison_id OnSome Fits IsListed
  comparison-listed v =
      Ensures-if (is_blank v) (λ _. Ensures-ok _ (inl refl))
        (λ _. Ensures-bind _ _ λ o _. Ensures-ok _ (comparison_of o))

  -- A model that was found is listed.
  Known : List String → Option String → Type 0
  Known ms none = Unit
  Known ms (some s) = member s ms ≡ true

  known_model-Known : (ms : List String) (v : Value) → Known ms (known_model n current ms v)
  unfolding known_model Known
  known_model-Known ms (str s) = elim (Bool-cases (member s ms)) [
    | inl e ↦ rw e e
    | inr e ↦ rw e tt
  ]
  known_model-Known ms _ = tt

  first_or-Known :
      (o : Option String) (ms : List String) → Known ms o → Known ms (first_or n current o ms)
  unfolding first_or Known
  first_or-Known o [] h = h
  first_or-Known o (m ∷ ms) h = ground (arith, eq_refl m)

  or_first-Known :
      (ms : List String) (o : Option String) → Known ms o → Known ms (or_first n current ms o)
  unfolding or_first Known
  or_first-Known ms none h = first_or-Known none ms tt
  or_first-Known ms (some s) h = elim (Bool-cases (is_empty s)) [
    | inl e ↦ rw e (first_or-Known (some s) ms h)
    | inr e ↦ rw e h
  ]

  or_current-Known :
      (ms : List String) (o : Option String) → Known ms o → Known ms (or_current n current ms o)
  unfolding or_current Known
  or_current-Known ms none h =
      or_first-Known ms _ (known_model-Known ms (get_value current "model_id"))
  or_current-Known ms (some s) h = h

  found-model : (o : Option String) → Known model_ids o → Made a_model (model_found n current o)
  unfolding model_found Known OnSome Fits
  found-model none h = Ensures-err _
  found-model (some s) h =
      Ensures-if (is_empty s) (λ _. Ensures-err _) (λ _. Ensures-ok _ (s, refl, h))

  pub model_id-listed : (v : Value) → Made a_model (model_id_field n current model_ids v)
  unfolding model_id_field
  model_id-listed v = found-model _ (or_current-Known model_ids _ (known_model-Known model_ids v))
