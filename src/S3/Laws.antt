-- ===== src/S3/Laws.antt =====
-- What registering an existing object does: a 404 that changes nothing, or the row is inserted.
use innovativeproject_pm_gen.Base.{
  inr, Option-cases, ◌⊎◌, inl, Bool-cases, ℕ, String, ◌≡◌, refl, Option, none, some,
}
use innovativeproject_pm_gen.S3.{
  absent_detail, existing_row, on_db, register_existing_dataset, missing, require_object,
  require_metadata, Site, S3, Storage,
}
use innovativeproject_pm_gen.Schemas.{Dataset, DatasetType}
use innovativeproject_pm_gen.Base.Result.{err, ok}
use innovativeproject_pm_gen.Base.Exec.{raise, ◌>>◌, gets, ◌>>=◌, pure}
use innovativeproject_pm_gen.Store.{insert_dataset}
use innovativeproject_pm_gen.Base.Text.{is_empty}
use innovativeproject_pm_gen.Errors.{http}

abbrev pub IsVisible : {st : Storage} → Option String → Site st → Type 0
IsVisible none s = Unit
IsVisible {st} (some key) s = missing st key s.objects ≡ none

-- The check passes, or it raises a 404; it changes nothing.
abbrev pub IsCheck : {st : Storage} → S3 st (Unit {0}) → Site st → Type 0
IsCheck m s = (m s ≡ (ok tt, s)) ⊎ ((detail : String) × (m s ≡ (err (http 404 detail), s)))

module _ {st : Storage} where
  pub require_object-visible :
      (label key : String) (s : Site st)
      → missing st key s.objects ≡ none
      → require_object st label key s ≡ (ok tt, s)
  unfolding require_object ◌>>=◌ gets pure
  require_object-visible label key s h = rw h refl

  require_object-IsCheck :
      (label key : String) (s : Site st) → IsCheck (require_object st label key) s
  unfolding require_object ◌>>=◌ gets pure raise
  require_object-IsCheck label key s = elim (Option-cases (missing st key s.objects)) [
    | inl h ↦ inl (require_object-visible label key s h)
    | inr (e, h) ↦ inr (absent_detail st label e, rw h refl)
  ]

  pub require_metadata-visible :
      (key : Option String) (s : Site st) → IsVisible key s → require_metadata st key s ≡ (ok tt, s)
  unfolding require_metadata pure
  require_metadata-visible none s h = refl
  require_metadata-visible (some key) s h = elim (Bool-cases (is_empty key)) [
    | inl e ↦ rw e refl
    | inr e ↦ rw e (require_object-visible "pm_metadata" key s h)
  ]

  require_metadata-IsCheck :
      (key : Option String) (s : Site st) → IsCheck (require_metadata st key) s
  unfolding require_metadata pure
  require_metadata-IsCheck none s = inl refl
  require_metadata-IsCheck (some key) s = elim (Bool-cases (is_empty key)) [
    | inl e ↦ inl (rw e refl)
    | inr e ↦ rw e (require_object-IsCheck "pm_metadata" key s)
  ]

  module _ (user : ℕ) (key : String) (name : Option String) (type : DatasetType)
      (metadata : Option String) (s : Site st) where
    abbrev register : S3 st Dataset
    register = register_existing_dataset st user key name type metadata

    abbrev insert : S3 st Dataset
    insert = on_db st (insert_dataset (existing_row st user key name type metadata))

    -- An object and metadata that can be seen are registered.
    pub register-visible :
        missing st key s.objects ≡ none → IsVisible metadata s → register s ≡ insert s
    unfolding register_existing_dataset ◌>>◌ ◌>>=◌
    register-visible h k =
        rw (require_object-visible "Dataset" key s h, require_metadata-visible metadata s k) refl

    -- One that cannot is refused.
    pub register-missing :
        {exc : String}
        → missing st key s.objects ≡ some exc
        → register s ≡ (err (http 404 (absent_detail st "Dataset" exc)), s)
    unfolding register_existing_dataset ◌>>◌ ◌>>=◌ require_object gets raise
    register-missing h = rw h refl

    pub register-cases :
        (register s ≡ insert s) ⊎ ((detail : String) × (register s ≡ (err (http 404 detail), s)))
    unfolding register_existing_dataset ◌>>◌ ◌>>=◌
    register-cases = elim (require_object-IsCheck "Dataset" key s) [
      | inr (d, h) ↦ inr (d, rw h refl)
      | inl h ↦ elim (require_metadata-IsCheck metadata s) [
        | inr (d, k) ↦ inr (d, rw (h, k) refl)
        | inl k ↦ inl (rw (h, k) refl)
      ]
    ]
