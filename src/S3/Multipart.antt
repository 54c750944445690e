-- ===== src/S3/Multipart.antt =====
-- apps/backend/app/services/s3/service.py: the multipart uploads of `S3Service`.
use innovativeproject_pm_gen.Base.Exec.{◌>>=◌, pure}
use innovativeproject_pm_gen.Base.{ℕ, String, ◌<>◌, List}
use innovativeproject_pm_gen.S3.{S3, Storage}
use innovativeproject_pm_gen.Schemas.{Dataset}
use innovativeproject_pm_gen.Base.Result.{err, ok, Result}
use innovativeproject_pm_gen.Errors.{http, Exn}
use innovativeproject_pm_gen.Base.Value.{Value}

module _ (st : Storage) where
  -- `except Exception as e: raise HTTPException(400, …)`
  unfoldable pub or_400 : {A : Type 0} → String → Result String A → Result Exn A
  or_400 label (ok a) = ok a
  or_400 label (err exc) = err (http 400 ("[S3] " <> (label <> (" error: " <> exc))))

  -- A call that changes the object store.
  unfoldable pub on_objects :
      {A : Type 0} → String → (st.Objects → Result String A × st.Objects) → S3 st A
  on_objects label f s = let (r, o) = f s.objects in (or_400 label r, record s { objects = o })

  -- The id of the upload, and the key.
  unfoldable pub initiate_multipart_upload : Dataset → S3 st (String × String)
  initiate_multipart_upload d = do
    upload_id ← on_objects "Initialization" (st.create_multipart_upload d.s3_key)
    pure (upload_id, d.s3_key)

  unfoldable pub get_presigned_part_url : String → String → ℕ → S3 st String
  get_presigned_part_url s3_key upload_id part_number s =
      (or_400 "URL generation" (st.presigned_part s3_key upload_id part_number s.objects), s)

  unfoldable pub complete_multipart_upload : String → String → List (ℕ × String) → S3 st Value
  complete_multipart_upload s3_key upload_id parts =
      on_objects "Merge upload" (st.complete_upload s3_key upload_id parts)

  unfoldable pub abort_multipart_upload : String → String → S3 st (Unit {0})
  abort_multipart_upload s3_key upload_id =
      on_objects "Cancel upload" (st.abort_upload s3_key upload_id)
