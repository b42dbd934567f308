-- ===== src/Server/App/Upload.antt =====
-- The answers to an upload.
use perf_weave.Base.{◌≡◌, refl, Option-cases, inl, inr, Option, none, some}
use perf_weave.Base.Results.{Result, err, ok}
use perf_weave.Base.Text.{Text, codes}
use perf_weave.Server.App.{
  UploadField, Answer, queued, refused, temp_name, store, nsys_import_handler,
}

module _ {Bytes : Type 0} (uuid : Text) (write : Text → Bytes → Option Text) where
  -- What an answer tells of the upload, with the file whose import has been started.
  pub data Uploaded (input : Result Text (Option (UploadField Bytes)))
      : Answer → Option Text → Type 0 where
    bad_body : (e : Text) → input ≡ err e → Uploaded input (refused 400 e) none
    empty_body :
        input ≡ ok none
        → Uploaded input (refused 400 (codes "expected a multipart file upload")) none
    bad_field :
        (field : UploadField Bytes) (e : Text)
        → input ≡ ok (some field)
        → field.bytes ≡ err e
        → Uploaded input (refused 400 e) none
    not_written :
        (field : UploadField Bytes) (body : Bytes) (e : Text)
        → input ≡ ok (some field)
        → field.bytes ≡ ok body
        → write (temp_name uuid write field.file_name) body ≡ some e
        → Uploaded input (refused 500 e) none
    started :
        (field : UploadField Bytes) (body : Bytes)
        → input ≡ ok (some field)
        → field.bytes ≡ ok body
        → write (temp_name uuid write field.file_name) body ≡ none
        → Uploaded input queued (some (temp_name uuid write field.file_name))

  store-Uploaded :
      (field : UploadField Bytes) (body : Bytes)
      → field.bytes ≡ ok body
      → let r = store uuid write field body in Uploaded (ok (some field)) r.0 r.1
  store-Uploaded field body h =
      elim (Option-cases (write (temp_name uuid write field.file_name) body)) [
        | inl n ↦ rw (n, store) (started field body refl h n)
        | inr (e, f) ↦ rw (f, store) (not_written field body e refl h f)
      ]

  field-Uploaded :
      (field : UploadField Bytes) (b : Result Text Bytes)
      → field.bytes ≡ b
      → let r : Answer × Option Text = elim b [
        | err e ↦ (refused 400 e, none)
        | ok body ↦ store uuid write field body
      ] in
        Uploaded (ok (some field)) r.0 r.1
  field-Uploaded field (err e) h = bad_field field e refl h
  field-Uploaded field (ok body) h = store-Uploaded field body h

  -- An upload has status 400 without a readable body, a first field or readable bytes of it, and status
  -- 500 if the file cannot be written, and nothing is imported; else the import of the file written is
  -- started.
  pub nsys_import_handler-Uploaded :
      (input : Result Text (Option (UploadField Bytes)))
      → let r = nsys_import_handler uuid write input in Uploaded input r.0 r.1
  unfolding nsys_import_handler
  nsys_import_handler-Uploaded (err e) = bad_body e refl
  nsys_import_handler-Uploaded (ok none) = empty_body refl
  nsys_import_handler-Uploaded (ok (some field)) = field-Uploaded field field.bytes refl
