-- ===== src/Server/App.antt =====
-- crates/perfweave-server/src/api/app.rs, with the configurations of store/ch.rs and store/sink.rs:
-- which database each part of the server talks to, and the upload of a report.
pub mod Upload
pub mod Startup
pub mod Order
mod Tests
use Prim.Native.String.{String}
use perf_weave.Base.{ℕ, Option, none, some, List, [], ◌∷◌, if◌then◌else◌}
use perf_weave.Base.Text.{Text, codes}
use perf_weave.Base.Text.Parts.{concat}
use perf_weave.Base.Results.{Result, err, ok}

pub record ChConfig : Type 0 where
  pub url : Text
  pub user : Text
  pub password : Text
  pub database : Text

pub record SinkConfig : Type 0 where
  pub url : Text
  pub user : Text
  pub password : Text
  pub database : Text
  pub max_batch_rows : ℕ
  pub max_batch_ms : ℕ

pub record AppConfig : Type 0 where
  pub http_listen : Text
  pub grpc_listen : Text
  pub web_dir : Option Text
  pub ch : Option ChConfig

abbrev pub unwrap_or {ℓ} : {A : Type ℓ} → A → Option A → A
unwrap_or d none = d
unwrap_or d (some a) = a

-- `ChConfig::default`; `env` is the environment.
unfoldable pub default_ch : (String → Option Text) → ChConfig
default_ch env = record {
  url = unwrap_or (codes "http://127.0.0.1:8123") (env "PERFWEAVE_CH_URL");
  user = unwrap_or (codes "default") (env "PERFWEAVE_CH_USER");
  password = unwrap_or [] (env "PERFWEAVE_CH_PASSWORD");
  database = unwrap_or (codes "default") (env "PERFWEAVE_CH_DATABASE");
}

-- `SinkConfig::default`.
abbrev pub default_sink : SinkConfig
default_sink = record {
  url = codes "http://127.0.0.1:8123";
  user = codes "default";
  password = [];
  database = codes "default";
  max_batch_rows = 50_000;
  max_batch_ms = 500;
}

-- What `run` hands to each part: the client of the migrations, the queries and the imports is one.
pub record Parts : Type 0 where
  pub migrations : ChConfig
  pub sink : SinkConfig
  pub queries : ChConfig
  pub timeline : ChConfig
  pub imports : ChConfig

-- The parts under the client's configuration.
abbrev pub parts_of : ChConfig → Parts
parts_of ch = record {
  migrations = ch;
  sink = default_sink;
  queries = ch;
  timeline = ch;
  imports = ch;
}

-- `run` up to the start of its tasks: nothing is started if the migrations fail.
unfoldable pub run :
    (String → Option Text) → (ChConfig → Option Text) → AppConfig → Result Text Parts
unfolding default_ch
run env apply_all cfg =
    let ch = unwrap_or (default_ch env) cfg.ch in
    elim (apply_all ch) [ some e ↦ err e | none ↦ ok (parts_of ch) ]

-- A field of a multipart body: its file name, and its bytes or the error of reading them.
pub record UploadField (Bytes : Type 0) : Type 0 where
  pub file_name : Option Text
  pub bytes : Result Text Bytes

-- The answer to an upload.
pub data Answer : Type 0 where
  queued : Answer
  refused : ℕ → Text → Answer

-- `uuid_like`, the time in hexadecimal, is a parameter, as is the writing of a file of the temporary
-- directory.
module _ {Bytes : Type 0} (uuid : Text) (write : Text → Bytes → Option Text) where
  abbrev pub temp_name : Option Text → Text
  temp_name name = concat (uuid ∷ codes "-" ∷ unwrap_or (codes "upload.nsys-rep") name ∷ [])

  abbrev pub store : UploadField Bytes → Bytes → Answer × Option Text
  store field body = elim (write (temp_name field.file_name) body) [
    | some e ↦ (refused 500 e, none)
    | none ↦ (queued, some (temp_name field.file_name))
  ]

  -- `nsys_import_handler`: the answer, and the file whose import is started. The input is what
  -- `next_field` gives at its first call.
  unfoldable pub nsys_import_handler :
      Result Text (Option (UploadField Bytes)) → Answer × Option Text
  nsys_import_handler (err e) = (refused 400 e, none)
  nsys_import_handler (ok none) = (refused 400 (codes "expected a multipart file upload"), none)
  nsys_import_handler (ok (some field)) = elim field.bytes [
    | err e ↦ (refused 400 e, none)
    | ok body ↦ store field body
  ]
