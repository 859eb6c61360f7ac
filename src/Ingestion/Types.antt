-- ===== src/Ingestion/Types.antt =====
-- src/ingestion/types.rs: the stored document and the payloads of the ingestion endpoints.
use stage.Prelude.{Str}

pub record RawDocument : Type 0 where
  pub book_id : Str
  pub header : Str
  pub body : Str
  pub source_url : Str

pub record IngestResponse : Type 0 where
  pub book_id : Str
  pub status : Str
  pub source_url : Str

pub record IngestStatusResponse : Type 0 where
  pub book_id : Str
  pub status : Str

pub record IndexTaskPayload : Type 0 where
  pub book_id : Str
