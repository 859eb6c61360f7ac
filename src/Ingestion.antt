-- ===== src/Ingestion.antt =====
-- src/ingestion: the pipeline that takes a book in, and its HTTP endpoints.
pub mod Types
pub mod Parsing
pub mod Handlers
