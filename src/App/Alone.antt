-- ===== src/App/Alone.antt =====
-- src/main.rs: what the maps of a node that owns every partition hold, and that reads answer it.
use stage.Prelude.{◌≡◌, ap, Option, List, Str, str}
use stage.DashMap.{DashMap}
use stage.Effects.{ok}
use stage.Site.{IsAlone}
use stage.Storage.Protocol.{Request}
use stage.Storage.Memory.{get_local}
use stage.Storage.Memory.Alone.{get_value_alone}
use stage.App.{App, Setting, get_book, get_document, get_postings}
use stage.Search.Types.{BookMetadata}
use stage.Ingestion.Types.{RawDocument}

module _ (dm : DashMap) (x : Setting dm) where
  -- The local shards.
  abbrev pub postings_in : App dm → Str → Option (List Str)
  postings_in a = get_local dm x.formats.index x.site (str "/index") x.wire a.index

  abbrev pub books_in : App dm → Str → Option BookMetadata
  books_in a = get_local dm x.formats.books x.site (str "/books") x.wire a.books

  abbrev pub documents_in : App dm → Str → Option RawDocument
  documents_in a = get_local dm x.formats.datalake x.site (str "/datalake") x.wire a.datalake

  module _ (a : App dm) (k : Str) (log : List Request) (alone : IsAlone dm x.site) where
    pub get_postings_alone : get_postings dm x k (a, log) ≡ (ok (postings_in a k), (a, log))
    get_postings_alone =
        ap (λ r. (r.0, (record a { index = r.1.0 }, r.1.1)))
          (get_value_alone dm x.formats.index x.site (str "/index") x.wire k a.index log alone)

    pub get_book_alone : get_book dm x k (a, log) ≡ (ok (books_in a k), (a, log))
    get_book_alone =
        ap (λ r. (r.0, (record a { books = r.1.0 }, r.1.1)))
          (get_value_alone dm x.formats.books x.site (str "/books") x.wire k a.books log alone)

    pub get_document_alone : get_document dm x k (a, log) ≡ (ok (documents_in a k), (a, log))
    get_document_alone =
        ap (λ r. (r.0, (record a { datalake = r.1.0 }, r.1.1)))
          (get_value_alone dm x.formats.datalake x.site (str "/datalake") x.wire k a.datalake log
            alone)
