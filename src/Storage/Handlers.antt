-- ===== src/Storage/Handlers.antt =====
-- src/storage/handlers.rs: the map's HTTP endpoints. A reply is a status with the payload that is
-- sent: the success flag of a PutResponse, the `value_json` of a GetResponse, the entries of a
-- PartitionDumpResponse.
pub mod Serving
pub mod Durable
pub mod Written
use stage.Prelude.{ℕ, Bool, true, false, Option, none, some, List, [], ◌∷◌, Str}
use stage.DashMap.{DashMap}
use stage.Effects.{Result, ok, err, Wire, Action}
use stage.Site.{Site}
use stage.Storage.Protocol.{Format, Request, Response, KeyValueJson, get_response, dump_response}
use stage.Storage.Memory.{
  Store, store_replica, get_local, get_value, put_with_op, store_as_primary, dump_partition,
}

abbrev pub Reply : Type 0 → Type 0
Reply A = ℕ × A

-- `filter_map` over the entries of a dump: what cannot be serialised is left out.
unfoldable pub dump_entries : {K V : Type 0} → Format K V → List (K × V) → List KeyValueJson
dump_entries f [] = []
dump_entries f ((k, v) ∷ l) =
    let rest = dump_entries f l in
    elim (f.to_json v) [
      | none ↦ rest
      | some json ↦ record { key = f.to_string k; value_json = json } ∷ rest
    ]

-- The endpoints by which an entry is written: `handle_put`, and `handle_forward_put` and
-- `handle_replicate` with their partition.
pub data Entrance : Type 0 where
  public : Entrance
  forwarded replicated : ℕ → Entrance

module _ (dm : DashMap) {K V : Type 0} (f : Format K V) where
  -- The two parses that the handlers of writes begin with.
  unfoldable pub parse_entry : Str → Str → Option (K × V)
  parse_entry key value_json = elim (f.parse key) [
    | none ↦ none
    | some k ↦ (elim (f.from_json value_json) [ none ↦ none | some v ↦ some (k, v) ])
  ]

  unfoldable pub handle_replicate :
      ℕ → ℕ → Str → Str → Str → Store dm K V → Reply Bool × Store dm K V
  handle_replicate now p op_id key value_json s = elim (parse_entry key value_json) [
    | none ↦ ((400, false), s)
    | some (k, v) ↦ ((200, true), store_replica dm f now p op_id k v s)
  ]

  unfoldable pub handle_partition_dump : Store dm K V → ℕ → Reply (List KeyValueJson)
  handle_partition_dump s p = (200, dump_entries f (dump_partition dm f s p))

  module _ (site : Site dm) (base : Str) (w : Wire Request Response) where
    -- 200, 404 or 500 for a value that was looked for.
    unfoldable pub value_reply : Option V → Reply (Option Str)
    value_reply none = (404, none)
    value_reply (some v) = elim (f.to_json v) [ none ↦ (500, none) | some json ↦ (200, some json) ]

    unfoldable pub handle_get_internal : Store dm K V → Str → Reply (Option Str)
    handle_get_internal s key = elim (f.parse key) [
      | none ↦ (400, none)
      | some k ↦ value_reply (get_local dm f site base w s k)
    ]

    -- 200 or 500 for a write.
    unfoldable pub put_reply : Result (Unit {0}) → Reply Bool
    put_reply (ok _) = (200, true)
    put_reply (err _) = (500, false)

    unfoldable pub handle_put :
        ℕ
        → Str
        → Str
        → Str
        → Store dm K V × List Request
        → Reply Bool × (Store dm K V × List Request)
    handle_put now op_id key value_json s = elim (parse_entry key value_json) [
      | none ↦ ((400, false), s)
      | some (k, v) ↦ let (r, t) = put_with_op dm f site base w now k v op_id s in (put_reply r, t)
    ]

    unfoldable pub handle_forward_put :
        ℕ
        → ℕ
        → Str
        → Str
        → Str
        → Store dm K V × List Request
        → Reply Bool × (Store dm K V × List Request)
    handle_forward_put now p op_id key value_json s = elim (parse_entry key value_json) [
      | none ↦ ((400, false), s)
      | some (k, v) ↦
          let (r, t) = store_as_primary dm f site base w now p op_id k v s in (put_reply r, t)
    ]

    -- What a request to one of the three leaves.
    unfoldable pub handle_write :
        Entrance → ℕ → Str → Str → Str → Store dm K V × List Request → Store dm K V × List Request
    unfolding handle_put handle_forward_put handle_replicate
    handle_write public now op_id key value_json s = (handle_put now op_id key value_json s).1
    handle_write (forwarded p) now op_id key value_json s =
        (handle_forward_put now p op_id key value_json s).1
    handle_write (replicated p) now op_id key value_json (s, log) =
        ((handle_replicate now p op_id key value_json s).1, log)

    -- `get` has no error to report: it answers that there is none.
    abbrev found_of : Result (Option V) → Option V
    found_of (ok found) = found
    found_of (err e) = none

    unfoldable pub handle_get :
        Str → Store dm K V × List Request → Reply (Option Str) × (Store dm K V × List Request)
    handle_get key s = elim (f.parse key) [
      | none ↦ ((400, none), s)
      | some k ↦ let (r, t) = get_value dm f site base w k s in (value_reply (found_of r), t)
    ]

-- What a client reads of a reply.
abbrev pub get_answer : Reply (Option Str) → Response
get_answer (status, v) = record { status = status; body = get_response v }

abbrev pub dump_answer : Reply (List KeyValueJson) → Response
dump_answer (status, l) = record { status = status; body = dump_response l }
