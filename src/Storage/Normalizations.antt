-- ===== src/Storage/Normalizations.antt =====
-- event-repository.ts: `insertNormalization`, which stores what a parser made of an exchange once.
use tekrion.Prelude.{
  Bool, true, false, ◌&&◌, ◌||◌, not, List, [], ◌∷◌, ◌++◌, map, Option, none, some, Result, ok, err,
  any, find, Text, text_eq, get_or_else, throw_if, ◌>>=◌, ◌>>◌,
}
use tekrion.Protocol.{
  JsonValues, TekrionEvent, RawExchange, BlobReference, RawExchangeParseStatus, parsed,
}
use tekrion.Protocol.Equality.{list_eq, option_eq, event_eq, is_pending}
use tekrion.Storage.{
  Database, EventRow, NormalizationRow, Call, StorageError, immutable_evidence, storage_integrity,
  out_of_range, read_only, is_exchange, session_imported, update_where,
}
use tekrion.Storage.Events.{get, insert_row, reread}

pub record NormalizationInput : Type 0 where
  pub exchange_id : Text
  pub parser_version : Text
  pub events : List TekrionEvent
  pub parse_status : Option RawExchangeParseStatus

pub record NormalizationResult : Type 0 where
  pub inserted : Bool
  pub event_ids : List Text

unfoldable pub hash_of : Option BlobReference → Option Text
hash_of none = none
hash_of (some b) = some b.sha256

unfoldable pub get_raw_exchange : Text → Database → Result StorageError RawExchange
get_raw_exchange id db = elim (find (is_exchange id) db.raw_exchanges) [
  | some row ↦ ok row.exchange
  | none ↦ err immutable_evidence
]

unfoldable pub get_normalization_row : Text → Text → Database → Option NormalizationRow
get_normalization_row exchange_id parser_version db =
    find (λ run. text_eq run.exchange_id exchange_id && text_eq run.parser_version parser_version)
      db.normalization_runs

-- The events of the identifiers; one that is missing is an error.
unfoldable pub get_stored_events : List Text → Database → Result StorageError (List TekrionEvent)
unfolding get
get_stored_events [] db = ok []
get_stored_events (id ∷ ids) db = elim (get id db) [
  | none ↦ err storage_integrity
  | some event ↦ get_stored_events ids db >>= λ events. ok (event ∷ events)
]

-- The branch of a run that is there already.
unfoldable pub repeated :
    JsonValues
    → NormalizationRow
    → RawExchange
    → List TekrionEvent
    → Database
    → Result StorageError NormalizationResult
unfolding option_eq list_eq text_eq hash_of get_stored_events event_eq
repeated values existing exchange events db =
    throw_if
      (not (option_eq text_eq existing.request_sha256 (hash_of exchange.request_body_ref))
        || not (option_eq text_eq existing.response_sha256 (hash_of exchange.response_body_ref)))
      storage_integrity
    >> throw_if (not (list_eq text_eq existing.event_ids (map (λ e. e.id) events)))
        storage_integrity
    >> (get_stored_events existing.event_ids db >>= λ stored.
        throw_if (not (list_eq (event_eq values.same) stored events)) storage_integrity
        >> ok (record { inserted = false; event_ids = existing.event_ids }))

unfoldable pub normalized_row :
    JsonValues → (exchange_id parser_version : Text) → TekrionEvent → EventRow
unfolding reread
normalized_row values exchange_id parser_version event = record {
  event = reread values event;
  origin = record {
    raw_exchange_id = some exchange_id;
    normalization_version = some parser_version;
  };
}

-- The loop of the transaction.
unfoldable pub insert_rows :
    JsonValues
    → (exchange_id parser_version : Text) → List TekrionEvent
    → Database
    → Result StorageError Database
unfolding insert_row normalized_row
insert_rows values exchange_id parser_version [] db = ok db
insert_rows values exchange_id parser_version (e ∷ es) db =
    insert_row (normalized_row values exchange_id parser_version e) db
    >>= insert_rows values exchange_id parser_version es

unfoldable pub run_row : NormalizationInput → RawExchange → NormalizationRow
unfolding hash_of
run_row input exchange = record {
  exchange_id = input.exchange_id;
  parser_version = input.parser_version;
  request_sha256 = hash_of exchange.request_body_ref;
  response_sha256 = hash_of exchange.response_body_ref;
  event_ids = map (λ e. e.id) input.events;
}

-- The two last statements of the transaction.
unfoldable pub with_run :
    NormalizationInput → RawExchange → RawExchangeParseStatus → Database → Database
unfolding run_row
with_run input exchange parse_status db = record db {
  normalization_runs = db.normalization_runs ++ run_row input exchange ∷ [];
  raw_exchanges =
      update_where (is_exchange input.exchange_id)
        (λ row. record row { exchange = record exchange { parse_status = parse_status } })
        db.raw_exchanges;
}

-- The branch of a new run.
unfoldable pub first_run :
    JsonValues
    → NormalizationInput
    → RawExchange
    → RawExchangeParseStatus
    → Call NormalizationResult
unfolding insert_rows with_run session_imported
first_run values input exchange parse_status db = do
  same_session ←
      throw_if (any (λ e. not (text_eq e.session_id exchange.session_id)) input.events)
        immutable_evidence
  inserted ← insert_rows values input.exchange_id input.parser_version input.events db
  writable ← throw_if (session_imported exchange.session_id inserted) read_only
  ok (
    with_run input exchange parse_status inserted,
    record { inserted = true; event_ids = map (λ e. e.id) input.events },
  )

-- A result that comes with no change.
abbrev pub unchanged :
    {A : Type 0} → Database → Result StorageError A → Result StorageError (Database × A)
unchanged db r = r >>= λ result. ok (db, result)

unfoldable pub insert_normalization : JsonValues → NormalizationInput → Call NormalizationResult
unfolding get_raw_exchange get_normalization_row is_pending repeated first_run
insert_normalization values input db = do
  exchange ← get_raw_exchange input.exchange_id db
  let parse_status = get_or_else input.parse_status parsed
  complete ← throw_if (is_pending parse_status) out_of_range
  elim (get_normalization_row input.exchange_id input.parser_version db) [
    | some existing ↦ unchanged db (repeated values existing exchange input.events db)
    | none ↦ first_run values input exchange parse_status db
  ]

pub record StoredNormalization : Type 0 where
  pub parser_version : Text
  pub events : List TekrionEvent

unfoldable pub get_normalization :
    (exchange_id parser_version : Text)
    → Database
    → Result StorageError (Option StoredNormalization)
unfolding get_normalization_row get_stored_events
get_normalization exchange_id parser_version db =
    elim (get_normalization_row exchange_id parser_version db) [
      | none ↦ ok none
      | some row ↦ get_stored_events row.event_ids db >>= λ events.
          ok (some (record { parser_version = parser_version; events = events }))
    ]
