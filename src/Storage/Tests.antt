-- ===== src/Storage/Tests.antt =====
-- The repositories at concrete inputs: a session, an exchange of it and two events.
use tekrion.Prelude.{
  if◌then◌else◌, codes, ℕ, ◌<◌, ◌≡◌, refl, length, keep, Bool, true, false, List, [], ◌∷◌, none,
  some, ok, err, All, ltb, Text, text_eq,
}
use tekrion.Prelude.Strings.{ends_with, starts_with}
use tekrion.Protocol.{
  JsonValues, TekrionEvent, Session, RawExchange, observed, proxy, active, api, openai_responses,
  exchange_completed, pending,
}
use tekrion.Protocol.Equality.{
  event_eq, option_eq, kind_eq, source_eq, blob_eq, redaction_eq, bool_eq, is_imported, is_pending,
  text_lists_eq, list_eq, protocol_eq,
}
use tekrion.Storage.{
  Database, EventOrigin, complete, immutable_evidence, session_imported, blob_known,
}
use tekrion.Storage.Sessions.{
  create, with_session, session_row, reserve, with_reserved, numbers_from,
}
use tekrion.Storage.Events.{
  insert, insert_row, with_event, event_fits, origin_known, counted, sequence_past, reread,
  search_row, is_error_type, events_of, rebuild_search_index, count,
}
use tekrion.Storage.Normalizations.{
  NormalizationInput, insert_normalization, get_raw_exchange, get_normalization_row, first_run,
  insert_rows, normalized_row, with_run, run_row, hash_of,
}
use tekrion.Storage.Exchanges.{
  begin, insert_exchange, exchange_fits, with_exchange, finalize, finalized, get_row, is_open,
  is_recording, identity_changed, blobs_known, get_journal_state, recover_incomplete, recover_rows,
  recording_rows, rows_in_order, insert_row_in_order, with_recovered, recovered_exchange,
}
use tekrion.Storage.Histories.{
  Engine, Operation, creates, inserts, begins, finalizes, normalizes, run, empty_database,
  keeps_session, recovers, starts_empty,
}
use tekrion.Storage.Reservations.{reserve-above_events, reserve_again}
use tekrion.Storage.Index.{rebuild_search_index-run}
use tekrion.Storage.Counts.{run-IsCounted}
use tekrion.Storage.Recovery.{recover_incomplete_complete}
use tekrion.Storage.Idempotence.{insert_normalization-again}
use tekrion.Storage.Journal.{keeps_all, finalize-final}

abbrev pub byte_order : Text → Text → Bool
byte_order [] [] = false
byte_order [] (y ∷ ys) = true
byte_order (x ∷ xs) [] = false
byte_order (x ∷ xs) (y ∷ ys) = ltb x y

-- JSON gives back every value but the number -0, of which it makes 0.
unfoldable pub json_round_trip : Text → Text
unfolding text_eq
json_round_trip value = if text_eq value (codes "-0") then codes "0" else value

abbrev pub json_values : JsonValues
json_values = record { round_trip = json_round_trip; same = text_eq }

abbrev engine : Engine
engine = record { before = byte_order; json = json_values }

abbrev pub session : Session
session = record {
  id = 1 ∷ [];
  started_at = [];
  ended_at = none;
  status = active;
  capture_level = api;
  command = none;
  repo_root = none;
  agent_name = none;
  models = [];
  upstream_origin = none;
  upstream_route = none;
  tags = [];
  counts = record { events = 0; errors = 0; input_tokens = none; output_tokens = none };
  metadata = [];
}

abbrev pub event : Text → ℕ → TekrionEvent
event id sequence = record {
  id = id;
  session_id = 1 ∷ [];
  parent_id = none;
  correlation_id = none;
  sequence = sequence;
  occurred_at = [];
  observed_at = [];
  duration_ms = none;
  source = proxy;
  type = 7 ∷ [];
  evidence = observed;
  payload_ref = none;
  summary = [];
  redaction = record { applied = false; rule_ids = [] };
}

abbrev pub exchange : RawExchange
exchange = record {
  id = 5 ∷ [];
  session_id = 1 ∷ [];
  sequence = 1;
  protocol = openai_responses;
  method = [];
  path = [];
  query = [];
  request_headers = [];
  request_body_ref = none;
  response_status = none;
  response_headers = none;
  response_body_ref = none;
  stream_manifest_ref = none;
  started_at = [];
  first_byte_at = none;
  ended_at = none;
  outcome = exchange_completed;
  parse_status = pending;
  capture = record {
    request_complete = true;
    response_complete = false;
    dropped_request_bytes = 0;
    dropped_response_bytes = 0;
  };
}

abbrev no_origin : EventOrigin
no_origin = record { raw_exchange_id = none; normalization_version = none }

abbrev calls : List Operation
calls = creates session ∷ inserts (event (2 ∷ []) 4) no_origin ∷ []

reserve-above_events_example :
    All
      (λ k.
        All
          (λ e. e.sequence < k)
          (events_of (1 ∷ []) (with_reserved (1 ∷ []) 2 (run engine calls empty_database))))
      (5 ∷ 6 ∷ [])
unfolding run create with_session session_row insert insert_row session_imported event_fits
    with_event counted sequence_past search_row is_error_type ends_with starts_with origin_known
    blob_known is_imported text_eq reserve numbers_from with_reserved
reserve-above_events_example =
    reserve-above_events engine calls (1 ∷ []) 2
      (with_reserved (1 ∷ []) 2 (run engine calls empty_database)) (5 ∷ 6 ∷ []) refl

abbrev pub stored : Database
stored = run engine (creates session ∷ begins exchange ∷ []) empty_database

reserve_again_example : All (λ k. All (λ j. k < j) (7 ∷ [])) (1 ∷ 2 ∷ [])
unfolding run create with_session session_row begin insert_exchange exchange_fits with_exchange
    insert insert_row session_imported event_fits with_event counted sequence_past search_row
    is_error_type ends_with starts_with origin_known blob_known is_imported reread json_round_trip
    text_eq reserve numbers_from with_reserved keeps_session
reserve_again_example =
    reserve_again engine (1 ∷ []) 2 1 stored (with_reserved (1 ∷ []) 2 stored)
      (with_reserved (1 ∷ []) 1
        (run engine (inserts (event (2 ∷ []) 6) no_origin ∷ []) (with_reserved (1 ∷ []) 2 stored)))
      (1 ∷ 2 ∷ []) (7 ∷ []) (inserts (event (2 ∷ []) 6) no_origin ∷ []) refl refl refl

abbrev normalization : NormalizationInput
normalization = record {
  exchange_id = 5 ∷ [];
  parser_version = 9 ∷ [];
  events = event (2 ∷ []) 1 ∷ event (3 ∷ []) 2 ∷ [];
  parse_status = none;
}

abbrev normalized : Database
normalized = run engine (normalizes normalization ∷ []) stored

insert_normalization-again_example :
    insert_normalization json_values normalization normalized
    ≡ ok (normalized, record { inserted = false; event_ids = (2 ∷ []) ∷ (3 ∷ []) ∷ [] })
unfolding run create with_session session_row begin insert_exchange exchange_fits with_exchange
    insert_normalization get_raw_exchange get_normalization_row first_run insert_rows normalized_row
    with_run run_row hash_of is_pending insert_row session_imported event_fits with_event counted
    sequence_past search_row is_error_type ends_with starts_with origin_known blob_known is_imported
    reread json_round_trip text_eq event_eq option_eq list_eq kind_eq source_eq blob_eq redaction_eq
    bool_eq
insert_normalization-again_example =
    insert_normalization-again json_values normalization stored normalized
      (record { inserted = true; event_ids = (2 ∷ []) ∷ (3 ∷ []) ∷ [] }) (refl, (refl, tt)) refl

abbrev ended : RawExchange
ended = record exchange { ended_at = some [] }

abbrev closed : Database
closed = run engine (finalizes ended ∷ []) stored

finalize-final_example :
    (get_journal_state (5 ∷ []) (run engine (normalizes normalization ∷ []) closed) ≡ some complete)
    × (finalize ended (run engine (normalizes normalization ∷ []) closed) ≡ err immutable_evidence)
unfolding run create with_session session_row begin insert_exchange exchange_fits with_exchange
    finalize finalized get_row is_open is_recording identity_changed blobs_known get_journal_state
    text_lists_eq list_eq protocol_eq session_imported blob_known is_imported text_eq keeps_all
finalize-final_example =
    finalize-final complete (5 ∷ []) refl engine (normalizes normalization ∷ []) closed ended refl
      refl refl

run-IsCounted_example :
    All
      (λ r.
        (r.event_count ≡ count r.session.id (run engine calls empty_database))
        × (r.error_count
            ≡ length (
                keep
                  (λ e. is_error_type e.type)
                  (events_of r.session.id (run engine calls empty_database)))))
      (run engine calls empty_database).sessions
unfolding starts_empty
run-IsCounted_example = run-IsCounted engine calls refl

abbrev interrupted : Database
interrupted = run engine (recovers (8 ∷ []) ∷ []) stored

recover_incomplete_complete_example :
    All (λ r. is_recording r.journal_state ≡ false) interrupted.raw_exchanges
unfolding run create with_session session_row begin insert_exchange exchange_fits with_exchange
    recover_incomplete recover_rows recording_rows rows_in_order insert_row_in_order with_recovered
    recovered_exchange is_pending is_open is_recording session_imported blob_known is_imported
    text_eq
recover_incomplete_complete_example =
    recover_incomplete_complete byte_order (8 ∷ []) stored interrupted ((5 ∷ []) ∷ []) refl

rebuild_search_index-run_example :
    rebuild_search_index (run engine calls empty_database)
    ≡ ok (run engine calls empty_database, length (run engine calls empty_database).events)
unfolding keeps_all
rebuild_search_index-run_example = rebuild_search_index-run engine calls refl
