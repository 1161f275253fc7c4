-- ===== src/Normalizers/Tests.antt =====
-- The normalizers' shared parts and the runner at concrete inputs.
use tekrion.Prelude.{
  ℕ, ◌≡◌, refl, true, false, List, [], ◌∷◌, ◌++◌, Option, none, some, ok, err, length, Text, codes,
  text_eq,
}
use tekrion.Prelude.Strings.{ends_with, starts_with}
use tekrion.Prelude.Maps.{get, set}
use tekrion.Protocol.{TekrionEvent, openai_responses, exchange_completed}
use tekrion.Protocol.Equality.{
  event_eq, option_eq, list_eq, kind_eq, source_eq, blob_eq, redaction_eq, bool_eq, is_imported,
  is_pending,
}
use tekrion.Storage
use tekrion.Protocol
use tekrion.Storage.{Database, StorageError, session_imported, blob_known}
use tekrion.Storage.Sessions.{
  create, with_session, session_row, reserve, with_reserved, numbers_from,
}
use tekrion.Storage.Events.{
  insert_row, with_event, event_fits, origin_known, counted, sequence_past, reread, search_row,
  is_error_type,
}
use tekrion.Storage.Normalizations.{
  insert_normalization, get_raw_exchange, get_normalization_row, get_normalization, first_run,
  insert_rows, normalized_row, with_run, run_row, hash_of,
}
use tekrion.Storage.Exchanges.{begin, insert_exchange, exchange_fits, with_exchange}
use tekrion.Storage.Histories.{run}
use tekrion.Storage.Tests.{event, exchange, stored, json_round_trip, json_values}
use tekrion.Sse.Frame.{SseFrame}
use tekrion.Normalizers.Contracts.{
  NormalizationExchange, NormalizationResult, NormalizationOptions, CanonicalEventDraft,
  ParserDiagnostic, duplicate_replay, parsed,
}
use tekrion.Normalizers.Events.{
  event_id_of, identifiers_from, event_of, events_from, materialize_canonical_events,
}
use tekrion.Normalizers.Canonical.{
  IsConsecutive, HasEarlierParents, materialize_canonical_events-order,
}
use tekrion.Normalizers.Diagnostics.{
  SummaryText, kind_text, optional_field, diagnostic_summary, index_in, represents, expected_type,
  is_silent, already_represented, diagnostic_draft, drafts_of, appended_options, append_drafts,
  append_diagnostic_evidence,
}
use tekrion.Normalizers.Codec.{encode, field, field-encode}
use tekrion.Normalizers.Evidence.{append_diagnostic_evidence-again}
use tekrion.Normalizers.Replay.{
  SseReplayDetector, conflict, replay_identity, fingerprint_of, replay_diagnostic, observe,
  observe_identity,
}
use tekrion.Normalizers.Authority.{Observation, observe_all, observe-first}
use tekrion.Normalizers.Runner.{
  ExchangeNormalizationResult, RunnerContext, normalization_version_of, and_then, transaction,
  sequenced, apply_sequences, reserve_sequences, body_of, exchange_of, exchange_from, load_exchange,
  options_for, input_of, result_of, insert_once, persist, events_for, with_existing,
  normalize_exchange,
}
use tekrion.Normalizers.Durability.{normalize_exchange-again}

abbrev input : NormalizationExchange
input = record {
  id = 5 ∷ [];
  session_id = 1 ∷ [];
  raw_sequence = 1;
  protocol = openai_responses;
  method = [];
  path = [];
  query = [];
  request_headers = [];
  request_body = none;
  response_status = none;
  response_headers = none;
  response_body = none;
  started_at = [];
  first_byte_at = none;
  ended_at = none;
  outcome = exchange_completed;
  capture = exchange.capture;
}

abbrev options : NormalizationOptions
options = record {
  first_sequence = some 4;
  observed_at = none;
  max_decoded_response_body_bytes = none;
  event_id = some (λ x ordinal. ordinal ∷ []);
  known_response_ids = none;
}

abbrev sample_draft : Option ℕ → CanonicalEventDraft
sample_draft parent = record {
  type = 7 ∷ [];
  summary = [];
  evidence = none;
  source = none;
  correlation_id = none;
  parent_draft_index = parent;
  occurred_at = none;
  duration_ms = none;
  redaction = none;
}

abbrev no_digest : Text → Text
no_digest s = s

abbrev made : List TekrionEvent
made = event (1 ∷ []) 4 ∷ record (event (2 ∷ []) 5) { parent_id = some (1 ∷ []) } ∷ []

materialize_canonical_events-order_example :
    (length made ≡ 2) × IsConsecutive 4 made × HasEarlierParents [] made
unfolding materialize_canonical_events identifiers_from event_id_of events_from event_of
materialize_canonical_events-order_example =
    materialize_canonical_events-order no_digest input options
      (sample_draft none ∷ sample_draft (some 0) ∷ []) made refl

abbrev flat_objects : SummaryText
flat_objects = record { encode = encode; field = field }

abbrev replayed : ParserDiagnostic
replayed = record {
  kind = duplicate_replay;
  message = [];
  frame_index = some 2;
  event_type = none;
  fatal = false;
}

abbrev diagnosed : NormalizationResult
diagnosed = record {
  parser_id = 3 ∷ [];
  parser_version = 4 ∷ [];
  status = parsed;
  events = [];
  diagnostics = replayed ∷ [];
}

abbrev with_evidence : NormalizationResult
with_evidence = record diagnosed {
  events =
      record (event (1 ∷ []) 4) {
        type = codes "parser.replay_ignored";
        summary = encode (diagnostic_summary (3 ∷ []) replayed);
        evidence = Protocol.derived;
      }
      ∷ [];
}

append_diagnostic_evidence-again_example :
    append_diagnostic_evidence flat_objects no_digest input with_evidence options ≡ ok with_evidence
unfolding append_diagnostic_evidence drafts_of already_represented represents field index_in encode
    diagnostic_summary kind_text optional_field diagnostic_draft is_silent text_eq get expected_type
    append_drafts appended_options materialize_canonical_events identifiers_from event_id_of
    events_from event_of
append_diagnostic_evidence-again_example =
    append_diagnostic_evidence-again flat_objects no_digest field-encode input diagnosed
      with_evidence options refl

abbrev frame : Text → SseFrame
frame text = record {
  index = 1;
  event = none;
  data_text = some text;
  id = some (8 ∷ []);
  retry = none;
  comments = [];
  unknown_fields = [];
  raw = [];
}

abbrev observation : Text → Observation
observation text = record {
  frame = frame text;
  payload = record { event_id = none; sequence_number = none };
  event_type = none;
}

abbrev seen_once : SseReplayDetector
seen_once = (codes "sse-id:" ++ 8 ∷ [], 0 ∷ 1 ∷ []) ∷ []

observe-first_example :
    observe
      (frame (2 ∷ []))
      (record { event_id = none; sequence_number = none })
      none
      (observe_all (observation (1 ∷ []) ∷ []) seen_once)
    ≡ (
      observe_all (observation (1 ∷ []) ∷ []) seen_once,
      conflict (replay_diagnostic false (codes "sse-id:" ++ 8 ∷ []) (frame (2 ∷ [])) none),
    )
unfolding observe observe_identity replay_identity fingerprint_of text_eq get set
observe-first_example =
    observe-first (observation (1 ∷ [])) (observation (2 ∷ [])) (observation (1 ∷ []) ∷ []) []
      seen_once (codes "sse-id:" ++ 8 ∷ []) refl refl refl

abbrev context : RunnerContext
context = record {
  normalize = λ x o. ok (record diagnosed { events = event (2 ∷ []) 1 ∷ event (3 ∷ []) 2 ∷ [] });
  blob = λ id. err Storage.storage_integrity;
  accepts_exchange = λ x. true;
  accepts_event = λ x. true;
  max_decoded_response_body_bytes = none;
  json = json_values;
}

abbrev first_result : ExchangeNormalizationResult
first_result = record {
  normalization = record diagnosed { events = event (2 ∷ []) 1 ∷ event (3 ∷ []) 2 ∷ [] };
  normalization_version = 3 ∷ 64 ∷ 4 ∷ [];
  inserted = true;
  event_ids = (2 ∷ []) ∷ (3 ∷ []) ∷ [];
}

abbrev after : Database
after = (normalize_exchange context none (5 ∷ []) stored).0

normalize_exchange-again_example :
    normalize_exchange context (some ((6 ∷ []) ∷ [])) (5 ∷ []) after
    ≡ (after, ok (record first_result { inserted = false }))
unfolding normalize_exchange load_exchange exchange_from body_of exchange_of options_for
    with_existing events_for reserve_sequences apply_sequences sequenced and_then transaction
    persist insert_once input_of result_of normalization_version_of get_normalization reserve
    numbers_from with_reserved run create with_session session_row begin insert_exchange
    exchange_fits with_exchange insert_normalization get_raw_exchange get_normalization_row
    first_run insert_rows normalized_row with_run run_row hash_of is_pending insert_row
    session_imported event_fits with_event counted sequence_past search_row is_error_type ends_with
    starts_with reread json_round_trip origin_known blob_known is_imported text_eq event_eq
    option_eq list_eq kind_eq source_eq blob_eq redaction_eq bool_eq
normalize_exchange-again_example =
    normalize_exchange-again context (5 ∷ []) none (some ((6 ∷ []) ∷ [])) stored after first_result
      (λ x loaded. refl) (refl, (refl, tt)) refl
