-- ===== src/Normalizers/Diagnostics.antt =====
-- packages/normalizers/src/diagnostics.ts: a diagnostic that no event stands for gets an event. How
-- an object of the language stands in a text is a parameter.
use tekrion.Prelude.{
  ℕ, ◌+◌, Bool, true, false, ◌&&◌, not, List, [], ◌∷◌, ◌++◌, Option, none, some, Result, ok, ◌==◌,
  if◌then◌else◌, any, length, Text, codes, text_eq, get_or_else, ◌>>=◌,
}
use tekrion.Prelude.Maps.{StringMap}
use tekrion.Protocol.{TekrionEvent, derived}
use tekrion.Storage.{StorageError}
use tekrion.Normalizers.Contracts.{
  NormalizationExchange, DiagnosticKind, malformed_json, malformed_sse, incomplete_sse,
  invalid_payload, duplicate_replay, duplicate_conflict, unsupported_event, capture_incomplete,
  ParserDiagnostic, NormalizationResult, CanonicalEventDraft, NormalizationOptions,
}
use tekrion.Normalizers.Events.{canonical_event_id, materialize_canonical_events}

unfoldable pub expected_type : DiagnosticKind → Text
expected_type duplicate_replay = codes "parser.replay_ignored"
expected_type capture_incomplete = codes "capture.incomplete"
expected_type _ = codes "parser.error"

abbrev pub same_frame : Option ℕ → Option ℕ → Bool
same_frame none found = true
same_frame (some i) none = false
same_frame (some i) (some j) = j == i

-- Whether the diagnostic is one that gets no event.
unfoldable pub is_silent : DiagnosticKind → Bool → Bool
is_silent unsupported_event fatal = true
is_silent incomplete_sse fatal = not fatal
is_silent _ fatal = false

-- A value of a field of a summary: a string, a natural number or the text of another value.
pub data SummaryValue : Type 0 where
  string_value : Text → SummaryValue
  number_value : ℕ → SummaryValue
  json_value : Text → SummaryValue

unfoldable pub kind_text : DiagnosticKind → Text
kind_text malformed_json = codes "malformed-json"
kind_text malformed_sse = codes "malformed-sse"
kind_text incomplete_sse = codes "incomplete-sse"
kind_text invalid_payload = codes "invalid-payload"
kind_text duplicate_replay = codes "duplicate-replay"
kind_text duplicate_conflict = codes "duplicate-conflict"
kind_text unsupported_event = codes "unsupported-event"
kind_text capture_incomplete = codes "capture-incomplete"

-- A field that is there when its value is.
unfoldable pub optional_field :
    {A : Type 0} → Text → (A → SummaryValue) → Option A → StringMap SummaryValue
optional_field name value none = []
optional_field name value (some a) = (name, value a) ∷ []

-- The object `summary` of `diagnosticDraft`.
unfoldable pub diagnostic_summary : Text → ParserDiagnostic → StringMap SummaryValue
unfolding kind_text optional_field
diagnostic_summary parser_id diagnostic =
    (codes "parser", string_value parser_id)
    ∷ (codes "kind", string_value (kind_text diagnostic.kind))
    ∷ (codes "message", string_value diagnostic.message)
    ∷ (optional_field (codes "frameIndex") number_value diagnostic.frame_index
        ++ optional_field (codes "eventType") string_value diagnostic.event_type)

-- How an object stands in a text, and the field of a name of the object that stands in a text.
pub record SummaryText : Type 0 where
  pub encode : StringMap SummaryValue → Text
  pub field : Text → Text → Option SummaryValue

-- The natural number of a field.
unfoldable pub index_in : Option SummaryValue → Option ℕ
index_in (some (number_value i)) = some i
index_in _ = none

module _ (json : SummaryText) where
  unfoldable pub represents : ParserDiagnostic → TekrionEvent → Bool
  unfolding expected_type index_in text_eq
  represents diagnostic event =
      text_eq event.type (expected_type diagnostic.kind)
      && same_frame diagnostic.frame_index
          (index_in (json.field (codes "frameIndex") event.summary))

  unfoldable pub already_represented : NormalizationResult → ParserDiagnostic → Bool
  unfolding represents
  already_represented result diagnostic = any (represents diagnostic) result.events

  unfoldable pub diagnostic_draft : Text → ParserDiagnostic → Option CanonicalEventDraft
  unfolding is_silent expected_type diagnostic_summary
  diagnostic_draft parser_id diagnostic =
      if is_silent diagnostic.kind diagnostic.fatal
      then none
      else some (record {
        type = expected_type diagnostic.kind;
        summary = json.encode (diagnostic_summary parser_id diagnostic);
        evidence = some derived;
        source = none;
        correlation_id = none;
        parent_draft_index = none;
        occurred_at = none;
        duration_ms = none;
        redaction = none;
      })

  abbrev pub with_draft :
      Option CanonicalEventDraft → List CanonicalEventDraft → List CanonicalEventDraft
  with_draft none drafts = drafts
  with_draft (some d) drafts = d ∷ drafts

  -- The `flatMap`.
  unfoldable pub drafts_of : NormalizationResult → List ParserDiagnostic → List CanonicalEventDraft
  unfolding already_represented diagnostic_draft
  drafts_of result [] = []
  drafts_of result (d ∷ ds) =
      let more = drafts_of result ds in
      if already_represented result d
      then more
      else with_draft (diagnostic_draft result.parser_id d) more

  module _ (digest : Text → Text) where
    -- The options of the appended events.
    unfoldable pub appended_options : ℕ → NormalizationOptions → NormalizationOptions
    appended_options offset options = record options {
      first_sequence = some (get_or_else options.first_sequence 1 + offset);
      event_id = some (λ input ordinal.
          get_or_else options.event_id (canonical_event_id digest) input (offset + ordinal));
    }

    unfoldable pub append_drafts :
        NormalizationExchange
        → NormalizationResult
        → NormalizationOptions
        → List CanonicalEventDraft
        → Result StorageError NormalizationResult
    unfolding appended_options materialize_canonical_events
    append_drafts exchange result options [] = ok result
    append_drafts exchange result options (d ∷ ds) =
        materialize_canonical_events digest exchange
          (appended_options (length result.events) options) (d ∷ ds)
        >>= λ events. ok (record result { events = result.events ++ events })

    unfoldable pub append_diagnostic_evidence :
        NormalizationExchange
        → NormalizationResult
        → NormalizationOptions
        → Result StorageError NormalizationResult
    unfolding drafts_of append_drafts
    append_diagnostic_evidence exchange result options =
        append_drafts exchange result options (drafts_of result result.diagnostics)
