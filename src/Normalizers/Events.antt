-- ===== src/Normalizers/Events.antt =====
-- packages/normalizers/src/events.ts: the events that a normalizer's drafts become. The identifiers
-- and sequences are given in order; the digest of SHA-256 is a parameter.
use tekrion.Prelude.{
  ℕ, zero, suc, ◌+◌, Bool, false, List, [], ◌∷◌, ◌++◌, Option, none, some, Result, ok, ltb, leb,
  if◌then◌else◌, length, Text, codes, get_or_else, throw_if, ◌>>=◌, ◌>>◌,
}
use tekrion.Prelude.Numerals.{numeral}
use tekrion.Protocol.{TekrionEvent, observed, proxy}
use tekrion.Storage.{StorageError, out_of_range}
use tekrion.Normalizers.Contracts.{NormalizationExchange, CanonicalEventDraft, NormalizationOptions}

unfoldable pub canonical_event_id : (Text → Text) → NormalizationExchange → ℕ → Text
unfolding numeral
canonical_event_id digest exchange ordinal =
    let candidate = codes "event-" ++ exchange.id ++ codes "-" ++ numeral ordinal in
    if leb (length candidate) 512
    then candidate
    else codes "event-" ++ digest exchange.id ++ codes "-" ++ numeral ordinal

abbrev pub get_elem? : List Text → ℕ → Option Text
get_elem? [] i = none
get_elem? (x ∷ xs) zero = some x
get_elem? (x ∷ xs) (suc i) = get_elem? xs i

abbrev pub parent_of : List Text → Option ℕ → Option Text
parent_of identifiers none = none
parent_of identifiers (some i) = get_elem? identifiers i

-- `parentDraftIndex !== undefined && … parentDraftIndex >= index`.
abbrev pub parent_too_late : Option ℕ → ℕ → Bool
parent_too_late none index = false
parent_too_late (some i) index = leb index i

module _ (digest : Text → Text) (exchange : NormalizationExchange)
    (options : NormalizationOptions) where
  unfoldable pub event_id_of : ℕ → Text
  unfolding canonical_event_id
  event_id_of ordinal = get_or_else options.event_id (canonical_event_id digest) exchange ordinal

  -- The identifiers of the drafts from an index on.
  unfoldable pub identifiers_from : ℕ → List CanonicalEventDraft → List Text
  unfolding event_id_of
  identifiers_from index [] = []
  identifiers_from index (d ∷ ds) = event_id_of (index + 1) ∷ identifiers_from (suc index) ds

  -- The object that `TekrionEventSchema.parse` gets.
  unfoldable pub event_of : List Text → ℕ → ℕ → CanonicalEventDraft → TekrionEvent
  unfolding event_id_of
  event_of identifiers first_sequence index draft = record {
    id = event_id_of (index + 1);
    session_id = exchange.session_id;
    parent_id = parent_of identifiers draft.parent_draft_index;
    correlation_id = draft.correlation_id;
    sequence = first_sequence + index;
    occurred_at = get_or_else draft.occurred_at exchange.started_at;
    observed_at =
        get_or_else options.observed_at (get_or_else exchange.ended_at exchange.started_at);
    duration_ms = draft.duration_ms;
    source = get_or_else draft.source proxy;
    type = draft.type;
    evidence = get_or_else draft.evidence observed;
    payload_ref = none;
    summary = draft.summary;
    redaction = get_or_else draft.redaction (record { applied = false; rule_ids = [] });
  }

  unfoldable pub events_from :
      List Text
      → (first_sequence index : ℕ) → List CanonicalEventDraft
      → Result StorageError (List TekrionEvent)
  unfolding event_of
  events_from identifiers first_sequence index [] = ok []
  events_from identifiers first_sequence index (d ∷ ds) =
      throw_if (parent_too_late d.parent_draft_index index) out_of_range
      >> (events_from identifiers first_sequence (suc index) ds >>= λ events.
          ok (event_of identifiers first_sequence index d ∷ events))

  unfoldable pub materialize_canonical_events :
      List CanonicalEventDraft → Result StorageError (List TekrionEvent)
  unfolding identifiers_from events_from
  materialize_canonical_events drafts =
      let first_sequence = get_or_else options.first_sequence 1 in
      throw_if (ltb first_sequence 1) out_of_range
      >> events_from (identifiers_from 0 drafts) first_sequence 0 drafts
