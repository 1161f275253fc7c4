-- ===== src/Normalizers/Contracts.antt =====
-- packages/normalizers/src/contracts.ts, as values that the schemas have accepted. An event's summary is
-- a text that stands for its value, as in the protocol's records.
use tekrion.Prelude.{ℕ, Bool, List, Option, Text, Result}
use tekrion.Prelude.Maps.{StringMap}
use tekrion.Protocol.{
  TekrionEvent, EvidenceKind, EvidenceSource, Redaction, RawExchangeProtocol, RawExchangeOutcome,
  ExchangeCapture,
}
use tekrion.Storage.{StorageError}

pub record NormalizationExchange : Type 0 where
  pub id : Text
  pub session_id : Text
  pub raw_sequence : ℕ
  pub protocol : RawExchangeProtocol
  pub method : Text
  pub path : Text
  pub query : StringMap (List Text)
  pub request_headers : StringMap (List Text)
  pub request_body : Option (List ℕ)
  pub response_status : Option ℕ
  pub response_headers : Option (StringMap (List Text))
  pub response_body : Option (List ℕ)
  pub started_at : Text
  pub first_byte_at : Option Text
  pub ended_at : Option Text
  pub outcome : RawExchangeOutcome
  pub capture : ExchangeCapture

pub data DiagnosticKind : Type 0 where
  malformed_json malformed_sse incomplete_sse invalid_payload duplicate_replay duplicate_conflict
        unsupported_event capture_incomplete :
      DiagnosticKind

pub record ParserDiagnostic : Type 0 where
  pub kind : DiagnosticKind
  pub message : Text
  pub frame_index : Option ℕ
  pub event_type : Option Text
  pub fatal : Bool

pub data NormalizationStatus : Type 0 where
  parsed malformed unsupported skipped : NormalizationStatus

pub record NormalizationResult : Type 0 where
  pub parser_id : Text
  pub parser_version : Text
  pub status : NormalizationStatus
  pub events : List TekrionEvent
  pub diagnostics : List ParserDiagnostic

pub record CanonicalEventDraft : Type 0 where
  pub type : Text
  pub summary : Text
  pub evidence : Option EvidenceKind
  pub source : Option EvidenceSource
  pub correlation_id : Option Text
  pub parent_draft_index : Option ℕ
  pub occurred_at : Option Text
  pub duration_ms : Option Text
  pub redaction : Option Redaction

pub record NormalizationOptions : Type 0 where
  pub first_sequence : Option ℕ
  pub observed_at : Option Text
  pub max_decoded_response_body_bytes : Option ℕ
  pub event_id : Option (NormalizationExchange → ℕ → Text)
  pub known_response_ids : Option (List Text)

-- `ExchangeNormalizer`: a normalizer of one protocol.
pub record ExchangeNormalizer : Type 0 where
  pub id : Text
  pub version : Text
  pub supports : NormalizationExchange → Bool
  pub normalize :
      NormalizationExchange → NormalizationOptions → Result StorageError NormalizationResult
