-- ===== src/Protocol.antt =====
-- The records of packages/protocol/src (common.ts, event.ts, session.ts, raw-exchange.ts), as values
-- that their schemas have accepted. A number that no operation computes with, a value of the language that JSON
-- can write stands as a text, in which -0 is not 0, a timestamp as its text, and the field `schemaVersion`, which is always 1, is left out.
-- `Equality` compares them.
pub mod Equality
use tekrion.Prelude.{ℕ, Bool, List, Option, Text}
use tekrion.Prelude.Maps.{StringMap}

-- The values that stand as texts: what is left of one when its JSON is written and read, and whether
-- `isDeepStrictEqual` holds of two.
pub record JsonValues : Type 0 where
  pub round_trip : Text → Text
  pub same : Text → Text → Bool

pub data EvidenceKind : Type 0 where
  observed derived inferred unknown : EvidenceKind

pub data EvidenceSource : Type 0 where
  proxy process filesystem adapter analysis : EvidenceSource

pub data CaptureLevel : Type 0 where
  api wrapped_process adapter_level : CaptureLevel

pub data Codec : Type 0 where
  identity gzip zstd : Codec

pub record BlobReference : Type 0 where
  pub id : Text
  pub sha256 : Text
  pub codec : Codec
  pub media_type : Text
  pub byte_length : ℕ
  pub truncated : Bool

pub record Redaction : Type 0 where
  pub applied : Bool
  pub rule_ids : List Text

pub record TekrionEvent : Type 0 where
  pub id : Text
  pub session_id : Text
  pub parent_id : Option Text
  pub correlation_id : Option Text
  pub sequence : ℕ
  pub occurred_at : Text
  pub observed_at : Text
  pub duration_ms : Option Text
  pub source : EvidenceSource
  pub type : Text
  pub evidence : EvidenceKind
  pub payload_ref : Option BlobReference
  pub summary : Text
  pub redaction : Redaction

pub data SessionStatus : Type 0 where
  active completed crashed incomplete imported_readonly : SessionStatus

pub data SessionUpstreamRoute : Type 0 where
  direct codex_auth : SessionUpstreamRoute

pub record SessionCommand : Type 0 where
  pub executable : Text
  pub arguments : List Text
  pub cwd : Text

pub record SessionCounts : Type 0 where
  pub events : ℕ
  pub errors : ℕ
  pub input_tokens : Option ℕ
  pub output_tokens : Option ℕ

pub record Session : Type 0 where
  pub id : Text
  pub started_at : Text
  pub ended_at : Option Text
  pub status : SessionStatus
  pub capture_level : CaptureLevel
  pub command : Option SessionCommand
  pub repo_root : Option Text
  pub agent_name : Option Text
  pub models : List Text
  pub upstream_origin : Option Text
  pub upstream_route : Option SessionUpstreamRoute
  pub tags : List Text
  pub counts : SessionCounts
  pub metadata : Text

pub data RawExchangeProtocol : Type 0 where
  openai_responses openai_chat_completions anthropic_messages unknown_openai_compatible :
      RawExchangeProtocol

pub data RawExchangeOutcome : Type 0 where
  exchange_completed client_disconnected upstream_disconnected timeout upstream_error
        capture_incomplete :
      RawExchangeOutcome

pub data RawExchangeParseStatus : Type 0 where
  pending parsed unsupported malformed skipped : RawExchangeParseStatus

pub record ExchangeCapture : Type 0 where
  pub request_complete : Bool
  pub response_complete : Bool
  pub dropped_request_bytes : ℕ
  pub dropped_response_bytes : ℕ

pub record RawExchange : Type 0 where
  pub id : Text
  pub session_id : Text
  pub sequence : ℕ
  pub protocol : RawExchangeProtocol
  pub method : Text
  pub path : Text
  pub query : StringMap (List Text)
  pub request_headers : StringMap (List Text)
  pub request_body_ref : Option BlobReference
  pub response_status : Option ℕ
  pub response_headers : Option (StringMap (List Text))
  pub response_body_ref : Option BlobReference
  pub stream_manifest_ref : Option BlobReference
  pub started_at : Text
  pub first_byte_at : Option Text
  pub ended_at : Option Text
  pub outcome : RawExchangeOutcome
  pub parse_status : RawExchangeParseStatus
  pub capture : ExchangeCapture
