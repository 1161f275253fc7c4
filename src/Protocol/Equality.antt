-- ===== src/Protocol/Equality.antt =====
-- `===` on the enumerations, and `isDeepStrictEqual` or equal JSON text on the records.
use tekrion.Prelude.{
  ◌≡◌, refl, Bool, true, false, ◌&&◌, List, [], ◌∷◌, Option, none, some, Text, text_eq, ◌==◌,
}
use tekrion.Prelude.Maps.{StringMap}
use tekrion.Protocol.{
  EvidenceKind, observed, derived, inferred, unknown, EvidenceSource, proxy, process, filesystem,
  adapter, analysis, CaptureLevel, api, wrapped_process, adapter_level, Codec, identity, gzip, zstd,
  BlobReference, Redaction, TekrionEvent, SessionStatus, active, imported_readonly,
  RawExchangeProtocol, openai_responses, openai_chat_completions, anthropic_messages,
  unknown_openai_compatible, RawExchangeParseStatus, pending,
}

unfoldable pub bool_eq : Bool → Bool → Bool
bool_eq true true = true
bool_eq false false = true
bool_eq _ _ = false

unfoldable pub kind_eq : EvidenceKind → EvidenceKind → Bool
kind_eq observed observed = true
kind_eq derived derived = true
kind_eq inferred inferred = true
kind_eq unknown unknown = true
kind_eq _ _ = false

unfoldable pub source_eq : EvidenceSource → EvidenceSource → Bool
source_eq proxy proxy = true
source_eq process process = true
source_eq filesystem filesystem = true
source_eq adapter adapter = true
source_eq analysis analysis = true
source_eq _ _ = false

unfoldable pub level_eq : CaptureLevel → CaptureLevel → Bool
level_eq api api = true
level_eq wrapped_process wrapped_process = true
level_eq adapter_level adapter_level = true
level_eq _ _ = false

unfoldable pub codec_eq : Codec → Codec → Bool
codec_eq identity identity = true
codec_eq gzip gzip = true
codec_eq zstd zstd = true
codec_eq _ _ = false

unfoldable pub protocol_eq : RawExchangeProtocol → RawExchangeProtocol → Bool
protocol_eq openai_responses openai_responses = true
protocol_eq openai_chat_completions openai_chat_completions = true
protocol_eq anthropic_messages anthropic_messages = true
protocol_eq unknown_openai_compatible unknown_openai_compatible = true
protocol_eq _ _ = false

unfoldable pub is_active : SessionStatus → Bool
is_active active = true
is_active _ = false

unfoldable pub is_imported : SessionStatus → Bool
is_imported imported_readonly = true
is_imported _ = false

unfoldable pub is_pending : RawExchangeParseStatus → Bool
is_pending pending = true
is_pending _ = false

module _ {A : Type 0} (eq : A → A → Bool) where
  unfoldable pub list_eq : List A → List A → Bool
  list_eq [] [] = true
  list_eq (x ∷ xs) (y ∷ ys) = eq x y && list_eq xs ys
  list_eq _ _ = false

  unfoldable pub option_eq : Option A → Option A → Bool
  option_eq none none = true
  option_eq (some a) (some b) = eq a b
  option_eq _ _ = false

  pub list_eq_refl : ((a : A) → eq a a ≡ true) → (xs : List A) → list_eq xs xs ≡ true
  unfolding list_eq
  list_eq_refl h [] = refl
  list_eq_refl h (x ∷ xs) = rw (h x, list_eq_refl h xs) refl

  pub option_eq_refl : ((a : A) → eq a a ≡ true) → (o : Option A) → option_eq o o ≡ true
  unfolding option_eq
  option_eq_refl h none = refl
  option_eq_refl h (some a) = h a

unfoldable pub text_lists_eq : StringMap (List Text) → StringMap (List Text) → Bool
unfolding list_eq text_eq
text_lists_eq = list_eq λ a b. text_eq a.0 b.0 && list_eq text_eq a.1 b.1

unfoldable pub blob_eq : BlobReference → BlobReference → Bool
unfolding codec_eq bool_eq
blob_eq a b =
    text_eq a.id b.id
    && text_eq a.sha256 b.sha256
    && codec_eq a.codec b.codec
    && text_eq a.media_type b.media_type
    && a.byte_length == b.byte_length
    && bool_eq a.truncated b.truncated

unfoldable pub redaction_eq : Redaction → Redaction → Bool
unfolding list_eq bool_eq text_eq
redaction_eq a b = bool_eq a.applied b.applied && list_eq text_eq a.rule_ids b.rule_ids

-- `isDeepStrictEqual` on two events, given what it is on values.
unfoldable pub event_eq : (Text → Text → Bool) → TekrionEvent → TekrionEvent → Bool
unfolding option_eq source_eq kind_eq blob_eq redaction_eq text_eq
event_eq same a b =
    text_eq a.id b.id
    && text_eq a.session_id b.session_id
    && option_eq text_eq a.parent_id b.parent_id
    && option_eq text_eq a.correlation_id b.correlation_id
    && a.sequence == b.sequence
    && text_eq a.occurred_at b.occurred_at
    && text_eq a.observed_at b.observed_at
    && option_eq same a.duration_ms b.duration_ms
    && source_eq a.source b.source
    && text_eq a.type b.type
    && kind_eq a.evidence b.evidence
    && option_eq blob_eq a.payload_ref b.payload_ref
    && same a.summary b.summary
    && redaction_eq a.redaction b.redaction
