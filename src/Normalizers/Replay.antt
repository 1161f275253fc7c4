-- ===== src/Normalizers/Replay.antt =====
-- packages/normalizers/src/duplicates.ts: `SseReplayDetector`. A payload's fields are given as they are
-- read: a field that is missing or of another kind is `none`. What an observation says is its kind
-- and diagnostic.
use tekrion.Prelude.{
  ℕ, Bool, not, [], ◌∷◌, ◌++◌, Option, none, some, leb, if◌then◌else◌, length, take, Text, codes,
  text_eq, get_or_else,
}
use tekrion.Prelude.Maps.{StringMap, get, set}
use tekrion.Prelude.Numerals.{numeral}
use tekrion.Sse.Frame.{SseFrame}
use tekrion.Normalizers.Contracts.{ParserDiagnostic, duplicate_replay, duplicate_conflict}

-- The fields of a payload that `replayIdentity` reads: a string, and a non-negative integer.
pub record Payload : Type 0 where
  pub event_id : Option Text
  pub sequence_number : Option ℕ

pub data SseReplayDisposition : Type 0 where
  accept : SseReplayDisposition
  replay conflict : ParserDiagnostic → SseReplayDisposition

abbrev pub non_empty : Option Text → Option Text
non_empty none = none
non_empty (some []) = none
non_empty (some (c ∷ s)) = some (c ∷ s)

unfoldable pub sequence_identity : Option ℕ → Option Text
unfolding numeral
sequence_identity none = none
sequence_identity (some n) = some (codes "sequence-number:" ++ numeral n)

unfoldable pub payload_identity : Option Text → Option ℕ → Option Text
unfolding sequence_identity
payload_identity (some id) n = some (codes "event-id:" ++ id)
payload_identity none n = sequence_identity n

abbrev identity_from : Option Text → Payload → Option Text
unfolding payload_identity
identity_from (some id) payload = some (codes "sse-id:" ++ id)
identity_from none payload = payload_identity (non_empty payload.event_id) payload.sequence_number

unfoldable pub replay_identity : SseFrame → Payload → Option Text
unfolding identity_from payload_identity
replay_identity frame payload = identity_from (non_empty frame.id) payload

unfoldable pub display_identity : Text → Text
display_identity identity =
    if leb (length identity) 256 then identity else take 253 identity ++ codes "..."

unfoldable pub fingerprint_of : SseFrame → Text
fingerprint_of frame = get_or_else frame.event [] ++ 0 ∷ get_or_else frame.data_text []

unfoldable pub replay_diagnostic : Bool → Text → SseFrame → Option Text → ParserDiagnostic
unfolding display_identity
replay_diagnostic is_replay identity frame event_type = record {
  kind = if is_replay then duplicate_replay else duplicate_conflict;
  message =
      if is_replay
      then codes "Ignored replayed SSE payload with identity "
        ++ display_identity identity
        ++ codes "."
      else codes "Ignored conflicting SSE payload with identity "
        ++ display_identity identity
        ++ codes "; the first payload remains authoritative.";
  frame_index = some frame.index;
  event_type = event_type;
  fatal = not is_replay;
}

-- The map of `seen`.
abbrev pub SseReplayDetector : Type 0
SseReplayDetector = StringMap Text

abbrev pub compared : Text → Text → SseFrame → Option Text → Bool → SseReplayDisposition
compared identity fingerprint frame event_type is_replay =
    if is_replay
    then replay (replay_diagnostic is_replay identity frame event_type)
    else conflict (replay_diagnostic is_replay identity frame event_type)

unfoldable pub observe_identity :
    Option Text
    → SseFrame
    → Option Text
    → SseReplayDetector
    → SseReplayDetector × SseReplayDisposition
unfolding fingerprint_of replay_diagnostic
observe_identity none frame event_type seen = (seen, accept)
observe_identity (some identity) frame event_type seen = elim (get identity seen) [
  | none ↦ (set identity (fingerprint_of frame) seen, accept)
  | some previous ↦
      (seen, compared identity previous frame event_type (text_eq previous (fingerprint_of frame)))
]

unfoldable pub observe :
    SseFrame → Payload → Option Text → SseReplayDetector → SseReplayDetector × SseReplayDisposition
unfolding replay_identity observe_identity
observe frame payload event_type seen =
    observe_identity (replay_identity frame payload) frame event_type seen
