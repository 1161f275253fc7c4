-- ===== src/Sessionizer/Tests.antt =====
-- The sessionizer at concrete inputs.
use tekrion.Prelude.{
  ◌≡◌, ◌≢◌, refl, ap, true, false, [], ◌∷◌, none, some, ok, err, arith, Text, codes, text_eq,
}
use tekrion.Prelude.Strings.{trim, trim_start}
use tekrion.Prelude.Maps.{get, set}
use tekrion.Sessionizer.Keys.{response_taken, parse_identifier, required_key, optional_identifier}
use tekrion.Sessionizer.{
  Sessionizer, SessionizationSignals, CreateSessionId, ancestry, adapter, heuristic, plain,
  default_session_id, register_response, resolve, resolve_analysis, resolve_explicit,
  resolve_adapter, resolve_ancestry, resolve_client, resolve_fingerprint, expire_heuristics,
  mapped_session, created_session, create,
}
use tekrion.Sessionizer.Histories.{
  resolves, registers, run, register_response-again, resolve_registered_ancestor, NamesAdapter,
  resolve_same_adapter,
}
use tekrion.Sessionizer.Decisions.{NamesClient, resolve-internal, resolve_same_client}

abbrev session_ids : CreateSessionId
session_ids = default_session_id (λ key. key)

abbrev fresh : Sessionizer
fresh = record {
  idle_window_milliseconds = 1000;
  adapter_sessions = [];
  analysis_sessions = [];
  response_sessions = [];
  heuristic_sessions = [];
}

created_window : create 1000 ≡ ok fresh
unfolding create
created_window = refl

abbrev no_signals : SessionizationSignals
no_signals = record {
  analysis_session_id = none;
  analysis_target_session_id = none;
  explicit_session_id = none;
  adapter_session_id = none;
  ancestor_response_ids = [];
  client_fingerprint = none;
  manual_session_id = none;
}

abbrev r1 : Text
r1 = codes "r1"

abbrev s1 : Text
s1 = codes "s1"

abbrev s2 : Text
s2 = codes "s2"

abbrev registered : Sessionizer
registered = record fresh { response_sessions = (r1, s1) ∷ [] }

abbrev of_adapter : SessionizationSignals
of_adapter = record no_signals { adapter_session_id = some r1 }

abbrev of_ancestor : SessionizationSignals
of_ancestor = record no_signals { ancestor_response_ids = codes " r1" ∷ s2 ∷ [] }

abbrev of_client : SessionizationSignals
of_client = record no_signals { client_fingerprint = some r1 }

s2_differs : s2 ≢ s1
unfolding text_eq
s2_differs e = apart (ap (text_eq s1) e)
  where
    apart : false ≡ true → ⊥
    apart h = cc

register_response-again_example :
    register_response r1 s2
      (run session_ids registered (resolves s1 of_adapter 5 ∷ registers r1 s2 ∷ []))
    ≡ (
      run session_ids registered (resolves s1 of_adapter 5 ∷ registers r1 s2 ∷ []),
      err response_taken,
    )
unfolding register_response required_key parse_identifier trim trim_start get set text_eq
register_response-again_example =
    register_response-again session_ids (codes " r1 ") s1 r1 s1 s2 s2 fresh registered
      (resolves s1 of_adapter 5 ∷ registers r1 s2 ∷ []) refl refl refl s2_differs refl

resolve_registered_ancestor_example :
    resolve session_ids s2 of_ancestor 9
      (run session_ids registered (resolves s1 of_adapter 5 ∷ []))
    ≡ (
      run session_ids registered (resolves s1 of_adapter 5 ∷ []),
      ok (record (plain s1 ancestry) { matched_ancestor_response_id = some r1 }),
    )
unfolding register_response required_key parse_identifier trim trim_start get set text_eq
resolve_registered_ancestor_example =
    resolve_registered_ancestor session_ids (codes " r1") s1 r1 s1 s2 fresh registered
      (resolves s1 of_adapter 5 ∷ []) of_ancestor 9 (s2 ∷ []) refl refl refl
      (record { no_analysis = refl; no_explicit = refl; no_adapter = refl }) refl

abbrev with_adapter : Sessionizer
with_adapter = record fresh { adapter_sessions = (r1, codes "session-adapter-r1") ∷ [] }

abbrev adapter_named : NamesAdapter of_adapter r1
adapter_named = record { no_analysis = refl; no_explicit = refl; names = refl }

resolve_same_adapter_example :
    resolve session_ids s2 of_adapter 9 (run session_ids with_adapter (registers r1 s1 ∷ [])) ≡ (
      run session_ids with_adapter (registers r1 s1 ∷ []),
      ok (plain (codes "session-adapter-r1") adapter),
    )
unfolding resolve resolve_analysis resolve_explicit resolve_adapter mapped_session created_session
    default_session_id required_key parse_identifier optional_identifier trim trim_start get set
    text_eq
resolve_same_adapter_example =
    resolve_same_adapter session_ids s1 s2 fresh with_adapter (registers r1 s1 ∷ []) of_adapter
      of_adapter 5 9 r1 r1 (plain (codes "session-adapter-r1") adapter) refl adapter_named
      adapter_named refl

resolve-internal_example : false ≡ false
unfolding resolve resolve_analysis resolve_explicit resolve_adapter mapped_session created_session
    default_session_id required_key parse_identifier optional_identifier trim trim_start get set
    text_eq
resolve-internal_example =
    resolve-internal session_ids s1 of_adapter 5 fresh with_adapter
      (plain (codes "session-adapter-r1") adapter) refl

abbrev with_client : Sessionizer
with_client = record fresh {
  heuristic_sessions =
      (r1, record { session_id = codes "session-heuristic-s1"; last_seen_at = 5 }) ∷ [];
}

abbrev client_named : NamesClient of_client r1
client_named = record {
  no_analysis = refl;
  no_explicit = refl;
  no_adapter = refl;
  no_ancestor = refl;
  names = refl;
}

resolve_same_client_example :
    (resolve session_ids s2 of_client 1005 with_client).1
    ≡ ok (plain (codes "session-heuristic-s1") heuristic)
unfolding resolve resolve_analysis resolve_explicit resolve_adapter resolve_ancestry resolve_client
    resolve_fingerprint expire_heuristics default_session_id required_key parse_identifier
    optional_identifier trim trim_start get set text_eq
resolve_same_client_example =
    resolve_same_client session_ids s1 s2 fresh with_client of_client of_client 5 1005 r1 r1
      (plain (codes "session-heuristic-s1") heuristic) refl client_named client_named (omega arith)
      refl
