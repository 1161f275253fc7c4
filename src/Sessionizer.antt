-- ===== src/Sessionizer.antt =====
-- apps/daemon/src/sessionization/sessionizer.ts: to which session an exchange belongs. A method is a
-- function from the state to the state and a result: what it wrote before it threw stays written.
-- Times are milliseconds, all finite. The random identifier that a call may draw is an argument of
-- the call, and so are the digest and the `createSessionId` option.
pub mod Keys
pub mod Stability
pub mod Histories
pub mod Decisions
mod Tests
use tekrion.Prelude.{
  ℕ, ◌+◌, ◌*◌, Bool, true, false, ◌||◌, not, List, [], ◌∷◌, ◌++◌, map, Option, none, some, Result,
  ok, err, ltb, leb, if◌then◌else◌, keep, Text, text_eq, codes, throw_if, ◌>>◌,
}
use tekrion.Prelude.Maps.{StringMap, get, set}
use Keys.{
  SessionizationError, idle_window_out_of_range, response_taken, parse_identifier,
  optional_identifier, required_key,
}

pub data SessionizationSource : Type 0 where
  analysis explicit adapter ancestry heuristic manual : SessionizationSource

pub record SessionizationSignals : Type 0 where
  pub analysis_session_id : Option Text
  pub analysis_target_session_id : Option Text
  pub explicit_session_id : Option Text
  pub adapter_session_id : Option Text
  pub ancestor_response_ids : List Text
  pub client_fingerprint : Option Text
  pub manual_session_id : Option Text

pub record SessionizationDecision : Type 0 where
  pub session_id : Text
  pub source : SessionizationSource
  pub internal_analysis : Bool
  pub analysis_target_session_id : Option Text
  pub matched_ancestor_response_id : Option Text

pub record HeuristicSession : Type 0 where
  pub session_id : Text
  pub last_seen_at : ℕ

-- The sources for which a session is created from a key.
pub data KeySource : Type 0 where
  analysis_key adapter_key heuristic_key : KeySource

-- `createSessionId`: the source, the key and the random identifier at hand.
abbrev pub CreateSessionId : Type 0
CreateSessionId = KeySource → Text → Text → Text

-- The default for `createSessionId`.
unfoldable pub default_session_id : (Text → Text) → CreateSessionId
default_session_id digest heuristic_key key random = codes "session-heuristic-" ++ random
default_session_id digest analysis_key key random = codes "session-analysis-" ++ digest key
default_session_id digest adapter_key key random = codes "session-adapter-" ++ digest key

pub record Sessionizer : Type 0 where
  pub idle_window_milliseconds : ℕ
  pub adapter_sessions : StringMap Text
  pub analysis_sessions : StringMap Text
  pub response_sessions : StringMap Text
  pub heuristic_sessions : StringMap HeuristicSession

unfoldable pub create : ℕ → Result SessionizationError Sessionizer
create window =
    throw_if (ltb window 1 || ltb (24 * 60 * 60000) window) idle_window_out_of_range
    >> ok (record {
      idle_window_milliseconds = window;
      adapter_sessions = [];
      analysis_sessions = [];
      response_sessions = [];
      heuristic_sessions = [];
    })

abbrev pub M : Type 0 → Type 0
M A = Sessionizer → Sessionizer × Result SessionizationError A

abbrev pub bind_step :
    {A B : Type 0}
    → Sessionizer × Result SessionizationError A
    → (A → M B)
    → Sessionizer × Result SessionizationError B
bind_step (s, ok a) f = f a s
bind_step (s, err e) f = (s, err e)

infixl 5 ◌>>=◌
abbrev pub ◌>>=◌ : {A B : Type 0} → M A → (A → M B) → M B
◌>>=◌ m f s = bind_step (m s) f

abbrev pub lift : {A : Type 0} → Result SessionizationError A → M A
lift r s = (s, r)

abbrev pub return : {A : Type 0} → A → M A
return a s = (s, ok a)

abbrev pub plain : Text → SessionizationSource → SessionizationDecision
plain session_id source = record {
  session_id = session_id;
  source = source;
  internal_analysis = false;
  analysis_target_session_id = none;
  matched_ancestor_response_id = none;
}

-- Which of the two maps `mappedSession` works on.
pub data MapName : Type 0 where
  adapters analyses : MapName

abbrev pub sessions_of : MapName → Sessionizer → StringMap Text
sessions_of adapters s = s.adapter_sessions
sessions_of analyses s = s.analysis_sessions

abbrev pub with_session : MapName → Text → Text → Sessionizer → Sessionizer
with_session adapters key id s = record s { adapter_sessions = set key id s.adapter_sessions }
with_session analyses key id s = record s { analysis_sessions = set key id s.analysis_sessions }

abbrev pub source_of : MapName → KeySource
source_of adapters = adapter_key
source_of analyses = analysis_key

-- `for (const [key, session] of heuristicSessions) if (…) delete`.
unfoldable pub expire_heuristics : ℕ → Sessionizer → Sessionizer
expire_heuristics observed_at s = record s {
  heuristic_sessions =
      keep (λ entry. not (ltb (entry.1.last_seen_at + s.idle_window_milliseconds) observed_at))
        s.heuristic_sessions;
}

module _ (create_session_id : CreateSessionId) (random : Text) where
  -- A session that the map lacks is created.
  unfoldable pub created_session : MapName → Text → M Text
  created_session m key = do
    created ← lift (parse_identifier (create_session_id (source_of m) key random))
    λ s. (with_session m key created s, ok created)

  unfoldable pub mapped_session : MapName → Text → M Text
  unfolding created_session
  mapped_session m key s = elim (get key (sessions_of m s)) [
    | some existing ↦ (s, ok existing)
    | none ↦ created_session m key s
  ]

  unfoldable pub resolve_manual : SessionizationSignals → M SessionizationDecision
  resolve_manual signals = do
    id ← lift (optional_identifier signals.manual_session_id)
    return
        (plain (elim id [ some chosen ↦ chosen | none ↦ codes "session-manual-" ++ random ]) manual)

  -- The session of a fingerprint that is still known, seen now; or a new one.
  unfoldable pub resolve_fingerprint : ℕ → Text → M SessionizationDecision
  resolve_fingerprint observed_at fingerprint s = elim (get fingerprint s.heuristic_sessions) [
    | some existing ↦ (
      record s {
        heuristic_sessions =
            set fingerprint (record existing { last_seen_at = observed_at }) s.heuristic_sessions;
      },
      ok (plain existing.session_id heuristic),
    )
    | none ↦
        (lift (parse_identifier (create_session_id heuristic_key fingerprint random)) >>= λ id t. (
          record t {
            heuristic_sessions =
                set fingerprint (record { session_id = id; last_seen_at = observed_at })
                  t.heuristic_sessions;
          },
          ok (plain id heuristic),
        ))
          s
  ]

  unfoldable pub resolve_client : SessionizationSignals → ℕ → Option Text → M SessionizationDecision
  unfolding resolve_manual resolve_fingerprint
  resolve_client signals observed_at none = resolve_manual signals
  resolve_client signals observed_at (some value) = do
    fingerprint ← lift (required_key value)
    λ s. resolve_fingerprint observed_at fingerprint (expire_heuristics observed_at s)

  -- The loop over the ancestors.
  unfoldable pub resolve_ancestry : SessionizationSignals → ℕ → List Text → M SessionizationDecision
  unfolding resolve_client
  resolve_ancestry signals observed_at [] =
      resolve_client signals observed_at signals.client_fingerprint
  resolve_ancestry signals observed_at (candidate ∷ more) =
      lift (required_key candidate) >>= λ response_id s.
      elim (get response_id s.response_sessions) [
        | some session_id ↦ (
          s,
          ok (record (plain session_id ancestry) {
            matched_ancestor_response_id = some response_id;
          }),
        )
        | none ↦ resolve_ancestry signals observed_at more s
      ]

  unfoldable pub resolve_adapter :
      SessionizationSignals → ℕ → Option Text → M SessionizationDecision
  unfolding mapped_session resolve_ancestry
  resolve_adapter signals observed_at none =
      resolve_ancestry signals observed_at signals.ancestor_response_ids
  resolve_adapter signals observed_at (some value) = do
    key ← lift (required_key value)
    id ← mapped_session adapters key
    return (plain id adapter)

  unfoldable pub resolve_explicit : SessionizationSignals → ℕ → M SessionizationDecision
  unfolding resolve_adapter
  resolve_explicit signals observed_at =
      lift (optional_identifier signals.explicit_session_id) >>= elim [
        | some id ↦ return (plain id explicit)
        | none ↦ resolve_adapter signals observed_at signals.adapter_session_id
      ]

  unfoldable pub resolve_analysis :
      SessionizationSignals → ℕ → Option Text → M SessionizationDecision
  unfolding resolve_explicit
  resolve_analysis signals observed_at none = resolve_explicit signals observed_at
  resolve_analysis signals observed_at (some value) = do
    key ← lift (required_key value)
    id ← mapped_session analyses key
    target ← lift (optional_identifier signals.analysis_target_session_id)
    return (record (plain id analysis) {
      internal_analysis = true;
      analysis_target_session_id = target;
    })

  unfoldable pub resolve : SessionizationSignals → ℕ → M SessionizationDecision
  unfolding resolve_analysis
  resolve signals observed_at = resolve_analysis signals observed_at signals.analysis_session_id

abbrev pub taken : Option Text → Text → Bool
taken none id = false
taken (some existing) id = not (text_eq existing id)

unfoldable pub register_response : Text → Text → M (Unit {0})
register_response response_id session_id = do
  key ← lift (required_key response_id)
  id ← lift (parse_identifier session_id)
  λ s.
      if taken (get key s.response_sessions) id
      then (s, err response_taken)
      else (record s { response_sessions = set key id s.response_sessions }, ok tt)

unfoldable pub known_response_ids : Sessionizer → List Text
known_response_ids s = map (λ entry. entry.0) s.response_sessions
