-- ===== src/Sessionizer/Histories.antt =====
-- Any history of calls keeps the sessions of adapter keys and of responses.
use tekrion.Prelude.{
  ℕ, ◌≡◌, ◌≢◌, refl, sym, ap, ◌∙◌, inl, inr, Bool-cases, Option-cases, false, not, List, [], ◌∷◌,
  none, some, Result, ok, err, arith, Text, text_eq, text_eq_iff, if◌then◌else◌,
}
use tekrion.Prelude.Maps.{get, set, get-set_self}
use tekrion.Sessionizer.Keys.{
  SessionizationError, response_taken, parse_identifier, required_key, optional_identifier,
}
use tekrion.Sessionizer.{
  Sessionizer, SessionizationSignals, SessionizationDecision, CreateSessionId, bind_step, ◌>>=◌,
  return, plain, ancestry, adapter, adapters, with_session, source_of, created_session,
  mapped_session, resolve_ancestry, resolve_adapter, resolve_explicit, resolve_analysis, resolve,
  register_response, taken,
}
use tekrion.Sessionizer.Stability.{
  Grows, Grows-refl, Grows-trans, Keeps, Keeps-lift, set-Extends, resolve-Keeps,
}

-- A call of the daemon: to resolve signals at a time, with a random identifier, or to register a
-- response.
pub data Call : Type 0 where
  resolves : (random : Text) → SessionizationSignals → (observed_at : ℕ) → Call
  registers : (response_id session_id : Text) → Call

module _ (create_session_id : CreateSessionId) where
  pub step : Sessionizer → Call → Sessionizer
  step s (resolves random signals observed_at) =
      (resolve create_session_id random signals observed_at s).0
  step s (registers response_id session_id) = (register_response response_id session_id s).0

  pub run : Sessionizer → List Call → Sessionizer
  unfolding step
  run s [] = s
  run s (c ∷ cs) = run (step s c) cs

write_response-Grows :
    (key id : Text) (s : Sessionizer)
    → taken (get key s.response_sessions) id ≡ false
    → Grows s (record s { response_sessions = set key id s.response_sessions })
write_response-Grows key id s free = record {
  adapter_sessions = λ k v e. e;
  analysis_sessions = λ k v e. e;
  response_sessions = set-Extends key id s.response_sessions (λ v e. same v (rw e at free));
}
  where
    same : (v : Text) → not (text_eq v id) ≡ false → v ≡ id
    same v h = (text_eq_iff v id).0 (ground arith)

register_response-Keeps :
    (response_id session_id : Text) → Keeps (register_response response_id session_id)
unfolding register_response
register_response-Keeps response_id session_id = Keeps-lift (required_key response_id) _ λ key.
    Keeps-lift (parse_identifier session_id) _ λ id s.
      elim (Bool-cases (taken (get key s.response_sessions) id)) [
        | inl clash ↦ rw clash (Grows-refl s)
        | inr free ↦ rw free (write_response-Grows key id s free)
      ]

-- Signals that name neither an analysis nor a session nor an adapter's session.
pub record IsAnonymous (signals : SessionizationSignals) : Type 0 where
  pub no_analysis : signals.analysis_session_id ≡ none
  pub no_explicit : signals.explicit_session_id ≡ none
  pub no_adapter : signals.adapter_session_id ≡ none

-- Signals that name an adapter's session, and neither an analysis nor a session.
pub record NamesAdapter (signals : SessionizationSignals) (value : Text) : Type 0 where
  pub no_analysis : signals.analysis_session_id ≡ none
  pub no_explicit : signals.explicit_session_id ≡ none
  pub names : signals.adapter_session_id ≡ some value

module _ (create_session_id : CreateSessionId) where
  step-Grows : (s : Sessionizer) (c : Call) → Grows s (step create_session_id s c)
  unfolding step
  step-Grows s (resolves random signals observed_at) =
      resolve-Keeps create_session_id random signals observed_at s
  step-Grows s (registers response_id session_id) = register_response-Keeps response_id session_id s

  run-Grows : (s : Sessionizer) (cs : List Call) → Grows s (run create_session_id s cs)
  unfolding run
  run-Grows s [] = Grows-refl s
  run-Grows s (c ∷ cs) =
      Grows-trans s (step create_session_id s c) _ (step-Grows s c)
        (run-Grows (step create_session_id s c) cs)

  -- The state and the errors of a registration whose two arguments are valid.
  register_response-valid :
      (response_id session_id key id : Text) (s : Sessionizer)
      → required_key response_id ≡ ok key
      → parse_identifier session_id ≡ ok id
      → register_response response_id session_id s ≡ (
          if taken (get key s.response_sessions) id
          then (s, err response_taken)
          else (record s { response_sessions = set key id s.response_sessions }, ok tt))
  unfolding register_response
  register_response-valid response_id session_id key id s k i = rw (k, i) refl

  registered_entry :
      (response_id session_id key id : Text) (s s' : Sessionizer)
      → required_key response_id ≡ ok key
      → parse_identifier session_id ≡ ok id
      → register_response response_id session_id s ≡ (s', ok tt)
      → get key s'.response_sessions ≡ some id
  registered_entry response_id session_id key id s s' k i e =
      elim (Bool-cases (taken (get key s.response_sessions) id)) [
        | inl clash ↦ absurd (
            not_both
              (sym (rw (register_response-valid response_id session_id key id s k i, clash) at e)))
        | inr free ↦
            let written =
              rw (register_response-valid response_id session_id key id s k i, free) at e in
            sym (ap (λ r. get key r.0.response_sessions) written)
            ∙ get-set_self key id s.response_sessions
      ]
    where
      not_both :
          ◌≡◌ {A = Sessionizer × Result SessionizationError (Unit {0})}
            (s', ok tt)
            (s, err response_taken)
          → ⊥
      not_both h = differ (ap (λ r. r.1) h)
        where
          differ : ◌≡◌ {A = Result SessionizationError (Unit {0})} (ok tt) (err response_taken) → ⊥
          differ h = cc

  -- After a response was registered for a session, and any history of calls after that, registering
  -- it for another session throws and changes nothing.
  pub register_response-again :
      (response_id session_id key id other other_id : Text) (s s' : Sessionizer) (calls : List Call)
      → required_key response_id ≡ ok key
      → parse_identifier session_id ≡ ok id
      → parse_identifier other ≡ ok other_id
      → other_id ≢ id
      → register_response response_id session_id s ≡ (s', ok tt)
      → register_response response_id other (run create_session_id s' calls)
        ≡ (run create_session_id s' calls, err response_taken)
  register_response-again response_id session_id key id other other_id s s' calls k i o differ e =
      let t = run create_session_id s' calls in
      let entry =
        (run-Grows s' calls).response_sessions key id
          (registered_entry response_id session_id key id s s' k i e) in
      rw (register_response-valid response_id other key other_id t k o, entry, is_other) refl
    where
      is_other : text_eq id other_id ≡ false
      is_other = elim (Bool-cases (text_eq id other_id)) [
        | inl same ↦ absurd (differ (sym ((text_eq_iff id other_id).0 same)))
        | inr h ↦ h
      ]

  -- After a response was registered for a session, and any history of calls after that, an exchange
  -- whose first ancestor is the response, and which names no other session, is of that session.
  pub resolve_registered_ancestor :
      (response_id session_id key id random : Text) (s s' : Sessionizer) (calls : List Call)
      (signals : SessionizationSignals) (observed_at : ℕ) (more : List Text)
      → required_key response_id ≡ ok key
      → parse_identifier session_id ≡ ok id
      → register_response response_id session_id s ≡ (s', ok tt)
      → IsAnonymous signals
      → signals.ancestor_response_ids ≡ response_id ∷ more
      → resolve create_session_id random signals observed_at (run create_session_id s' calls) ≡ (
        run create_session_id s' calls,
        ok (record (plain id ancestry) { matched_ancestor_response_id = some key }),
      )
  unfolding resolve resolve_analysis resolve_explicit resolve_adapter resolve_ancestry
      optional_identifier
  resolve_registered_ancestor response_id session_id key id random s s' calls signals observed_at
        more k i e a h =
      let entry =
        (run-Grows s' calls).response_sessions key id
          (registered_entry response_id session_id key id s s' k i e) in
      rw (a.no_analysis, resolve_analysis)
        (rw (a.no_explicit, optional_identifier)
          (rw (a.no_adapter, resolve_adapter)
            (rw (h, resolve_ancestry) (rw (k) (rw (entry, bind_step) refl)))))

  resolve_by_adapter :
      (random : Text) (signals : SessionizationSignals) (observed_at : ℕ) (value key : Text)
      (s : Sessionizer)
      → NamesAdapter signals value
      → required_key value ≡ ok key
      → resolve create_session_id random signals observed_at s
        ≡ (mapped_session create_session_id random adapters key >>= λ id. return (plain id adapter))
            s
  unfolding resolve resolve_analysis resolve_explicit resolve_adapter optional_identifier
  resolve_by_adapter random signals observed_at value key s a k =
      rw (a.no_analysis, resolve_analysis)
        (rw (a.no_explicit, optional_identifier) (rw (a.names, resolve_adapter) (rw k refl)))

  mapped_session-known :
      (random key id : Text) (s : Sessionizer)
      → get key s.adapter_sessions ≡ some id
      → mapped_session create_session_id random adapters key s ≡ (s, ok id)
  unfolding mapped_session
  mapped_session-known random key id s e = rw (e, mapped_session) refl

  -- What `mapped_session` returns stands in the map.
  created_session-writes :
      (key id : Text) (s s' : Sessionizer) (r : Result SessionizationError Text)
      → bind_step {B = Text} (s, r) (λ created t. (with_session adapters key created t, ok created))
        ≡ (s', ok id)
      → get key s'.adapter_sessions ≡ some id
  created_session-writes key id s s' (ok created) e =
      let same_id : created ≡ id = ground arith in
      sym (ap (λ r. get key r.0.adapter_sessions) e)
      ∙ get-set_self key created s.adapter_sessions
      ∙ ap some same_id
  created_session-writes key id s s' (err x) e = ground arith

  mapped_session-writes :
      (random key id : Text) (s s' : Sessionizer)
      → mapped_session create_session_id random adapters key s ≡ (s', ok id)
      → get key s'.adapter_sessions ≡ some id
  unfolding mapped_session created_session
  mapped_session-writes random key id s s' e = elim (Option-cases (get key s.adapter_sessions)) [
    | inl absent ↦
        created_session-writes key id s s'
          (parse_identifier (create_session_id (source_of adapters) key random))
          (rw (absent, mapped_session) at e)
    | inr (v, present) ↦ ground arith
  ]

  adapter_decision :
      (s' : Sessionizer) (d : SessionizationDecision)
      (r : Sessionizer × Result SessionizationError Text)
      → bind_step r (λ id. return (plain id adapter)) ≡ (s', ok d)
      → (id : Text) × (r ≡ (s', ok id)) × (d ≡ plain id adapter)
  adapter_decision s' d (t, ok id') e = (id', ground arith, ground arith)
  adapter_decision s' d (t, err x) e = ground arith

  -- Two exchanges that name the same adapter's session, and nothing that comes before it, are of the
  -- same session, whatever calls lie between them.
  pub resolve_same_adapter :
      (random random' : Text) (s s' : Sessionizer) (calls : List Call)
      (signals signals' : SessionizationSignals) (observed_at observed_at' : ℕ) (value key : Text)
      (d : SessionizationDecision)
      → required_key value ≡ ok key
      → NamesAdapter signals value
      → NamesAdapter signals' value
      → resolve create_session_id random signals observed_at s ≡ (s', ok d)
      → resolve create_session_id random' signals' observed_at' (run create_session_id s' calls)
        ≡ (run create_session_id s' calls, ok d)
  resolve_same_adapter random random' s s' calls signals signals' observed_at observed_at' value key
        d k a a' e =
      let t = run create_session_id s' calls in
      let (id, found, shape) =
        adapter_decision s' d (mapped_session create_session_id random adapters key s)
          (sym (resolve_by_adapter random signals observed_at value key s a k) ∙ e) in
      let entry =
        (run-Grows s' calls).adapter_sessions key id
          (mapped_session-writes random key id s s' found) in
      resolve_by_adapter random' signals' observed_at' value key t a' k
      ∙ ap (λ r. bind_step r (λ id. return (plain id adapter)))
          (mapped_session-known random' key id t entry)
      ∙ ap (λ x. (t, ok x)) (sym shape)
