-- ===== src/Sessionizer/Decisions.antt =====
-- Which decisions are of internal analyses, and how long a client's session goes on.
use tekrion.Prelude.{
  ℕ, ◌+◌, ◌≤◌, ◌≡◌, refl, sym, ap, subst, ◌∙◌, inl, inr, Bool, Option-cases, true, false, not, List,
  [], ◌∷◌, Option, none, some, Result, ok, err, arith, Text, ltb, is_some, keep,
}
use tekrion.Prelude.Maps.{StringMap, get, set, get-set_self}
use tekrion.Sessionizer.Keys.{
  SessionizationError, parse_identifier, required_key, optional_identifier,
}
use tekrion.Sessionizer.{
  Sessionizer, SessionizationSignals, SessionizationDecision, HeuristicSession, CreateSessionId, M,
  bind_step, ◌>>=◌, lift, plain, heuristic, heuristic_key, adapters, analyses, mapped_session,
  expire_heuristics, resolve_manual, resolve_fingerprint, resolve_client, resolve_ancestry,
  resolve_adapter, resolve_explicit, resolve_analysis, resolve,
}

-- Every value that the method returns satisfies the predicate.
abbrev Returns : {A : Type 0} → (A → Type 0) → Result SessionizationError A → Type 0
Returns P (ok a) = P a
Returns P (err e) = Unit

abbrev Says : {A : Type 0} → (A → Type 0) → M A → Type 0
Says P m = (s : Sessionizer) → Returns P (m s).1

Says-bind :
    {A B : Type 0} (P : B → Type 0) (m : M A) (f : A → M B)
    → ((a : A) → Says P (f a))
    → Says P (m >>= f)
Says-bind {A} P m f h s = after (m s)
  where
    after : (r : Sessionizer × Result SessionizationError A) → Returns P (bind_step r f).1
    after (t, ok a) = h a t
    after (t, err e) = tt

abbrev External : SessionizationDecision → Type 0
External d = d.internal_analysis ≡ false

module _ (create_session_id : CreateSessionId) (random : Text) (signals : SessionizationSignals)
    (observed_at : ℕ) where
  resolve_fingerprint-External :
      (fingerprint : Text)
      → Says External (resolve_fingerprint create_session_id random observed_at fingerprint)
  unfolding resolve_fingerprint
  resolve_fingerprint-External fingerprint s =
      elim (Option-cases (get fingerprint s.heuristic_sessions)) [
        | inl absent ↦
            rw (absent, resolve_fingerprint)
              (Says-bind External
                (lift (parse_identifier (create_session_id heuristic_key fingerprint random))) _
                (λ id t. refl) s)
        | inr (v, present) ↦ rw (present, resolve_fingerprint) refl
      ]

  resolve_client-External :
      (o : Option Text)
      → Says External (resolve_client create_session_id random signals observed_at o)
  unfolding resolve_client resolve_manual
  resolve_client-External none =
      Says-bind External (lift (optional_identifier signals.manual_session_id)) _ (λ id t. refl)
  resolve_client-External (some value) =
      Says-bind External (lift (required_key value)) _
        (λ f s. resolve_fingerprint-External f (expire_heuristics observed_at s))

  resolve_ancestry-External :
      (ids : List Text)
      → Says External (resolve_ancestry create_session_id random signals observed_at ids)
  unfolding resolve_ancestry
  resolve_ancestry-External [] = resolve_client-External signals.client_fingerprint
  resolve_ancestry-External (candidate ∷ more) =
      Says-bind External (lift (required_key candidate)) _ λ id s.
        elim (Option-cases (get id s.response_sessions)) [
          | inl absent ↦ rw absent (resolve_ancestry-External more s)
          | inr (v, present) ↦ rw present refl
        ]

  resolve_adapter-External :
      (o : Option Text)
      → Says External (resolve_adapter create_session_id random signals observed_at o)
  unfolding resolve_adapter
  resolve_adapter-External none = resolve_ancestry-External signals.ancestor_response_ids
  resolve_adapter-External (some value) = Says-bind External (lift (required_key value)) _ λ key.
      Says-bind External (mapped_session create_session_id random adapters key) _ (λ id s. refl)

  resolve_explicit-External :
      Says External (resolve_explicit create_session_id random signals observed_at)
  unfolding resolve_explicit
  resolve_explicit-External =
      Says-bind External (lift (optional_identifier signals.explicit_session_id)) _
        (elim [ none ↦ resolve_adapter-External signals.adapter_session_id | some id ↦ λ s. refl ])

  resolve_analysis-internal :
      (o : Option Text)
      → Says
          (λ d. d.internal_analysis ≡ is_some o)
          (resolve_analysis create_session_id random signals observed_at o)
  unfolding resolve_analysis
  resolve_analysis-internal none = resolve_explicit-External
  resolve_analysis-internal (some value) = Says-bind _ (lift (required_key value)) _ λ key.
      Says-bind _ (mapped_session create_session_id random analyses key) _ λ id.
        Says-bind _ (lift (optional_identifier signals.analysis_target_session_id)) _ (λ t s. refl)

  -- A decision is marked as an internal analysis exactly if the signals name an analysis session.
  pub resolve-internal :
      (s s' : Sessionizer) (d : SessionizationDecision)
      → resolve create_session_id random signals observed_at s ≡ (s', ok d)
      → d.internal_analysis ≡ is_some signals.analysis_session_id
  unfolding resolve
  resolve-internal s s' d e =
      returned
        (resolve_analysis create_session_id random signals observed_at signals.analysis_session_id
          s)
        e (resolve_analysis-internal signals.analysis_session_id s)
    where
      returned :
          (r : Sessionizer × Result SessionizationError SessionizationDecision)
          → r ≡ (s', ok d)
          → Returns (λ d. d.internal_analysis ≡ is_some signals.analysis_session_id) r.1
          → d.internal_analysis ≡ is_some signals.analysis_session_id
      returned (t, ok d') e h = ground arith
      returned (t, err x) e h = ground arith

get-keep :
    (q : HeuristicSession → Bool) (k : Text) (v : HeuristicSession) (m : StringMap HeuristicSession)
    → get k m ≡ some v
    → q v ≡ true
    → get k (keep (λ entry. q entry.1) m) ≡ some v
unfolding get
get-keep q k v [] e h = cc
get-keep q k v ((j, w) ∷ m) e h = ground (arith, get-keep q k v m)

-- Signals that name nothing but the client.
pub record NamesClient (signals : SessionizationSignals) (value : Text) : Type 0 where
  pub no_analysis : signals.analysis_session_id ≡ none
  pub no_explicit : signals.explicit_session_id ≡ none
  pub no_adapter : signals.adapter_session_id ≡ none
  pub no_ancestor : signals.ancestor_response_ids ≡ []
  pub names : signals.client_fingerprint ≡ some value

module _ (create_session_id : CreateSessionId) where
  resolve_by_client :
      (random : Text) (signals : SessionizationSignals) (observed_at : ℕ) (value key : Text)
      (s : Sessionizer)
      → NamesClient signals value
      → required_key value ≡ ok key
      → resolve create_session_id random signals observed_at s
        ≡ resolve_fingerprint create_session_id random observed_at key
            (expire_heuristics observed_at s)
  unfolding resolve resolve_analysis resolve_explicit resolve_adapter resolve_ancestry
      resolve_client optional_identifier
  resolve_by_client random signals observed_at value key s a k =
      rw (a.no_analysis, resolve_analysis)
        (rw (a.no_explicit, optional_identifier)
          (rw (a.no_adapter, resolve_adapter)
            (rw (a.no_ancestor, resolve_ancestry) (rw (a.names, resolve_client) (rw k refl)))))

  -- The entry that a decision by fingerprint leaves.
  record Seen (observed_at window : ℕ) (key : Text) (d : SessionizationDecision) (s' : Sessionizer)
      : Type 0 where
    entry :
        get key s'.heuristic_sessions
        ≡ some (record { session_id = d.session_id; last_seen_at = observed_at })
    same_window : s'.idle_window_milliseconds ≡ window
    shape : d ≡ plain d.session_id heuristic

  Seen-here :
      (observed_at : ℕ) (key id : Text) (s : Sessionizer)
      → Seen observed_at s.idle_window_milliseconds key (plain id heuristic) (record s {
        heuristic_sessions =
            set key (record { session_id = id; last_seen_at = observed_at }) s.heuristic_sessions;
      })
  Seen-here observed_at key id s = record {
    entry = get-set_self key _ s.heuristic_sessions;
    same_window = refl;
    shape = refl;
  }

  abbrev Found :
      ℕ → ℕ → Text → Sessionizer × Result SessionizationError SessionizationDecision → Type 0
  Found observed_at window key (s', ok d) = Seen observed_at window key d s'
  Found observed_at window key (s', err e) = Unit

  resolve_fingerprint-Found :
      (random : Text) (observed_at : ℕ) (key : Text) (s : Sessionizer)
      → Found observed_at s.idle_window_milliseconds key
          (resolve_fingerprint create_session_id random observed_at key s)
  unfolding resolve_fingerprint
  resolve_fingerprint-Found random observed_at key s =
      elim (Option-cases (get key s.heuristic_sessions)) [
        | inl absent ↦
            rw (absent, resolve_fingerprint)
              (created (parse_identifier (create_session_id heuristic_key key random)))
        | inr (v, present) ↦
            rw (present, resolve_fingerprint) (Seen-here observed_at key v.session_id s)
      ]
    where
      created :
          (r : Result SessionizationError Text)
          → Found observed_at s.idle_window_milliseconds key (
              bind_step {B = SessionizationDecision}
                (s, r)
                (λ id t. (
                  record t {
                    heuristic_sessions =
                        set key
                          (record { session_id = id; last_seen_at = observed_at })
                          t.heuristic_sessions;
                  },
                  ok (plain id heuristic),
                )))
      created (ok id) = Seen-here observed_at key id s
      created (err x) = tt

  resolve_fingerprint-known :
      (random : Text) (observed_at : ℕ) (key : Text) (s : Sessionizer) (v : HeuristicSession)
      → get key s.heuristic_sessions ≡ some v
      → (resolve_fingerprint create_session_id random observed_at key s).1
        ≡ ok (plain v.session_id heuristic)
  unfolding resolve_fingerprint
  resolve_fingerprint-known random observed_at key s v e = rw (e, resolve_fingerprint) refl

  -- Two exchanges in a row that name nothing but the same client, at most the idle window apart, are
  -- of the same session.
  pub resolve_same_client :
      (random random' : Text) (s s' : Sessionizer) (signals signals' : SessionizationSignals)
      (observed_at observed_at' : ℕ) (value key : Text) (d : SessionizationDecision)
      → required_key value ≡ ok key
      → NamesClient signals value
      → NamesClient signals' value
      → observed_at' ≤ observed_at + s.idle_window_milliseconds
      → resolve create_session_id random signals observed_at s ≡ (s', ok d)
      → (resolve create_session_id random' signals' observed_at' s').1 ≡ ok d
  unfolding expire_heuristics
  resolve_same_client random random' s s' signals signals' observed_at observed_at' value key d k a
        a' near e =
      let seen =
        subst (Found observed_at s.idle_window_milliseconds key)
          (sym (resolve_by_client random signals observed_at value key s a k) ∙ e)
          (resolve_fingerprint-Found random observed_at key (expire_heuristics observed_at s)) in
      let stays : get key (expire_heuristics observed_at' s').heuristic_sessions
          ≡ some (record { session_id = d.session_id; last_seen_at = observed_at }) =
        get-keep _ key _ s'.heuristic_sessions seen.entry (fresh (seen.same_window)) in
      ap (λ r. r.1) (resolve_by_client random' signals' observed_at' value key s' a' k)
      ∙ resolve_fingerprint-known random' observed_at' key (expire_heuristics observed_at' s') _
          stays
      ∙ ap ok (sym seen.shape)
    where
      fresh :
          s'.idle_window_milliseconds ≡ s.idle_window_milliseconds
          → not (ltb (observed_at + s'.idle_window_milliseconds) observed_at') ≡ true
      fresh w = ground arith
