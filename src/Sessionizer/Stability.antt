-- ===== src/Sessionizer/Stability.antt =====
-- What the sessionizer has once decided stays decided.
use tekrion.Prelude.{
  ℕ, ◌≡◌, refl, sym, ap, inl, inr, Bool-cases, Option-cases, List, [], ◌∷◌, Option, none, some,
  Result, ok, err, Text, text_eq, text_eq_iff,
}
use tekrion.Prelude.Maps.{StringMap, get, set, get-set}
use tekrion.Sessionizer.Keys.{
  SessionizationError, parse_identifier, optional_identifier, required_key,
}
use tekrion.Sessionizer.{
  Sessionizer, SessionizationSignals, CreateSessionId, M, bind_step, ◌>>=◌, lift, MapName, adapters,
  analyses, sessions_of, with_session, source_of, expire_heuristics, created_session,
  mapped_session, resolve_manual, resolve_fingerprint, resolve_client, resolve_ancestry,
  resolve_adapter, resolve_explicit, resolve_analysis, resolve,
}

-- Every entry of the first map is an entry of the second.
abbrev pub Extends : StringMap Text → StringMap Text → Type 0
Extends m m' = (k v : Text) → get k m ≡ some v → get k m' ≡ some v

pub record Grows (s s' : Sessionizer) : Type 0 where
  pub adapter_sessions : Extends s.adapter_sessions s'.adapter_sessions
  pub analysis_sessions : Extends s.analysis_sessions s'.analysis_sessions
  pub response_sessions : Extends s.response_sessions s'.response_sessions

pub Grows-refl : (s : Sessionizer) → Grows s s
Grows-refl s = record {
  adapter_sessions = λ k v e. e;
  analysis_sessions = λ k v e. e;
  response_sessions = λ k v e. e;
}

pub Grows-trans : (s t u : Sessionizer) → Grows s t → Grows t u → Grows s u
Grows-trans s t u g h = record {
  adapter_sessions = λ k v e. h.adapter_sessions k v (g.adapter_sessions k v e);
  analysis_sessions = λ k v e. h.analysis_sessions k v (g.analysis_sessions k v e);
  response_sessions = λ k v e. h.response_sessions k v (g.response_sessions k v e);
}

-- The method keeps what was decided, whether it returns or throws.
abbrev pub Keeps : {A : Type 0} → M A → Type 0
Keeps m = (s : Sessionizer) → Grows s (m s).0

Keeps-bind :
    {A B : Type 0} (m : M A) (f : A → M B) → Keeps m → ((a : A) → Keeps (f a)) → Keeps (m >>= f)
Keeps-bind {A} {B} m f h k s = after (m s) (h s)
  where
    after :
        (r : Sessionizer × Result SessionizationError A)
        → Grows s r.0
        → Grows s (bind_step {B = B} r f).0
    after (t, ok a) g = Grows-trans s t (f a t).0 g (k a t)
    after (t, err e) g = g

pub Keeps-lift :
    {A B : Type 0} (r : Result SessionizationError A) (f : A → M B)
    → ((a : A) → Keeps (f a))
    → Keeps (lift r >>= f)
Keeps-lift (ok a) f h s = h a s
Keeps-lift (err e) f h s = Grows-refl s

-- Writing a key that the map lacks, or has with the same value, loses no entry.
pub set-Extends :
    (key id : Text) (m : StringMap Text)
    → ((v : Text) → get key m ≡ some v → v ≡ id)
    → Extends m (set key id m)
set-Extends key id m fits k v e = elim (Bool-cases (text_eq key k)) [
  | inl same ↦
      let here : key ≡ k = (text_eq_iff key k).0 same in
      rw (get-set, same) (ap some (sym (fits v (rw here e))))
  | inr other ↦ rw (get-set, other) e
]

with_session-Grows :
    (m : MapName) (key id : Text) (s : Sessionizer)
    → get key (sessions_of m s) ≡ none
    → Grows s (with_session m key id s)
with_session-Grows adapters key id s e = record {
  adapter_sessions = set-Extends key id s.adapter_sessions (λ v h. cc);
  analysis_sessions = λ k v h. h;
  response_sessions = λ k v h. h;
}
with_session-Grows analyses key id s e = record {
  adapter_sessions = λ k v h. h;
  analysis_sessions = set-Extends key id s.analysis_sessions (λ v h. cc);
  response_sessions = λ k v h. h;
}

same_maps :
    (s t : Sessionizer)
    → t.adapter_sessions ≡ s.adapter_sessions
    → t.analysis_sessions ≡ s.analysis_sessions
    → t.response_sessions ≡ s.response_sessions
    → Grows s t
same_maps s t p q r = record {
  adapter_sessions = λ k v e. rw p e;
  analysis_sessions = λ k v e. rw q e;
  response_sessions = λ k v e. rw r e;
}

expire_heuristics-Grows :
    (observed_at : ℕ) (s : Sessionizer) → Grows s (expire_heuristics observed_at s)
unfolding expire_heuristics
expire_heuristics-Grows observed_at s = same_maps s (expire_heuristics observed_at s) refl refl refl

module _ (create_session_id : CreateSessionId) (random : Text) where
  created_session-Grows :
      (m : MapName) (key : Text) (s : Sessionizer)
      → get key (sessions_of m s) ≡ none
      → Grows s (created_session create_session_id random m key s).0
  unfolding created_session
  created_session-Grows m key s e =
      after (parse_identifier (create_session_id (source_of m) key random))
    where
      after :
          (r : Result SessionizationError Text)
          → Grows s (bind_step {B = Text} (s, r) (λ id t. (with_session m key id t, ok id))).0
      after (ok id) = with_session-Grows m key id s e
      after (err x) = Grows-refl s

  mapped_session-Keeps :
      (m : MapName) (key : Text) → Keeps (mapped_session create_session_id random m key)
  unfolding mapped_session
  mapped_session-Keeps m key s = elim (Option-cases (get key (sessions_of m s))) [
    | inl absent ↦ rw (absent, mapped_session) (created_session-Grows m key s absent)
    | inr (v, present) ↦ rw (present, mapped_session) (Grows-refl s)
  ]

  resolve_manual-Keeps :
      (signals : SessionizationSignals) → Keeps (resolve_manual create_session_id random signals)
  unfolding resolve_manual
  resolve_manual-Keeps signals =
      Keeps-lift (optional_identifier signals.manual_session_id) _ (λ id s. Grows-refl s)

  resolve_fingerprint-Keeps :
      (observed_at : ℕ) (fingerprint : Text)
      → Keeps (resolve_fingerprint create_session_id random observed_at fingerprint)
  unfolding resolve_fingerprint
  resolve_fingerprint-Keeps observed_at fingerprint s =
      elim (Option-cases (get fingerprint s.heuristic_sessions)) [
        | inl absent ↦
            rw (absent, resolve_fingerprint)
              (Keeps-lift (parse_identifier (create_session_id _ fingerprint random)) _
                (λ id t. same_maps t _ refl refl refl) s)
        | inr (v, present) ↦ rw (present, resolve_fingerprint) (same_maps s _ refl refl refl)
      ]

  resolve_client-Keeps :
      (signals : SessionizationSignals) (observed_at : ℕ) (o : Option Text)
      → Keeps (resolve_client create_session_id random signals observed_at o)
  unfolding resolve_client
  resolve_client-Keeps signals observed_at none = resolve_manual-Keeps signals
  resolve_client-Keeps signals observed_at (some value) = Keeps-lift (required_key value) _ λ f s.
      Grows-trans s (expire_heuristics observed_at s) _ (expire_heuristics-Grows observed_at s)
        (resolve_fingerprint-Keeps observed_at f (expire_heuristics observed_at s))

  resolve_ancestry-Keeps :
      (signals : SessionizationSignals) (observed_at : ℕ) (ids : List Text)
      → Keeps (resolve_ancestry create_session_id random signals observed_at ids)
  unfolding resolve_ancestry
  resolve_ancestry-Keeps signals observed_at [] =
      resolve_client-Keeps signals observed_at signals.client_fingerprint
  resolve_ancestry-Keeps signals observed_at (candidate ∷ more) =
      Keeps-lift (required_key candidate) _ λ id s.
        elim (Option-cases (get id s.response_sessions)) [
          | inl absent ↦ rw (absent) (resolve_ancestry-Keeps signals observed_at more s)
          | inr (v, present) ↦ rw (present) (Grows-refl s)
        ]

  resolve_adapter-Keeps :
      (signals : SessionizationSignals) (observed_at : ℕ) (o : Option Text)
      → Keeps (resolve_adapter create_session_id random signals observed_at o)
  unfolding resolve_adapter
  resolve_adapter-Keeps signals observed_at none =
      resolve_ancestry-Keeps signals observed_at signals.ancestor_response_ids
  resolve_adapter-Keeps signals observed_at (some value) = Keeps-lift (required_key value) _ λ key.
      Keeps-bind (mapped_session create_session_id random adapters key) _
        (mapped_session-Keeps adapters key) (λ id s. Grows-refl s)

  resolve_explicit-Keeps :
      (signals : SessionizationSignals) (observed_at : ℕ)
      → Keeps (resolve_explicit create_session_id random signals observed_at)
  unfolding resolve_explicit
  resolve_explicit-Keeps signals observed_at =
      Keeps-lift (optional_identifier signals.explicit_session_id) _ (elim [
        | none ↦ resolve_adapter-Keeps signals observed_at signals.adapter_session_id
        | some id ↦ Grows-refl
      ])

  resolve_analysis-Keeps :
      (signals : SessionizationSignals) (observed_at : ℕ) (o : Option Text)
      → Keeps (resolve_analysis create_session_id random signals observed_at o)
  unfolding resolve_analysis
  resolve_analysis-Keeps signals observed_at none = resolve_explicit-Keeps signals observed_at
  resolve_analysis-Keeps signals observed_at (some value) = Keeps-lift (required_key value) _ λ key.
      Keeps-bind (mapped_session create_session_id random analyses key) _
        (mapped_session-Keeps analyses key)
        (λ id.
          Keeps-lift (optional_identifier signals.analysis_target_session_id) _
            (λ t s. Grows-refl s))

  pub resolve-Keeps :
      (signals : SessionizationSignals) (observed_at : ℕ)
      → Keeps (resolve create_session_id random signals observed_at)
  unfolding resolve
  resolve-Keeps signals observed_at =
      resolve_analysis-Keeps signals observed_at signals.analysis_session_id
