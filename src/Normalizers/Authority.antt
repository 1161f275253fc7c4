-- ===== src/Normalizers/Authority.antt =====
-- The first payload of an identity is the one that later ones are compared with.
use tekrion.Prelude.{
  ◌≡◌, refl, sym, Bool, ap, ◌∙◌, inl, inr, Bool-cases, Option-cases, true, false, List, [], ◌∷◌,
  Option, none, some, arith, if◌then◌else◌, Text, text_eq, text_eq_iff,
}
use tekrion.Prelude.Maps.{get, set, get-set, get-set_self}
use tekrion.Sse.Frame.{SseFrame}
use tekrion.Normalizers.Replay.{
  Payload, SseReplayDetector, accept, replay, conflict, compared, replay_identity, fingerprint_of,
  replay_diagnostic, observe_identity, observe,
}

pub record Observation : Type 0 where
  pub frame : SseFrame
  pub payload : Payload
  pub event_type : Option Text

abbrev pub observe_all : List Observation → SseReplayDetector → SseReplayDetector
observe_all [] seen = seen
observe_all (o ∷ os) seen = observe_all os (observe o.frame o.payload o.event_type seen).0

module _ (id : Text) (frame : SseFrame) (event_type : Option Text) (seen : SseReplayDetector) where
  observe_identity-new :
      get id seen ≡ none
      → observe_identity (some id) frame event_type seen
        ≡ (set id (fingerprint_of frame) seen, accept)
  unfolding observe_identity
  observe_identity-new new = rw (new, observe_identity) refl

  observe_identity-known :
      (previous : Text)
      → get id seen ≡ some previous
      → observe_identity (some id) frame event_type seen
        ≡ (seen, compared id previous frame event_type (text_eq previous (fingerprint_of frame)))
  unfolding observe_identity
  observe_identity-known previous known = rw (known, observe_identity) refl

  other_id : (k v : Text) → get id seen ≡ none → get k seen ≡ some v → text_eq id k ≡ false
  other_id k v new known = elim (Bool-cases (text_eq id k)) [
    | inl same ↦ let id_is : id ≡ k = (text_eq_iff id k).0 same in absurd (ground (arith, id_is))
    | inr other ↦ other
  ]

observe_identity-none :
    (frame : SseFrame) (event_type : Option Text) (seen : SseReplayDetector) (k v : Text)
    → get k seen ≡ some v
    → get k (observe_identity none frame event_type seen).0 ≡ some v
unfolding observe_identity
observe_identity-none frame event_type seen k v h = h

-- An identity that is accepted is stored with its fingerprint.
observe_identity-stored :
    (id : Text) (frame : SseFrame) (event_type : Option Text) (seen seen' : SseReplayDetector)
    → observe_identity (some id) frame event_type seen ≡ (seen', accept)
    → get id seen' ≡ some (fingerprint_of frame)
observe_identity-stored id frame event_type seen seen' e = elim (Option-cases (get id seen)) [
  | inl new ↦
      ap (get id)
        (sym (ap (λ p. p.0) (rw (observe_identity-new id frame event_type seen new) at e)))
      ∙ get-set_self id (fingerprint_of frame) seen
  | inr (previous, known) ↦ absurd (
      not_accepted id previous frame event_type (text_eq previous (fingerprint_of frame))
        (ap (λ p. p.1) (rw (observe_identity-known id frame event_type seen previous known) at e)))
]
  where
    not_accepted :
        (id previous : Text) (frame : SseFrame) (event_type : Option Text) (same : Bool)
        → ¬ (compared id previous frame event_type same ≡ accept)
    not_accepted id previous frame event_type true e = cc
    not_accepted id previous frame event_type false e = cc

observe_identity-keeps :
    (id : Option Text) (frame : SseFrame) (event_type : Option Text) (seen : SseReplayDetector)
    (k v : Text)
    → get k seen ≡ some v
    → get k (observe_identity id frame event_type seen).0 ≡ some v
observe_identity-keeps none frame event_type seen k v h =
    observe_identity-none frame event_type seen k v h
observe_identity-keeps (some id) frame event_type seen k v h = elim (Option-cases (get id seen)) [
  | inl new ↦
      rw
        (
          observe_identity-new id frame event_type seen new,
          get-set id k (fingerprint_of frame) seen,
          other_id id frame event_type seen k v new h,
        )
        h
  | inr (previous, known) ↦ rw (observe_identity-known id frame event_type seen previous known) h
]

observe_all-keeps :
    (os : List Observation) (seen : SseReplayDetector) (k v : Text)
    → get k seen ≡ some v
    → get k (observe_all os seen) ≡ some v
unfolding observe
observe_all-keeps [] seen k v h = h
observe_all-keeps (o ∷ os) seen k v h =
    observe_all-keeps os _ k v
      (observe_identity-keeps (replay_identity o.frame o.payload) o.frame o.event_type seen k v h)

-- If an observation with an identity was accepted, and then any others were made, an observation
-- with the same identity leaves the detector as it is: it is a replay if its fingerprint is that of
-- the accepted frame, and a conflict if not.
pub observe-first :
    (first again : Observation) (later : List Observation) (seen seen' : SseReplayDetector)
    (identity : Text)
    → replay_identity first.frame first.payload ≡ some identity
    → observe first.frame first.payload first.event_type seen ≡ (seen', accept)
    → replay_identity again.frame again.payload ≡ some identity
    → observe again.frame again.payload again.event_type (observe_all later seen') ≡ (
      observe_all later seen',
      if text_eq (fingerprint_of first.frame) (fingerprint_of again.frame)
          then replay (replay_diagnostic true identity again.frame again.event_type)
          else conflict (replay_diagnostic false identity again.frame again.event_type),
    )
unfolding observe
observe-first first again later seen seen' identity one accepted two =
    let stored =
      observe_identity-stored identity first.frame first.event_type seen seen'
        (rw one at accepted) in
    rw two (
      observe_identity-known identity again.frame again.event_type (observe_all later seen')
        (fingerprint_of first.frame)
        (observe_all-keeps later seen' identity (fingerprint_of first.frame) stored)
      ∙ ap (λ d. (observe_all later seen', d))
          (compared_as identity (fingerprint_of first.frame) again.frame again.event_type
            (text_eq (fingerprint_of first.frame) (fingerprint_of again.frame))))
  where
    compared_as :
        (id previous : Text) (frame : SseFrame) (event_type : Option Text) (same : Bool)
        → compared id previous frame event_type same ≡ (
            if same
            then replay (replay_diagnostic true id frame event_type)
            else conflict (replay_diagnostic false id frame event_type))
    compared_as id previous frame event_type true = refl
    compared_as id previous frame event_type false = refl
