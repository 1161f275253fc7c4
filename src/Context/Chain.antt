-- ===== src/Context/Chain.antt =====
-- A chain that is reported as reconstructed is a chain of what the source has.
use tekrion.Prelude.{
  ℕ, suc, ◌+◌, ◌≤◌, ◌<◌, ◌≡◌, refl, sym, ap, ◌∙◌, subst, inl, inr, Bool, Bool-cases, true, false,
  ◌||◌, not, List, [], ◌∷◌, ◌++◌, Option, none, some, Option-cases, Result, ok, err, find, leb,
  length, Text, arith, append-nil,
}
use tekrion.Protocol.{TekrionEvent}
use tekrion.Context.Source.{JsonReader, ContextEvidenceSource, ContextReconstructionError}
use tekrion.Context.Turns.{LoadedTurn, Previous, absent, given, previous_of, turn_of, load_turn}
use tekrion.Context.Ancestry.{
  ReconstructionState, incomplete, add_node, add_edge, mark_provider_managed, managed_when,
}
use tekrion.Context.Reconstructor.{is_model_request, Later, with_ancestor, is_limited, with_capture}

module _ {Json : Type 0} (json : JsonReader Json) (digest : Text → Text)
    (source : ContextEvidenceSource) (maximum_chain_depth : ℕ) where
  -- The turn is that of the response with the identifier, which comes before the child's request and
  -- was captured completely.
  pub record IsParent (child : LoadedTurn Json) (previous : Text) (ancestor : LoadedTurn Json)
      : Type 0 where
    pub response : TekrionEvent
    pub exchange_id : Text
    pub found : source.find_response_event child.exchange.session_id previous ≡ some response
    pub earlier : response.sequence < child.request_event.sequence
    pub origin : source.get_event_origin response.id ≡ some exchange_id
    pub request :
        find is_model_request (source.get_events_for_exchange exchange_id)
        ≡ some ancestor.request_event
    pub loaded : load_turn json source ancestor.request_event ≡ ok ancestor
    pub unlimited : is_limited ancestor.limitations ≡ false
    pub captured : ancestor.exchange.capture.response_complete ≡ true

  -- Each turn names the next as its previous response, and the last one names none.
  abbrev pub IsChain : LoadedTurn Json → List (LoadedTurn Json) → Type 0
  IsChain child [] = previous_of json child ≡ absent
  IsChain child (ancestor ∷ older) =
      ((previous : Text) × (previous_of json child ≡ given previous)
        × IsParent child previous ancestor)
      × IsChain ancestor older

  -- What the loop adds to the state.
  pub record Outcome (child : LoadedTurn Json) (depth : ℕ) (s s' : ReconstructionState Json)
      : Type 0 where
    pub older : List (LoadedTurn Json)
    pub added : s'.turns ≡ s.turns ++ older
    pub bounded : depth + length older ≤ maximum_chain_depth
    pub complete :
        s'.chain_incomplete ≡ false
        → s'.provider_managed ≡ false
        → (s.chain_incomplete ≡ false) × IsChain child older

  -- The loop ends without an ancestor.
  pub ends :
      (child : LoadedTurn Json) (depth : ℕ) (s s' : ReconstructionState Json)
      → depth ≤ maximum_chain_depth
      → s'.turns ≡ s.turns
      → ((s'.chain_incomplete ≡ false
          → s'.provider_managed ≡ false
          → (s.chain_incomplete ≡ false) × IsChain child []))
      → Outcome child depth s s'
  ends child depth s s' low same whole = record {
    older = [];
    added = same ∙ sym (append-nil s.turns);
    bounded = omega arith;
    complete = whole;
  }

  pub ok_injective :
      {a b : ReconstructionState Json}
      → ◌≡◌ {A = Result ContextReconstructionError (ReconstructionState Json)} (ok a) (ok b)
      → a ≡ b
  ok_injective h = ground arith

  pub not_true : ¬ (true ≡ false)
  not_true h = cc

  pub ends_incomplete :
      (child : LoadedTurn Json) (depth : ℕ) (text : Text) (s t s' : ReconstructionState Json)
      → depth ≤ maximum_chain_depth
      → t.turns ≡ s.turns
      → ◌≡◌ {A = Result ContextReconstructionError (ReconstructionState Json)}
          (ok (incomplete text t))
          (ok s')
      → Outcome child depth s s'
  unfolding incomplete
  ends_incomplete child depth text s t s' low same e =
      subst (λ x. Outcome child depth s x) (ok_injective e)
        (ends child depth s (incomplete text t) low same (λ inc managed. absurd (not_true inc)))

  managed_when-same :
      (b : Bool) (text : Text) (s : ReconstructionState Json)
      → ((managed_when b text s).turns ≡ s.turns)
        × ((managed_when b text s).chain_incomplete ≡ s.chain_incomplete)
        × ((managed_when b text s).chain_requested ≡ s.chain_requested)
  unfolding managed_when
  managed_when-same true text s = (refl, refl, refl)
  managed_when-same false text s = (refl, refl, refl)

  pub mark_provider_managed-same :
      (request : Option Json) (s : ReconstructionState Json)
      → ((mark_provider_managed json request s).turns ≡ s.turns)
        × ((mark_provider_managed json request s).chain_incomplete ≡ s.chain_incomplete)
        × ((mark_provider_managed json request s).chain_requested ≡ s.chain_requested)
  unfolding mark_provider_managed
  mark_provider_managed-same request s =
      let first = managed_when-same _ _ s in
      let second = managed_when-same _ _ _ in
      (second.0 ∙ first.0, second.1 ∙ first.1, second.2 ∙ first.2)

  pub with_ancestor-same :
      (ancestor : LoadedTurn Json) (node : Text) (s : ReconstructionState Json)
      → ((with_ancestor json digest source maximum_chain_depth ancestor node s).turns
          ≡ s.turns ++ ancestor ∷ [])
        × ((with_ancestor json digest source maximum_chain_depth ancestor node s).chain_incomplete
            ≡ s.chain_incomplete)
  unfolding with_ancestor add_edge add_node
  with_ancestor-same ancestor node s =
      let same = mark_provider_managed-same ancestor.request _ in (same.0, same.1)

  pub with_capture-same :
      (ancestor : LoadedTurn Json) (previous : Text) (s : ReconstructionState Json)
      → ((with_capture json digest source maximum_chain_depth ancestor previous s).turns ≡ s.turns)
        × ((with_capture json digest source maximum_chain_depth ancestor previous
                s).chain_incomplete
              ≡ false
            → (is_limited ancestor.limitations ≡ false)
              × (ancestor.exchange.capture.response_complete ≡ true)
              × (s.chain_incomplete ≡ false))
  unfolding with_capture
  with_capture-same ancestor previous s =
      elim (Bool-cases
        (is_limited ancestor.limitations || not ancestor.exchange.capture.response_complete)) [
          | inl short ↦ rw short (refl, λ inc. absurd (not_true inc))
          | inr full ↦ rw full (refl, λ inc. (ground arith, ground arith, inc))
        ]

  pub err_ok :
      {A : Type 0} {a : ContextReconstructionError} {b : A}
      → ¬ (◌≡◌ {A = Result ContextReconstructionError A} (err a) (ok b))
  err_ok h = cc

  turn_injective :
      {a b : LoadedTurn Json}
      → ◌≡◌ {A = Result ContextReconstructionError (LoadedTurn Json)} (ok a) (ok b)
      → a ≡ b
  turn_injective h = ground arith

  pub load_turn-event :
      (request : TekrionEvent) (ancestor : LoadedTurn Json)
      → load_turn json source request ≡ ok ancestor
      → ancestor.request_event ≡ request
  unfolding load_turn turn_of
  load_turn-event request ancestor e = elim (Option-cases (source.get_event_origin request.id)) [
    | inl lost ↦ absurd (err_ok (rw (lost, load_turn) at e))
    | inr (exchange_id, origin) ↦ elim (Option-cases (source.get_exchange exchange_id)) [
      | inl lost ↦ absurd (err_ok (rw lost at (rw (origin, load_turn) at e)))
      | inr (exchange, found) ↦
          ap (λ a. a.request_event)
            (sym (turn_injective (rw found at (rw (origin, load_turn) at e))))
    ]
  ]

  pub before : (m n : ℕ) → leb m n ≡ false → n < m
  before m n h = ground arith

  pub flags_from :
      (s : ReconstructionState Json) (ancestor : LoadedTurn Json) (t t' : ReconstructionState Json)
      → t.chain_incomplete ≡ s.chain_incomplete
      → t'.chain_incomplete ≡ t.chain_incomplete
      → (is_limited ancestor.limitations ≡ false)
        × (ancestor.exchange.capture.response_complete ≡ true)
        × (t'.chain_incomplete ≡ false)
      → (is_limited ancestor.limitations ≡ false)
        × (ancestor.exchange.capture.response_complete ≡ true)
        × (s.chain_incomplete ≡ false)
  flags_from s ancestor t t' first second (unlimited, captured, inc) =
      (unlimited, captured, sym first ∙ sym second ∙ inc)

  -- What `onward` needs of the ancestor's state `t`.
  pub record Extends (s t : ReconstructionState Json) (ancestor : LoadedTurn Json) : Type 0 where
    pub turns : t.turns ≡ s.turns ++ ancestor ∷ []
    pub flags :
        t.chain_incomplete ≡ false
        → (is_limited ancestor.limitations ≡ false)
          × (ancestor.exchange.capture.response_complete ≡ true)
          × (s.chain_incomplete ≡ false)

  abbrev pub as_previous : Option Text → Previous
  as_previous none = absent
  as_previous (some id) = given id

  -- The state of the call that the loop makes for an ancestor.
  abbrev pub Continues :
      Later json digest source maximum_chain_depth → ℕ → ReconstructionState Json → Type 0
  Continues later depth s' =
      (ancestor : LoadedTurn Json) (next : Option Text) (t : ReconstructionState Json)
      → as_previous next ≡ previous_of json ancestor
      → later ancestor next t ≡ ok s'
      → Outcome ancestor (suc depth) t s'
