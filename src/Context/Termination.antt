-- ===== src/Context/Termination.antt =====
-- The loop ends before its fuel does.
use tekrion.Prelude.{
  ℕ, zero, suc, ◌+◌, ◌<◌, ◌≤◌, ◌≡◌, inl, inr, Bool-cases, true, false, List, [], ◌∷◌, Option, none,
  some, Option-cases, Result, ok, err, find, leb, Text, arith, ◌>>=◌, is_some,
}
use tekrion.Prelude.Strings.{member}
use tekrion.Prelude.Maps.{get}
use tekrion.Protocol.{
  TekrionEvent, RawExchangeProtocol, openai_responses, openai_chat_completions, anthropic_messages,
  unknown_openai_compatible,
}
use tekrion.Context.Source.{
  JsonReader, ContextEvidenceSource, ContextReconstructionError, fuel_exhausted,
}
use tekrion.Context.Turns.{
  LoadedTurn, Previous, absent, invalid, given, conversation_of, previous_of, load_turn,
}
use tekrion.Context.Ancestry.{ReconstructionState}
use tekrion.Context.Reconstructor.{
  is_model_request, Later, onward, visit_request, visit_exchange, visit, follow, resolve_previous,
  resolve_responses_ancestry, initial_state, resolve_protocol, reconstruct,
}

ok_err :
    {A : Type 0} {a : A} {x : ContextReconstructionError}
    → ¬ (◌≡◌ {A = Result ContextReconstructionError A} (ok a) (err x))
ok_err h = cc

>>=-eq-err :
    {A B : Type 0} (m : Result ContextReconstructionError A)
    (f : A → Result ContextReconstructionError B) {x : ContextReconstructionError}
    → (m >>= f) ≡ err x
    → ¬ (m ≡ err x)
    → (a : A) × (f a ≡ err x)
>>=-eq-err (ok a) f e returns = (a, e)
>>=-eq-err (err y) f e returns = absurd (returns (thrown_same e))
  where
    thrown_same :
        {A B : Type 0} {x y : ContextReconstructionError}
        → ◌≡◌ {A = Result ContextReconstructionError B} (err y) (err x)
        → ◌≡◌ {A = Result ContextReconstructionError A} (err y) (err x)
    thrown_same h = ground arith

module _ {Json : Type 0} (json : JsonReader Json) (digest : Text → Text)
    (source : ContextEvidenceSource) (maximum_chain_depth : ℕ) where
  load_turn_ends : (event : TekrionEvent) → ¬ (load_turn json source event ≡ err fuel_exhausted)
  unfolding load_turn
  load_turn_ends event e = elim (Option-cases (source.get_event_origin event.id)) [
    | inl lost ↦ absurd (ground arith)
    | inr (exchange_id, origin) ↦ elim (Option-cases (source.get_exchange exchange_id)) [
      | inl lost ↦ absurd (ground arith)
      | inr (exchange, found) ↦ absurd (ok_err (rw found at (rw (origin, load_turn) at e)))
    ]
  ]

  abbrev IsEnding : Later json digest source maximum_chain_depth → Type 0
  IsEnding later =
      (ancestor : LoadedTurn Json) (next : Option Text) (t : ReconstructionState Json)
      → ¬ (later ancestor next t ≡ err fuel_exhausted)

  onward_ends :
      (ancestor : LoadedTurn Json) (conversation : Option Text) (next : Previous)
      (s : ReconstructionState Json) (later : Later json digest source maximum_chain_depth)
      → IsEnding later
      → ¬ (
          onward json digest source maximum_chain_depth ancestor conversation next s later
          ≡ err fuel_exhausted)
  onward_ends ancestor (some conversation) next s later ends e = ok_err e
  onward_ends ancestor none absent s later ends e = ends ancestor none s e
  onward_ends ancestor none invalid s later ends e = ok_err e
  onward_ends ancestor none (given id) s later ends e = ends ancestor (some id) s e

  module _ (child : LoadedTurn Json) (previous : Text)
      (later : Later json digest source maximum_chain_depth) (ends : IsEnding later) where
    visit_request_ends :
        (request response : TekrionEvent) (s : ReconstructionState Json)
        → ¬ (
            visit_request json digest source maximum_chain_depth request response child previous s
              later
            ≡ err fuel_exhausted)
    unfolding visit_request
    visit_request_ends request response s e = elim (Bool-cases (is_some (get request.id s.nodes))) [
      | inl known ↦ ok_err (rw known at e)
      | inr new ↦ elim (Bool-cases (leb child.request_event.sequence response.sequence)) [
        | inl late ↦ ok_err (rw late at (rw new at e))
        | inr early ↦
            let (ancestor, e1) =
              >>=-eq-err (load_turn json source request) _ (rw early at (rw new at e))
                (load_turn_ends request) in
            onward_ends ancestor (conversation_of json ancestor) (previous_of json ancestor) _ later
              ends e1
      ]
    ]

    visit_ends :
        (s : ReconstructionState Json)
        → ¬ (
            visit json digest source maximum_chain_depth child previous s later
            ≡ err fuel_exhausted)
    unfolding visit visit_exchange
    visit_ends s e =
        elim (Option-cases (source.find_response_event child.exchange.session_id previous)) [
          | inl lost ↦ ok_err (rw (lost, visit) at e)
          | inr (response, found) ↦ elim (Option-cases (source.get_event_origin response.id)) [
            | inl lost ↦ ok_err (rw lost at (rw (found, visit) at e))
            | inr (exchange_id, origin) ↦
                elim (Option-cases
                  (find is_model_request (source.get_events_for_exchange exchange_id))) [
                    | inl lost ↦
                        ok_err
                          (rw (lost, visit_exchange) at (rw origin at (rw (found, visit) at e)))
                    | inr (request, first) ↦
                        visit_request_ends request response _
                          (rw (first, visit_exchange) at (rw origin at (rw (found, visit) at e)))
                  ]
          ]
        ]

  below : (m n : ℕ) → leb m n ≡ false → n < m
  below m n h = ground arith

  follow_ends :
      (fuel : ℕ) (child : LoadedTurn Json) (next : Option Text) (visited : List Text) (depth : ℕ)
      (s : ReconstructionState Json)
      → maximum_chain_depth < depth + fuel
      → depth ≤ maximum_chain_depth
      → ¬ (
          follow json digest source maximum_chain_depth fuel child next visited depth s
          ≡ err fuel_exhausted)
  unfolding follow
  follow_ends fuel child none visited depth s enough low e = ok_err e
  follow_ends zero child (some previous) visited depth s enough low e = absurd (omega arith)
  follow_ends (suc fuel) child (some previous) visited depth s enough low e =
      elim (Bool-cases (member previous visited)) [
        | inl again ↦ ok_err (rw again at e)
        | inr new ↦ elim (Bool-cases (leb maximum_chain_depth depth)) [
          | inl deep ↦ ok_err (rw deep at (rw new at e))
          | inr room ↦
              let less = below maximum_chain_depth depth room in
              visit_ends child previous
                (λ ancestor next t.
                  follow json digest source maximum_chain_depth fuel ancestor next
                    (previous ∷ visited) (suc depth) t)
                (λ ancestor next t.
                  follow_ends fuel ancestor next (previous ∷ visited) (suc depth) t (omega arith)
                    less)
                s (rw room at (rw new at e))
        ]
      ]

  resolve_previous_ends :
      (current : LoadedTurn Json) (conversation : Option Text) (previous : Previous)
      (s : ReconstructionState Json)
      → ¬ (
          resolve_previous json digest source maximum_chain_depth current conversation previous s
          ≡ err fuel_exhausted)
  unfolding resolve_previous
  resolve_previous_ends current (some conversation) previous s e = ok_err e
  resolve_previous_ends current none absent s e = ok_err e
  resolve_previous_ends current none invalid s e = ok_err e
  resolve_previous_ends current none (given id) s e =
      follow_ends (suc maximum_chain_depth) current (some id) [] 0
        (record s { chain_requested = true }) (omega arith) (omega arith) e

  resolve_protocol_ends :
      (protocol : RawExchangeProtocol) (current : LoadedTurn Json) (s : ReconstructionState Json)
      → ¬ (
          resolve_protocol json digest source maximum_chain_depth protocol current s
          ≡ err fuel_exhausted)
  unfolding resolve_protocol resolve_responses_ancestry
  resolve_protocol_ends openai_responses current s e = elim (Bool-cases (is_some current.request)) [
    | inl there ↦
        resolve_previous_ends current (conversation_of json current) (previous_of json current) _
          (rw there at e)
    | inr lost ↦ ok_err (rw lost at e)
  ]
  resolve_protocol_ends anthropic_messages current s e = ok_err e
  resolve_protocol_ends openai_chat_completions current s e = ok_err e
  resolve_protocol_ends unknown_openai_compatible current s e =
      elim (Bool-cases (is_some current.request)) [
        | inl there ↦ ok_err (rw there at e)
        | inr lost ↦ ok_err (rw lost at e)
      ]

  -- The fuel of the loop over the chain, one more than the maximum depth, is enough: a reconstruction
  -- never fails for want of it, whatever the source holds.
  pub reconstruct_ends :
      (id : Text) → ¬ (reconstruct json digest source maximum_chain_depth id ≡ err fuel_exhausted)
  unfolding reconstruct
  reconstruct_ends id e = elim (Option-cases (source.get_event id)) [
    | inl lost ↦ absurd (ground arith)
    | inr (target, there) ↦ elim (Bool-cases (is_model_request target)) [
      | inr other ↦ absurd (ground arith)
      | inl request ↦
          let (current, e1) =
            >>=-eq-err (load_turn json source target) _
              (rw request at (rw (there, reconstruct) at e)) (load_turn_ends target) in
          let (s, e2) =
            >>=-eq-err
              (resolve_protocol json digest source maximum_chain_depth current.exchange.protocol
                current (initial_state json digest source maximum_chain_depth current))
              _ e1 (resolve_protocol_ends current.exchange.protocol current _) in
          ok_err e2
    ]
  ]
