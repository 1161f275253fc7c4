-- ===== src/Context/Reconstructor.antt =====
-- The loop of `resolveResponsesAncestry`, and `reconstruct` up to the completeness of its result. The
-- loop runs on fuel, one more than the maximum depth of the chain.
use tekrion.Prelude.{
  ℕ, zero, suc, Bool, true, false, ◌||◌, not, List, [], ◌∷◌, ◌++◌, Option, none, some, Result, ok,
  err, if◌then◌else◌, find, leb, Text, codes, text_eq, ◌>>=◌, is_some,
}
use tekrion.Prelude.Strings.{member}
use tekrion.Prelude.Maps.{get}
use tekrion.Prelude.Numerals.{numeral}
use tekrion.Protocol.{
  TekrionEvent, RawExchangeProtocol, openai_responses, openai_chat_completions, anthropic_messages,
  unknown_openai_compatible,
}
use tekrion.Context.Source.{
  JsonReader, ContextEvidenceSource, ContextReconstructionError, event_not_found, not_model_request,
  fuel_exhausted,
}
use tekrion.Context.Turns.{
  LoadedTurn, Previous, absent, invalid, given, conversation_of, previous_of, load_turn,
}
use tekrion.Context.Ancestry.{
  request_node, response_node, missing_node, previous_response, explicit_input, ReconstructionState,
  add_limitation, add_limitations, bounded_node_id, incomplete, add_node, add_edge,
  add_conversation, mark_provider_managed,
}

pub data ContextCompleteness : Type 0 where
  unknown_unsupported provider_managed_context partial_client_chain reconstructed_client_chain
        exact_client_request :
      ContextCompleteness

unfoldable pub is_model_request : TekrionEvent → Bool
unfolding text_eq
is_model_request event = text_eq event.type (codes "model.request")

-- `limitations.length > 0`.
abbrev pub is_limited : List Text → Bool
is_limited [] = false
is_limited (t ∷ ts) = true

module _ {Json : Type 0} (json : JsonReader Json) (digest : Text → Text)
    (source : ContextEvidenceSource) (maximum_chain_depth : ℕ) where
  abbrev pub State : Type 0
  State = Result ContextReconstructionError (ReconstructionState Json)

  -- What the loop goes on with.
  abbrev pub Later : Type 0
  Later = LoadedTurn Json → Option Text → ReconstructionState Json → State

  -- The ancestor's turn in the state.
  unfoldable pub with_ancestor :
      LoadedTurn Json → (node_id : Text) → ReconstructionState Json → ReconstructionState Json
  unfolding add_node add_edge add_limitations mark_provider_managed
  with_ancestor ancestor node_id s = mark_provider_managed json ancestor.request (
      let linked = add_edge ancestor.request_event.id node_id explicit_input (
        add_node ancestor.request_event.id request_node true
          (record s { turns = s.turns ++ ancestor ∷ [] })) in
      record linked { limitations = add_limitations ancestor.limitations linked.limitations })

  unfoldable pub with_capture :
      LoadedTurn Json → Text → ReconstructionState Json → ReconstructionState Json
  unfolding add_limitation
  with_capture ancestor previous s =
      if is_limited ancestor.limitations || not ancestor.exchange.capture.response_complete
      then record s {
        chain_incomplete = true;
        limitations =
            if ancestor.exchange.capture.response_complete
            then s.limitations
            else add_limitation
                (codes "Response " ++ previous ++ codes " was not captured completely.")
                s.limitations;
      }
      else s

  -- From the ancestor's conversation on.
  abbrev pub onward :
      LoadedTurn Json → Option Text → Previous → ReconstructionState Json → Later → State
  onward ancestor (some conversation) previous s later =
      ok (add_conversation digest conversation ancestor.request_event.id s)
  onward ancestor none absent s later = later ancestor none s
  onward ancestor none invalid s later = ok (
      incomplete
        (codes "Request "
          ++ ancestor.request_event.id
          ++ codes " has an invalid previous_response_id.")
        s)
  onward ancestor none (given id) s later = later ancestor (some id) s

  unfoldable pub visit_request :
      TekrionEvent
      → TekrionEvent
      → LoadedTurn Json
      → Text
      → ReconstructionState Json
      → Later
      → State
  unfolding load_turn with_ancestor with_capture bounded_node_id
  visit_request request response child previous s later =
      if is_some (get request.id s.nodes)
      then ok (incomplete (codes "Cycle detected at request " ++ request.id ++ codes ".") s)
      else if leb child.request_event.sequence response.sequence
      then ok (
          incomplete
            (codes "Previous response "
              ++ previous
              ++ codes " does not precede request "
              ++ child.request_event.id
              ++ codes " in the recorded sequence.")
            s)
      else load_turn json source request >>= λ ancestor.
          onward ancestor (conversation_of json ancestor) (previous_of json ancestor)
            (with_capture ancestor previous
              (with_ancestor ancestor (bounded_node_id digest (codes "response") previous) s))
            later

  unfoldable pub visit_exchange :
      TekrionEvent → Text → LoadedTurn Json → Text → ReconstructionState Json → Later → State
  unfolding is_model_request visit_request
  visit_exchange response exchange_id child previous s later =
      elim (find is_model_request (source.get_events_for_exchange exchange_id)) [
        | none ↦ ok (
            incomplete
              (codes "Previous response " ++ previous ++ codes " has no local model.request event.")
              s)
        | some request ↦ visit_request request response child previous s later
      ]

  unfoldable pub linked_to :
      Bool → LoadedTurn Json → Text → ReconstructionState Json → ReconstructionState Json
  unfolding add_node add_edge bounded_node_id
  linked_to found child previous s =
      let node_id = bounded_node_id digest (codes "response") previous in
      add_edge node_id child.request_event.id previous_response
        (add_node node_id (if found then response_node else missing_node) found s)

  -- One round of the loop, for a response that is not visited yet.
  unfoldable pub visit : LoadedTurn Json → Text → ReconstructionState Json → Later → State
  unfolding linked_to visit_exchange
  visit child previous s later =
      elim (source.find_response_event child.exchange.session_id previous) [
        | none ↦ ok (
            incomplete (codes "Previous response " ++ previous ++ codes " is unavailable locally.")
              (linked_to false child previous s))
        | some response ↦ elim (source.get_event_origin response.id) [
          | none ↦ ok (
              incomplete
                (codes "Previous response " ++ previous ++ codes " has no raw exchange provenance.")
                (linked_to true child previous s))
          | some exchange_id ↦
              visit_exchange response exchange_id child previous (linked_to true child previous s)
                later
        ]
      ]

  -- The `while` loop.
  unfoldable pub follow :
      (fuel : ℕ)
      → LoadedTurn Json
      → Option Text
      → (visited : List Text) → (depth : ℕ) → ReconstructionState Json
      → State
  unfolding member visit numeral
  follow fuel child none visited depth s = ok s
  follow zero child (some previous) visited depth s = err fuel_exhausted
  follow (suc fuel) child (some previous) visited depth s =
      if member previous visited
      then ok (incomplete (codes "Cycle detected at previous response " ++ previous ++ codes ".") s)
      else if leb maximum_chain_depth depth
      then ok (
          incomplete
            (codes "Context ancestry exceeded the "
              ++ numeral maximum_chain_depth
              ++ codes "-response depth limit.")
            s)
      else visit child previous s
          (λ ancestor next s'. follow fuel ancestor next (previous ∷ visited) (suc depth) s')

  -- The choice before the loop.
  unfoldable pub resolve_previous :
      LoadedTurn Json → Option Text → Previous → ReconstructionState Json → State
  unfolding follow
  resolve_previous current (some conversation) previous s =
      ok (add_conversation digest conversation current.request_event.id s)
  resolve_previous current none absent s = ok s
  resolve_previous current none invalid s = ok (
      incomplete (codes "previous_response_id is not a string.")
        (record s { chain_requested = true }))
  resolve_previous current none (given id) s =
      follow (suc maximum_chain_depth) current (some id) [] 0 (record s { chain_requested = true })

  unfoldable pub resolve_responses_ancestry : LoadedTurn Json → ReconstructionState Json → State
  unfolding resolve_previous mark_provider_managed
  resolve_responses_ancestry current s =
      if is_some current.request
      then resolve_previous current (conversation_of json current) (previous_of json current)
          (mark_provider_managed json current.request s)
      else ok s

  unfoldable pub initial_state : LoadedTurn Json → ReconstructionState Json
  unfolding add_limitations
  initial_state current = record {
    turns = current ∷ [];
    nodes =
        (current.request_event.id, record { kind = request_node; locally_available = true }) ∷ [];
    edges = [];
    limitations = add_limitations current.limitations [];
    chain_requested = false;
    chain_incomplete = false;
    provider_managed = false;
  }

  -- The branches on the protocol.
  unfoldable pub resolve_protocol :
      RawExchangeProtocol → LoadedTurn Json → ReconstructionState Json → State
  unfolding resolve_responses_ancestry mark_provider_managed add_limitation
  resolve_protocol openai_responses current s = resolve_responses_ancestry current s
  resolve_protocol anthropic_messages current s = ok (mark_provider_managed json current.request s)
  resolve_protocol openai_chat_completions current s = ok s
  resolve_protocol unknown_openai_compatible current s =
      if is_some current.request
      then ok (record s {
        limitations =
            add_limitation (codes "Protocol unknown-openai-compatible has no context parser.")
              s.limitations;
      })
      else ok s

  abbrev is_unknown : RawExchangeProtocol → Bool
  is_unknown unknown_openai_compatible = true
  is_unknown _ = false

  unfoldable pub completeness : LoadedTurn Json → ReconstructionState Json → ContextCompleteness
  completeness current s =
      if not (is_some current.request)
        || is_unknown current.exchange.protocol
        || is_limited current.limitations
      then unknown_unsupported
      else if s.provider_managed
      then provider_managed_context
      else if s.chain_requested
      then (if s.chain_incomplete then partial_client_chain else reconstructed_client_chain)
      else exact_client_request

  -- `reconstruct`, without the items that are built from the turns.
  unfoldable pub reconstruct :
      Text → Result ContextReconstructionError (ReconstructionState Json × ContextCompleteness)
  unfolding is_model_request load_turn initial_state resolve_protocol completeness
  reconstruct id = elim (source.get_event id) [
    | none ↦ err event_not_found
    | some target ↦
        if is_model_request target
        then (load_turn json source target >>= λ current.
            resolve_protocol current.exchange.protocol current (initial_state current) >>= λ s.
            ok (s, completeness current s))
        else err not_model_request
  ]
