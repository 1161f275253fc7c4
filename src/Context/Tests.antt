-- ===== src/Context/Tests.antt =====
-- The reconstruction at a concrete source: a request that names the response of an earlier one.
use tekrion.Prelude.{
  ℕ, ◌≤◌, ◌≡◌, refl, true, false, List, [], ◌∷◌, Option, none, some, ok, err, length, find,
  if◌then◌else◌, Text, codes, text_eq,
}
use tekrion.Prelude.Strings.{member}
use tekrion.Prelude.Maps.{get, set}
use tekrion.Protocol.{TekrionEvent, RawExchange, identity}
use tekrion.Storage.Tests.{event, exchange}
use tekrion.Context.Source.{JsonReader, ContextEvidenceSource, fuel_exhausted}
use tekrion.Context.Turns.{
  LoadedTurn, conversation_id, conversation_of, previous_response_id, previous_of, request_of,
  turn_of, load_turn,
}
use tekrion.Context.Ancestry.{
  ReconstructionState, add_limitation, add_limitations, bounded_node_id, add_node, add_edge,
  managed_when, mark_provider_managed,
}
use tekrion.Context.Reconstructor.{
  is_model_request, with_ancestor, with_capture, visit_request, visit_exchange, linked_to, visit,
  follow, resolve_previous, resolve_responses_ancestry, initial_state, resolve_protocol,
  completeness, reconstruct,
}
use tekrion.Context.Chain.{IsChain}
use tekrion.Context.Completeness.{reconstruct-IsChain}
use tekrion.Context.Termination.{reconstruct_ends}

-- A request is the response that it names, if it names one.
abbrev json : JsonReader (Option Text)
json = record {
  is_null = λ v. false;
  is_record = λ v. true;
  as_string = λ v. v;
  field = λ name v. elim v [
    | none ↦ none
    | some s ↦ if text_eq name (codes "previous_response_id") then some (some s) else none
  ];
  parse = λ bytes. elim bytes [ [] ↦ ok none | b ∷ bs ↦ ok (some (b ∷ bs)) ];
}

abbrev request : Text → ℕ → TekrionEvent
request id sequence = record (event id sequence) { type = codes "model.request" }

abbrev first_request : TekrionEvent
first_request = request (1 ∷ []) 1

abbrev response : TekrionEvent
response = event (11 ∷ []) 2

abbrev second_request : TekrionEvent
second_request = request (2 ∷ []) 3

abbrev exchange_of_request : Text → RawExchange
exchange_of_request id = record exchange {
  id = id;
  request_body_ref = some (record {
    id = id;
    sha256 = [];
    codec = identity;
    media_type = [];
    byte_length = 0;
    truncated = false;
  });
  capture = record {
    request_complete = true;
    response_complete = true;
    dropped_request_bytes = 0;
    dropped_response_bytes = 0;
  };
}

abbrev source : ContextEvidenceSource
source = record {
  get_event = λ id. find (λ e. text_eq e.id id) (first_request ∷ response ∷ second_request ∷ []);
  get_event_origin = λ id. some (if text_eq id (2 ∷ []) then 2 ∷ [] else 1 ∷ []);
  get_exchange = λ id. some (exchange_of_request id);
  get_events_for_exchange =
      λ id. if text_eq id (2 ∷ []) then second_request ∷ [] else first_request ∷ response ∷ [];
  find_response_event = λ session id. some response;
  get_payload = λ id. ok (if text_eq id (2 ∷ []) then 7 ∷ [] else []);
}

abbrev reconstructed : ReconstructionState (Option Text)
reconstructed = elim (reconstruct json (λ s. s) source 64 (2 ∷ [])) [
  | ok p ↦ p.0
  | err e ↦
      initial_state json (λ s. s) source 64
        (record {
          request_event = second_request;
          exchange = exchange;
          events = [];
          request = none;
          limitations = [];
        })
]

reconstruct-IsChain_example :
    (target : TekrionEvent) × (source.get_event (2 ∷ []) ≡ some target)
    × ((current : LoadedTurn (Option Text)) × (load_turn json source target ≡ ok current)
        × ((older : List (LoadedTurn (Option Text))) × (reconstructed.turns ≡ current ∷ older)
            × (length older ≤ 64)
            × IsChain json (λ s. s) source 64 current older))
unfolding reconstruct is_model_request load_turn turn_of request_of initial_state resolve_protocol
    resolve_responses_ancestry mark_provider_managed managed_when conversation_of conversation_id
    previous_of previous_response_id resolve_previous follow visit visit_exchange visit_request
    linked_to bounded_node_id add_node add_edge with_ancestor with_capture completeness
    add_limitation add_limitations member get set text_eq
reconstruct-IsChain_example =
    reconstruct-IsChain json (λ s. s) source 64 (2 ∷ []) reconstructed refl

reconstruct_ends_example : ¬ (reconstruct json (λ s. s) source 64 (2 ∷ []) ≡ err fuel_exhausted)
reconstruct_ends_example = reconstruct_ends json (λ s. s) source 64 (2 ∷ [])
