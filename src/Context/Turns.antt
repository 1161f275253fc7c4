-- ===== src/Context/Turns.antt =====
-- `loadTurn`, and what a request says of its context.
use tekrion.Prelude.{
  List, [], ◌∷◌, ◌++◌, Option, none, some, Result, ok, err, if◌then◌else◌, Text, codes, ◌>>=◌,
}
use tekrion.Protocol.{TekrionEvent, RawExchange, BlobReference}
use tekrion.Context.Source.{
  JsonReader, ContextEvidenceSource, ContextReconstructionError, missing_event_origin,
  missing_raw_exchange, non_empty,
}

pub record LoadedTurn (Json : Type 0) : Type 0 where
  pub request_event : TekrionEvent
  pub exchange : RawExchange
  pub events : List TekrionEvent
  pub request : Option Json
  pub limitations : List Text

-- `previous_response_id`: `null` and a missing field are absent.
pub data Previous : Type 0 where
  absent invalid : Previous
  given : Text → Previous

module _ {Json : Type 0} (json : JsonReader Json) where
  abbrev string_field : Option Json → Option Text
  string_field none = none
  string_field (some v) = non_empty (json.as_string v)

  abbrev or_id : Option Text → Json → Option Text
  or_id (some s) v = some s
  or_id none v = string_field (json.field (codes "id") v)

  unfoldable pub conversation_id : Option Json → Option Text
  conversation_id none = none
  conversation_id (some v) = or_id (non_empty (json.as_string v)) v

  abbrev string_or_invalid : Option Text → Previous
  string_or_invalid none = invalid
  string_or_invalid (some s) = given s

  unfoldable pub previous_response_id : Option Json → Previous
  previous_response_id none = absent
  previous_response_id (some v) =
      if json.is_null v then absent else string_or_invalid (non_empty (json.as_string v))

  abbrev pub request_field : Text → Option Json → Option Json
  request_field name none = none
  request_field name (some request) = json.field name request

  unfoldable pub conversation_of : LoadedTurn Json → Option Text
  unfolding conversation_id
  conversation_of turn = conversation_id (request_field (codes "conversation") turn.request)

  unfoldable pub previous_of : LoadedTurn Json → Previous
  unfolding previous_response_id
  previous_of turn =
      previous_response_id (request_field (codes "previous_response_id") turn.request)

  -- The parsed body, or why there is none.
  abbrev parsed_body : TekrionEvent → Result Text Json → Option Json × List Text
  parsed_body event (err message) = (
    none,
    (codes "Request " ++ event.id ++ codes " body could not be decoded as JSON: " ++ message) ∷ [],
  )
  parsed_body event (ok value) =
      if json.is_record value
      then (some value, [])
      else (none, (codes "Request " ++ event.id ++ codes " body is not a JSON object.") ∷ [])

  module _ (source : ContextEvidenceSource) where
    unfoldable pub request_of : TekrionEvent → Option BlobReference → Option Json × List Text
    request_of event none =
        (none, (codes "Request " ++ event.id ++ codes " has no retained body.") ∷ [])
    request_of event (some ref) = parsed_body event (source.get_payload ref.id >>= json.parse)

    unfoldable pub turn_of : TekrionEvent → RawExchange → LoadedTurn Json
    unfolding request_of
    turn_of event exchange =
        let (request, limitations) = request_of event exchange.request_body_ref in
        record {
          request_event = event;
          exchange = exchange;
          events = source.get_events_for_exchange exchange.id;
          request = request;
          limitations =
              limitations
              ++ (if exchange.capture.request_complete
                  then []
                  else (codes "Request " ++ event.id ++ codes " capture is incomplete.") ∷ []);
        }

    unfoldable pub load_turn : TekrionEvent → Result ContextReconstructionError (LoadedTurn Json)
    unfolding turn_of
    load_turn event = elim (source.get_event_origin event.id) [
      | none ↦ err missing_event_origin
      | some exchange_id ↦ elim (source.get_exchange exchange_id) [
        | none ↦ err missing_raw_exchange
        | some exchange ↦ ok (turn_of event exchange)
      ]
    ]
