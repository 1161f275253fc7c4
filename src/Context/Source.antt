-- ===== src/Context/Source.antt =====
-- What a `ContextReconstructor` reads: its evidence source, and JSON values, which are parameters.
use tekrion.Prelude.{ℕ, Bool, List, [], ◌∷◌, Option, none, some, Text}
use tekrion.Protocol.{TekrionEvent, RawExchange}
use tekrion.Prelude.{Result}

-- A JSON value as `typeof` and the fields of objects show it. `field` is `none` at a missing field and
-- at a value that is no object.
pub record JsonReader (Json : Type 0) : Type 0 where
  pub is_null : Json → Bool
  pub is_record : Json → Bool
  pub as_string : Json → Option Text
  pub field : Text → Json → Option Json
  -- `JSON.parse` of the decoded bytes, or the message of the error.
  pub parse : List ℕ → Result Text Json

pub record ContextEvidenceSource : Type 0 where
  pub get_event : Text → Option TekrionEvent
  -- `getEventOrigin(id)?.rawExchangeId`.
  pub get_event_origin : Text → Option Text
  pub get_exchange : Text → Option RawExchange
  pub get_events_for_exchange : Text → List TekrionEvent
  pub find_response_event : (session_id response_id : Text) → Option TekrionEvent
  pub get_payload : Text → Result Text (List ℕ)

pub data ContextReconstructionError : Type 0 where
  event_not_found not_model_request missing_event_origin missing_raw_exchange :
      ContextReconstructionError
  fuel_exhausted : ContextReconstructionError

abbrev pub non_empty : Option Text → Option Text
non_empty none = none
non_empty (some []) = none
non_empty (some (c ∷ s)) = some (c ∷ s)
