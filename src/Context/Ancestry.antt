-- ===== src/Context/Ancestry.antt =====
-- `resolveResponsesAncestry`: the responses before a request, one after the other. The state is that
-- of `ReconstructionState`; a set is a list in insertion order.
use tekrion.Prelude.{
  Bool, true, false, not, List, [], ◌∷◌, ◌++◌, Option, none, some, if◌then◌else◌, leb, length, Text,
  codes,
}
use tekrion.Prelude.Strings.{member}
use tekrion.Prelude.Maps.{StringMap, set}
use tekrion.Context.Source.{JsonReader}
use tekrion.Context.Turns.{LoadedTurn, request_field}

pub data NodeKind : Type 0 where
  request_node response_node missing_node conversation_node : NodeKind

pub record ContextAncestryNode : Type 0 where
  pub kind : NodeKind
  pub locally_available : Bool

pub data EdgeRelation : Type 0 where
  previous_response explicit_input conversation_member : EdgeRelation

pub record ContextAncestryEdge : Type 0 where
  pub source_node : Text
  pub target_node : Text
  pub relation : EdgeRelation

pub record ReconstructionState (Json : Type 0) : Type 0 where
  pub turns : List (LoadedTurn Json)
  pub nodes : StringMap ContextAncestryNode
  pub edges : List ContextAncestryEdge
  pub limitations : List Text
  pub chain_requested : Bool
  pub chain_incomplete : Bool
  pub provider_managed : Bool

-- `limitations.add`.
unfoldable pub add_limitation : Text → List Text → List Text
unfolding member
add_limitation text limitations =
    if member text limitations then limitations else limitations ++ text ∷ []

unfoldable pub add_limitations : List Text → List Text → List Text
unfolding add_limitation
add_limitations [] limitations = limitations
add_limitations (t ∷ ts) limitations = add_limitations ts (add_limitation t limitations)

unfoldable pub bounded_node_id : (digest : Text → Text) → (prefix value : Text) → Text
bounded_node_id digest prefix value =
    let candidate = prefix ++ codes ":" ++ value in
    if leb (length candidate) 512 then candidate else prefix ++ codes ":sha256:" ++ digest value

module _ {Json : Type 0} where
  unfoldable pub incomplete : Text → ReconstructionState Json → ReconstructionState Json
  unfolding add_limitation
  incomplete text s = record s {
    chain_incomplete = true;
    limitations = add_limitation text s.limitations;
  }

  unfoldable pub add_node :
      Text → NodeKind → Bool → ReconstructionState Json → ReconstructionState Json
  unfolding set
  add_node id kind available s = record s {
    nodes = set id (record { kind = kind; locally_available = available }) s.nodes;
  }

  unfoldable pub add_edge :
      Text → Text → EdgeRelation → ReconstructionState Json → ReconstructionState Json
  add_edge source_node target_node relation s = record s {
    edges =
        s.edges
        ++ record { source_node = source_node; target_node = target_node; relation = relation }
          ∷ [];
  }

  unfoldable pub add_conversation :
      (digest : Text → Text) → Text → Text → ReconstructionState Json → ReconstructionState Json
  unfolding bounded_node_id add_node add_edge add_limitation
  add_conversation digest conversation request_event_id s =
      let node_id = bounded_node_id digest (codes "conversation") conversation in
      let linked =
        add_edge node_id request_event_id conversation_member
          (add_node node_id conversation_node false s) in
      record linked {
        provider_managed = true;
        limitations =
            add_limitation
              (codes "Conversation "
                ++ conversation
                ++ codes " may contain provider-managed items unavailable locally.")
              linked.limitations;
      }

  -- A field that is there and not `null`.
  abbrev is_given : JsonReader Json → Option Json → Bool
  is_given json none = false
  is_given json (some v) = not (json.is_null v)

  unfoldable pub managed_when : Bool → Text → ReconstructionState Json → ReconstructionState Json
  unfolding add_limitation
  managed_when b text s =
      if b
      then record s { provider_managed = true; limitations = add_limitation text s.limitations }
      else s

  unfoldable pub mark_provider_managed :
      JsonReader Json → Option Json → ReconstructionState Json → ReconstructionState Json
  unfolding managed_when
  mark_provider_managed json request s =
      managed_when (is_given json (request_field json (codes "context_management") request))
        (codes
          "Server context management may transform prior context outside the locally visible record.")
        (managed_when (is_given json (request_field json (codes "prompt") request))
          (codes
            "Reusable prompt content is provider-managed and unavailable locally; only its request reference and variables were captured.")
          s)
