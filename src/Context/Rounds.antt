-- ===== src/Context/Rounds.antt =====
-- Every round of the loop keeps what holds of the chain.
use tekrion.Prelude.{
  ℕ, zero, suc, ◌≤◌, ◌<◌, ◌≡◌, refl, sym, ap, ◌∙◌, subst, inl, inr, Bool, Bool-cases, true, false,
  List, [], ◌∷◌, ◌++◌, Option, none, some, Option-cases, ok, find, leb, Text, codes, arith,
  append_assoc, >>=-eq-ok, is_some,
}
use tekrion.Prelude.Strings.{member}
use tekrion.Prelude.Maps.{get}
use tekrion.Protocol.{TekrionEvent}
use tekrion.Context.Source.{JsonReader, ContextEvidenceSource}
use tekrion.Context.Turns.{
  LoadedTurn, Previous, absent, invalid, given, conversation_of, previous_of, load_turn,
}
use tekrion.Context.Ancestry.{
  ReconstructionState, bounded_node_id, incomplete, add_node, add_edge, add_conversation,
}
use tekrion.Context.Reconstructor.{
  is_model_request, Later, with_ancestor, is_limited, onward, visit_request, visit_exchange,
  linked_to, visit, follow,
}
use tekrion.Context.Chain.{
  IsParent, Outcome, ends, ends_incomplete, ok_injective, not_true, Extends, as_previous, Continues,
  load_turn-event, before, flags_from, with_ancestor-same, with_capture-same, err_ok,
}

module _ {Json : Type 0} (json : JsonReader Json) (digest : Text → Text)
    (source : ContextEvidenceSource) (maximum_chain_depth : ℕ) where
  module _ (child : LoadedTurn Json) (previous : Text)
      (named : previous_of json child ≡ given previous) (depth : ℕ)
      (room : depth < maximum_chain_depth) (s s' : ReconstructionState Json) where
    -- The loop ends json digest source maximum_chain_depth with the ancestor.
    last_turn :
        (ancestor : LoadedTurn Json) (t : ReconstructionState Json)
        → t.turns ≡ s.turns ++ ancestor ∷ []
        → (t.chain_incomplete ≡ false → t.provider_managed ≡ false → ⊥)
        → t ≡ s'
        → Outcome json digest source maximum_chain_depth child depth s s'
    last_turn ancestor t turns never e =
        subst (Outcome json digest source maximum_chain_depth child depth s) e (record {
          older = ancestor ∷ [];
          added = turns;
          bounded = omega arith;
          complete = λ inc managed. absurd (never inc managed);
        })

    -- The loop goes on from the ancestor.
    more_turns :
        (ancestor : LoadedTurn Json) (t : ReconstructionState Json)
        → Extends json digest source maximum_chain_depth s t ancestor
        → (is_limited ancestor.limitations ≡ false
            → ancestor.exchange.capture.response_complete ≡ true
            → IsParent json digest source maximum_chain_depth child previous ancestor)
        → Outcome json digest source maximum_chain_depth ancestor (suc depth) t s'
        → Outcome json digest source maximum_chain_depth child depth s s'
    more_turns ancestor t extends parent o = record {
      older = ancestor ∷ o.older;
      added =
          o.added
          ∙ ap (λ l. l ++ o.older) extends.turns
          ∙ append_assoc s.turns (ancestor ∷ []) o.older;
      bounded = omega (arith, o.bounded);
      complete = λ inc managed.
          let (whole_after, chain) = o.complete inc managed in
          let (unlimited, captured, whole) = extends.flags whole_after in
          (whole, ((previous, named, parent unlimited captured), chain));
    }

    onward-Outcome :
        (ancestor : LoadedTurn Json) (conversation : Option Text) (next : Previous)
        (t : ReconstructionState Json) (later : Later json digest source maximum_chain_depth)
        → Extends json digest source maximum_chain_depth s t ancestor
        → (is_limited ancestor.limitations ≡ false
            → ancestor.exchange.capture.response_complete ≡ true
            → IsParent json digest source maximum_chain_depth child previous ancestor)
        → next ≡ previous_of json ancestor
        → Continues json digest source maximum_chain_depth later depth s'
        → onward json digest source maximum_chain_depth ancestor conversation next t later ≡ ok s'
        → Outcome json digest source maximum_chain_depth child depth s s'
    unfolding add_conversation add_edge add_node incomplete
    onward-Outcome ancestor (some conversation) next t later extends parent is_next continues e =
        last_turn ancestor _ extends.turns
          (λ inc managed. not_true json digest source maximum_chain_depth managed)
          (ok_injective json digest source maximum_chain_depth e)
    onward-Outcome ancestor none absent t later extends parent is_next continues e =
        more_turns ancestor t extends parent (continues ancestor none t is_next e)
    onward-Outcome ancestor none invalid t later extends parent is_next continues e =
        last_turn ancestor _ extends.turns
          (λ inc managed. not_true json digest source maximum_chain_depth inc)
          (ok_injective json digest source maximum_chain_depth e)
    onward-Outcome ancestor none (given id) t later extends parent is_next continues e =
        more_turns ancestor t extends parent (continues ancestor (some id) t is_next e)

    visit_request-Outcome :
        (request response : TekrionEvent) (exchange_id : Text) (t : ReconstructionState Json)
        (later : Later json digest source maximum_chain_depth)
        → (t.turns ≡ s.turns) × (t.chain_incomplete ≡ s.chain_incomplete)
        → source.find_response_event child.exchange.session_id previous ≡ some response
        → source.get_event_origin response.id ≡ some exchange_id
        → find is_model_request (source.get_events_for_exchange exchange_id) ≡ some request
        → Continues json digest source maximum_chain_depth later depth s'
        → visit_request json digest source maximum_chain_depth request response child previous t
            later
          ≡ ok s'
        → Outcome json digest source maximum_chain_depth child depth s s'
    unfolding visit_request
    visit_request-Outcome request response exchange_id t later same found origin first continues e =
        elim (Bool-cases (is_some (get request.id t.nodes))) [
          | inl known ↦
              ends_incomplete json digest source maximum_chain_depth child depth _ s t s'
                (omega arith) same.0 (rw known at e)
          | inr new ↦ elim (Bool-cases (leb child.request_event.sequence response.sequence)) [
            | inl late ↦
                ends_incomplete json digest source maximum_chain_depth child depth _ s t s'
                  (omega arith) same.0 (rw late at (rw new at e))
            | inr early ↦
                let (ancestor, loaded, e1) =
                  >>=-eq-ok (load_turn json source request) _ (rw early at (rw new at e)) in
                let is_request =
                  load_turn-event json digest source maximum_chain_depth request ancestor loaded in
                let t' =
                  with_ancestor json digest source maximum_chain_depth ancestor
                    (bounded_node_id digest (codes "response") previous) t in
                let linked =
                  with_ancestor-same json digest source maximum_chain_depth ancestor
                    (bounded_node_id digest (codes "response") previous) t in
                let captured =
                  with_capture-same json digest source maximum_chain_depth ancestor previous t' in
                onward-Outcome ancestor (conversation_of json ancestor) (previous_of json ancestor)
                  _ later
                  (record {
                    turns = captured.0 ∙ linked.0 ∙ ap (λ l. l ++ ancestor ∷ []) same.0;
                    flags = λ inc.
                        flags_from json digest source maximum_chain_depth s ancestor t t' same.1
                          linked.1 (captured.1 inc);
                  })
                  (λ unlimited complete. record {
                    response = response;
                    exchange_id = exchange_id;
                    found = found;
                    earlier =
                        before json digest source maximum_chain_depth child.request_event.sequence
                          response.sequence early;
                    origin = origin;
                    request = first ∙ ap some (sym is_request);
                    loaded = ap (load_turn json source) is_request ∙ loaded;
                    unlimited = unlimited;
                    captured = complete;
                  })
                  refl continues e1
          ]
        ]

    visit_exchange-Outcome :
        (response : TekrionEvent) (exchange_id : Text) (t : ReconstructionState Json)
        (later : Later json digest source maximum_chain_depth)
        → (t.turns ≡ s.turns) × (t.chain_incomplete ≡ s.chain_incomplete)
        → source.find_response_event child.exchange.session_id previous ≡ some response
        → source.get_event_origin response.id ≡ some exchange_id
        → Continues json digest source maximum_chain_depth later depth s'
        → visit_exchange json digest source maximum_chain_depth response exchange_id child previous
            t later
          ≡ ok s'
        → Outcome json digest source maximum_chain_depth child depth s s'
    unfolding visit_exchange
    visit_exchange-Outcome response exchange_id t later same found origin continues e =
        elim (Option-cases (find is_model_request (source.get_events_for_exchange exchange_id))) [
          | inl lost ↦
              ends_incomplete json digest source maximum_chain_depth child depth _ s t s'
                (omega arith) same.0 (rw (lost, visit_exchange) at e)
          | inr (request, first) ↦
              visit_request-Outcome request response exchange_id t later same found origin first
                continues (rw (first, visit_exchange) at e)
        ]

    linked_to-same :
        (present : Bool)
        → ((linked_to json digest source maximum_chain_depth present child previous s).turns
            ≡ s.turns)
          × ((linked_to json digest source maximum_chain_depth present child previous
                s).chain_incomplete
              ≡ s.chain_incomplete)
    unfolding linked_to add_edge add_node
    linked_to-same present = (refl, refl)

    visit-Outcome :
        (later : Later json digest source maximum_chain_depth)
        → Continues json digest source maximum_chain_depth later depth s'
        → visit json digest source maximum_chain_depth child previous s later ≡ ok s'
        → Outcome json digest source maximum_chain_depth child depth s s'
    unfolding visit
    visit-Outcome later continues e =
        elim (Option-cases (source.find_response_event child.exchange.session_id previous)) [
          | inl lost ↦
              ends_incomplete json digest source maximum_chain_depth child depth _ s _ s'
                (omega arith) (linked_to-same false).0 (rw (lost, visit) at e)
          | inr (response, found) ↦ elim (Option-cases (source.get_event_origin response.id)) [
            | inl lost ↦
                ends_incomplete json digest source maximum_chain_depth child depth _ s _ s'
                  (omega arith) (linked_to-same true).0 (rw lost at (rw (found, visit) at e))
            | inr (exchange_id, origin) ↦
                visit_exchange-Outcome response exchange_id _ later (linked_to-same true) found
                  origin continues (rw origin at (rw (found, visit) at e))
          ]
        ]

  pub follow-Outcome :
      (fuel : ℕ) (child : LoadedTurn Json) (next : Option Text) (visited : List Text) (depth : ℕ)
      (s s' : ReconstructionState Json)
      → depth ≤ maximum_chain_depth
      → as_previous json digest source maximum_chain_depth next ≡ previous_of json child
      → follow json digest source maximum_chain_depth fuel child next visited depth s ≡ ok s'
      → Outcome json digest source maximum_chain_depth child depth s s'
  unfolding follow
  follow-Outcome fuel child none visited depth s s' low is_next e =
      subst (Outcome json digest source maximum_chain_depth child depth s)
        (ok_injective json digest source maximum_chain_depth e)
        (ends json digest source maximum_chain_depth child depth s s low refl
          (λ inc managed. (inc, sym is_next)))
  follow-Outcome zero child (some previous) visited depth s s' low is_next e =
      absurd (err_ok json digest source maximum_chain_depth e)
  follow-Outcome (suc fuel) child (some previous) visited depth s s' low is_next e =
      elim (Bool-cases (member previous visited)) [
        | inl again ↦
            ends_incomplete json digest source maximum_chain_depth child depth _ s s s' low refl
              (rw again at e)
        | inr new ↦ elim (Bool-cases (leb maximum_chain_depth depth)) [
          | inl deep ↦
              ends_incomplete json digest source maximum_chain_depth child depth _ s s s' low refl
                (rw deep at (rw new at e))
          | inr room ↦
              visit-Outcome child previous (sym is_next) depth
                (below maximum_chain_depth depth room) s s'
                (λ ancestor next t.
                  follow json digest source maximum_chain_depth fuel ancestor next
                    (previous ∷ visited) (suc depth) t)
                (λ ancestor next t is_next' e'.
                  follow-Outcome fuel ancestor next (previous ∷ visited) (suc depth) t s'
                    (below maximum_chain_depth depth room) is_next' e')
                (rw room at (rw new at e))
        ]
      ]
    where
      below : (m n : ℕ) → leb m n ≡ false → n < m
      below m n h = ground arith
