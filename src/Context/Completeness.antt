-- ===== src/Context/Completeness.antt =====
-- What the completeness `reconstructed-client-chain` of a result says.
use tekrion.Prelude.{
  ℕ, suc, ◌≤◌, ◌≡◌, refl, sym, ap, ◌∙◌, subst, inl, inr, Bool-cases, true, false, List, [], ◌∷◌,
  ◌++◌, Option, none, some, Option-cases, Result, ok, length, Text, arith, >>=-eq-ok, is_some,
}
use tekrion.Protocol.{
  TekrionEvent, RawExchangeProtocol, openai_responses, openai_chat_completions, anthropic_messages,
  unknown_openai_compatible,
}
use tekrion.Context.Source.{JsonReader, ContextEvidenceSource, ContextReconstructionError}
use tekrion.Context.Turns.{
  LoadedTurn, Previous, absent, invalid, given, conversation_of, previous_of, load_turn,
}
use tekrion.Context.Ancestry.{
  ReconstructionState, incomplete, add_node, add_edge, add_conversation, mark_provider_managed,
}
use tekrion.Context.Reconstructor.{
  ContextCompleteness, reconstructed_client_chain, is_model_request, resolve_previous,
  resolve_responses_ancestry, initial_state, resolve_protocol, completeness, reconstruct,
}
use tekrion.Context.Chain.{IsChain, ok_injective, not_true, err_ok, mark_provider_managed-same}
use tekrion.Context.Rounds.{follow-Outcome}

module _ {Json : Type 0} (json : JsonReader Json) (digest : Text → Text)
    (source : ContextEvidenceSource) (maximum_chain_depth : ℕ) where
  record IsComplete (s : ReconstructionState Json) : Type 0 where
    managed : s.provider_managed ≡ false
    requested : s.chain_requested ≡ true
    whole : s.chain_incomplete ≡ false

  completeness-IsComplete :
      (current : LoadedTurn Json) (s : ReconstructionState Json)
      → completeness json digest source maximum_chain_depth current s ≡ reconstructed_client_chain
      → IsComplete s
  unfolding completeness
  completeness-IsComplete current s e = record {
    managed = ground arith;
    requested = ground arith;
    whole = ground arith;
  }

  abbrev Chained : LoadedTurn Json → ReconstructionState Json → Type 0
  Chained current s =
      (older : List (LoadedTurn Json)) × (s.turns ≡ current ∷ older)
      × (length older ≤ maximum_chain_depth)
      × IsChain json digest source maximum_chain_depth current older

  resolve_previous-Chained :
      (current : LoadedTurn Json) (conversation : Option Text) (previous : Previous)
      (s s' : ReconstructionState Json)
      → s.turns ≡ current ∷ []
      → s.chain_requested ≡ false
      → previous ≡ previous_of json current
      → resolve_previous json digest source maximum_chain_depth current conversation previous s
        ≡ ok s'
      → IsComplete s'
      → Chained current s'
  unfolding resolve_previous add_conversation add_edge add_node incomplete
  resolve_previous-Chained current (some conversation) previous s s' alone quiet is_previous e
        done =
      absurd (
        not_true json digest source maximum_chain_depth (
          ap (λ x. x.provider_managed) (ok_injective json digest source maximum_chain_depth e)
          ∙ done.managed))
  resolve_previous-Chained current none absent s s' alone quiet is_previous e done = absurd (
      not_true json digest source maximum_chain_depth (
        sym done.requested
        ∙ ap (λ x. x.chain_requested) (sym (ok_injective json digest source maximum_chain_depth e))
        ∙ quiet))
  resolve_previous-Chained current none invalid s s' alone quiet is_previous e done = absurd (
      not_true json digest source maximum_chain_depth (
        ap (λ x. x.chain_incomplete) (ok_injective json digest source maximum_chain_depth e)
        ∙ done.whole))
  resolve_previous-Chained current none (given id) s s' alone quiet is_previous e done =
      let o =
        follow-Outcome json digest source maximum_chain_depth (suc maximum_chain_depth) current
          (some id) [] 0 (record s { chain_requested = true }) s' (omega arith) is_previous e in
      (
        o.older,
        o.added ∙ ap (λ l. l ++ o.older) alone,
        omega (arith, o.bounded),
        (o.complete done.whole done.managed).1,
      )

  quiet-Chained :
      (current : LoadedTurn Json) (s s' : ReconstructionState Json)
      → s.chain_requested ≡ false
      → ◌≡◌ {A = Result ContextReconstructionError (ReconstructionState Json)} (ok s) (ok s')
      → IsComplete s'
      → Chained current s'
  quiet-Chained current s s' quiet e done = absurd (
      not_true json digest source maximum_chain_depth (
        sym done.requested
        ∙ ap (λ x. x.chain_requested) (sym (ok_injective json digest source maximum_chain_depth e))
        ∙ quiet))

  resolve_protocol-Chained :
      (protocol : RawExchangeProtocol) (current : LoadedTurn Json) (s' : ReconstructionState Json)
      → resolve_protocol json digest source maximum_chain_depth protocol current
          (initial_state json digest source maximum_chain_depth current)
        ≡ ok s'
      → IsComplete s'
      → Chained current s'
  unfolding resolve_protocol resolve_responses_ancestry initial_state
  resolve_protocol-Chained openai_responses current s' e done =
      let initial = initial_state json digest source maximum_chain_depth current in
      let same =
        mark_provider_managed-same json digest source maximum_chain_depth current.request initial in
      elim (Bool-cases (is_some current.request)) [
        | inl there ↦
            resolve_previous-Chained current (conversation_of json current)
              (previous_of json current) (mark_provider_managed json current.request initial) s'
              same.0 same.2 refl (rw there at e) done
        | inr lost ↦ quiet-Chained current initial s' refl (rw lost at e) done
      ]
  resolve_protocol-Chained anthropic_messages current s' e done =
      let initial = initial_state json digest source maximum_chain_depth current in
      quiet-Chained current (mark_provider_managed json current.request initial) s'
        (mark_provider_managed-same json digest source maximum_chain_depth current.request
          initial).2
        e done
  resolve_protocol-Chained openai_chat_completions current s' e done =
      quiet-Chained current (initial_state json digest source maximum_chain_depth current) s' refl e
        done
  resolve_protocol-Chained unknown_openai_compatible current s' e done =
      elim (Bool-cases (is_some current.request)) [
        | inl there ↦ quiet-Chained current _ s' refl (rw there at e) done
        | inr lost ↦ quiet-Chained current _ s' refl (rw lost at e) done
      ]

  -- If the reconstruction of a request returns with the completeness `reconstructed-client-chain`, its
  -- turns are the request's own and, newest first, the complete chain of its ancestors, at most as
  -- many as the maximum depth: each turn names the next as its previous response, the source has
  -- that response before the turn's request, its exchange's request is the next turn, captured with
  -- no limitation and a complete response, and the last turn names no previous response.
  pub reconstruct-IsChain :
      (id : Text) (s : ReconstructionState Json)
      → reconstruct json digest source maximum_chain_depth id ≡ ok (s, reconstructed_client_chain)
      → (target : TekrionEvent) × (source.get_event id ≡ some target)
        × ((current : LoadedTurn Json) × (load_turn json source target ≡ ok current)
            × ((older : List (LoadedTurn Json)) × (s.turns ≡ current ∷ older)
                × (length older ≤ maximum_chain_depth)
                × IsChain json digest source maximum_chain_depth current older))
  unfolding reconstruct
  reconstruct-IsChain id s e = elim (Option-cases (source.get_event id)) [
    | inl lost ↦
        absurd (err_ok json digest source maximum_chain_depth (rw (lost, reconstruct) at e))
    | inr (target, there) ↦ elim (Bool-cases (is_model_request target)) [
      | inr other ↦ absurd (
          err_ok json digest source maximum_chain_depth
            (rw other at (rw (there, reconstruct) at e)))
      | inl request ↦
          let (current, loaded, e1) =
            >>=-eq-ok (load_turn json source target) _
              (rw request at (rw (there, reconstruct) at e)) in
          let (s', resolved, e2) =
            >>=-eq-ok
              (resolve_protocol json digest source maximum_chain_depth current.exchange.protocol
                current (initial_state json digest source maximum_chain_depth current))
              _ e1 in
          let pair = pair_injective e2 in
          (
            target,
            there,
            (
              current,
              loaded,
              subst (Chained current) (ap (λ q. q.0) pair) (
                  resolve_protocol-Chained current.exchange.protocol current s' resolved
                    (completeness-IsComplete current s' (ap (λ q. q.1) pair))),
            ),
          )
    ]
  ]
    where
      pair_injective :
          {a b : ReconstructionState Json × ContextCompleteness}
          → ◌≡◌
              {A = Result ContextReconstructionError
                (ReconstructionState Json × ContextCompleteness)}
              (ok a)
              (ok b)
          → a ≡ b
      pair_injective h = ground arith
