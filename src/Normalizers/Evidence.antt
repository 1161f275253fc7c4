-- ===== src/Normalizers/Evidence.antt =====
-- To append the evidence of the diagnostics a second time changes nothing.
use tekrion.Prelude.{
  ℕ, suc, ◌≡◌, refl, append-nil, sym, ap, ◌∙◌, subst, inl, inr, Bool, Bool-cases, true, false, ◌&&◌,
  List, [], ◌∷◌, ◌++◌, Option, none, some, Option-cases, Result, ok, arith, any, length, All, Text,
  codes, text_eq, text_eq_iff, text_eq_refl, get_or_else, throw_if, ltb, >>=-eq-ok,
}
use tekrion.Prelude.Maps
use tekrion.Prelude.Maps.{StringMap}
use tekrion.Protocol.{TekrionEvent}
use tekrion.Storage.{StorageError, out_of_range}
use tekrion.Storage.Tables.{All-imp, any-append}
use tekrion.Normalizers.Contracts.{
  NormalizationExchange, ParserDiagnostic, NormalizationResult, CanonicalEventDraft,
  NormalizationOptions,
}
use tekrion.Normalizers.Events.{
  parent_too_late, event_of, events_from, materialize_canonical_events,
}
use tekrion.Normalizers.Diagnostics.{
  SummaryText, SummaryValue, string_value, number_value, optional_field, diagnostic_summary,
  index_in, same_frame, is_silent, expected_type, represents, already_represented, diagnostic_draft,
  with_draft, drafts_of, appended_options, append_drafts, append_diagnostic_evidence,
}

-- The event has the draft's type and summary.
abbrev matches : CanonicalEventDraft → TekrionEvent → Bool
matches d e = text_eq e.type d.type && text_eq e.summary d.summary

ok_injective : {A : Type 0} {a b : A} → ◌≡◌ {A = Result StorageError A} (ok a) (ok b) → a ≡ b
ok_injective h = ground arith

events_from-matches :
    (digest : Text → Text) (exchange : NormalizationExchange) (options : NormalizationOptions)
    (ids : List Text) (first index : ℕ) (ds : List CanonicalEventDraft) (es : List TekrionEvent)
    → events_from digest exchange options ids first index ds ≡ ok es
    → All (λ d. any (matches d) es ≡ true) ds
unfolding events_from event_of
events_from-matches digest exchange options ids first index [] es e = tt
events_from-matches digest exchange options ids first index (d ∷ ds) es e =
    let (u, now, e1) =
      >>=-eq-ok (throw_if (parent_too_late d.parent_draft_index index) out_of_range) _ e in
    let (rest, later, e2) =
      >>=-eq-ok (events_from digest exchange options ids first (suc index) ds) _ e1 in
    subst (λ l. All (λ x. any (matches x) l ≡ true) (d ∷ ds)) (ok_injective e2)
      (
        rw (text_eq_refl d.type, text_eq_refl d.summary) refl,
        All-imp _ _ (λ x h. ground arith) ds
            (events_from-matches digest exchange options ids first (suc index) ds rest later),
      )

materialize_canonical_events-matches :
    (digest : Text → Text) (exchange : NormalizationExchange) (options : NormalizationOptions)
    (ds : List CanonicalEventDraft) (es : List TekrionEvent)
    → materialize_canonical_events digest exchange options ds ≡ ok es
    → All (λ d. any (matches d) es ≡ true) ds
unfolding materialize_canonical_events
materialize_canonical_events-matches digest exchange options ds es e =
    let first = get_or_else options.first_sequence 1 in
    let (u, now, e1) = >>=-eq-ok (throw_if (ltb first 1) out_of_range) _ e in
    events_from-matches digest exchange options _ first 0 ds es e1

any_more : {A : Type 0} (p : A → Bool) (xs ys : List A) → any p ys ≡ true → any p (xs ++ ys) ≡ true
any_more p xs ys h = ground (arith, any-append p xs ys)

already_represented-more :
    (json : SummaryText) (result : NormalizationResult) (es : List TekrionEvent)
    (d : ParserDiagnostic)
    → already_represented json result d ≡ true
    → already_represented json (record result { events = result.events ++ es }) d ≡ true
unfolding already_represented
already_represented-more json result es d h =
    ground (arith, any-append (represents json d) result.events es)

same_frame_refl : (o : Option ℕ) → same_frame o o ≡ true
same_frame_refl none = refl
same_frame_refl (some i) = ground arith

index_in-fields :
    (index : Option ℕ) (type : Option Text)
    → index_in (
        Maps.get (codes "frameIndex") (
          optional_field (codes "frameIndex") number_value index
          ++ optional_field (codes "eventType") string_value type))
      ≡ index
unfolding optional_field index_in Maps.get text_eq
index_in-fields (some i) type = refl
index_in-fields none none = refl
index_in-fields none (some t) = refl

-- The summary of a diagnostic has its frame index.
index_in-summary :
    (parser : Text) (d : ParserDiagnostic)
    → index_in (Maps.get (codes "frameIndex") (diagnostic_summary parser d)) ≡ d.frame_index
unfolding diagnostic_summary Maps.get text_eq
index_in-summary parser d = index_in-fields d.frame_index d.event_type

module _ (json : SummaryText)
    (law : (name : Text) (m : StringMap SummaryValue)
      → json.field name (json.encode m) ≡ Maps.get name m) where
  -- An event of a diagnostic's draft stands for the diagnostic.
  matches-represents :
      (parser : Text) (d : ParserDiagnostic) (x : CanonicalEventDraft) (e : TekrionEvent)
      → diagnostic_draft json parser d ≡ some x
      → matches x e ≡ true
      → represents json d e ≡ true
  unfolding diagnostic_draft represents
  matches-represents parser d x e drafted h = elim (Bool-cases (is_silent d.kind d.fatal)) [
    | inl silent ↦ ground arith
    | inr loud ↦
        let type_is : expected_type d.kind ≡ x.type = ground arith in
        let summary_is : json.encode (diagnostic_summary parser d) ≡ x.summary = ground arith in
        let of_type : text_eq e.type x.type ≡ true = ground arith in
        let of_summary : e.summary ≡ x.summary =
          (text_eq_iff e.summary x.summary).0 (ground arith) in
        let frame : index_in (json.field (codes "frameIndex") e.summary) ≡ d.frame_index =
          ap (λ t. index_in (json.field (codes "frameIndex") t)) (of_summary ∙ sym summary_is)
          ∙ ap index_in (law (codes "frameIndex") (diagnostic_summary parser d))
          ∙ index_in-summary parser d in
        rw (type_is, of_type, frame) (same_frame_refl d.frame_index)
  ]

  any-imp :
      {A : Type 0} (p q : A → Bool) (xs : List A)
      → ((a : A) → p a ≡ true → q a ≡ true)
      → any p xs ≡ true
      → any q xs ≡ true
  any-imp p q [] h e = ground arith
  any-imp p q (x ∷ xs) h e = ground (arith, h x, any-imp p q xs h)

  drafts_of-old :
      (result : NormalizationResult) (d : ParserDiagnostic) (ds : List ParserDiagnostic)
      → already_represented json result d ≡ true
      → drafts_of json result (d ∷ ds) ≡ drafts_of json result ds
  unfolding drafts_of
  drafts_of-old result d ds e = rw e refl

  drafts_of-new :
      (result : NormalizationResult) (d : ParserDiagnostic) (ds : List ParserDiagnostic)
      (o : Option CanonicalEventDraft)
      → already_represented json result d ≡ false
      → diagnostic_draft json result.parser_id d ≡ o
      → drafts_of json result (d ∷ ds) ≡ with_draft json o (drafts_of json result ds)
  unfolding drafts_of
  drafts_of-new result d ds o e drafted = rw (e, drafted) refl

  represented_by :
      (result : NormalizationResult) (d : ParserDiagnostic)
      → any (represents json d) result.events ≡ true
      → already_represented json result d ≡ true
  unfolding already_represented
  represented_by result d h = h

  drafts_of-none : (result : NormalizationResult) → drafts_of json result [] ≡ []
  unfolding drafts_of
  drafts_of-none result = refl

  drafts_of-represented :
      (result after : NormalizationResult) (ds : List ParserDiagnostic)
      → after.parser_id ≡ result.parser_id
      → ((d : ParserDiagnostic)
          → already_represented json result d ≡ true
          → already_represented json after d ≡ true)
      → All (λ x. any (matches x) after.events ≡ true) (drafts_of json result ds)
      → drafts_of json after ds ≡ []
  drafts_of-represented result after [] same more found = drafts_of-none after
  drafts_of-represented result after (d ∷ ds) same more found =
      elim (Bool-cases (already_represented json result d)) [
        | inl known ↦
            drafts_of-old after d ds (more d known)
            ∙ drafts_of-represented result after ds same more
                (rw (drafts_of-old result d ds known) at found)
        | inr new ↦ elim (Option-cases (diagnostic_draft json result.parser_id d)) [
          | inl silent ↦ elim (Bool-cases (already_represented json after d)) [
            | inl known ↦
                drafts_of-old after d ds known
                ∙ drafts_of-represented result after ds same more
                    (rw (drafts_of-new result d ds none new silent) at found)
            | inr still ↦
                drafts_of-new after d ds none still (rw same silent)
                ∙ drafts_of-represented result after ds same more
                    (rw (drafts_of-new result d ds none new silent) at found)
          ]
          | inr (x, drafted) ↦
              let both : All (λ y. any (matches y) after.events ≡ true)
                  (x ∷ drafts_of json result ds) =
                rw (drafts_of-new result d ds (some x) new drafted) at found in
              drafts_of-old after d ds (
                represented_by after d (
                  any-imp (matches x) (represents json d) after.events
                    (λ e h. matches-represents result.parser_id d x e drafted h) both.0))
              ∙ drafts_of-represented result after ds same more both.1
        ]
      ]

module _ (json : SummaryText) (digest : Text → Text)
    (law : (name : Text) (m : StringMap SummaryValue)
      → json.field name (json.encode m) ≡ Maps.get name m) where
  append_drafts-none :
      (exchange : NormalizationExchange) (result : NormalizationResult)
      (options : NormalizationOptions)
      → append_drafts json digest exchange result options [] ≡ ok result
  unfolding append_drafts
  append_drafts-none exchange result options = refl

  append_drafts-cases :
      (exchange : NormalizationExchange) (result after : NormalizationResult)
      (options : NormalizationOptions) (ds : List CanonicalEventDraft)
      → append_drafts json digest exchange result options ds ≡ ok after
      → (es : List TekrionEvent) × (record result { events = result.events ++ es } ≡ after)
        × All (λ d. any (matches d) es ≡ true) ds
  unfolding append_drafts
  append_drafts-cases exchange result after options [] e =
      ([], ap (λ l. record result { events = l }) (append-nil result.events) ∙ ok_injective e, tt)
  append_drafts-cases exchange result after options (d ∷ ds) e =
      let (es, made, e1) =
        >>=-eq-ok
          (materialize_canonical_events digest exchange
            (appended_options json digest (length result.events) options) (d ∷ ds))
          _ e in
      (
        es,
        ok_injective e1,
        materialize_canonical_events-matches digest exchange
            (appended_options json digest (length result.events) options) (d ∷ ds) es made,
      )

  -- If the evidence of a result's diagnostics was appended, then to append it again succeeds and
  -- changes nothing, given that an object that stands in a text has the fields it was made with.
  pub append_diagnostic_evidence-again :
      (exchange : NormalizationExchange) (result after : NormalizationResult)
      (options : NormalizationOptions)
      → append_diagnostic_evidence json digest exchange result options ≡ ok after
      → append_diagnostic_evidence json digest exchange after options ≡ ok after
  unfolding append_diagnostic_evidence
  append_diagnostic_evidence-again exchange result after options e =
      let (es, changed, found) =
        append_drafts-cases exchange result after options (drafts_of json result result.diagnostics)
          e in
      subst
        (λ r. append_drafts json digest exchange r options (drafts_of json r r.diagnostics) ≡ ok r)
        changed
        (rw
          (drafts_of-represented json law result (record result { events = result.events ++ es })
            result.diagnostics refl (already_represented-more json result es)
            (All-imp _ _ (λ d h. any_more (matches d) result.events es h) _ found))
          (append_drafts-none exchange _ options))
