-- ===== src/Normalizers/Canonical.antt =====
-- What the events that drafts become have to do with one another.
use tekrion.Prelude.{
  ℕ, zero, suc, ◌+◌, ◌<◌, ◌≡◌, refl, sym, ap, ◌∙◌, subst, ◌⊎◌, inl, inr, true, false, List, [], ◌∷◌,
  ◌++◌, append_assoc, Option, none, some, Result, ok, arith, ltb, length, length-append, Text,
  text_eq_refl, get_or_else, throw_if, >>=-eq-ok,
}
use tekrion.Prelude.Strings.{member}
use tekrion.Protocol.{TekrionEvent}
use tekrion.Storage.{StorageError, out_of_range}
use tekrion.Normalizers.Contracts.{NormalizationExchange, CanonicalEventDraft, NormalizationOptions}
use tekrion.Normalizers.Events.{
  get_elem?, parent_of, parent_too_late, event_id_of, identifiers_from, event_of, events_from,
  materialize_canonical_events,
}

ok_injective : {A : Type 0} {a b : A} → ◌≡◌ {A = Result StorageError A} (ok a) (ok b) → a ≡ b
ok_injective h = ground arith

-- The sequences go up by one from the first.
abbrev pub IsConsecutive : ℕ → List TekrionEvent → Type 0
IsConsecutive k [] = Unit
IsConsecutive k (e ∷ es) = (e.sequence ≡ k) × IsConsecutive (suc k) es

-- Each parent is among the events before.
abbrev pub HasEarlierParents : List Text → List TekrionEvent → Type 0
HasEarlierParents earlier [] = Unit
HasEarlierParents earlier (e ∷ es) =
    ((e.parent_id ≡ none) ⊎ ((id : Text) × (e.parent_id ≡ some id) × (member id earlier ≡ true)))
    × HasEarlierParents (earlier ++ e.id ∷ []) es

get_elem?-member :
    (earlier later : List Text) (i : ℕ)
    → i < length earlier
    → (id : Text) × (get_elem? (earlier ++ later) i ≡ some id) × (member id earlier ≡ true)
unfolding member
get_elem?-member [] later i h = absurd (omega arith)
get_elem?-member (x ∷ xs) later zero h = (x, refl, rw (text_eq_refl x) refl)
get_elem?-member (x ∷ xs) later (suc i) h =
    let (id, found, known) = get_elem?-member xs later i (omega arith) in (id, found, ground arith)

module _ (digest : Text → Text) (exchange : NormalizationExchange)
    (options : NormalizationOptions) where
  parent-earlier :
      (o : Option ℕ) (earlier later : List Text)
      → parent_too_late o (length earlier) ≡ false
      → (parent_of (earlier ++ later) o ≡ none)
        ⊎ ((id : Text) × (parent_of (earlier ++ later) o ≡ some id) × (member id earlier ≡ true))
  parent-earlier none earlier later h = inl refl
  parent-earlier (some i) earlier later h = inr (get_elem?-member earlier later i (ground arith))

  events_from-order :
      (first index : ℕ) (ids earlier : List Text) (ds : List CanonicalEventDraft)
      (es : List TekrionEvent)
      → index ≡ length earlier
      → ids ≡ earlier ++ identifiers_from digest exchange options index ds
      → events_from digest exchange options ids first index ds ≡ ok es
      → (length es ≡ length ds) × IsConsecutive (first + index) es × HasEarlierParents earlier es
  unfolding events_from identifiers_from event_of
  events_from-order first index ids earlier [] [] at all_ids e = (refl, tt, tt)
  events_from-order first index ids earlier [] (x ∷ es) at all_ids e = ground arith
  events_from-order first index ids earlier (d ∷ ds) es at all_ids e =
      let (u, now, e1) =
        >>=-eq-ok (throw_if (parent_too_late d.parent_draft_index index) out_of_range) _ e in
      let (rest, later, e2) =
        >>=-eq-ok (events_from digest exchange options ids first (suc index) ds) _ e1 in
      let (size, consecutive, parents) =
        events_from-order first (suc index) ids
          (earlier ++ event_id_of digest exchange options (index + 1) ∷ []) ds rest
          (omega (
            arith,
            length-append {0} earlier (event_id_of digest exchange options (index + 1) ∷ []),
          ))
          (all_ids
            ∙ sym (append_assoc earlier (event_id_of digest exchange options (index + 1) ∷ []) _))
          later in
      subst
        (λ l.
          (length l ≡ suc (length ds))
          × IsConsecutive (first + index) l
          × HasEarlierParents earlier l)
        (ok_injective e2)
        (
          ap suc size,
          (refl, subst (λ k. IsConsecutive k rest) (omega arith) consecutive),
          (
            rw all_ids (
                parent-earlier d.parent_draft_index earlier _
                  (rw at at (not_late d.parent_draft_index index now))),
            parents,
          ),
        )
    where
      not_late :
          (o : Option ℕ) (index : ℕ)
          → throw_if (parent_too_late o index) out_of_range ≡ ok tt
          → parent_too_late o index ≡ false
      not_late o index now = ground arith

  -- The events that drafts become are as many, their sequences go up by one from the first, which
  -- is 1 if none is given, and the parent of each, if it has one, is an event before it.
  pub materialize_canonical_events-order :
      (ds : List CanonicalEventDraft) (es : List TekrionEvent)
      → materialize_canonical_events digest exchange options ds ≡ ok es
      → (length es ≡ length ds)
        × IsConsecutive (get_or_else options.first_sequence 1) es
        × HasEarlierParents [] es
  unfolding materialize_canonical_events
  materialize_canonical_events-order ds es e =
      let first = get_or_else options.first_sequence 1 in
      let (u, now, e1) = >>=-eq-ok (throw_if (ltb first 1) out_of_range) _ e in
      let (size, consecutive, parents) =
        events_from-order first 0 (identifiers_from digest exchange options 0 ds) [] ds es refl refl
          e1 in
      (size, subst (λ k. IsConsecutive k es) (omega arith) consecutive, parents)
