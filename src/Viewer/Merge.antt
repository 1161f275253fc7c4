-- ===== src/Viewer/Merge.antt =====
-- The merged timeline has one event for each identifier, and the newest one.
use tekrion.Prelude.{
  ◌≡◌, refl, sym, ap, ◌∙◌, inl, inr, Bool, Bool-cases, true, false, ◌||◌, List, [], ◌∷◌, Option,
  none, some, arith, any, find, if◌then◌else◌, Text, text_eq, text_eq_iff,
}
use tekrion.Prelude.Strings.{text_eq_comm}
use tekrion.Prelude.Maps.{StringMap, get, set, get-set}
use tekrion.Protocol.{TekrionEvent}
use tekrion.Viewer.Timeline.{
  set_all, map_values, comes_before, insert_sorted, sorted, merge_timeline_events,
}

abbrev pub has_id : Text → TekrionEvent → Bool
has_id id e = text_eq e.id id

abbrev pub or_newest : Option TekrionEvent → Option TekrionEvent → Option TekrionEvent
or_newest none old = old
or_newest (some new) old = some new

-- The last event of a list with the identifier.
abbrev pub newest : Text → List TekrionEvent → Option TekrionEvent
newest id [] = none
newest id (e ∷ es) = or_newest (newest id es) (if has_id id e then some e else none)

abbrev pub IsDistinct : List TekrionEvent → Type 0
IsDistinct [] = Unit
IsDistinct (e ∷ es) = (any (has_id e.id) es ≡ false) × IsDistinct es

-- Each entry of the map has its event's identifier as its key, and the keys are distinct.
abbrev IsIndex : StringMap TekrionEvent → Type 0
IsIndex [] = Unit
IsIndex ((k, e) ∷ m) = (e.id ≡ k) × (get k m ≡ none) × IsIndex m

set-IsIndex : (e : TekrionEvent) (m : StringMap TekrionEvent) → IsIndex m → IsIndex (set e.id e m)
unfolding set get
set-IsIndex e [] h = (refl, refl, tt)
set-IsIndex e ((k, x) ∷ m) h = elim (Bool-cases (text_eq k e.id)) [
  | inl same ↦ rw same (sym ((text_eq_iff k e.id).0 same), h.1, h.2)
  | inr other ↦
      rw other (h.0, get-set e.id k e m ∙ rw (text_eq_comm e.id k, other) h.1, set-IsIndex e m h.2)
]

set_all-IsIndex :
    (es : List TekrionEvent) (m : StringMap TekrionEvent) → IsIndex m → IsIndex (set_all es m)
unfolding set_all
set_all-IsIndex [] m h = h
set_all-IsIndex (e ∷ es) m h = set_all-IsIndex es (set e.id e m) (set-IsIndex e m h)

get-set_all :
    (id : Text) (es : List TekrionEvent) (m : StringMap TekrionEvent)
    → get id (set_all es m) ≡ or_newest (newest id es) (get id m)
unfolding set_all
get-set_all id [] m = refl
get-set_all id (e ∷ es) m =
    get-set_all id es (set e.id e m)
    ∙ ap (or_newest (newest id es)) (get-set e.id id e m)
    ∙ grouped (newest id es) (has_id id e) (get id m)
  where
    grouped :
        (o : Option TekrionEvent) (b : Bool) (old : Option TekrionEvent)
        → or_newest o (if b then some e else old)
          ≡ or_newest (or_newest o (if b then some e else none)) old
    grouped none true old = refl
    grouped none false old = refl
    grouped (some x) true old = refl
    grouped (some x) false old = refl

find-map_values :
    (id : Text) (m : StringMap TekrionEvent)
    → IsIndex m
    → find (has_id id) (map_values m) ≡ get id m
unfolding get
find-map_values id [] h = refl
find-map_values id ((k, e) ∷ m) h =
    ap (λ r. if text_eq e.id id then some e else r) (find-map_values id m h.2)
    ∙ ap (λ j. if text_eq j id then some e else get id m) h.0

any-none : (p : TekrionEvent → Bool) (xs : List TekrionEvent) → find p xs ≡ none → any p xs ≡ false
any-none p [] h = refl
any-none p (x ∷ xs) h = elim (Bool-cases (p x)) [
  | inl yes_here ↦ absurd (ground arith)
  | inr no_here ↦ rw no_here (any-none p xs (rw no_here at h))
]

map_values-IsDistinct : (m : StringMap TekrionEvent) → IsIndex m → IsDistinct (map_values m)
map_values-IsDistinct [] h = tt
map_values-IsDistinct ((k, e) ∷ m) h = (
  any-none (has_id e.id) (map_values m) (find-map_values e.id m h.2 ∙ ap (λ j. get j m) h.0 ∙ h.1),
  map_values-IsDistinct m h.2,
)

module _ (collates_before : Text → Text → Bool) where
  any-insert_sorted :
      (p : TekrionEvent → Bool) (e : TekrionEvent) (xs : List TekrionEvent)
      → any p (insert_sorted collates_before e xs) ≡ (p e || any p xs)
  unfolding insert_sorted
  any-insert_sorted p e [] = refl
  any-insert_sorted p e (x ∷ xs) = ground (arith, any-insert_sorted p e xs)

  any-sorted :
      (p : TekrionEvent → Bool) (xs : List TekrionEvent)
      → any p (sorted collates_before xs) ≡ any p xs
  unfolding sorted
  any-sorted p [] = refl
  any-sorted p (x ∷ xs) =
      any-insert_sorted p x (sorted collates_before xs) ∙ ap (◌||◌ (p x)) (any-sorted p xs)

  find-insert_sorted :
      (p : TekrionEvent → Bool) (e : TekrionEvent) (xs : List TekrionEvent)
      → (p e ≡ true → any p xs ≡ false)
      → find p (insert_sorted collates_before e xs) ≡ (if p e then some e else find p xs)
  unfolding insert_sorted
  find-insert_sorted p e [] h = refl
  find-insert_sorted p e (x ∷ xs) h = elim (Bool-cases (p e)) [
    | inl mine ↦
        let nobody = h mine in
        let rest = find-insert_sorted p e xs (λ t. ground arith) in ground arith
    | inr other ↦ let rest = find-insert_sorted p e xs (λ t. absurd (ground arith)) in ground arith
  ]

  find-sorted :
      (id : Text) (xs : List TekrionEvent)
      → IsDistinct xs
      → find (has_id id) (sorted collates_before xs) ≡ find (has_id id) xs
  unfolding sorted
  find-sorted id [] h = refl
  find-sorted id (x ∷ xs) h =
      find-insert_sorted (has_id id) x (sorted collates_before xs) (λ same.
        any-sorted (has_id id) xs
        ∙ ap (λ k. any (has_id k) xs) (sym ((text_eq_iff x.id id).0 same))
        ∙ h.0)
      ∙ ap (λ r. if has_id id x then some x else r) (find-sorted id xs h.1)

  insert_sorted-IsDistinct :
      (e : TekrionEvent) (xs : List TekrionEvent)
      → any (has_id e.id) xs ≡ false
      → IsDistinct xs
      → IsDistinct (insert_sorted collates_before e xs)
  unfolding insert_sorted
  insert_sorted-IsDistinct e [] new h = (refl, tt)
  insert_sorted-IsDistinct e (x ∷ xs) new h = elim (Bool-cases (comes_before collates_before x e)) [
    | inl first ↦ rw first (
      any-insert_sorted (has_id x.id) e xs
          ∙ rw (text_eq_comm e.id x.id) (let kept = h.0 in ground arith),
      insert_sorted-IsDistinct e xs (ground arith) h.1,
    )
    | inr last ↦ rw last (new, h)
  ]

  sorted-IsDistinct :
      (xs : List TekrionEvent) → IsDistinct xs → IsDistinct (sorted collates_before xs)
  unfolding sorted
  sorted-IsDistinct [] h = tt
  sorted-IsDistinct (x ∷ xs) h =
      insert_sorted-IsDistinct x (sorted collates_before xs) (any-sorted (has_id x.id) xs ∙ h.0)
        (sorted-IsDistinct xs h.1)

  -- When an event comes in, the merged timeline has at most one event of each identifier: the last one
  -- of the events that were there and those that came, if there is one.
  pub merge_timeline_events-newest :
      (existing es : List TekrionEvent) (e : TekrionEvent) (id : Text)
      → IsDistinct (merge_timeline_events collates_before existing (e ∷ es))
        × (find (has_id id) (merge_timeline_events collates_before existing (e ∷ es))
            ≡ or_newest (newest id (e ∷ es)) (newest id existing))
  unfolding merge_timeline_events get
  merge_timeline_events-newest existing es e id =
      let by_id = set_all (e ∷ es) (set_all existing []) in
      let index = set_all-IsIndex (e ∷ es) (set_all existing []) (set_all-IsIndex existing [] tt) in
      (
        sorted-IsDistinct (map_values by_id) (map_values-IsDistinct by_id index),
        find-sorted id (map_values by_id) (map_values-IsDistinct by_id index)
            ∙ find-map_values id by_id index
            ∙ get-set_all id (e ∷ es) (set_all existing [])
            ∙ ap (or_newest (newest id (e ∷ es)))
                (get-set_all id existing [] ∙ or_none (newest id existing)),
      )
    where
      or_none : (o : Option TekrionEvent) → or_newest o none ≡ o
      or_none none = refl
      or_none (some x) = refl
