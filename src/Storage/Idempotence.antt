-- ===== src/Storage/Idempotence.antt =====
-- A normalization that is repeated changes nothing.
use tekrion.Prelude.{
  ◌≡◌, refl, sym, ap, ◌∙◌, inl, inr, true, false, List, [], ◌∷◌, map, none, some, Option-cases, ok,
  arith, any, find, All, Text, text_eq, text_eq_refl, get_or_else, >>=-eq-ok, subst,
}
use tekrion.Protocol.{JsonValues, TekrionEvent, RawExchange, RawExchangeParseStatus, parsed}
use tekrion.Protocol.Equality.{list_eq_refl, option_eq_refl, list_eq, event_eq, is_pending}
use tekrion.Storage.{Database, EventRow, NormalizationRow, is_event, is_exchange}
use tekrion.Storage.Events.{with_event, event_fits, insert_row, get, reread}
use tekrion.Storage.Normalizations.{
  NormalizationInput, NormalizationResult, get_raw_exchange, get_normalization_row,
  get_stored_events, hash_of, repeated, insert_rows, normalized_row, run_row, with_run, unchanged,
  insert_normalization,
}
use tekrion.Storage.Outcomes.{
  insert_row-cases, first_run-cases, repeated-cases, insert_normalization-cases,
  get_raw_exchange-id,
}
use tekrion.Storage.Tables.{find-append, find-append_new, find-none, find-test, find-update}

-- What inserting events does not touch, and the events that it leaves in place.
pub record Extended (db t : Database) : Type 0 where
  pub exchanges : t.raw_exchanges ≡ db.raw_exchanges
  pub runs : t.normalization_runs ≡ db.normalization_runs
  pub found :
      (id : Text) (row : EventRow)
      → find (is_event id) db.events ≡ some row
      → find (is_event id) t.events ≡ some row

Extended-refl : (db : Database) → Extended db db
Extended-refl db = record { exchanges = refl; runs = refl; found = λ id row e. e }

with_event-Extended : (row : EventRow) (db : Database) → Extended db (with_event row db)
unfolding with_event
with_event-Extended row db = record {
  exchanges = refl;
  runs = refl;
  found = λ id r e. find-append (is_event id) db.events (row ∷ []) r e;
}

Extended-trans : (a b c : Database) → Extended a b → Extended b c → Extended a c
Extended-trans a b c p q = record {
  exchanges = q.exchanges ∙ p.exchanges;
  runs = q.runs ∙ p.runs;
  found = λ id row e. q.found id row (p.found id row e);
}

insert_row-found :
    (row : EventRow) (db t : Database)
    → insert_row row db ≡ ok t
    → Extended db t × (find (is_event row.event.id) t.events ≡ some row)
unfolding event_fits with_event
insert_row-found row db t e =
    let (changed, fits) = insert_row-cases row db t e in
    let new : any (is_event row.event.id) db.events ≡ false = ground arith in
    (
      subst (Extended db) changed (with_event-Extended row db),
      ap (λ d. find (is_event row.event.id) d.events) (sym changed)
          ∙ find-append_new (is_event row.event.id) db.events row
              (find-none (is_event row.event.id) db.events new) (text_eq_refl row.event.id),
    )

pub insert_rows-Extended :
    (values : JsonValues) (id version : Text) (es : List TekrionEvent) (db t : Database)
    → insert_rows values id version es db ≡ ok t
    → Extended db t
unfolding insert_rows
insert_rows-Extended values id version [] db t e =
    subst (Extended db) (ground arith) (Extended-refl db)
insert_rows-Extended values id version (x ∷ es) db t e =
    let (u, eu, e1) =
      >>=-eq-ok (insert_row (normalized_row values id version x) db)
        (insert_rows values id version es) e in
    Extended-trans db u t (insert_row-found (normalized_row values id version x) db u eu).0
      (insert_rows-Extended values id version es u t e1)

pub insert_rows-stored :
    (values : JsonValues) (id version : Text) (es : List TekrionEvent) (db t : Database)
    → insert_rows values id version es db ≡ ok t
    → get_stored_events (map (λ e. e.id) es) t ≡ ok (map (reread values) es)
unfolding insert_rows get_stored_events get normalized_row reread
insert_rows-stored values id version [] db t e = refl
insert_rows-stored values id version (x ∷ es) db t e =
    let (u, eu, e1) =
      >>=-eq-ok (insert_row (normalized_row values id version x) db)
        (insert_rows values id version es) e in
    let (extended, here) = insert_row-found (normalized_row values id version x) db u eu in
    let there =
      (insert_rows-Extended values id version es u t e1).found x.id
        (normalized_row values id version x) here in
    let later = insert_rows-stored values id version es u t e1 in ground arith

pub with_run-exchange :
    (input : NormalizationInput) (exchange : RawExchange) (status : RawExchangeParseStatus)
    (db t : Database)
    → t.raw_exchanges ≡ db.raw_exchanges
    → get_raw_exchange input.exchange_id db ≡ ok exchange
    → get_raw_exchange input.exchange_id (with_run input exchange status t)
      ≡ ok (record exchange { parse_status = status })
unfolding get_raw_exchange with_run
with_run-exchange input exchange status db t same e =
    elim (Option-cases (find (is_exchange input.exchange_id) db.raw_exchanges)) [
      | inl absent ↦ ground arith
      | inr (row, present) ↦
          let here = find-test (is_exchange input.exchange_id) db.raw_exchanges row present in
          let is_same = get_raw_exchange-id input.exchange_id db exchange e in
          let moved =
            find-update (is_exchange input.exchange_id) (is_exchange input.exchange_id)
              (λ r. record r { exchange = record exchange { parse_status = status } })
              (λ r h. is_same ∙ sym h) t.raw_exchanges row (rw same present) in
          ground arith
    ]

pub with_run-row :
    (input : NormalizationInput) (exchange : RawExchange) (status : RawExchangeParseStatus)
    (db t : Database)
    → t.normalization_runs ≡ db.normalization_runs
    → get_normalization_row input.exchange_id input.parser_version db ≡ none
    → get_normalization_row input.exchange_id input.parser_version
        (with_run input exchange status t)
      ≡ some (run_row input exchange)
unfolding get_normalization_row with_run run_row
with_run-row input exchange status db t same e =
    find-append_new _ t.normalization_runs (run_row input exchange) (rw same e)
      (rw (text_eq_refl input.exchange_id, text_eq_refl input.parser_version) refl)

list_eq-reread :
    (values : JsonValues) (es : List TekrionEvent)
    → All (λ e. event_eq values.same (reread values e) e ≡ true) es
    → list_eq (event_eq values.same) (map (reread values) es) es ≡ true
unfolding list_eq
list_eq-reread values [] fixed = refl
list_eq-reread values (x ∷ es) fixed = rw fixed.0 (list_eq-reread values es fixed.1)

repeated-run :
    (values : JsonValues) (input : NormalizationInput) (exchange : RawExchange)
    (status : RawExchangeParseStatus) (db : Database)
    → get_stored_events (map (λ e. e.id) input.events) db ≡ ok (map (reread values) input.events)
    → All (λ e. event_eq values.same (reread values e) e ≡ true) input.events
    → repeated values
        (run_row input exchange)
        (record exchange { parse_status = status })
        input.events
        db
      ≡ ok (record { inserted = false; event_ids = map (λ e. e.id) input.events })
unfolding repeated run_row
repeated-run values input exchange status db stored fixed =
    rw
      (
        option_eq_refl text_eq text_eq_refl (hash_of exchange.request_body_ref),
        option_eq_refl text_eq text_eq_refl (hash_of exchange.response_body_ref),
        list_eq_refl text_eq text_eq_refl (map (λ e. e.id) input.events),
        stored,
      )
      (rw (list_eq-reread values input.events fixed) refl)

not_pending :
    (values : JsonValues) (input : NormalizationInput) (db db' : Database) (r : NormalizationResult)
    → insert_normalization values input db ≡ ok (db', r)
    → is_pending (get_or_else input.parse_status parsed) ≡ false
unfolding insert_normalization
not_pending values input db db' r e =
    let (exchange, found, e1) = >>=-eq-ok (get_raw_exchange input.exchange_id db) _ e in
    ground arith

stored_again :
    (values : JsonValues) (input : NormalizationInput) (exchange : RawExchange)
    (row : NormalizationRow) (db : Database) (r : NormalizationResult)
    → get_raw_exchange input.exchange_id db ≡ ok exchange
    → is_pending (get_or_else input.parse_status parsed) ≡ false
    → get_normalization_row input.exchange_id input.parser_version db ≡ some row
    → repeated values row exchange input.events db ≡ ok r
    → insert_normalization values input db ≡ ok (db, r)
unfolding insert_normalization
stored_again values input exchange row db r found complete present same =
    rw (found, complete, present, same) refl

repeated-result :
    (values : JsonValues) (row : NormalizationRow) (exchange : RawExchange) (es : List TekrionEvent)
    (db db' : Database) (r : NormalizationResult)
    → unchanged db (repeated values row exchange es db) ≡ ok (db', r)
    → repeated values row exchange es db ≡ ok (record { inserted = false; event_ids = r.event_ids })
unfolding repeated
repeated-result values row exchange es db db' r e = ground arith

pub with_run-stored :
    (input : NormalizationInput) (exchange : RawExchange) (status : RawExchangeParseStatus)
    (t : Database) (es : List TekrionEvent)
    → get_stored_events (map (λ e. e.id) input.events) t ≡ ok es
    → get_stored_events (map (λ e. e.id) input.events) (with_run input exchange status t) ≡ ok es
unfolding get_stored_events get with_run
with_run-stored input exchange status t es e = same_events (map (λ x. x.id) input.events) ∙ e
  where
    same_events :
        (ids : List Text)
        → get_stored_events ids (with_run input exchange status t) ≡ get_stored_events ids t
    same_events [] = refl
    same_events (id ∷ ids) = let rest = same_events ids in ground arith

-- If a normalization was stored, or found to be stored already, and `isDeepStrictEqual` holds
-- of each of its events and what is left of it when its JSON is written and read, then to store it
-- again succeeds, changes nothing, reports that it was not inserted, and returns the same
-- identifiers of events.
pub insert_normalization-again :
    (values : JsonValues) (input : NormalizationInput) (db db' : Database) (r : NormalizationResult)
    → All (λ e. event_eq values.same (reread values e) e ≡ true) input.events
    → insert_normalization values input db ≡ ok (db', r)
    → insert_normalization values input db'
      ≡ ok (db', record { inserted = false; event_ids = r.event_ids })
insert_normalization-again values input db db' r fixed e =
    let (exchange, found, branch) = insert_normalization-cases values input r db db' e in
    elim branch [
      | inl (status, absent, e1) ↦
          let (t, et, changed, ids) = first_run-cases values input exchange status r db db' e1 in
          let frame =
            insert_rows-Extended values input.exchange_id input.parser_version input.events db t
              et in
          subst
            (λ d.
              insert_normalization values input d
              ≡ ok (d, record { inserted = false; event_ids = r.event_ids }))
            changed
            (stored_again values input (record exchange { parse_status = status })
              (run_row input exchange) (with_run input exchange status t) _
              (with_run-exchange input exchange status db t frame.exchanges found)
              (not_pending values input db db' r e)
              (with_run-row input exchange status db t frame.runs absent)
              (repeated-run values input exchange status (with_run input exchange status t)
                  (with_run-stored input exchange status t (map (reread values) input.events) (
                    insert_rows-stored values input.exchange_id input.parser_version input.events db
                      t et))
                  fixed
                ∙ ap (λ l. ok (record { inserted = false; event_ids = l })) ids))
      | inr (row, present, e1) ↦
          subst
            (λ d.
              insert_normalization values input d
              ≡ ok (d, record { inserted = false; event_ids = r.event_ids }))
            (repeated-cases values row exchange input.events db db' r e1)
            (stored_again values input exchange row db _ found (not_pending values input db db' r e)
              present (repeated-result values row exchange input.events db db' r e1))
    ]
