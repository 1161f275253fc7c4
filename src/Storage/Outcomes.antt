-- ===== src/Storage/Outcomes.antt =====
-- What a call of the repositories that returns has found and done.
use tekrion.Prelude.{
  ℕ, ◌≡◌, ◌⊎◌, inl, inr, Option-cases, true, false, not, List, map, none, some, Result, ok, arith,
  any, find, Text, text_eq, throw_if, get_or_else, >>=-eq-ok,
}
use tekrion.Protocol.{
  JsonValues, Session, TekrionEvent, RawExchange, RawExchangeParseStatus, parsed,
}
use tekrion.Protocol.Equality.{is_pending}
use tekrion.Storage.{
  Database, EventRow, EventOrigin, NormalizationRow, RawJournalState, recording, complete,
  StorageError, immutable_evidence, out_of_range, is_session, is_sequence, is_exchange,
}
use tekrion.Storage.Sessions.{
  with_session, with_replaced, with_reserved, delete_session, create, replace, remove, reserve,
}
use tekrion.Storage.Events.{event_fits, with_event, insert_row, insert, reread}
use tekrion.Storage.Normalizations.{
  NormalizationInput, NormalizationResult, with_run, unchanged, insert_rows, first_run, repeated,
  insert_normalization, get_raw_exchange, get_normalization_row,
}
use tekrion.Storage.Exchanges.{
  exchange_fits, with_exchange, insert_exchange, begin, insert_complete, insert_archived,
  ArchivedState, journal_of, finalized, finalize,
}
use tekrion.Storage.Tables.{find-test}

pub create-cases :
    (s r : Session) (db db' : Database)
    → create s db ≡ ok (db', r)
    → (with_session s db ≡ db')
      × (any (is_session s.id) db.sessions ≡ false)
      × (any (is_sequence s.id) db.session_sequences ≡ false)
unfolding create
create-cases s r db db' e = ground arith

pub replace-cases :
    (s r : Session) (db db' : Database) → replace s db ≡ ok (db', r) → with_replaced s db ≡ db'
unfolding replace
replace-cases s r db db' e = ground arith

pub remove-cases :
    (id : Text) (r : Session) (db db' : Database)
    → remove id db ≡ ok (db', r)
    → delete_session id db ≡ db'
unfolding remove
remove-cases id r db db' e = ground arith

pub reserve-cases :
    (id : Text) (n : ℕ) (r : List ℕ) (db db' : Database)
    → reserve id n db ≡ ok (db', r)
    → with_reserved id n db ≡ db'
unfolding reserve
reserve-cases id n r db db' e = ground arith

pub insert_row-cases :
    (row : EventRow) (db db' : Database)
    → insert_row row db ≡ ok db'
    → (with_event row db ≡ db') × (event_fits row db ≡ true)
unfolding insert_row
insert_row-cases row db db' e = ground arith

pub insert-cases :
    (values : JsonValues) (event r : TekrionEvent) (origin : EventOrigin) (db db' : Database)
    → insert values event origin db ≡ ok (db', r)
    → (with_event (record { event = reread values event; origin = origin }) db ≡ db')
      × (event_fits (record { event = reread values event; origin = origin }) db ≡ true)
unfolding insert insert_row
insert-cases values event r origin db db' e = ground arith

pub ok_injective : {A : Type 0} {a b : A} → ◌≡◌ {A = Result StorageError A} (ok a) (ok b) → a ≡ b
ok_injective h = ground arith

pub insert_exchange-cases :
    (exchange r : RawExchange) (state : RawJournalState) (db db' : Database)
    → insert_exchange exchange state db ≡ ok (db', r)
    → (with_exchange exchange state db ≡ db') × (exchange_fits exchange db ≡ true)
unfolding insert_exchange
insert_exchange-cases exchange r state db db' e = ground arith

pub begin-cases :
    (exchange r : RawExchange) (db db' : Database)
    → begin exchange db ≡ ok (db', r)
    → insert_exchange exchange recording db ≡ ok (db', r)
unfolding begin
begin-cases exchange r db db' e = ground arith

pub insert_complete-cases :
    (exchange r : RawExchange) (db db' : Database)
    → insert_complete exchange db ≡ ok (db', r)
    → insert_exchange exchange complete db ≡ ok (db', r)
unfolding insert_complete
insert_complete-cases exchange r db db' e = ground arith

pub insert_archived-cases :
    (exchange r : RawExchange) (state : ArchivedState) (db db' : Database)
    → insert_archived exchange state db ≡ ok (db', r)
    → insert_exchange exchange (journal_of state) db ≡ ok (db', r)
unfolding insert_archived
insert_archived-cases exchange r state db db' e = ground arith

pub finalize-cases :
    (exchange r : RawExchange) (db db' : Database)
    → finalize exchange db ≡ ok (db', r)
    → finalized exchange db ≡ db'
unfolding finalize
finalize-cases exchange r db db' e = ground arith

pub first_run-cases :
    (values : JsonValues) (input : NormalizationInput) (exchange : RawExchange)
    (status : RawExchangeParseStatus) (r : NormalizationResult) (db db' : Database)
    → first_run values input exchange status db ≡ ok (db', r)
    → (t : Database) × (insert_rows values input.exchange_id input.parser_version input.events db
        ≡ ok t)
      × (with_run input exchange status t ≡ db')
      × (map (λ x. x.id) input.events ≡ r.event_ids)
unfolding first_run
first_run-cases values input exchange status r db db' e =
    let (b, eb, e1) =
      >>=-eq-ok
        (throw_if (any (λ x. not (text_eq x.session_id exchange.session_id)) input.events)
          immutable_evidence)
        _ e in
    let (t, et, e2) =
      >>=-eq-ok (insert_rows values input.exchange_id input.parser_version input.events db) _ e1 in
    (t, et, ground arith, ground arith)

pub repeated-cases :
    (values : JsonValues) (row : NormalizationRow) (exchange : RawExchange) (es : List TekrionEvent)
    (db db' : Database) (r : NormalizationResult)
    → unchanged db (repeated values row exchange es db) ≡ ok (db', r)
    → db ≡ db'
repeated-cases values row exchange es db db' r e =
    let (x, ex, e1) = >>=-eq-ok (repeated values row exchange es db) _ e in ground arith

pub insert_normalization-cases :
    (values : JsonValues) (input : NormalizationInput) (r : NormalizationResult) (db db' : Database)
    → insert_normalization values input db ≡ ok (db', r)
    → (exchange : RawExchange) × (get_raw_exchange input.exchange_id db ≡ ok exchange)
      × (((status : RawExchangeParseStatus) × (get_normalization_row input.exchange_id
                input.parser_version db
              ≡ none)
            × (first_run values input exchange status db ≡ ok (db', r)))
          ⊎ ((row : NormalizationRow) × (get_normalization_row input.exchange_id
                  input.parser_version db
                ≡ some row)
              × (unchanged db (repeated values row exchange input.events db) ≡ ok (db', r))))
unfolding insert_normalization
insert_normalization-cases values input r db db' e =
    let (exchange, found, e1) = >>=-eq-ok (get_raw_exchange input.exchange_id db) _ e in
    let (c, ec, e2) =
      >>=-eq-ok (throw_if (is_pending (get_or_else input.parse_status parsed)) out_of_range) _ e1 in
    elim (Option-cases (get_normalization_row input.exchange_id input.parser_version db)) [
      | inl absent ↦
          (exchange, found, inl (get_or_else input.parse_status parsed, absent, rw absent at e2))
      | inr (row, present) ↦ (exchange, found, inr (row, present, rw present at e2))
    ]

pub get_raw_exchange-id :
    (id : Text) (db : Database) (exchange : RawExchange)
    → get_raw_exchange id db ≡ ok exchange
    → text_eq exchange.id id ≡ true
unfolding get_raw_exchange
get_raw_exchange-id id db exchange e =
    elim (Option-cases (find (is_exchange id) db.raw_exchanges)) [
      | inl absent ↦ ground arith
      | inr (row, present) ↦ ground (arith, find-test (is_exchange id) db.raw_exchanges row present)
    ]
