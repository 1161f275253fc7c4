-- ===== src/Storage/Changes.antt =====
-- Every call makes a few changes of the tables, or none: what each of them keeps, a history keeps.
use tekrion.Prelude.{
  ℕ, ◌≡◌, refl, subst, inl, inr, Bool, Bool-cases, true, false, List, [], ◌∷◌, map, Result, ok, err,
  arith, any, all, Text, text_eq, throw_if, >>=-eq-ok,
}
use tekrion.Protocol.{JsonValues, Session, TekrionEvent, RawExchange, RawExchangeParseStatus}
use tekrion.Storage.{
  Database, EventRow, RawExchangeRow, RawJournalState, recording, complete, StorageError, read_only,
  session_imported, is_session, is_sequence,
}
use tekrion.Storage.Sessions.{
  with_session, with_replaced, with_reserved, delete_session, create, replace, remove, reserve,
}
use tekrion.Storage.Events.{
  event_fits, with_event, insert_row, insert, reread, rebuild_search_index, search_row,
}
use tekrion.Storage.Normalizations.{
  NormalizationInput, NormalizationResult, with_run, normalized_row, insert_rows,
  insert_normalization,
}
use tekrion.Storage.Exchanges.{
  exchange_fits, with_exchange, insert_exchange, begin, insert_complete, insert_archived,
  journal_of, finalized, finalize, with_recovered, recover_rows, recover_incomplete, is_open,
  recording_rows,
}
use tekrion.Storage.Histories.{
  Engine, Operation, creates, replaces, removes, reserves, inserts, normalizes,
  rebuilds_search_index, begins, inserts_complete, finalizes, inserts_archived, recovers,
  stores_blobs, attempt, perform, run,
}
use tekrion.Storage.Outcomes.{
  create-cases, replace-cases, remove-cases, reserve-cases, insert_row-cases, insert-cases,
  ok_injective, insert_exchange-cases, begin-cases, insert_complete-cases, insert_archived-cases,
  finalize-cases, first_run-cases, repeated-cases, insert_normalization-cases, get_raw_exchange-id,
}

pub data Change : Type 0 where
  session_added session_replaced : Session → Change
  session_deleted : Text → Change
  numbers_reserved : Text → ℕ → Change
  event_added : EventRow → Change
  search_index_rebuilt : Change
  run_added : NormalizationInput → RawExchange → RawExchangeParseStatus → Change
  exchange_added : RawExchange → RawJournalState → Change
  exchange_finalized : RawExchange → Change
  exchange_recovered : Text → RawExchange → Change
  blobs_stored : List Text → Change

abbrev pub apply : Change → Database → Database
apply (session_added s) db = with_session s db
apply (session_replaced s) db = with_replaced s db
apply (session_deleted id) db = delete_session id db
apply (numbers_reserved id n) db = with_reserved id n db
apply (event_added row) db = with_event row db
apply search_index_rebuilt db = record db {
  event_search = map (λ row. search_row row.event) db.events;
}
apply (run_added input exchange status) db = with_run input exchange status db
apply (exchange_added exchange state) db = with_exchange exchange state db
apply (exchange_finalized exchange) db = finalized exchange db
apply (exchange_recovered at exchange) db = with_recovered at exchange db
apply (blobs_stored ids) db = record db { blobs = ids }

-- What the guards of a call have found where it makes the change, if only operations in scope are
-- performed.
abbrev pub Allowed : (Operation → Bool) → Change → Database → Type 0
Allowed scope (session_added s) db =
    (scope (creates s) ≡ true)
    × (any (is_session s.id) db.sessions ≡ false)
    × (any (is_sequence s.id) db.session_sequences ≡ false)
Allowed scope (session_deleted id) db = scope (removes id) ≡ true
Allowed scope (event_added row) db = event_fits row db ≡ true
Allowed scope (run_added input exchange status) db = text_eq exchange.id input.exchange_id ≡ true
Allowed scope (exchange_added exchange state) db = exchange_fits exchange db ≡ true
Allowed scope _ db = Unit

-- The predicate is kept by each change that operations in scope make.
abbrev pub Kept : (Operation → Bool) → (Database → Type 0) → Type 0
Kept scope I = (c : Change) (db : Database) → Allowed scope c db → I db → I (apply c db)

module _ (scope : Operation → Bool) (I : Database → Type 0) (kept : Kept scope I) where
  insert_rows-keeps :
      (values : JsonValues) (id version : Text) (es : List TekrionEvent) (db db' : Database)
      → insert_rows values id version es db ≡ ok db'
      → I db
      → I db'
  unfolding insert_rows
  insert_rows-keeps values id version [] db db' e i = subst I (ok_injective e) i
  insert_rows-keeps values id version (x ∷ es) db db' e i =
      let (t, et, e1) =
        >>=-eq-ok (insert_row (normalized_row values id version x) db)
          (insert_rows values id version es) e in
      let (changed, fits) = insert_row-cases (normalized_row values id version x) db t et in
      insert_rows-keeps values id version es t db' e1
        (subst I changed (kept (event_added (normalized_row values id version x)) db fits i))

  insert_normalization-keeps :
      (values : JsonValues) (input : NormalizationInput) (r : NormalizationResult)
      (db db' : Database)
      → insert_normalization values input db ≡ ok (db', r)
      → I db
      → I db'
  insert_normalization-keeps values input r db db' e i =
      let (exchange, found, branch) = insert_normalization-cases values input r db db' e in
      elim branch [
        | inl (status, absent, e1) ↦
            let (t, et, changed, ids) = first_run-cases values input exchange status r db db' e1 in
            subst I changed (
              kept (run_added input exchange status) t
                (get_raw_exchange-id input.exchange_id db exchange found)
                (insert_rows-keeps values input.exchange_id input.parser_version input.events db t
                  et i))
        | inr (row, present, e1) ↦
            subst I (repeated-cases values row exchange input.events db db' r e1) i
      ]

  insert_exchange-keeps :
      (exchange r : RawExchange) (state : RawJournalState) (db db' : Database)
      → insert_exchange exchange state db ≡ ok (db', r)
      → I db
      → I db'
  insert_exchange-keeps exchange r state db db' e i =
      let (changed, fits) = insert_exchange-cases exchange r state db db' e in
      subst I changed (kept (exchange_added exchange state) db fits i)

  recover_rows-keeps :
      (at : Text) (rows : List RawExchangeRow) (db db' : Database) (ids : List Text)
      → recover_rows at rows db ≡ ok (db', ids)
      → I db
      → I db'
  unfolding recover_rows
  recover_rows-keeps at [] db db' ids e i = subst I (same e) i
    where
      same :
          ◌≡◌ {A = Result StorageError (Database × List Text)} (ok (db, [])) (ok (db', ids))
          → db ≡ db'
      same h = ground arith
  recover_rows-keeps at (row ∷ rows) db db' ids e i =
      elim (Bool-cases (any (is_open row.exchange.id) db.raw_exchanges)) [
        | inl found ↦
            let (u, eu, e1) =
              >>=-eq-ok (throw_if (session_imported row.exchange.session_id db) read_only) _
                (rw (found, recover_rows) at e) in
            let (p, ep, e2) =
              >>=-eq-ok (recover_rows at rows (with_recovered at row.exchange db)) _ e1 in
            recover_rows-keeps at rows (with_recovered at row.exchange db) db' p.1 (ground arith)
              (kept (exchange_recovered at row.exchange) db tt i)
        | inr absent ↦ recover_rows-keeps at rows db db' ids (rw (absent, recover_rows) at e) i
      ]

  module _ (engine : Engine) where
    attempt-keeps :
        (op : Operation) (db db' : Database)
        → scope op ≡ true
        → attempt engine op db ≡ ok db'
        → I db
        → I db'
    unfolding recover_incomplete rebuild_search_index
    attempt-keeps (creates s) db db' h e i =
        let (p, ep, e1) = >>=-eq-ok (create s db) _ e in
        let (changed, a, b) = create-cases s p.1 db db' (ground arith) in
        subst I changed (kept (session_added s) db (h, a, b) i)
    attempt-keeps (replaces s) db db' h e i =
        let (p, ep, e1) = >>=-eq-ok (replace s db) _ e in
        subst I (replace-cases s p.1 db db' (ground arith)) (kept (session_replaced s) db tt i)
    attempt-keeps (removes id) db db' h e i =
        let (p, ep, e1) = >>=-eq-ok (remove id db) _ e in
        subst I (remove-cases id p.1 db db' (ground arith)) (kept (session_deleted id) db h i)
    attempt-keeps (reserves id n) db db' h e i =
        let (p, ep, e1) = >>=-eq-ok (reserve id n db) _ e in
        subst I (reserve-cases id n p.1 db db' (ground arith))
          (kept (numbers_reserved id n) db tt i)
    attempt-keeps (inserts event origin) db db' h e i =
        let (p, ep, e1) = >>=-eq-ok (insert engine.json event origin db) _ e in
        let (changed, fits) = insert-cases engine.json event p.1 origin db db' (ground arith) in
        subst I changed (
          kept (event_added (record { event = reread engine.json event; origin = origin })) db fits
            i)
    attempt-keeps (normalizes input) db db' h e i =
        let (p, ep, e1) = >>=-eq-ok (insert_normalization engine.json input db) _ e in
        insert_normalization-keeps engine.json input p.1 db db' (ground arith) i
    attempt-keeps rebuilds_search_index db db' h e i =
        subst I (ok_injective e) (kept search_index_rebuilt db tt i)
    attempt-keeps (begins exchange) db db' h e i =
        let (p, ep, e1) = >>=-eq-ok (begin exchange db) _ e in
        insert_exchange-keeps exchange p.1 recording db db'
          (begin-cases exchange p.1 db db' (ground arith)) i
    attempt-keeps (inserts_complete exchange) db db' h e i =
        let (p, ep, e1) = >>=-eq-ok (insert_complete exchange db) _ e in
        insert_exchange-keeps exchange p.1 complete db db'
          (insert_complete-cases exchange p.1 db db' (ground arith)) i
    attempt-keeps (finalizes exchange) db db' h e i =
        let (p, ep, e1) = >>=-eq-ok (finalize exchange db) _ e in
        subst I (finalize-cases exchange p.1 db db' (ground arith))
          (kept (exchange_finalized exchange) db tt i)
    attempt-keeps (inserts_archived exchange state) db db' h e i =
        let (p, ep, e1) = >>=-eq-ok (insert_archived exchange state db) _ e in
        insert_exchange-keeps exchange p.1 (journal_of state) db db'
          (insert_archived-cases exchange p.1 state db db' (ground arith)) i
    attempt-keeps (recovers at) db db' h e i =
        let (p, ep, e1) = >>=-eq-ok (recover_incomplete engine.before at db) _ e in
        recover_rows-keeps at (recording_rows engine.before db) db db' p.1 (ground arith) i
    attempt-keeps (stores_blobs ids) db db' h e i =
        subst I (ok_injective e) (kept (blobs_stored ids) db tt i)

    perform-keeps :
        (op : Operation) (db : Database) → scope op ≡ true → I db → I (perform engine op db)
    perform-keeps op db h i = performed (attempt engine op db) refl
      where
        performed :
            (r : Result StorageError Database)
            → attempt engine op db ≡ r
            → I (elim r [ ok after ↦ after | err e ↦ db ])
        performed (ok db') e = attempt-keeps op db db' h e i
        performed (err x) e = i

    -- What each change keeps, a history keeps.
    pub run-keeps :
        (ops : List Operation) (db : Database) → all scope ops ≡ true → I db → I (run engine ops db)
    unfolding run
    run-keeps [] db h i = i
    run-keeps (op ∷ ops) db h i =
        run-keeps ops (perform engine op db) (ground arith) (perform-keeps op db (ground arith) i)
