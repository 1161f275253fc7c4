-- ===== src/Storage/Index.antt =====
-- The search index follows the events.
use tekrion.Prelude.{
  ◌≡◌, refl, sym, ap, ◌∙◌, true, List, [], ◌∷◌, ◌++◌, map, ok, arith, all, length,
}
use tekrion.Storage.{Database, EventRow}
use tekrion.Storage.Sessions.{with_session, with_replaced, with_reserved}
use tekrion.Storage.Events.{with_event, search_row, rebuild_search_index}
use tekrion.Storage.Normalizations.{with_run}
use tekrion.Storage.Exchanges.{with_exchange, finalized, with_recovered}
use tekrion.Storage.Histories.{Engine, Operation, run, empty_database}
use tekrion.Storage.Changes.{
  session_added, session_replaced, session_deleted, numbers_reserved, event_added,
  search_index_rebuilt, run_added, exchange_added, exchange_finalized, exchange_recovered,
  blobs_stored, Kept, run-keeps,
}
use tekrion.Storage.Journal.{keeps_all}

abbrev IsIndexed : Database → Type 0
IsIndexed db = db.event_search ≡ map (λ row. search_row row.event) db.events

added_row :
    (rows : List EventRow) (row : EventRow)
    → map (λ r. search_row r.event) rows ++ search_row row.event ∷ []
      ≡ map (λ r. search_row r.event) (rows ++ row ∷ [])
added_row [] row = refl
added_row (x ∷ xs) row = ap (λ rs. search_row x.event ∷ rs) (added_row xs row)

change-IsIndexed : Kept keeps_all IsIndexed
unfolding with_session with_replaced with_reserved with_event with_run with_exchange finalized
    with_recovered keeps_all
change-IsIndexed (session_added s) db h v = v
change-IsIndexed (session_replaced s) db h v = v
change-IsIndexed (session_deleted id) db h v = ground arith
change-IsIndexed (numbers_reserved id n) db h v = v
change-IsIndexed (event_added row) db h v =
    ap (λ rows. rows ++ search_row row.event ∷ []) v ∙ added_row db.events row
change-IsIndexed search_index_rebuilt db h v = refl
change-IsIndexed (run_added input exchange status) db h v = v
change-IsIndexed (exchange_added exchange state) db h v = v
change-IsIndexed (exchange_finalized exchange) db h v = v
change-IsIndexed (exchange_recovered at exchange) db h v = v
change-IsIndexed (blobs_stored ids) db h v = v

-- After any history of calls without removals from an empty database, to rebuild the search index
-- changes nothing, and returns the number of events.
pub rebuild_search_index-run :
    (engine : Engine) (ops : List Operation)
    → all keeps_all ops ≡ true
    → rebuild_search_index (run engine ops empty_database)
      ≡ ok (run engine ops empty_database, length (run engine ops empty_database).events)
unfolding rebuild_search_index
rebuild_search_index-run engine ops kept =
    let db = run engine ops empty_database in
    let indexed : IsIndexed db =
      run-keeps keeps_all IsIndexed change-IsIndexed engine ops empty_database kept refl in
    ap (λ index. ok (record db { event_search = index }, length db.events)) (sym indexed)
