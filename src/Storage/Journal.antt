-- ===== src/Storage/Journal.antt =====
-- A raw exchange that is no longer recording stays as it is.
use tekrion.Prelude.{
  ◌≡◌, sym, ap, ◌∙◌, inl, inr, Bool, Option-cases, true, false, List, some, err, arith, all, find,
  Text, text_eq, text_eq_iff, if◌then◌else◌,
}
use tekrion.Protocol.{RawExchange}
use tekrion.Storage.{
  Database, RawExchangeRow, RawJournalState, immutable_evidence, is_exchange, update_where,
}
use tekrion.Storage.Sessions.{with_session, with_replaced, with_reserved}
use tekrion.Storage.Events.{with_event}
use tekrion.Storage.Normalizations.{with_run}
use tekrion.Storage.Exchanges.{
  with_exchange, finalized, with_recovered, recovered_exchange, is_open, is_recording, finalize,
  get_row, get_journal_state,
}
use tekrion.Storage.Histories.{Engine, Operation, removes, run}
use tekrion.Storage.Changes.{
  session_added, session_replaced, session_deleted, numbers_reserved, event_added,
  search_index_rebuilt, run_added, exchange_added, exchange_finalized, exchange_recovered,
  blobs_stored, Kept, run-keeps,
}
use tekrion.Storage.Tables.{find-append, find-update}

-- Nothing is removed.
unfoldable pub keeps_all : Operation → Bool
keeps_all (removes id) = false
keeps_all op = true

-- The exchange is there in this state, which is not `recording`.
abbrev IsClosed : RawJournalState → Text → Database → Type 0
IsClosed state id db =
    (row : RawExchangeRow) × (find (is_exchange id) db.raw_exchanges ≡ some row)
    × (row.journal_state ≡ state)

module _ (state : RawJournalState) (id : Text) (closed : is_recording state ≡ false) where
  updated-IsClosed :
      (q : RawExchangeRow → Bool) (f : RawExchangeRow → RawExchangeRow) (rows : List RawExchangeRow)
      (row : RawExchangeRow)
      → ((r : RawExchangeRow) → q r ≡ true → is_exchange id (f r) ≡ is_exchange id r)
      → (row.journal_state ≡ state → q row ≡ true → (f row).journal_state ≡ state)
      → find (is_exchange id) rows ≡ some row
      → row.journal_state ≡ state
      → (row' : RawExchangeRow) × (find (is_exchange id) (update_where q f rows) ≡ some row')
        × (row'.journal_state ≡ state)
  updated-IsClosed q f rows row same_id same_state found at = (
    if q row then f row else row,
    find-update (is_exchange id) q f same_id rows row found,
    by_test,
  )
    where
      by_test : (if q row then f row else row).journal_state ≡ state
      by_test = ground arith

  open-apart :
      (other : Text) (row : RawExchangeRow)
      → row.journal_state ≡ state
      → is_open other row ≡ true
      → ⊥
  unfolding is_open
  open-apart other row at h = ground (arith, ap is_recording at)

  open-id :
      (other : Text) (r : RawExchangeRow)
      → is_open other r ≡ true
      → text_eq other id ≡ is_exchange id r
  unfolding is_open
  open-id other r h =
      ap (λ t. text_eq t id) (sym ((text_eq_iff r.exchange.id other).0 (ground arith)))

  change-IsClosed : Kept keeps_all (IsClosed state id)
  unfolding with_session with_replaced with_reserved with_event with_run with_exchange finalized
      with_recovered recovered_exchange keeps_all
  change-IsClosed (session_added s) db h v = v
  change-IsClosed (session_replaced s) db h v = v
  change-IsClosed (session_deleted other) db h v = ground arith
  change-IsClosed (numbers_reserved other n) db h v = v
  change-IsClosed (event_added r) db h v = v
  change-IsClosed search_index_rebuilt db h v = v
  change-IsClosed (run_added input exchange status) db h (row, found, at) =
      updated-IsClosed (is_exchange input.exchange_id)
        (λ r. record r { exchange = record exchange { parse_status = status } }) db.raw_exchanges
        row
        (λ r e.
          ap (λ t. text_eq t id)
            ((text_eq_iff exchange.id input.exchange_id).0 h
              ∙ sym ((text_eq_iff r.exchange.id input.exchange_id).0 e)))
        (λ a e. a) found at
  change-IsClosed (exchange_added exchange other) db h (row, found, at) =
      (row, find-append (is_exchange id) db.raw_exchanges _ row found, at)
  change-IsClosed (exchange_finalized exchange) db h (row, found, at) =
      updated-IsClosed (is_open exchange.id) _ db.raw_exchanges row (λ r e. open-id exchange.id r e)
        (λ a e. absurd (open-apart exchange.id row a e)) found at
  change-IsClosed (exchange_recovered t exchange) db h (row, found, at) =
      updated-IsClosed (is_open exchange.id) _ db.raw_exchanges row (λ r e. open-id exchange.id r e)
        (λ a e. absurd (open-apart exchange.id row a e)) found at
  change-IsClosed (blobs_stored ids) db h v = v

  finalize-closed :
      (exchange : RawExchange) (db : Database)
      → exchange.id ≡ id
      → IsClosed state id db
      → finalize exchange db ≡ err immutable_evidence
  unfolding finalize get_row
  finalize-closed exchange db same (row, found, at) =
      let here : find (is_exchange exchange.id) db.raw_exchanges ≡ some row = rw same found in
      let recorded : is_recording row.journal_state ≡ false = ap is_recording at ∙ closed in
      ground arith

  -- Once an exchange has a journal state other than recording, then, after any history without
  -- removals, it still has that state, and to finalize it is refused.
  pub finalize-final :
      (engine : Engine) (ops : List Operation) (db : Database) (exchange : RawExchange)
      → get_journal_state id db ≡ some state
      → exchange.id ≡ id
      → all keeps_all ops ≡ true
      → (get_journal_state id (run engine ops db) ≡ some state)
        × (finalize exchange (run engine ops db) ≡ err immutable_evidence)
  unfolding get_journal_state get_row
  finalize-final engine ops db exchange at same kept =
      let (row, found, now) =
        run-keeps keeps_all (IsClosed state id) change-IsClosed engine ops db kept start in
      (
        rw (found, get_journal_state, get_row) (ap some now),
        finalize-closed exchange (run engine ops db) same (row, found, now),
      )
    where
      start : IsClosed state id db
      start = elim (Option-cases (find (is_exchange id) db.raw_exchanges)) [
        | inl absent ↦ ground arith
        | inr (row, present) ↦ (row, present, ground arith)
      ]
