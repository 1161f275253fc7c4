-- ===== src/Storage/Exchanges.antt =====
-- raw-exchange-repository.ts: the journal of raw exchanges.
use tekrion.Prelude.{
  Bool, true, false, ◌&&◌, ◌||◌, not, List, [], ◌∷◌, ◌++◌, Option, none, some, Result, ok, err,
  ◌==◌, if◌then◌else◌, any, keep, find, Text, text_eq, is_some, get_or_else, throw_if, ◌>>=◌, ◌>>◌,
}
use tekrion.Protocol.{RawExchange, skipped, capture_incomplete}
use tekrion.Protocol.Equality.{text_lists_eq, protocol_eq, blob_eq, option_eq, is_pending}
use tekrion.Storage.{
  Database, RawExchangeRow, RawJournalState, recording, complete, recovered, Call, StorageError,
  immutable_evidence, constraint, read_only, is_session, is_exchange, session_imported, blob_known,
  update_where,
}

unfoldable pub is_recording : RawJournalState → Bool
is_recording recording = true
is_recording _ = false

-- The references and the keys of the table `raw_exchanges`.
unfoldable pub exchange_fits : RawExchange → Database → Bool
unfolding blob_known
exchange_fits exchange db =
    any (is_session exchange.session_id) db.sessions
    && blob_known exchange.request_body_ref db
    && blob_known exchange.response_body_ref db
    && blob_known exchange.stream_manifest_ref db
    && not (any (is_exchange exchange.id) db.raw_exchanges)
    && not (
        any
          (λ r.
            text_eq r.exchange.session_id exchange.session_id
            && r.exchange.sequence == exchange.sequence)
          db.raw_exchanges)

unfoldable pub with_exchange : RawExchange → RawJournalState → Database → Database
with_exchange exchange journal_state db = record db {
  raw_exchanges =
      db.raw_exchanges ++ record { exchange = exchange; journal_state = journal_state } ∷ [];
}

unfoldable pub insert_exchange : RawExchange → RawJournalState → Call RawExchange
unfolding session_imported exchange_fits with_exchange
insert_exchange exchange journal_state db =
    throw_if (session_imported exchange.session_id db) read_only
    >> throw_if (not (exchange_fits exchange db)) constraint
    >> ok (with_exchange exchange journal_state db, exchange)

unfoldable pub begin : RawExchange → Call RawExchange
unfolding insert_exchange
begin exchange db =
    throw_if (is_some exchange.ended_at || exchange.capture.response_complete) immutable_evidence
    >> insert_exchange exchange recording db

unfoldable pub insert_complete : RawExchange → Call RawExchange
unfolding insert_exchange
insert_complete exchange db =
    throw_if (not (is_some exchange.ended_at)) immutable_evidence
    >> insert_exchange exchange complete db

-- `Exclude<RawJournalState, "recording">`.
pub data ArchivedState : Type 0 where
  archived_complete archived_recovered : ArchivedState

abbrev pub journal_of : ArchivedState → RawJournalState
journal_of archived_complete = complete
journal_of archived_recovered = recovered

unfoldable pub insert_archived : RawExchange → ArchivedState → Call RawExchange
unfolding insert_exchange
insert_archived exchange state db =
    throw_if (not (is_some exchange.ended_at)) immutable_evidence
    >> insert_exchange exchange (journal_of state) db

-- `assertImmutableIdentity`: its `identityChanged`.
unfoldable pub identity_changed : RawExchange → RawExchange → Bool
unfolding protocol_eq text_lists_eq option_eq blob_eq
identity_changed existing replacement =
    not (text_eq existing.session_id replacement.session_id)
    || not (existing.sequence == replacement.sequence)
    || not (text_eq existing.method replacement.method)
    || not (text_eq existing.path replacement.path)
    || not (protocol_eq existing.protocol replacement.protocol)
    || not (text_eq existing.started_at replacement.started_at)
    || not (text_lists_eq existing.query replacement.query)
    || not (text_lists_eq existing.request_headers replacement.request_headers)
    || is_some existing.request_body_ref
      && not (option_eq blob_eq existing.request_body_ref replacement.request_body_ref)

unfoldable pub get_row : Text → Database → Option RawExchangeRow
get_row id db = find (is_exchange id) db.raw_exchanges

-- The blobs that the `UPDATE` of `finalize` refers to.
unfoldable pub blobs_known : RawExchange → Database → Bool
unfolding blob_known
blobs_known exchange db =
    blob_known exchange.request_body_ref db
    && blob_known exchange.response_body_ref db
    && blob_known exchange.stream_manifest_ref db

-- `WHERE id = @id AND journal_state = 'recording'`.
unfoldable pub is_open : Text → RawExchangeRow → Bool
unfolding is_recording
is_open id row = is_exchange id row && is_recording row.journal_state

unfoldable pub finalized : RawExchange → Database → Database
unfolding is_open
finalized exchange db = record db {
  raw_exchanges =
      update_where (is_open exchange.id)
        (λ row. record { exchange = exchange; journal_state = complete }) db.raw_exchanges;
}

unfoldable pub finalize : RawExchange → Call RawExchange
unfolding get_row is_recording identity_changed session_imported blobs_known finalized
finalize exchange db = elim (get_row exchange.id db) [
  | none ↦ err immutable_evidence
  | some row ↦
      throw_if (not (is_recording row.journal_state)) immutable_evidence
      >> throw_if (not (is_some exchange.ended_at)) immutable_evidence
      >> throw_if (identity_changed row.exchange exchange) immutable_evidence
      >> throw_if (session_imported exchange.session_id db) read_only
      >> throw_if (not (blobs_known exchange db)) constraint
      >> ok (finalized exchange db, exchange)
]

unfoldable pub get : Text → Database → Option RawExchange
unfolding get_row
get id db = elim (get_row id db) [ some row ↦ some row.exchange | none ↦ none ]

unfoldable pub get_journal_state : Text → Database → Option RawJournalState
unfolding get_row
get_journal_state id db = elim (get_row id db) [ some row ↦ some row.journal_state | none ↦ none ]

-- What `recoverIncomplete` makes of an exchange.
unfoldable pub recovered_exchange : Text → RawExchange → RawExchange
unfolding is_pending
recovered_exchange recovered_at exchange = record exchange {
  ended_at = some (get_or_else exchange.ended_at recovered_at);
  outcome = capture_incomplete;
  parse_status = if is_pending exchange.parse_status then skipped else exchange.parse_status;
  capture = record (exchange.capture) { response_complete = false };
}

-- The `UPDATE` of `recoverIncomplete`.
unfoldable pub with_recovered : Text → RawExchange → Database → Database
unfolding is_open recovered_exchange
with_recovered recovered_at exchange db = record db {
  raw_exchanges =
      update_where (is_open exchange.id)
        (λ r. record {
          exchange = recovered_exchange recovered_at exchange;
          journal_state = recovered;
        })
        db.raw_exchanges;
}

-- The loop over the rows that were recording; a row whose session is imported is refused.
unfoldable pub recover_rows :
    Text → List RawExchangeRow → Database → Result StorageError (Database × List Text)
unfolding is_open with_recovered session_imported
recover_rows recovered_at [] db = ok (db, [])
recover_rows recovered_at (row ∷ rows) db =
    if any (is_open row.exchange.id) db.raw_exchanges
    then (throw_if (session_imported row.exchange.session_id db) read_only
        >> (recover_rows recovered_at rows (with_recovered recovered_at row.exchange db)
            >>= λ (after, ids). ok (after, row.exchange.id ∷ ids)))
    else recover_rows recovered_at rows db

module _ (before : Text → Text → Bool) where
  -- `ORDER BY started_at, id`.
  unfoldable pub row_precedes : RawExchangeRow → RawExchangeRow → Bool
  row_precedes a b =
      before a.exchange.started_at b.exchange.started_at
      || text_eq a.exchange.started_at b.exchange.started_at && before a.exchange.id b.exchange.id

  unfoldable pub insert_row_in_order : RawExchangeRow → List RawExchangeRow → List RawExchangeRow
  unfolding row_precedes
  insert_row_in_order r [] = r ∷ []
  insert_row_in_order r (x ∷ xs) =
      if row_precedes x r then x ∷ insert_row_in_order r xs else r ∷ x ∷ xs

  unfoldable pub rows_in_order : List RawExchangeRow → List RawExchangeRow
  unfolding insert_row_in_order
  rows_in_order [] = []
  rows_in_order (x ∷ xs) = insert_row_in_order x (rows_in_order xs)

  -- The `SELECT` of `recoverIncomplete`.
  unfoldable pub recording_rows : Database → List RawExchangeRow
  unfolding rows_in_order is_recording
  recording_rows db = rows_in_order (keep (λ row. is_recording row.journal_state) db.raw_exchanges)

  unfoldable pub recover_incomplete : Text → Call (List Text)
  unfolding recording_rows recover_rows
  recover_incomplete recovered_at db = recover_rows recovered_at (recording_rows db) db
