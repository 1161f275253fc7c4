-- ===== src/Storage/Sessions.antt =====
-- session-repository.ts: sessions, and the numbers of their events.
use tekrion.Prelude.{
  ℕ, zero, suc, ◌+◌, Bool, false, ◌&&◌, ◌||◌, not, List, [], ◌∷◌, ◌++◌, Option, none, some, Result,
  ok, err, ltb, any, keep, find, Text, text_eq, throw_if, ◌>>=◌, ◌>>◌,
}
use tekrion.Protocol.{Session}
use tekrion.Protocol.Equality.{is_active, is_imported, level_eq}
use tekrion.Storage.{
  Database, SessionRow, Call, StorageError, immutable_evidence, sequence_allocation, out_of_range,
  constraint, read_only, is_session, is_sequence, session_imported, update_where,
}

-- `hydrateSession`: the record, with the columns that events and replacements change.
unfoldable pub hydrate_session : SessionRow → Session
hydrate_session row = record (row.session) {
  status = row.status;
  ended_at = row.ended_at;
  counts = record {
    events = row.event_count;
    errors = row.error_count;
    input_tokens = row.input_tokens;
    output_tokens = row.output_tokens;
  };
}

-- `sessionParameters`, as a row.
unfoldable pub session_row : Session → SessionRow
session_row session = record {
  session = session;
  ended_at = session.ended_at;
  status = session.status;
  event_count = session.counts.events;
  error_count = session.counts.errors;
  input_tokens = session.counts.input_tokens;
  output_tokens = session.counts.output_tokens;
}

-- The two `INSERT`s of `create`.
unfoldable pub with_session : Session → Database → Database
unfolding session_row
with_session session db = record db {
  sessions = db.sessions ++ session_row session ∷ [];
  session_sequences =
      db.session_sequences ++ record { session_id = session.id; next_sequence = 1 } ∷ [];
}

unfoldable pub create : Session → Call Session
unfolding with_session
create session db =
    throw_if (any (is_session session.id) db.sessions) constraint
    >> throw_if (any (is_sequence session.id) db.session_sequences) constraint
    >> ok (with_session session db, session)

unfoldable pub get : Text → Database → Option Session
unfolding hydrate_session
get id db = elim (find (is_session id) db.sessions) [
  | some row ↦ some (hydrate_session row)
  | none ↦ none
]

unfoldable pub get_required : Text → Database → Result StorageError Session
unfolding get
get_required id db = elim (get id db) [ some session ↦ ok session | none ↦ err immutable_evidence ]

-- The `UPDATE` of `replace`: the counts of events and errors stay.
unfoldable pub replaced_row : Session → SessionRow → SessionRow
unfolding session_row
replaced_row session row = record (session_row session) {
  event_count = row.event_count;
  error_count = row.error_count;
}

-- The guards of `replace`.
unfoldable pub replaceable : Session → Session → Result StorageError (Unit {0})
unfolding is_imported level_eq
replaceable session existing =
    throw_if (is_imported existing.status) immutable_evidence
    >> throw_if
        (not (text_eq existing.started_at session.started_at)
          || not (level_eq existing.capture_level session.capture_level))
        immutable_evidence

-- The database after the `UPDATE`.
unfoldable pub with_replaced : Session → Database → Database
unfolding replaced_row
with_replaced session db = record db {
  sessions = update_where (is_session session.id) (replaced_row session) db.sessions;
}

unfoldable pub replace : Session → Call Session
unfolding get_required replaceable with_replaced session_imported
replace session db = do
  existing ← get_required session.id db
  checked ← replaceable session existing
  writable ← throw_if (session_imported session.id db) read_only
  result ← get_required session.id (with_replaced session db)
  ok (with_replaced session db, result)

-- `ON DELETE CASCADE` for a session: its sequence, exchanges and events, and the normalizations of
-- its exchanges. The search index is no table with references, and keeps its rows.
unfoldable pub delete_session : Text → Database → Database
delete_session id db = record db {
  sessions = keep (λ row. not (is_session id row)) db.sessions;
  session_sequences = keep (λ row. not (is_sequence id row)) db.session_sequences;
  raw_exchanges = keep (λ row. not (text_eq row.exchange.session_id id)) db.raw_exchanges;
  events = keep (λ row. not (text_eq row.event.session_id id)) db.events;
  normalization_runs =
      keep
        (λ run. not (
          any (λ row. text_eq row.exchange.id run.exchange_id && text_eq row.exchange.session_id id)
            db.raw_exchanges))
        db.normalization_runs;
}

-- Whether an event refers to an exchange that is no longer there.
unfoldable pub dangling : Database → Bool
dangling db =
    any
      (λ row. elim row.origin.raw_exchange_id [
        | none ↦ false
        | some id ↦ not (any (λ r. text_eq r.exchange.id id) db.raw_exchanges)
      ])
      db.events

unfoldable pub remove : Text → Call Session
unfolding get_required is_active delete_session dangling
remove id db = do
  session ← get_required id db
  checked ← throw_if (is_active session.status) immutable_evidence
  referred ← throw_if (dangling (delete_session id db)) constraint
  ok (delete_session id db, session)

-- `Array.from({ length: count }, (_, index) => first + index)`.
unfoldable pub numbers_from : ℕ → ℕ → List ℕ
numbers_from first zero = []
numbers_from first (suc count) = first ∷ numbers_from (suc first) count

-- The `UPDATE` of `reserve`.
unfoldable pub with_reserved : Text → ℕ → Database → Database
with_reserved id count db = record db {
  session_sequences =
      update_where (is_sequence id) (λ r. record r { next_sequence = r.next_sequence + count })
        db.session_sequences;
}

-- `SequenceAllocator.reserve`.
unfoldable pub reserve : Text → ℕ → Call (List ℕ)
unfolding session_imported numbers_from with_reserved
reserve id count db =
    throw_if (ltb count 1 || ltb 10000 count) out_of_range
    >> elim (find (is_sequence id) db.session_sequences) [
      | none ↦ err sequence_allocation
      | some row ↦
          throw_if (session_imported id db) read_only
          >> ok (with_reserved id count db, numbers_from row.next_sequence count)
    ]
