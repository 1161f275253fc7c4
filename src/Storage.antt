-- ===== src/Storage.antt =====
-- packages/storage/src: the database that the repositories share, as the rows of its tables, with
-- the keys, the references and the triggers of migrations.ts. A row holds the record that its
-- `record_json` does, and the columns that can come to differ from it. Columns that repeat the record,
-- and the times of creation and update, which nothing reads back, are left out. A call returns the
-- database and its result, or throws and, its statements being in one transaction, changes nothing.
pub mod Sessions
pub mod Tables
pub mod Events
pub mod Normalizations
pub mod Exchanges
pub mod Histories
pub mod Outcomes
pub mod Changes
pub mod Validity
pub mod Reservations
pub mod Idempotence
pub mod Journal
pub mod Recovery
pub mod Counts
pub mod Index
pub mod Tests
use tekrion.Prelude.{
  ℕ, Bool, true, ◌&&◌, List, [], ◌∷◌, if◌then◌else◌, Option, none, some, Result, any, find, Text,
  text_eq, is_some,
}
use tekrion.Protocol.{TekrionEvent, Session, SessionStatus, RawExchange, BlobReference}
use tekrion.Protocol.Equality.{is_imported}

-- errors.ts, the errors of SQLite for a broken key or reference and for a trigger's refusal, and
-- `RangeError`.
pub data StorageError : Type 0 where
  immutable_evidence storage_integrity sequence_allocation out_of_range invalid_cursor constraint
        read_only :
      StorageError

pub data RawJournalState : Type 0 where
  recording complete recovered : RawJournalState

pub record SessionRow : Type 0 where
  pub session : Session
  pub ended_at : Option Text
  pub status : SessionStatus
  pub event_count : ℕ
  pub error_count : ℕ
  pub input_tokens : Option ℕ
  pub output_tokens : Option ℕ

-- A row of `session_sequences`.
pub record SequenceRow : Type 0 where
  pub session_id : Text
  pub next_sequence : ℕ

pub record RawExchangeRow : Type 0 where
  pub exchange : RawExchange
  pub journal_state : RawJournalState

pub record EventOrigin : Type 0 where
  pub raw_exchange_id : Option Text
  pub normalization_version : Option Text

pub record EventRow : Type 0 where
  pub event : TekrionEvent
  pub origin : EventOrigin

-- A row of `event_search`.
pub record SearchRow : Type 0 where
  pub event_id : Text
  pub session_id : Text
  pub type : Text
  pub text : Text

pub record NormalizationRow : Type 0 where
  pub exchange_id : Text
  pub parser_version : Text
  pub request_sha256 : Option Text
  pub response_sha256 : Option Text
  pub event_ids : List Text

pub record Database : Type 0 where
  pub sessions : List SessionRow
  pub session_sequences : List SequenceRow
  pub raw_exchanges : List RawExchangeRow
  pub events : List EventRow
  pub event_search : List SearchRow
  pub normalization_runs : List NormalizationRow
  -- The identifiers of the table `blobs`.
  pub blobs : List Text

abbrev pub Call : Type 0 → Type 0
Call A = Database → Result StorageError (Database × A)

abbrev pub is_session : Text → SessionRow → Bool
is_session id row = text_eq row.session.id id

abbrev pub is_sequence : Text → SequenceRow → Bool
is_sequence id row = text_eq row.session_id id

abbrev pub is_exchange : Text → RawExchangeRow → Bool
is_exchange id row = text_eq row.exchange.id id

abbrev pub is_event : Text → EventRow → Bool
is_event id row = text_eq row.event.id id

-- The condition of the triggers `imported_session_no_…`.
unfoldable pub session_imported : Text → Database → Bool
unfolding is_imported
session_imported id db =
    any (λ row. text_eq row.session.id id && is_imported row.status) db.sessions

-- A reference to a row of `blobs` that may be null.
unfoldable pub blob_known : Option BlobReference → Database → Bool
blob_known none db = true
blob_known (some b) db = any (text_eq b.id) db.blobs

-- `UPDATE … WHERE`: the rows that a test selects are changed.
abbrev pub update_where : {A : Type 0} → (A → Bool) → (A → A) → List A → List A
update_where p f [] = []
update_where p f (x ∷ xs) = (if p x then f x else x) ∷ update_where p f xs
