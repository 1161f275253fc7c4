-- ===== src/Storage/Events.antt =====
-- event-repository.ts: how an event is stored and how events are read back, but for their
-- normalization. A row holds the event that its JSON stands for, and what JSON gives back of a value
-- is a parameter, `values`. Texts are ordered by a collation that is a parameter, and so are `LIKE` and the text
-- of a cursor.
use tekrion.Prelude.{
  ℕ, suc, ◌+◌, max, min, Bool, true, false, ◌&&◌, ◌||◌, not, List, [], ◌∷◌, ◌++◌, map, Option, none,
  some, Result, ok, err, ltb, leb, ◌==◌, if◌then◌else◌, any, keep, find, length, take, Text, codes,
  text_eq, get_or_else, throw_if, ◌>>=◌, ◌>>◌,
}
use tekrion.Prelude.Strings.{ends_with}
use mathlib.Core.List.{reverse}
use tekrion.Protocol.{JsonValues, TekrionEvent, EvidenceSource}
use tekrion.Protocol.Equality.{source_eq}
use tekrion.Storage.{
  Database, SessionRow, SequenceRow, EventRow, EventOrigin, SearchRow, Call, StorageError,
  out_of_range, invalid_cursor, constraint, read_only, is_session, is_sequence, is_event,
  is_exchange, session_imported, blob_known, update_where,
}

unfoldable pub is_error_type : Text → Bool
unfolding ends_with text_eq
is_error_type type = ends_with (codes ".error") type || text_eq type (codes "session.crashed")

unfoldable pub origin_known : Option Text → Database → Bool
origin_known none db = true
origin_known (some id) db = any (is_exchange id) db.raw_exchanges

-- The references and the keys of the table `events`.
unfoldable pub event_fits : EventRow → Database → Bool
unfolding origin_known blob_known
event_fits row db =
    any (is_session row.event.session_id) db.sessions
    && origin_known row.origin.raw_exchange_id db
    && blob_known row.event.payload_ref db
    && not (any (is_event row.event.id) db.events)
    && not (
        any
          (λ r.
            text_eq r.event.session_id row.event.session_id
            && r.event.sequence == row.event.sequence)
          db.events)

unfoldable pub search_row : TekrionEvent → SearchRow
search_row event = record {
  event_id = event.id;
  session_id = event.session_id;
  type = event.type;
  text = event.summary;
}

unfoldable pub counted : TekrionEvent → SessionRow → SessionRow
unfolding is_error_type
counted event row = record row {
  event_count = row.event_count + 1;
  error_count = row.error_count + (if is_error_type event.type then 1 else 0);
}

unfoldable pub sequence_past : TekrionEvent → SequenceRow → SequenceRow
sequence_past event row = record row { next_sequence = max row.next_sequence (event.sequence + 1) }

-- What the four statements of `insertRow` write.
unfoldable pub with_event : EventRow → Database → Database
unfolding search_row counted sequence_past
with_event row db = record db {
  events = db.events ++ row ∷ [];
  event_search = db.event_search ++ search_row row.event ∷ [];
  sessions = update_where (is_session row.event.session_id) (counted row.event) db.sessions;
  session_sequences =
      update_where (is_sequence row.event.session_id) (sequence_past row.event)
        db.session_sequences;
}

unfoldable pub insert_row : EventRow → Database → Result StorageError Database
unfolding session_imported event_fits with_event
insert_row row db =
    throw_if (session_imported row.event.session_id db) read_only
    >> throw_if (not (event_fits row db)) constraint
    >> ok (with_event row db)

-- The event that `record_json` holds: what its schema and `JSON.parse` make of the JSON of the event.
-- The summary and the duration are the fields whose values JSON does not always give back.
unfoldable pub reread : JsonValues → TekrionEvent → TekrionEvent
reread values event = record event {
  summary = values.round_trip event.summary;
  duration_ms = elim event.duration_ms [ some d ↦ some (values.round_trip d) | none ↦ none ];
}

unfoldable pub insert : JsonValues → TekrionEvent → EventOrigin → Call TekrionEvent
unfolding insert_row reread
insert values event origin db =
    insert_row (record { event = reread values event; origin = origin }) db >>= λ after.
    ok (after, event)

unfoldable pub get : Text → Database → Option TekrionEvent
get id db = elim (find (is_event id) db.events) [ some row ↦ some row.event | none ↦ none ]

unfoldable pub get_origin : Text → Database → Option EventOrigin
get_origin id db = elim (find (is_event id) db.events) [ some row ↦ some row.origin | none ↦ none ]

unfoldable pub events_of : Text → Database → List TekrionEvent
events_of session_id db =
    map (λ row. row.event) (keep (λ row. text_eq row.event.session_id session_id) db.events)

-- `SELECT COUNT(*)`.
unfoldable pub count : Text → Database → ℕ
unfolding events_of
count session_id db = length (events_of session_id db)

-- `DELETE FROM event_search` and the insertion of a row for each event.
unfoldable pub rebuild_search_index : Call ℕ
unfolding search_row
rebuild_search_index db =
    ok (record db { event_search = map (λ row. search_row row.event) db.events }, length db.events)

pub record EventCursor : Type 0 where
  pub sequence : ℕ
  pub id : Text

-- A cursor as it is read: a field that is missing or of another kind is `none`.
pub record CursorFields : Type 0 where
  pub sequence : Option ℕ
  pub id : Option Text

pub record EventListOptions : Type 0 where
  pub cursor : Option Text
  pub limit : Option ℕ
  pub type : Option Text
  pub source : Option EvidenceSource
  pub occurred_after : Option Text
  pub occurred_before : Option Text
  pub type_prefix : Option Text

pub record EventCursorPage : Type 0 where
  pub events : List TekrionEvent
  pub next_cursor : Option Text

pub record EventAnalysisWindow : Type 0 where
  pub events : List TekrionEvent
  pub truncated : Bool

-- `@parameter IS NULL OR …`.
abbrev pub unless_null : {A : Type 0} → Option A → (A → Bool) → Bool
unless_null none p = true
unless_null (some a) p = p a

module _ (before : Text → Text → Bool) where
  -- `ORDER BY sequence ASC, id ASC`.
  unfoldable pub precedes : TekrionEvent → TekrionEvent → Bool
  precedes a b = ltb a.sequence b.sequence || a.sequence == b.sequence && before a.id b.id

  unfoldable pub insert_in_order : TekrionEvent → List TekrionEvent → List TekrionEvent
  unfolding precedes
  insert_in_order e [] = e ∷ []
  insert_in_order e (x ∷ xs) = if precedes x e then x ∷ insert_in_order e xs else e ∷ x ∷ xs

  unfoldable pub in_order : List TekrionEvent → List TekrionEvent
  unfolding insert_in_order
  in_order [] = []
  in_order (x ∷ xs) = insert_in_order x (in_order xs)

  unfoldable pub list_for_exchange : Text → Database → List TekrionEvent
  unfolding in_order
  list_for_exchange exchange_id db = in_order (
      map (λ row. row.event)
        (keep
          (λ row. elim row.origin.raw_exchange_id [
            | some id ↦ text_eq id exchange_id
            | none ↦ false
          ])
          db.events))

  unfoldable pub list_after_sequence :
      Text → (after_sequence limit : ℕ) → Database → Result StorageError (List TekrionEvent)
  unfolding in_order events_of
  list_after_sequence session_id after_sequence limit db =
      throw_if (ltb limit 1 || ltb 1000 limit) out_of_range
      >> ok (
          take limit
            (in_order (keep (λ e. ltb after_sequence e.sequence) (events_of session_id db))))

  unfoldable pub list_through_sequence :
      Text → (through_sequence limit : ℕ) → Database → Result StorageError EventAnalysisWindow
  unfolding in_order events_of
  list_through_sequence session_id through_sequence limit db =
      throw_if (ltb through_sequence 1) out_of_range
      >> throw_if (ltb limit 1 || ltb 10000 limit) out_of_range
      >> let rows = take (suc limit) (
          reverse
            (in_order (keep (λ e. leb e.sequence through_sequence) (events_of session_id db)))) in
        let truncated = ltb limit (length rows) in
        ok (record {
          events = reverse (if truncated then take limit rows else rows);
          truncated = truncated;
        })

  module _ (like : Text → Text → Bool) (encode_cursor : EventCursor → Text)
      (read_cursor : Text → Option CursorFields) where
    unfoldable pub checked_cursor : Option ℕ → Option Text → Result StorageError EventCursor
    checked_cursor (some sequence) (some id) =
        throw_if (ltb sequence 1 || length id == 0) invalid_cursor
        >> ok (record { sequence = sequence; id = id })
    checked_cursor _ _ = err invalid_cursor

    unfoldable pub decode_cursor : Text → Result StorageError EventCursor
    unfolding checked_cursor
    decode_cursor cursor = elim (read_cursor cursor) [
      | none ↦ err invalid_cursor
      | some fields ↦ checked_cursor fields.sequence fields.id
    ]

    unfoldable pub start_of : Option Text → Result StorageError EventCursor
    unfolding decode_cursor
    start_of none = ok (record { sequence = 0; id = [] })
    start_of (some cursor) = decode_cursor cursor

    -- The conditions of the query on the type, the source and the time.
    unfoldable pub matches : EventListOptions → TekrionEvent → Bool
    unfolding source_eq
    matches options e =
        unless_null options.type (text_eq e.type)
        && unless_null options.source (source_eq e.source)
        && unless_null options.occurred_after (λ t. not (before e.occurred_at t))
        && unless_null options.occurred_before (λ t. not (before t e.occurred_at))
        && unless_null options.type_prefix (λ p. like e.type (p ++ codes "%"))

    unfoldable pub past : EventCursor → TekrionEvent → Bool
    past cursor e =
        ltb cursor.sequence e.sequence || e.sequence == cursor.sequence && before cursor.id e.id

    -- The rows that the query would return without its limit.
    unfoldable pub selected : Text → EventListOptions → EventCursor → Database → List TekrionEvent
    unfolding in_order events_of matches past
    selected session_id options cursor db =
        in_order (keep (λ e. past cursor e && matches options e) (events_of session_id db))

    unfoldable pub page_limit : Option ℕ → ℕ
    page_limit limit = max 1 (min (get_or_else limit 100) 1000)

    abbrev last : List TekrionEvent → Option TekrionEvent
    last [] = none
    last (x ∷ []) = some x
    last (x ∷ y ∷ xs) = last (y ∷ xs)

    unfoldable pub page : ℕ → List TekrionEvent → EventCursorPage
    page limit rows =
        let has_more = ltb limit (length rows) in
        let events = if has_more then take limit rows else rows in
        record {
          events = events;
          next_cursor = elim (last events) [
            | none ↦ none
            | some e ↦
                if has_more
                then some (encode_cursor (record { sequence = e.sequence; id = e.id }))
                else none
          ];
        }

    unfoldable pub list : Text → EventListOptions → Database → Result StorageError EventCursorPage
    unfolding start_of selected page_limit page
    list session_id options db = start_of options.cursor >>= λ cursor.
        let limit = page_limit options.limit in
        ok (page limit (take (suc limit) (selected session_id options cursor db)))
