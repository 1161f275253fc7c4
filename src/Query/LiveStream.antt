-- ===== src/Query/LiveStream.antt =====
-- `LiveEventStreamer`: the frames, and the loop that polls the database. What the client and the clock
-- do is given: a poll comes with the database and the times that it reads, and each write with whether
-- the client took it.
use tekrion.Prelude.{
  ℕ, suc, ◌+◌, Bool, true, false, ◌&&◌, List, [], ◌∷◌, ◌++◌, Result, ok, leb, ◌==◌, if◌then◌else◌,
  length, Text, codes, ◌>>=◌,
}
use tekrion.Prelude.Numerals.{numeral}
use tekrion.Protocol.{TekrionEvent}
use tekrion.Storage.{Database, StorageError}
use tekrion.Storage.Events.{list_after_sequence}
use tekrion.Sse.Lines.{lf}

pub record LiveEventStreamConfiguration : Type 0 where
  pub maximum_connections : ℕ
  pub batch_size : ℕ
  pub heartbeat_milliseconds : ℕ
  pub retry_milliseconds : ℕ

-- `JSON.stringify` of an event, and of the first frame's payload.
pub record JsonText : Type 0 where
  pub of_event : TekrionEvent → Text
  pub of_ready : (session_id : Text) → (after_sequence : ℕ) → Text

abbrev pub id_line : ℕ → Text
id_line sequence = codes "id: " ++ numeral sequence

abbrev pub event_line : Text
event_line = codes "event: tekrion.event"

abbrev pub data_line : Text → Text
data_line text = codes "data: " ++ text

-- The variables of `stream`, and the frames that the client took.
pub record Connection : Type 0 where
  pub cursor : ℕ
  pub heartbeat_at : ℕ
  pub written : List Text
  pub is_open : Bool

-- One round of the `while` loop.
pub record Poll : Type 0 where
  pub database : Database
  pub now : ℕ
  pub answers : ℕ → Bool
  pub takes_keepalive : Bool

module _ (json : JsonText) where
  unfoldable pub event_frame : TekrionEvent → Text
  event_frame event =
      id_line event.sequence
      ++ lf ∷ (event_line ++ lf ∷ (data_line (json.of_event event) ++ lf ∷ lf ∷ []))

  unfoldable pub ready_frame : Text → ℕ → Text
  ready_frame session_id after_sequence =
      codes "event: tekrion.ready"
      ++ lf ∷ data_line (json.of_ready session_id after_sequence)
      ++ lf ∷ lf ∷ []

  unfoldable pub keepalive : ℕ → Text
  unfolding numeral
  keepalive now = codes ": keepalive " ++ numeral now ++ lf ∷ lf ∷ []

  -- `writeBounded`, with whether the client takes the frame in time.
  unfoldable pub write_bounded : Bool → Text → Connection → Connection
  write_bounded writable frame c =
      if writable
      then record c { written = c.written ++ frame ∷ [] }
      else record c { is_open = false }

  -- The `for` loop over the events; the answers are those to its writes.
  unfoldable pub write_events : (ℕ → Bool) → List TekrionEvent → Connection → Connection
  unfolding write_bounded event_frame
  write_events answers [] c = c
  write_events answers (e ∷ es) c =
      let sent = write_bounded (answers 0) (event_frame e) c in
      let rest = write_events (λ n. answers (suc n)) es (record sent { cursor = e.sequence }) in
      if answers 0 then rest else sent

  -- `before` is the order of identifiers in the database.
  module _ (before : Text → Text → Bool) (configuration : LiveEventStreamConfiguration)
      (session_id : Text) where
    unfoldable pub heartbeat : Poll → Connection → Connection
    unfolding write_bounded keepalive
    heartbeat p c =
        if c.is_open && leb c.heartbeat_at p.now
        then (if p.takes_keepalive
            then record (write_bounded true (keepalive p.now) c) {
              heartbeat_at = p.now + configuration.heartbeat_milliseconds;
            }
            else write_bounded false (keepalive p.now) c)
        else c

    unfoldable pub poll : Poll → Connection → Result StorageError Connection
    unfolding write_events heartbeat
    poll p c =
        list_after_sequence before session_id c.cursor configuration.batch_size p.database
        >>= λ events.
            let sent = write_events p.answers events c in
            ok (if length events == configuration.batch_size then sent else heartbeat p sent)

    -- The loop, for the polls that come before the client goes away.
    unfoldable pub poll_all : List Poll → Connection → Result StorageError Connection
    unfolding poll
    poll_all [] c = ok c
    poll_all (p ∷ ps) c = let next = poll p c >>= poll_all ps in if c.is_open then next else ok c

    -- The first write of `stream`.
    unfoldable pub stream :
        (now after_sequence : ℕ) → (takes_ready : Bool) → List Poll → Result StorageError Connection
    unfolding poll_all write_bounded ready_frame
    stream now after_sequence takes_ready polls = poll_all polls (
        write_bounded takes_ready
          (codes "retry: "
            ++ numeral configuration.retry_milliseconds
            ++ lf ∷ ready_frame session_id after_sequence)
          (record {
            cursor = after_sequence;
            heartbeat_at = now + configuration.heartbeat_milliseconds;
            written = [];
            is_open = true;
          }))
