-- ===== src/Storage/Histories.antt =====
-- The calls that the repositories offer, and histories of them. A call that throws leaves the
-- database as it is.
use tekrion.Prelude.{
  ℕ, Bool, true, not, ◌&&◌, ◌==◌, List, [], ◌∷◌, Result, ok, err, Text, text_eq, ◌>>=◌,
}
use tekrion.Protocol.{JsonValues, TekrionEvent, Session, RawExchange}
use tekrion.Storage.{Database, EventOrigin, StorageError}
use tekrion.Storage.Sessions.{create, replace, remove, reserve}
use tekrion.Storage.Events.{insert, rebuild_search_index}
use tekrion.Storage.Normalizations.{NormalizationInput, insert_normalization}
use tekrion.Storage.Exchanges.{
  begin, insert_complete, insert_archived, ArchivedState, finalize, recover_incomplete,
}

pub data Operation : Type 0 where
  creates replaces : Session → Operation
  removes : Text → Operation
  reserves : Text → ℕ → Operation
  inserts : TekrionEvent → EventOrigin → Operation
  normalizes : NormalizationInput → Operation
  rebuilds_search_index : Operation
  begins inserts_complete finalizes : RawExchange → Operation
  inserts_archived : RawExchange → ArchivedState → Operation
  recovers : Text → Operation
  -- The blob store changes the blobs that it holds.
  stores_blobs : List Text → Operation

abbrev after : {A : Type 0} → Result StorageError (Database × A) → Result StorageError Database
after r = r >>= λ p. ok p.0

abbrev pub empty_database : Database
empty_database = record {
  sessions = [];
  session_sequences = [];
  raw_exchanges = [];
  events = [];
  event_search = [];
  normalization_runs = [];
  blobs = [];
}

-- What the database and the language give: the order of texts, and what JSON gives back of a value.
pub record Engine : Type 0 where
  pub before : Text → Text → Bool
  pub json : JsonValues

module _ (engine : Engine) where
  abbrev pub attempt : Operation → Database → Result StorageError Database
  attempt (creates session) db = after (create session db)
  attempt (replaces session) db = after (replace session db)
  attempt (removes id) db = after (remove id db)
  attempt (reserves id count) db = after (reserve id count db)
  attempt (inserts event origin) db = after (insert engine.json event origin db)
  attempt (normalizes input) db = after (insert_normalization engine.json input db)
  attempt rebuilds_search_index db = after (rebuild_search_index db)
  attempt (begins exchange) db = after (begin exchange db)
  attempt (inserts_complete exchange) db = after (insert_complete exchange db)
  attempt (finalizes exchange) db = after (finalize exchange db)
  attempt (inserts_archived exchange state) db = after (insert_archived exchange state db)
  attempt (recovers at) db = after (recover_incomplete engine.before at db)
  attempt (stores_blobs ids) db = ok (record db { blobs = ids })

  abbrev pub perform : Operation → Database → Database
  perform op db = elim (attempt op db) [ ok after ↦ after | err e ↦ db ]

  unfoldable pub run : List Operation → Database → Database
  run [] db = db
  run (op ∷ ops) db = run ops (perform op db)

-- The operation does not remove the session.
unfoldable pub keeps_session : Text → Operation → Bool
unfolding text_eq
keeps_session id (removes other) = not (text_eq other id)
keeps_session id op = true

-- A session is created without events.
unfoldable pub starts_empty : Operation → Bool
starts_empty (creates session) = session.counts.events == 0 && session.counts.errors == 0
starts_empty op = true
