-- ===== src/Normalizers/Runner.antt =====
-- apps/daemon/src/normalization/normalization-runner.ts: `DurableNormalizationRunner`. The normalizer,
-- the blob store and the schemas are parameters. A call is given the database, and leaves it changed
-- even when it throws: the numbers that it has reserved are not given back.
use tekrion.Prelude.{
  ℕ, Bool, true, false, ◌||◌, not, List, [], ◌∷◌, ◌++◌, map, Option, none, some, Result, ok, err,
  ◌==◌, length, Text, codes, text_eq, get_or_else, throw_if, ◌>>=◌, ◌>>◌,
}
use tekrion.Protocol.{JsonValues, TekrionEvent, RawExchange, RawExchangeParseStatus, BlobReference}
use tekrion.Protocol
use tekrion.Storage.{Database, StorageError, storage_integrity, out_of_range}
use tekrion.Storage.Sessions.{reserve}
use tekrion.Storage.Normalizations.{
  StoredNormalization, get_raw_exchange, get_normalization, insert_normalization,
}
use tekrion.Storage.Normalizations
use tekrion.Normalizers.Contracts.{
  NormalizationExchange, NormalizationStatus, parsed, malformed, unsupported, skipped,
  NormalizationResult, NormalizationOptions,
}

pub record ExchangeNormalizationResult : Type 0 where
  pub normalization : NormalizationResult
  pub normalization_version : Text
  pub inserted : Bool
  pub event_ids : List Text

unfoldable pub normalization_version_of : NormalizationResult → Text
normalization_version_of result = result.parser_id ++ codes "@" ++ result.parser_version

abbrev pub parse_status_of : NormalizationStatus → RawExchangeParseStatus
parse_status_of parsed = Protocol.parsed
parse_status_of malformed = Protocol.malformed
parse_status_of unsupported = Protocol.unsupported
parse_status_of skipped = Protocol.skipped

-- Whether two lists differ in the identifier of an event of the first.
unfoldable pub ids_differ : List TekrionEvent → List TekrionEvent → Bool
unfolding text_eq
ids_differ [] stored = false
ids_differ (e ∷ es) [] = true
ids_differ (e ∷ es) (s ∷ stored) = not (text_eq e.id s.id) || ids_differ es stored

-- A call with the database that it leaves.
abbrev pub Stateful : Type 0 → Type 0
Stateful A = Database → Database × Result StorageError A

-- The calls after one that throws are not made.
unfoldable pub and_then :
    {A B : Type 0}
    → Database × Result StorageError A
    → (A → Stateful B)
    → Database × Result StorageError B
and_then (db, err thrown) next = (db, err thrown)
and_then (db, ok returned) next = next returned db

-- A call that leaves the database as it was when it throws.
unfoldable pub transaction :
    {A : Type 0} → Database → Result StorageError (Database × A) → Database × Result StorageError A
transaction db (err thrown) = (db, err thrown)
transaction db (ok (db', returned)) = (db', ok returned)

-- What the runner is given: a normalizer, the bytes of a blob, what the two schemas accept, and the options.
pub record RunnerContext : Type 0 where
  pub normalize :
      NormalizationExchange → NormalizationOptions → Result StorageError NormalizationResult
  pub blob : Text → Result StorageError (List ℕ)
  pub accepts_exchange : NormalizationExchange → Bool
  pub accepts_event : TekrionEvent → Bool
  pub max_decoded_response_body_bytes : Option ℕ
  -- What JSON gives back of a value, for the storage.
  pub json : JsonValues

module _ (context : RunnerContext) where
  -- The events with the sequences, once they are as many.
  unfoldable pub sequenced : List TekrionEvent → List ℕ → Result StorageError (List TekrionEvent)
  sequenced (e ∷ es) (k ∷ ks) =
      throw_if (not (context.accepts_event (record e { sequence = k }))) out_of_range
      >> (sequenced es ks >>= λ rest. ok (record e { sequence = k } ∷ rest))
  sequenced _ _ = ok []

  unfoldable pub apply_sequences :
      List TekrionEvent → List ℕ → Result StorageError (List TekrionEvent)
  unfolding sequenced
  apply_sequences events sequences =
      throw_if (not (length events == length sequences)) storage_integrity
      >> sequenced events sequences

  unfoldable pub apply_stored_sequences :
      List TekrionEvent → StoredNormalization → Result StorageError (List TekrionEvent)
  unfolding ids_differ apply_sequences
  apply_stored_sequences events stored =
      throw_if (not (length events == length stored.events) || ids_differ events stored.events)
        storage_integrity
      >> apply_sequences events (map (λ e. e.sequence) stored.events)

  unfoldable pub reserve_sequences : Text → List TekrionEvent → Stateful (List TekrionEvent)
  unfolding and_then transaction reserve apply_sequences
  reserve_sequences session_id [] db = (db, ok [])
  reserve_sequences session_id (e ∷ es) db =
      and_then (transaction db (reserve session_id (length (e ∷ es)) db))
        (λ sequences db'. (db', apply_sequences (e ∷ es) sequences))

  unfoldable pub body_of : Option BlobReference → Result StorageError (Option (List ℕ))
  body_of none = ok none
  body_of (some ref) = context.blob ref.id >>= λ bytes. ok (some bytes)

  unfoldable pub exchange_of :
      RawExchange → (request_body response_body : Option (List ℕ)) → NormalizationExchange
  exchange_of raw request_body response_body = record {
    id = raw.id;
    session_id = raw.session_id;
    raw_sequence = raw.sequence;
    protocol = raw.protocol;
    method = raw.method;
    path = raw.path;
    query = raw.query;
    request_headers = raw.request_headers;
    request_body = request_body;
    response_status = raw.response_status;
    response_headers = raw.response_headers;
    response_body = response_body;
    started_at = raw.started_at;
    first_byte_at = raw.first_byte_at;
    ended_at = raw.ended_at;
    outcome = raw.outcome;
    capture = raw.capture;
  }

  unfoldable pub exchange_from : RawExchange → Result StorageError NormalizationExchange
  unfolding body_of exchange_of
  exchange_from raw = do
    request_body ← body_of raw.request_body_ref
    response_body ← body_of raw.response_body_ref
    let exchange = exchange_of raw request_body response_body
    checked ← throw_if (not (context.accepts_exchange exchange)) out_of_range
    ok exchange

  unfoldable pub load_exchange : Text → Database → Result StorageError NormalizationExchange
  unfolding get_raw_exchange exchange_from
  load_exchange exchange_id db = get_raw_exchange exchange_id db >>= exchange_from

  -- `known_response_ids` is what the callback of the options returns in this run, if there is one.
  unfoldable pub options_for : Option (List Text) → NormalizationExchange → NormalizationOptions
  options_for known_response_ids exchange = record {
    first_sequence = none;
    observed_at = some (get_or_else exchange.ended_at exchange.started_at);
    max_decoded_response_body_bytes = context.max_decoded_response_body_bytes;
    event_id = none;
    known_response_ids = known_response_ids;
  }

  unfoldable pub input_of :
      Text → NormalizationResult → List TekrionEvent → Normalizations.NormalizationInput
  unfolding normalization_version_of
  input_of exchange_id normalization events = record {
    exchange_id = exchange_id;
    parser_version = normalization_version_of normalization;
    events = events;
    parse_status = some (parse_status_of normalization.status);
  }

  unfoldable pub result_of :
      NormalizationResult
      → List TekrionEvent
      → Normalizations.NormalizationResult
      → ExchangeNormalizationResult
  unfolding normalization_version_of
  result_of normalization events persisted = record {
    normalization = record normalization { events = events };
    normalization_version = normalization_version_of normalization;
    inserted = persisted.inserted;
    event_ids = persisted.event_ids;
  }

  -- `insertNormalization` and the result.
  unfoldable pub insert_once :
      Text → NormalizationResult → List TekrionEvent → Stateful ExchangeNormalizationResult
  unfolding and_then transaction input_of insert_normalization result_of
  insert_once exchange_id normalization events db =
      and_then
        (transaction db
          (insert_normalization context.json (input_of exchange_id normalization events) db))
        (λ persisted db'. (db', ok (result_of normalization events persisted)))

  -- The `catch`, when an integrity error came without a stored normalization.
  unfoldable pub raced :
      Text → NormalizationResult → Option StoredNormalization → Stateful ExchangeNormalizationResult
  unfolding apply_stored_sequences insert_once and_then
  raced exchange_id normalization none db = (db, err storage_integrity)
  raced exchange_id normalization (some stored) db =
      and_then (db, apply_stored_sequences normalization.events stored)
        (insert_once exchange_id normalization)

  unfoldable pub caught :
      Text
      → NormalizationResult
      → (existing : Option StoredNormalization) → StorageError
      → Stateful ExchangeNormalizationResult
  unfolding raced get_normalization and_then
  caught exchange_id normalization none storage_integrity db =
      and_then (db, get_normalization exchange_id (normalization_version_of normalization) db)
        (raced exchange_id normalization)
  caught exchange_id normalization _ error db = (db, err error)

  abbrev pub or_catch :
      Text
      → NormalizationResult
      → Option StoredNormalization
      → Database × Result StorageError ExchangeNormalizationResult
      → Database × Result StorageError ExchangeNormalizationResult
  or_catch exchange_id normalization existing (db, ok result) = (db, ok result)
  or_catch exchange_id normalization existing (db, err error) =
      caught exchange_id normalization existing error db

  unfoldable pub persist :
      Text
      → NormalizationResult
      → Option StoredNormalization
      → List TekrionEvent
      → Stateful ExchangeNormalizationResult
  unfolding insert_once caught
  persist exchange_id normalization existing events db =
      or_catch exchange_id normalization existing (insert_once exchange_id normalization events db)

  unfoldable pub events_for :
      NormalizationExchange
      → NormalizationResult
      → Option StoredNormalization
      → Stateful (List TekrionEvent)
  unfolding reserve_sequences apply_stored_sequences
  events_for exchange normalization none db =
      reserve_sequences exchange.session_id normalization.events db
  events_for exchange normalization (some stored) db =
      (db, apply_stored_sequences normalization.events stored)

  -- From the stored normalization on.
  unfoldable pub with_existing :
      Text
      → NormalizationExchange
      → NormalizationResult
      → Option StoredNormalization
      → Stateful ExchangeNormalizationResult
  unfolding and_then events_for persist
  with_existing exchange_id exchange normalization existing db =
      and_then (events_for exchange normalization existing db)
        (persist exchange_id normalization existing)

  unfoldable pub normalize_exchange :
      Option (List Text) → Text → Stateful ExchangeNormalizationResult
  unfolding and_then load_exchange options_for get_normalization normalization_version_of
      with_existing
  normalize_exchange known_response_ids exchange_id db =
      and_then (db, load_exchange exchange_id db)
        (λ exchange db1.
          and_then (db1, context.normalize exchange (options_for known_response_ids exchange))
            (λ normalization db2.
              and_then
                (db2, get_normalization exchange_id (normalization_version_of normalization) db2)
                (with_existing exchange_id exchange normalization)))
