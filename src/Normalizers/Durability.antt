-- ===== src/Normalizers/Durability.antt =====
-- What `DurableNormalizationRunner` has stored, it finds again.
use tekrion.Prelude.{
  true, ◌≡◌, refl, sym, ap, ◌∙◌, subst, false, List, All, Option, none, some, ok, Text,
}
use tekrion.Protocol.Equality.{event_eq}
use tekrion.Protocol.{TekrionEvent, RawExchange, RawExchangeParseStatus}
use tekrion.Storage.{Database}
use tekrion.Storage.Events.{reread}
use tekrion.Storage.Idempotence.{insert_normalization-again}
use tekrion.Storage.Normalizations.{
  StoredNormalization, get_raw_exchange, get_normalization_row, get_normalization,
  get_stored_events, insert_normalization, run_row, with_run,
}
use tekrion.Storage.Normalizations
use tekrion.Normalizers.Contracts.{NormalizationExchange, NormalizationResult}
use tekrion.Normalizers.Calls.{
  and_then-ok, and_then-read, and_then-next, get_normalization-absent, get_normalization-present,
  reserve_sequences-again, insert_once-ok, persist-ok,
}
use tekrion.Normalizers.Runner.{
  ExchangeNormalizationResult, normalization_version_of, and_then, transaction, RunnerContext,
  apply_stored_sequences, reserve_sequences, exchange_from, exchange_of, or_catch, load_exchange,
  options_for, input_of, result_of, insert_once, persist, events_for, with_existing,
  normalize_exchange,
}
use tekrion.Normalizers.Found.{
  insert_normalization-found, insert_normalization-present, get_normalization-none, same_row,
  same_exchange, apply_stored_sequences-reread,
}

module _ (context : RunnerContext) (id : Text) where
  inserted_now :
      (n : NormalizationResult) (es : List TekrionEvent) (existing : Option StoredNormalization)
      (db db' : Database) (p : Normalizations.NormalizationResult)
      → or_catch context id n existing
          (and_then (transaction db (ok (db', p))) (λ q t. (t, ok (result_of context n es q))))
        ≡ (db', ok (result_of context n es p))
  unfolding and_then transaction
  inserted_now n es existing db db' p = refl

  -- A run with a stored normalization.
  normalize_exchange-stored :
      (known : Option (List Text)) (db db' : Database) (exchange : NormalizationExchange)
      (n : NormalizationResult) (stored : StoredNormalization) (es : List TekrionEvent)
      (p : Normalizations.NormalizationResult)
      → load_exchange context id db ≡ ok exchange
      → context.normalize exchange (options_for context known exchange) ≡ ok n
      → get_normalization id (normalization_version_of n) db ≡ ok (some stored)
      → apply_stored_sequences context n.events stored ≡ ok es
      → insert_normalization context.json (input_of context id n es) db ≡ ok (db', p)
      → normalize_exchange context known id db ≡ (db', ok (result_of context n es p))
  unfolding normalize_exchange with_existing events_for persist insert_once
  normalize_exchange-stored known db db' exchange n stored es p loaded normalized found applied
        inserted =
      and_then-next db (load_exchange context id db) _ exchange loaded
      ∙ and_then-next db (context.normalize exchange (options_for context known exchange)) _ n
          normalized
      ∙ and_then-next db (get_normalization id (normalization_version_of n) db) _ (some stored)
          found
      ∙ and_then-next db (apply_stored_sequences context n.events stored) _ es applied
      ∙ ap
          (λ c.
            or_catch context id n (some stored)
              (and_then (transaction db c) (λ q t. (t, ok (result_of context n es q)))))
          inserted
      ∙ inserted_now n es (some stored) db db' p

  load_exchange-status :
      (db db' : Database) (raw : RawExchange) (status : RawExchangeParseStatus)
      → get_raw_exchange id db ≡ ok raw
      → get_raw_exchange id db' ≡ ok (record raw { parse_status = status })
      → load_exchange context id db' ≡ load_exchange context id db
  unfolding load_exchange exchange_from exchange_of
  load_exchange-status db db' raw status before after = rw (before, after) refl

  same_load :
      (db t : Database)
      → t.raw_exchanges ≡ db.raw_exchanges
      → load_exchange context id t ≡ load_exchange context id db
  unfolding load_exchange
  same_load db t e = rw (same_exchange id db t e) refl

  not_inserted :
      (n : NormalizationResult) (es : List TekrionEvent) (p : Normalizations.NormalizationResult)
      (r : ExchangeNormalizationResult)
      → result_of context n es p ≡ r
      → result_of context n es (record { inserted = false; event_ids = p.event_ids })
        ≡ record r { inserted = false }
  unfolding result_of
  not_inserted n es p r e =
      ap (λ (q : ExchangeNormalizationResult). record q { inserted = false }) e

  made-fixed :
      (n : NormalizationResult) (es : List TekrionEvent) (p : Normalizations.NormalizationResult)
      (r : ExchangeNormalizationResult)
      → result_of context n es p ≡ r
      → All
          (λ e. event_eq context.json.same (reread context.json e) e ≡ true)
          r.normalization.events
      → All (λ e. event_eq context.json.same (reread context.json e) e ≡ true) es
  unfolding result_of
  made-fixed n es p r made fixed =
      subst
        (λ (q : ExchangeNormalizationResult).
          All (λ e. event_eq context.json.same (reread context.json e) e ≡ true)
            q.normalization.events)
        (sym made) fixed

  -- A normalization that is inserted for the first time.
  again_after :
      (known : Option (List Text)) (exchange : NormalizationExchange) (n : NormalizationResult)
      (db d db' : Database) (es : List TekrionEvent) (p : Normalizations.NormalizationResult)
      → load_exchange context id d ≡ ok exchange
      → context.normalize exchange (options_for context known exchange) ≡ ok n
      → apply_stored_sequences context n.events
          (record { parser_version = normalization_version_of n; events = es })
        ≡ ok es
      → get_normalization_row id (normalization_version_of n) d ≡ none
      → All (λ e. event_eq context.json.same (reread context.json e) e ≡ true) es
      → insert_normalization context.json (input_of context id n es) d ≡ ok (db', p)
      → normalize_exchange context known id db'
        ≡ (db', ok (result_of context n es (record { inserted = false; event_ids = p.event_ids })))
  unfolding input_of
  again_after known exchange n db d db' es p loaded normalized applied absent fixed inserted =
      let (stored, exchange_found) =
        insert_normalization-found context.json (input_of context id n es) d db' p absent
          inserted in
      let (raw, status, before, after) = exchange_found in
      normalize_exchange-stored known db' db' exchange n _ es
        (record { inserted = false; event_ids = p.event_ids })
        (load_exchange-status d db' raw status before after ∙ loaded) normalized stored
        (apply_stored_sequences-reread context (normalization_version_of n) n.events es ∙ applied)
        (insert_normalization-again context.json (input_of context id n es) d db' p fixed inserted)

  again_reserved :
      (known : Option (List Text)) (exchange : NormalizationExchange) (n : NormalizationResult)
      (db d db' : Database) (es : List TekrionEvent) (r : ExchangeNormalizationResult)
      → load_exchange context id db ≡ ok exchange
      → context.normalize exchange (options_for context known exchange) ≡ ok n
      → get_normalization_row id (normalization_version_of n) db ≡ none
      → reserve_sequences context exchange.session_id n.events db ≡ (d, ok es)
      → All
          (λ e. event_eq context.json.same (reread context.json e) e ≡ true)
          r.normalization.events
      → persist context id n none es d ≡ (db', ok r)
      → normalize_exchange context known id db' ≡ (db', ok (record r { inserted = false }))
  again_reserved known exchange n db d db' es r loaded normalized none_yet reserved fixed
        persisted =
      let version = normalization_version_of n in
      let (exchanges, runs, applied) =
        reserve_sequences-again context version exchange.session_id n.events db d es reserved in
      let absent : get_normalization_row id version d ≡ none =
        same_row id version db d runs ∙ none_yet in
      let (p, inserted, made) = insert_once-ok context id n es d db' r (
        persist-ok context id n none es d db' r (get_normalization-none id version d absent)
          persisted) in
      again_after known exchange n db d db' es p (same_load db d exchanges ∙ loaded) normalized
        applied absent (made-fixed n es p r made fixed) inserted
      ∙ ap (λ q. (db', ok q)) (not_inserted n es p r made)

  -- What a run of `normalizeExchange` that returns has done.
  again_from :
      (known : Option (List Text)) (exchange : NormalizationExchange) (n : NormalizationResult)
      (existing : Option StoredNormalization) (db db' : Database) (r : ExchangeNormalizationResult)
      → load_exchange context id db ≡ ok exchange
      → context.normalize exchange (options_for context known exchange) ≡ ok n
      → get_normalization id (normalization_version_of n) db ≡ ok existing
      → All
          (λ e. event_eq context.json.same (reread context.json e) e ≡ true)
          r.normalization.events
      → with_existing context id exchange n existing db ≡ (db', ok r)
      → normalize_exchange context known id db' ≡ (db', ok (record r { inserted = false }))
  unfolding with_existing events_for input_of
  again_from known exchange n none db db' r loaded normalized found fixed e =
      let (d, es, reserved, persisted) =
        and_then-ok (reserve_sequences context exchange.session_id n.events db) _ e in
      again_reserved known exchange n db d db' es r loaded normalized
        (get_normalization-absent id (normalization_version_of n) db found) reserved fixed persisted
  again_from known exchange n (some stored) db db' r loaded normalized found fixed e =
      let version = normalization_version_of n in
      let (es, applied, persisted) =
        and_then-read db (apply_stored_sequences context n.events stored) _ e in
      let (p, inserted, made) =
        insert_once-ok context id n es db db' r
          (persist-ok context id n (some stored) es db db' r found persisted) in
      let (row, present) = get_normalization-present id version db stored found in
      let same =
        insert_normalization-present context.json (input_of context id n es) db db' p row present
          inserted in
      subst (λ t. normalize_exchange context known id t ≡ (t, ok (record r { inserted = false })))
        same
        (normalize_exchange-stored known db db exchange n stored es
            (record { inserted = false; event_ids = p.event_ids }) loaded normalized found applied
            (insert_normalization-again context.json (input_of context id n es) db db p
              (made-fixed n es p r made fixed)
              (subst
                (λ t. insert_normalization context.json (input_of context id n es) db ≡ ok (t, p))
                (sym same) inserted))
          ∙ ap (λ q. (db, ok q)) (not_inserted n es p r made))

  -- If the run of an exchange returns, `isDeepStrictEqual` holds of each event of its result and what
  -- is left of it when its JSON is written and read, and the normalizer makes the same of the
  -- exchange with the responses that are known in a second run as with those of the first, then the
  -- second run returns the same but that nothing was inserted, and leaves the database as it is.
  pub normalize_exchange-again :
      (known known' : Option (List Text)) (db db' : Database) (r : ExchangeNormalizationResult)
      → ((x : NormalizationExchange)
          → load_exchange context id db ≡ ok x
          → context.normalize x (options_for context known' x)
            ≡ context.normalize x (options_for context known x))
      → All
          (λ e. event_eq context.json.same (reread context.json e) e ≡ true)
          r.normalization.events
      → normalize_exchange context known id db ≡ (db', ok r)
      → normalize_exchange context known' id db' ≡ (db', ok (record r { inserted = false }))
  unfolding normalize_exchange
  normalize_exchange-again known known' db db' r same fixed e =
      let (exchange, loaded, e1) = and_then-read db (load_exchange context id db) _ e in
      let (n, normalized, e2) =
        and_then-read db (context.normalize exchange (options_for context known exchange)) _ e1 in
      let (existing, found, e3) =
        and_then-read db (get_normalization id (normalization_version_of n) db) _ e2 in
      again_from known' exchange n existing db db' r loaded (same exchange loaded ∙ normalized)
        found fixed e3
