-- ===== src/Normalizers/Found.antt =====
-- What a stored normalization is read back as.
use tekrion.Prelude.{
  suc, not, ◌||◌, [], ◌∷◌, map, length, text_eq, ◌≡◌, refl, ap, subst, inl, inr, List, none, some,
  ok, arith, Text,
}
use tekrion.Protocol.{JsonValues, TekrionEvent, RawExchange, RawExchangeParseStatus}
use tekrion.Storage
use tekrion.Storage.{Database, StorageError, storage_integrity, out_of_range}
use tekrion.Storage.Outcomes.{insert_normalization-cases, first_run-cases, repeated-cases}
use tekrion.Storage.Events.{reread}
use tekrion.Storage.Idempotence.{
  insert_rows-Extended, insert_rows-stored, with_run-exchange, with_run-row, with_run-stored,
}
use tekrion.Storage.Normalizations.{
  StoredNormalization, get_raw_exchange, get_normalization_row, get_normalization,
  get_stored_events, insert_normalization, run_row, with_run,
}
use tekrion.Storage.Normalizations
use tekrion.Normalizers.Calls.{get_normalization-stored}
use tekrion.Normalizers.Runner.{RunnerContext, ids_differ, apply_stored_sequences}

-- A normalization that is inserted is found with its events, and the exchange has only a new
-- parse status.
pub insert_normalization-found :
    (values : JsonValues) (input : Normalizations.NormalizationInput) (db db' : Database)
    (r : Normalizations.NormalizationResult)
    → get_normalization_row input.exchange_id input.parser_version db ≡ none
    → insert_normalization values input db ≡ ok (db', r)
    → (get_normalization input.exchange_id input.parser_version db'
        ≡ ok (
            some (record {
              parser_version = input.parser_version;
              events = map (reread values) input.events;
            })))
      × ((exchange : RawExchange) × (status : RawExchangeParseStatus) × (get_raw_exchange
              input.exchange_id db
            ≡ ok exchange)
          × (get_raw_exchange input.exchange_id db'
              ≡ ok (record exchange { parse_status = status })))
unfolding run_row
insert_normalization-found values input db db' r absent e =
    let (exchange, found, branch) = insert_normalization-cases values input r db db' e in
    elim branch [
      | inl (status, now, e1) ↦
          let (t, et, changed, ids) = first_run-cases values input exchange status r db db' e1 in
          let frame =
            insert_rows-Extended values input.exchange_id input.parser_version input.events db t
              et in
          let row = with_run-row input exchange status db t frame.runs absent in
          let stored = with_run-stored input exchange status t (map (reread values) input.events) (
            insert_rows-stored values input.exchange_id input.parser_version input.events db t
              et) in
          (
            subst
                (λ d.
                  get_normalization input.exchange_id input.parser_version d
                  ≡ ok (
                      some (record {
                        parser_version = input.parser_version;
                        events = map (reread values) input.events;
                      })))
                changed
                (get_normalization-stored input.exchange_id input.parser_version
                  (with_run input exchange status t) (run_row input exchange)
                  (map (reread values) input.events) row stored),
            (
              exchange,
              status,
              found,
              subst
                  (λ d.
                    get_raw_exchange input.exchange_id d
                    ≡ ok (record exchange { parse_status = status }))
                  changed (with_run-exchange input exchange status db t frame.exchanges found),
            ),
          )
      | inr (row, present, e1) ↦ absurd (ground (arith, absent, present))
    ]

-- A normalization that was stored before is not changed by an insertion.
pub insert_normalization-present :
    (values : JsonValues) (input : Normalizations.NormalizationInput) (db db' : Database)
    (r : Normalizations.NormalizationResult) (row : Storage.NormalizationRow)
    → get_normalization_row input.exchange_id input.parser_version db ≡ some row
    → insert_normalization values input db ≡ ok (db', r)
    → db ≡ db'
insert_normalization-present values input db db' r row present e =
    let (exchange, found, branch) = insert_normalization-cases values input r db db' e in
    elim branch [
      | inl (status, absent, e1) ↦ absurd (ground (arith, absent, present))
      | inr (row', present', e1) ↦ repeated-cases values row' exchange input.events db db' r e1
    ]

pub get_normalization-none :
    (id version : Text) (db : Database)
    → get_normalization_row id version db ≡ none
    → get_normalization id version db ≡ ok none
unfolding get_normalization
get_normalization-none id version db e = rw (e, get_normalization) refl

pub same_row :
    (id version : Text) (db t : Database)
    → t.normalization_runs ≡ db.normalization_runs
    → get_normalization_row id version t ≡ get_normalization_row id version db
unfolding get_normalization_row
same_row id version db t e = rw e refl

pub same_exchange :
    (id : Text) (db t : Database)
    → t.raw_exchanges ≡ db.raw_exchanges
    → get_raw_exchange id t ≡ get_raw_exchange id db
unfolding get_raw_exchange
same_exchange id db t e = rw e refl

ids_differ-reread :
    (values : JsonValues) (es out : List TekrionEvent)
    → ids_differ es (map (reread values) out) ≡ ids_differ es out
unfolding ids_differ reread
ids_differ-reread values [] out = refl
ids_differ-reread values (x ∷ es) [] = refl
ids_differ-reread values (x ∷ es) (y ∷ out) =
    ap (λ b. not (text_eq x.id y.id) || b) (ids_differ-reread values es out)

sequences-reread :
    (values : JsonValues) (out : List TekrionEvent)
    → map (λ e. e.sequence) (map (reread values) out) ≡ map (λ e. e.sequence) out
unfolding reread
sequences-reread values [] = refl
sequences-reread values (y ∷ out) = ap (λ ks. y.sequence ∷ ks) (sequences-reread values out)

length-reread :
    (values : JsonValues) (out : List TekrionEvent) → length (map (reread values) out) ≡ length out
length-reread values [] = refl
length-reread values (y ∷ out) = ap suc (length-reread values out)

-- The numbers are found by the identifiers of the stored events, which JSON gives back.
pub apply_stored_sequences-reread :
    (context : RunnerContext) (version : Text) (es out : List TekrionEvent)
    → apply_stored_sequences context es
        (record { parser_version = version; events = map (reread context.json) out })
      ≡ apply_stored_sequences context es (record { parser_version = version; events = out })
unfolding apply_stored_sequences
apply_stored_sequences-reread context version es out =
    rw
      (
        length-reread context.json out,
        ids_differ-reread context.json es out,
        sequences-reread context.json out,
      )
      refl
