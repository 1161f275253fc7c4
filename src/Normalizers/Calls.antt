-- ===== src/Normalizers/Calls.antt =====
-- What the calls of `DurableNormalizationRunner` return.
use tekrion.Prelude.{
  ℕ, suc, ◌≡◌, refl, sym, ap, ◌∙◌, inl, inr, subst, true, false, not, List, [], ◌∷◌, map, Option,
  none, some, Option-cases, Result, ok, err, arith, length, Text, text_eq_refl, throw_if, >>=-eq-ok,
  ◌==◌,
}
use tekrion.Protocol.{TekrionEvent}
use tekrion.Storage.{
  Database, StorageError, storage_integrity, out_of_range, immutable_evidence, sequence_allocation,
  invalid_cursor, constraint, read_only, NormalizationRow,
}
use tekrion.Storage.Sessions.{reserve, with_reserved}
use tekrion.Storage.Outcomes.{reserve-cases}
use tekrion.Storage.Normalizations.{
  StoredNormalization, get_normalization_row, get_normalization, get_stored_events,
  insert_normalization,
}
use tekrion.Storage.Normalizations
use tekrion.Normalizers.Contracts.{NormalizationResult}
use tekrion.Normalizers.Runner.{
  ExchangeNormalizationResult, normalization_version_of, ids_differ, Stateful, and_then,
  transaction, RunnerContext, sequenced, apply_sequences, apply_stored_sequences, reserve_sequences,
  input_of, result_of, insert_once, raced, caught, or_catch, persist,
}

err_ok :
    {C : Type 0} {thrown : StorageError} {c : C}
    → ¬ (◌≡◌ {A = Result StorageError C} (err thrown) (ok c))
err_ok h = cc

pub ok_injective : {A : Type 0} {a b : A} → ◌≡◌ {A = Result StorageError A} (ok a) (ok b) → a ≡ b
ok_injective h = ground arith

pub and_then-ok :
    {A B : Type 0} (m : Database × Result StorageError A) (next : A → Stateful B) {db' : Database}
    {b : B}
    → and_then m next ≡ (db', ok b)
    → (db : Database) × (a : A) × (m ≡ (db, ok a)) × (next a db ≡ (db', ok b))
unfolding and_then
and_then-ok (db, err thrown) next e = absurd (err_ok (ap (λ p. p.1) e))
and_then-ok (db, ok a) next e = (db, a, refl, e)

-- The same of a call that does not change the database.
pub and_then-read :
    {A B : Type 0} (db : Database) (r : Result StorageError A) (next : A → Stateful B)
    {db' : Database} {b : B}
    → and_then (db, r) next ≡ (db', ok b)
    → (a : A) × (r ≡ ok a) × (next a db ≡ (db', ok b))
unfolding and_then
and_then-read db (err thrown) next e = absurd (err_ok (ap (λ p. p.1) e))
and_then-read db (ok a) next e = (a, refl, e)

pub and_then-next :
    {A B : Type 0} (db : Database) (r : Result StorageError A) (next : A → Stateful B) (a : A)
    → r ≡ ok a
    → and_then (db, r) next ≡ next a db
unfolding and_then
and_then-next db r next a e = rw e refl

pub transaction-ok :
    {A : Type 0} (db db' : Database) (r : Result StorageError (Database × A)) {a : A}
    → transaction db r ≡ (db', ok a)
    → r ≡ ok (db', a)
unfolding transaction
transaction-ok db db' (err thrown) e = absurd (err_ok (ap (λ p. p.1) e))
transaction-ok db db' (ok (d, a)) e =
    ap ok (path_pair (ap (λ p. p.0) e) (ok_injective (ap (λ p. p.1) e)))
  where
    path_pair : {A B : Type 0} {a c : A} {b d : B} → a ≡ c → b ≡ d → ◌≡◌ {A = A × B} (a, b) (c, d)
    path_pair p q = cc

module _ (id version : Text) (db : Database) where
  pub get_normalization-absent :
      get_normalization id version db ≡ ok none → get_normalization_row id version db ≡ none
  unfolding get_normalization
  get_normalization-absent e = elim (Option-cases (get_normalization_row id version db)) [
    | inl absent ↦ absent
    | inr (row, present) ↦
        let (es, stored, e1) =
          >>=-eq-ok (get_stored_events row.event_ids db) _ (rw (present, get_normalization) at e) in
        absurd (ground arith)
  ]

  pub get_normalization-present :
      (stored : StoredNormalization)
      → get_normalization id version db ≡ ok (some stored)
      → (row : NormalizationRow) × (get_normalization_row id version db ≡ some row)
  unfolding get_normalization
  get_normalization-present stored e = elim (Option-cases (get_normalization_row id version db)) [
    | inl absent ↦ absurd (ground arith)
    | inr found ↦ found
  ]

  pub get_normalization-stored :
      (row : NormalizationRow) (es : List TekrionEvent)
      → get_normalization_row id version db ≡ some row
      → get_stored_events row.event_ids db ≡ ok es
      → get_normalization id version db
        ≡ ok (some (record { parser_version = version; events = es }))
  unfolding get_normalization
  get_normalization-stored row es present stored = rw (present, get_normalization) (rw stored refl)

unchanged_by :
    {A B : Type 0} (db d : Database) (thrown : StorageError)
    (call : Result StorageError (Database × A)) (result : A → B)
    → and_then (transaction db call) (λ a t. (t, ok (result a))) ≡ (d, err thrown)
    → db ≡ d
unfolding and_then transaction
unchanged_by db d thrown (err t) result e = ap (λ p. p.0) e
unchanged_by db d thrown (ok (t, a)) result e = absurd (err_ok (sym (ap (λ p. p.1) e)))

none_raced :
    (context : RunnerContext) (id : Text) (n : NormalizationResult) (db : Database)
    → ◌≡◌ {A = Database × Result StorageError ExchangeNormalizationResult}
        (db, err storage_integrity)
        (raced context id n none db)
unfolding raced
none_raced context id n db = refl

module _ (context : RunnerContext) where
  sequenced-lem :
      (es : List TekrionEvent) (ks : List ℕ) (out : List TekrionEvent)
      → length es ≡ length ks
      → sequenced context es ks ≡ ok out
      → (ids_differ es out ≡ false) × (length es ≡ length out) × (map (λ e. e.sequence) out ≡ ks)
  unfolding sequenced ids_differ
  sequenced-lem [] [] out same e =
      subst (λ o. (ids_differ [] o ≡ false) × (0 ≡ length o) × (map (λ e. e.sequence) o ≡ []))
        (ok_injective e) (refl, refl, refl)
  sequenced-lem [] (k ∷ ks) out same e = absurd (omega (arith, same))
  sequenced-lem (x ∷ es) [] out same e = absurd (omega (arith, same))
  sequenced-lem (x ∷ es) (k ∷ ks) out same e =
      let (u, checked, e1) =
        >>=-eq-ok (throw_if (not (context.accepts_event (record x { sequence = k }))) out_of_range)
          _ e in
      let (rest, later, e2) = >>=-eq-ok (sequenced context es ks) _ e1 in
      let (ids, size, numbers) = sequenced-lem es ks rest (omega (arith, same)) later in
      subst
        (λ o.
          (ids_differ (x ∷ es) o ≡ false)
          × (suc (length es) ≡ length o)
          × (map (λ e. e.sequence) o ≡ k ∷ ks))
        (ok_injective e2) (rw (text_eq_refl x.id) ids, ap suc size, ap (λ l. k ∷ l) numbers)

  equal_lengths : (m n : ℕ) → (m == n) ≡ true → m ≡ n
  equal_lengths m n e = ground arith

  sized_again :
      (es out : List TekrionEvent) → length es ≡ length out → (length es == length out) ≡ true
  sized_again es out e = ground arith

  pub apply_sequences-again :
      (version : Text) (es : List TekrionEvent) (ks : List ℕ) (out : List TekrionEvent)
      → apply_sequences context es ks ≡ ok out
      → apply_stored_sequences context es (record { parser_version = version; events = out })
        ≡ ok out
  unfolding apply_sequences apply_stored_sequences
  apply_sequences-again version es ks out e =
      let (u, sized, e1) =
        >>=-eq-ok (throw_if (not (length es == length ks)) storage_integrity) _ e in
      let same : length es ≡ length ks = equal_lengths (length es) (length ks) (ground arith) in
      let (ids, size, numbers) = sequenced-lem es ks out same e1 in
      rw (numbers, ids, sized_again es out size) e

  apply_none :
      (db : Database)
      → ◌≡◌ {A = Database × Result StorageError (List TekrionEvent)}
          (db, apply_sequences context [] [])
          (db, ok [])
  unfolding apply_sequences sequenced
  apply_none db = refl

  -- The events that get new numbers are found again by their identifiers.
  pub reserve_sequences-again :
      (version session_id : Text) (es : List TekrionEvent) (db db' : Database)
      (out : List TekrionEvent)
      → reserve_sequences context session_id es db ≡ (db', ok out)
      → (db'.raw_exchanges ≡ db.raw_exchanges)
        × (db'.normalization_runs ≡ db.normalization_runs)
        × (apply_stored_sequences context es (record { parser_version = version; events = out })
            ≡ ok out)
  unfolding reserve_sequences with_reserved
  reserve_sequences-again version session_id [] db db' out e = (
    ap (λ p. p.0.raw_exchanges) (sym e),
    ap (λ p. p.0.normalization_runs) (sym e),
    apply_sequences-again version [] [] out (ap (λ p. p.1) (apply_none db ∙ e)),
  )
  reserve_sequences-again version session_id (x ∷ es) db db' out e =
      let (d, ks, reserved, applied) =
        and_then-ok (transaction db (reserve session_id (length (x ∷ es)) db)) _ e in
      let same =
        reserve-cases session_id (length (x ∷ es)) ks db d (transaction-ok db d _ reserved) in
      let d_is = ap (λ p. p.0) applied in
      (
        ap (λ t. t.raw_exchanges) (sym (same ∙ d_is)),
        ap (λ t. t.normalization_runs) (sym (same ∙ d_is)),
        apply_sequences-again version (x ∷ es) ks out (ap (λ p. p.1) applied),
      )

  pub insert_once-ok :
      (id : Text) (n : NormalizationResult) (es : List TekrionEvent) (db db' : Database)
      (r : ExchangeNormalizationResult)
      → insert_once context id n es db ≡ (db', ok r)
      → (p : Normalizations.NormalizationResult) × (insert_normalization context.json
            (input_of context id n es)
            db
          ≡ ok (db', p))
        × (result_of context n es p ≡ r)
  unfolding insert_once
  insert_once-ok id n es db db' r e =
      let (d, p, inserted, made) =
        and_then-ok
          (transaction db (insert_normalization context.json (input_of context id n es) db)) _ e in
      let d_is : d ≡ db' = ap (λ q. q.0) made in
      (
        p,
        transaction-ok db db' _ (
            subst
              (λ t.
                transaction db (insert_normalization context.json (input_of context id n es) db)
                ≡ (t, ok p))
              d_is inserted),
        ok_injective (ap (λ q. q.1) made),
      )

  insert_once-err :
      (id : Text) (n : NormalizationResult) (es : List TekrionEvent) (db d : Database)
      (thrown : StorageError)
      → insert_once context id n es db ≡ (d, err thrown)
      → db ≡ d
  unfolding insert_once
  insert_once-err id n es db d thrown e =
      unchanged_by db d thrown (insert_normalization context.json (input_of context id n es) db)
        (result_of context n es) e

  caught-err :
      (id : Text) (n : NormalizationResult) (existing : Option StoredNormalization)
      (thrown : StorageError) (db db' : Database) (r : ExchangeNormalizationResult)
      → get_normalization id (normalization_version_of n) db ≡ ok existing
      → ¬ (caught context id n existing thrown db ≡ (db', ok r))
  unfolding caught
  caught-err id n none storage_integrity db db' r found e = err_ok (
      ap (λ p. p.1)
        (none_raced context id n db ∙ sym (and_then-next db _ (raced context id n) none found) ∙ e))
  caught-err id n none immutable_evidence db db' r found e = err_ok (ap (λ p. p.1) e)
  caught-err id n none sequence_allocation db db' r found e = err_ok (ap (λ p. p.1) e)
  caught-err id n none out_of_range db db' r found e = err_ok (ap (λ p. p.1) e)
  caught-err id n none invalid_cursor db db' r found e = err_ok (ap (λ p. p.1) e)
  caught-err id n none constraint db db' r found e = err_ok (ap (λ p. p.1) e)
  caught-err id n none read_only db db' r found e = err_ok (ap (λ p. p.1) e)
  caught-err id n (some stored) thrown db db' r found e = err_ok (ap (λ p. p.1) e)

  -- A run that returns with what it was given has inserted it at the first try.
  pub persist-ok :
      (id : Text) (n : NormalizationResult) (existing : Option StoredNormalization)
      (es : List TekrionEvent) (db db' : Database) (r : ExchangeNormalizationResult)
      → get_normalization id (normalization_version_of n) db ≡ ok existing
      → persist context id n existing es db ≡ (db', ok r)
      → insert_once context id n es db ≡ (db', ok r)
  unfolding persist
  persist-ok id n existing es db db' r found e = at_first (insert_once context id n es db) refl e
    where
      at_first :
          (m : Database × Result StorageError ExchangeNormalizationResult)
          → insert_once context id n es db ≡ m
          → or_catch context id n existing m ≡ (db', ok r)
          → m ≡ (db', ok r)
      at_first (d, ok x) made h = h
      at_first (d, err thrown) made h =
          let same : db ≡ d = insert_once-err id n es db d thrown made in
          absurd (
            caught-err id n existing thrown d db' r
              (subst (λ t. get_normalization id (normalization_version_of n) t ≡ ok existing) same
                found)
              h)
