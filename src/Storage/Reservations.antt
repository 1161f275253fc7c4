-- ===== src/Storage/Reservations.antt =====
-- The numbers that `reserve` gives out are new.
use tekrion.Prelude.{
  ℕ, zero, suc, ◌+◌, ◌≤◌, ◌<◌, ◌≡◌, refl, sym, ap, ◌∙◌, inl, inr, Bool-cases, Option-cases, true,
  not, List, [], ◌∷◌, map, some, ok, arith, all, find, keep, All, Text, text_eq, text_eq_iff,
  if◌then◌else◌, subst,
}
use tekrion.Prelude.Strings.{text_eq_comm}
use tekrion.Storage.{Database, EventRow, SequenceRow, is_sequence, update_where}
use tekrion.Storage.Sessions.{
  with_session, with_replaced, with_reserved, delete_session, reserve, numbers_from,
}
use tekrion.Storage.Events.{with_event, sequence_past, events_of}
use tekrion.Storage.Normalizations.{with_run}
use tekrion.Storage.Exchanges.{with_exchange, finalized, with_recovered}
use tekrion.Storage.Histories.{Engine, Operation, keeps_session, run, empty_database}
use tekrion.Storage.Changes.{
  session_added, session_replaced, session_deleted, numbers_reserved, event_added,
  search_index_rebuilt, run_added, exchange_added, exchange_finalized, exchange_recovered,
  blobs_stored, Kept, run-keeps,
}
use tekrion.Storage.Tables.{All-imp, All-find, find-test, find-update, find-keep, find-append}
use tekrion.Storage.Validity.{run-IsValid}

numbers_from-bounds :
    (first n : ℕ) → All (λ k. (first ≤ k) × (k < first + n)) (numbers_from first n)
unfolding numbers_from
numbers_from-bounds first zero = tt
numbers_from-bounds first (suc n) = (
  omega arith,
  All-imp _ _ (λ k p. omega arith) (numbers_from (suc first) n) (numbers_from-bounds (suc first) n),
)

reserve-row :
    (id : Text) (n : ℕ) (db db' : Database) (ns : List ℕ)
    → reserve id n db ≡ ok (db', ns)
    → (row : SequenceRow) × (find (is_sequence id) db.session_sequences ≡ some row)
      × (ns ≡ numbers_from row.next_sequence n)
      × (with_reserved id n db ≡ db')
unfolding reserve
reserve-row id n db db' ns e = elim (Option-cases (find (is_sequence id) db.session_sequences)) [
  | inl absent ↦ ground arith
  | inr (row, present) ↦ (row, present, ground arith, ground arith)
]

events_above :
    (id : Text) (next : ℕ) (rows : List EventRow)
    → All (λ row. text_eq row.event.session_id id ≡ true → row.event.sequence < next) rows
    → All
        (λ e. e.sequence < next)
        (map (λ row. row.event) (keep (λ row. text_eq row.event.session_id id) rows))
events_above id next [] h = tt
events_above id next (row ∷ rows) h = elim (Bool-cases (text_eq row.event.session_id id)) [
  | inl same ↦ rw same (h.0 same, events_above id next rows h.1)
  | inr other ↦ rw other (events_above id next rows h.1)
]

-- After any history of calls from an empty database, the numbers that `reserve` returns for a
-- session lie above those of all its events.
pub reserve-above_events :
    (engine : Engine) (ops : List Operation) (id : Text) (n : ℕ) (db' : Database) (ns : List ℕ)
    → reserve id n (run engine ops empty_database) ≡ ok (db', ns)
    → All (λ k. All (λ e. e.sequence < k) (events_of id db')) ns
unfolding events_of with_reserved
reserve-above_events engine ops id n db' ns e =
    let db = run engine ops empty_database in
    let (row, present, numbers, changed) = reserve-row id n db db' ns e in
    let above = events_above id row.next_sequence db.events (
      All-imp _ _
        (λ r p same.
          All-find _ (is_sequence id) db.session_sequences row p.1 present
            (of_event r row present same))
        db.events (run-IsValid engine ops)) in
    rw (numbers, sym changed)
      (All-imp _ _ (λ k p. All-imp _ _ (λ x q. omega arith) (events_of id db) above)
        (numbers_from row.next_sequence n) (numbers_from-bounds row.next_sequence n))
  where
    of_event :
        (r : EventRow) (row : SequenceRow)
        → find (is_sequence id) (run engine ops empty_database).session_sequences ≡ some row
        → text_eq r.event.session_id id ≡ true
        → text_eq row.session_id r.event.session_id ≡ true
    of_event r row present same = (text_eq_iff row.session_id r.event.session_id).1 (
        (text_eq_iff row.session_id id).0
          (find-test (is_sequence id) (run engine ops empty_database).session_sequences row present)
        ∙ sym ((text_eq_iff r.event.session_id id).0 same))

-- The next number of the session is at least `bound`.
abbrev NextFrom : ℕ → Text → Database → Type 0
NextFrom bound id db =
    (row : SequenceRow) × (find (is_sequence id) db.session_sequences ≡ some row)
    × (bound ≤ row.next_sequence)

updated-NextFrom :
    (bound : ℕ) (id other : Text) (f : SequenceRow → SequenceRow) (rows : List SequenceRow)
    (row : SequenceRow)
    → ((q : SequenceRow) → (f q).session_id ≡ q.session_id)
    → ((q : SequenceRow) → q.next_sequence ≤ (f q).next_sequence)
    → find (is_sequence id) rows ≡ some row
    → bound ≤ row.next_sequence
    → (row' : SequenceRow) × (find (is_sequence id) (update_where (is_sequence other) f rows)
        ≡ some row')
      × (bound ≤ row'.next_sequence)
updated-NextFrom bound id other f rows row same grows found least = (
  _,
  find-update (is_sequence id) (is_sequence other) f (λ a e. ap (λ t. text_eq t id) (same a)) rows
      row found,
  by_test,
)
  where
    by_test : bound ≤ (if is_sequence other row then f row else row).next_sequence
    by_test = ground (arith, grows row)

change-NextFrom : (bound : ℕ) (id : Text) → Kept (keeps_session id) (NextFrom bound id)
unfolding with_session with_replaced with_reserved delete_session with_event sequence_past with_run
    with_exchange finalized with_recovered keeps_session
change-NextFrom bound id (session_added s) db h (row, found, least) =
    (row, find-append (is_sequence id) db.session_sequences _ row found, least)
change-NextFrom bound id (session_replaced s) db h v = v
change-NextFrom bound id (session_deleted other) db h (row, found, least) = (
  row,
  find-keep (is_sequence id) (λ q. not (is_sequence other q)) (λ q same. kept_row q same)
      db.session_sequences row found,
  least,
)
  where
    kept_row :
        (q : SequenceRow) → text_eq q.session_id id ≡ true → not (text_eq q.session_id other) ≡ true
    kept_row q same =
        ap (λ t. not (text_eq t other)) ((text_eq_iff q.session_id id).0 same)
        ∙ ap not (text_eq_comm id other)
        ∙ h
change-NextFrom bound id (numbers_reserved other n) db h (row, found, least) =
    updated-NextFrom bound id other _ db.session_sequences row (λ q. refl) (λ q. omega arith) found
      least
change-NextFrom bound id (event_added r) db h (row, found, least) =
    updated-NextFrom bound id r.event.session_id (sequence_past r.event) db.session_sequences row
      (λ q. refl) (λ q. omega arith) found least
change-NextFrom bound id search_index_rebuilt db h v = v
change-NextFrom bound id (run_added input exchange status) db h v = v
change-NextFrom bound id (exchange_added exchange state) db h v = v
change-NextFrom bound id (exchange_finalized exchange) db h v = v
change-NextFrom bound id (exchange_recovered at exchange) db h v = v
change-NextFrom bound id (blobs_stored ids) db h v = v

-- If a session is not removed in between, the numbers of a later reservation for it all lie above
-- those of an earlier one.
pub reserve_again :
    (engine : Engine) (id : Text) (n m : ℕ) (db db' db'' : Database) (ns ms : List ℕ)
    (ops : List Operation)
    → reserve id n db ≡ ok (db', ns)
    → all (keeps_session id) ops ≡ true
    → reserve id m (run engine ops db') ≡ ok (db'', ms)
    → All (λ k. All (λ j. k < j) ms) ns
unfolding with_reserved
reserve_again engine id n m db db' db'' ns ms ops e kept e' =
    let (row, present, numbers, changed) = reserve-row id n db db' ns e in
    let next : NextFrom (row.next_sequence + n) id db' =
      let (r1, found1, at_least) = reserved_row n row db.session_sequences present in
      (r1, ap (λ d. find (is_sequence id) d.session_sequences) (sym changed) ∙ found1, at_least) in
    let (row1, present1, least) =
      run-keeps (keeps_session id) (NextFrom (row.next_sequence + n) id) (change-NextFrom _ id)
        engine ops db' kept next in
    let (row2, present2, numbers2, changed2) = reserve-row id m (run engine ops db') db'' ms e' in
    let same : row1 ≡ row2 = ground arith in
    rw (numbers, numbers2)
      (All-imp _ _
        (λ k p.
          All-imp _ _
            (λ j q.
              let apart : row.next_sequence + n ≤ row2.next_sequence =
                subst (λ r. row.next_sequence + n ≤ r.next_sequence) same least in
              omega arith)
            (numbers_from row2.next_sequence m) (numbers_from-bounds row2.next_sequence m))
        (numbers_from row.next_sequence n) (numbers_from-bounds row.next_sequence n))
  where
    reserved_row :
        (n : ℕ) (row : SequenceRow) (rows : List SequenceRow)
        → find (is_sequence id) rows ≡ some row
        → (row' : SequenceRow) × (find (is_sequence id) (
              update_where
                (is_sequence id)
                (λ r. record r { next_sequence = r.next_sequence + n })
                rows)
            ≡ some row')
          × (row.next_sequence + n ≤ row'.next_sequence)
    reserved_row n row rows found = (
      record row { next_sequence = row.next_sequence + n },
      find-update (is_sequence id) (is_sequence id) _ (λ a e. refl) rows row found
          ∙ ap some (ground (arith, find-test (is_sequence id) rows row found)),
      omega arith,
    )
