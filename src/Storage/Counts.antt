-- ===== src/Storage/Counts.antt =====
-- The counts of a session's row are those of its stored events.
use tekrion.Prelude.{
  ℕ, ◌+◌, ◌≡◌, refl, sym, ap, ◌∙◌, subst, inl, inr, Bool-cases, true, false, not, ◌&&◌, ◌==◌, List,
  [], ◌∷◌, ◌++◌, append-nil, map, arith, any, all, keep, All, All-append, length, length-append,
  Text, text_eq, text_eq_iff, if◌then◌else◌,
}
use tekrion.Prelude.Strings.{text_eq_comm}
use tekrion.Protocol.{TekrionEvent, Session}
use tekrion.Storage.{Database, EventRow, SessionRow, is_session}
use tekrion.Storage.Sessions.{
  with_session, session_row, with_replaced, replaced_row, with_reserved, delete_session,
}
use tekrion.Storage.Events.{with_event, counted, is_error_type, events_of, count}
use tekrion.Storage.Normalizations.{with_run}
use tekrion.Storage.Exchanges.{with_exchange, finalized, with_recovered}
use tekrion.Storage.Histories.{Engine, Operation, creates, starts_empty, run, empty_database}
use tekrion.Storage.Changes.{
  Change, session_added, session_replaced, session_deleted, numbers_reserved, event_added,
  search_index_rebuilt, run_added, exchange_added, exchange_finalized, exchange_recovered,
  blobs_stored, apply, Allowed, Kept, run-keeps,
}
use tekrion.Storage.Tables.{All-imp, All-keep, All-keep_test, All-both, All-update}
use tekrion.Storage.Validity.{IsValid, change-IsValid}

-- The events of a session among some rows.
abbrev among : Text → List EventRow → List TekrionEvent
among id rows = map (λ row. row.event) (keep (λ row. text_eq row.event.session_id id) rows)

abbrev errors : List TekrionEvent → ℕ
errors es = length (keep (λ e. is_error_type e.type) es)

abbrev IsCountedRow : List EventRow → SessionRow → Type 0
IsCountedRow rows r =
    (r.event_count ≡ length (among r.session.id rows))
    × (r.error_count ≡ errors (among r.session.id rows))

abbrev pub IsCounted : Database → Type 0
IsCounted db = IsValid db × All (IsCountedRow db.events) db.sessions

among-append :
    (id : Text) (rows : List EventRow) (row : EventRow)
    → among id (rows ++ row ∷ [])
      ≡ among id rows ++ (if text_eq row.event.session_id id then row.event ∷ [] else [])
among-append id [] row = ground arith
among-append id (x ∷ xs) row = elim (Bool-cases (text_eq x.event.session_id id)) [
  | inl e ↦ rw e (ap (λ es. x.event ∷ es) (among-append id xs row))
  | inr e ↦ rw e (among-append id xs row)
]

-- No row is of a session that is not there.
among-none :
    (id : Text) (sessions : List SessionRow) (rows : List EventRow)
    → any (is_session id) sessions ≡ false
    → All (λ row. any (is_session row.event.session_id) sessions ≡ true) rows
    → among id rows ≡ []
among-none id sessions [] gone h = refl
among-none id sessions (x ∷ xs) gone h = elim (Bool-cases (text_eq x.event.session_id id)) [
  | inl e ↦
      let path : x.event.session_id ≡ id = (text_eq_iff x.event.session_id id).0 e in
      let here : any (is_session id) sessions ≡ true = rw path at h.0 in ground arith
  | inr e ↦ rw e (among-none id sessions xs gone h.1)
]

among-deleted :
    (id other : Text) (rows : List EventRow)
    → text_eq other id ≡ false
    → among other (keep (λ row. not (text_eq row.event.session_id id)) rows) ≡ among other rows
among-deleted id other [] h = refl
among-deleted id other (x ∷ xs) h = elim (Bool-cases (text_eq x.event.session_id id)) [
  | inl e ↦
      let path : x.event.session_id ≡ id = (text_eq_iff x.event.session_id id).0 e in
      let differ : text_eq x.event.session_id other ≡ false = rw path (text_eq_comm id other ∙ h) in
      rw (e, differ) (among-deleted id other xs h)
  | inr e ↦ elim (Bool-cases (text_eq x.event.session_id other)) [
    | inl same ↦ rw e (rw same (ap (λ es. x.event ∷ es) (among-deleted id other xs h)))
    | inr other_row ↦ rw e (rw other_row (among-deleted id other xs h))
  ]
]

added-IsCountedRow :
    (row : EventRow) (rows : List EventRow) (r : SessionRow)
    → is_session row.event.session_id r ≡ true
    → IsCountedRow rows r
    → IsCountedRow (rows ++ row ∷ []) (counted row.event r)
unfolding counted
added-IsCountedRow row rows r same p =
    let of_session : text_eq row.event.session_id r.session.id ≡ true =
      text_eq_comm row.event.session_id r.session.id ∙ same in
    let grown : among r.session.id (rows ++ row ∷ []) ≡ among r.session.id rows ++ row.event ∷ [] =
      among-append r.session.id rows row
      ∙ ap (λ b. among r.session.id rows ++ (if b then row.event ∷ [] else [])) of_session in
    (
      ap (λ n. n + 1) p.0
          ∙ sym (length-append (among r.session.id rows) (row.event ∷ []))
          ∙ ap length (sym grown),
      ap (λ n. n + (if is_error_type row.event.type then 1 else 0)) p.1
          ∙ one_more (among r.session.id rows)
          ∙ ap errors (sym grown),
    )
  where
    one_more :
        (es : List TekrionEvent)
        → errors es + (if is_error_type row.event.type then 1 else 0)
          ≡ errors (es ++ row.event ∷ [])
    one_more [] = ground arith
    one_more (x ∷ xs) = let rest = one_more xs in ground arith

other-IsCountedRow :
    (row : EventRow) (rows : List EventRow) (r : SessionRow)
    → is_session row.event.session_id r ≡ false
    → IsCountedRow rows r
    → IsCountedRow (rows ++ row ∷ []) r
other-IsCountedRow row rows r differ p =
    let of_other : text_eq row.event.session_id r.session.id ≡ false =
      text_eq_comm row.event.session_id r.session.id ∙ differ in
    let same : among r.session.id (rows ++ row ∷ []) ≡ among r.session.id rows =
      among-append r.session.id rows row
      ∙ ap (λ b. among r.session.id rows ++ (if b then row.event ∷ [] else [])) of_other
      ∙ append-nil (among r.session.id rows) in
    (p.0 ∙ ap length (sym same), p.1 ∙ ap errors (sym same))

new-IsCountedRow :
    (s : Session) (db : Database)
    → starts_empty (creates s) ≡ true
    → any (is_session s.id) db.sessions ≡ false
    → IsValid db
    → IsCountedRow db.events (session_row s)
unfolding session_row starts_empty
new-IsCountedRow s db empty new valid =
    let nothing : among s.id db.events ≡ [] =
      among-none s.id db.sessions db.events new (All-imp _ _ (λ row p. p.0) db.events valid) in
    (
      no_events s.counts.events s.counts.errors empty ∙ ap length (sym nothing),
      no_errors s.counts.events s.counts.errors empty ∙ ap errors (sym nothing),
    )
  where
    no_events : (m n : ℕ) → (m == 0 && n == 0) ≡ true → m ≡ 0
    no_events m n e = ground arith

    no_errors : (m n : ℕ) → (m == 0 && n == 0) ≡ true → n ≡ 0
    no_errors m n e = ground arith

deleted-IsCountedRow :
    (id : Text) (rows : List EventRow) (r : SessionRow)
    → not (is_session id r) ≡ true
    → IsCountedRow rows r
    → IsCountedRow (keep (λ row. not (text_eq row.event.session_id id)) rows) r
deleted-IsCountedRow id rows r kept p =
    let same = among-deleted id r.session.id rows (ground arith) in
    (p.0 ∙ ap length (sym same), p.1 ∙ ap errors (sym same))

change-rows :
    (c : Change) (db : Database)
    → Allowed starts_empty c db
    → IsCounted db
    → All (IsCountedRow (apply c db).events) (apply c db).sessions
unfolding with_session with_replaced replaced_row session_row with_reserved delete_session
    with_event with_run with_exchange finalized with_recovered
change-rows (session_added s) db (h, new, free) (valid, rows) =
    All-append _ db.sessions (session_row s ∷ []) rows (new-IsCountedRow s db h new valid, tt)
change-rows (session_replaced s) db h (valid, rows) =
    All-update _ _ (is_session s.id) (replaced_row s)
      (λ r same p.
        subst
          (λ id.
            (r.event_count ≡ length (among id db.events))
            × (r.error_count ≡ errors (among id db.events)))
          ((text_eq_iff r.session.id s.id).0 same) p)
      (λ r other p. p) db.sessions rows
change-rows (session_deleted id) db h (valid, rows) =
    All-imp _ _ (λ r p. deleted-IsCountedRow id db.events r p.1 p.0)
      (keep (λ r. not (is_session id r)) db.sessions)
      (All-both _ _ (keep (λ r. not (is_session id r)) db.sessions)
        (All-keep _ (λ r. not (is_session id r)) db.sessions rows)
        (All-keep_test (λ r. not (is_session id r)) db.sessions))
change-rows (numbers_reserved id n) db h (valid, rows) = rows
change-rows (event_added row) db h (valid, rows) =
    All-update _ _ (is_session row.event.session_id) (counted row.event)
      (λ r same p. added-IsCountedRow row db.events r same p)
      (λ r other p. other-IsCountedRow row db.events r other p) db.sessions rows
change-rows search_index_rebuilt db h (valid, rows) = rows
change-rows (run_added input exchange status) db h (valid, rows) = rows
change-rows (exchange_added exchange state) db h (valid, rows) = rows
change-rows (exchange_finalized exchange) db h (valid, rows) = rows
change-rows (exchange_recovered at exchange) db h (valid, rows) = rows
change-rows (blobs_stored ids) db h (valid, rows) = rows

change-IsCounted : Kept starts_empty IsCounted
change-IsCounted c db h v = (change-IsValid starts_empty c db h v.0, change-rows c db h v)

-- After any history of calls from an empty database in which sessions are created without counts,
-- the event count of each session's row is the number of its stored events, and its error count
-- is the number of those whose type is that of an error.
pub run-IsCounted :
    (engine : Engine) (ops : List Operation)
    → all starts_empty ops ≡ true
    → All
        (λ r.
          (r.event_count ≡ count r.session.id (run engine ops empty_database))
          × (r.error_count
              ≡ length (
                  keep
                    (λ e. is_error_type e.type)
                    (events_of r.session.id (run engine ops empty_database)))))
        (run engine ops empty_database).sessions
unfolding count events_of
run-IsCounted engine ops h =
    (run-keeps starts_empty IsCounted change-IsCounted engine ops empty_database h (tt, tt)).1
