-- ===== src/Storage/Validity.antt =====
-- Every event belongs to a session, and the next number of a session lies above its events.
use tekrion.Prelude.{
  ℕ, suc, ◌+◌, ◌≤◌, ◌≡◌, refl, sym, ap, ◌∙◌, inl, inr, Bool, Bool-cases, true, false, not, List, [],
  ◌∷◌, ◌++◌, arith, any, all, keep, All, All-append, Text, text_eq, text_eq_iff,
}
use tekrion.Protocol.{Session}
use tekrion.Storage.{
  Database, EventRow, SequenceRow, SessionRow, is_session, is_sequence, update_where,
}
use tekrion.Storage.Sessions.{
  with_session, session_row, with_replaced, replaced_row, with_reserved, delete_session,
}
use tekrion.Storage.Events.{with_event, event_fits, counted, sequence_past}
use tekrion.Storage.Normalizations.{with_run}
use tekrion.Storage.Exchanges.{with_exchange, finalized, with_recovered}
use tekrion.Storage.Histories.{Engine, Operation, run, empty_database}
use tekrion.Storage.Changes.{
  session_added, session_replaced, session_deleted, numbers_reserved, event_added,
  search_index_rebuilt, run_added, exchange_added, exchange_finalized, exchange_recovered,
  blobs_stored, Allowed, Kept, run-keeps,
}
use tekrion.Storage.Tables.{
  All-imp, All-keep, All-keep_test, All-both, All-update, All-always, any-append, any-update,
  any-keep,
}

-- Numbers that the session is still to be given are at least `bound`.
abbrev AtLeast : ℕ → Text → List SequenceRow → Type 0
AtLeast bound id = All λ q. text_eq q.session_id id ≡ true → bound ≤ q.next_sequence

abbrev IsValidRow : List SessionRow → List SequenceRow → EventRow → Type 0
IsValidRow sessions sequences row =
    (any (is_session row.event.session_id) sessions ≡ true)
    × AtLeast (suc row.event.sequence) row.event.session_id sequences

abbrev pub IsValid : Database → Type 0
IsValid db = All (IsValidRow db.sessions db.session_sequences) db.events

AtLeast-update :
    (bound : ℕ) (id : Text) (p : SequenceRow → Bool) (f : SequenceRow → SequenceRow)
    → ((q : SequenceRow)
        → ((f q).session_id ≡ q.session_id) × (q.next_sequence ≤ (f q).next_sequence))
    → (rows : List SequenceRow) → AtLeast bound id rows
    → AtLeast bound id (update_where p f rows)
AtLeast-update bound id p f grows = All-update _ _ p f (λ q e h same. later q h same) (λ q e h. h)
  where
    later :
        (q : SequenceRow)
        → (text_eq q.session_id id ≡ true → bound ≤ q.next_sequence)
        → text_eq (f q).session_id id ≡ true
        → bound ≤ (f q).next_sequence
    later q h same = let (a, b) = grows q in let c = h (rw a at same) in omega arith

AtLeast-added :
    (bound : ℕ) (id other : Text) (rows : List SequenceRow)
    → text_eq other id ≡ false
    → AtLeast bound id rows
    → AtLeast bound id (rows ++ record { session_id = other; next_sequence = 1 } ∷ [])
AtLeast-added bound id other rows differ h = All-append _ rows _ h ((λ same. ground arith), tt)

differs :
    (id other : Text) (sessions : List SessionRow)
    → any (is_session id) sessions ≡ true
    → any (is_session other) sessions ≡ false
    → text_eq other id ≡ false
differs id other sessions here gone = elim (Bool-cases (text_eq other id)) [
  | inl same ↦
      let path : other ≡ id = (text_eq_iff other id).0 same in
      let clash : any (is_session id) sessions ≡ false = rw path at gone in ground arith
  | inr e ↦ e
]

session_added-IsValid :
    (scope : Operation → Bool) (s : Session) (db : Database)
    → Allowed scope (session_added s) db
    → IsValid db
    → IsValid (with_session s db)
unfolding with_session
session_added-IsValid scope s db (h, new, free) =
    All-imp _ _
      (λ row p. (
        rw any-append (ground arith),
        AtLeast-added _ row.event.session_id s.id db.session_sequences
            (differs row.event.session_id s.id db.sessions p.0 new) p.1,
      ))
      db.events

session_replaced-IsValid : (s : Session) (db : Database) → IsValid db → IsValid (with_replaced s db)
unfolding with_replaced replaced_row session_row
session_replaced-IsValid s db =
    All-imp _ _ (λ row p. (sessions_kept row.event.session_id db.sessions p.0, p.1)) db.events
  where
    replaced_id :
        (id : Text) (row : SessionRow)
        → text_eq row.session.id s.id ≡ true
        → text_eq s.id id ≡ text_eq row.session.id id
    replaced_id id row same =
        ap (λ t. text_eq t id) (sym ((text_eq_iff row.session.id s.id).0 same))

    sessions_kept :
        (id : Text) (rows : List SessionRow)
        → any (is_session id) rows ≡ true
        → any (is_session id) (update_where (is_session s.id) (replaced_row s) rows) ≡ true
    sessions_kept id [] h = h
    sessions_kept id (row ∷ rows) h = ground (arith, replaced_id id row, sessions_kept id rows)

numbers_reserved-IsValid :
    (id : Text) (n : ℕ) (db : Database) → IsValid db → IsValid (with_reserved id n db)
unfolding with_reserved
numbers_reserved-IsValid id n db =
    All-imp _ _
      (λ row p. (
        p.0,
        AtLeast-update _ row.event.session_id (is_sequence id)
            (λ r. record r { next_sequence = r.next_sequence + n }) (λ q. (refl, omega arith))
            db.session_sequences p.1,
      ))
      db.events

event_added-IsValid :
    (row : EventRow) (db : Database)
    → event_fits row db ≡ true
    → IsValid db
    → IsValid (with_event row db)
unfolding with_event counted sequence_past event_fits
event_added-IsValid row db fits valid =
    All-append _ db.events (row ∷ [])
      (All-imp _ _
        (λ r p. (
          any-update (is_session r.event.session_id) (is_session row.event.session_id)
                (counted row.event) (λ a. refl) db.sessions
              ∙ p.0,
          AtLeast-update _ r.event.session_id (is_sequence row.event.session_id)
              (sequence_past row.event) (λ q. (refl, omega arith)) db.session_sequences p.1,
        ))
        db.events valid)
      (
        (
          any-update (is_session row.event.session_id) (is_session row.event.session_id)
                (counted row.event) (λ a. refl) db.sessions
              ∙ known,
          All-update (λ q. Unit {0}) _ (is_sequence row.event.session_id) (sequence_past row.event)
              (λ q e u same. omega arith) (λ q e u same. absurd (clash q e same))
              db.session_sequences (All-always _ (λ q. tt) db.session_sequences),
        ),
        tt,
      )
  where
    known : any (is_session row.event.session_id) db.sessions ≡ true
    known = ground arith

    clash :
        (q : SequenceRow)
        → is_sequence row.event.session_id q ≡ false
        → text_eq q.session_id row.event.session_id ≡ true
        → ⊥
    clash q e same = ground arith

session_deleted-IsValid : (id : Text) (db : Database) → IsValid db → IsValid (delete_session id db)
unfolding delete_session
session_deleted-IsValid id db valid =
    All-imp _ _
      (λ row p. (
        any-keep (is_session row.event.session_id) (λ r. not (is_session id r))
              (λ r same. kept_session row r p.1 same) db.sessions
            ∙ p.0.0,
        All-keep _ (λ q. not (is_sequence id q)) db.session_sequences p.0.1,
      ))
      (keep (λ row. not (text_eq row.event.session_id id)) db.events)
      (All-both _ _ (keep (λ row. not (text_eq row.event.session_id id)) db.events)
        (All-keep _ _ db.events valid)
        (All-keep_test (λ row. not (text_eq row.event.session_id id)) db.events))
  where
    kept_session :
        (row : EventRow) (r : SessionRow)
        → not (text_eq row.event.session_id id) ≡ true
        → text_eq r.session.id row.event.session_id ≡ true
        → not (text_eq r.session.id id) ≡ true
    kept_session row r other same =
        ap (λ t. not (text_eq t id)) ((text_eq_iff r.session.id row.event.session_id).0 same)
        ∙ other

pub change-IsValid : (scope : Operation → Bool) → Kept scope IsValid
unfolding with_run with_exchange finalized with_recovered
change-IsValid scope (session_added s) db h v = session_added-IsValid scope s db h v
change-IsValid scope (session_replaced s) db h v = session_replaced-IsValid s db v
change-IsValid scope (session_deleted id) db h v = session_deleted-IsValid id db v
change-IsValid scope (numbers_reserved id n) db h v = numbers_reserved-IsValid id n db v
change-IsValid scope (event_added row) db h v = event_added-IsValid row db h v
change-IsValid scope search_index_rebuilt db h v = v
change-IsValid scope (run_added input exchange status) db h v = v
change-IsValid scope (exchange_added exchange state) db h v = v
change-IsValid scope (exchange_finalized exchange) db h v = v
change-IsValid scope (exchange_recovered at exchange) db h v = v
change-IsValid scope (blobs_stored ids) db h v = v

always_true : (ops : List Operation) → all (λ op. true) ops ≡ true
always_true [] = refl
always_true (op ∷ ops) = ground (arith, always_true ops)

pub run-IsValid : (engine : Engine) (ops : List Operation) → IsValid (run engine ops empty_database)
run-IsValid engine ops =
    run-keeps (λ op. true) IsValid (change-IsValid (λ op. true)) engine ops empty_database
      (always_true ops) tt
