-- ===== src/Storage/Recovery.antt =====
-- `recoverIncomplete` leaves no exchange recording.
use tekrion.Prelude.{
  ◌≡◌, refl, ap, ◌∙◌, inl, inr, Bool, Bool-cases, true, false, ◌||◌, List, [], ◌∷◌, Result, ok,
  arith, any, keep, All, Text, text_eq, text_eq_refl, throw_if, >>=-eq-ok, subst, if◌then◌else◌,
}
use tekrion.Storage.{Database, RawExchangeRow, StorageError, read_only, session_imported}
use tekrion.Storage.Exchanges.{
  is_recording, is_open, with_recovered, recover_rows, rows_in_order, insert_row_in_order,
  recording_rows, recover_incomplete,
}
use tekrion.Storage.Tables.{All-imp, All-update, All-both}

-- Every row that is recording has an identifier among those of the pending rows.
abbrev IsPending : List RawExchangeRow → List RawExchangeRow → Type 0
IsPending pending = All λ r.
    is_recording r.journal_state ≡ true
    → any (λ p. text_eq r.exchange.id p.exchange.id) pending ≡ true

module _ (before : Text → Text → Bool) where
  any-insert_row_in_order :
      (p : RawExchangeRow → Bool) (r : RawExchangeRow) (rows : List RawExchangeRow)
      → any p (insert_row_in_order before r rows) ≡ (p r || any p rows)
  unfolding insert_row_in_order
  any-insert_row_in_order p r [] = refl
  any-insert_row_in_order p r (x ∷ xs) = let rest = any-insert_row_in_order p r xs in ground arith

  any-rows_in_order :
      (p : RawExchangeRow → Bool) (rows : List RawExchangeRow)
      → any p (rows_in_order before rows) ≡ any p rows
  unfolding rows_in_order
  any-rows_in_order p [] = refl
  any-rows_in_order p (x ∷ xs) =
      any-insert_row_in_order p x (rows_in_order before xs)
      ∙ ap (λ b. p x || b) (any-rows_in_order p xs)

IsPending-more :
    (x : RawExchangeRow) (pending rows : List RawExchangeRow)
    → IsPending pending rows
    → IsPending (x ∷ pending) rows
IsPending-more x pending rows h =
    All-imp _ _ (λ r p recorded. let found = p recorded in ground arith) rows h

IsPending-cons :
    (x : RawExchangeRow) (pending rows : List RawExchangeRow) (b : Bool)
    → is_recording x.journal_state ≡ b
    → IsPending pending rows
    → IsPending (if b then x ∷ pending else pending) (x ∷ rows)
IsPending-cons x pending rows true e h =
    ((λ recorded. ground (arith, text_eq_refl x.exchange.id)), IsPending-more x pending rows h)
IsPending-cons x pending rows false e h = ((λ recorded. ground arith), h)

IsPending-start :
    (rows : List RawExchangeRow) → IsPending (keep (λ r. is_recording r.journal_state) rows) rows
IsPending-start [] = tt
IsPending-start (x ∷ xs) =
    IsPending-cons x (keep (λ r. is_recording r.journal_state) xs) xs (is_recording x.journal_state)
      refl (IsPending-start xs)

not_any : {A : Type 0} (p : A → Bool) (xs : List A) → any p xs ≡ false → All (λ x. p x ≡ false) xs
not_any p [] h = tt
not_any p (x ∷ xs) h = (ground arith, not_any p xs (ground arith))

-- A row of another identifier, or that is not recording, waits for no row of the first pending one.
IsPending-head :
    (x r : RawExchangeRow) (pending : List RawExchangeRow)
    → is_open x.exchange.id r ≡ false
    → (is_recording r.journal_state ≡ true
        → any (λ p. text_eq r.exchange.id p.exchange.id) (x ∷ pending) ≡ true)
    → is_recording r.journal_state ≡ true
    → any (λ p. text_eq r.exchange.id p.exchange.id) pending ≡ true
unfolding is_open
IsPending-head x r pending closed h recorded = let found = h recorded in ground arith

recover_rows_complete :
    (at : Text) (pending : List RawExchangeRow) (db db' : Database) (ids : List Text)
    → recover_rows at pending db ≡ ok (db', ids)
    → IsPending pending db.raw_exchanges
    → All (λ r. is_recording r.journal_state ≡ false) db'.raw_exchanges
unfolding recover_rows with_recovered is_recording
recover_rows_complete at [] db db' ids e h =
    subst (λ d. All (λ r. is_recording r.journal_state ≡ false) d.raw_exchanges) (same e)
      (All-imp _ _ (λ r p. closed r.journal_state p) db.raw_exchanges h)
  where
    same :
        ◌≡◌ {A = Result StorageError (Database × List Text)} (ok (db, [])) (ok (db', ids))
        → db ≡ db'
    same x = ground arith

    closed : (j : _) → (is_recording j ≡ true → false ≡ true) → is_recording j ≡ false
    closed j p = elim (Bool-cases (is_recording j)) [
      | inl t ↦ let clash = p t in ground arith
      | inr f ↦ f
    ]
recover_rows_complete at (x ∷ pending) db db' ids e h =
    elim (Bool-cases (any (is_open x.exchange.id) db.raw_exchanges)) [
      | inl found ↦
          let (u, eu, e1) =
            >>=-eq-ok (throw_if (session_imported x.exchange.session_id db) read_only) _
              (rw (found, recover_rows) at e) in
          let (p, ep, e2) =
            >>=-eq-ok (recover_rows at pending (with_recovered at x.exchange db)) _ e1 in
          recover_rows_complete at pending (with_recovered at x.exchange db) db' p.1 (ground arith)
            (All-update _ _ (is_open x.exchange.id) _ (λ r t q c. ground arith)
              (λ r f q. IsPending-head x r pending f q) db.raw_exchanges h)
      | inr absent ↦ recover_rows_complete at pending db db' ids (rw (absent, recover_rows) at e) (
          All-imp _ _ (λ r b. IsPending-head x r pending b.1 b.0) db.raw_exchanges
            (All-both _ _ db.raw_exchanges h
              (not_any (is_open x.exchange.id) db.raw_exchanges absent)))
    ]

-- After a recovery that returns, no exchange is recording.
pub recover_incomplete_complete :
    (before : Text → Text → Bool) (at : Text) (db db' : Database) (ids : List Text)
    → recover_incomplete before at db ≡ ok (db', ids)
    → All (λ r. is_recording r.journal_state ≡ false) db'.raw_exchanges
unfolding recover_incomplete recording_rows
recover_incomplete_complete before at db db' ids e =
    recover_rows_complete at (recording_rows before db) db db' ids e (
      All-imp _ _
        (λ r p recorded.
          any-rows_in_order before _ (keep (λ x. is_recording x.journal_state) db.raw_exchanges)
          ∙ p recorded)
        db.raw_exchanges (IsPending-start db.raw_exchanges))
