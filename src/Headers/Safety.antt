-- ===== src/Headers/Safety.antt =====
-- What is persisted has no sensitive name, and its schema accepts it.
use tekrion.Prelude.{
  ◌≡◌, refl, ap, ◌∙◌, inl, inr, Bool, Bool-cases, false, ◌||◌, List, [], ◌∷◌, ◌++◌, map, arith, any,
  length, ◌==◌, All, ok, Text, text_eq,
}
use tekrion.Prelude.Strings.{member, trim}
use tekrion.Prelude.Maps.{StringMap, set}
use tekrion.Headers.{
  HeaderValue, never_persist_headers, forbidden_persisted_headers, standard_hop_by_hop_headers,
  connection_tokens, values, withholds, persist_entry, persist_entries, parse_names,
  parse_safe_headers, headers_for_persistence,
}
use tekrion.Headers.Names.{hop_by_hop, credentials}

-- What holds of the names of a map, and of the name that is set, holds of the names after that.
All-set :
    {V : Type 0} (P : Text → Type 0) (k : Text) (v : V) (m : StringMap V)
    → P k
    → All (λ e. P e.0) m
    → All (λ e. P e.0) (set k v m)
unfolding set
All-set P k v [] p h = (p, tt)
All-set P k v ((j, w) ∷ m) p h = elim (Bool-cases (text_eq j k)) [
  | inl same ↦ rw same (h.0, h.1)
  | inr other ↦ rw other (h.0, All-set P k v m p h.1)
]

member-append : (t : Text) (us vs : List Text) → member t (us ++ vs) ≡ (member t us || member t vs)
unfolding member
member-append t [] vs = refl
member-append t (u ∷ us) vs = let rest = member-append t us vs in ground arith

forbidden-withheld :
    (t : Text)
    → member t never_persist_headers ≡ false
    → member t forbidden_persisted_headers ≡ false
unfolding member never_persist_headers forbidden_persisted_headers
forbidden-withheld t h = ground arith

none_forbidden :
    {A : Type 0} (p : A → Bool) (xs : List A) → All (λ x. p x ≡ false) xs → any p xs ≡ false
none_forbidden p [] h = refl
none_forbidden p (x ∷ xs) h = let rest = none_forbidden p xs h.1 in let first = h.0 in ground arith

module _ (to_lower_case : Text → Text) where
  -- A header's name, in lower case, has no white space around it and is not empty.
  abbrev pub IsToken : Text → Type 0
  IsToken name = (trim name ≡ name) × ((length name == 0) ≡ false)

  module _ (headers : StringMap HeaderValue) (additional : List Text) where
    -- A name of no credential, of no hop-by-hop header, not an additional one and not named by the
    -- header `connection`.
    abbrev pub IsSafe : Text → Type 0
    IsSafe name =
        (member name credentials ≡ false)
        × (member name hop_by_hop ≡ false)
        × (member name (map to_lower_case additional) ≡ false)
        × (member name (connection_tokens to_lower_case headers) ≡ false)

    withholds-IsSafe :
        (name : Text) → withholds to_lower_case headers additional name ≡ false → IsSafe name
    unfolding withholds never_persist_headers standard_hop_by_hop_headers
    withholds-IsSafe name free =
        let split = member-append name credentials (map to_lower_case additional) in
        (ground arith, ground arith, ground arith, ground arith)

    abbrev IsKept : Text → Type 0
    IsKept name =
        (withholds to_lower_case headers additional name ≡ false)
        × (to_lower_case name ≡ name)
        × IsToken name

    persist_entry-IsKept :
        (name : Text) (vs : List Text) (persisted : StringMap (List Text))
        → to_lower_case name ≡ name
        → IsToken name
        → All (λ e. IsKept e.0) persisted
        → All
            (λ e. IsKept e.0)
            (persist_entry to_lower_case
              (withholds to_lower_case headers additional)
              name
              vs
              persisted)
    unfolding persist_entry
    persist_entry-IsKept name [] persisted low token h = h
    persist_entry-IsKept name (v ∷ vs) persisted low token h =
        elim (Bool-cases (withholds to_lower_case headers additional name)) [
          | inl held ↦ rw held h
          | inr free ↦ rw free (All-set IsKept name (v ∷ vs) persisted (free, low, token) h)
        ]

    persist_entries-IsKept :
        (entries : StringMap HeaderValue) (persisted : StringMap (List Text))
        → ((t : Text) → to_lower_case (to_lower_case t) ≡ to_lower_case t)
        → All (λ e. IsToken (to_lower_case e.0)) entries
        → All (λ e. IsKept e.0) persisted
        → All
            (λ e. IsKept e.0)
            (persist_entries to_lower_case
              (withholds to_lower_case headers additional)
              entries
              persisted)
    unfolding persist_entries
    persist_entries-IsKept [] persisted low tokens h = h
    persist_entries-IsKept ((name, value) ∷ entries) persisted low tokens h =
        persist_entries-IsKept entries _ low tokens.1
          (persist_entry-IsKept (to_lower_case name) (values value) persisted (low name) tokens.0 h)

    parse_names-IsKept :
        (entries parsed : StringMap (List Text))
        → All (λ e. IsKept e.0) entries
        → All (λ e. IsKept e.0) parsed
        → (p : StringMap (List Text)) × (parse_names to_lower_case entries parsed ≡ ok p)
          × All (λ e. IsKept e.0) p
    unfolding parse_names
    parse_names-IsKept [] parsed h k = (parsed, refl, k)
    parse_names-IsKept ((name, vs) ∷ entries) parsed h k =
        let (free, low, token) = h.0 in
        let (p, e, all_kept) =
          parse_names-IsKept entries (set name vs parsed) h.1
            (All-set IsKept name vs parsed h.0 k) in
        (p, rw (token.0, token.1) e, all_kept)

    forbidden-IsKept :
        (name : Text)
        → IsKept name
        → member (to_lower_case name) forbidden_persisted_headers ≡ false
    unfolding withholds
    forbidden-IsKept name (free, low, token) =
        let split = member-append name never_persist_headers (map to_lower_case additional) in
        ap (λ t. member t forbidden_persisted_headers) low ∙ forbidden-withheld name (ground arith)

    -- Where lower case is idempotent and the names of the headers, in lower case, are not empty and
    -- have no white space around them, the headers to persist are found without an error, and
    -- each of their names is none of the listed names of credentials, none of the listed
    -- hop-by-hop names, none of the additional ones and none that the header `connection` names.
    pub headers_for_persistence-IsSafe :
        ((t : Text) → to_lower_case (to_lower_case t) ≡ to_lower_case t)
        → All (λ e. IsToken (to_lower_case e.0)) headers
        → (p : StringMap (List Text)) × (headers_for_persistence to_lower_case headers additional
            ≡ ok p)
          × All (λ e. IsSafe e.0) p
    unfolding headers_for_persistence parse_safe_headers
    headers_for_persistence-IsSafe low tokens =
        let (p, e, all_kept) =
          parse_names-IsKept _ [] (persist_entries-IsKept headers [] low tokens tt) tt in
        let fine : any (λ h. member (to_lower_case h.0) forbidden_persisted_headers) p ≡ false =
          none_forbidden _ p (imp p all_kept) in
        (p, rw (e, fine) refl, kept p all_kept)
      where
        imp :
            (p : StringMap (List Text))
            → All (λ e. IsKept e.0) p
            → All (λ h. member (to_lower_case h.0) forbidden_persisted_headers ≡ false) p
        imp [] h = tt
        imp (x ∷ xs) h = (forbidden-IsKept x.0 h.0, imp xs h.1)

        kept : (p : StringMap (List Text)) → All (λ e. IsKept e.0) p → All (λ e. IsSafe e.0) p
        kept [] h = tt
        kept (x ∷ xs) h = (withholds-IsSafe x.0 h.0.0, kept xs h.1)
