-- ===== src/Sse/Lines.antt =====
-- The text side of the decoder: finding a line's end, and cutting a line into a field.
use tekrion.Prelude.{
  ℕ, suc, ◌+◌, ◌*◌, ◌-◌, ◌≤◌, ◌≡◌, refl, ◌⊎◌, inl, inr, Bool-cases, Bool, true, false, ◌&&◌, ◌||◌,
  not, List, [], ◌∷◌, ◌++◌, Option, none, some, leb, ◌==◌, if◌then◌else◌, length, all, arith, Text,
}

abbrev pub lf : ℕ
lf = 10

abbrev pub cr : ℕ
cr = 13

-- A buffer cut at its first "\n" or "\r": the line, that character and what follows it.
pub record Cut : Type 0 where
  pub line : Text
  pub newline : ℕ
  pub after : Text

abbrev pub longer : ℕ → Option Cut → Option Cut
longer c none = none
longer c (some k) = some (record k { line = c ∷ k.line })

-- The search for `newlineIndex` in `drainLines`, with the two slices that it leads to.
unfoldable pub cut_line : Text → Option Cut
cut_line [] = none
cut_line (c ∷ s) =
    if c == lf || c == cr
    then some (record { line = []; newline = c; after = s })
    else longer c (cut_line s)

-- "\r\n" ends one line.
abbrev pub skip_lf : Text → Text
skip_lf [] = []
skip_lf (c ∷ s) = if c == lf then s else c ∷ s

abbrev pub rest : Cut → Text
rest k = if k.newline == cr then skip_lf k.after else k.after

abbrev pub is_empty : Text → Bool
is_empty [] = true
is_empty (c ∷ s) = false

-- A "\r" at the end of the buffer waits for its "\n", unless nothing more will come.
unfoldable pub waits : Bool → Cut → Bool
waits final k = k.newline == cr && is_empty k.after && not final

-- `value.startsWith(" ") ? value.slice(1) : value`.
unfoldable pub drop_space : Text → Text
drop_space [] = []
drop_space (c ∷ s) = if c == b' ' then s else c ∷ s

pub record Field : Type 0 where
  pub name : Text
  pub value : Text

-- The line cut at its first colon, if it has one; the value with one leading space removed.
unfoldable pub cut_field : Text → Field
unfolding drop_space
cut_field [] = record { name = []; value = [] }
cut_field (c ∷ s) =
    let more = cut_field s in
    if c == b':'
    then record { name = []; value = drop_space s }
    else record more { name = c ∷ more.name }

abbrev pub is_digit : ℕ → Bool
is_digit c = leb b'0' c && leb c b'9'

-- `/^\d+$/u.test(value)`.
unfoldable pub is_decimal : Text → Bool
is_decimal s = not (is_empty s) && all is_digit s

-- The integer that a decimal denotes.
unfoldable pub decimal_from : ℕ → Text → ℕ
decimal_from n [] = n
decimal_from n (c ∷ s) = decimal_from (n * 10 + (c - b'0')) s

-- `lines.join("\n")`.
unfoldable pub join_lines : List Text → Text
join_lines [] = []
join_lines (l ∷ []) = l
join_lines (l ∷ m ∷ ls) = l ++ lf ∷ join_lines (m ∷ ls)

longer-eq-some :
    (c : ℕ) (o : Option Cut) (k : Cut)
    → longer c o ≡ some k
    → (k' : Cut) × (o ≡ some k') × (k ≡ record k' { line = c ∷ k'.line })
longer-eq-some c none k e = cc
longer-eq-some c (some k') k e = (k', refl, ground arith)

skip_lf-length : (s : Text) → length (skip_lf s) ≤ length s
skip_lf-length [] = omega arith
skip_lf-length (c ∷ s) = ground arith

rest-length : (k : Cut) → length (rest k) ≤ length k.after
rest-length k = ground (arith, skip_lf-length k.after)

-- The two ways in which a text has a first line end.
cut_line-cons :
    (c : ℕ) (s : Text) (k : Cut)
    → cut_line (c ∷ s) ≡ some k
    → (((c == lf || c == cr) ≡ true) × (k ≡ record { line = []; newline = c; after = s }))
      ⊎ (((c == lf || c == cr) ≡ false)
          × ((k' : Cut) × (cut_line s ≡ some k') × (k ≡ record k' { line = c ∷ k'.line })))
unfolding cut_line
cut_line-cons c s k e = elim (Bool-cases (c == lf || c == cr)) [
  | inl end ↦ inl (end, ground arith)
  | inr inside ↦ inr (inside, longer-eq-some c (cut_line s) k (rw inside at e))
]

pub cut_line-length : (s : Text) (k : Cut) → cut_line s ≡ some k → suc (length (rest k)) ≤ length s
unfolding cut_line
cut_line-length [] k e = cc
cut_line-length (c ∷ s) k e = elim (cut_line-cons c s k e) [
  | inl (end, shape) ↦
      rw shape (omega (arith, rest-length (record { line = []; newline = c; after = s })))
  | inr (inside, (k', e', shape)) ↦ rw shape (omega (arith, cut_line-length s k' e'))
]

-- More text at the end changes neither the first line nor its end.
pub cut_line-append :
    (s t : Text) (k : Cut)
    → cut_line s ≡ some k
    → cut_line (s ++ t) ≡ some (record k { after = k.after ++ t })
unfolding cut_line
cut_line-append [] t k e = cc
cut_line-append (c ∷ s) t k e = elim (cut_line-cons c s k e) [
  | inl (end, shape) ↦ rw (end, shape) refl
  | inr (inside, (k', e', shape)) ↦ rw (inside, shape, cut_line-append s t k' e') refl
]

skip_lf-append :
    (newline : ℕ) (s t : Text)
    → (newline == cr && is_empty s && true) ≡ false
    → (if newline == cr then skip_lf (s ++ t) else s ++ t)
      ≡ (if newline == cr then skip_lf s else s) ++ t
skip_lf-append newline [] t h = ground arith
skip_lf-append newline (c ∷ s) t h = ground arith

pub rest-append :
    (k : Cut) (t : Text)
    → waits false k ≡ false
    → rest (record k { after = k.after ++ t }) ≡ rest k ++ t
unfolding waits
rest-append k t h = skip_lf-append k.newline k.after t h

pub waits-append :
    (k : Cut) (t : Text)
    → waits false k ≡ false
    → waits false (record k { after = k.after ++ t }) ≡ false
unfolding waits
waits-append k t h = is_empty-append k.newline k.after t h
  where
    is_empty-append :
        (newline : ℕ) (s t : Text)
        → (newline == cr && is_empty s && true) ≡ false
        → (newline == cr && is_empty (s ++ t) && true) ≡ false
    is_empty-append newline [] t h = ground arith
    is_empty-append newline (c ∷ s) t h = ground arith
