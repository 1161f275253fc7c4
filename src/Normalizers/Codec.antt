-- ===== src/Normalizers/Codec.antt =====
-- A representation of flat objects as texts, in which every field is found again: an instance of
-- what packages/normalizers/src/diagnostics.ts needs of the objects of the language.

use tekrion.Prelude.{ℕ, zero, suc, append-nil, ◌∙◌, ◌≡◌, refl, ap, [], ◌∷◌, ◌++◌, Option, Text}
use tekrion.Prelude.Maps.{StringMap, get}
use tekrion.Normalizers.Diagnostics.{SummaryValue, string_value, number_value, json_value}

abbrev shifted : Text → Text
shifted [] = []
shifted (c ∷ s) = suc (suc (suc (suc c))) ∷ shifted s

abbrev encode_value : SummaryValue → Text
encode_value (string_value t) = 0 ∷ shifted t
encode_value (json_value t) = 1 ∷ shifted t
encode_value (number_value n) = 2 ∷ shifted (n ∷ [])

unfoldable pub encode : StringMap SummaryValue → Text
encode [] = []
encode ((k, v) ∷ m) = 3 ∷ (shifted k ++ (encode_value v ++ encode m))

abbrev first_of : Text → ℕ
first_of [] = 0
first_of (n ∷ s) = n

-- The characters that are read, the value after them and the fields after these.
abbrev Read : Type 0
Read = Text × SummaryValue × StringMap SummaryValue

abbrev read : ℕ → Read → Read
read zero (t, v, m) = ([], string_value t, m)
read (suc zero) (t, v, m) = ([], json_value t, m)
read (suc (suc zero)) (t, v, m) = ([], number_value (first_of t), m)
read (suc (suc (suc zero))) (t, v, m) = ([], string_value [], (t, v) ∷ m)
read (suc (suc (suc (suc c)))) (t, v, m) = (c ∷ t, v, m)

abbrev reads : Text → Read
reads [] = ([], string_value [], [])
reads (c ∷ s) = read c (reads s)

abbrev with_text : Text → Read → Read
with_text t (u, v, m) = (t ++ u, v, m)

reads-shifted : (t s : Text) → reads (shifted t ++ s) ≡ with_text t (reads s)
reads-shifted [] s = refl
reads-shifted (c ∷ t) s = ap (read (suc (suc (suc (suc c))))) (reads-shifted t s)

reads-encode_value :
    (v : SummaryValue) (s : Text) (m : StringMap SummaryValue)
    → reads s ≡ ([], string_value [], m)
    → reads (encode_value v ++ s) ≡ ([], v, m)
reads-encode_value (string_value t) s m e =
    rw (reads-shifted t s, e) (ap (λ u. ([], string_value u, m)) (append-nil t))
reads-encode_value (json_value t) s m e =
    rw (reads-shifted t s, e) (ap (λ u. ([], json_value u, m)) (append-nil t))
reads-encode_value (number_value n) s m e = rw e refl

reads-encode : (m : StringMap SummaryValue) → reads (encode m) ≡ ([], string_value [], m)
unfolding encode
reads-encode [] = refl
reads-encode ((k, v) ∷ m) =
    let value = reads-encode_value v (encode m) m (reads-encode m) in
    ap (read (suc (suc (suc zero))))
      (reads-shifted k (encode_value v ++ encode m) ∙ ap (with_text k) value)
    ∙ ap (λ u. ([], string_value [], (u, v) ∷ m)) (append-nil k)

unfoldable pub field : Text → Text → Option SummaryValue
unfolding get
field name text = get name (reads text).2

pub field-encode : (name : Text) (m : StringMap SummaryValue) → field name (encode m) ≡ get name m
unfolding field
field-encode name m = ap (λ r. get name r.2) (reads-encode m)
