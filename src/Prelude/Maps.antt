-- ===== src/Prelude/Maps.antt =====
-- A JavaScript `Map` whose keys are strings: its entries in insertion order. `set` on a key that is
-- present keeps the entry's place, as in the language.
use mathlib.Core.Path.{◌≡◌, refl}
use mathlib.Core.List.{List, [], ◌∷◌}
use mathlib.Core.Option.{Option, none, some}
use native.Mathlib.Omega.{arith}
use tekrion.Prelude.Tests.{if◌then◌else◌}
use tekrion.Prelude.Strings.{Text, text_eq, text_eq_iff, text_eq_refl}

abbrev pub StringMap : Type 0 → Type 0
StringMap V = List (Text × V)

module _ {V : Type 0} where
  unfoldable pub get : Text → StringMap V → Option V
  get k [] = none
  get k ((j, v) ∷ m) = if text_eq j k then some v else get k m

  unfoldable pub set : Text → V → StringMap V → StringMap V
  set k v [] = (k, v) ∷ []
  set k v ((j, w) ∷ m) = if text_eq j k then (j, v) ∷ m else (j, w) ∷ set k v m

  pub get-set :
      (k j : Text) (v : V) (m : StringMap V)
      → get j (set k v m) ≡ (if text_eq k j then some v else get j m)
  unfolding get set
  get-set k j v [] = refl
  get-set k j v ((i, w) ∷ m) =
      ground (arith, text_eq_iff k j, text_eq_iff i k, text_eq_iff i j, get-set k j v m)

  pub get-set_self : (k : Text) (v : V) (m : StringMap V) → get k (set k v m) ≡ some v
  get-set_self k v m = ground (arith, get-set k k v m, text_eq_refl k)
