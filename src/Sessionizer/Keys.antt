-- ===== src/Sessionizer/Keys.antt =====
-- Identifiers and keys. `IdentifierSchema` of packages/protocol/src/common.ts trims a string and
-- wants 1 to 512 characters of what is left.
use tekrion.Prelude.{
  ◌||◌, Option, none, some, Result, ok, err, ltb, ◌==◌, if◌then◌else◌, length, Text,
}
use tekrion.Prelude.Strings.{trim}

pub data SessionizationError : Type 0 where
  invalid_identifier invalid_key idle_window_out_of_range response_taken : SessionizationError

-- `IdentifierSchema.parse`.
unfoldable pub parse_identifier : Text → Result SessionizationError Text
parse_identifier value =
    let trimmed = trim value in
    if length trimmed == 0 || ltb 512 (length trimmed) then err invalid_identifier else ok trimmed

unfoldable pub optional_identifier : Option Text → Result SessionizationError (Option Text)
optional_identifier none = ok none
optional_identifier (some value) =
    if length (trim value) == 0
    then ok none
    else elim (parse_identifier value) [ ok id ↦ ok (some id) | err e ↦ err e ]

unfoldable pub required_key : Text → Result SessionizationError Text
required_key value =
    let trimmed = trim value in
    if length trimmed == 0 || ltb 4096 (length trimmed) then err invalid_key else ok trimmed
