-- ===== src/Headers.antt =====
-- apps/daemon/src/proxy/headers.ts, and `SafeHeadersSchema` of packages/protocol/src/raw-exchange.ts:
-- which headers are forwarded and which are persisted. The lower case of a string is a parameter.
mod Names
pub mod Selection
pub mod Safety
mod Tests
use tekrion.Prelude.{
  ℕ, Bool, true, false, ◌&&◌, ◌||◌, List, [], ◌∷◌, ◌++◌, map, Option, none, some, Result, ok, err,
  any, length, ◌==◌, if◌then◌else◌, keep, not, Text, codes, text_eq, throw_if, ◌>>=◌, ◌>>◌,
}
use tekrion.Prelude.Strings.{member, trim}
use tekrion.Prelude.Maps.{StringMap, get, set}

-- A value of `IncomingHttpHeaders`.
pub data HeaderValue : Type 0 where
  absent : HeaderValue
  single : Text → HeaderValue
  several : List Text → HeaderValue

unfoldable pub standard_hop_by_hop_headers : List Text
standard_hop_by_hop_headers =
    codes "connection"
    ∷ codes "keep-alive"
    ∷ codes "proxy-authenticate"
    ∷ codes "proxy-authorization"
    ∷ codes "te"
    ∷ codes "trailer"
    ∷ codes "transfer-encoding"
    ∷ codes "upgrade"
    ∷ []

unfoldable pub never_persist_headers : List Text
never_persist_headers =
    codes "anthropic-organization-id"
    ∷ codes "authorization"
    ∷ codes "chatgpt-account-id"
    ∷ codes "cookie"
    ∷ codes "proxy-authenticate"
    ∷ codes "proxy-authorization"
    ∷ codes "set-cookie"
    ∷ codes "x-api-key"
    ∷ []

unfoldable pub forbidden_persisted_headers : List Text
forbidden_persisted_headers =
    codes "anthropic-organization-id"
    ∷ codes "authorization"
    ∷ codes "chatgpt-account-id"
    ∷ codes "cookie"
    ∷ codes "proxy-authorization"
    ∷ codes "proxy-authenticate"
    ∷ codes "set-cookie"
    ∷ codes "x-api-key"
    ∷ []

-- `values.join(",")`.
unfoldable pub join_comma : List Text → Text
join_comma [] = []
join_comma (t ∷ []) = t
join_comma (t ∷ u ∷ us) = t ++ codes "," ++ join_comma (u ∷ us)

abbrev pub extended : ℕ → List Text → List Text
extended c [] = (c ∷ []) ∷ []
extended c (t ∷ ts) = (c ∷ t) ∷ ts

-- `text.split(",")`.
unfoldable pub split_comma : Text → List Text
split_comma [] = [] ∷ []
split_comma (c ∷ s) = let rest = split_comma s in if c == 44 then [] ∷ rest else extended c rest

unfoldable pub values : HeaderValue → List Text
values absent = []
values (single t) = t ∷ []
values (several ts) = ts

unfoldable pub connection_value : Option HeaderValue → Text
unfolding join_comma
connection_value (some (several ts)) = join_comma ts
connection_value (some (single t)) = t
connection_value _ = []

pub data HeadersError : Type 0 where
  empty_name forbidden_name : HeadersError

module _ (to_lower_case : Text → Text) where
  unfoldable pub connection_tokens : StringMap HeaderValue → List Text
  unfolding split_comma connection_value
  connection_tokens headers =
      keep (λ t. not (length t == 0))
        (map (λ t. to_lower_case (trim t))
          (split_comma (connection_value (get (codes "connection") headers))))

  pub record ForwardingOptions : Type 0 where
    pub drop_host : Bool
    pub drop_names : List Text

  -- The first four conditions of the loop of `headersForForwarding`.
  unfoldable pub drops : StringMap HeaderValue → ForwardingOptions → Text → Bool
  unfolding connection_tokens standard_hop_by_hop_headers member text_eq
  drops headers options name =
      member name standard_hop_by_hop_headers
      || member name (connection_tokens headers)
      || member name (map to_lower_case options.drop_names)
      || options.drop_host && text_eq name (codes "host")

  unfoldable pub forward_entry :
      (Text → Bool) → Text → HeaderValue → StringMap HeaderValue → StringMap HeaderValue
  forward_entry dropped name absent result = result
  forward_entry dropped name value result = if dropped name then result else set name value result

  unfoldable pub forward_entries :
      (Text → Bool) → StringMap HeaderValue → StringMap HeaderValue → StringMap HeaderValue
  unfolding forward_entry
  forward_entries dropped [] result = result
  forward_entries dropped ((name, value) ∷ entries) result =
      forward_entries dropped entries (forward_entry dropped (to_lower_case name) value result)

  unfoldable pub headers_for_forwarding :
      StringMap HeaderValue → ForwardingOptions → StringMap HeaderValue
  unfolding drops forward_entries
  headers_for_forwarding headers options = forward_entries (drops headers options) headers []

  -- The condition of the loop of `headersForPersistence`.
  unfoldable pub withholds : StringMap HeaderValue → List Text → Text → Bool
  unfolding connection_tokens standard_hop_by_hop_headers never_persist_headers member
  withholds headers additional name =
      member name (never_persist_headers ++ map to_lower_case additional)
      || member name standard_hop_by_hop_headers
      || member name (connection_tokens headers)

  unfoldable pub persist_entry :
      (Text → Bool) → Text → List Text → StringMap (List Text) → StringMap (List Text)
  persist_entry withheld name [] persisted = persisted
  persist_entry withheld name (v ∷ vs) persisted =
      if withheld name then persisted else set name (v ∷ vs) persisted

  unfoldable pub persist_entries :
      (Text → Bool) → StringMap HeaderValue → StringMap (List Text) → StringMap (List Text)
  unfolding persist_entry values
  persist_entries withheld [] persisted = persisted
  persist_entries withheld ((name, value) ∷ entries) persisted =
      persist_entries withheld entries
        (persist_entry withheld (to_lower_case name) (values value) persisted)

  -- `z.string().trim().min(1)` on every name, and `Object.fromEntries`.
  unfoldable pub parse_names :
      StringMap (List Text) → StringMap (List Text) → Result HeadersError (StringMap (List Text))
  parse_names [] parsed = ok parsed
  parse_names ((name, vs) ∷ entries) parsed =
      throw_if (length (trim name) == 0) empty_name
      >> parse_names entries (set (trim name) vs parsed)

  -- `SafeHeadersSchema.parse`.
  unfoldable pub parse_safe_headers :
      StringMap (List Text) → Result HeadersError (StringMap (List Text))
  unfolding parse_names forbidden_persisted_headers member
  parse_safe_headers headers = parse_names headers [] >>= λ parsed.
      throw_if (any (λ h. member (to_lower_case h.0) forbidden_persisted_headers) parsed)
        forbidden_name
      >> ok parsed

  unfoldable pub headers_for_persistence :
      StringMap HeaderValue → List Text → Result HeadersError (StringMap (List Text))
  unfolding withholds persist_entries parse_safe_headers
  headers_for_persistence headers additional =
      parse_safe_headers (persist_entries (withholds headers additional) headers [])
