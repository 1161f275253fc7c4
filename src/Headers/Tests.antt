-- ===== src/Headers/Tests.antt =====
-- Headers at a concrete input: names that are in lower case already.
use tekrion.Prelude.{
  ◌≡◌, refl, false, List, [], ◌∷◌, ok, All, Text, codes, none, map, text_eq, ◌&&◌, ◌||◌,
  if◌then◌else◌,
}
use tekrion.Prelude.Strings.{member, trim, trim_start, is_white_space}
use tekrion.Prelude.Maps.{StringMap, get}
use tekrion.Headers.{
  HeaderValue, single, several, ForwardingOptions, connection_tokens, headers_for_forwarding,
  headers_for_persistence,
}
use tekrion.Headers.Names.{hop_by_hop}
use tekrion.Headers.Selection.{last_value, get-headers_for_forwarding}
use tekrion.Headers.Safety.{IsSafe, headers_for_persistence-IsSafe}

abbrev same : Text → Text
same t = t

abbrev received : StringMap HeaderValue
received =
    (codes "accept", single (codes "a"))
    ∷ (codes "cookie", single (codes "c"))
    ∷ (codes "connection", single (codes "close, x-once"))
    ∷ (codes "x-once", several (codes "b" ∷ []))
    ∷ []

abbrev options : ForwardingOptions same
options = record { drop_host = false; drop_names = [] }

get-headers_for_forwarding_example :
    get (codes "accept") (headers_for_forwarding same received options) ≡ (
      if member (codes "accept") hop_by_hop
        || member (codes "accept") (connection_tokens same received)
        || member (codes "accept") (map same options.drop_names)
        || options.drop_host && text_eq (codes "accept") (codes "host")
      then none
      else last_value same (codes "accept") received none)
get-headers_for_forwarding_example =
    get-headers_for_forwarding same received options (codes "accept")

headers_for_persistence-IsSafe_example :
    (p : StringMap (List Text)) × (headers_for_persistence same received [] ≡ ok p)
    × All (λ e. IsSafe same received [] e.0) p
unfolding trim trim_start is_white_space
headers_for_persistence-IsSafe_example =
    headers_for_persistence-IsSafe same received [] (λ t. refl)
      ((refl, refl), ((refl, refl), ((refl, refl), ((refl, refl), tt))))
