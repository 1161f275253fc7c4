-- ===== src/Headers/Names.antt =====
-- The names that apps/daemon/src/proxy/headers.ts has to keep back, listed without the lists of
-- the code.
use tekrion.Prelude.{List, [], ◌∷◌, Text, codes}

-- The fields that hold for one connection only: RFC 9110 and RFC 2616, section 13.5.1.
abbrev pub hop_by_hop : List Text
hop_by_hop =
    codes "connection"
    ∷ codes "keep-alive"
    ∷ codes "proxy-authenticate"
    ∷ codes "proxy-authorization"
    ∷ codes "te"
    ∷ codes "trailer"
    ∷ codes "transfer-encoding"
    ∷ codes "upgrade"
    ∷ []

-- The fields that hold a credential or an account.
abbrev pub credentials : List Text
credentials =
    codes "anthropic-organization-id"
    ∷ codes "authorization"
    ∷ codes "chatgpt-account-id"
    ∷ codes "cookie"
    ∷ codes "proxy-authenticate"
    ∷ codes "proxy-authorization"
    ∷ codes "set-cookie"
    ∷ codes "x-api-key"
    ∷ []
