-- ===== src/Headers/Selection.antt =====
-- What is forwarded: of every name that is not dropped, the last value.
use tekrion.Prelude.{
  ◌≡◌, ap, ◌∙◌, inl, inr, Bool, Bool-cases, [], ◌∷◌, Option, none, some, arith, if◌then◌else◌, Text,
  text_eq, text_eq_iff, map, codes, ◌&&◌, ◌||◌,
}
use tekrion.Prelude.Strings.{member}
use tekrion.Prelude.Maps.{StringMap, get, set, get-set}
use tekrion.Headers.{
  HeaderValue, absent, single, several, ForwardingOptions, standard_hop_by_hop_headers,
  connection_tokens, drops, forward_entry, forward_entries, headers_for_forwarding,
}
use tekrion.Headers.Names.{hop_by_hop}

module _ (to_lower_case : Text → Text) where
  -- The value of an entry of that name, if it has one, and else another one.
  pub value_or : Text → Text → HeaderValue → Option HeaderValue → Option HeaderValue
  value_or wanted name absent other = other
  value_or wanted name (single t) other = if text_eq name wanted then some (single t) else other
  value_or wanted name (several ts) other = if text_eq name wanted then some (several ts) else other

  -- The value of the last entry whose name is the wanted one in lower case.
  unfoldable pub last_value : Text → StringMap HeaderValue → Option HeaderValue → Option HeaderValue
  unfolding value_or
  last_value wanted [] other = other
  last_value wanted ((name, value) ∷ entries) other =
      last_value wanted entries (value_or wanted (to_lower_case name) value other)

  set_entry :
      (dropped : Text → Bool) (wanted name : Text) (value : HeaderValue)
      (result : StringMap HeaderValue)
      → get wanted (if dropped name then result else set name value result) ≡ (
          if dropped wanted
          then get wanted result
          else if text_eq name wanted
          then some value
          else get wanted result)
  set_entry dropped wanted name value result = elim (Bool-cases (text_eq name wanted)) [
    | inl same ↦
        let path : dropped name ≡ dropped wanted = ap dropped ((text_eq_iff name wanted).0 same) in
        let written = get-set name wanted value result in ground arith
    | inr other ↦ let written = get-set name wanted value result in ground arith
  ]

  get-forward_entry :
      (dropped : Text → Bool) (wanted name : Text) (value : HeaderValue)
      (result : StringMap HeaderValue)
      → get wanted (forward_entry to_lower_case dropped name value result) ≡ (
          if dropped wanted
          then get wanted result
          else value_or wanted name value (get wanted result))
  unfolding forward_entry value_or
  get-forward_entry dropped wanted name absent result = ground arith
  get-forward_entry dropped wanted name (single t) result =
      set_entry dropped wanted name (single t) result
  get-forward_entry dropped wanted name (several ts) result =
      set_entry dropped wanted name (several ts) result

  get-forward_entries :
      (dropped : Text → Bool) (wanted : Text) (entries result : StringMap HeaderValue)
      → get wanted (forward_entries to_lower_case dropped entries result) ≡ (
          if dropped wanted
          then get wanted result
          else last_value wanted entries (get wanted result))
  unfolding forward_entries last_value
  get-forward_entries dropped wanted [] result = ground arith
  get-forward_entries dropped wanted ((name, value) ∷ entries) result =
      let here = get-forward_entry dropped wanted (to_lower_case name) value result in
      let there =
        get-forward_entries dropped wanted entries
          (forward_entry to_lower_case dropped (to_lower_case name) value result) in
      elim (Bool-cases (dropped wanted)) [
        | inl gone ↦ ground arith
        | inr kept ↦
            let here_kept = rw kept at here in
            let there_kept = rw kept at there in
            rw kept (there_kept ∙ ap (last_value wanted entries) here_kept)
      ]

  -- Of every name, the headers that are forwarded have the value of the last entry that has this
  -- name in lower case and a value; but they have none if the name is one of the listed
  -- hop-by-hop names, is named by the header `connection`, is one of those to drop, or is `host` where that is dropped.
  pub get-headers_for_forwarding :
      (headers : StringMap HeaderValue) (options : ForwardingOptions to_lower_case) (wanted : Text)
      → get wanted (headers_for_forwarding to_lower_case headers options) ≡ (
          if member wanted hop_by_hop
            || member wanted (connection_tokens to_lower_case headers)
            || member wanted (map to_lower_case options.drop_names)
            || options.drop_host && text_eq wanted (codes "host")
          then none
          else last_value wanted headers none)
  unfolding headers_for_forwarding get drops standard_hop_by_hop_headers
  get-headers_for_forwarding headers options wanted =
      get-forward_entries (drops to_lower_case headers options) wanted headers []
