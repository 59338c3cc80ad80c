-- ===== src/Configuration/IceServers.antt =====
-- `stun_authority`, `RelayIceServer` and its JSON projection.
use connectors.Base.{
  ℕ, Bool, not, ◌||◌, Option, none, some, List, [], ◌∷◌, map, Text, text_eq, codes, strip_prefix,
  trim, is_empty, ok, ◌>>=◌, ◌>>◌, fail_if, ok_or, if◌then◌else◌, ltb, ◌==◌, any, is_some, length,
}
use connectors.Configuration.Types.{
  Checked, RelayIceServer, WireIceServer, Api, max_ice_servers, max_ice_server_urls,
  invalid_ice_server_count, invalid_ice_server_url, invalid_ice_credential,
  invalid_ice_server_encoding,
}

abbrev pub is_forbidden : ℕ → Bool
is_forbidden c = c == b'/' || c == b'?' || c == b'#' || c == b'@'

unfoldable pub check_authority : Text → Option Text
check_authority authority =
    if is_empty authority || any is_forbidden authority || not (text_eq (trim authority) authority)
    then none
    else some authority

-- `.strip_prefix("//").unwrap_or_else(..)`.
unfoldable pub strip_slashes : Text → Text
strip_slashes rest = elim (strip_prefix (codes "//") rest) [ some r ↦ r | none ↦ rest ]

unfoldable pub stun_authority : Text → Option Text
unfolding check_authority strip_slashes
stun_authority raw = elim (strip_prefix (codes "stun:") raw) [
  | none ↦ none
  | some rest ↦ check_authority (strip_slashes rest)
]

unfoldable pub check_urls : List Text → Checked (Unit {0})
check_urls [] = ok tt
check_urls (raw ∷ rest) = do
  fail_if (not (is_some (stun_authority raw))) invalid_ice_server_url
  check_urls rest

unfoldable pub validate_server : RelayIceServer → Checked (Unit {0})
unfolding check_urls
validate_server server = do
  fail_if (is_empty server.urls || ltb max_ice_server_urls (length server.urls))
      invalid_ice_server_count
  check_urls server.urls

-- `RelayIceServer::new`.
unfoldable pub new_server : List Text → Checked RelayIceServer
unfolding validate_server
new_server urls = do validate_server (record { urls = urls }); ok (record { urls = urls })

unfoldable pub stun_authorities : List Text → List Text
stun_authorities [] = []
stun_authorities (url ∷ rest) = elim (stun_authority url) [
  | none ↦ stun_authorities rest
  | some authority ↦ authority ∷ stun_authorities rest
]

abbrev pub to_wire : RelayIceServer → WireIceServer
to_wire server = record { urls = server.urls; username = none; credential = none }

-- One element of `wire.into_iter().map(..)`.
unfoldable pub from_wire : WireIceServer → Checked RelayIceServer
unfolding new_server
from_wire server = do
  fail_if (is_some server.username || is_some server.credential) invalid_ice_credential
  new_server server.urls

-- `.collect()` into a result: the first error stops it.
unfoldable pub all_from_wire : List WireIceServer → Checked (List RelayIceServer)
unfolding from_wire
all_from_wire [] = ok []
all_from_wire (server ∷ rest) = do s ← from_wire server; ss ← all_from_wire rest; ok (s ∷ ss)

module _ {Secret Url : Type 0} (api : Api Secret Url) where
  unfoldable pub encode_ice_servers : List RelayIceServer → Checked Text
  encode_ice_servers servers = ok_or (api.to_json (map to_wire servers)) invalid_ice_server_encoding

  unfoldable pub decode_ice_servers : Text → Checked (List RelayIceServer)
  unfolding all_from_wire
  decode_ice_servers encoded = do
    wire ← ok_or (api.from_json encoded) invalid_ice_server_encoding
    fail_if (ltb max_ice_servers (length wire)) invalid_ice_server_count
    all_from_wire wire
