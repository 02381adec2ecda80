-- ===== src/Config/Clients.antt =====
-- `parseClients`: the registry of virtual clients.
pub mod Sound
mod Examples
use strava_auth_proxy.Prelude.{
  not, ◌&&◌, none, some, List, [], ◌∷◌, ◌++◌, Result, ok, err, ◌>>=◌, ◌>>◌, eqb, length, is_empty,
  if◌then◌else◌,
}
use strava_auth_proxy.Go.Text.{Str, trim_space}
use strava_auth_proxy.Go.Hex
use strava_auth_proxy.Config.{
  Error, malformed_clients, no_clients, invalid_client_id, duplicate_client_id, no_redirect_uris,
  client_secret, client, Client, ClientJson, Libraries, reveal, find, is_all_digits,
  validate_redirect_uris,
}

hex_digest : Str → Result Error Str
hex_digest s = elim (Hex.decode s) [
  | none ↦ err client_secret
  | some b ↦ if eqb (length b) 32 then ok b else err client_secret
]

-- Exactly one of the two forms of the secret is set.
client_digest : Libraries → ClientJson → Result Error Str
client_digest lib e =
    let hex = trim_space e.client_secret_sha256 in
    let plain = reveal e.client_secret in
    if not (is_empty hex) && not (is_empty plain)
    then err client_secret
    else if not (is_empty hex)
    then hex_digest hex
    else if not (is_empty plain)
    then ok (lib.sha256 plain)
    else err client_secret

digest_for : Str → Result Error Str → Result Error Str
digest_for id (ok d) = ok d
digest_for id (err e) = err (client id e)

parse_client : Libraries → List (Str × Client) → ClientJson → Result Error Client
unfolding digest_for
parse_client lib clients e =
    let id = trim_space e.client_id in
    let rest = (do
      validate_redirect_uris lib id e.redirect_uris
      digest ← digest_for id (client_digest lib e)
      ok (record {
        id = id;
        secret_sha256 = digest;
        redirect_uris = e.redirect_uris;
        require_nonce_cookie = e.require_nonce_cookie;
      })) in
    if not (is_all_digits id) then err (invalid_client_id e.client_id) else elim (find clients id) [
      | some _ ↦ err (duplicate_client_id id)
      | none ↦ if is_empty e.redirect_uris then err (no_redirect_uris id) else rest
    ]

-- The loop. A new client goes to the end; the map of the source has no order.
parse_client_entries :
    Libraries → List ClientJson → List (Str × Client) → Result Error (List (Str × Client))
parse_client_entries lib [] clients = ok clients
parse_client_entries lib (e ∷ entries) clients = do
  c ← parse_client lib clients e
  parse_client_entries lib entries (clients ++ (c.id, c) ∷ [])

not_empty : List (Str × Client) → Result Error (List (Str × Client))
not_empty [] = err no_clients
not_empty (c ∷ clients) = ok (c ∷ clients)

pub parse_clients : Libraries → Str → Result Error (List (Str × Client))
unfolding not_empty
parse_clients lib raw = elim (lib.registry_json raw) [
  | none ↦ err malformed_clients
  | some entries ↦ do clients ← parse_client_entries lib entries []; not_empty clients
]
