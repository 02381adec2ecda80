-- ===== src/Tests/Journey.antt =====
-- From an authorization request to its return, for a client without the cookie.
use strava_auth_proxy.Oauth.Authorize.Complete
use mathlib.Core.Path.{subst}
use strava_auth_proxy.Prelude.{
  sym, ◌*◌, ◌≡◌, ◌≤◌, refl, arith, true, false, some, [], ◌∷◌, ok, length, replicate,
}
use strava_auth_proxy.Oauth.Callback.{callback}
use strava_auth_proxy.Oauth.Callback.Answers.{denied, IsReturn}
use strava_auth_proxy.Oauth.Flow.{IsBack, callback-authorize, at_time}
use strava_auth_proxy.Tests.Toy.{
  put, put_int, toy-IsFaithful, state_codec-IsCodec, toy, state_codec, toy-IsTotal_state,
}
use strava_auth_proxy.Seal.{StatePayload, max_payload_bytes, Key, domain_state, check_window}
use strava_auth_proxy.Oauth.Authorize.Answers.{NonceRule, unasked, given, IsRedirect, payload_of}
use strava_auth_proxy.Exchange.{Exchange}
use strava_auth_proxy.Prelude.Int.{pos}
use strava_auth_proxy.Go.Text.{Str, str, contains, ◌==◌}
use strava_auth_proxy.Go.Time.{second, to_unix}
use strava_auth_proxy.Go.Values.{Values, lookup}
use strava_auth_proxy.Go.Http.{Request}
use strava_auth_proxy.Seal.Laws.{IsUsable}
use strava_auth_proxy.Seal.RoundTrip.{seal_total}
use strava_auth_proxy.Seal.Window.{check_window_iff}
use strava_auth_proxy.Config.{Client, Config, allows_redirect_uri, client_of, find, mem}
use strava_auth_proxy.Oauth.{Env, first_param, ring_of, config_ring, path_authorize, upstream_url}
use strava_auth_proxy.Oauth.Authorize.{authorize}
use strava_auth_proxy.Oauth.Authorize.Complete.{authorize_complete}
use strava_auth_proxy.Tests.Setup.{cfg, client, env, request, site, start, start-IsUnsent}

abbrev plain : Client
plain = record client { require_nonce_cookie = false }

abbrev plain_cfg : Config
plain_cfg = record cfg { clients = (str "42", plain) ∷ [] }

abbrev query : Values
query =
    (str "client_id", str "42" ∷ [])
    ∷ (str "redirect_uri", str "https://app.example/return" ∷ [])
    ∷ (str "state", str "s" ∷ [])
    ∷ []

-- An empty query is the request above, and any other, after its first byte, a state that comes back
-- with an error.
abbrev travelling : Env
travelling = record (env [] []) {
  parse_query = λ s. elim s [
    | [] ↦ query
    | c ∷ token ↦ (str "state", token ∷ []) ∷ (str "error", str "access_denied" ∷ []) ∷ []
  ];
}

abbrev first_request : Request
first_request = record request { raw_query = [] }

abbrev signing : Key
signing = record { kid = str "k1"; key = replicate 32 b'k' }

signing_key-IsUsable : IsUsable signing
unfolding contains
signing_key-IsUsable = record { named = refl; no_dot = refl; keyed = refl }

ready_request : Complete.IsReady travelling plain_cfg path_authorize query
unfolding client_of find first_param lookup ◌==◌ allows_redirect_uri mem ring_of config_ring
    upstream_url
ready_request = record {
  client = plain;
  target = record site { path = path_authorize };
  registered = refl;
  allowed = refl;
  short = omega arith;
  draws = λ asked e. cc;
  signs = λ nonce.
      seal_total toy state_codec signing [] domain_state _ signing_key-IsUsable toy-IsTotal_state;
  is_upstream = refl;
}

authorize_complete_test :
    ((authorize travelling plain_cfg first_request path_authorize start).response.status ≡ some 302)
    × IsRedirect travelling plain_cfg first_request path_authorize start
        (authorize travelling plain_cfg first_request path_authorize start)
authorize_complete_test =
    authorize_complete travelling plain_cfg first_request path_authorize start start-IsUnsent
      ready_request

sent_off :
    IsRedirect travelling plain_cfg first_request path_authorize start
      (authorize travelling plain_cfg first_request path_authorize start)
sent_off =
    (authorize_complete travelling plain_cfg first_request path_authorize start start-IsUnsent
      ready_request).1

sent_off_client : sent_off.client ≡ plain
unfolding client_of find first_param lookup ◌==◌
sent_off_client = cc (sent_off.registered)

no_nonce :
    {client : Client} {nonce : Str} {w : Exchange}
    → client ≡ plain
    → NonceRule travelling plain_cfg client nonce start w
    → nonce ≡ []
no_nonce same (unasked plain e kept) = e
no_nonce same (given bytes asked drawn e kept) = absurd (cc (rw same at asked))

abbrev travelled : StatePayload
travelled = record {
  cid = str "42";
  ru = str "https://app.example/return";
  st = str "s";
  has_st = true;
  iat = pos 1030;
  nonce = [];
}

is_travelled : payload_of travelling query sent_off.client sent_off.nonce ≡ travelled
unfolding first_param lookup ◌==◌ to_unix
is_travelled = rw (sent_off_client, no_nonce sent_off_client sent_off.nonce_rule) refl

abbrev returning : Request
returning = record request { raw_query = 0 ∷ sent_off.sealed }

in_time : check_window (pos 1030) (pos (900 * second)) (pos (1040 * second)) ≡ ok tt
in_time =
    (check_window_iff 1030 (1040 * second) (900 * second) (omega arith) (omega arith)
        (omega arith)).1
      (omega arith, omega arith)

small : (raw : Str) → state_codec.marshal travelled ≡ some raw → length raw ≤ max_payload_bytes
unfolding state_codec put put_int
small raw h = ground (arith, h)

is_back :
    IsBack travelling plain_cfg plain_cfg
      (payload_of travelling query sent_off.client sent_off.nonce)
      sent_off.sealed
      returning
      (pos (1040 * second))
unfolding ring_of config_ring first_param lookup ◌==◌ to_unix
is_back = record {
  signing = signing;
  older = [];
  newer = [];
  older' = [];
  ring_then = refl;
  ring_now = refl;
  fresh = tt;
  delivered = refl;
  in_window = in_time;
}

callback-authorize_example :
    ((callback (at_time travelling (pos (1040 * second))) plain_cfg returning start).response.status
      ≡ some 302)
    × (back : IsReturn
        (at_time travelling (pos (1040 * second)))
        plain_cfg
        returning
        (callback (at_time travelling (pos (1040 * second))) plain_cfg returning start))
    × (back.st ≡ payload_of travelling query sent_off.client sent_off.nonce)
unfolding first_param lookup ◌==◌ client_of find allows_redirect_uri mem
callback-authorize_example =
    callback-authorize travelling (λ p. p) toy-IsFaithful state_codec-IsCodec plain_cfg plain_cfg
      first_request returning path_authorize start
      (authorize travelling plain_cfg first_request path_authorize start) start
      (pos (1040 * second)) sent_off
      (subst (λ p. (raw : Str) → state_codec.marshal p ≡ some raw → length raw ≤ max_payload_bytes)
        (sym is_travelled) small)
      refl is_back plain site _ (rw sent_off_client refl) refl (λ asked. absurd (cc asked)) refl
      (denied (str "access_denied") refl) start-IsUnsent
