-- ===== src/Tests/Return.antt =====
-- A callback that is ready: a sealed state comes back with Strava's error.
use strava_auth_proxy.Prelude.{◌*◌, ◌≡◌, refl, arith, true, some, [], ◌∷◌, ok, ◌∙◌, replicate}
use strava_auth_proxy.Prelude.Int.{pos}
use strava_auth_proxy.Go.Text.{Str, str, contains, ◌==◌}
use strava_auth_proxy.Go.Time.{second}
use strava_auth_proxy.Go.Values.{lookup}
use strava_auth_proxy.Go.Http.{Request, find_cookie}
use strava_auth_proxy.Seal.{Key, StatePayload, domain_state, seal, check_window}
use strava_auth_proxy.Seal.Laws.{IsUsable}
use strava_auth_proxy.Seal.RoundTrip.{seal_total, open-seal}
use strava_auth_proxy.Seal.Window.{check_window_iff}
use strava_auth_proxy.Config.{allows_redirect_uri, client_of, find, mem}
use strava_auth_proxy.Oauth.{Env, first_param, ring_of, config_ring}
use strava_auth_proxy.Oauth.Callback.{callback}
use strava_auth_proxy.Oauth.Callback.Answers.{denied, IsOpened, IsReturn}
use strava_auth_proxy.Oauth.Callback.Complete.{IsReady, callback_complete}
use strava_auth_proxy.Tests.Toy.{
  toy, state_codec, toy-IsFaithful, toy-IsTotal_state, state_codec-IsCodec, put, put_int,
}
use strava_auth_proxy.Tests.Setup.{cfg, client, env, request, site, start, start-IsUnsent}

abbrev signing : Key
signing = record { kid = str "k1"; key = replicate 32 b'k' }

signing-IsUsable : IsUsable signing
unfolding contains
signing-IsUsable = record { named = refl; no_dot = refl; keyed = refl }

abbrev state : StatePayload
state = record {
  cid = str "42";
  ru = str "https://app.example/return";
  st = str "s";
  has_st = true;
  iat = pos 1000;
  nonce = str "n";
}

abbrev minted : (token : Str) × (seal toy state_codec (signing ∷ []) domain_state state ≡ ok token)
minted = seal_total toy state_codec signing [] domain_state state signing-IsUsable toy-IsTotal_state

-- Here the query is the state alone, and Strava's answer an error.
abbrev denying : Env
denying = record (env [] []) {
  parse_query = λ s. (str "state", s ∷ []) ∷ (str "error", str "access_denied" ∷ []) ∷ [];
}

abbrev returned : Request
returned = record request { raw_query = minted.0; cookies = (str "__Host-sap_nonce", str "n") ∷ [] }

in_window : check_window (pos 1000) (pos (900 * second)) (pos (1030 * second)) ≡ ok tt
in_window =
    (check_window_iff 1000 (1030 * second) (900 * second) (omega arith) (omega arith)
        (omega arith)).1
      (omega arith, omega arith)

returned-IsOpened : IsOpened denying cfg returned state
unfolding ring_of config_ring first_param lookup ◌==◌ state_codec put put_int
returned-IsOpened =
    open-seal toy state_codec (λ p. p) (λ p. p.iat) toy-IsFaithful state_codec-IsCodec signing [] []
      [] domain_state state _ minted.0 (pos (900 * second)) (pos (1030 * second)) refl (omega arith)
      minted.1 tt
    ∙ rw in_window refl

ready : IsReady denying cfg returned
unfolding first_param lookup ◌==◌ client_of find allows_redirect_uri mem find_cookie
ready = record {
  st = state;
  client = client;
  dst = site;
  out = _;
  opened = returned-IsOpened;
  registered = refl;
  allowed = refl;
  bound = λ asked. record { present = λ e. cc; equal = refl };
  is_target = refl;
  leg = denied (str "access_denied") refl;
}

callback_complete_test :
    ((callback denying cfg returned start).response.status ≡ some 302)
    × IsReturn denying cfg returned (callback denying cfg returned start)
callback_complete_test = callback_complete denying cfg returned start start-IsUnsent ready
