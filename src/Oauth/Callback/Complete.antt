-- ===== src/Oauth/Callback/Complete.antt =====
-- What is enough for `callback` to send the user back.
use strava_auth_proxy.Oauth.Callback.Answers.{
  IsMute, Leg, denied, granted, IsBound, IsOpened, IsReturn, Denied, bad_state, unknown, revoked,
  unbound, mute, Failed, no_target, not_sealed,
}
use strava_auth_proxy.Prelude.{◌≡◌, arith, true, some, inl, inr}
use strava_auth_proxy.Go.Url.{Url}
use strava_auth_proxy.Go.Values.{Values}
use strava_auth_proxy.Go.Http.{Request}
use strava_auth_proxy.Seal.{StatePayload}
use strava_auth_proxy.Config.{Client, Config, allows_redirect_uri, client_of}
use strava_auth_proxy.Exchange.{Exchange}
use strava_auth_proxy.Oauth.{Env}
use strava_auth_proxy.Oauth.Responses.{IsUnsent}
use strava_auth_proxy.Oauth.Callback.{callback}
use strava_auth_proxy.Oauth.Callback.Outcome.{callback_outcome}

-- The state opens, its client and redirect URI are still registered, the cookie is right where the
-- client wants one, and Strava sent an error, or a code that can be sealed.
pub record IsReady (env : Env) (cfg : Config) (r : Request) : Type 0 where
  pub st : StatePayload
  pub client : Client
  pub dst : Url
  pub out : Values
  pub opened : IsOpened env cfg r st
  pub registered : client_of (some cfg) st.cid ≡ some client
  pub allowed : allows_redirect_uri (some client) st.ru ≡ true
  pub bound : (client.require_nonce_cookie ≡ true) → IsBound client r st
  pub is_target : env.lib.parse_url st.ru ≡ some dst
  pub leg : Leg env cfg st (env.parse_query r.raw_query) (env.parse_query dst.raw_query) out

pub same_state :
    (env : Env) (cfg : Config) (r : Request) (s t : StatePayload)
    → IsOpened env cfg r s
    → IsOpened env cfg r t
    → s ≡ t
same_state env cfg r s t h k = ground (arith, h, k)

module _ (env : Env) (cfg : Config) (r : Request) (ready : IsReady env cfg r) where
  state_of : (st : StatePayload) → IsOpened env cfg r st → st ≡ ready.st
  state_of st h = same_state env cfg r st ready.st h ready.opened

  not_IsMute :
      {st : StatePayload} {base out : Values}
      → Leg env cfg st (env.parse_query r.raw_query) base out
      → ¬ IsMute (env.parse_query r.raw_query)
  not_IsMute (denied value h) m = ground (arith, h, m.fine)
  not_IsMute (granted wrapped fine has_code h) m = has_code m.no_code

  not_Failed :
      {st : StatePayload} {base out : Values}
      → Leg env cfg st (env.parse_query r.raw_query) base out
      → env.lib.parse_url st.ru ≡ some ready.dst
      → ¬ Failed env cfg (env.parse_query r.raw_query) st
  not_Failed leg parsed (no_target h) = ground (arith, h, parsed)
  not_Failed (denied value h) parsed (not_sealed e fine has_code bad) = ground (arith, h, fine)
  not_Failed (granted wrapped f c good) parsed (not_sealed e fine has_code bad) =
      ground (arith, good, bad)

  not_Denied : ¬ Denied env cfg r
  not_Denied (bad_state e h) = ground (arith, h, ready.opened)
  not_Denied (unknown st o h) = ground (arith, rw (state_of st o) at h, ready.registered)
  not_Denied (revoked st c o found gone) =
      let same : c ≡ ready.client = ground (arith, rw (state_of st o) at found, ready.registered) in
      ground (arith, rw (state_of st o, same) at gone, ready.allowed)
  not_Denied (unbound st c o found asked loose) =
      let same : c ≡ ready.client = ground (arith, rw (state_of st o) at found, ready.registered) in
      rw (state_of st o, same) at loose (ready.bound (rw same at asked))
  not_Denied (mute st o h) = not_IsMute ready.leg h

-- A callback that is ready redirects with 302, if the response was not sent: its state opens, the
-- client and the redirect URI of the state are registered, the cookie equals the nonce where the
-- client wants one, the redirect URI parses, and Strava sent an error, or a code that can be sealed.
pub callback_complete :
    (env : Env) (cfg : Config) (r : Request) (w : Exchange)
    → IsUnsent w
    → IsReady env cfg r
    → ((callback env cfg r w).response.status ≡ some 302)
      × IsReturn env cfg r (callback env cfg r w)
callback_complete env cfg r w u ready = elim (callback_outcome env cfg r w u) [
  | inl done ↦ done
  | inr (inl (page, why)) ↦ absurd (not_Denied env cfg r ready why)
  | inr (inr (page, failure)) ↦ absurd (
      not_Failed env cfg r ready ready.leg ready.is_target
        (rw (state_of env cfg r ready failure.st failure.opened) at failure.why))
]
