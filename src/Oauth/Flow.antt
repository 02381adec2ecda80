-- ===== src/Oauth/Flow.antt =====
-- From `authorize` to `callback`: what a redirect to Strava sealed brings the user back.
use strava_auth_proxy.Prelude.{true, ◌≡◌, ◌≤◌, refl, some, ◌∷◌, ◌++◌, ok, length, ◌∙◌}
use strava_auth_proxy.Oauth.{Values, Exchange, Env, first_param, ring_of}
use strava_auth_proxy.Go.Http.{Request}
use strava_auth_proxy.Config.{Client, allows_redirect_uri, client_of, Config}
use strava_auth_proxy.Go.Url.{Url}
use strava_auth_proxy.Oauth.Responses.{IsUnsent}
use strava_auth_proxy.Exchange.{Exchange}
use strava_auth_proxy.Oauth.Callback.Complete.{callback_complete, same_state}
use strava_auth_proxy.Oauth.Callback.Answers.{Leg, IsBound, IsOpened, IsReturn}
use strava_auth_proxy.Oauth.Callback.{callback}
use strava_auth_proxy.Oauth.Authorize.Answers.{payload_of, IsRedirect}
use strava_auth_proxy.Go.Text.{Str, str}
use strava_auth_proxy.Go.Time.{Instant}
use strava_auth_proxy.Seal.{
  Key, Ring, StatePayload, domain_state, seal, check_window, max_payload_bytes,
}
use strava_auth_proxy.Seal.Laws.{IsFaithful, IsCodec}
use strava_auth_proxy.Seal.RoundTrip.{IsFresh, seal-eq-ok, seal_with-eq-ok, open-seal}

-- The state that was sealed under one configuration comes back under another: the signing key is
-- still listed, behind newer ones, and the state is in its window.
pub record IsBack (env : Env) (cfg cfg' : Config) (p : StatePayload) (sealed : Str) (r : Request)
    (later : Instant) : Type 0 where
  pub signing : Key
  pub older : Ring
  pub newer : Ring
  pub older' : Ring
  pub ring_then : ring_of env (some cfg) ≡ signing ∷ older
  pub ring_now : ring_of env (some cfg') ≡ newer ++ signing ∷ older'
  pub fresh : IsFresh signing.kid newer
  pub delivered : (first_param (env.parse_query r.raw_query) (str "state")).0 ≡ sealed
  pub in_window : check_window p.iat cfg'.state_ttl later ≡ ok tt

-- The time of a request passes; the rest of the environment stays.
abbrev pub at_time : Env → Instant → Env
at_time env later = record env { now = later }

ring_of-at_time :
    (env : Env) (later : Instant) (cfg : Config)
    → ring_of (at_time env later) (some cfg) ≡ ring_of env (some cfg)
unfolding ring_of
ring_of-at_time env later cfg = refl

module _ (env : Env) (coerce : StatePayload → StatePayload) (faithful : IsFaithful env.prim)
    (codec : IsCodec env.state_codec coerce (λ p. p.iat)) where
  sealed-IsOpened :
      (cfg cfg' : Config) (p : StatePayload) (sealed : Str) (r : Request) (later : Instant)
      → seal env.prim env.state_codec (ring_of env (some cfg)) domain_state p ≡ ok sealed
      → ((raw : Str) → env.state_codec.marshal p ≡ some raw → length raw ≤ max_payload_bytes)
      → coerce p ≡ p
      → IsBack env cfg cfg' p sealed r later
      → IsOpened (at_time env later) cfg' r p
  sealed-IsOpened cfg cfg' p sealed r later is_sealed fits valid b =
      let minted : seal env.prim env.state_codec (b.signing ∷ b.older) domain_state p ≡ ok sealed =
        rw b.ring_then at is_sealed in
      let (u, with_key) =
        seal-eq-ok env.prim env.state_codec b.signing b.older domain_state p sealed minted in
      let (raw, packed, m, e, is_envelope) =
        seal_with-eq-ok env.prim env.state_codec b.signing domain_state p sealed with_key in
      let opened =
        open-seal env.prim env.state_codec coerce (λ p. p.iat) faithful codec b.signing b.older
          b.newer b.older' domain_state p raw sealed cfg'.state_ttl later m (fits raw m) minted
          b.fresh in
      rw (ring_of-at_time env later cfg', b.ring_now, b.delivered)
        (opened ∙ rw (b.in_window, valid))

  -- A redirect to Strava is brought back: if the payload that `authorize` sealed is small enough and
  -- valid UTF-8, its state comes back while the signing key is listed and the state is in its window,
  -- its client and redirect URI are registered at that time, the cookie is right where the client
  -- then wants one, and Strava sends an error or a code that can be sealed, then `callback`, on an
  -- unsent response, redirects with 302, for exactly the payload that `authorize` sealed.
  pub callback-authorize :
      (cfg cfg' : Config) (r r' : Request) (upstream_path : Str) (before w w' : Exchange)
      (later : Instant) (d : IsRedirect env cfg r upstream_path before w)
      → let p = payload_of env (env.parse_query r.raw_query) d.client d.nonce in
        let env' = at_time env later in
        ((raw : Str) → env.state_codec.marshal p ≡ some raw → length raw ≤ max_payload_bytes)
        → coerce p ≡ p
        → IsBack env cfg cfg' p d.sealed r' later
        → (client : Client) (dst : Url) (out : Values) → client_of (some cfg') p.cid ≡ some client
        → allows_redirect_uri (some client) p.ru ≡ true
        → (client.require_nonce_cookie ≡ true → IsBound client r' p)
        → env.lib.parse_url p.ru ≡ some dst
        → Leg env' cfg' p (env.parse_query r'.raw_query) (env.parse_query dst.raw_query) out
        → IsUnsent w'
        → ((callback env' cfg' r' w').response.status ≡ some 302)
          × (back : IsReturn env' cfg' r' (callback env' cfg' r' w')) × (back.st ≡ p)
  callback-authorize cfg cfg' r r' upstream_path before w w' later d fits valid b client dst out
        registered allowed bound parsed leg unsent =
      let p = payload_of env (env.parse_query r.raw_query) d.client d.nonce in
      let opened = sealed-IsOpened cfg cfg' p d.sealed r' later d.is_sealed fits valid b in
      let (status, back) = callback_complete (at_time env later) cfg' r' w' unsent (record {
        st = p;
        client = client;
        dst = dst;
        out = out;
        opened = opened;
        registered = registered;
        allowed = allowed;
        bound = bound;
        is_target = parsed;
        leg = leg;
      }) in
      (status, back, same_state (at_time env later) cfg' r' back.st p back.opened opened)
