-- ===== src/Oauth/Token/Params.antt =====
-- What Strava receives of a token request.
use strava_auth_proxy.Prelude.{
  ◌≡◌, refl, arith, some, [], ◌∷◌, ◌++◌, if◌then◌else◌, ◌⊎◌, inl, inr, Bool-cases, is_empty,
}
use strava_auth_proxy.Go.Text.{Str, str, ◌==◌, eq_iff}
use strava_auth_proxy.Go.Values.{Values, lookup, lookup-set, lookup-keep}
use strava_auth_proxy.Config.{Config, mem, reveal}
use strava_auth_proxy.Oauth.Token.{
  forwarded, with_real_credentials, key, grant_authorization_code, grant_refresh_token,
}

-- By name, what Strava receives of a form where `token` has not replaced the code.
pub lookup-with_real_credentials :
    (cfg : Config) (form : Values) (k : Str)
    → lookup (with_real_credentials cfg (forwarded form)) k ≡ (
        if str "client_secret" == k
        then some (reveal cfg.strava_client_secret ∷ [])
        else if str "client_id" == k
        then some (cfg.strava_client_id ∷ [])
        else lookup form k)
unfolding with_real_credentials forwarded mem
lookup-with_real_credentials cfg form k =
    simp (lookup-set, lookup-keep)
      (ground (arith, eq_iff (str "client_secret") k, eq_iff (str "client_id") k))

-- The label of a grant type is one of four, whatever the caller sends.
pub key_lem :
    (grant outcome : Str)
    → (key grant outcome ≡ grant_authorization_code ++ str ":" ++ outcome)
      ⊎ (key grant outcome ≡ grant_refresh_token ++ str ":" ++ outcome)
      ⊎ (key grant outcome ≡ str "none:" ++ outcome)
      ⊎ (key grant outcome ≡ str "other:" ++ outcome)
unfolding key
key_lem grant outcome = elim (Bool-cases (grant == grant_authorization_code)) [
  | inl e ↦ inl (rw e (rw ((eq_iff grant grant_authorization_code).0 e) refl))
  | inr e ↦ elim (Bool-cases (grant == grant_refresh_token)) [
    | inl e' ↦ inr (inl (rw (e, e') (rw ((eq_iff grant grant_refresh_token).0 e') refl)))
    | inr e' ↦ elim (Bool-cases (is_empty grant)) [
      | inl e'' ↦ inr (inr (inl (rw (e, e', e'') refl)))
      | inr e'' ↦ inr (inr (inr (rw (e, e', e'') refl)))
    ]
  ]
]
