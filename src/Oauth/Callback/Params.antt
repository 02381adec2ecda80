-- ===== src/Oauth/Callback/Params.antt =====
-- What the caller receives in the redirect of a callback.
use strava_auth_proxy.Prelude.{
  if◌then◌else◌, some, ◌&&◌, [], ◌∷◌, ◌≡◌, arith, inl, inr, Option-cases, Bool-cases,
}
use strava_auth_proxy.Go.Text.{Str, str, ◌==◌}
use strava_auth_proxy.Go.Values.{Values, lookup, has, lookup-set}
use strava_auth_proxy.Seal.{StatePayload}
use strava_auth_proxy.Oauth.{first_param}
use strava_auth_proxy.Oauth.Callback.{copy_param, error_params, success_params, echo_state}

lookup-copy_param :
    (name : Str) (q out : Values) (k : Str)
    → lookup (copy_param name q out) k
      ≡ (if name == k && has q name then some ((first_param q name).0 ∷ []) else lookup out k)
unfolding copy_param first_param has
lookup-copy_param name q out k = elim (Option-cases (lookup q name)) [
  | inl e ↦ rw e (ground arith)
  | inr ([], e) ↦ rw e (ground (arith, lookup-set out name [] k))
  | inr (v ∷ vs, e) ↦ rw e (ground (arith, lookup-set out name v k))
]

-- What the caller receives of a denied authorization, by name: Strava's error and, where Strava
-- sent them, its `error_uri` and `error_description`, each with its first value; the caller's own
-- state exactly if it sent one; and every other parameter as its redirect URI has it.
pub lookup-error_params :
    (st : StatePayload) (value : Str) (q out : Values) (k : Str)
    → lookup (echo_state st (error_params value q out)) k ≡ (
        if str "state" == k && st.has_st
        then some (st.st ∷ [])
        else if str "error_uri" == k && has q (str "error_uri")
        then some ((first_param q (str "error_uri")).0 ∷ [])
        else if str "error_description" == k && has q (str "error_description")
        then some ((first_param q (str "error_description")).0 ∷ [])
        else if str "error" == k
        then some (value ∷ [])
        else lookup out k)
unfolding echo_state error_params
lookup-error_params st value q out k = elim (Bool-cases st.has_st) [
  | inl e ↦ rw e (simp (lookup-copy_param, lookup-set) (ground arith))
  | inr e ↦ rw e (simp (lookup-copy_param, lookup-set) (ground arith))
]

-- What the caller receives of a granted authorization, by name: the wrapped code, Strava's scope
-- exactly if Strava sent one, the caller's own state exactly if it sent one, and every other
-- parameter as its redirect URI has it.
pub lookup-success_params :
    (st : StatePayload) (wrapped : Str) (q out : Values) (k : Str)
    → lookup (echo_state st (success_params wrapped q out)) k ≡ (
        if str "state" == k && st.has_st
        then some (st.st ∷ [])
        else if str "scope" == k && has q (str "scope")
        then some ((first_param q (str "scope")).0 ∷ [])
        else if str "code" == k
        then some (wrapped ∷ [])
        else lookup out k)
unfolding echo_state success_params
lookup-success_params st wrapped q out k = elim (Bool-cases st.has_st) [
  | inl e ↦ rw e (simp (lookup-copy_param, lookup-set) (ground arith))
  | inr e ↦ rw e (simp (lookup-copy_param, lookup-set) (ground arith))
]
