-- ===== src/Oauth/Responses.antt =====
-- The ways a handler answers, on a response that was not sent yet: a 400 page, a 500 page, and a
-- redirect.
use strava_auth_proxy.Prelude.{
  branch, inr, inl, is_empty, Bool-cases, arith, ℕ, ◌≡◌, refl, none, some, List, [], ◌∷◌, ◌++◌, ◌∙◌,
}
use strava_auth_proxy.Go.Text.{Str, str, ◌==◌}
use strava_auth_proxy.Go.Values.{get, has}
use strava_auth_proxy.Go.Http.{Response, Cookie, set_cookie, set_header, redirect_found}
use strava_auth_proxy.Fault.Headers.{get-set_header, get-set_header_self}
use strava_auth_proxy.Fault.Laws.{bad_request_status, bad_request_location}
use strava_auth_proxy.Exchange.{Exchange, Attr, set_client_id}
use strava_auth_proxy.Oauth.{bad_request, internal, write_internal}

-- Nothing was written yet.
pub record IsUnsent (w : Exchange) : Type 0 where
  pub status : w.response.status ≡ none
  pub location : get w.response.header (str "Location") ≡ []

-- The response is an error page with the status, and redirects nowhere.
pub record IsPage (status : ℕ) (w : Exchange) : Type 0 where
  pub answered : w.response.status ≡ some status
  pub nowhere : get w.response.header (str "Location") ≡ []

pub bad_request-IsPage :
    (detail : Str) (w : Exchange) → IsUnsent w → IsPage 400 (bad_request detail w)
unfolding bad_request
bad_request-IsPage detail w u = record {
  answered = bad_request_status detail w.response u.status;
  nowhere = bad_request_location detail w.response ∙ u.location;
}

pub internal-IsPage :
    (message : Str) (attrs : List Attr) (w : Exchange)
    → IsUnsent w
    → IsPage 500 (internal message attrs w)
unfolding internal write_internal ◌==◌
internal-IsPage message attrs w u = record {
  answered = ground (arith, u.status);
  nowhere = get-set_header (str "Content-Type") _ (str "Location") w.response refl ∙ u.location;
}

pub set_client_id-IsUnsent : (id : Str) (w : Exchange) → IsUnsent w → IsUnsent (set_client_id id w)
unfolding set_client_id
set_client_id-IsUnsent id w u = elim (Bool-cases (is_empty id)) [
  | inl e ↦ rw e u
  | inr e ↦ rw e (record { status = u.status; location = u.location })
]

pub response-set_client_id : (id : Str) (w : Exchange) → (set_client_id id w).response ≡ w.response
unfolding set_client_id
response-set_client_id id w = ground arith

pub sent-set_client_id : (id : Str) (w : Exchange) → (set_client_id id w).sent ≡ w.sent
unfolding set_client_id
sent-set_client_id id w = ground arith

pub redirect_found_status :
    (method url : Str) (w : Response)
    → w.status ≡ none
    → (redirect_found method url w).status ≡ some 302
unfolding redirect_found
redirect_found_status method url w unsent = ground arith

pub redirect_found_location :
    (method url : Str) (w : Response)
    → w.status ≡ none
    → get (redirect_found method url w).header (str "Location") ≡ url
unfolding redirect_found ◌==◌
redirect_found_location method url w unsent =
    let located = set_header (str "Location") url w in
    let here = get-set_header_self (str "Location") url w unsent in
    let typed =
      get-set_header (str "Content-Type") (str "text/html; charset=utf-8") (str "Location") located
        refl
      ∙ here in
    let P = λ (v : Response). get v.header (str "Location") ≡ url in
    branch P (has w.header (str "Content-Type")) (λ _. here)
      (λ _. elim (Bool-cases (method == str "GET")) [
        | inl g ↦ rw g typed
        | inr g ↦ rw g (branch P (method == str "HEAD") (λ _. typed) (λ _. here))
      ])

pub redirect_found_cookies :
    (method url : Str) (w : Response) → (redirect_found method url w).cookies ≡ w.cookies
unfolding redirect_found
redirect_found_cookies method url w = ground arith

pub set_cookie_lem :
    (c : Cookie) (w : Response) → w.status ≡ none → (set_cookie c w).cookies ≡ w.cookies ++ c ∷ []
set_cookie_lem c w unsent = rw unsent refl
