-- ===== src/Fault/Laws.antt =====
-- What the fault writers do to a response that was not sent yet.
use strava_auth_proxy.Prelude.{
  eqb, if◌then◌else◌, map, ◌∙◌, ℕ, ◌≡◌, refl, arith, none, some, length, [], ◌++◌,
}
use strava_auth_proxy.Go.Text.{Str, str, itoa, ◌==◌}
use strava_auth_proxy.Go.Values.{get}
use strava_auth_proxy.Fault.Headers.{get-set_header, get-set_header_self}
use strava_auth_proxy.Go.Http.{Response, set_header}
use strava_auth_proxy.Fault.{
  Fault, marshal, write_response, write, content_type_json, bad_request_page, invalid_client_secret,
  write_bad_request_page, unauthorized,
}

-- On a response that was not sent, a fault is the whole response: the status is the fault's, the
-- body its JSON, and its type and length headers are those of the body.
pub write_lem :
    (status : ℕ) (f : Fault) (w : Response)
    → w.status ≡ none
    → w.body ≡ []
    → ((write status f w).status ≡ some status)
      × ((write status f w).body ≡ marshal f)
      × (get (write status f w).header (str "Content-Type") ≡ content_type_json)
      × (get (write status f w).header (str "Content-Length") ≡ itoa (length (marshal f)))
unfolding write write_response ◌==◌
write_lem status f w unsent empty = (
  ground arith,
  ground arith,
  get-set_header (str "Content-Length") _ (str "Content-Type")
        (set_header (str "Content-Type") content_type_json w) refl
      ∙ get-set_header_self (str "Content-Type") content_type_json w unsent,
  get-set_header_self (str "Content-Length") _ (set_header (str "Content-Type") content_type_json w)
      unsent,
)

-- Any response of the proxy's own, not yet sent: its status, and a header it does not set.
pub write_response_status :
    (content_type : Str) (status : ℕ) (body : Str) (w : Response)
    → w.status ≡ none
    → (write_response content_type status body w).status ≡ some status
unfolding write_response
write_response_status content_type status body w unsent = ground arith

write_response_location :
    (content_type : Str) (status : ℕ) (body : Str) (w : Response)
    → get (write_response content_type status body w).header (str "Location")
      ≡ get w.header (str "Location")
unfolding write_response ◌==◌
write_response_location content_type status body w =
    get-set_header (str "Content-Length") _ (str "Location")
      (set_header (str "Content-Type") content_type w) refl
    ∙ get-set_header (str "Content-Type") content_type (str "Location") w refl

pub write_status :
    (status : ℕ) (f : Fault) (w : Response)
    → w.status ≡ none
    → (write status f w).status ≡ some status
unfolding write
write_status status f w = write_response_status content_type_json status (marshal f) w

pub bad_request_status :
    (detail : Str) (w : Response)
    → w.status ≡ none
    → (write_bad_request_page detail w).status ≡ some 400
unfolding write_bad_request_page
bad_request_status detail w unsent = write_response_status _ 400 _ w unsent

pub bad_request_location :
    (detail : Str) (w : Response)
    → get (write_bad_request_page detail w).header (str "Location") ≡ get w.header (str "Location")
unfolding write_bad_request_page
bad_request_location detail w = write_response_location _ 400 _ w

-- Texts of the golden files of internal/fault/testdata, with single quotes for double ones.
dequote : Str → Str
dequote = map (λ c. if eqb c 39 then 34 else c)

golden_invalid_client_secret :
    marshal invalid_client_secret
    ≡ dequote (
        str "{'message':'Authorization Error','errors':"
        ++ str "[{'resource':'Application','field':'','code':'invalid'}]}")
unfolding marshal dequote
golden_invalid_client_secret = refl

golden_unauthorized :
    marshal unauthorized ≡ dequote (str "{'message':'Authorization Error','errors':[]}")
unfolding marshal dequote
golden_unauthorized = refl

golden_page_length : length (bad_request_page (str "Unknown client_id.")) ≡ 294
unfolding bad_request_page
golden_page_length = refl
