-- ===== src/Fault/Headers.antt =====
-- Which headers the answers of this package leave alone.
use strava_auth_proxy.Fault.{
  marshal, content_type_json, Fault, write, write_bad_request_page, write_invalid_client_id,
  write_invalid_client_secret, write_invalid_code, write_response, write_unauthorized,
  write_upstream_timeout, write_upstream_unavailable,
}
use strava_auth_proxy.Prelude.{length, ◌≡◌, ◌∙◌, false, ℕ, none, refl, inl, inr, Option-cases}
use strava_auth_proxy.Go.Text.{Str, str, ◌==◌, itoa}
use strava_auth_proxy.Go.Values.{lookup, lookup-set_ne, get, get-set_ne, get-set_self}
use strava_auth_proxy.Go.Http.{Response, set_header}

-- A header that no answer of the proxy's own sets.
abbrev pub IsOther : Str → Type 0
IsOther name =
    ((str "Content-Type" == name) ≡ false)
    × ((str "Content-Length" == name) ≡ false)
    × ((str "Location" == name) ≡ false)

-- A header is set on a response that is not sent, and nothing happens to one that is: in both
-- cases the headers of other names stay.
pub get-set_header :
    (set_name v name : Str) (w : Response)
    → (set_name == name) ≡ false
    → get (set_header set_name v w).header name ≡ get w.header name
get-set_header set_name v name w n = elim (Option-cases w.status) [
  | inl unsent ↦ rw unsent (get-set_ne w.header set_name v name n)
  | inr (code, is_sent) ↦ rw is_sent refl
]

pub lookup-set_header :
    (set_name v name : Str) (w : Response)
    → (set_name == name) ≡ false
    → lookup (set_header set_name v w).header name ≡ lookup w.header name
lookup-set_header set_name v name w n = elim (Option-cases w.status) [
  | inl unsent ↦ rw unsent (lookup-set_ne w.header set_name v name n)
  | inr (code, is_sent) ↦ rw is_sent refl
]

pub get-set_header_self :
    (name v : Str) (w : Response) → w.status ≡ none → get (set_header name v w).header name ≡ v
get-set_header_self name v w unsent = rw unsent (get-set_self w.header name v)

module _ (name : Str) (other : IsOther name) where
  pub lookup-set_type :
      (w : Response) (v : Str)
      → lookup (set_header (str "Content-Type") v w).header name ≡ lookup w.header name
  lookup-set_type w v = lookup-set_header (str "Content-Type") v name w other.0

  pub lookup-set_length :
      (w : Response) (v : Str)
      → lookup (set_header (str "Content-Length") v w).header name ≡ lookup w.header name
  lookup-set_length w v = lookup-set_header (str "Content-Length") v name w other.1

  pub lookup-set_location :
      (w : Response) (v : Str)
      → lookup (set_header (str "Location") v w).header name ≡ lookup w.header name
  lookup-set_location w v = lookup-set_header (str "Location") v name w other.2

  pub lookup-write_response :
      (content_type : Str) (status : ℕ) (body : Str) (w : Response)
      → lookup (write_response content_type status body w).header name ≡ lookup w.header name
  unfolding write_response
  lookup-write_response content_type status body w =
      lookup-set_length (set_header (str "Content-Type") content_type w) (itoa (length body))
      ∙ lookup-set_type w content_type

  pub lookup-write :
      (status : ℕ) (f : Fault) (w : Response)
      → lookup (write status f w).header name ≡ lookup w.header name
  unfolding write
  lookup-write status f w = lookup-write_response content_type_json status (marshal f) w

  pub lookup-write_bad_request_page :
      (detail : Str) (w : Response)
      → lookup (write_bad_request_page detail w).header name ≡ lookup w.header name
  unfolding write_bad_request_page
  lookup-write_bad_request_page detail w = lookup-write_response _ _ _ w

  pub lookup-write_invalid_client_id :
      (w : Response) → lookup (write_invalid_client_id w).header name ≡ lookup w.header name
  unfolding write_invalid_client_id
  lookup-write_invalid_client_id w = lookup-write _ _ w

  pub lookup-write_invalid_client_secret :
      (w : Response) → lookup (write_invalid_client_secret w).header name ≡ lookup w.header name
  unfolding write_invalid_client_secret
  lookup-write_invalid_client_secret w = lookup-write _ _ w

  pub lookup-write_invalid_code :
      (w : Response) → lookup (write_invalid_code w).header name ≡ lookup w.header name
  unfolding write_invalid_code
  lookup-write_invalid_code w = lookup-write _ _ w

  pub lookup-write_unauthorized :
      (w : Response) → lookup (write_unauthorized w).header name ≡ lookup w.header name
  unfolding write_unauthorized
  lookup-write_unauthorized w = lookup-write _ _ w

  pub lookup-write_upstream_unavailable :
      (w : Response) → lookup (write_upstream_unavailable w).header name ≡ lookup w.header name
  unfolding write_upstream_unavailable
  lookup-write_upstream_unavailable w = lookup-write _ _ w

  pub lookup-write_upstream_timeout :
      (w : Response) → lookup (write_upstream_timeout w).header name ≡ lookup w.header name
  unfolding write_upstream_timeout
  lookup-write_upstream_timeout w = lookup-write _ _ w
