-- ===== src/Fault.antt =====
-- internal/fault/fault.go: Strava-shaped error bodies and the browser's error page.
pub mod Laws
pub mod Headers
use strava_auth_proxy.Prelude.{
  ℕ, ◌+◌, ◌/◌, ◌%◌, List, [], ◌∷◌, ◌++◌, ltb, eqb, length, is_empty, some, ◌≡◌, refl, if◌then◌else◌,
}
use strava_auth_proxy.Go.Text.{Str, str, itoa}
use strava_auth_proxy.Go.Http.{Response, set_header, write_header, write_body, escape_html}

pub record Error : Type 0 where
  pub resource : Str
  pub field : Str
  pub code : Str

pub record Fault : Type 0 where
  pub message : Str
  pub errors : List Error

hex_digit : ℕ → ℕ
hex_digit n = if ltb n 10 then n + 48 else n + 87

-- json.Marshal of one byte of a string of ASCII bytes, with its escapes for HTML.
escape_json_byte : ℕ → Str
unfolding hex_digit
escape_json_byte c =
    if eqb c 34
    then 92 ∷ 34 ∷ []
    else if eqb c 92
    then 92 ∷ 92 ∷ []
    else if eqb c 10
    then 92 ∷ b'n' ∷ []
    else if eqb c 13
    then 92 ∷ b'r' ∷ []
    else if eqb c 9
    then 92 ∷ b't' ∷ []
    else if eqb c 8
    then 92 ∷ b'b' ∷ []
    else if eqb c 12
    then 92 ∷ b'f' ∷ []
    else if ltb c 32
    then 92 ∷ b'u' ∷ b'0' ∷ b'0' ∷ hex_digit (c / 16) ∷ hex_digit (c % 16) ∷ []
    else if eqb c b'<'
    then 92 ∷ str "u003c"
    else if eqb c b'>'
    then 92 ∷ str "u003e"
    else if eqb c b'&'
    then 92 ∷ str "u0026"
    else c ∷ []

escape_json : Str → Str
unfolding escape_json_byte
escape_json [] = []
escape_json (c ∷ s) = escape_json_byte c ++ escape_json s

-- A quoted string, and a field of an object.
quote : Str → Str
unfolding escape_json
quote s = 34 ∷ (escape_json s ++ 34 ∷ [])

marshal_error : Error → Str
unfolding quote
marshal_error e =
    str "{"
    ++ quote (str "resource")
    ++ str ":"
    ++ quote e.resource
    ++ str ","
    ++ quote (str "field")
    ++ str ":"
    ++ quote e.field
    ++ str ","
    ++ quote (str "code")
    ++ str ":"
    ++ quote e.code
    ++ str "}"

marshal_errors : List Error → Str
unfolding marshal_error
marshal_errors [] = []
marshal_errors (e ∷ []) = marshal_error e
marshal_errors (e ∷ more) = marshal_error e ++ b',' ∷ marshal_errors more

-- json.Marshal of a fault. A nil list is the empty list of the model, an empty array on the wire.
pub marshal : Fault → Str
unfolding marshal_errors quote
marshal f =
    str "{"
    ++ quote (str "message")
    ++ str ":"
    ++ quote f.message
    ++ str ","
    ++ quote (str "errors")
    ++ str ":["
    ++ marshal_errors f.errors
    ++ str "]}"

abbrev pub content_type_json : Str
content_type_json = str "application/json; charset=utf-8"

abbrev pub content_type_html : Str
content_type_html = str "text/html; charset=utf-8"

-- A whole response of the proxy's own: its type and length, then the status, then the body.
pub write_response : Str → ℕ → Str → Response → Response
write_response content_type status body w = write_body body (
    write_header status (
      set_header (str "Content-Length") (itoa (length body))
        (set_header (str "Content-Type") content_type w)))

pub write : ℕ → Fault → Response → Response
write status f w = write_response content_type_json status (marshal f) w

abbrev pub invalid_client_id : Fault
invalid_client_id = record {
  message = str "Bad Request";
  errors =
      record { resource = str "Application"; field = str "client_id"; code = str "invalid" } ∷ [];
}

abbrev pub invalid_client_secret : Fault
invalid_client_secret = record {
  message = str "Authorization Error";
  errors = record { resource = str "Application"; field = str ""; code = str "invalid" } ∷ [];
}

abbrev pub invalid_code : Fault
invalid_code = record {
  message = str "Bad Request";
  errors =
      record { resource = str "AuthorizationCode"; field = str "code"; code = str "invalid" } ∷ [];
}

abbrev pub unauthorized : Fault
unauthorized = record { message = str "Authorization Error"; errors = [] }

abbrev pub upstream_unavailable : Fault
upstream_unavailable = record {
  message = str "Bad Gateway";
  errors =
      record { resource = str "Upstream"; field = str "strava"; code = str "unavailable" } ∷ [];
}

abbrev pub upstream_timeout : Fault
upstream_timeout = record {
  message = str "Gateway Timeout";
  errors = record { resource = str "Upstream"; field = str "strava"; code = str "timeout" } ∷ [];
}

unfoldable pub write_invalid_client_id : Response → Response
write_invalid_client_id w = write 400 invalid_client_id w

unfoldable pub write_invalid_client_secret : Response → Response
write_invalid_client_secret w = write 401 invalid_client_secret w

unfoldable pub write_invalid_code : Response → Response
write_invalid_code w = write 400 invalid_code w

unfoldable pub write_unauthorized : Response → Response
write_unauthorized w = write 401 unauthorized w

unfoldable pub write_upstream_unavailable : Response → Response
write_upstream_unavailable w = write 502 upstream_unavailable w

unfoldable pub write_upstream_timeout : Response → Response
write_upstream_timeout w = write 504 upstream_timeout w

abbrev default_detail : Str
default_detail = str "The request could not be processed."

-- A line of the page with its line break, and an attribute's value in quotes.
abbrev line : Str → Str
line s = s ++ 10 ∷ []

abbrev quoted : Str → Str
quoted s = 34 ∷ (s ++ 34 ∷ [])

-- The head of an error page, from the document type to the heading, for a title.
pub page_head : Str → Str
page_head title =
    line (str "<!doctype html>")
    ++ line (str "<html lang=" ++ quoted (str "en") ++ str ">")
    ++ line (str "<head>")
    ++ line (str "<meta charset=" ++ quoted (str "utf-8") ++ str ">")
    ++ line (
        str "<meta name="
        ++ quoted (str "viewport")
        ++ str " content="
        ++ quoted (str "width=device-width, initial-scale=1")
        ++ str ">")
    ++ line (
        str "<meta name="
        ++ quoted (str "robots")
        ++ str " content="
        ++ quoted (str "noindex, nofollow")
        ++ str ">")
    ++ line (str "<title>" ++ title ++ str "</title>")
    ++ line (str "</head>")
    ++ line (str "<body>")
    ++ line (str "<h1>" ++ title ++ str "</h1>")

pub page_foot : Str
page_foot = line (str "</body>") ++ line (str "</html>")

pub bad_request_page : Str → Str
unfolding page_head page_foot escape_html
bad_request_page detail =
    page_head (str "400 Bad Request")
    ++ str "<p>"
    ++ escape_html detail
    ++ line (str "</p>")
    ++ page_foot

unfoldable pub write_bad_request_page : Str → Response → Response
write_bad_request_page detail w =
    write_response content_type_html 400
      (bad_request_page (if is_empty detail then default_detail else detail)) w
