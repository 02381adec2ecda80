-- ===== src/Go/Http.antt =====
-- What the source uses of package net/http: requests, the response being written, and cookies.
use strava_auth_proxy.Prelude.{ℕ, Bool, Option, none, some, List, [], ◌∷◌, ◌++◌, eqb, if◌then◌else◌}
use strava_auth_proxy.Prelude.Int.{ℤ}
use strava_auth_proxy.Go.Text.{Str, str, ◌==◌}
use strava_auth_proxy.Go.Values.{Values, has, set}

pub record Request : Type 0 where
  pub method : Str
  pub path : Str
  pub raw_query : Str
  pub header : Values
  pub cookies : List (Str × Str)
  pub body : Str
  pub content_length : ℤ

pub record Cookie : Type 0 where
  pub name : Str
  pub value : Str
  pub path : Str
  pub max_age : ℤ
  pub secure : Bool
  pub http_only : Bool
  pub same_site_lax : Bool

-- A response as it goes to the client: `status` is none until the header is written, a later status
-- is ignored, and so is a header that is set once the header is written. The Set-Cookie headers are
-- kept as the cookies that they state.
pub record Response : Type 0 where
  pub header : Values
  pub cookies : List Cookie
  pub status : Option ℕ
  pub body : Str

abbrev pub fresh : Response
fresh = record { header = []; cookies = []; status = none; body = [] }

abbrev first_status : Option ℕ → ℕ → Option ℕ
first_status none code = some code
first_status (some old) code = some old

-- What WriteHeader has frozen stays as it was.
abbrev pub unless_sent : {A : Type 0} → Option ℕ → A → A → A
unless_sent none new old = new
unless_sent (some code) new old = old

abbrev pub set_header : Str → Str → Response → Response
set_header name value w = record w {
  header = unless_sent w.status (set w.header name value) w.header;
}

abbrev pub write_header : ℕ → Response → Response
write_header code w = record w { status = first_status w.status code }

-- A write before any header sends status 200.
abbrev pub write_body : Str → Response → Response
write_body b w = record w { status = first_status w.status 200; body = w.body ++ b }

abbrev pub set_cookie : Cookie → Response → Response
set_cookie c w = record w { cookies = unless_sent w.status (w.cookies ++ c ∷ []) w.cookies }

-- html.EscapeString.
unfoldable pub escape_html : Str → Str
escape_html [] = []
escape_html (c ∷ s) =
    (if eqb c b'&'
      then str "&amp;"
      else if eqb c b'<'
      then str "&lt;"
      else if eqb c b'>'
      then str "&gt;"
      else if eqb c 34
      then str "&#34;"
      else if eqb c 39
      then str "&#39;"
      else c ∷ [])
    ++ escape_html s

-- http.Redirect to an absolute URL, with status 302: the short page is for GET alone, and neither
-- it nor its type is written over a type that was set before.
unfoldable pub redirect_found : Str → Str → Response → Response
unfolding escape_html
redirect_found method url w =
    let typed = has w.header (str "Content-Type") in
    let located = set_header (str "Location") url w in
    let page = (str "<a href=" ++ 34 ∷ escape_html url) ++ 34 ∷ str ">Found</a>." ++ 10 ∷ 10 ∷ [] in
    let is_get = method == str "GET" in
    if typed
    then write_header 302 located
    else let headed =
        if is_get
        then set_header (str "Content-Type") (str "text/html; charset=utf-8") located
        else if method == str "HEAD"
        then set_header (str "Content-Type") (str "text/html; charset=utf-8") located
        else located in
      let sent = write_header 302 headed in if is_get then write_body page sent else sent

-- Request.Cookie: the first cookie of that name.
unfoldable pub find_cookie : List (Str × Str) → Str → Option Str
find_cookie [] name = none
find_cookie ((n, v) ∷ rest) name = if n == name then some v else find_cookie rest name

-- A request of the proxy to Strava.
pub record Outbound : Type 0 where
  pub method : Str
  pub url : Str
  pub header : Values
  pub body : Str
  pub content_length : ℤ

-- What a client call yields: a failure, with what the source asks of the error, or a response. A
-- body is what was read of it, and whether reading it ended in an error.
pub record CallError : Type 0 where
  pub deadline_exceeded : Bool
  pub canceled : Bool
  pub net_timeout : Option Bool
  pub url_error : Option (Str × Str)
  pub message : Str

pub record Inbound : Type 0 where
  pub status : ℕ
  pub header : Values
  pub body : Str
  pub body_failed : Bool
