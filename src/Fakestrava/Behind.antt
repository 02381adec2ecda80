-- ===== src/Fakestrava/Behind.antt =====
-- The proxy's token endpoint in front of the simulated Strava, as the integration suite runs them.
use strava_auth_proxy.Prelude.{false, ℕ, ◌≡◌, none, some, List, [], ◌∷◌, ok}
use strava_auth_proxy.Oauth.{path_token, Env}
use strava_auth_proxy.Go.Values.{get, Values}
use strava_auth_proxy.Go.Text.{◌==◌, Str, str}
use strava_auth_proxy.Fakestrava.{◌==◌, Server, Libraries}
use strava_auth_proxy.Fakestrava.Serve.{Visit, serve}
use strava_auth_proxy.Config.{reveal, Config}
use strava_auth_proxy.Go.Url.{Url}
use strava_auth_proxy.Go.Http.{Request, Response, Outbound, Inbound}
use strava_auth_proxy.Exchange.{Exchange}

-- What a client reads of a response; one without a header was sent with 200.
abbrev pub status_of : Response → ℕ
status_of w = elim w.status [ none ↦ 200 | some code ↦ code ]

abbrev pub inbound : Response → Inbound
inbound w = record { status = status_of w; header = w.header; body = w.body; body_failed = false }

-- How a request of the proxy reaches Strava: the network, the clock and the random source are given.
module _ (lib : Libraries) (visit_of : Outbound → Visit) where
  -- Strava after the requests that it was sent.
  unfoldable pub strava_after : List Outbound → Server → Server
  strava_after [] s = s
  strava_after (o ∷ sent) s = strava_after sent (serve lib (visit_of o) s).0

  module _ (env : Env) (s : Server)
      (answers : (o : Outbound) → env.call o ≡ ok (inbound (serve lib (visit_of o) s).1)) where
    -- The network delivers what it is given: the method, the header and the body of a request, and
    -- one to the token URL to its path, without a query.
    pub record IsNetwork (target : Url) : Type 0 where
      pub method : (o : Outbound) → (visit_of o).request.method ≡ o.method
      pub header : (o : Outbound) → (visit_of o).request.header ≡ o.header
      pub body : (o : Outbound) → (visit_of o).request.body ≡ o.body
      pub path :
          (o : Outbound) → o.url ≡ env.url_string target → (visit_of o).request.path ≡ path_token
      pub query :
          (o : Outbound) → o.url ≡ env.url_string target → (visit_of o).request.raw_query ≡ []

    -- Packages net/url and net/http: the form of a POST without a query is what its body encodes, if
    -- its header says that the body is a form.
    unfoldable pub IsForm : Type 0
    IsForm =
        (r : Request) (m : Values)
        → r.method ≡ str "POST"
        → get r.header (str "Content-Type") ≡ str "application/x-www-form-urlencoded"
        → r.raw_query ≡ []
        → r.body ≡ env.encode m
        → (k : Str) → get (lib.form r) k ≡ get m k

    -- The proxy has the credentials of Strava's application.
    pub record HasCredentials (cfg : Config) : Type 0 where
      pub id : cfg.strava_client_id ≡ s.real_client_id
      pub secret : reveal cfg.strava_client_secret ≡ s.real_client_secret
