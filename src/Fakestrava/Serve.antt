-- ===== src/Fakestrava/Serve.antt =====
-- internal/fakestrava/fakestrava.go: the routes of the multiplexer, and the wrapper that records
-- every request before its handler runs. A pattern of GET takes HEAD too. The path of a request is
-- clean and has no escaped slash, so that the decoded path decides the pattern. The pause of `hang`
-- keeps the state, so it is left out.
use strava_auth_proxy.Prelude.{Bool, ◌&&◌, ◌||◌, List, [], ◌∷◌, if◌then◌else◌}
use strava_auth_proxy.Go.Text.{Str, str, ◌==◌, has_prefix}
use strava_auth_proxy.Go.Http.{Request, Response, fresh}
use strava_auth_proxy.Fakestrava.{
  Server, Libraries, Knob, turn, record_request, write_fault, invalid,
}
use strava_auth_proxy.Fakestrava.Grants.{
  Moment, handle_authorize, handle_token, handle_deauthorize, handle_revoke,
}
use strava_auth_proxy.Fakestrava.Api.{Connection, handle_api}

pub data Route : Type 0 where
  authorize token deauthorize revoke api not_found : Route

abbrev is_get : Str → Bool
is_get method = method == str "GET" || method == str "HEAD"

-- The most specific pattern that takes the method and the path.
unfoldable pub route : Str → Str → Route
route method path =
    if is_get method && (path == str "/oauth/authorize" || path == str "/oauth/mobile/authorize")
    then Route.authorize
    else if method == str "POST"
        && (path == str "/api/v3/oauth/token" || path == str "/oauth/token")
    then Route.token
    else if method == str "POST" && path == str "/oauth/deauthorize"
    then Route.deauthorize
    else if method == str "POST" && path == str "/oauth/revoke"
    then Route.revoke
    else if has_prefix path (str "/api/v3/")
    then Route.api
    else Route.not_found

unfoldable pub handle_not_found : Response → Response
handle_not_found w =
    write_fault 404 (str "Resource Not Found") (invalid (str "Resource") (str "path")) w

-- What a request meets besides the server: its moment and its connection.
pub record Visit : Type 0 where
  pub request : Request
  pub moment : Moment
  pub connection : Connection

module _ (lib : Libraries) where
  unfoldable pub dispatch : Route → Visit → Server → Response → Server × Response
  unfolding handle_authorize handle_token handle_deauthorize handle_revoke handle_api
      handle_not_found
  dispatch Route.authorize v s w = handle_authorize lib v.moment v.request s w
  dispatch Route.token v s w = handle_token lib v.moment (lib.form v.request) s w
  dispatch Route.deauthorize v s w = handle_deauthorize lib v.request s w
  dispatch Route.revoke v s w = handle_revoke lib v.request s w
  dispatch Route.api v s w = (s, handle_api lib v.connection v.request s w)
  dispatch Route.not_found v s w = (s, handle_not_found w)

  unfoldable pub serve : Visit → Server → Server × Response
  unfolding dispatch record_request route
  serve v s =
      dispatch (route v.request.method v.request.path) v (record_request lib v.request s) fresh

-- A step of the simulation: a request, or a knob that a test turns.
pub data Event : Type 0 where
  visit : Visit → Event
  knob : Knob → Event

-- A run, with the text of the default athlete.
unfoldable pub run : Libraries → Str → List Event → Server → Server
unfolding serve turn
run lib athlete [] s = s
run lib athlete (visit v ∷ events) s = run lib athlete events (serve lib v s).0
run lib athlete (knob k ∷ events) s = run lib athlete events (turn athlete k s)
