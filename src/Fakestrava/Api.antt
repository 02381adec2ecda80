-- ===== src/Fakestrava/Api.antt =====
-- internal/fakestrava/api.go: what the simulated API answers.
use strava_auth_proxy.Prelude.{
  ℕ, zero, suc, ◌+◌, Bool, not, ◌&&◌, Option, none, some, List, [], ◌∷◌, ◌++◌, length,
  if◌then◌else◌,
}
use strava_auth_proxy.Prelude.Int.{ltb_ℤ, pos}
use strava_auth_proxy.Go.Text.{Str, str, ◌==◌, itoa}
use strava_auth_proxy.Go.Values.{Values}
use strava_auth_proxy.Go.Http.{Request, Response, unless_sent, set_header, write_header, write_body}
use strava_auth_proxy.Fault.{content_type_json}
use strava_auth_proxy.Fakestrava.{
  Server, Libraries, fault_error, http_error, write_fault, write_json, invalid,
}

abbrev pub path_echo : Str
path_echo = str "/api/v3/echo"

abbrev pub path_gzip : Str
path_gzip = str "/api/v3/gzip"

abbrev pub path_stream : Str
path_stream = str "/api/v3/stream"

abbrev pub path_rate_limited : Str
path_rate_limited = str "/api/v3/ratelimited"

abbrev pub path_unauthorized : Str
path_unauthorized = str "/api/v3/unauthorized"

-- A name's whole list of values, as a map's assignment does.
unfoldable pub assign : Str → List Str → Values → Values
assign k vs [] = (k, vs) ∷ []
assign k vs ((j, ws) ∷ m) = if j == k then (k, vs) ∷ m else (j, ws) ∷ assign k vs m

unfoldable pub copy_headers : Values → Values → Values
unfolding assign
copy_headers [] dst = dst
copy_headers ((k, vs) ∷ headers) dst = copy_headers headers (assign k vs dst)

unfoldable pub write_rate_limit_headers : Server → Response → Response
unfolding copy_headers
write_rate_limit_headers s w = record w {
  header = unless_sent w.status (copy_headers s.rate_limit_headers w.header) w.header;
}

abbrev typed_json : Response → Response
typed_json w = set_header (str "Content-Type") content_type_json w

abbrev zipped : Option Str → Response → Response
zipped none w = http_error (str "fakestrava: gzip failed") w
zipped (some z) w = write_body z (
    write_header 200 (
      set_header (str "Content-Length") (itoa (length z))
        (set_header (str "Content-Encoding") (str "gzip") (typed_json w))))

unfoldable pub write_gzip : Libraries → Request → Response → Response
write_gzip lib r w = elim (lib.echo_json r (lib.form r)) [
  | none ↦ http_error (str "fakestrava: marshal failed") w
  | some body ↦ zipped (lib.gzip body) w
]

unfoldable pub chunk_line : ℕ → Str
chunk_line i = str "{" ++ 34 ∷ str "chunk" ++ 34 ∷ str ":" ++ itoa i ++ str "}" ++ 10 ∷ []

-- How the connection fares: whether the write of a chunk succeeds, and whether the request is still
-- live when the pause after it ends.
pub record Connection : Type 0 where
  pub writes : ℕ → Bool
  pub lives : ℕ → Bool

-- The loop from chunk `i` on, with `left` chunks to go. A pause is made between two chunks alone. A
-- flush adds nothing to what was written.
unfoldable pub write_chunks : Connection → Bool → ℕ → ℕ → Response → Response
unfolding chunk_line
write_chunks conn pauses zero i w = w
write_chunks conn pauses (suc zero) i w = if conn.writes i then write_body (chunk_line i) w else w
write_chunks conn pauses (suc (suc left)) i w =
    let written = write_body (chunk_line i) w in
    let rest = write_chunks conn pauses (suc left) (i + 1) written in
    if not (conn.writes i) then w else if pauses && not (conn.lives i) then written else rest

unfoldable pub write_stream : Connection → Server → Response → Response
unfolding write_chunks
write_stream conn s w =
    write_chunks conn (ltb_ℤ (pos 0) s.stream_delay) s.stream_chunks 0
      (write_header 200 (typed_json w))

unfoldable pub handle_api : Libraries → Connection → Request → Server → Response → Response
unfolding write_rate_limit_headers write_gzip write_stream
handle_api lib conn r s w₀ =
    let w = write_rate_limit_headers s w₀ in
    if r.path == path_gzip
    then write_gzip lib r w
    else if r.path == path_stream
    then write_stream conn s w
    else if r.path == path_rate_limited
    then write_fault 429 (str "Rate Limit Exceeded")
        (fault_error (str "Application") (str "rate limit") (str "exceeded") ∷ []) w
    else if r.path == path_unauthorized
    then write_fault 401 (str "Authorization Error") (invalid (str "Athlete") (str "access_token"))
        w
    else write_json 200 (lib.echo_json r (lib.form r)) w
