-- ===== src/Config/Renderings.antt =====
-- internal/config/secret.go: what a secret is rendered as, and how one is read from JSON. Reading a
-- JSON string is a parameter.
use strava_auth_proxy.Prelude.{ℕ, ◌≡◌, refl, Option, none, some, [], ◌∷◌, ◌++◌, eqb, if◌then◌else◌}
use strava_auth_proxy.Go.Text.{Str}
use strava_auth_proxy.Config.{Secret, redacted}

-- strconv.Quote and json.Marshal of a text with nothing to escape.
abbrev quoted : Str → Str
quoted s = 34 ∷ s ++ 34 ∷ []

-- The ways to print a secret: the methods String, GoString and LogValue, Format with a verb, and
-- MarshalJSON.
pub data Rendering : Type 0 where
  string go_string log_value marshal_json : Rendering
  format : ℕ → Rendering

unfoldable pub render : Rendering → Secret → Str
render Rendering.string s = redacted
render Rendering.go_string s = redacted
render Rendering.log_value s = redacted
render (Rendering.format verb) s = if eqb verb b'q' then quoted redacted else redacted
render Rendering.marshal_json s = quoted redacted

-- UnmarshalJSON, which leaves the secret alone when the JSON is not a string.
unfoldable pub unmarshal_json : (Str → Option Str) → Str → Secret → Option Secret
unmarshal_json parse b s = elim (parse b) [ none ↦ none | some v ↦ some (record s { v = v }) ]

-- No rendering tells two secrets apart.
pub render_redacts : (how : Rendering) (s t : Secret) → render how s ≡ render how t
unfolding render
render_redacts Rendering.string s t = refl
render_redacts Rendering.go_string s t = refl
render_redacts Rendering.log_value s t = refl
render_redacts Rendering.marshal_json s t = refl
render_redacts (Rendering.format verb) s t = refl
