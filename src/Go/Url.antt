-- ===== src/Go/Url.antt =====
-- package net/url: a parsed URL is a record; parsing and the name of its host are parameters.
use strava_auth_proxy.Prelude.{Bool, not, is_empty}
use strava_auth_proxy.Go.Text.{Str}

pub record Url : Type 0 where
  pub scheme : Str
  pub host : Str
  pub path : Str
  pub raw_query : Str
  pub fragment : Str

-- URL.IsAbs.
abbrev pub is_abs : Url → Bool
is_abs u = not (is_empty u.scheme)
