-- ===== src/Server/Routes.antt =====
-- Which requests the public multiplexer sends where.
use strava_auth_proxy.Prelude.{
  [], ◌++◌, List, ◌∷◌, Bool-cases, inl, inr, and_parts, Bool, true, false, not, ◌&&◌, ◌≡◌, ◌↔◌,
  refl, sym, ◌∙◌, ap, branch, and_false,
}
use strava_auth_proxy.Server.{
  Route, route, only, is_oauth_surface, is_get, same, below, at_authorize, at_mobile_authorize,
  at_callback, at_plain_token, at_deauthorize, at_revoke, at_token, at_api,
}
use strava_auth_proxy.Go.Text.{Str, str, ◌==◌, has_prefix, eq_iff}

-- A POST to the token endpoint below the prefix of the API.
abbrev is_token_post : Str → List Str → Bool
is_token_post method segments = same segments at_token && method == str "POST"

same_eq : (xs ys : List Str) → same xs ys ≡ true → xs ≡ ys
unfolding same
same_eq [] [] h = refl
same_eq [] (y ∷ ys) h = absurd (cc h)
same_eq (x ∷ xs) [] h = absurd (cc h)
same_eq (x ∷ xs) (y ∷ ys) h =
    let (first, rest) = and_parts (x == y) (same xs ys) h in
    rw ((eq_iff x y).0 first, same_eq xs ys rest) refl

same-below :
    (segments literal : List Str)
    → same segments literal ≡ true
    → below literal at_api ≡ false
    → below segments at_api ≡ false
same-below segments literal e h = ap (λ s. below s at_api) (same_eq segments literal e) ∙ h

-- Every route is the proxy's or another one.
is_proxy : Route → Bool
is_proxy Route.proxy = true
is_proxy _ = false

is_proxy_iff : (r : Route) → (r ≡ Route.proxy) ↔ (is_proxy r ≡ true)
unfolding is_proxy
is_proxy_iff Route.proxy = (λ e. refl, λ e. refl)
is_proxy_iff Route.authorize = (λ e. ap is_proxy e, λ e. absurd (cc e))
is_proxy_iff Route.mobile_authorize = (λ e. ap is_proxy e, λ e. absurd (cc e))
is_proxy_iff Route.callback = (λ e. ap is_proxy e, λ e. absurd (cc e))
is_proxy_iff Route.token = (λ e. ap is_proxy e, λ e. absurd (cc e))
is_proxy_iff Route.deauthorize = (λ e. ap is_proxy e, λ e. absurd (cc e))
is_proxy_iff Route.revoke = (λ e. ap is_proxy e, λ e. absurd (cc e))
is_proxy_iff Route.add_slash = (λ e. ap is_proxy e, λ e. absurd (cc e))
is_proxy_iff Route.method_not_allowed = (λ e. ap is_proxy e, λ e. absurd (cc e))
is_proxy_iff Route.not_found = (λ e. ap is_proxy e, λ e. absurd (cc e))

-- A route of an exact path outside the API is not the proxy's.
is_proxy-only :
    (path literal : List Str) (b : Bool) (r : Route) (c : Bool)
    → is_proxy r ≡ false
    → same path literal ≡ true
    → below literal at_api ≡ false
    → is_proxy (only b r) ≡ (below path at_api && c)
unfolding is_proxy
is_proxy-only path literal true r c n e h = n ∙ sym (rw (same-below path literal e h) refl)
is_proxy-only path literal false r c n e h = sym (rw (same-below path literal e h) refl)

abbrev IsOutside : List Str → Type 0
IsOutside literal = below literal at_api ≡ false

outside :
    IsOutside at_authorize
    × IsOutside at_mobile_authorize
    × IsOutside at_callback
    × IsOutside at_plain_token
    × IsOutside at_deauthorize
    × IsOutside at_revoke
unfolding below ◌==◌
outside = (refl, refl, refl, refl, refl, refl)

is_proxy-route :
    (method : Str) (path : List Str)
    → is_proxy (route method path) ≡ (below path at_api && not (is_token_post method path))
unfolding route is_proxy
is_proxy-route method path =
    let P = λ (r : Route). is_proxy r ≡ (below path at_api && not (is_token_post method path)) in
    let c = not (is_token_post method path) in
    branch P (same path at_authorize)
      (λ e. is_proxy-only path at_authorize (is_get method) Route.authorize c refl e (outside.0))
      (λ _.
        branch P (same path at_mobile_authorize)
          (λ e.
            is_proxy-only path at_mobile_authorize (is_get method) Route.mobile_authorize c refl e
              (outside.1))
          (λ _.
            branch P (same path at_callback)
              (λ e.
                is_proxy-only path at_callback (is_get method) Route.callback c refl e (outside.2))
              (λ _.
                branch P (same path at_plain_token)
                  (λ e.
                    is_proxy-only path at_plain_token (method == str "POST") Route.token c refl e
                      (outside.3))
                  (λ _.
                    branch P (same path at_deauthorize)
                      (λ e.
                        is_proxy-only path at_deauthorize (method == str "POST") Route.deauthorize c
                          refl e (outside.4))
                      (λ _.
                        branch P (same path at_revoke)
                          (λ e.
                            is_proxy-only path at_revoke (method == str "POST") Route.revoke c refl
                              e (outside.5))
                          (λ _.
                            branch P (is_token_post method path)
                              (λ e. sym (rw e (and_false (below path at_api))))
                              (λ d.
                                branch P (below path at_api) (λ e. sym (rw (e, d) refl))
                                  (λ e.
                                    branch P (same path at_api) (λ _. sym (rw e refl))
                                      (λ _. sym (rw e refl))))))))))

-- There is a segment after api and v3.
abbrev pub IsBelow : List Str → Type 0
IsBelow path = (first : Str) × (rest : List Str) × (path ≡ str "api" ∷ str "v3" ∷ first ∷ rest)

below-IsBelow : (path : List Str) → below path at_api ≡ true → IsBelow path
unfolding below
below-IsBelow [] h = absurd (cc h)
below-IsBelow (a ∷ []) h = absurd (cc ((and_parts (a == str "api") false h).1))
below-IsBelow (a ∷ v ∷ []) h = absurd (
    cc (
      (and_parts (v == str "v3") false
        ((and_parts (a == str "api") (v == str "v3" && false) h).1)).1))
below-IsBelow (a ∷ v ∷ first ∷ rest) h =
    let (api, h') = and_parts (a == str "api") (v == str "v3" && true) h in
    let (v3, _) = and_parts (v == str "v3") true h' in
    (first, rest, rw ((eq_iff a (str "api")).0 api, (eq_iff v (str "v3")).0 v3) refl)

IsBelow-below : (path : List Str) → IsBelow path → below path at_api ≡ true
unfolding below ◌==◌
IsBelow-below path (first, rest, e) = rw e refl

-- The request is a POST to the token endpoint of the API.
abbrev pub IsTokenPost : Str → List Str → Type 0
IsTokenPost method path =
    (path ≡ str "api" ∷ str "v3" ∷ str "oauth" ∷ str "token" ∷ []) × (method ≡ str "POST")

is_token_post-IsTokenPost :
    (method : Str) (path : List Str) → is_token_post method path ≡ true → IsTokenPost method path
is_token_post-IsTokenPost method path h =
    let (there, post) = and_parts (same path at_token) (method == str "POST") h in
    (same_eq path at_token there, (eq_iff method (str "POST")).0 post)

IsTokenPost-is_token_post :
    (method : Str) (path : List Str) → IsTokenPost method path → is_token_post method path ≡ true
unfolding same ◌==◌
IsTokenPost-is_token_post method path (there, post) = rw (there, post) refl

-- A request goes to the proxy exactly when the segments of its path are api, v3 and at least one
-- more, and it is not a POST with the segments api, v3, oauth and token, which is answered here.
pub route_proxied :
    (method : Str) (path : List Str)
    → (route method path ≡ Route.proxy) ↔ (IsBelow path × ¬ IsTokenPost method path)
route_proxied method path =
    let computed = is_proxy-route method path in
    (
      λ e.
          let both = sym computed ∙ (is_proxy_iff (route method path)).0 e in
          let (api, other) = and_parts (below path at_api) (not (is_token_post method path)) both in
          (
            below-IsBelow path api,
            λ t. absurd (cc (other, IsTokenPost-is_token_post method path t)),
          ),
      λ (api, other). elim (Bool-cases (is_token_post method path)) [
        | inl t ↦ absurd (other (is_token_post-IsTokenPost method path t))
        | inr f ↦
            (is_proxy_iff (route method path)).1 (computed ∙ rw (IsBelow-below path api, f) refl)
      ],
    )

-- The decoded path of some segments.
unfoldable pub joined : List Str → Str
joined [] = []
joined (s ∷ ss) = b'/' ∷ s ++ joined ss

-- The routes that Register installs.
unfoldable pub is_handler : Route → Bool
is_handler Route.proxy = false
is_handler Route.add_slash = false
is_handler Route.method_not_allowed = false
is_handler Route.not_found = false
is_handler _ = true

abbrev Hardened : List Str → Route → Type 0
Hardened path r = is_handler r ≡ true → is_oauth_surface (joined path) ≡ true

on_surface :
    (path literal : List Str)
    → is_oauth_surface (joined literal) ≡ true
    → same path literal ≡ true
    → (b : Bool) (r : Route) → Hardened path (only b r)
on_surface path literal h e b r _ =
    ap (λ s. is_oauth_surface (joined s)) (same_eq path literal e) ∙ h

abbrev IsInside : List Str → Type 0
IsInside literal = is_oauth_surface (joined literal) ≡ true

inside :
    IsInside at_authorize
    × IsInside at_mobile_authorize
    × IsInside at_callback
    × IsInside at_plain_token
    × IsInside at_deauthorize
    × IsInside at_revoke
    × IsInside at_token
unfolding is_oauth_surface has_prefix ◌==◌ joined
inside = (refl, refl, refl, refl, refl, refl, refl)

-- Every request that one of the OAuth handlers answers is on a path that the hardening headers are
-- set for.
pub route-IsSurface :
    (method : Str) (path : List Str)
    → is_handler (route method path) ≡ true
    → is_oauth_surface (joined path) ≡ true
unfolding route is_handler
route-IsSurface method path =
    let P = Hardened path in
    branch P (same path at_authorize)
      (λ e. on_surface path at_authorize (inside.0) e (is_get method) Route.authorize)
      (λ _.
        branch P (same path at_mobile_authorize)
          (λ e.
            on_surface path at_mobile_authorize (inside.1) e (is_get method) Route.mobile_authorize)
          (λ _.
            branch P (same path at_callback)
              (λ e. on_surface path at_callback (inside.2) e (is_get method) Route.callback)
              (λ _.
                branch P (same path at_plain_token)
                  (λ e.
                    on_surface path at_plain_token (inside.3) e (method == str "POST") Route.token)
                  (λ _.
                    branch P (same path at_deauthorize)
                      (λ e.
                        on_surface path at_deauthorize (inside.4) e (method == str "POST")
                          Route.deauthorize)
                      (λ _.
                        branch P (same path at_revoke)
                          (λ e.
                            on_surface path at_revoke (inside.5) e (method == str "POST")
                              Route.revoke)
                          (λ _.
                            branch P (is_token_post method path)
                              (λ e.
                                on_surface path at_token (inside.6)
                                  (and_parts (same path at_token) (method == str "POST") e).0 true
                                  Route.token)
                              (λ _.
                                branch P (below path at_api) (λ _ h. absurd (cc h))
                                  (λ _.
                                    branch P (same path at_api) (λ _ h. absurd (cc h))
                                      (λ _ h. absurd (cc h))))))))))
