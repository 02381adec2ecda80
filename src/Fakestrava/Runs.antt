-- ===== src/Fakestrava/Runs.antt =====
-- Whole runs of the simulated Strava, from a new server on: codes are used once, and a token that was
-- revoked or rotated away is refused from then on.
use strava_auth_proxy.Fakestrava.Names.{fresh_name, IsNamed-weaken, IsDrawn, IsNamed}
use strava_auth_proxy.Fakestrava.Marks.{
  differs, mark_of-delete_mark_self, mark_of-delete_mark_ne, mark_of-set_mark_self,
}
use strava_auth_proxy.Fakestrava.Invariant.{
  refresh_word, IsMinted, IsBurnt, IsRetired, Change-IsMinted,
}
use strava_auth_proxy.Fakestrava.Book.{
  exchange_code-Leads, is_refreshable_mark, refreshable_filled, suffix'_sized, book,
}
use strava_auth_proxy.Oauth.Revoke.{basic_auth}
use strava_auth_proxy.Prelude.{
  ◌+◌, and_false, is_empty, ◌≡◌, refl, true, false, not, List, All, arith,
}
use strava_auth_proxy.Go.Text.{Str, str, ◌==◌}
use strava_auth_proxy.Go.Http.{Request, Response}
use strava_auth_proxy.Go.Values.{get}
use strava_auth_proxy.Fakestrava.{Server, Libraries, set_mark, new, write_fault, invalid}
use strava_auth_proxy.Fakestrava.Grants.{
  Moment, is_exchangeable, is_refreshable, exchange_code, refresh, refresh_name, random_suffix,
  handle_revoke, is_application, issue_tokens,
}
use strava_auth_proxy.Fakestrava.Serve.{Event, run}
use strava_auth_proxy.Fakestrava.Induction.{IsSound, run-IsMinted, run-IsBurnt, run-IsRetired}

module _ (lib : Libraries) (athlete : Str) where
  refuse_burnt :
      (code : Str) (m : Moment) (s : Server) (w : Response)
      → IsBurnt code (book s)
      → exchange_code lib m code s w ≡ (
        s,
        write_fault 400 (str "Bad Request") (invalid (str "AuthorizationCode") (str "code")) w,
      )
  unfolding exchange_code is_exchangeable
  refuse_burnt code m s w b = rw b refl

  exchange_code-burns :
      (code : Str) (m : Moment) (s : Server) (w : Response)
      → is_exchangeable s code ≡ true
      → IsBurnt code (book (exchange_code lib m code s w).0)
  unfolding exchange_code issue_tokens
  exchange_code-burns code m s w h = rw (h, mark_of-set_mark_self s.codes code true) refl

  refuse_retired :
      (token : Str) (m : Moment) (s : Server) (w : Response)
      → IsRetired token (book s)
      → refresh lib m token s w ≡ (
        s,
        write_fault 400 (str "Bad Request") (invalid (str "RefreshToken") (str "refresh_token")) w,
      )
  unfolding refresh is_refreshable
  refuse_retired token m s w (named, e) = rw (e, and_false (not (is_empty token))) refl

  -- A token that can be refreshed was minted.
  refreshable-IsNamed :
      (token : Str) (s : Server)
      → is_refreshable s token ≡ true
      → IsMinted (book s)
      → IsNamed refresh_word s.seq token
  refreshable-IsNamed token s h (hc, ht) = ht token true (is_refreshable_mark s token h)

  revoke-IsRetired :
      (r : Request) (s : Server) (w : Response)
      → is_application s (basic_auth r.header) ≡ true
      → is_refreshable s (get (lib.form r) (str "token")) ≡ true
      → IsMinted (book s)
      → IsRetired (get (lib.form r) (str "token")) (book (handle_revoke lib r s w).0)
  unfolding handle_revoke
  revoke-IsRetired r s w app h hs =
      let token = get (lib.form r) (str "token") in
      rw (app, refreshable_filled s token h)
        (refreshable-IsNamed token s h hs, mark_of-delete_mark_self s.refresh_tokens token)

  refresh-IsRetired :
      (token : Str) (m : Moment) (s : Server) (w : Response)
      → s.rotate_refresh ≡ true
      → is_refreshable s token ≡ true
      → IsMinted (book s)
      → IsRetired token (book (refresh lib m token s w).0)
  unfolding refresh issue_tokens
  refresh-IsRetired token m s w rot h hs =
      rw (h, rot)
        (
          IsNamed-weaken refresh_word token s.seq (s.seq + 1) (omega arith)
              (refreshable-IsNamed token s h hs),
          mark_of-delete_mark_self
              (set_mark (refresh_name (s.seq + 1) (random_suffix m.random')) true s.refresh_tokens)
              token,
        )

  -- The token that is issued for another one differs from it.
  other_token :
      (token : Str) (s : Server) (m : Moment)
      → IsDrawn m
      → is_refreshable s token ≡ true
      → IsMinted (book s)
      → (token == refresh_name (s.seq + 1) (random_suffix m.random')) ≡ false
  other_token token s m drawn h hs =
      differs token (refresh_name (s.seq + 1) (random_suffix m.random')) (
        fresh_name refresh_word token s.seq (random_suffix m.random')
          (refreshable-IsNamed token s h hs) (suffix'_sized lib m drawn))

  refresh-IsRefreshable :
      (token : Str) (m : Moment) (s : Server) (w : Response)
      → IsDrawn m
      → s.rotate_refresh ≡ true
      → is_refreshable s token ≡ true
      → IsMinted (book s)
      → is_refreshable
          (refresh lib m token s w).0
          (refresh_name (s.seq + 1) (random_suffix m.random'))
        ≡ true
  unfolding refresh issue_tokens is_refreshable
  refresh-IsRefreshable token m s w drawn rot h hs =
      let made = refresh_name (s.seq + 1) (random_suffix m.random') in
      let kept =
        mark_of-delete_mark_ne (set_mark made true s.refresh_tokens) token made
          (other_token token s m drawn h hs) in
      rw (h, rot, kept, mark_of-set_mark_self s.refresh_tokens made true) refl

  -- In every run of a new server whose random source gives its bytes: once a code that can be
  -- exchanged was exchanged, then whatever requests follow and whatever knobs are turned, an
  -- exchange of the same code leaves the server as it is and answers the 400 fault for the code.
  pub run-exchange_code_once :
      (id secret code : Str) (before after : List Event) (m m' : Moment) (w w' : Response)
      → All IsSound before
      → All IsSound after
      → IsDrawn m
      → let s = run lib athlete before (new athlete id secret) in
        is_exchangeable s code ≡ true
        → let later = run lib athlete after (exchange_code lib m code s w).0 in
          exchange_code lib m' code later w' ≡ (
            later,
            write_fault 400 (str "Bad Request") (invalid (str "AuthorizationCode") (str "code")) w',
          )
  run-exchange_code_once id secret code before after m m' w w' hb ha drawn h =
      let s = run lib athlete before (new athlete id secret) in
      let hs =
        Change-IsMinted {old = book s} {new = book (exchange_code lib m code s w).0}
          (exchange_code-Leads lib m drawn code s w)
          (run-IsMinted lib athlete id secret before hb) in
      refuse_burnt code m' (run lib athlete after (exchange_code lib m code s w).0) w' (
        run-IsBurnt lib athlete code after (exchange_code lib m code s w).0 ha hs
          (exchange_code-burns code m s w h))

  -- In every run of a new server whose random source gives its bytes: once the application has
  -- revoked a token that could be refreshed, then whatever requests follow and whatever knobs are
  -- turned, a refresh with it leaves the server as it is and answers the 400 fault for the token.
  pub run-handle_revoke-refresh :
      (id secret : Str) (before after : List Event) (r : Request) (m : Moment) (w w' : Response)
      → All IsSound before
      → All IsSound after
      → let s = run lib athlete before (new athlete id secret) in
        let token = get (lib.form r) (str "token") in
        is_application s (basic_auth r.header) ≡ true
        → is_refreshable s token ≡ true
        → let later = run lib athlete after (handle_revoke lib r s w).0 in
          refresh lib m token later w' ≡ (
            later,
            write_fault 400
                (str "Bad Request")
                (invalid (str "RefreshToken") (str "refresh_token"))
                w',
          )
  run-handle_revoke-refresh id secret before after r m w w' hb ha app h =
      let s = run lib athlete before (new athlete id secret) in
      let token = get (lib.form r) (str "token") in
      refuse_retired token m (run lib athlete after (handle_revoke lib r s w).0) w' (
        run-IsRetired lib athlete token after (handle_revoke lib r s w).0 ha
          (revoke-IsRetired r s w app h (run-IsMinted lib athlete id secret before hb)))

  -- In every run of a new server whose random source gives its bytes, while it rotates refresh
  -- tokens: once a token that can be refreshed was presented, the token that was issued for it can
  -- be refreshed; and whatever requests follow and whatever knobs are turned, a refresh with the old
  -- one leaves the server as it is and answers the 400 fault for the token.
  pub run-refresh_rotates :
      (id secret token : Str) (before after : List Event) (m m' : Moment) (w w' : Response)
      → All IsSound before
      → All IsSound after
      → IsDrawn m
      → let s = run lib athlete before (new athlete id secret) in
        s.rotate_refresh ≡ true
        → is_refreshable s token ≡ true
        → let after_it = (refresh lib m token s w).0 in
          let later = run lib athlete after after_it in
          (is_refreshable after_it (refresh_name (s.seq + 1) (random_suffix m.random')) ≡ true)
          × (refresh lib m' token later w' ≡ (
            later,
            write_fault 400
                (str "Bad Request")
                (invalid (str "RefreshToken") (str "refresh_token"))
                w',
          ))
  run-refresh_rotates id secret token before after m m' w w' hb ha drawn rot h =
      let s = run lib athlete before (new athlete id secret) in
      let hs = run-IsMinted lib athlete id secret before hb in
      (
        refresh-IsRefreshable token m s w drawn rot h hs,
        refuse_retired token m' (run lib athlete after (refresh lib m token s w).0) w' (
            run-IsRetired lib athlete token after (refresh lib m token s w).0 ha
              (refresh-IsRetired token m s w rot h hs)),
      )
