-- ===== src/Fakestrava/Induction.antt =====
-- What every request keeps, whole runs keep: the invariants of the book along a run.
use strava_auth_proxy.Fakestrava.Names.{IsDrawn}
use strava_auth_proxy.Fakestrava.Invariant.{
  IsMinted, IsBurnt, IsRetired, Change-IsMinted, Change-IsBurnt, Change-IsRetired,
}
use strava_auth_proxy.Fakestrava.Book.{Book, book, Change, serve-IsChange, book-turn}
use strava_auth_proxy.Prelude.{sym, List, [], ◌∷◌, All}
use mathlib.Core.Path.{subst}
use strava_auth_proxy.Go.Text.{Str}
use strava_auth_proxy.Fakestrava.{Server, Libraries, mark_of, new, turn}
use strava_auth_proxy.Fakestrava.Serve.{Event, run, visit, knob, serve}

-- The random source gives its bytes at every request.
abbrev pub IsSound : Event → Type 0
IsSound (visit v) = IsDrawn v.moment
IsSound (knob k) = Unit

module _ (lib : Libraries) (athlete : Str) where
  -- What every change of the book keeps, a run keeps.
  run-invariant :
      (P : Book → Type 0)
      → ((old new : Book) → Change old new → P old → P new)
      → (events : List Event) (s : Server) → All IsSound events
      → P (book s)
      → P (book (run lib athlete events s))
  unfolding run
  run-invariant P keeps [] s sound p = p
  run-invariant P keeps (visit v ∷ events) s (drawn, sound) p =
      run-invariant P keeps events (serve lib v s).0 sound
        (keeps (book s) (book (serve lib v s).0) (serve-IsChange lib v s drawn) p)
  run-invariant P keeps (knob k ∷ events) s (_, sound) p =
      run-invariant P keeps events (turn athlete k s) sound
        (subst P (sym (book-turn athlete k s)) p)

  -- Over every run of a new server whose random source gives its bytes, every code and every refresh
  -- token that the server has a mark for carries a number that it has counted.
  pub run-IsMinted :
      (id secret : Str) (events : List Event)
      → All IsSound events
      → IsMinted (book (run lib athlete events (new athlete id secret)))
  unfolding new mark_of
  run-IsMinted id secret events sound =
      run-invariant IsMinted (λ old new c. Change-IsMinted {old = old} {new = new} c) events
        (new athlete id secret) sound ((λ name b e. absurd (cc e)), (λ name b e. absurd (cc e)))

  pub run-IsBurnt :
      (code : Str) (events : List Event) (s : Server)
      → All IsSound events
      → IsMinted (book s)
      → IsBurnt code (book s)
      → IsBurnt code (book (run lib athlete events s))
  run-IsBurnt code events s sound h b =
      (run-invariant (λ k. IsMinted k × IsBurnt code k)
        (λ old new c p. (
          Change-IsMinted {old = old} {new = new} c p.0,
          Change-IsBurnt code {old = old} {new = new} c p.0 p.1,
        ))
        events s sound (h, b)).1

  pub run-IsRetired :
      (token : Str) (events : List Event) (s : Server)
      → All IsSound events
      → IsRetired token (book s)
      → IsRetired token (book (run lib athlete events s))
  run-IsRetired token events s sound h =
      run-invariant (IsRetired token)
        (λ old new c. Change-IsRetired token {old = old} {new = new} c) events s sound h
