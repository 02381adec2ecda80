-- ===== src/Fakestrava/Refinement.antt =====
-- The contract of the simulated Strava's grants, without counters, marks or names: which codes may be
-- exchanged, and which refresh tokens are valid.
use strava_auth_proxy.Go.Text.{itoa, Str, ◌==◌, eq_iff}
use strava_auth_proxy.Prelude.{
  All, ℕ, ◌+◌, ◌≡◌, refl, sym, ap, ◌∙◌, Bool, true, false, not, Option, none, some, List, ◌++◌,
  length, if◌then◌else◌, Bool-cases, Option-cases, inl, inr,
}
use strava_auth_proxy.Fakestrava.Names.{fresh_name, IsDrawn, IsNamed, suffix_length}
use strava_auth_proxy.Fakestrava.{new, Libraries, Marks, mark_of, set_mark, delete_mark}
use strava_auth_proxy.Fakestrava.Serve.{Event, run, Visit, serve}
use strava_auth_proxy.Fakestrava.Induction.{IsSound, run-IsMinted}
use mathlib.Core.Path.{subst}
use strava_auth_proxy.Fakestrava.Grants.{is_unused, is_valid, code_name, refresh_name}
use strava_auth_proxy.Fakestrava.Marks.{mark_of-set_mark, mark_of-delete_mark}
use strava_auth_proxy.Fakestrava.Book.{
  Book, book, Change, same, minted, exchanged, refreshed, rotated, revoked, serve-IsChange,
}
use strava_auth_proxy.Fakestrava.Invariant.{IsMinted, code_word, refresh_word}

-- The unused codes and the valid refresh tokens, as sets.
pub record Ledger : Type 0 where
  pub unused : Str → Bool
  pub valid : Str → Bool

-- A set with one member put in or taken out.
abbrev pub put : Str → Bool → (Str → Bool) → Str → Bool
put name b set x = if name == x then b else set x

-- What a request may do: nothing, add a code, turn a code into a token, turn a token into another
-- one, or take a token out. New codes and tokens are not in use.
pub data Step (l : Ledger) : Ledger → Type 0 where
  stay : Step l l
  authorize :
      (code : Str)
      → l.unused code ≡ false
      → Step l (record { unused = put code true l.unused; valid = l.valid })
  exchange :
      (code token : Str)
      → l.unused code ≡ true
      → l.valid token ≡ false
      → Step l (record { unused = put code false l.unused; valid = put token true l.valid })
  rotate :
      (old token : Str)
      → l.valid old ≡ true
      → l.valid token ≡ false
      → Step l (record { unused = l.unused; valid = put old false (put token true l.valid) })
  revoke : (token : Str) → Step l (record { unused = l.unused; valid = put token false l.valid })

abbrev unused_of : Marks → Str → Bool
unused_of m x = is_unused (mark_of m x)

abbrev valid_of : Marks → Str → Bool
valid_of m x = is_valid (mark_of m x)

abbrev pub view : Book → Ledger
view b = record { unused = unused_of b.codes; valid = valid_of b.tokens }

is_unused-if :
    (b : Bool) (x y : Option Bool)
    → is_unused (if b then x else y) ≡ (if b then is_unused x else is_unused y)
is_unused-if true x y = refl
is_unused-if false x y = refl

is_valid-if :
    (b : Bool) (x y : Option Bool)
    → is_valid (if b then x else y) ≡ (if b then is_valid x else is_valid y)
is_valid-if true x y = refl
is_valid-if false x y = refl

unused_of-set_mark :
    (m : Marks) (k : Str) (b : Bool) → unused_of (set_mark k b m) ≡ put k (not b) (unused_of m)
unused_of-set_mark m k true = λ i x.
    (ap is_unused (mark_of-set_mark m k true x) ∙ is_unused-if (k == x) (some true) (mark_of m x)) i
unused_of-set_mark m k false = λ i x.
    (ap is_unused (mark_of-set_mark m k false x) ∙ is_unused-if (k == x) (some false) (mark_of m x))
      i

valid_of-set_mark :
    (m : Marks) (k : Str) (b : Bool) → valid_of (set_mark k b m) ≡ put k b (valid_of m)
valid_of-set_mark m k true = λ i x.
    (ap is_valid (mark_of-set_mark m k true x) ∙ is_valid-if (k == x) (some true) (mark_of m x)) i
valid_of-set_mark m k false = λ i x.
    (ap is_valid (mark_of-set_mark m k false x) ∙ is_valid-if (k == x) (some false) (mark_of m x)) i

valid_of-delete_mark : (m : Marks) (k : Str) → valid_of (delete_mark k m) ≡ put k false (valid_of m)
valid_of-delete_mark m k =
    λ i x. (ap is_valid (mark_of-delete_mark m k x) ∙ is_valid-if (k == x) none (mark_of m x)) i

-- A set without a name is not changed by putting it in and out again.
put_twice :
    (name : Str) (set : Str → Bool) → set name ≡ false → put name false (put name true set) ≡ set
put_twice name set h = λ i x. go x i
  where
    go : (x : Str) → put name false (put name true set) x ≡ set x
    go x = elim (Bool-cases (name == x)) [
      | inl e ↦ rw e (sym (sym (ap set ((eq_iff name x).0 e)) ∙ h))
      | inr e ↦ rw e refl
    ]

-- The name of the next number has no mark.
next_unmarked :
    (word : Str) (seq : ℕ) (suffix : Str) (m : Marks)
    → length suffix ≡ suffix_length
    → ((name : Str) (b : Bool) → mark_of m name ≡ some b → IsNamed word seq name)
    → mark_of m (word ++ itoa (seq + 1) ++ suffix) ≡ none
next_unmarked word seq suffix m l named =
    let name = word ++ itoa (seq + 1) ++ suffix in
    elim (Option-cases (mark_of m name)) [
      | inl e ↦ e
      | inr (b, e) ↦ absurd (fresh_name word name seq suffix (named name b e) l refl)
    ]

abbrev ledger : (Str → Bool) → (Str → Bool) → Ledger
ledger u v = record { unused = u; valid = v }

ledger_path : {u u' v v' : Str → Bool} → u ≡ u' → v ≡ v' → ledger u v ≡ ledger u' v'
ledger_path e d = λ i. ledger (e i) (d i)

Change-Step : (old new : Book) → Change old new → IsMinted old → Step (view old) (view new)
Change-Step old new same h = stay
Change-Step old new (minted suffix l) (hc, ht) =
    let code = code_name (old.seq + 1) suffix in
    subst (Step (view old)) (ledger_path (sym (unused_of-set_mark old.codes code false)) refl)
      (authorize code (ap is_unused (next_unmarked code_word old.seq suffix old.codes l hc)))
Change-Step old new (exchanged code suffix l e) (hc, ht) =
    let token = refresh_name (old.seq + 1) suffix in
    subst (Step (view old))
      (ledger_path (sym (unused_of-set_mark old.codes code true))
        (sym (valid_of-set_mark old.tokens token true)))
      (exchange code token (ap is_unused e)
        (ap is_valid (next_unmarked refresh_word old.seq suffix old.tokens l ht)))
Change-Step old new (refreshed suffix l) (hc, ht) =
    let token = refresh_name (old.seq + 1) suffix in
    let unmarked = next_unmarked refresh_word old.seq suffix old.tokens l ht in
    subst (Step (view old))
      (ledger_path refl (
        sym (
          valid_of-delete_mark (set_mark token true old.tokens) token
          ∙ ap (put token false) (valid_of-set_mark old.tokens token true)
          ∙ put_twice token (valid_of old.tokens) (ap is_valid unmarked))))
      stay
Change-Step old new (rotated presented suffix l e) (hc, ht) =
    let token = refresh_name (old.seq + 1) suffix in
    subst (Step (view old))
      (ledger_path refl (
        sym (
          valid_of-delete_mark (set_mark token true old.tokens) presented
          ∙ ap (put presented false) (valid_of-set_mark old.tokens token true))))
      (rotate presented token (ap is_valid e)
        (ap is_valid (next_unmarked refresh_word old.seq suffix old.tokens l ht)))
Change-Step old new (revoked token) h =
    subst (Step (view old)) (ledger_path refl (sym (valid_of-delete_mark old.tokens token)))
      (revoke token)

-- In a run of a new server, whose random source gives its bytes, every further request is a step of
-- the contract: seen as the set of unused codes and the set of valid refresh tokens, the state
-- changes by a new code, by a code turned into a new token, by a token turned into a new one, by a
-- token taken out, or not at all.
pub serve-IsStep :
    (lib : Libraries) (athlete id secret : Str) (events : List Event) (v : Visit)
    → All IsSound events
    → IsDrawn v.moment
    → let s = run lib athlete events (new athlete id secret) in
      Step (view (book s)) (view (book (serve lib v s).0))
serve-IsStep lib athlete id secret events v sound drawn =
    let s = run lib athlete events (new athlete id secret) in
    Change-Step (book s) (book (serve lib v s).0) (serve-IsChange lib v s drawn)
      (run-IsMinted lib athlete id secret events sound)
