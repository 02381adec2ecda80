-- ===== src/Fakestrava/Invariant.antt =====
-- What holds of the book over every run of the simulated Strava: its names carry numbers that were
-- counted, a used code stays used, and a token that left does not come back.
use strava_auth_proxy.Fakestrava.Marks.{
  mark_of-set_mark_ne, mark_of-delete_mark_self, mark_of-delete_mark_ne, delete_mark-none, differs,
}
use mathlib.Core.Path.{subst}
use strava_auth_proxy.Prelude.{
  inl, ℕ, ◌+◌, ◌≡◌, ◌≢◌, refl, sym, ◌∙◌, Bool, true, false, none, some, ◌++◌, arith, length,
  Bool-cases, inr,
}
use strava_auth_proxy.Go.Text.{Str, str, ◌==◌, eq_iff, itoa}
use strava_auth_proxy.Fakestrava.{Marks, mark_of, set_mark, delete_mark}
use strava_auth_proxy.Fakestrava.Grants.{code_name, refresh_name}
use strava_auth_proxy.Fakestrava.Names.{IsNamed, IsNamed-weaken, fresh_name, suffix_length}
use strava_auth_proxy.Fakestrava.Book.{
  Book, Change, same, minted, exchanged, refreshed, rotated, revoked,
}

abbrev pub code_word : Str
code_word = str "fakecode"

abbrev pub refresh_word : Str
refresh_word = str "fakerefresh"

-- Every name of the marks carries a number up to `seq`.
abbrev AllNamed : Str → ℕ → Marks → Type 0
AllNamed word seq m = (name : Str) (b : Bool) → mark_of m name ≡ some b → IsNamed word seq name

abbrev pub IsMinted : Book → Type 0
IsMinted b = AllNamed code_word b.seq b.codes × AllNamed refresh_word b.seq b.tokens

module _ (word : Str) where
  AllNamed-count : (n : ℕ) (m : Marks) → AllNamed word n m → AllNamed word (n + 1) m
  AllNamed-count n m h name b e = IsNamed-weaken word name n (n + 1) (omega arith) (h name b e)

  AllNamed-set_mark :
      (n : ℕ) (k : Str) (c : Bool) (m : Marks)
      → IsNamed word n k
      → AllNamed word n m
      → AllNamed word n (set_mark k c m)
  AllNamed-set_mark n k c m hk h name b e = elim (Bool-cases (k == name)) [
    | inl d ↦ subst (λ x. IsNamed word n x) ((eq_iff k name).0 d) hk
    | inr d ↦ h name b (sym (mark_of-set_mark_ne m k c name d) ∙ e)
  ]

  gone :
      (k : Str) (m : Marks) (name : Str) (b : Bool)
      → (k == name) ≡ true
      → mark_of (delete_mark k m) name ≢ some b
  gone k m name b d e = ground (arith, mark_of-delete_mark_self m k, eq_iff k name)

  AllNamed-delete_mark :
      (n : ℕ) (k : Str) (m : Marks) → AllNamed word n m → AllNamed word n (delete_mark k m)
  AllNamed-delete_mark n k m h name b e = elim (Bool-cases (k == name)) [
    | inl d ↦ absurd (gone k m name b d e)
    | inr d ↦ h name b (sym (mark_of-delete_mark_ne m k name d) ∙ e)
  ]

  IsNamed-next :
      (n : ℕ) (suffix : Str)
      → length suffix ≡ suffix_length
      → IsNamed word (n + 1) (word ++ itoa (n + 1) ++ suffix)
  IsNamed-next n suffix l = (n + 1, suffix, omega arith, l, refl)

AllNamed-fresh :
    (old : Book) (suffix : Str)
    → length suffix ≡ suffix_length
    → AllNamed refresh_word old.seq old.tokens
    → AllNamed refresh_word
        (old.seq + 1)
        (set_mark (refresh_name (old.seq + 1) suffix) true old.tokens)
AllNamed-fresh old suffix l h =
    AllNamed-set_mark refresh_word (old.seq + 1) (refresh_name (old.seq + 1) suffix) true old.tokens
      (IsNamed-next refresh_word old.seq suffix l)
      (AllNamed-count refresh_word old.seq old.tokens h)

pub Change-IsMinted : {old new : Book} → Change old new → IsMinted old → IsMinted new
Change-IsMinted same h = h
Change-IsMinted {old = old} (minted suffix l) (hc, ht) = (
  AllNamed-set_mark code_word (old.seq + 1) (code_name (old.seq + 1) suffix) false old.codes
      (IsNamed-next code_word old.seq suffix l) (AllNamed-count code_word old.seq old.codes hc),
  AllNamed-count refresh_word old.seq old.tokens ht,
)
Change-IsMinted {old = old} (exchanged code suffix l e) (hc, ht) = (
  AllNamed-set_mark code_word (old.seq + 1) code true old.codes
      (IsNamed-weaken code_word code old.seq (old.seq + 1) (omega arith) (hc code false e))
      (AllNamed-count code_word old.seq old.codes hc),
  AllNamed-fresh old suffix l ht,
)
Change-IsMinted {old = old} (refreshed suffix l) (hc, ht) = (
  AllNamed-count code_word old.seq old.codes hc,
  AllNamed-delete_mark refresh_word (old.seq + 1) (refresh_name (old.seq + 1) suffix)
      (set_mark (refresh_name (old.seq + 1) suffix) true old.tokens)
      (AllNamed-fresh old suffix l ht),
)
Change-IsMinted {old = old} (rotated presented suffix l e) (hc, ht) = (
  AllNamed-count code_word old.seq old.codes hc,
  AllNamed-delete_mark refresh_word (old.seq + 1) presented
      (set_mark (refresh_name (old.seq + 1) suffix) true old.tokens)
      (AllNamed-fresh old suffix l ht),
)
Change-IsMinted {old = old} (revoked token) (hc, ht) =
    (hc, AllNamed-delete_mark refresh_word old.seq token old.tokens ht)

burnt_unused :
    (m : Marks) (other code : Str)
    → (other == code) ≡ true
    → mark_of m other ≡ some false
    → mark_of m code ≢ some true
burnt_unused m other code d e b = ground (arith, eq_iff other code)

-- A code that was used.
abbrev pub IsBurnt : Str → Book → Type 0
IsBurnt code b = mark_of b.codes code ≡ some true

-- A token that was minted and is not valid any more.
abbrev pub IsRetired : Str → Book → Type 0
IsRetired token b = IsNamed refresh_word b.seq token × (mark_of b.tokens token ≡ none)

pub new_differs :
    (word name : Str) (seq : ℕ) (suffix : Str)
    → IsNamed word seq name
    → length suffix ≡ suffix_length
    → ((word ++ itoa (seq + 1) ++ suffix) == name) ≡ false
new_differs word name seq suffix h l =
    differs (word ++ itoa (seq + 1) ++ suffix) name
      (λ e. fresh_name word name seq suffix h l (sym e))

pub Change-IsBurnt :
    (code : Str) {old new : Book}
    → Change old new
    → IsMinted old
    → IsBurnt code old
    → IsBurnt code new
Change-IsBurnt code same h b = b
Change-IsBurnt code {old = old} (minted suffix l) (hc, ht) b =
    mark_of-set_mark_ne old.codes (code_name (old.seq + 1) suffix) false code
      (new_differs code_word code old.seq suffix (hc code true b) l)
    ∙ b
Change-IsBurnt code {old = old} (exchanged other suffix l e) h b =
    elim (Bool-cases (other == code)) [
      | inl d ↦ absurd (burnt_unused old.codes other code d e b)
      | inr d ↦ mark_of-set_mark_ne old.codes other true code d ∙ b
    ]
Change-IsBurnt code (refreshed suffix l) h b = b
Change-IsBurnt code (rotated presented suffix l e) h b = b
Change-IsBurnt code (revoked token) h b = b

-- The tokens after a new one: those that were minted before are marked as they were.
fresh_keeps :
    (old : Book) (token suffix : Str)
    → length suffix ≡ suffix_length
    → IsRetired token old
    → mark_of (set_mark (refresh_name (old.seq + 1) suffix) true old.tokens) token ≡ none
fresh_keeps old token suffix l (named, e) =
    mark_of-set_mark_ne old.tokens (refresh_name (old.seq + 1) suffix) true token
      (new_differs refresh_word token old.seq suffix named l)
    ∙ e

pub Change-IsRetired :
    (token : Str) {old new : Book} → Change old new → IsRetired token old → IsRetired token new
Change-IsRetired token same h = h
Change-IsRetired token {old = old} (minted suffix l) (named, e) =
    (IsNamed-weaken refresh_word token old.seq (old.seq + 1) (omega arith) named, e)
Change-IsRetired token {old = old} (exchanged code suffix l d) (named, e) = (
  IsNamed-weaken refresh_word token old.seq (old.seq + 1) (omega arith) named,
  fresh_keeps old token suffix l (named, e),
)
Change-IsRetired token {old = old} (refreshed suffix l) (named, e) =
    let made = refresh_name (old.seq + 1) suffix in
    (
      IsNamed-weaken refresh_word token old.seq (old.seq + 1) (omega arith) named,
      delete_mark-none (set_mark made true old.tokens) made token
          (fresh_keeps old token suffix l (named, e)),
    )
Change-IsRetired token {old = old} (rotated presented suffix l d) (named, e) = (
  IsNamed-weaken refresh_word token old.seq (old.seq + 1) (omega arith) named,
  delete_mark-none (set_mark (refresh_name (old.seq + 1) suffix) true old.tokens) presented token
      (fresh_keeps old token suffix l (named, e)),
)
Change-IsRetired token {old = old} (revoked other) (named, e) =
    (named, delete_mark-none old.tokens other token e)
