-- ===== src/Fakestrava/Marks.antt =====
-- The marks of codes and tokens: what a name is marked with after each operation on them.
use strava_auth_proxy.Prelude.{
  ◌≡◌, ◌≢◌, refl, Bool, true, false, Option, none, some, [], ◌∷◌, arith, if◌then◌else◌,
}
use strava_auth_proxy.Go.Text.{Str, ◌==◌, eq_iff, eq_refl}
use strava_auth_proxy.Fakestrava.{Marks, mark_of, set_mark, delete_mark}
use strava_auth_proxy.Fakestrava.Grants.{is_unused, is_valid}

pub mark_of-set_mark :
    (m : Marks) (k : Str) (b : Bool) (j : Str)
    → mark_of (set_mark k b m) j ≡ (if k == j then some b else mark_of m j)
unfolding mark_of set_mark
mark_of-set_mark [] k b j = refl
mark_of-set_mark ((i, c) ∷ m) k b j =
    ground (arith, mark_of-set_mark m k b j, eq_iff i k, eq_iff i j, eq_iff k j)

pub mark_of-delete_mark :
    (m : Marks) (k j : Str) → mark_of (delete_mark k m) j ≡ (if k == j then none else mark_of m j)
unfolding mark_of delete_mark
mark_of-delete_mark [] k j = ground arith
mark_of-delete_mark ((i, c) ∷ m) k j =
    ground (arith, mark_of-delete_mark m k j, eq_iff i k, eq_iff i j, eq_iff k j)

pub unused_mark : (o : Option Bool) → is_unused o ≡ true → o ≡ some false
unused_mark none h = ground arith
unused_mark (some false) h = refl
unused_mark (some true) h = ground arith

pub valid_mark : (o : Option Bool) → is_valid o ≡ true → o ≡ some true
valid_mark none h = ground arith
valid_mark (some true) h = refl
valid_mark (some false) h = ground arith

pub mark_of-set_mark_self : (m : Marks) (k : Str) (b : Bool) → mark_of (set_mark k b m) k ≡ some b
mark_of-set_mark_self m k b = rw (mark_of-set_mark, eq_refl k)

pub mark_of-set_mark_ne :
    (m : Marks) (k : Str) (b : Bool) (j : Str)
    → (k == j) ≡ false
    → mark_of (set_mark k b m) j ≡ mark_of m j
mark_of-set_mark_ne m k b j h = rw (mark_of-set_mark, h)

pub mark_of-delete_mark_self : (m : Marks) (k : Str) → mark_of (delete_mark k m) k ≡ none
mark_of-delete_mark_self m k = rw (mark_of-delete_mark, eq_refl k)

pub mark_of-delete_mark_ne :
    (m : Marks) (k j : Str) → (k == j) ≡ false → mark_of (delete_mark k m) j ≡ mark_of m j
mark_of-delete_mark_ne m k j h = rw (mark_of-delete_mark, h)

-- A name that has no mark gets none from a deletion.
pub delete_mark-none :
    (m : Marks) (k j : Str) → mark_of m j ≡ none → mark_of (delete_mark k m) j ≡ none
delete_mark-none m k j h = ground (arith, mark_of-delete_mark m k j)

-- A test that two names fail is a disequality.
pub differs : (k j : Str) → k ≢ j → (k == j) ≡ false
differs k j n = ground (arith, eq_iff k j)
