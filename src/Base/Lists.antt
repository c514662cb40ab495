-- ===== src/Base/Lists.antt =====
-- Python's lists of texts, and lengths over the native numbers.
use Prim.Native.Nat.{ℕ, zero, suc, ◌+◌, ◌<◌}
use Prim.Native.String.{String}
use mathlib.Core.Path.{◌≡◌}
use mathlib.Core.Bool.{Bool, true, false, ◌||◌, ◌&&◌}
use mathlib.Core.Option.{Option, none, some}
use mathlib.Core.List.{List, [], ◌∷◌, ◌++◌}
use native.Mathlib.Omega.{arith}
use text.Mathlib.Text.{◌==◌}
use text.Mathlib.TextEquality.{eq_iff}
use text.Mathlib.TextPositions.{eq_refl}
use cross_format_documment.Base.Tests.{if◌then◌else◌}

module _ {ℓ} {A : Type ℓ} where
  abbrev pub length : List A → ℕ
  length [] = 0
  length (x ∷ xs) = suc (length xs)

  abbrev pub get_elem? : List A → ℕ → Option A
  get_elem? [] i = none
  get_elem? (x ∷ xs) zero = some x
  get_elem? (x ∷ xs) (suc i) = get_elem? xs i

  -- `xs.insert(i, x)` for a place `i` of the list
  abbrev pub insert_at : ℕ → A → List A → List A
  insert_at zero x ys = x ∷ ys
  insert_at (suc i) x [] = x ∷ []
  insert_at (suc i) x (y ∷ ys) = y ∷ insert_at i x ys

  -- `any(p(x) for x in xs)`
  abbrev pub any_of : (A → Bool) → List A → Bool
  any_of p [] = false
  any_of p (x ∷ xs) = p x || any_of p xs

  -- `all(p(x) for x in xs)`
  abbrev pub all_of : (A → Bool) → List A → Bool
  all_of p [] = true
  all_of p (x ∷ xs) = p x && all_of p xs

  -- `[x for x in xs if p(x)]`
  abbrev pub keep : (A → Bool) → List A → List A
  keep p [] = []
  keep p (x ∷ xs) = let rest = keep p xs in if p x then x ∷ rest else rest

  -- Every item has the property.
  abbrev pub All {κ} : (A → Type κ) → List A → Type κ
  All P [] = Unit
  All P (x ∷ xs) = P x × All P xs

  pub All-append {κ} : (P : A → Type κ) (xs ys : List A) → All P xs → All P ys → All P (xs ++ ys)
  All-append P [] ys all more = more
  All-append P (x ∷ xs) ys (here, all) more = (here, All-append P xs ys all more)

  pub All-split {κ} : (P : A → Type κ) (xs ys : List A) → All P (xs ++ ys) → All P xs × All P ys
  All-split P [] ys all = (tt, all)
  All-split P (x ∷ xs) ys (here, all) =
      let (front, back) = All-split P xs ys all in ((here, front), back)

  pub length-append : (xs ys : List A) → length (xs ++ ys) ≡ length xs + length ys
  length-append [] ys = omega arith
  length-append (x ∷ xs) ys = omega (arith, length-append xs ys)

-- `a in xs`
abbrev pub contains : String → List String → Bool
contains a [] = false
contains a (x ∷ xs) = if x == a then true else contains a xs

-- `xs.remove(a)` where `a` is in `xs`: the first occurrence goes
abbrev pub remove : String → List String → List String
remove a [] = []
remove a (x ∷ xs) = if x == a then xs else x ∷ remove a xs

-- `xs.index(a)` where `a` is in `xs`
abbrev pub index_of : String → List String → ℕ
index_of a [] = 0
index_of a (x ∷ xs) = if x == a then 0 else suc (index_of a xs)

-- What stands at its index is put back by an insertion there.
pub insert_at-remove :
    (a : String) (xs : List String)
    → contains a xs ≡ true
    → insert_at (index_of a xs) a (remove a xs) ≡ xs
insert_at-remove a [] h = cc
insert_at-remove a (x ∷ xs) h = ground (arith, eq_iff x a, insert_at-remove a xs)

-- An insertion of what was not there is undone by the removal.
pub remove-insert_at :
    (i : ℕ) (a : String) (xs : List String)
    → contains a xs ≡ false
    → remove a (insert_at i a xs) ≡ xs
remove-insert_at zero a xs h = ground (arith, eq_refl a)
remove-insert_at (suc i) a [] h = ground (arith, eq_refl a)
remove-insert_at (suc i) a (x ∷ xs) h = ground (arith, remove-insert_at i a xs)

pub contains-insert_at :
    (i : ℕ) (a : String) (xs : List String) → contains a (insert_at i a xs) ≡ true
contains-insert_at zero a xs = ground (arith, eq_refl a)
contains-insert_at (suc i) a [] = ground (arith, eq_refl a)
contains-insert_at (suc i) a (x ∷ xs) = ground (arith, contains-insert_at i a xs)

pub contains-append_self : (a : String) (xs : List String) → contains a (xs ++ a ∷ []) ≡ true
contains-append_self a [] = ground (arith, eq_refl a)
contains-append_self a (x ∷ xs) = ground (arith, contains-append_self a xs)

-- A text that was not there and is appended is removed again.
pub remove-append_self :
    (a : String) (xs : List String) → contains a xs ≡ false → remove a (xs ++ a ∷ []) ≡ xs
remove-append_self a [] h = ground (arith, eq_refl a)
remove-append_self a (x ∷ xs) h = ground (arith, remove-append_self a xs)

pub index_of-lt-length :
    (a : String) (xs : List String) → contains a xs ≡ true → index_of a xs < length xs
index_of-lt-length a [] h = cc
index_of-lt-length a (x ∷ xs) h = ground (arith, index_of-lt-length a xs)

pub length-remove :
    (a : String) (xs : List String) → contains a xs ≡ true → length (remove a xs) + 1 ≡ length xs
length-remove a [] h = cc
length-remove a (x ∷ xs) h = ground (arith, length-remove a xs)

pub length-insert_at {ℓ} :
    {A : Type ℓ} (i : ℕ) (a : A) (xs : List A) → length (insert_at i a xs) ≡ length xs + 1
length-insert_at zero a xs = omega arith
length-insert_at (suc i) a [] = omega arith
length-insert_at (suc i) a (x ∷ xs) = omega (arith, length-insert_at i a xs)
