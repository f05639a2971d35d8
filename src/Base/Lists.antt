-- ===== src/Base/Lists.antt =====
-- Lists measured and searched with native numbers and Boolean tests.
use Prim.Native.Nat.{ℕ, zero, suc, ◌+◌, min}
use mathlib.Core.Path.{◌≡◌, refl}
use mathlib.Core.Bool.{Bool, true, false, ◌&&◌, ◌||◌}
use mathlib.Core.List.{List, [], ◌∷◌, ◌++◌}
use mathlib.Core.Option.{Option, none, some}
use native.Mathlib.Omega.{arith}
use rd_shop_backend.Base.Tests.{◌==◌, if◌then◌else◌}

module _ {ℓ} {A : Type ℓ} where
  abbrev pub length : List A → ℕ
  length [] = 0
  length (x ∷ xs) = suc (length xs)

  abbrev pub take : ℕ → List A → List A
  take zero xs = []
  take (suc n) [] = []
  take (suc n) (x ∷ xs) = x ∷ take n xs

  abbrev pub drop : ℕ → List A → List A
  drop zero xs = xs
  drop (suc n) [] = []
  drop (suc n) (x ∷ xs) = drop n xs

  -- `xs.every(p)`
  abbrev pub all : (A → Bool) → List A → Bool
  all p [] = true
  all p (x ∷ xs) = p x && all p xs

  -- `xs.some(p)`
  abbrev pub any : (A → Bool) → List A → Bool
  any p [] = false
  any p (x ∷ xs) = p x || any p xs

  -- `P` holds of every element.
  abbrev pub All : (A → Type 0) → List A → Type 0
  All P [] = Unit
  All P (x ∷ xs) = P x × All P xs

  pub all-take : (p : A → Bool) (n : ℕ) (xs : List A) → all p xs ≡ true → all p (take n xs) ≡ true
  all-take p zero xs h = refl
  all-take p (suc n) [] h = refl
  all-take p (suc n) (x ∷ xs) h = ground (arith, all-take p n xs)

  pub length-append : (xs ys : List A) → length (xs ++ ys) ≡ length xs + length ys
  length-append [] ys = omega arith
  length-append (x ∷ xs) ys = omega (arith, length-append xs ys)

  pub length-take : (n : ℕ) (xs : List A) → length (take n xs) ≡ min n (length xs)
  length-take zero xs = omega arith
  length-take (suc n) [] = omega arith
  length-take (suc n) (x ∷ xs) = omega (arith, length-take n xs)

-- `xs.includes(k)`
abbrev pub contains : ℕ → List ℕ → Bool
contains k [] = false
contains k (x ∷ xs) = x == k || contains k xs

-- `[...new Set(xs)]`: each value once, at its first place.
pub dedup_from : List ℕ → List ℕ → List ℕ
dedup_from seen [] = []
dedup_from seen (x ∷ xs) =
    let rest = dedup_from (x ∷ seen) xs in
    let skip = dedup_from seen xs in if contains x seen then skip else x ∷ rest

unfoldable pub dedup : List ℕ → List ℕ
unfolding dedup_from
dedup xs = dedup_from [] xs

contains-dedup_from :
    (k : ℕ) (seen xs : List ℕ)
    → (contains k seen || contains k (dedup_from seen xs)) ≡ (contains k seen || contains k xs)
unfolding dedup_from
contains-dedup_from k seen [] = refl
contains-dedup_from k seen (x ∷ xs) =
    ground (arith, contains-dedup_from k (x ∷ seen) xs, contains-dedup_from k seen xs)

-- Nothing is lost and nothing is added.
pub contains-dedup : (k : ℕ) (xs : List ℕ) → contains k (dedup xs) ≡ contains k xs
unfolding dedup
contains-dedup k xs = contains-dedup_from k [] xs

-- `a === b` on texts that the code takes apart: a text is the list of its UTF-16 code units.
abbrev pub Text : Type 0
Text = List ℕ

unfoldable pub same : Text → Text → Bool
same [] [] = true
same (a ∷ s) (b ∷ t) = a == b && same s t
same _ _ = false

pub same_refl : (s : Text) → same s s ≡ true
unfolding same
same_refl [] = refl
same_refl (a ∷ s) = ground (arith, same_refl s)

pub same_sound : (s t : Text) → same s t ≡ true → s ≡ t
unfolding same
same_sound [] [] h = refl
same_sound [] (b ∷ t) h = cc
same_sound (a ∷ s) [] h = cc
same_sound (a ∷ s) (b ∷ t) h = ground (arith, same_sound s t)

-- `s[n]`
abbrev pub get_elem? {ℓ} : {A : Type ℓ} → List A → ℕ → Option A
get_elem? [] i = none
get_elem? (x ∷ xs) zero = some x
get_elem? (x ∷ xs) (suc i) = get_elem? xs i

abbrev pub replicate {ℓ} : {A : Type ℓ} → ℕ → A → List A
replicate zero a = []
replicate (suc n) a = a ∷ replicate n a
