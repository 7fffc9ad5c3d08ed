-- ===== src/Prelude/Counting.antt =====
-- How many elements of a list pass a test.
use Prim.Native.Nat.{ℕ, zero, suc, ◌+◌}
use mathlib.Core.Path.{◌≡◌, refl}
use mathlib.Core.Bool.{Bool, true, false, ◌||◌}
use mathlib.Core.List.{List, [], ◌∷◌, map}
use native.Mathlib.Omega.{arith}
use agent_chat.Prelude.Tests.{if◌then◌else◌, leb}
use agent_chat.Prelude.Lists.{length, take, keep, any, insert_by, sort_by}

module _ {ℓ} {A : Type ℓ} where
  abbrev pub count : (A → Bool) → List A → ℕ
  count p xs = length (keep p xs)

  pub keep_ext : (p q : A → Bool) (xs : List A) → ((x : A) → p x ≡ q x) → keep p xs ≡ keep q xs
  keep_ext p q [] h = refl
  keep_ext p q (x ∷ xs) h = ground (arith, h x, keep_ext p q xs h)

  -- Tests of which no element passes both.
  pub count_or :
      (p q : A → Bool) (xs : List A)
      → ((x : A) → p x ≡ true → q x ≡ false)
      → count (λ x. p x || q x) xs ≡ count p xs + count q xs
  count_or p q [] h = refl
  count_or p q (x ∷ xs) h = ground (arith, h x, count_or p q xs h)

  pub count-false : (xs : List A) → count (λ _. false) xs ≡ 0
  count-false [] = refl
  count-false (x ∷ xs) = count-false xs

  pub count_none : (p : A → Bool) (xs : List A) → any p xs ≡ false → count p xs ≡ 0
  count_none p [] h = refl
  count_none p (x ∷ xs) h = ground (arith, count_none p xs)

  pub length-insert_by :
      (le : A → A → Bool) (x : A) (xs : List A) → length (insert_by le x xs) ≡ length xs + 1
  length-insert_by le x [] = refl
  length-insert_by le x (y ∷ ys) = ground (arith, length-insert_by le x ys)

  pub length-sort_by : (le : A → A → Bool) (xs : List A) → length (sort_by le xs) ≡ length xs
  length-sort_by le [] = refl
  length-sort_by le (x ∷ xs) =
      omega (arith, length-insert_by le x (sort_by le xs), length-sort_by le xs)

  pub length-take :
      (n : ℕ) (xs : List A) → length (take n xs) ≡ (if leb (length xs) n then length xs else n)
  length-take zero xs = ground arith
  length-take (suc n) [] = ground arith
  length-take (suc n) (x ∷ xs) = ground (arith, length-take n xs)

pub length-map {ℓ κ} :
    {A : Type ℓ} {B : Type κ} (f : A → B) (xs : List A) → length (map f xs) ≡ length xs
length-map f [] = refl
length-map f (x ∷ xs) = omega (arith, length-map f xs)
