-- ===== src/Prelude/Lists.antt =====
-- Lists measured by native numbers, and predicates on lists by recursion.
use Prim.Native.Nat.{ℕ, zero, suc, ◌+◌, ◌≤◌}
use mathlib.Core.Path.{◌≡◌, refl, ap, ◌∙◌}
use mathlib.Core.Option
use mathlib.Core.Option.{Option, none, some}
use mathlib.Core.Bool.{Bool, true, false, ◌||◌}
use mathlib.Core.List.{List, [], ◌∷◌, ◌++◌}
use native.Mathlib.Omega.{arith}
use mathlib.Core.Logic.{inl, inr}
use agent_chat.Prelude.Tests.{if◌then◌else◌, Bool-cases}

module _ {ℓ} {A : Type ℓ} where
  abbrev pub length : List A → ℕ
  length [] = 0
  length (x ∷ xs) = suc (length xs)

  abbrev pub take : ℕ → List A → List A
  take zero xs = []
  take (suc n) [] = []
  take (suc n) (x ∷ xs) = x ∷ take n xs

  pub length-append : (xs ys : List A) → length (xs ++ ys) ≡ length xs + length ys
  length-append [] ys = omega arith
  length-append (x ∷ xs) ys = omega (arith, length-append xs ys)

  -- The elements that pass a test, in order.
  abbrev pub keep : (A → Bool) → List A → List A
  keep p [] = []
  keep p (x ∷ xs) = let rest = keep p xs in if p x then x ∷ rest else rest

  abbrev pub any : (A → Bool) → List A → Bool
  any p [] = false
  any p (x ∷ xs) = p x || any p xs

  -- The first element that passes the test.
  abbrev pub find : (A → Bool) → List A → Option A
  find p [] = none
  find p (x ∷ xs) = let rest = find p xs in if p x then some x else rest

  -- `ORDER BY` and `sort.Slice`: insertion sort by a test "goes no later than".
  abbrev pub insert_by : (A → A → Bool) → A → List A → List A
  insert_by le x [] = x ∷ []
  insert_by le x (y ∷ ys) = let rest = insert_by le x ys in if le x y then x ∷ y ∷ ys else y ∷ rest

  abbrev pub sort_by : (A → A → Bool) → List A → List A
  sort_by le [] = []
  sort_by le (x ∷ xs) = insert_by le x (sort_by le xs)

  -- Rewrite the elements that pass the test.
  abbrev pub modify : (A → Bool) → (A → A) → List A → List A
  modify p f [] = []
  modify p f (x ∷ xs) = (if p x then f x else x) ∷ modify p f xs

  -- What is found passes the test.
  pub find-passes : (p : A → Bool) (xs : List A) (y : A) → find p xs ≡ some y → p y ≡ true
  find-passes p [] y h = cc
  find-passes p (x ∷ xs) y h = ground (arith, find-passes p xs y)

  pub any-find : (p : A → Bool) (xs : List A) (y : A) → find p xs ≡ some y → any p xs ≡ true
  any-find p [] y h = cc
  any-find p (x ∷ xs) y h = ground (arith, any-find p xs y)

  -- An element that is found answers any other test that it passes.
  pub any_found :
      (p q : A → Bool) (xs : List A) (y : A) → find p xs ≡ some y → q y ≡ true → any q xs ≡ true
  any_found p q [] y h k = cc
  any_found p q (x ∷ xs) y h k = ground (arith, any_found p q xs y, ap q)

  pub find-none : (p : A → Bool) (xs : List A) → any p xs ≡ false → find p xs ≡ none
  find-none p [] h = refl
  find-none p (x ∷ xs) h = ground (arith, find-none p xs)

  pub any_of_none : (p : A → Bool) (xs : List A) → find p xs ≡ none → any p xs ≡ false
  any_of_none p [] h = refl
  any_of_none p (x ∷ xs) h = ground (arith, any_of_none p xs)

  -- A test that holds more rarely fails where the other does.
  pub any_weaker :
      (p q : A → Bool) (xs : List A)
      → ((x : A) → q x ≡ true → p x ≡ true)
      → any p xs ≡ false
      → any q xs ≡ false
  any_weaker p q [] h k = refl
  any_weaker p q (x ∷ xs) h k = ground (arith, any_weaker p q xs h, h x)

  abbrev pub or_else : Option A → Option A → Option A
  or_else none d = d
  or_else (some x) d = some x

  pub find_snoc :
      (p : A → Bool) (xs : List A) (y : A)
      → find p (xs ++ y ∷ []) ≡ or_else (find p xs) (if p y then some y else none)
  find_snoc p [] y = refl
  find_snoc p (x ∷ xs) y = ground (arith, find_snoc p xs y)

  pub any_snoc : (p : A → Bool) (xs : List A) (y : A) → any p (xs ++ y ∷ []) ≡ (any p xs || p y)
  any_snoc p [] y = ground arith
  any_snoc p (x ∷ xs) y = ground (arith, any_snoc p xs y)

  -- Sorting keeps what the list contains.
  pub any-insert_by :
      (p : A → Bool) (le : A → A → Bool) (x : A) (xs : List A)
      → any p (insert_by le x xs) ≡ (p x || any p xs)
  any-insert_by p le x [] = refl
  any-insert_by p le x (y ∷ ys) = ground (arith, any-insert_by p le x ys)

  pub any-sort_by :
      (p : A → Bool) (le : A → A → Bool) (xs : List A) → any p (sort_by le xs) ≡ any p xs
  any-sort_by p le [] = refl
  any-sort_by p le (x ∷ xs) =
      any-insert_by p le x (sort_by le xs) ∙ ap (λ b. p x || b) (any-sort_by p le xs)

  pub find-append :
      (p : A → Bool) (xs ys : List A) → any p xs ≡ false → find p (xs ++ ys) ≡ find p ys
  find-append p [] ys h = refl
  find-append p (x ∷ xs) ys h = ground (arith, find-append p xs ys)

  -- Where the rewriting does not change what the test says, the element found is the one found
  -- before, rewritten if it passes the other test.
  pub find-modify :
      (p q : A → Bool) (f : A → A) (xs : List A)
      → ((x : A) → q x ≡ true → p (f x) ≡ p x)
      → find p (modify q f xs) ≡ Option.map (λ x. if q x then f x else x) (find p xs)
  find-modify p q f [] h = refl
  find-modify p q f (x ∷ xs) h = ground (arith, find-modify p q f xs h, h x)

  -- A rewriting that keeps what the test says keeps whether there is a match.
  pub any-modify :
      (p q : A → Bool) (f : A → A) (xs : List A)
      → ((x : A) → p (f x) ≡ p x)
      → any p (modify q f xs) ≡ any p xs
  any-modify p q f [] h = refl
  any-modify p q f (x ∷ xs) h = ground (arith, any-modify p q f xs h, h x)

  -- The element found and rewritten, by one test.
  pub find_rewritten :
      (p : A → Bool) (f : A → A) (xs : List A)
      → ((x : A) → p x ≡ true → p (f x) ≡ p x)
      → find p (modify p f xs) ≡ Option.map f (find p xs)
  find_rewritten p f [] h = refl
  find_rewritten p f (x ∷ xs) h = ground (arith, find_rewritten p f xs h, h x)

  -- A rewriting that neither takes nor gives a match leaves what is found.
  pub find_unmodified :
      (p q : A → Bool) (f : A → A) (xs : List A)
      → ((x : A) → q x ≡ true → p x ≡ false)
      → ((x : A) → q x ≡ true → p (f x) ≡ false)
      → find p (modify q f xs) ≡ find p xs
  find_unmodified p q f [] h k = refl
  find_unmodified p q f (x ∷ xs) h k = ground (arith, find_unmodified p q f xs h k, h x, k x)

  pub length-modify : (p : A → Bool) (f : A → A) (xs : List A) → length (modify p f xs) ≡ length xs
  length-modify p f [] = refl
  length-modify p f (x ∷ xs) = ap suc (length-modify p f xs)

  pub length-keep : (p : A → Bool) (xs : List A) → length (keep p xs) ≤ length xs
  length-keep p [] = omega arith
  length-keep p (x ∷ xs) = ground (arith, length-keep p xs)

module _ {ℓ κ} {A : Type ℓ} where
  abbrev pub All : (A → Type κ) → List A → Type κ
  All P [] = Unit
  All P (x ∷ xs) = P x × All P xs

  pub All-append : (P : A → Type κ) (xs ys : List A) → All P xs → All P ys → All P (xs ++ ys)
  All-append P [] ys h k = k
  All-append P (x ∷ xs) ys (a, h) k = (a, All-append P xs ys h k)

  pub All-map : (P Q : A → Type κ) (xs : List A) → ((x : A) → P x → Q x) → All P xs → All Q xs
  All-map P Q [] f h = tt
  All-map P Q (x ∷ xs) f (a, h) = (f x a, All-map P Q xs f h)

  pub All-keep : (P : A → Type κ) (p : A → Bool) (xs : List A) → All P xs → All P (keep p xs)
  All-keep P p [] h = tt
  All-keep P p (x ∷ xs) (a, h) = elim (Bool-cases (p x)) [
    | inl passes ↦ rw passes (a, All-keep P p xs h)
    | inr fails ↦ rw fails (All-keep P p xs h)
  ]

  pub All-take : (P : A → Type κ) (n : ℕ) (xs : List A) → All P xs → All P (take n xs)
  All-take P zero xs h = tt
  All-take P (suc n) [] h = tt
  All-take P (suc n) (x ∷ xs) (a, h) = (a, All-take P n xs h)

  pub All-insert_by :
      (P : A → Type κ) (le : A → A → Bool) (x : A) (xs : List A)
      → P x
      → All P xs
      → All P (insert_by le x xs)
  All-insert_by P le x [] a h = (a, h)
  All-insert_by P le x (y ∷ ys) a (b, h) = elim (Bool-cases (le x y)) [
    | inl passes ↦ rw passes (a, (b, h))
    | inr fails ↦ rw fails (b, All-insert_by P le x ys a h)
  ]

  pub All-sort_by :
      (P : A → Type κ) (le : A → A → Bool) (xs : List A) → All P xs → All P (sort_by le xs)
  All-sort_by P le [] h = tt
  All-sort_by P le (x ∷ xs) (a, h) = All-insert_by P le x (sort_by le xs) a (All-sort_by P le xs h)

pub some_injective {ℓ} : {A : Type ℓ} (x y : A) → ◌≡◌ {A = Option A} (some x) (some y) → x ≡ y
some_injective x y e = ap (λ o. elim o [ none ↦ x | some z ↦ z ]) e

-- What is kept passes the test.
pub All-kept {ℓ} : {A : Type ℓ} (p : A → Bool) (xs : List A) → All (λ x. p x ≡ true) (keep p xs)
All-kept p [] = tt
All-kept p (x ∷ xs) = elim (Bool-cases (p x)) [
  | inl passes ↦ rw passes (passes, All-kept p xs)
  | inr fails ↦ rw fails (All-kept p xs)
]

-- Every element of a list is in it.
pub All-self {ℓ} :
    {A : Type ℓ} (r : A → A → Bool) (xs : List A)
    → ((x : A) → r x x ≡ true)
    → All (λ x. any (r x) xs ≡ true) xs
All-self r [] h = tt
All-self r (x ∷ xs) h = (
  rw (h x) refl,
  All-map (λ y. any (r y) xs ≡ true) (λ y. any (r y) (x ∷ xs) ≡ true) xs (λ y k. ground (arith, k))
      (All-self r xs h),
)
