-- ===== src/Bus/Steps/Removal.antt =====
-- `Unsubscribe` and `Shutdown`.
use agent_chat.Prelude.{
  ℕ, ◌≤◌, ◌≡◌, inl, inr, refl, subst, ap, ◌∙◌, Bool-cases, true, false, some, List, [], ◌∷◌, Str,
  str_eq, str_eq_iff, str_eq_sound, any, All, All-map, length, lookup, put, ◌==◌, arith, StrMap,
  if◌then◌else◌,
}
use agent_chat.Bus.{
  Subscription, Bus, or_nil, subs_of, without, write, max_subscribers_per_account, unsubscribe,
  close_once, shutdown, stop_timers,
}
use agent_chat.Bus.Invariant.{CellOk, Distinct, Listed, BusOk}
use agent_chat.Bus.Loops.{eq_of_test, write-all, close_once_lem, close_lists_lem, each-single}
use agent_chat.Bus.Steps.Subscriptions.{put_case}

length-without : (r : ℕ) (rs : List ℕ) → length (without r rs) ≤ length rs
length-without r [] = omega arith
length-without r (q ∷ qs) = ground (arith, length-without r qs)

All-without : (P : ℕ → Type 0) (r : ℕ) (rs : List ℕ) → All P rs → All P (without r rs)
All-without P r [] h = tt
All-without P r (q ∷ qs) (a, h) = elim (Bool-cases (q == r)) [
  | inl same ↦ rw same h
  | inr other ↦ rw other (a, All-without P r qs h)
]

Distinct-without : (r : ℕ) (rs : List ℕ) → Distinct rs → Distinct (without r rs)
Distinct-without r [] d = tt
Distinct-without r (q ∷ qs) (n, d) = elim (Bool-cases (q == r)) [
  | inl same ↦ rw same d
  | inr other ↦ rw other (All-without (λ x. (q == x) ≡ false) r qs n, Distinct-without r qs d)
]

-- The first occurrence was the only one.
gone-without : (r : ℕ) (rs : List ℕ) → Distinct rs → All (λ q. (r == q) ≡ false) (without r rs)
gone-without r [] d = tt
gone-without r (q ∷ qs) (n, d) = elim (Bool-cases (q == r)) [
  | inl same ↦ rw same (subst (λ x. All (λ y. (x == y) ≡ false) qs) (eq_of_test q r same) n)
  | inr other ↦ rw other (ground (arith, other), gone-without r qs d)
]

absent-from : (r : ℕ) (rs : List ℕ) → any (λ q. q == r) rs ≡ false → All (λ q. (r == q) ≡ false) rs
absent-from r [] h = tt
absent-from r (q ∷ qs) h = (ground (arith, h), absent-from r qs (ground (arith, h)))

All-both :
    (P Q R : ℕ → Type 0) (rs : List ℕ)
    → ((r : ℕ) → P r → Q r → R r)
    → All P rs
    → All Q rs
    → All R rs
All-both P Q R [] f h k = tt
All-both P Q R (r ∷ rs) f (a, h) (b, k) = (f r a b, All-both P Q R rs f h k)

module _ {S : Type 0} (version_of : S → ℕ) (b : Bus S) (h : BusOk version_of b) (r : ℕ) where
  abbrev owner : Str
  owner = (b.cell r).account_id

  abbrev subs_after : StrMap (List ℕ)
  subs_after =
      if any (λ q. q == r) (subs_of b owner)
      then put owner (without r (subs_of b owner)) b.subs
      else b.subs

  elsewhere : (a : Str) → str_eq owner a ≡ false → All (λ q. (r == q) ≡ false) (subs_of b a)
  elsewhere a other =
      All-map (Listed b a) (λ q. (r == q) ≡ false) (subs_of b a)
        (λ q l. elim (Bool-cases (r == q)) [
          | inl same ↦ absurd (apart q l.owned (eq_of_test r q same))
          | inr differs ↦ differs
        ])
        (h.listed a)
    where
      apart : (q : ℕ) → (b.cell q).account_id ≡ a → r ≡ q → ⊥
      apart q owned same =
          let mine : owner ≡ a = ap (λ x. (b.cell x).account_id) same ∙ owned in
          cc (other, (str_eq_iff owner a).1 mine)

  nowhere :
      any (λ q. q == r) (subs_of b owner) ≡ false
      → (a : Str) → All (λ q. (r == q) ≡ false) (subs_of b a)
  nowhere missing a = elim (Bool-cases (str_eq owner a)) [
    | inl same ↦
        subst (λ j. All (λ q. (r == q) ≡ false) (subs_of b j)) (str_eq_sound owner a same)
          (absent-from r (subs_of b owner) missing)
    | inr other ↦ elsewhere a other
  ]

  -- In every list stand references of before, and not the one that left.
  remaining :
      (P : Str → List ℕ → Type 0)
      → ((a : Str) → P a (without r (subs_of b a)))
      → ((a : Str) → All (λ q. (r == q) ≡ false) (subs_of b a) → P a (subs_of b a))
      → (a : Str) → P a (or_nil (lookup a subs_after))
  remaining P cut whole a = elim (Bool-cases (any (λ q. q == r) (subs_of b owner))) [
    | inl found ↦ rw found (
        put_case P owner (without r (subs_of b owner)) b.subs (cut owner)
          (λ j other. whole j (elsewhere j other)) a)
    | inr missing ↦ rw missing (whole a (nowhere missing a))
  ]

  module _ (s' : Subscription S) (fine : CellOk version_of b.version s') where
    abbrev after_unsubscribe : Bus S
    after_unsubscribe = record b { subs = subs_after; cell = write b.cell r s' }

    stays : (a : Str) (q : ℕ) → Listed b a q → (r == q) ≡ false → Listed after_unsubscribe a q
    stays a q l other = record {
      allocated = l.allocated;
      owned = ground (arith, l.owned);
      still_open = ground (arith, l.still_open);
    }

    after_unsubscribe-BusOk : BusOk version_of after_unsubscribe
    after_unsubscribe-BusOk = record {
      cells = write-all (λ q s. CellOk version_of b.version s) b.cell r s' fine h.cells;
      capped =
          remaining (λ a qs. length qs ≤ max_subscribers_per_account)
            (λ a. omega (arith, length-without r (subs_of b a), h.capped a)) (λ a _. h.capped a);
      listed =
          remaining (λ a qs. All (Listed after_unsubscribe a) qs)
            (λ a.
              All-both (Listed b a) (λ q. (r == q) ≡ false) (Listed after_unsubscribe a)
                (without r (subs_of b a)) (stays a)
                (All-without (Listed b a) r (subs_of b a) (h.listed a))
                (gone-without r (subs_of b a) (h.distinct a)))
            (λ a absent.
              All-both (Listed b a) (λ q. (r == q) ≡ false) (Listed after_unsubscribe a)
                (subs_of b a) (stays a) (h.listed a) absent);
      distinct =
          remaining (λ a qs. Distinct qs) (λ a. Distinct-without r (subs_of b a) (h.distinct a))
            (λ a _. h.distinct a);
      scheduled = λ a t e.
          let old = h.scheduled a t e in
          record { started = old.started; owned = old.owned; coming = old.coming };
    }

  -- From a bus that satisfies `BusOk`, an unsubscribe never panics, whether the subscription is open,
  -- was removed before or outlived a shutdown. The invariant is kept, the subscription is closed
  -- and in no account's list, and no version is used up.
  pub unsubscribe-BusOk :
      (b' : Bus S) × (unsubscribe (some r) b ≡ some b')
      × BusOk version_of b'
      × ((b'.cell r).closed ≡ true)
      × ((a : Str) → All (λ q. (r == q) ≡ false) (subs_of b' a))
      × (b'.version ≡ b.version)
  unfolding unsubscribe
  unsubscribe-BusOk =
      let (s', e, fine, _, shut) = close_once_lem version_of b.version (b.cell r) (h.cells r) in
      (
        after_unsubscribe s' fine,
        rw (each-single close_once r b.cell s' e),
        after_unsubscribe-BusOk s' fine,
        ground (arith, shut),
        remaining (λ a qs. All (λ q. (r == q) ≡ false) qs)
            (λ a. gone-without r (subs_of b a) (h.distinct a)) (λ a absent. absent),
        refl,
      )

module _ {S : Type 0} (version_of : S → ℕ) where
  pub shutdown-BusOk :
      (b : Bus S)
      → BusOk version_of b
      → (b' : Bus S) × (shutdown b ≡ some b') × BusOk version_of b' × (b'.version ≡ b.version)
  unfolding shutdown
  shutdown-BusOk b h =
      let (cell', e, fine) = close_lists_lem version_of b.version b.subs b.cell h.cells in
      (
        record b { pending = []; subs = []; timer = stop_timers b.pending b.timer; cell = cell' },
        rw e,
        record {
          cells = fine;
          capped = λ a. omega arith;
          listed = λ a. tt;
          distinct = λ a. tt;
          scheduled = λ a t x. cc;
        },
        refl,
      )
