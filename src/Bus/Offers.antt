-- ===== src/Bus/Offers.antt =====
-- The loop of `fire` over distinct subscriptions: what each cell holds afterwards.
use agent_chat.Prelude.{
  ℕ, ◌≡◌, inl, inr, refl, ap, ◌∙◌, Bool-cases, true, false, Option, some, List, [], ◌∷◌, ◌++◌,
  length, any, All, ◌==◌, arith, ltb, if◌then◌else◌,
}
use agent_chat.Bus.{Subscription, channel_capacity, write, each, offer}
use agent_chat.Bus.Invariant.{Distinct}
use agent_chat.Bus.Loops.{eq_of_test, write-all}

-- What an open or closed subscription with consistent flags makes of a frame.
abbrev pub offered : {S : Type 0} → S → Subscription S → Subscription S
offered snap s =
    if s.closed
    then s
    else if ltb (length s.buffer) channel_capacity
    then record s { buffer = s.buffer ++ snap ∷ [] }
    else s

pub offer-offered :
    {S : Type 0} (snap : S) (s : Subscription S)
    → s.closed ≡ s.channel_closed
    → (offer snap s ≡ some (offered snap s))
      × ((offered snap s).closed ≡ (offered snap s).channel_closed)
unfolding offer
offer-offered snap s h = (ground arith, ground arith)

absent :
    (r q : ℕ) (rs : List ℕ)
    → (r == q) ≡ true
    → All (λ x. (r == x) ≡ false) rs
    → any (λ x. x == q) rs ≡ false
absent r q [] e h = refl
absent r q (x ∷ rs) e (a, h) = ground (arith, absent r q rs e h)

module _ {S : Type 0} (C : Subscription S → Type 0) (f : Subscription S → Option (Subscription S))
    (g : Subscription S → Subscription S)
    (round : (s : Subscription S) → C s → (f s ≡ some (g s)) × C (g s)) where
  abbrev pub updated : List ℕ → (ℕ → Subscription S) → ℕ → Subscription S
  updated rs cell q = if any (λ x. x == q) rs then g (cell q) else cell q

  updated-cons :
      (r : ℕ) (rs : List ℕ) (cell : ℕ → Subscription S) (q : ℕ)
      → All (λ x. (r == x) ≡ false) rs
      → updated rs (write cell r (g (cell r))) q ≡ updated (r ∷ rs) cell q
  updated-cons r rs cell q n = elim (Bool-cases (r == q)) [
    | inl same ↦ rw (same, absent r q rs same n) (ap (λ x. g (cell x)) (eq_of_test r q same))
    | inr other ↦ rw other
  ]

  -- The loop updates each listed cell once and leaves the others.
  pub each-updated :
      (rs : List ℕ) (cell : ℕ → Subscription S)
      → Distinct rs
      → ((r : ℕ) → C (cell r))
      → (cell' : ℕ → Subscription S) × (each f rs cell ≡ some cell')
        × ((q : ℕ) → cell' q ≡ updated rs cell q)
  unfolding each
  each-updated [] cell d h = (cell, refl, λ q. refl)
  each-updated (r ∷ rs) cell (n, d) h =
      let (e, c) = round (cell r) (h r) in
      let (cell', e', h') =
        each-updated rs (write cell r (g (cell r))) d
          (write-all (λ q s. C s) cell r (g (cell r)) c h) in
      (cell', rw (e, each) e', λ q. h' q ∙ updated-cons r rs cell q n)
