-- ===== src/Bus/Steps/Subscriptions.antt =====
-- `Subscribe`, `Unsubscribe`, `Shutdown`, and a consumer that takes a frame.
use agent_chat.Prelude.{
  ℕ, ◌+◌, ◌^◌, ◌≤◌, ◌<◌, ◌≡◌, inl, inr, refl, subst, ◌∙◌, Bool-cases, false, List, [], ◌∷◌, ◌++◌,
  Str, str_eq, str_eq_sound, All, All-map, All-append, length, length-append, lookup, lookup-put,
  put, ◌==◌, arith, StrMap,
}
use agent_chat.Bus.{
  Subscription, Bus, bump, or_nil, subs_of, write, max_subscribers_per_account, fresh_subscription,
  receive, take_frame,
}
use agent_chat.Bus.Invariant.{CellOk, Distinct, Listed, BusOk}
use agent_chat.Bus.Loops.{write-all, receive_lem, grown}

pub bump_lem : (v : ℕ) → v + 1 < 2 ^ 63 → bump v ≡ v + 1
bump_lem v h = omega arith

-- What holds of the new list of one account and of the old lists of the others.
pub put_case :
    (P : Str → List ℕ → Type 0) (k : Str) (rs : List ℕ) (m : StrMap (List ℕ))
    → P k rs
    → ((a : Str) → str_eq k a ≡ false → P a (or_nil (lookup a m)))
    → (a : Str) → P a (or_nil (lookup a (put k rs m)))
put_case P k rs m here there a = elim (Bool-cases (str_eq k a)) [
  | inl same ↦ rw (lookup-put k a rs m, same) (subst (λ j. P j rs) (str_eq_sound k a same) here)
  | inr other ↦ rw (lookup-put k a rs m, other) (there a other)
]

Distinct-snoc : (rs : List ℕ) (n : ℕ) → All (λ r. r < n) rs → Distinct rs → Distinct (rs ++ n ∷ [])
Distinct-snoc [] n below d = (tt, tt)
Distinct-snoc (r ∷ rs) n below d = (
  All-append (λ q. (r == q) ≡ false) rs (n ∷ []) d.0 (ground arith, tt),
  Distinct-snoc rs n below.1 d.1,
)

abbrev pub SameEnds : {S : Type 0} → Subscription S → Subscription S → Type 0
SameEnds s s' = (s'.account_id ≡ s.account_id) × (s'.closed ≡ s.closed)

module _ {S : Type 0} (version_of : S → ℕ) where
  -- The counter alone moves.
  pub bumped-BusOk :
      (b : Bus S)
      → b.version + 1 < 2 ^ 63
      → BusOk version_of b
      → BusOk version_of (record b { version = bump b.version })
  bumped-BusOk b small h = record {
    cells = λ r.
        grown version_of b.version (bump b.version) (b.cell r)
          (omega (arith, bump_lem b.version small)) (h.cells r);
    capped = h.capped;
    listed = λ a.
        All-map (Listed b a) (Listed (record b { version = bump b.version }) a) (subs_of b a)
          (λ r l. record { allocated = l.allocated; owned = l.owned; still_open = l.still_open })
          (h.listed a);
    distinct = h.distinct;
    scheduled = λ a t e.
        let old = h.scheduled a t e in
        record { started = old.started; owned = old.owned; coming = old.coming };
  }

  -- The cells change, and keep their account and their flag.
  pub with_cells-BusOk :
      (b : Bus S) (cell' : ℕ → Subscription S) (version : ℕ)
      → ((r : ℕ) → CellOk version_of version (cell' r))
      → ((r : ℕ) → SameEnds (b.cell r) (cell' r))
      → BusOk version_of b
      → BusOk version_of (record b { cell = cell'; version = version })
  with_cells-BusOk b cell' version fine same h = record {
    cells = fine;
    capped = h.capped;
    listed = λ a.
        All-map (Listed b a) (Listed (record b { cell = cell'; version = version }) a) (subs_of b a)
          (λ r l. record {
            allocated = l.allocated;
            owned = (same r).0 ∙ l.owned;
            still_open = (same r).1 ∙ l.still_open;
          })
          (h.listed a);
    distinct = h.distinct;
    scheduled = λ a t e.
        let old = h.scheduled a t e in
        record { started = old.started; owned = old.owned; coming = old.coming };
  }

  take_frame-SameEnds : (xs : List S) (s : Subscription S) → SameEnds s (take_frame xs s)
  unfolding take_frame
  take_frame-SameEnds [] s = (refl, refl)
  take_frame-SameEnds (x ∷ xs) s = (refl, refl)

  pub receive-BusOk : (r : ℕ) (b : Bus S) → BusOk version_of b → BusOk version_of (receive r b)
  unfolding receive
  receive-BusOk r b h =
      with_cells-BusOk b _ b.version
        (write-all (λ q s. CellOk version_of b.version s) b.cell r _
          (receive_lem version_of b.version (b.cell r) (h.cells r)) h.cells)
        (write-all (λ q s. SameEnds (b.cell q) s) b.cell r _
          (take_frame-SameEnds (b.cell r).buffer (b.cell r)) (λ q. (refl, refl)))
        h

  subscribed-CellOk :
      (account_id : Str) (initial : S) (version : ℕ)
      → 0 < version
      → version_of initial ≡ version
      → CellOk version_of version (fresh_subscription account_id initial)
  unfolding fresh_subscription
  subscribed-CellOk account_id initial version pos e = record {
    agrees = refl;
    bounded = omega arith;
    rising = (omega arith, omega arith);
  }

  pub register-BusOk :
      (account_id : Str) (initial : S) (b : Bus S)
      → length (subs_of b account_id) < max_subscribers_per_account
      → 0 < b.version
      → version_of initial ≡ b.version
      → BusOk version_of b
      → BusOk version_of (record b {
        cell = write b.cell b.next (fresh_subscription account_id initial);
        next = b.next + 1;
        subs = put account_id (subs_of b account_id ++ b.next ∷ []) b.subs;
      })
  unfolding fresh_subscription
  register-BusOk account_id initial b room pos v h =
      let rs = subs_of b account_id in
      let b' : Bus S = record b {
        cell = write b.cell b.next (fresh_subscription account_id initial);
        next = b.next + 1;
        subs = put account_id (rs ++ b.next ∷ []) b.subs;
      } in
      let kept : (a : Str) (r : ℕ) → Listed b a r → Listed b' a r = λ a r l. record {
        allocated = omega (arith, l.allocated);
        owned = ground (arith, l.allocated, l.owned);
        still_open = ground (arith, l.allocated, l.still_open);
      } in
      record {
        cells =
            write-all (λ q s. CellOk version_of b.version s) b.cell b.next _
              (subscribed-CellOk account_id initial b.version pos v) h.cells;
        capped =
            put_case (λ a qs. length qs ≤ max_subscribers_per_account) account_id
              (rs ++ b.next ∷ []) b.subs (omega (arith, length-append rs (b.next ∷ [])))
              (λ a _. h.capped a);
        listed =
            put_case (λ a qs. All (Listed b' a) qs) account_id (rs ++ b.next ∷ []) b.subs
              (All-append (Listed b' account_id) rs (b.next ∷ [])
                (All-map (Listed b account_id) (Listed b' account_id) rs (kept account_id)
                  (h.listed account_id))
                (
                  record {
                    allocated = omega arith;
                    owned = ground arith;
                    still_open = ground arith;
                  },
                  tt,
                ))
              (λ a _. All-map (Listed b a) (Listed b' a) (subs_of b a) (kept a) (h.listed a));
        distinct =
            put_case (λ a qs. Distinct qs) account_id (rs ++ b.next ∷ []) b.subs
              (Distinct-snoc rs b.next
                (All-map (Listed b account_id) (λ r. r < b.next) rs (λ r l. l.allocated)
                  (h.listed account_id))
                (h.distinct account_id))
              (λ a _. h.distinct a);
        scheduled = λ a t e.
            let old = h.scheduled a t e in
            record { started = old.started; owned = old.owned; coming = old.coming };
      }
