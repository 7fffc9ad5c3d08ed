-- ===== src/Bus/Delivery.antt =====
-- From a mutation to the frame: no update is lost, and a burst makes one frame.
use agent_chat.Prelude.{
  ℕ, ◌+◌, ◌^◌, ◌<◌, ◌≡◌, inl, inr, refl, subst, ap, ◌∙◌, Bool-cases, true, false, Option, none,
  some, List, [], ◌∷◌, ◌++◌, Str, str_eq, str_eq_refl, is_empty, any, All, length, lookup,
  lookup-put, delete, ◌==◌, lt→ltb, arith, if◌then◌else◌,
}
use agent_chat.Errcode.Result.{ok}
use mathlib.Core.Path.{ap₂}
use agent_chat.Bus.{
  Builder, Subscription, Bus, bump, or_nil, subs_of, channel_capacity, start_timer, debounce,
  publish, expire, run_fire, fire, fire_locked, broadcast, without_fire,
}
use agent_chat.Bus.Invariant.{Listed, BusOk}
use agent_chat.Bus.Loops.{eq_of_test}
use agent_chat.Bus.Offers.{offered}
use agent_chat.Bus.Steps.{
  publish-BusOk, expire-BusOk, broadcast_lem, started-BusOk, bump_lem, any-snoc,
}

-- A timer of the account is pending and runs, and the rest of the bus is as before.
pub record Debounced {S : Type 0} (account_id : Str) (b b' : Bus S) (t : ℕ) : Type 0 where
  pub pending : lookup account_id b'.pending ≡ some t
  pub armed : (b'.timer t).armed ≡ true
  pub owned : (b'.timer t).account_id ≡ account_id
  pub subs : b'.subs ≡ b.subs
  pub cell : (r : ℕ) → b'.cell r ≡ b.cell r
  pub version : b'.version ≡ b.version

module _ {S : Type 0} (version_of : S → ℕ) where
  started-Debounced :
      (account_id : Str) (b : Bus S)
      → Debounced account_id b (start_timer account_id b) b.next_timer
  unfolding start_timer
  started-Debounced account_id b = record {
    pending = rw (lookup-put account_id account_id b.next_timer b.pending, str_eq_refl);
    armed = ground arith;
    owned = ground arith;
    subs = refl;
    cell = λ r. refl;
    version = refl;
  }

  debounce-Debounced :
      (account_id : Str) (o : Option ℕ) (b : Bus S)
      → lookup account_id b.pending ≡ o
      → BusOk version_of b
      → (t : ℕ) × Debounced account_id b (debounce account_id o b) t
  unfolding debounce
  debounce-Debounced account_id none b p h = (b.next_timer, started-Debounced account_id b)
  debounce-Debounced account_id (some t) b p h = elim (Bool-cases (b.timer t).armed) [
    | inl runs ↦ (
      t,
      rw runs (record {
        pending = p;
        armed = runs;
        owned = (h.scheduled account_id t p).owned;
        subs = refl;
        cell = λ r. refl;
        version = refl;
      }),
    )
    | inr gone ↦
        let b0 : Bus S = record b { pending = delete account_id b.pending } in
        let d = started-Debounced account_id b0 in
        (
          b.next_timer,
          rw gone (record {
            pending = d.pending;
            armed = d.armed;
            owned = d.owned;
            subs = d.subs;
            cell = d.cell;
            version = d.version;
          }),
        )
  ]

  -- A mutation of a watched account leaves a running timer of that account pending, and touches
  -- neither the subscriptions nor the version.
  pub publish-Debounced :
      (account_id : Str) (b : Bus S)
      → is_empty account_id ≡ false
      → (length (subs_of b account_id) == 0) ≡ false
      → BusOk version_of b
      → (t : ℕ) × Debounced account_id b (publish account_id b) t
  unfolding publish
  publish-Debounced account_id b named watched h =
      rw (named, watched) (debounce-Debounced account_id (lookup account_id b.pending) b refl h)

  publish-again :
      (account_id : Str) (b b' : Bus S) (t : ℕ)
      → (length (subs_of b account_id) == 0) ≡ false
      → Debounced account_id b b' t
      → publish account_id b' ≡ b'
  unfolding publish debounce
  publish-again account_id b b' t watched d = elim (Bool-cases (is_empty account_id)) [
    | inl empty ↦ rw empty
    | inr named ↦ rw (named, d.subs, watched, d.pending, debounce, d.armed)
  ]

  fires-expire :
      (account_id : Str) (b : Bus S) (t : ℕ)
      → (b.timer t).armed ≡ true
      → (b.timer t).account_id ≡ account_id
      → any (λ f. str_eq f account_id) (expire t b).fires ≡ true
  unfolding expire
  fires-expire account_id b t armed owned =
      rw armed (
        any-snoc (λ f. str_eq f account_id) b.fires (b.timer t).account_id
          (rw (owned, str_eq_refl)))

  subs-expire :
      (b : Bus S) (t : ℕ)
      → ((expire t b).subs ≡ b.subs)
        × ((expire t b).version ≡ b.version)
        × ((r : ℕ) → (expire t b).cell r ≡ b.cell r)
  unfolding expire
  subs-expire b t = elim (Bool-cases (b.timer t).armed) [
    | inl armed ↦ rw armed (refl, refl, λ r. refl)
    | inr gone ↦ rw gone (refl, refl, λ r. refl)
  ]

-- The cell of a subscription before and after a frame is offered to its account.
abbrev pub Delivered :
    {S : Type 0} → S → List ℕ → (ℕ → Subscription S) → (ℕ → Subscription S) → Type 0
Delivered snap rs cell cell' =
    (q : ℕ) → cell' q ≡ (if any (λ x. x == q) rs then offered snap (cell q) else cell q)

module _ {W S : Type 0} (a : Builder W S) where
  run_fire-Delivered :
      (w : W) (account_id : Str) (b : Bus S) (snap : S)
      → any (λ f. str_eq f account_id) b.fires ≡ true
      → (length (subs_of b account_id) == 0) ≡ false
      → b.version + 1 < 2 ^ 63
      → BusOk a.version_of b
      → a.build w account_id (bump b.version) ≡ ok snap
      → (b' : Bus S) × (run_fire a w account_id b ≡ some b')
        × Delivered snap (subs_of b account_id) b.cell b'.cell
  unfolding run_fire fire fire_locked broadcast
  run_fire-Delivered w account_id b snap waits watched small h built =
      let b0 : Bus S = record b {
        fires = without_fire account_id b.fires;
        pending = delete account_id b.pending;
      } in
      let stamp = a.build_version w account_id (bump b.version) snap built in
      let (cell', e, exact, _) =
        broadcast_lem a account_id snap b0 (omega (arith, stamp, bump_lem b.version small))
          (started-BusOk a account_id b h) in
      (
        record b0 { version = bump b.version; cell = cell' },
        rw (waits, watched, built, broadcast, e),
        exact,
      )

  subs_of_open :
      (b : Bus S) (account_id : Str) (r : ℕ) (rs : List ℕ)
      → All (Listed b account_id) rs
      → any (λ q. q == r) rs ≡ true
      → (b.cell r).closed ≡ false
  subs_of_open b account_id r [] l h = cc
  subs_of_open b account_id r (q ∷ rs) (first, l) h = elim (Bool-cases (q == r)) [
    | inl same ↦ subst (λ x. (b.cell x).closed ≡ false) (eq_of_test q r same) first.still_open
    | inr other ↦ subs_of_open b account_id r rs l (ground (arith, other))
  ]

  offered-open :
      (snap : S) (s : Subscription S)
      → s.closed ≡ false
      → length s.buffer < channel_capacity
      → (offered snap s).buffer ≡ s.buffer ++ snap ∷ []
  offered-open snap s open_ room = rw (open_, lt→ltb _ _ room)

  -- A mutation of a watched account leaves a timer pending; when that timer expires and its
  -- goroutine runs, on whatever contents the store then has, and the aggregator builds the snapshot of
  -- the next version, every subscription of the account whose channel has room gets that snapshot
  -- behind its other frames, and no other account's subscription changes. Further
  -- mutations before the timer expires change nothing.
  pub publish_delivers :
      (w : W) (account_id : Str) (b : Bus S) (snap : S)
      → is_empty account_id ≡ false
      → (length (subs_of b account_id) == 0) ≡ false
      → b.version + 1 < 2 ^ 63
      → BusOk a.version_of b
      → a.build w account_id (bump b.version) ≡ ok snap
      → (t : ℕ) × (b' : Bus S) × (lookup account_id (publish account_id b).pending ≡ some t)
        × (run_fire a w account_id (expire t (publish account_id b)) ≡ some b')
        × ((r : ℕ)
            → any (λ q. q == r) (subs_of b account_id) ≡ true
            → length (b.cell r).buffer < channel_capacity
            → (b'.cell r).buffer ≡ (b.cell r).buffer ++ snap ∷ [])
        × ((r : ℕ) → any (λ q. q == r) (subs_of b account_id) ≡ false → b'.cell r ≡ b.cell r)
        × (publish account_id (publish account_id b) ≡ publish account_id b)
  publish_delivers w account_id b snap named watched small h built =
      let (t, d) = publish-Debounced a.version_of account_id b named watched h in
      let b1 = publish account_id b in
      let b2 = expire t b1 in
      let (subs2, version2, cell2) = subs-expire a.version_of b1 t in
      let same_subs : b2.subs ≡ b.subs = subs2 ∙ d.subs in
      let same_version : b2.version ≡ b.version = version2 ∙ d.version in
      let same_list : subs_of b2 account_id ≡ subs_of b account_id =
        ap (λ m. or_nil (lookup account_id m)) same_subs in
      let (b', e, delivered) =
        run_fire-Delivered w account_id b2 snap
          (fires-expire a.version_of account_id b1 t d.armed d.owned)
          (ap (λ rs. length rs == 0) same_list ∙ watched) (omega (arith, same_version))
          (expire-BusOk a.version_of t b1 (publish-BusOk a.version_of account_id b h))
          (ap (λ v. a.build w account_id (bump v)) same_version ∙ built) in
      let cell : (r : ℕ)
          → b'.cell r ≡ (
              if any (λ x. x == r) (subs_of b account_id)
              then offered snap (b.cell r)
              else b.cell r) =
        λ r.
          delivered r
          ∙ ap₂ (λ rs s. if any (λ x. x == r) rs then offered snap s else s) same_list
              (cell2 r ∙ d.cell r) in
      (
        t,
        b',
        d.pending,
        e,
        (λ r listed room.
            ap (λ s. s.buffer) (cell r)
            ∙ rw listed (
                offered-open snap (b.cell r)
                  (subs_of_open b account_id r (subs_of b account_id) (h.listed account_id) listed)
                  room)),
        (λ r foreign. cell r ∙ rw foreign),
        publish-again a.version_of account_id b b1 t watched d,
      )
