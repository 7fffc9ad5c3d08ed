-- ===== src/Bus/Steps/Fan.antt =====
-- The operations that build a snapshot: `Subscribe`, `BuildNow` and the timer's `fire`.
use agent_chat.Prelude.{
  ℕ, ◌+◌, ◌^◌, ◌≤◌, ◌<◌, ◌≡◌, inl, inr, refl, sym, subst, Bool, Bool-cases, true, false, some, List,
  [], ◌∷◌, Str, str_eq, str_eq_iff, any, All-map, length, lookup, lookup-delete, delete, ◌==◌, leb,
  arith, if◌then◌else◌,
}
use agent_chat.Errcode.Result.{Result, ok, err}
use agent_chat.Bus.{
  Builder, Subscription, Bus, bump, subs_of, max_subscribers_per_account, without_fire, register,
  subscribe, offer, each, broadcast, fire_locked, fire, run_fire,
}
use agent_chat.Bus.Invariant.{CellOk, Listed, BusOk}
use agent_chat.Bus.Loops.{offer_lem, grown}
use agent_chat.Bus.Offers.{offered, offer-offered, each-updated}
use agent_chat.Bus.Steps.Subscriptions.{
  SameEnds, bump_lem, bumped-BusOk, register-BusOk, with_cells-BusOk,
}

module _ {W S : Type 0} (a : Builder W S) where
  offered-CellOk :
      (version : ℕ) (snap : S) (s : Subscription S)
      → version < a.version_of snap
      → CellOk a.version_of version s
      → CellOk a.version_of (a.version_of snap) (offered snap s) × SameEnds s (offered snap s)
  offered-CellOk version snap s lt h =
      let (s', e, fine, account, flag) = offer_lem a.version_of version snap s lt h in
      let same : s' ≡ offered snap s = ground (arith, e, (offer-offered snap s h.agrees).0) in
      subst (λ t. CellOk a.version_of (a.version_of snap) t × SameEnds s t) same
        (fine, (account, flag))

  updated-CellOk :
      (version : ℕ) (snap : S) (s : Subscription S) (b : Bool)
      → version < a.version_of snap
      → CellOk a.version_of version s
      → CellOk a.version_of (a.version_of snap) (if b then offered snap s else s)
        × SameEnds s (if b then offered snap s else s)
  updated-CellOk version snap s true lt h = offered-CellOk version snap s lt h
  updated-CellOk version snap s false lt h =
      (grown a.version_of version (a.version_of snap) s (omega arith) h, (refl, refl))

  -- The bus after the frame is offered to every subscription of the account.
  pub broadcast_lem :
      (account_id : Str) (snap : S) (b : Bus S)
      → b.version < a.version_of snap
      → BusOk a.version_of b
      → (cell' : ℕ → Subscription S) × (each (offer snap) (subs_of b account_id) b.cell
          ≡ some cell')
        × ((q : ℕ)
            → cell' q ≡ (
                if any (λ x. x == q) (subs_of b account_id)
                then offered snap (b.cell q)
                else b.cell q))
        × BusOk a.version_of (record b { cell = cell'; version = a.version_of snap })
  broadcast_lem account_id snap b lt h =
      let rs = subs_of b account_id in
      let (cell', e, exact) =
        each-updated (λ s. s.closed ≡ s.channel_closed) (offer snap) (offered snap)
          (offer-offered snap) rs b.cell (h.distinct account_id) (λ r. (h.cells r).agrees) in
      let fine =
        λ (q : ℕ). updated-CellOk b.version snap (b.cell q) (any (λ x. x == q) rs) lt (h.cells q) in
      (
        cell',
        e,
        exact,
        with_cells-BusOk a.version_of b cell' (a.version_of snap)
            (λ q. subst (CellOk a.version_of (a.version_of snap)) (sym (exact q)) (fine q).0)
            (λ q. subst (SameEnds (b.cell q)) (sym (exact q)) (fine q).1) h,
      )

  broadcast-BusOk :
      (account_id : Str) (r : Result S) (b : Bus S) (v : ℕ)
      → b.version < v
      → ((snap : S) → r ≡ ok snap → a.version_of snap ≡ v)
      → BusOk a.version_of (record b { version = v })
      → BusOk a.version_of b
      → (b' : Bus S) × (broadcast a account_id r (record b { version = v }) ≡ some b')
        × BusOk a.version_of b'
        × (b'.version ≡ v)
  unfolding broadcast
  broadcast-BusOk account_id (err c) b v lt p hv h = (record b { version = v }, refl, hv, refl)
  broadcast-BusOk account_id (ok snap) b v lt p hv h =
      let stamp : a.version_of snap ≡ v = p snap refl in
      let (cell', e, exact, fine) = broadcast_lem account_id snap b (omega arith) h in
      (
        record b { version = v; cell = cell' },
        rw e,
        subst (λ k. BusOk a.version_of (record b { cell = cell'; version = k })) stamp fine,
        refl,
      )

  fire_locked-BusOk :
      (w : W) (account_id : Str) (b : Bus S)
      → b.version + 1 < 2 ^ 63
      → BusOk a.version_of b
      → (b' : Bus S) × (fire_locked a w account_id b ≡ some b')
        × BusOk a.version_of b'
        × (b'.version ≤ b.version + 1)
  unfolding fire_locked
  fire_locked-BusOk w account_id b small h =
      elim (Bool-cases (length (subs_of b account_id) == 0)) [
        | inl unwatched ↦ (b, rw unwatched, h, omega arith)
        | inr watched ↦
            let (b', e, fine, v) =
              broadcast-BusOk account_id (a.build w account_id (bump b.version)) b (bump b.version)
                (omega (arith, bump_lem b.version small))
                (λ snap built. a.build_version w account_id (bump b.version) snap built)
                (bumped-BusOk a.version_of b small h) h in
            (b', rw watched e, fine, omega (arith, v, bump_lem b.version small))
      ]

  any-without_fire :
      (k j : Str) (fs : List Str)
      → str_eq k j ≡ false
      → any (λ f. str_eq f j) (without_fire k fs) ≡ any (λ f. str_eq f j) fs
  any-without_fire k j [] other = refl
  any-without_fire k j (f ∷ fs) other =
      ground (arith, any-without_fire k j fs other, str_eq_iff f k, str_eq_iff f j, str_eq_iff k j)

  pub started-BusOk :
      (account_id : Str) (b : Bus S)
      → BusOk a.version_of b
      → BusOk a.version_of (record b {
        fires = without_fire account_id b.fires;
        pending = delete account_id b.pending;
      })
  started-BusOk account_id b h = record {
    cells = h.cells;
    capped = h.capped;
    listed = λ j.
        All-map (Listed b j)
          (Listed
            (record b {
              fires = without_fire account_id b.fires;
              pending = delete account_id b.pending;
            })
            j)
          (subs_of b j)
          (λ r l. record { allocated = l.allocated; owned = l.owned; still_open = l.still_open })
          (h.listed j);
    distinct = h.distinct;
    scheduled = λ j t e. elim (Bool-cases (str_eq account_id j)) [
      | inl same ↦ absurd (gone j t same e)
      | inr other ↦
          let old = h.scheduled j t (ground (arith, lookup-delete account_id j b.pending)) in
          record {
            started = old.started;
            owned = old.owned;
            coming = ground (arith, old.coming, any-without_fire account_id j b.fires other);
          }
    ];
  }
    where
      gone :
          (j : Str) (t : ℕ)
          → str_eq account_id j ≡ true
          → lookup j (delete account_id b.pending) ≡ some t
          → ⊥
      gone j t same e = ground (arith, lookup-delete account_id j b.pending)

  pub run_fire-BusOk :
      (w : W) (account_id : Str) (b : Bus S)
      → b.version + 1 < 2 ^ 63
      → BusOk a.version_of b
      → (b' : Bus S) × (run_fire a w account_id b ≡ some b')
        × BusOk a.version_of b'
        × (b'.version ≤ b.version + 1)
  unfolding run_fire fire
  run_fire-BusOk w account_id b small h =
      elim (Bool-cases (any (λ f. str_eq f account_id) b.fires)) [
        | inl waits ↦
            let (b', e, fine, v) =
              fire_locked-BusOk w account_id _ small (started-BusOk account_id b h) in
            (b', rw waits e, fine, v)
        | inr nothing ↦ (b, rw nothing, h, omega arith)
      ]

  register-result :
      (account_id : Str) (r : Result S) (b : Bus S)
      → length (subs_of b account_id) < max_subscribers_per_account
      → 0 < b.version
      → ((snap : S) → r ≡ ok snap → a.version_of snap ≡ b.version)
      → BusOk a.version_of b
      → BusOk a.version_of (register a account_id r b).1
        × ((register a account_id r b).1.version ≡ b.version)
  unfolding register
  register-result account_id (err c) b room pos p h = (h, refl)
  register-result account_id (ok snap) b room pos p h =
      (register-BusOk a.version_of account_id snap b room pos (p snap refl) h, refl)

  pub subscribe-BusOk :
      (w : W) (account_id : Str) (b : Bus S)
      → b.version + 1 < 2 ^ 63
      → BusOk a.version_of b
      → BusOk a.version_of (subscribe a w account_id b).1
        × ((subscribe a w account_id b).1.version ≤ b.version + 1)
  unfolding subscribe
  subscribe-BusOk w account_id b small h =
      elim (Bool-cases (leb max_subscribers_per_account (length (subs_of b account_id)))) [
        | inl full ↦ rw full (h, omega arith)
        | inr room ↦
            let (fine, v) =
              register-result account_id (a.build w account_id (bump b.version))
                (record b { version = bump b.version }) (ground arith)
                (omega (arith, bump_lem b.version small))
                (λ snap built. a.build_version w account_id (bump b.version) snap built)
                (bumped-BusOk a.version_of b small h) in
            rw room (fine, omega (arith, v, bump_lem b.version small))
      ]
