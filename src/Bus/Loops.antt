-- ===== src/Bus/Loops.antt =====
-- The loops over subscriptions: they do not panic, and they keep what each round keeps.
use agent_chat.Prelude.{
  ℕ, ◌≤◌, ◌<◌, ◌≡◌, inl, inr, refl, sym, subst, ap, ◌∙◌, Bool-cases, true, Option, some, List, [],
  ◌∷◌, ◌++◌, length, length-append, ◌==◌, arith, StrMap, ltb, ltb→lt,
}
use mathlib.Core.List.{append_assoc}
use agent_chat.Bus.{
  Subscription, channel_capacity, write, each, close_once, offer, close_lists, take_frame,
}
use agent_chat.Bus.Invariant.{CellOk, Climbs, Climbs-mono, Climbs-snoc}

pub eq_of_test : (r q : ℕ) → (r == q) ≡ true → r ≡ q
eq_of_test r q h = ground arith

pub write_self {ℓ} : {A : Type ℓ} (m : ℕ → A) (r : ℕ) (x : A) → write m r x r ≡ x
write_self m r x = ground arith

module _ {A : Type 0} (P : ℕ → A → Type 0) where
  -- A write keeps what holds of every cell.
  pub write-all :
      (m : ℕ → A) (r : ℕ) (x : A) → P r x → ((q : ℕ) → P q (m q)) → (q : ℕ) → P q (write m r x q)
  write-all m r x px h q = elim (Bool-cases (r == q)) [
    | inl same ↦ rw same (subst (λ k. P k x) (eq_of_test r q same) px)
    | inr other ↦ rw other (h q)
  ]

module _ {S : Type 0} (P : ℕ → Subscription S → Type 0)
    (f : Subscription S → Option (Subscription S))
    (round : (r : ℕ) (s : Subscription S)
      → P r s
      → (s' : Subscription S) × (f s ≡ some s') × P r s') where
  pub each_lem :
      (rs : List ℕ) (cell : ℕ → Subscription S)
      → ((r : ℕ) → P r (cell r))
      → (cell' : ℕ → Subscription S) × (each f rs cell ≡ some cell') × ((r : ℕ) → P r (cell' r))
  unfolding each
  each_lem [] cell h = (cell, refl, h)
  each_lem (r ∷ rs) cell h =
      let (s', e, p) = round r (cell r) (h r) in
      let (cell', e', h') = each_lem rs (write cell r s') (write-all P cell r s' p h) in
      (cell', rw (e, each) e', h')

pub each-single :
    {S : Type 0} (f : Subscription S → Option (Subscription S)) (r : ℕ) (cell : ℕ → Subscription S)
    (s' : Subscription S)
    → f (cell r) ≡ some s'
    → each f (r ∷ []) cell ≡ some (write cell r s')
unfolding each
each-single f r cell s' e = rw (e, each)

module _ {S : Type 0} (version_of : S → ℕ) (version : ℕ) where
  pub close_once_lem :
      (s : Subscription S)
      → CellOk version_of version s
      → (s' : Subscription S) × (close_once s ≡ some s')
        × CellOk version_of version s'
        × (s'.account_id ≡ s.account_id)
        × (s'.closed ≡ true)
  unfolding close_once
  close_once_lem s h = elim (Bool-cases s.closed) [
    | inl c ↦ (s, rw c, h, refl, c)
    | inr o ↦ (
      record s { closed = true; channel_closed = true },
      rw (o, ← h.agrees, o),
      record { agrees = refl; bounded = h.bounded; rising = h.rising },
      refl,
      refl,
    )
  ]

  -- The loops of `Shutdown` end with every subscription that they met closed.
  pub close_lists_lem :
      (m : StrMap (List ℕ)) (cell : ℕ → Subscription S)
      → ((r : ℕ) → CellOk version_of version (cell r))
      → (cell' : ℕ → Subscription S) × (close_lists m cell ≡ some cell')
        × ((r : ℕ) → CellOk version_of version (cell' r))
  unfolding close_lists
  close_lists_lem [] cell h = (cell, refl, h)
  close_lists_lem ((a, rs) ∷ m) cell h =
      let (cell', e, h') =
        each_lem (λ r s. CellOk version_of version s) close_once
          (λ r s p. let (s', e, p', _, _) = close_once_lem s p in (s', e, p')) rs cell h in
      let (cell'', e', h'') = close_lists_lem m cell' h' in (cell'', rw (e, close_lists) e', h'')

  take_frame-CellOk :
      (s : Subscription S) (xs : List S)
      → s.buffer ≡ xs
      → CellOk version_of version s
      → CellOk version_of version (take_frame xs s)
  unfolding take_frame
  take_frame-CellOk s [] e h = h
  take_frame-CellOk s (x ∷ xs) e h = record {
    agrees = h.agrees;
    bounded = omega (arith, h.bounded, ap (length {0}) e);
    rising =
        subst (λ fs. Climbs version_of 0 fs version)
          (ap (λ buf. s.received ++ buf) e ∙ sym (append_assoc s.received (x ∷ []) xs)) h.rising;
  }

  -- Taking a frame keeps the order of the frames.
  pub receive_lem :
      (s : Subscription S)
      → CellOk version_of version s
      → CellOk version_of version (take_frame s.buffer s)
  receive_lem s h = take_frame-CellOk s s.buffer refl h

  pub grown :
      (version' : ℕ) (s : Subscription S)
      → version ≤ version'
      → CellOk version_of version s
      → CellOk version_of version' s
  grown version' s le h = record {
    agrees = h.agrees;
    bounded = h.bounded;
    rising = Climbs-mono version_of 0 (s.received ++ s.buffer) version version' le h.rising;
  }

  sent :
      (snap : S) (s : Subscription S)
      → version < version_of snap
      → length s.buffer < channel_capacity
      → CellOk version_of version s
      → CellOk version_of (version_of snap) (record s { buffer = s.buffer ++ snap ∷ [] })
  sent snap s lt room h = record {
    agrees = h.agrees;
    bounded = omega (arith, length-append s.buffer (snap ∷ []));
    rising =
        subst (λ fs. Climbs version_of 0 fs (version_of snap))
          (append_assoc s.received s.buffer (snap ∷ []))
          (Climbs-snoc version_of 0 (s.received ++ s.buffer) version snap (version_of snap) lt
            (omega arith) h.rising);
  }

  -- A frame of a later version is put behind the others if the subscription is open and has room.
  pub offer_lem :
      (snap : S) (s : Subscription S)
      → version < version_of snap
      → CellOk version_of version s
      → (s' : Subscription S) × (offer snap s ≡ some s')
        × CellOk version_of (version_of snap) s'
        × (s'.account_id ≡ s.account_id)
        × (s'.closed ≡ s.closed)
  unfolding offer
  offer_lem snap s lt h = elim (Bool-cases s.closed) [
    | inl c ↦ (s, rw c, grown (version_of snap) s (omega arith) h, refl, refl)
    | inr o ↦ elim (Bool-cases (ltb (length s.buffer) channel_capacity)) [
      | inl room ↦ (
        record s { buffer = s.buffer ++ snap ∷ [] },
        rw (o, ← h.agrees, o, room),
        sent snap s lt (ltb→lt _ _ room) h,
        refl,
        refl,
      )
      | inr full ↦
          (s, rw (o, ← h.agrees, o, full), grown (version_of snap) s (omega arith) h, refl, refl)
    ]
  ]
