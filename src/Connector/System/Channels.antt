-- ===== src/Connector/System/Channels.antt =====
-- The channels of the subscriptions: one is closed exactly with its subscription.
use agent_chat.Prelude.{
  some_injective, ℕ, ◌≡◌, inl, inr, refl, sym, ap, ◌∙◌, Bool-cases, true, false, Option, none, some,
  List, [], ◌∷◌, Str, lookup, delete, ◌==◌, arith,
}
use agent_chat.Bus.{write}
use agent_chat.Connector.{
  Phase, connecting, online, disconnecting, Subscription, Connector, forget, forget_after,
  hang_up_in, hang_up_if, reserve_if, close_if, go_online_if, set_instance, begin_connect,
  fail_connect, finish_connect, begin_disconnect, close_done, with_cells, deliver, drain, subscribe,
  unsubscribe,
}
use agent_chat.Bus.{or_nil}
use agent_chat.Prelude.{length, ltb, ◌++◌}
use agent_chat.Connector.{channel_capacity, each, offer, close_once, then_write, drop_sub}

abbrev pub Synced : {E : Type 0} → (ℕ → Subscription E) → Type 0
Synced cell = (r : ℕ) → (cell r).channel_closed ≡ (cell r).closed

-- A section of one subscription that does not panic.
abbrev Calm : {E : Type 0} → (Subscription E → Option (Subscription E)) → Type 0
Calm {E} f =
    (s : Subscription E)
    → s.channel_closed ≡ s.closed
    → (s' : Subscription E) × (f s ≡ some s') × (s'.channel_closed ≡ s'.closed)

module _ {E : Type 0} where
  close_once-Calm : Calm (close_once {E = E})
  unfolding close_once
  close_once-Calm s h = elim (Bool-cases s.closed) [
    | inl shut ↦ (s, rw shut refl, h)
    | inr live ↦ (record s { closed = true; channel_closed = true }, rw (live, h, live) refl, refl)
  ]

  offer-Calm : (ev : E) → Calm (offer ev)
  unfolding offer
  offer-Calm ev s h = elim (Bool-cases s.closed) [
    | inl shut ↦ (s, rw shut refl, h)
    | inr live ↦ elim (Bool-cases (ltb (length s.buffer) channel_capacity)) [
      | inl room ↦ (record s { buffer = s.buffer ++ ev ∷ [] }, rw (live, h, live, room) refl, h)
      | inr full ↦ (s, rw (live, h, live, full) refl, h)
    ]
  ]

  write-Synced :
      (cell : ℕ → Subscription E) (r : ℕ) (s : Subscription E)
      → Synced cell
      → s.channel_closed ≡ s.closed
      → Synced (write cell r s)
  write-Synced cell r s h k q = elim (Bool-cases (r == q)) [
    | inl here ↦ rw here k
    | inr there ↦ rw there (h q)
  ]

  -- A calm section of each subscription of a list.
  each-Calm :
      (f : Subscription E → Option (Subscription E)) (rs : List ℕ) (cell : ℕ → Subscription E)
      → Calm f
      → Synced cell
      → (cell' : ℕ → Subscription E) × (each f rs cell ≡ some cell') × Synced cell'
  unfolding each
  each-Calm f [] cell calm h = (cell, refl, h)
  each-Calm f (r ∷ rs) cell calm h =
      let (s', e, k) = calm (cell r) (h r) in
      let (last, all, kept) = each-Calm f rs (write cell r s') calm (write-Synced cell r s' h k) in
      (
        last,
        ap (λ o. elim (then_write cell r o) [ none ↦ none | some now ↦ each f rs now ]) e ∙ all,
        kept,
      )

  -- So the sections of all subscriptions of a list do not panic, and leave the channels in step.
  pub with_cells-Synced :
      (f : Subscription E → Option (Subscription E)) (rs : List ℕ) (c d : Connector E)
      → Calm f
      → Synced c.cell
      → (c' : Connector E) × (with_cells d (each f rs c.cell) ≡ some c') × Synced c'.cell
  with_cells-Synced f rs c d calm h =
      let (cell, e, k) = each-Calm f rs c.cell calm h in
      (record d { cell = cell }, ap (with_cells d) e, k)

  pub deliver-Synced :
      (a : Str) (ev : E) (c : Connector E)
      → Synced c.cell
      → (c' : Connector E) × (deliver a ev c ≡ some c') × Synced c'.cell
  unfolding deliver
  deliver-Synced a ev c h =
      with_cells-Synced (offer ev) (or_nil (lookup a c.subs)) c c (offer-Calm ev) h

  pub drain-Synced :
      (a : Str) (c : Connector E)
      → Synced c.cell
      → (c' : Connector E) × (drain a c ≡ some c') × Synced c'.cell
  unfolding drain
  drain-Synced a c h =
      with_cells-Synced close_once (or_nil (lookup a c.subs)) c
        (record c { subs = delete a c.subs }) close_once-Calm h

  pub unsubscribe-Synced :
      (o : Option ℕ) (c : Connector E)
      → Synced c.cell
      → (c' : Connector E) × (unsubscribe o c ≡ some c') × Synced c'.cell
  unfolding unsubscribe
  unsubscribe-Synced none c h = (c, refl, h)
  unsubscribe-Synced (some r) c h =
      with_cells-Synced close_once (r ∷ []) c (drop_sub r c) close_once-Calm h

  pub subscribe-Synced : (a : Str) (c : Connector E) → Synced c.cell → Synced (subscribe a c).1.cell
  unfolding subscribe
  subscribe-Synced a c h =
      write-Synced c.cell c.next_sub
        (record { account_id = a; closed = false; buffer = []; channel_closed = false }) h refl

  -- The sections of Connect and Disconnect leave the subscriptions alone.
  pub begin_connect-cell : (a : Str) (c : Connector E) → (begin_connect a c).1.cell ≡ c.cell
  unfolding begin_connect
  begin_connect-cell a c = at_slot (lookup a c.instances)
    where
      at_slot : (o : Option ℕ) → (reserve_if o a c).1.cell ≡ c.cell
      at_slot none = refl
      at_slot (some r) = refl

  pub finish_connect-cell :
      (a : Str) (p : ℕ) (c : Connector E) → (finish_connect a p c).1.cell ≡ c.cell
  unfolding finish_connect
  finish_connect-cell a p c = at_slot (lookup a c.instances)
    where
      at_slot : (o : Option ℕ) → (go_online_if o p c).1.cell ≡ c.cell
      at_slot none = refl
      at_slot (some r) = refl

  pub begin_disconnect-cell : (a : Str) (c : Connector E) → (begin_disconnect a c).1.cell ≡ c.cell
  unfolding begin_disconnect
  begin_disconnect-cell a c = at_slot (lookup a c.instances)
    where
      in_phase : (p : Phase) (r : ℕ) → (hang_up_in p r c).1.cell ≡ c.cell
      in_phase online r = refl
      in_phase connecting r = refl
      in_phase disconnecting r = refl

      at_slot : (o : Option ℕ) → (hang_up_if o c).1.cell ≡ c.cell
      at_slot none = refl
      at_slot (some r) = in_phase (c.instance_at r).phase r

  pub close_done-cell : (r : ℕ) (c c' : Connector E) → close_done r c ≡ some c' → c'.cell ≡ c.cell
  unfolding close_done
  close_done-cell r c c' e = elim (Bool-cases (c.instance_at r).done) [
    | inl over ↦ absurd (ground (arith, over, e))
    | inr running ↦
        let d : Connector E = set_instance r (record (c.instance_at r) { done = true }) c in
        let shut : close_done r c ≡ some d = rw running refl in
        ap (λ x. x.cell) (sym (some_injective d c' (sym shut ∙ e)))
  ]

  pub fail_connect-cell :
      (a : Str) (c c' : Connector E) → fail_connect a c ≡ some c' → c'.cell ≡ c.cell
  unfolding fail_connect
  fail_connect-cell a c c' e = at_slot (lookup a c.instances) e
    where
      after :
          (o : Option (Connector E))
          → ((d : Connector E) → o ≡ some d → d.cell ≡ c.cell)
          → forget_after a o ≡ some c'
          → c'.cell ≡ c.cell
      after none k e = absurd (ground (arith, e))
      after (some d) k e = ap (λ x. x.cell) (sym (some_injective (forget a d) c' e)) ∙ k d refl

      at_slot : (o : Option ℕ) → forget_after a (close_if o c) ≡ some c' → c'.cell ≡ c.cell
      at_slot none e = ap (λ x. x.cell) (sym (some_injective (forget a c) c' e))
      at_slot (some r) e = after (close_done r c) (λ d k. close_done-cell r c d k) e
