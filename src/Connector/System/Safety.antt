-- ===== src/Connector/System/Safety.antt =====
-- Every reachable state of the connector is consistent, and what follows from that.
use agent_chat.Prelude.{
  ℕ, ◌≡◌, inl, inr, refl, ap, subst, ◌++◌, Bool-cases, true, some, List, [], ◌∷◌, Str, str_eq_refl,
  arith, ◌⊎◌,
}
use agent_chat.Errcode.Result.{ok}
use agent_chat.Connector.{disconnecting, Connector, fail_connect, finish_connect, close_done}
use agent_chat.Connector.System.{
  Task, dialing, awaiting_pump, drained, Goes, System, Step, reserves, dial_fails, dial_succeeds,
  starts_hanging_up, hang_up_fails, hang_up_succeeds, releases, delivers, drains, closes_done,
  subscribes, unsubscribes, Reach, start, later,
}
use agent_chat.Connector.System.Slots.{
  total, pumps, slot_dials, slot_pumps, Consistent, phase_dials,
}
use agent_chat.Connector.System.Steps.{Found, dialing_lem, hanging_up_lem, pump_lem}
use agent_chat.Connector.System.Connects.{
  begin_connect-Consistent, fail_connect_eq, fail_connect-Consistent, finish_connect_eq,
  finish_connect-Consistent,
}
use agent_chat.Connector.System.Disconnects.{
  begin_disconnect-Consistent, fail_disconnect-Consistent, hang_up-Consistent,
  finish_disconnect-Consistent,
}
use agent_chat.Connector.System.Pumps.{
  deliver-Consistent, drain-Consistent, subscribe-Consistent, unsubscribe-Consistent, close_done_eq,
  close_done-Consistent,
}

module _ {E : Type 0} where
  pub Step-Consistent :
      (s t : System E) → Step s t → Consistent s.conn s.tasks → Consistent t.conn t.tasks
  Step-Consistent s t (reserves a r e g) h =
      begin_connect-Consistent s.conn t.conn s.tasks t.tasks h a r e g
  Step-Consistent s t (dial_fails a e g) h =
      fail_connect-Consistent s.conn t.conn s.tasks t.tasks h a e g
  Step-Consistent s t (dial_succeeds a p r e g) h =
      finish_connect-Consistent s.conn t.conn s.tasks t.tasks h a p r e g
  Step-Consistent s t (starts_hanging_up a r e g) h =
      begin_disconnect-Consistent s.conn t.conn s.tasks t.tasks h a r e g
  Step-Consistent s t (hang_up_fails a r e g) h =
      fail_disconnect-Consistent s.conn t.conn s.tasks t.tasks h a r e g
  Step-Consistent s t (hang_up_succeeds a r e g) h =
      hang_up-Consistent s.conn t.conn s.tasks t.tasks h a r e g
  Step-Consistent s t (releases a r d e g) h =
      finish_disconnect-Consistent s.conn t.conn s.tasks t.tasks h a r d e g
  Step-Consistent s t (delivers a r ev e g) h =
      deliver-Consistent s.conn t.conn s.tasks t.tasks h a r ev e g
  Step-Consistent s t (drains a r e g) h = drain-Consistent s.conn t.conn s.tasks t.tasks h a r e g
  Step-Consistent s t (closes_done a r e g) h =
      close_done-Consistent s.conn t.conn s.tasks t.tasks h a r e g
  Step-Consistent s t (subscribes a e g) h =
      subscribe-Consistent s.conn t.conn s.tasks t.tasks h a e g
  Step-Consistent s t (unsubscribes o e g) h =
      unsubscribe-Consistent s.conn t.conn s.tasks t.tasks h o e g

  -- In every state that is reached, an account has one Connect in the air exactly while its slot is
  -- connecting, one Disconnect exactly while it is disconnecting, and one pump from the end of the
  -- Connect until pumpDone is closed; without a slot it has none of them. Each of these goroutines
  -- holds the instance in its account's slot, and no two slots share an instance.
  pub Reach-Consistent : (s : System E) → Reach s → Consistent s.conn s.tasks
  Reach-Consistent s start = record {
    slots = λ b. record { dial = refl; hang_up = refl; pump = refl; own = refl };
    apart = λ a b r e k. absurd (ground (arith, e));
    old = λ b r e. absurd (ground (arith, e));
  }
  Reach-Consistent s (later t step) = Step-Consistent _ s step (Reach-Consistent _ t)

-- The pump of a disconnecting slot is over, or runs.
waiting :
    {E : Type 0}
    → (c : Connector E) (ts : List Task) → Consistent c ts
    → (a : Str) (r : ℕ) → Found c a r disconnecting
    → ((c.instance_at r).done ≡ true) ⊎ (total (pumps a) ts ≡ 1)
waiting c ts h a r f = elim (Bool-cases (c.instance_at r).done) [
  | inl over ↦ inl over
  | inr running ↦ inr (
      ground (
        arith,
        (h.slots a).pump,
        ap (slot_dials c.instance_at) f.slot,
        ap phase_dials f.phase,
        ap (slot_pumps c.instance_at) f.slot,
        running,
      ))
]

-- What a goroutine of the state can do: a Connect ends without a panic and finds its slot when its
-- provider is up, and a pump's last close finds pumpDone open. While a Disconnect waits, pumpDone is
-- closed or its pump is still there to close it.
pub record CanGo {E : Type 0} (s : System E) (t : Task) : Type 0 where
  pub fails : (a : Str) → t ≡ dialing a → (c : Connector E) × (fail_connect a s.conn ≡ some c)
  pub succeeds :
      (a : Str) (p : ℕ)
      → t ≡ dialing a
      → (r : ℕ) × (c : Connector E) × (finish_connect a p s.conn ≡ (ok r, c))
  pub closes :
      (a : Str) (r : ℕ) → t ≡ drained a r → (c : Connector E) × (close_done r s.conn ≡ some c)
  pub waits :
      (a : Str) (r : ℕ)
      → t ≡ awaiting_pump a r
      → ((s.conn.instance_at r).done ≡ true) ⊎ (total (pumps a) s.tasks ≡ 1)

module _ {E : Type 0} where
  -- In every state that is reached, each goroutine there is can go on: a Connect whose provider has
  -- failed closes pumpDone without a panic, one whose provider is up finds its slot and goes online,
  -- a pump's last close finds pumpDone open, and a Disconnect that waits for pumpDone waits for one
  -- that is closed or whose pump is still running.
  pub Reach-CanGo :
      (s : System E) (t : Task) (before after : List Task)
      → Reach s
      → s.tasks ≡ before ++ t ∷ after
      → CanGo s t
  Reach-CanGo s t before after reach e =
      let h = Reach-Consistent s reach in
      let rest : List Task = before ++ ([] ++ after) in
      let g : Goes t [] s.tasks rest = record {
        before = before;
        after = after;
        was = e;
        becomes = refl;
      } in
      record {
        fails = λ a same.
            let (r, f, running) =
              dialing_lem s.conn s.tasks rest h a [] (subst (λ x. Goes x [] s.tasks rest) same g) in
            (_, fail_connect_eq s.conn s.conn s.tasks rest h a r f.slot running);
        succeeds = λ a p same.
            let (r, f, running) =
              dialing_lem s.conn s.tasks rest h a [] (subst (λ x. Goes x [] s.tasks rest) same g) in
            (r, _, finish_connect_eq s.conn s.conn s.tasks rest h a p r f.slot);
        closes = λ a r same.
            let (slot, running) =
              pump_lem s.conn s.tasks rest h a (drained a r) [] r
                (subst (λ x. Goes x [] s.tasks rest) same g) (rw (str_eq_refl a) refl)
                (λ o. rw (str_eq_refl a) refl) in
            (_, close_done_eq s.conn s.conn s.tasks rest h r running);
        waits = λ a r same.
            let f =
              hanging_up_lem s.conn s.tasks rest h a (awaiting_pump a r) [] r
                (subst (λ x. Goes x [] s.tasks rest) same g) (rw (str_eq_refl a) refl)
                (λ o. rw (str_eq_refl a) refl) in
            waiting s.conn s.tasks h a r f;
      }
