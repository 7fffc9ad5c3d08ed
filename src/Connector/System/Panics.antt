-- ===== src/Connector/System/Panics.antt =====
-- No channel of a subscription is closed twice, and none is sent on after its close.
use agent_chat.Prelude.{some_injective, ℕ, ◌≡◌, refl, sym, ap, subst, ◌∙◌, Option, some, Str}
use agent_chat.Connector.{
  Connector, fail_disconnect, finish_disconnect, deliver, drain, unsubscribe,
}
use agent_chat.Connector.System.{
  System, Step, reserves, dial_fails, dial_succeeds, starts_hanging_up, hang_up_fails,
  hang_up_succeeds, releases, delivers, drains, closes_done, subscribes, unsubscribes, Reach, start,
  later,
}
use agent_chat.Connector.System.Channels.{
  Synced, deliver-Synced, drain-Synced, unsubscribe-Synced, subscribe-Synced, begin_connect-cell,
  finish_connect-cell, begin_disconnect-cell, close_done-cell, fail_connect-cell,
}

module _ {E : Type 0} where
  kept : (c d : Connector E) → d.cell ≡ c.cell → Synced c.cell → Synced d.cell
  kept c d e h = subst Synced (sym e) h

  -- A section that is known to succeed made what it made.
  made :
      (o : Option (Connector E)) (d : Connector E)
      → o ≡ some d
      → (c' : Connector E) × (o ≡ some c') × Synced c'.cell
      → Synced d.cell
  made o d e (c', k, h) = kept c' d (ap (λ x. x.cell) (some_injective d c' (sym e ∙ k))) h

  Step-Synced : (s t : System E) → Step s t → Synced s.conn.cell → Synced t.conn.cell
  unfolding fail_disconnect finish_disconnect
  Step-Synced s t (reserves a r e g) h =
      kept s.conn t.conn (sym (ap (λ x. x.1.cell) e) ∙ begin_connect-cell a s.conn) h
  Step-Synced s t (dial_fails a e g) h = kept s.conn t.conn (fail_connect-cell a s.conn t.conn e) h
  Step-Synced s t (dial_succeeds a p r e g) h =
      kept s.conn t.conn (sym (ap (λ x. x.1.cell) e) ∙ finish_connect-cell a p s.conn) h
  Step-Synced s t (starts_hanging_up a r e g) h =
      kept s.conn t.conn (sym (ap (λ x. x.1.cell) e) ∙ begin_disconnect-cell a s.conn) h
  Step-Synced s t (hang_up_fails a r e g) h = kept s.conn t.conn (ap (λ x. x.cell) e) h
  Step-Synced s t (hang_up_succeeds a r e g) h = kept s.conn t.conn (ap (λ x. x.cell) e) h
  Step-Synced s t (releases a r d e g) h = kept s.conn t.conn (ap (λ x. x.cell) e) h
  Step-Synced s t (delivers a r ev e g) h =
      made (deliver a ev s.conn) t.conn e (deliver-Synced a ev s.conn h)
  Step-Synced s t (drains a r e g) h = made (drain a s.conn) t.conn e (drain-Synced a s.conn h)
  Step-Synced s t (closes_done a r e g) h = kept s.conn t.conn (close_done-cell r s.conn t.conn e) h
  Step-Synced s t (subscribes a e g) h =
      subst (λ x. Synced x.cell) (sym e) (subscribe-Synced a s.conn h)
  Step-Synced s t (unsubscribes o e g) h =
      made (unsubscribe o s.conn) t.conn e (unsubscribe-Synced o s.conn h)

  pub Reach-Synced : (s : System E) → Reach s → Synced s.conn.cell
  Reach-Synced s start = λ r. refl
  Reach-Synced s (later t step) = Step-Synced _ s step (Reach-Synced _ t)

  -- In every state that is reached, a pump's delivery of an event to the account's subscribers, its
  -- closing of them at the end, and an unsubscription end without a panic, whichever subscriptions
  -- were closed before by the other side.
  pub fan_out_safe :
      (s : System E)
      → Reach s
      → ((a : Str) (ev : E) → (c : Connector E) × (deliver a ev s.conn ≡ some c))
        × ((a : Str) → (c : Connector E) × (drain a s.conn ≡ some c))
        × ((o : Option ℕ) → (c : Connector E) × (unsubscribe o s.conn ≡ some c))
  fan_out_safe s reach =
      let h = Reach-Synced s reach in
      (
        λ a ev. let (c, e, k) = deliver-Synced a ev s.conn h in (c, e),
        λ a. let (c, e, k) = drain-Synced a s.conn h in (c, e),
        λ o. let (c, e, k) = unsubscribe-Synced o s.conn h in (c, e),
      )
