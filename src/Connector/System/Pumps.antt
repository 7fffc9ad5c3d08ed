-- ===== src/Connector/System/Pumps.antt =====
-- The sections of a pump, and of the subscriptions.
use agent_chat.Prelude.{
  some_injective, ℕ, ◌≡◌, refl, sym, ap, subst, ◌∙◌, true, false, Option, none, some, List, [], ◌∷◌,
  Str, str_eq_refl, lookup, delete, arith,
}
use agent_chat.Connector.{
  Instance, Connector, set_instance, close_done, deliver, drain, subscribe, unsubscribe, drop_sub,
}
use agent_chat.Connector.System.{Task, pumping, drained, Goes}
use agent_chat.Connector.System.Slots.{
  total, total-Goes, dials, hangs_up, pumps, strays, slot_dials, slot_hangs_up, slot_pumps, SlotOk,
  Consistent,
}
use agent_chat.Connector.System.Others.{Same, Same-gone}
use agent_chat.Connector.System.Steps.{set_instance-Consistent, pump_lem}
use agent_chat.Connector.System.Frames.{Same-kind, Kept-Consistent, with_cells-Kept}

module _ {E : Type 0} (c c' : Connector E) (ts ts' : List Task) (h : Consistent c ts) where
  pub deliver-Consistent :
      (a : Str) (r : ℕ) (ev : E)
      → deliver a ev c ≡ some c'
      → Goes (pumping a r) (pumping a r ∷ []) ts ts'
      → Consistent c' ts'
  unfolding deliver
  deliver-Consistent a r ev e g =
      Kept-Consistent c c' ts ts' (with_cells-Kept c c' _ e)
        (Same-kind (pumping a r) (pumping a r) ts ts' g (λ b. (refl, refl, refl, λ o. refl))) h

  pub drain-Consistent :
      (a : Str) (r : ℕ)
      → drain a c ≡ some c'
      → Goes (pumping a r) (drained a r ∷ []) ts ts'
      → Consistent c' ts'
  unfolding drain
  drain-Consistent a r e g =
      let k = with_cells-Kept (record c { subs = delete a c.subs }) c' _ e in
      Kept-Consistent c c' ts ts' (record { map = k.map; at = k.at; next = k.next })
        (Same-kind (pumping a r) (drained a r) ts ts' g (λ b. (refl, refl, refl, λ o. refl))) h

  tasks_kept : ts' ≡ ts → (b : Str) → Same b ts ts'
  tasks_kept e b = rw e (record { dial = refl; hang_up = refl; pump = refl; own = λ o. refl })

  pub subscribe-Consistent : (a : Str) → c' ≡ (subscribe a c).1 → ts' ≡ ts → Consistent c' ts'
  unfolding subscribe
  subscribe-Consistent a e same =
      Kept-Consistent c c' ts ts' (rw e (record { map = refl; at = refl; next = refl }))
        (tasks_kept same) h

  pub unsubscribe-Consistent :
      (o : Option ℕ) → unsubscribe o c ≡ some c' → ts' ≡ ts → Consistent c' ts'
  unfolding unsubscribe
  unsubscribe-Consistent none e same =
      Kept-Consistent c c' ts ts'
        (rw (sym (some_injective c c' e)) (record { map = refl; at = refl; next = refl }))
        (tasks_kept same) h
  unsubscribe-Consistent (some q) e same =
      let k = with_cells-Kept (drop_sub q c) c' _ e in
      Kept-Consistent c c' ts ts' (record { map = k.map; at = k.at; next = k.next })
        (tasks_kept same) h

  -- A pump's end closes pumpDone, which is open.
  pub close_done_eq :
      (r : ℕ)
      → (c.instance_at r).done ≡ false
      → close_done r c ≡ some (set_instance r (record (c.instance_at r) { done = true }) c)
  unfolding close_done
  close_done_eq r running = rw running refl

  over :
      (a : Str) (r : ℕ)
      → lookup a c.instances ≡ some r
      → (c.instance_at r).done ≡ false
      → Goes (drained a r) [] ts ts'
      → SlotOk
          (set_instance r (record (c.instance_at r) { done = true }) c).instance_at
          (some r)
          a
          ts'
  over a r slot running g =
      let s = h.slots a in
      let o = ap (slot_dials c.instance_at) slot in
      record {
        dial = ground (arith, total-Goes (dials a) (drained a r) [] ts ts' g, s.dial, o);
        hang_up = ground (
          arith,
          total-Goes (hangs_up a) (drained a r) [] ts ts' g,
          s.hang_up,
          ap (slot_hangs_up c.instance_at) slot,
        );
        pump = ground (
          arith,
          total-Goes (pumps a) (drained a r) [] ts ts' g,
          str_eq_refl a,
          s.pump,
          o,
          ap (slot_pumps c.instance_at) slot,
          running,
        );
        own = ground (
          arith,
          total-Goes (strays a (some r)) (drained a r) [] ts ts' g,
          s.own,
          ap (λ x. total (strays a x) ts) slot,
        );
      }

  pub close_done-Consistent :
      (a : Str) (r : ℕ)
      → close_done r c ≡ some c'
      → Goes (drained a r) [] ts ts'
      → Consistent c' ts'
  close_done-Consistent a r e g =
      let (slot, running) =
        pump_lem c ts ts' h a (drained a r) [] r g (rw (str_eq_refl a) refl)
          (λ o. rw (str_eq_refl a) refl) in
      let i : Instance = record (c.instance_at r) { done = true } in
      subst (λ x. Consistent x ts')
        (some_injective (set_instance r i c) c' (sym (close_done_eq r running) ∙ e))
        (set_instance-Consistent c ts ts' a r i h slot
          (λ b other. Same-gone b (drained a r) ts ts' other g) (over a r slot running g))
