-- ===== src/Connector/System/Disconnects.antt =====
-- The sections of Disconnect.
use agent_chat.Prelude.{
  ℕ, ◌≡◌, refl, sym, ap, subst, ◌∙◌, true, Option, none, some, List, [], ◌∷◌, Str, str_eq_refl,
  lookup, arith,
}
use agent_chat.Errcode.Result.{ok}
use agent_chat.Connector.{
  Phase, connecting, online, disconnecting, Connector, hang_up_in, hang_up_if, set_phase,
  begin_disconnect, fail_disconnect, finish_disconnect,
}
use agent_chat.Connector.System.{Task, hanging_up, awaiting_pump, Goes}
use agent_chat.Connector.System.Slots.{
  total, total-Goes, dials, hangs_up, pumps, strays, slot_dials, slot_hangs_up, slot_pumps, SlotOk,
  Consistent, phase_dials, phase_hangs_up,
}
use agent_chat.Connector.System.Others.{Same-begun, Same-gone}
use agent_chat.Connector.System.Steps.{
  set_instance-Consistent, forget-Consistent, Found, hanging_up_lem,
}
use agent_chat.Connector.System.Frames.{empty_slot, Same-kind, Kept-Consistent}

module _ {E : Type 0} (c c' : Connector E) (ts ts' : List Task) (h : Consistent c ts) (a : Str)
    (r : ℕ) where
  s : SlotOk c.instance_at (lookup a c.instances) a ts
  s = h.slots a

  -- An online slot that starts to hang up, and one whose Disconnect has failed.
  hanging :
      Found c a r online
      → ts' ≡ hanging_up a r ∷ ts
      → SlotOk (set_phase r disconnecting c).instance_at (some r) a ts'
  hanging f grown =
      let k = ap phase_dials f.phase in
      let o = ap (slot_dials c.instance_at) f.slot in
      rw grown (record {
        dial = ground (arith, s.dial, k, o);
        hang_up = ground (
          arith,
          str_eq_refl a,
          s.hang_up,
          ap (slot_hangs_up c.instance_at) f.slot,
          ap phase_hangs_up f.phase,
        );
        pump = ground (arith, s.pump, k, o, ap (slot_pumps c.instance_at) f.slot);
        own = ground (arith, str_eq_refl a, s.own, ap (λ x. total (strays a x) ts) f.slot);
      })

  pub begin_disconnect-Consistent :
      begin_disconnect a c ≡ (ok r, c') → ts' ≡ hanging_up a r ∷ ts → Consistent c' ts'
  unfolding begin_disconnect
  begin_disconnect-Consistent e grown = at_slot (lookup a c.instances) refl e
    where
      at_phase :
          (q : ℕ)
          → lookup a c.instances ≡ some q
          → (p : Phase) → (c.instance_at q).phase ≡ p
          → hang_up_in p q c ≡ (ok r, c')
          → Consistent c' ts'
      at_phase q slot online phase k =
          let same : q ≡ r = ground (arith, ap (λ x. x.0) k) in
          let f : Found c a r online =
            subst (λ x. Found c a x online) same (record { slot = slot; phase = phase }) in
          subst (λ x. Consistent x ts')
            (ap (λ x. set_phase x disconnecting c) (sym same) ∙ ap (λ x. x.1) k)
            (set_instance-Consistent c ts ts' a r
              (record (c.instance_at r) { phase = disconnecting }) h f.slot
              (λ b other. rw grown (Same-begun b (hanging_up a r) ts other)) (hanging f grown))
      at_phase q slot connecting phase k = absurd (ground (arith, ap (λ p. p.0) k))
      at_phase q slot disconnecting phase k = absurd (ground (arith, ap (λ p. p.0) k))

      at_slot :
          (o : Option ℕ)
          → lookup a c.instances ≡ o
          → hang_up_if o c ≡ (ok r, c')
          → Consistent c' ts'
      at_slot none free k = absurd (ground (arith, ap (λ p. p.0) k))
      at_slot (some q) slot k = at_phase q slot (c.instance_at q).phase refl k

  back_online :
      Found c a r disconnecting
      → Goes (hanging_up a r) [] ts ts'
      → SlotOk (set_phase r online c).instance_at (some r) a ts'
  back_online f g =
      let k = ap phase_dials f.phase in
      let o = ap (slot_dials c.instance_at) f.slot in
      record {
        dial = ground (arith, total-Goes (dials a) (hanging_up a r) [] ts ts' g, s.dial, k, o);
        hang_up = ground (
          arith,
          total-Goes (hangs_up a) (hanging_up a r) [] ts ts' g,
          str_eq_refl a,
          s.hang_up,
          ap (slot_hangs_up c.instance_at) f.slot,
          ap phase_hangs_up f.phase,
        );
        pump = ground (
          arith,
          total-Goes (pumps a) (hanging_up a r) [] ts ts' g,
          s.pump,
          k,
          o,
          ap (slot_pumps c.instance_at) f.slot,
        );
        own = ground (
          arith,
          total-Goes (strays a (some r)) (hanging_up a r) [] ts ts' g,
          s.own,
          ap (λ x. total (strays a x) ts) f.slot,
        );
      }

  pub fail_disconnect-Consistent :
      c' ≡ fail_disconnect r c → Goes (hanging_up a r) [] ts ts' → Consistent c' ts'
  unfolding fail_disconnect
  fail_disconnect-Consistent e g =
      let f : Found c a r disconnecting =
        hanging_up_lem c ts ts' h a (hanging_up a r) [] r g (rw (str_eq_refl a) refl)
          (λ o. rw (str_eq_refl a) refl) in
      rw e (
        set_instance-Consistent c ts ts' a r (record (c.instance_at r) { phase = online }) h f.slot
          (λ b other. Same-gone b (hanging_up a r) ts ts' other g) (back_online f g))

  pub hang_up-Consistent :
      c' ≡ c → Goes (hanging_up a r) (awaiting_pump a r ∷ []) ts ts' → Consistent c' ts'
  hang_up-Consistent e g = rw e (
      Kept-Consistent c c ts ts' (record { map = refl; at = refl; next = refl })
        (Same-kind (hanging_up a r) (awaiting_pump a r) ts ts' g
          (λ b. (refl, refl, refl, λ o. refl)))
        h)

  -- The slot is cleared when its pump is over.
  pub finish_disconnect-Consistent :
      (c.instance_at r).done ≡ true
      → c' ≡ finish_disconnect a c
      → Goes (awaiting_pump a r) [] ts ts'
      → Consistent c' ts'
  unfolding finish_disconnect
  finish_disconnect-Consistent over e g =
      let f : Found c a r disconnecting =
        hanging_up_lem c ts ts' h a (awaiting_pump a r) [] r g (rw (str_eq_refl a) refl)
          (λ o. rw (str_eq_refl a) refl) in
      let k = ap phase_dials f.phase in
      let o = ap (slot_dials c.instance_at) f.slot in
      rw e (
        forget-Consistent c ts ts' a h (λ b other. Same-gone b (awaiting_pump a r) ts ts' other g)
          (empty_slot c.instance_at a ts'
            (ground (arith, total-Goes (dials a) (awaiting_pump a r) [] ts ts' g, s.dial, k, o))
            (ground (
              arith,
              total-Goes (hangs_up a) (awaiting_pump a r) [] ts ts' g,
              str_eq_refl a,
              s.hang_up,
              ap (slot_hangs_up c.instance_at) f.slot,
              ap phase_hangs_up f.phase,
            ))
            (ground (
              arith,
              total-Goes (pumps a) (awaiting_pump a r) [] ts ts' g,
              s.pump,
              k,
              o,
              ap (slot_pumps c.instance_at) f.slot,
              over,
            ))))
