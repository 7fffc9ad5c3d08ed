-- ===== src/Connector/System/Connects.antt =====
-- The sections of Connect.
use agent_chat.Prelude.{
  some_injective, ℕ, ◌≡◌, refl, sym, ap, subst, ◌∙◌, true, false, Option, none, some, List, [], ◌∷◌,
  Str, str_eq, str_eq_refl, lookup, arith,
}
use agent_chat.Errcode.Result.{Result, ok}
use agent_chat.Connector.{
  connecting, online, Instance, Connector, forget, forget_after, go_online, reserve_if, close_if,
  go_online_if, set_instance, begin_connect, fail_connect, finish_connect, close_done,
}
use agent_chat.Connector.System.{Task, dialing, pumping, Goes}
use agent_chat.Connector.System.Slots.{
  total, total-Goes, dials, hangs_up, pumps, strays, slot_dials, slot_hangs_up, slot_pumps, SlotOk,
  Consistent, phase_dials, phase_hangs_up,
}
use agent_chat.Connector.System.Others.{Same, Same-gone, Same-moved}
use agent_chat.Connector.System.Steps.{
  still_there, not_mine, set_instance-Consistent, forget-Consistent, reserve-Consistent, Found,
  dialing_lem,
}
use agent_chat.Connector.System.Frames.{empty_slot, orphan-Consistent}

module _ {E : Type 0} (c c' : Connector E) (ts ts' : List Task) (h : Consistent c ts)
    (a : Str) where
  s : SlotOk c.instance_at (lookup a c.instances) a ts
  s = h.slots a

  pub begin_connect-Consistent :
      (r : ℕ) → begin_connect a c ≡ (ok r, c') → ts' ≡ dialing a ∷ ts → Consistent c' ts'
  unfolding begin_connect
  begin_connect-Consistent r e grown = at_slot (lookup a c.instances) refl e
    where
      at_slot :
          (o : Option ℕ)
          → lookup a c.instances ≡ o
          → reserve_if o a c ≡ (ok r, c')
          → Consistent c' ts'
      at_slot none free k =
          subst (λ x. Consistent x ts') (ap (λ p. p.1) k)
            (rw grown (reserve-Consistent c ts a h free))
      at_slot (some q) taken k = absurd (ground (arith, ap (λ p. p.0) k))

  -- A Connect whose provider fails clears its slot.
  pub fail_connect_eq :
      (r : ℕ)
      → lookup a c.instances ≡ some r
      → (c.instance_at r).done ≡ false
      → fail_connect a c
        ≡ some (set_instance r (record (c.instance_at r) { done = true }) (forget a c))
  unfolding fail_connect close_done
  fail_connect_eq r slot running = ap (λ o. forget_after a (close_if o c)) slot ∙ rw running refl

  gone :
      (r : ℕ)
      → Found c a r connecting
      → (c.instance_at r).done ≡ false
      → Goes (dialing a) [] ts ts'
      → SlotOk c.instance_at none a ts'
  gone r f running g =
      let p = ap phase_dials f.phase in
      let d = ap (slot_dials c.instance_at) f.slot in
      let n = ap (slot_pumps c.instance_at) f.slot in
      empty_slot c.instance_at a ts'
        (ground (arith, total-Goes (dials a) (dialing a) [] ts ts' g, str_eq_refl a, s.dial, d, p))
        (ground (
          arith,
          total-Goes (hangs_up a) (dialing a) [] ts ts' g,
          s.hang_up,
          ap (slot_hangs_up c.instance_at) f.slot,
          ap phase_hangs_up f.phase,
        ))
        (ground (arith, total-Goes (pumps a) (dialing a) [] ts ts' g, s.pump, d, p, n, running))

  pub fail_connect-Consistent :
      fail_connect a c ≡ some c' → Goes (dialing a) [] ts ts' → Consistent c' ts'
  fail_connect-Consistent e g =
      let (r, f, running) = dialing_lem c ts ts' h a [] g in
      let i : Instance = record (c.instance_at r) { done = true } in
      let others : (b : Str) → str_eq a b ≡ false → Same b ts ts' =
        λ b other. Same-gone b (dialing a) ts ts' other g in
      subst (λ x. Consistent x ts')
        (some_injective (set_instance r i (forget a c)) c'
          (sym (fail_connect_eq r f.slot running) ∙ e))
        (orphan-Consistent (forget a c) ts' r i
          (λ b q k.
            let (other, theirs) = still_there a b q c k in
            not_mine c ts h a b r q f.slot other theirs)
          (forget-Consistent c ts ts' a h others (gone r f running g)))

  pub finish_connect_eq :
      (p r : ℕ) → lookup a c.instances ≡ some r → finish_connect a p c ≡ (ok r, go_online r p c)
  unfolding finish_connect
  finish_connect_eq p r slot = ap (λ o. go_online_if o p c) slot

  went_online :
      (p r : ℕ)
      → Found c a r connecting
      → (c.instance_at r).done ≡ false
      → Goes (dialing a) (pumping a r ∷ []) ts ts'
      → SlotOk (go_online r p c).instance_at (some r) a ts'
  went_online p r f running g =
      let k = ap phase_dials f.phase in
      let o = ap (slot_dials c.instance_at) f.slot in
      record {
        dial = ground (
          arith,
          total-Goes (dials a) (dialing a) (pumping a r ∷ []) ts ts' g,
          str_eq_refl a,
          s.dial,
          k,
          o,
        );
        hang_up = ground (
          arith,
          total-Goes (hangs_up a) (dialing a) (pumping a r ∷ []) ts ts' g,
          s.hang_up,
          ap (slot_hangs_up c.instance_at) f.slot,
          ap phase_hangs_up f.phase,
        );
        pump = ground (
          arith,
          total-Goes (pumps a) (dialing a) (pumping a r ∷ []) ts ts' g,
          str_eq_refl a,
          s.pump,
          k,
          o,
          ap (slot_pumps c.instance_at) f.slot,
          running,
        );
        own = ground (
          arith,
          total-Goes (strays a (some r)) (dialing a) (pumping a r ∷ []) ts ts' g,
          str_eq_refl a,
          s.own,
          ap (λ x. total (strays a x) ts) f.slot,
        );
      }

  pub finish_connect-Consistent :
      (p r : ℕ)
      → finish_connect a p c ≡ (ok r, c')
      → Goes (dialing a) (pumping a r ∷ []) ts ts'
      → Consistent c' ts'
  finish_connect-Consistent p r e g =
      let (q, f, running) = dialing_lem c ts ts' h a (pumping a r ∷ []) g in
      let made : ◌≡◌ {A = Result ℕ × Connector E} (ok q, go_online q p c) (ok r, c') =
        sym (finish_connect_eq p q f.slot) ∙ e in
      let same : q ≡ r = ground (arith, ap (λ x. x.0) made) in
      subst (λ x. Consistent x ts') (ap (λ x. x.1) made)
        (set_instance-Consistent c ts ts' a q
          (record (c.instance_at q) { provider = some p; phase = online }) h f.slot
          (λ b other. Same-moved b (dialing a) (pumping a r) ts ts' other other g)
          (went_online p q f running
            (subst (λ x. Goes (dialing a) (pumping a x ∷ []) ts ts') (sym same) g)))
