-- ===== src/Connector/System/Steps.antt =====
-- Each section of Connect, Disconnect and the pump keeps the slots consistent.
use agent_chat.Prelude.{
  ◌⊎◌, ℕ, ◌≤◌, ◌≡◌, inl, inr, refl, sym, ap, ◌∙◌, Bool-cases, false, Option, none, some, List, ◌∷◌,
  Str, str_eq, str_eq_refl, str_eq_iff, str_eq_sound, lookup, lookup-put, lookup-delete, delete,
  ◌==◌, arith,
}
use agent_chat.Bus.{write}
use agent_chat.Bus.Loops.{eq_of_test}
use agent_chat.Connector.{
  Phase, connecting, online, disconnecting, Instance, Connector, reserve, forget, set_instance,
}
use agent_chat.Connector.System.{Task, dialing, Goes}
use agent_chat.Connector.System.Slots.{
  total, total-at_least, dials, hangs_up, pumps, strays, differs, phase_dials, phase_hangs_up,
  slot_hangs_up, slot_pumps, SlotOk, Consistent,
}
use agent_chat.Connector.System.Others.{
  Same, Same-begun, SlotOk-Same, each_account, own_ref, strays_le,
}

module _ {E : Type 0} where
  -- The slots of the other accounts hold other instances.
  pub not_mine :
      (c : Connector E) (ts : List Task) (h : Consistent c ts) (a b : Str) (r q : ℕ)
      → lookup a c.instances ≡ some r
      → str_eq a b ≡ false
      → lookup b c.instances ≡ some q
      → (r == q) ≡ false
  not_mine c ts h a b r q mine other theirs = elim (Bool-cases (r == q)) [
    | inl same ↦ absurd (
        ground (
          arith,
          other,
          (str_eq_iff a b).1 (h.apart a b r mine (theirs ∙ ap some (sym (eq_of_test r q same)))),
        ))
    | inr apart ↦ apart
  ]

  -- A change of the instance in the account's slot.
  pub set_instance-Consistent :
      (c : Connector E) (ts ts' : List Task) (a : Str) (r : ℕ) (i : Instance)
      → Consistent c ts
      → lookup a c.instances ≡ some r
      → ((b : Str) → str_eq a b ≡ false → Same b ts ts')
      → SlotOk (write c.instance_at r i) (some r) a ts'
      → Consistent (set_instance r i c) ts'
  set_instance-Consistent c ts ts' a r i h mine same slot = record {
    slots =
        each_account (λ b. SlotOk (write c.instance_at r i) (lookup b c.instances) b ts') a
          (rw mine slot)
          (λ b other.
            SlotOk-Same c.instance_at (write c.instance_at r i) (lookup b c.instances) b ts ts'
              (λ q theirs. rw (not_mine c ts h a b r q mine other theirs) refl) (same b other)
              (h.slots b));
    apart = h.apart;
    old = h.old;
  }

  -- The slots that are left after one is cleared are those of the other accounts.
  pub still_there :
      (a b : Str) (r : ℕ) (c : Connector E)
      → lookup b (forget a c).instances ≡ some r
      → (str_eq a b ≡ false) × (lookup b c.instances ≡ some r)
  still_there a b r c e = elim (Bool-cases (str_eq a b)) [
    | inl same ↦ absurd (ground (arith, lookup-delete a b c.instances, same, e))
    | inr other ↦ (other, sym (lookup-delete a b c.instances ∙ rw other refl) ∙ e)
  ]

  -- The slot of the account is cleared.
  pub forget-Consistent :
      (c : Connector E) (ts ts' : List Task) (a : Str)
      → Consistent c ts
      → ((b : Str) → str_eq a b ≡ false → Same b ts ts')
      → SlotOk c.instance_at none a ts'
      → Consistent (forget a c) ts'
  forget-Consistent c ts ts' a h same slot = record {
    slots =
        each_account (λ b. SlotOk c.instance_at (lookup b (delete a c.instances)) b ts') a
          (rw (lookup-delete a a c.instances, str_eq_refl a) slot)
          (λ b other.
            rw (lookup-delete a b c.instances, other)
              (SlotOk-Same c.instance_at c.instance_at (lookup b c.instances) b ts ts' (λ q e. refl)
                (same b other) (h.slots b)));
    apart = λ b d r e k. h.apart b d r (still_there a b r c e).1 (still_there a d r c k).1;
    old = λ b r e. h.old b r (still_there a b r c e).1;
  }

  slot_cases :
      (c : Connector E) (a b : Str) (r : ℕ)
      → lookup b (reserve a c).instances ≡ some r
      → ((a ≡ b) × (r ≡ c.next)) ⊎ (lookup b c.instances ≡ some r)
  slot_cases c a b r e = elim (Bool-cases (str_eq a b)) [
    | inl same ↦ inl (str_eq_sound a b same, ground (arith, same, e))
    | inr other ↦ inr (sym (lookup-put a b c.next c.instances ∙ rw other refl) ∙ e)
  ]

  pub reserve-Consistent :
      (c : Connector E) (ts : List Task) (a : Str)
      → Consistent c ts
      → lookup a c.instances ≡ none
      → Consistent (reserve a c) (dialing a ∷ ts)
  reserve-Consistent c ts a h free =
      let s : SlotOk c.instance_at none a ts = rw⁻¹ free (h.slots a) in
      record {
        slots =
            each_account
              (λ b.
                SlotOk (reserve a c).instance_at (lookup b (reserve a c).instances) b
                  (dialing a ∷ ts))
              a
              (rw (lookup-put a a c.next c.instances, str_eq_refl a)
                (record {
                  dial = ground (arith, s.dial, str_eq_refl a);
                  hang_up = ground (arith, s.hang_up);
                  pump = ground (arith, s.pump);
                  own = omega (arith, s.own, strays_le a (some c.next) ts);
                }))
              (λ b other.
                rw (lookup-put a b c.next c.instances, other)
                  (SlotOk-Same c.instance_at (reserve a c).instance_at (lookup b c.instances) b ts
                    (dialing a ∷ ts) (λ q theirs. ground (arith, h.old b q theirs))
                    (Same-begun b (dialing a) ts other) (h.slots b)));
        apart = λ b d r e k. elim (slot_cases c a b r e) [
          | inl (p, new) ↦ elim (slot_cases c a d r k) [
            | inl (q, new') ↦ sym p ∙ q
            | inr old' ↦ absurd (omega (arith, new, h.old d r old'))
          ]
          | inr old ↦ elim (slot_cases c a d r k) [
            | inl (q, new') ↦ absurd (omega (arith, new', h.old b r old))
            | inr old' ↦ h.apart b d r old old'
          ]
        ];
        old = λ b r e. elim (slot_cases c a b r e) [
          | inl (p, new) ↦ omega (arith, new)
          | inr before ↦ omega (arith, h.old b r before)
        ];
      }

phase_of_dial : (p : Phase) (n : ℕ) → n ≡ phase_dials p → 1 ≤ n → p ≡ connecting
phase_of_dial connecting n h k = refl
phase_of_dial online n h k = absurd (omega (arith, h, k))
phase_of_dial disconnecting n h k = absurd (omega (arith, h, k))

phase_of_hang_up : (p : Phase) (n : ℕ) → n ≡ phase_hangs_up p → 1 ≤ n → p ≡ disconnecting
phase_of_hang_up connecting n h k = absurd (omega (arith, h, k))
phase_of_hang_up online n h k = absurd (omega (arith, h, k))
phase_of_hang_up disconnecting n h k = refl

-- What a goroutine finds in the slot of its account.
pub record Found {E : Type 0} (c : Connector E) (a : Str) (r : ℕ) (p : Phase) : Type 0 where
  pub slot : lookup a c.instances ≡ some r
  pub phase : (c.instance_at r).phase ≡ p

module _ {E : Type 0} (c : Connector E) (ts ts' : List Task) (h : Consistent c ts) (a : Str) where
  -- A Connect that waits finds its slot, still connecting, with pumpDone open.
  pub dialing_lem :
      (new : List Task)
      → Goes (dialing a) new ts ts'
      → (r : ℕ) × Found c a r connecting × ((c.instance_at r).done ≡ false)
  dialing_lem new g = at_slot (lookup a c.instances) refl (h.slots a)
    where
      counted : 1 ≤ total (dials a) ts
      counted = ground (arith, total-at_least (dials a) (dialing a) new ts ts' g, str_eq_refl a)

      at_slot :
          (o : Option ℕ)
          → lookup a c.instances ≡ o
          → SlotOk c.instance_at o a ts
          → (r : ℕ) × Found c a r connecting × ((c.instance_at r).done ≡ false)
      at_slot none e s = absurd (omega (arith, counted, s.dial))
      at_slot (some r) e s = (
        r,
        record {
          slot = e;
          phase = phase_of_dial (c.instance_at r).phase (total (dials a) ts) s.dial counted;
        },
        ground (arith, counted, s.dial, s.pump),
      )

  -- A Disconnect finds its instance in the slot, disconnecting.
  pub hanging_up_lem :
      (old : Task) (new : List Task) (r : ℕ)
      → Goes old new ts ts'
      → hangs_up a old ≡ 1
      → ((o : Option ℕ) → strays a o old ≡ differs o r)
      → Found c a r disconnecting
  hanging_up_lem old new r g mine ref =
      let counted : 1 ≤ total (hangs_up a) ts =
        omega (arith, mine, total-at_least (hangs_up a) old new ts ts' g) in
      let o = lookup a c.instances in
      let e : o ≡ some r =
        own_ref o r
          (omega (arith, ref o, total-at_least (strays a o) old new ts ts' g, (h.slots a).own)) in
      record {
        slot = e;
        phase =
            phase_of_hang_up (c.instance_at r).phase (total (hangs_up a) ts)
              ((h.slots a).hang_up ∙ ap (slot_hangs_up c.instance_at) e) counted;
      }

  -- A pump's instance is in the slot, with pumpDone open.
  pub pump_lem :
      (old : Task) (new : List Task) (r : ℕ)
      → Goes old new ts ts'
      → pumps a old ≡ 1
      → ((o : Option ℕ) → strays a o old ≡ differs o r)
      → (lookup a c.instances ≡ some r) × ((c.instance_at r).done ≡ false)
  pump_lem old new r g mine ref =
      let counted : 1 ≤ total (pumps a) ts =
        omega (arith, mine, total-at_least (pumps a) old new ts ts' g) in
      let o = lookup a c.instances in
      let e : o ≡ some r =
        own_ref o r
          (omega (arith, ref o, total-at_least (strays a o) old new ts ts' g, (h.slots a).own)) in
      (e, ground (arith, counted, (h.slots a).pump, ap (slot_pumps c.instance_at) e))
