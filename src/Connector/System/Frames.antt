-- ===== src/Connector/System/Frames.antt =====
-- Sections that leave the slots as they are.
use agent_chat.Prelude.{
  some_injective, ℕ, ◌+◌, ◌≡◌, refl, sym, ap, false, Option, none, some, List, [], ◌∷◌, Str, lookup,
  ◌==◌, arith,
}
use agent_chat.Bus.{write}
use agent_chat.Connector.{Instance, Subscription, Connector, set_instance, with_cells}
use agent_chat.Connector.System.{Task, dialing, hanging_up, awaiting_pump, pumping, drained, Goes}
use agent_chat.Connector.System.Slots.{
  total, total-Goes, dials, hangs_up, pumps, strays, SlotOk, Consistent,
}
use agent_chat.Connector.System.Others.{Same, SlotOk-Same}

-- An empty slot has no goroutine.
pub strays_of_empty :
    (b : Str) (ts : List Task)
    → total (strays b none) ts ≡ total (hangs_up b) ts + total (pumps b) ts
strays_of_empty b [] = refl
strays_of_empty b (t ∷ ts) = omega (arith, one t, strays_of_empty b ts)
  where
    one : (u : Task) → strays b none u ≡ hangs_up b u + pumps b u
    one (dialing a) = refl
    one (hanging_up a r) = ground arith
    one (awaiting_pump a r) = ground arith
    one (pumping a r) = ground arith
    one (drained a r) = ground arith

pub empty_slot :
    (at : ℕ → Instance) (b : Str) (ts : List Task)
    → total (dials b) ts ≡ 0
    → total (hangs_up b) ts ≡ 0
    → total (pumps b) ts ≡ 0
    → SlotOk at none b ts
empty_slot at b ts d u p = record {
  dial = d;
  hang_up = u;
  pump = omega (arith, p);
  own = omega (arith, strays_of_empty b ts, u, p);
}

-- A task becomes one of the same kind, account and instance.
pub Same-kind :
    (old new : Task) (ts ts' : List Task)
    → Goes old (new ∷ []) ts ts'
    → ((b : Str)
        → (dials b new ≡ dials b old)
          × (hangs_up b new ≡ hangs_up b old)
          × (pumps b new ≡ pumps b old)
          × ((o : Option ℕ) → strays b o new ≡ strays b o old))
    → (b : Str) → Same b ts ts'
Same-kind old new ts ts' g k b =
    let (d, u, p, s) = k b in
    record {
      dial = omega (arith, d, total-Goes (dials b) old (new ∷ []) ts ts' g);
      hang_up = omega (arith, u, total-Goes (hangs_up b) old (new ∷ []) ts ts' g);
      pump = omega (arith, p, total-Goes (pumps b) old (new ∷ []) ts ts' g);
      own = λ o. omega (arith, s o, total-Goes (strays b o) old (new ∷ []) ts ts' g);
    }

-- A section that leaves the instances alone.
pub record Kept {E : Type 0} (c c' : Connector E) : Type 0 where
  pub map : c'.instances ≡ c.instances
  pub at : c'.instance_at ≡ c.instance_at
  pub next : c'.next ≡ c.next

module _ {E : Type 0} where
  pub Kept-Consistent :
      (c c' : Connector E) (ts ts' : List Task)
      → Kept c c'
      → ((b : Str) → Same b ts ts')
      → Consistent c ts
      → Consistent c' ts'
  Kept-Consistent c c' ts ts' k same h = record {
    slots = λ b.
        rw (k.map, k.at)
          (SlotOk-Same c.instance_at c.instance_at (lookup b c.instances) b ts ts' (λ q e. refl)
            (same b) (h.slots b));
    apart = rw k.map h.apart;
    old = rw (k.map, k.next) h.old;
  }

  pub with_cells-Kept :
      (c c' : Connector E) (o : Option (ℕ → Subscription E)) → with_cells c o ≡ some c' → Kept c c'
  with_cells-Kept c c' none e = cc
  with_cells-Kept c c' (some cell) e =
      let same : record c { cell = cell } ≡ c' = some_injective (record c { cell = cell }) c' e in
      record {
        map = ap (λ x. x.instances) (sym same);
        at = ap (λ x. x.instance_at) (sym same);
        next = ap (λ x. x.next) (sym same);
      }

  -- Writing an instance that is in no slot.
  pub orphan-Consistent :
      (c : Connector E) (ts : List Task) (r : ℕ) (i : Instance)
      → ((b : Str) (q : ℕ) → lookup b c.instances ≡ some q → (r == q) ≡ false)
      → Consistent c ts
      → Consistent (set_instance r i c) ts
  orphan-Consistent c ts r i free h = record {
    slots = λ b.
        SlotOk-Same c.instance_at (write c.instance_at r i) (lookup b c.instances) b ts ts
          (λ q e. rw (free b q e) refl)
          (record { dial = refl; hang_up = refl; pump = refl; own = λ o. refl }) (h.slots b);
    apart = h.apart;
    old = h.old;
  }
