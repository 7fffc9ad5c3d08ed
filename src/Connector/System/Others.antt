-- ===== src/Connector/System/Others.antt =====
-- A section of one account leaves the slots of the others as they were.
use agent_chat.Prelude.{
  ℕ, ◌≡◌, ◌≤◌, inl, inr, refl, sym, ap, subst, ◌∙◌, Bool-cases, false, Option, none, some, List, [],
  ◌∷◌, Str, str_eq, str_eq_sound, ◌==◌, if◌then◌else◌, arith,
}
use agent_chat.Bus.Loops.{eq_of_test}
use agent_chat.Connector.{Instance}
use agent_chat.Connector.System.{Task, dialing, hanging_up, awaiting_pump, pumping, drained, Goes}
use agent_chat.Connector.System.Slots.{
  total, total-Goes, dials, hangs_up, pumps, strays, differs, phase_dials, phase_hangs_up, SlotOk,
}

abbrev pub task_account : Task → Str
task_account (dialing a) = a
task_account (hanging_up a r) = a
task_account (awaiting_pump a r) = a
task_account (pumping a r) = a
task_account (drained a r) = a

-- The four weights of an account agree on two lists.
pub record Same (b : Str) (ts ts' : List Task) : Type 0 where
  pub dial : total (dials b) ts' ≡ total (dials b) ts
  pub hang_up : total (hangs_up b) ts' ≡ total (hangs_up b) ts
  pub pump : total (pumps b) ts' ≡ total (pumps b) ts
  pub own : (o : Option ℕ) → total (strays b o) ts' ≡ total (strays b o) ts

-- A task of another account weighs nothing.
quiet :
    (b : Str) (t : Task)
    → str_eq (task_account t) b ≡ false
    → (dials b t ≡ 0) × (hangs_up b t ≡ 0) × (pumps b t ≡ 0) × ((o : Option ℕ) → strays b o t ≡ 0)
quiet b (dialing a) h = (rw h refl, refl, refl, λ o. refl)
quiet b (hanging_up a r) h = (refl, rw h refl, refl, λ o. rw h refl)
quiet b (awaiting_pump a r) h = (refl, rw h refl, refl, λ o. rw h refl)
quiet b (pumping a r) h = (refl, refl, rw h refl, λ o. rw h refl)
quiet b (drained a r) h = (refl, refl, rw h refl, λ o. rw h refl)

pub Same-begun :
    (b : Str) (t : Task) (ts : List Task) → str_eq (task_account t) b ≡ false → Same b ts (t ∷ ts)
Same-begun b t ts h =
    let (d, u, p, s) = quiet b t h in
    record {
      dial = omega (arith, d);
      hang_up = omega (arith, u);
      pump = omega (arith, p);
      own = λ o. omega (arith, s o);
    }

pub Same-gone :
    (b : Str) (t : Task) (ts ts' : List Task)
    → str_eq (task_account t) b ≡ false
    → Goes t [] ts ts'
    → Same b ts ts'
Same-gone b t ts ts' h g =
    let (d, u, p, s) = quiet b t h in
    record {
      dial = omega (arith, d, total-Goes (dials b) t [] ts ts' g);
      hang_up = omega (arith, u, total-Goes (hangs_up b) t [] ts ts' g);
      pump = omega (arith, p, total-Goes (pumps b) t [] ts ts' g);
      own = λ o. omega (arith, s o, total-Goes (strays b o) t [] ts ts' g);
    }

pub Same-moved :
    (b : Str) (t u : Task) (ts ts' : List Task)
    → str_eq (task_account t) b ≡ false
    → str_eq (task_account u) b ≡ false
    → Goes t (u ∷ []) ts ts'
    → Same b ts ts'
Same-moved b t u ts ts' h k g =
    let (d, w, p, s) = quiet b t h in
    let (d', w', p', s') = quiet b u k in
    record {
      dial = omega (arith, d, d', total-Goes (dials b) t (u ∷ []) ts ts' g);
      hang_up = omega (arith, w, w', total-Goes (hangs_up b) t (u ∷ []) ts ts' g);
      pump = omega (arith, p, p', total-Goes (pumps b) t (u ∷ []) ts ts' g);
      own = λ o. omega (arith, s o, s' o, total-Goes (strays b o) t (u ∷ []) ts ts' g);
    }

-- A slot whose instance and goroutines are as before.
pub SlotOk-Same :
    (at at' : ℕ → Instance) (o : Option ℕ) (b : Str) (ts ts' : List Task)
    → ((q : ℕ) → o ≡ some q → at' q ≡ at q)
    → Same b ts ts'
    → SlotOk at o b ts
    → SlotOk at' o b ts'
SlotOk-Same at at' none b ts ts' kept s h = record {
  dial = s.dial ∙ h.dial;
  hang_up = s.hang_up ∙ h.hang_up;
  pump = omega (arith, s.pump, h.pump);
  own = s.own none ∙ h.own;
}
SlotOk-Same at at' (some q) b ts ts' kept s h =
    let i : at q ≡ at' q = sym (kept q refl) in
    record {
      dial = s.dial ∙ h.dial ∙ ap (λ x. phase_dials x.phase) i;
      hang_up = s.hang_up ∙ h.hang_up ∙ ap (λ x. phase_hangs_up x.phase) i;
      pump = omega (
        arith,
        s.pump,
        h.pump,
        ap (λ x. phase_dials x.phase) i,
        ap {B = ℕ} (λ (x : Instance). if x.done then 0 else 1) i,
      );
      own = s.own (some q) ∙ h.own;
    }

-- Two accounts are the same, or their names differ.
pub each_account :
    (P : Str → Type 0) (a : Str) → P a → ((b : Str) → str_eq a b ≡ false → P b) → (b : Str) → P b
each_account P a mine others b = elim (Bool-cases (str_eq a b)) [
  | inl same ↦ subst P (str_eq_sound a b same) mine
  | inr other ↦ others b other
]

-- The instance that a goroutine of the list holds is its slot's.
pub own_ref : (o : Option ℕ) (r : ℕ) → differs o r ≡ 0 → o ≡ some r
own_ref none r h = absurd (omega (arith, h))
own_ref (some q) r h = elim (Bool-cases (q == r)) [
  | inl same ↦ ap some (eq_of_test q r same)
  | inr other ↦ absurd (ground (arith, other, h))
]

-- No slot strays more than an empty one.
pub strays_le :
    (b : Str) (o : Option ℕ) (ts : List Task) → total (strays b o) ts ≤ total (strays b none) ts
strays_le b o [] = omega arith
strays_le b o (t ∷ ts) = omega (arith, one t, strays_le b o ts)
  where
    differs_le : (p : Option ℕ) (r : ℕ) → differs p r ≤ 1
    differs_le none r = omega arith
    differs_le (some q) r = ground arith

    one : (u : Task) → strays b o u ≤ strays b none u
    one (dialing a) = omega arith
    one (hanging_up a r) = ground (arith, differs_le o r)
    one (awaiting_pump a r) = ground (arith, differs_le o r)
    one (pumping a r) = ground (arith, differs_le o r)
    one (drained a r) = ground (arith, differs_le o r)
