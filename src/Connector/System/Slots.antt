-- ===== src/Connector/System/Slots.antt =====
-- What a slot of the connector says of the goroutines of its account.
use agent_chat.Prelude.{
  ℕ, ◌+◌, ◌<◌, ◌≤◌, ◌≡◌, Bool, true, false, Option, none, some, List, [], ◌∷◌, ◌++◌, Str, str_eq,
  lookup, ◌==◌, if◌then◌else◌, arith,
}
use agent_chat.Connector.{Phase, connecting, online, disconnecting, Instance, Connector}
use agent_chat.Connector.System.{Task, dialing, hanging_up, awaiting_pump, pumping, drained, Goes}

abbrev pub one_if : Bool → ℕ
one_if true = 1
one_if false = 0

-- The sum of a weight over the goroutines.
abbrev pub total : (Task → ℕ) → List Task → ℕ
total w [] = 0
total w (t ∷ ts) = w t + total w ts

pub total-append : (w : Task → ℕ) (xs ys : List Task) → total w (xs ++ ys) ≡ total w xs + total w ys
total-append w [] ys = omega arith
total-append w (x ∷ xs) ys = omega (arith, total-append w xs ys)

-- Whether a goroutine is a Connect, a Disconnect or a pump of the account.
abbrev pub dials : Str → Task → ℕ
dials b (dialing a) = one_if (str_eq a b)
dials b t = 0

abbrev pub hangs_up : Str → Task → ℕ
hangs_up b (hanging_up a r) = one_if (str_eq a b)
hangs_up b (awaiting_pump a r) = one_if (str_eq a b)
hangs_up b t = 0

abbrev pub pumps : Str → Task → ℕ
pumps b (pumping a r) = one_if (str_eq a b)
pumps b (drained a r) = one_if (str_eq a b)
pumps b t = 0

-- Whether it is one of the account, and holds another instance than the slot's.
abbrev pub differs : Option ℕ → ℕ → ℕ
differs none r = 1
differs (some q) r = if q == r then 0 else 1

abbrev pub strays : Str → Option ℕ → Task → ℕ
strays b o (dialing a) = 0
strays b o (hanging_up a r) = if str_eq a b then differs o r else 0
strays b o (awaiting_pump a r) = if str_eq a b then differs o r else 0
strays b o (pumping a r) = if str_eq a b then differs o r else 0
strays b o (drained a r) = if str_eq a b then differs o r else 0

abbrev pub phase_dials : Phase → ℕ
phase_dials connecting = 1
phase_dials online = 0
phase_dials disconnecting = 0

abbrev pub phase_hangs_up : Phase → ℕ
phase_hangs_up connecting = 0
phase_hangs_up online = 0
phase_hangs_up disconnecting = 1

abbrev pub slot_dials : (ℕ → Instance) → Option ℕ → ℕ
slot_dials at none = 0
slot_dials at (some r) = phase_dials (at r).phase

abbrev pub slot_hangs_up : (ℕ → Instance) → Option ℕ → ℕ
slot_hangs_up at none = 0
slot_hangs_up at (some r) = phase_hangs_up (at r).phase

-- The instance's pump, while it is not over.
abbrev pub slot_pumps : (ℕ → Instance) → Option ℕ → ℕ
slot_pumps at none = 0
slot_pumps at (some r) = if (at r).done then 0 else 1

-- The slot of the account, against the goroutines. A connecting slot has its Connect, a
-- disconnecting one its Disconnect; a pump runs from the end of the Connect until pumpDone is closed.
pub record SlotOk (at : ℕ → Instance) (o : Option ℕ) (b : Str) (ts : List Task) : Type 0 where
  pub dial : total (dials b) ts ≡ slot_dials at o
  pub hang_up : total (hangs_up b) ts ≡ slot_hangs_up at o
  pub pump : total (pumps b) ts + slot_dials at o ≡ slot_pumps at o
  pub own : total (strays b o) ts ≡ 0

pub record Consistent {E : Type 0} (c : Connector E) (ts : List Task) : Type 0 where
  pub slots : (b : Str) → SlotOk c.instance_at (lookup b c.instances) b ts
  pub apart :
      (a b : Str) (r : ℕ) → lookup a c.instances ≡ some r → lookup b c.instances ≡ some r → a ≡ b
  pub old : (b : Str) (r : ℕ) → lookup b c.instances ≡ some r → r < c.next

pub total-Goes :
    (w : Task → ℕ) (old : Task) (new ts ts' : List Task)
    → Goes old new ts ts'
    → total w ts' + w old ≡ total w ts + total w new
total-Goes w old new ts ts' g =
    rw (g.was, g.becomes)
      (omega (
        arith,
        total-append w g.before (old ∷ g.after),
        total-append w g.before (new ++ g.after),
        total-append w new g.after,
      ))

-- A task in the list counts.
pub total-at_least :
    (w : Task → ℕ) (old : Task) (new ts ts' : List Task) → Goes old new ts ts' → w old ≤ total w ts
total-at_least w old new ts ts' g =
    rw g.was (omega (arith, total-append w g.before (old ∷ g.after)))
