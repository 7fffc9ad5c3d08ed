-- ===== src/Connector/System.antt =====
-- Many calls of Connect and Disconnect at once, and the pumps that they start.
pub mod Slots
mod Others
pub mod Steps
mod Frames
pub mod Connects
pub mod Disconnects
pub mod Pumps
pub mod Safety
mod Channels
pub mod Panics
use agent_chat.Prelude.{
  ℕ, ◌+◌, ◌≡◌, Bool, true, false, Option, none, some, List, [], ◌∷◌, ◌++◌, Str,
}
use agent_chat.Errcode.Result.{Result, ok, err}
use agent_chat.Connector.{
  connecting, Instance, Connector, begin_connect, fail_connect, finish_connect, begin_disconnect,
  fail_disconnect, finish_disconnect, subscribe, unsubscribe, deliver, drain, close_done,
}

-- A goroutine between two of its sections: a Connect that waits for its provider, a Disconnect that
-- waits for its provider, one that waits for pumpDone, a pump, and a pump that has closed its
-- subscriptions and not yet pumpDone. The number is the instance that it holds.
pub data Task : Type 0 where
  dialing : Str → Task
  hanging_up : Str → ℕ → Task
  awaiting_pump : Str → ℕ → Task
  pumping : Str → ℕ → Task
  drained : Str → ℕ → Task

pub record System (E : Type 0) : Type 0 where
  pub conn : Connector E
  pub tasks : List Task

-- One task of the list goes on, into the new ones.
pub record Goes (old : Task) (new ts ts' : List Task) : Type 0 where
  pub before : List Task
  pub after : List Task
  pub was : ts ≡ before ++ old ∷ after
  pub becomes : ts' ≡ before ++ (new ++ after)

-- One section of one goroutine. A refused call changes nothing and has no step.
pub data Step {E : Type 0} (s t : System E) : Type 0 where
  reserves :
      (a : Str) (r : ℕ)
      → begin_connect a s.conn ≡ (ok r, t.conn)
      → t.tasks ≡ dialing a ∷ s.tasks
      → Step s t
  dial_fails :
      (a : Str)
      → fail_connect a s.conn ≡ some t.conn
      → Goes (dialing a) [] s.tasks t.tasks
      → Step s t
  dial_succeeds :
      (a : Str) (p r : ℕ)
      → finish_connect a p s.conn ≡ (ok r, t.conn)
      → Goes (dialing a) (pumping a r ∷ []) s.tasks t.tasks
      → Step s t
  starts_hanging_up :
      (a : Str) (r : ℕ)
      → begin_disconnect a s.conn ≡ (ok r, t.conn)
      → t.tasks ≡ hanging_up a r ∷ s.tasks
      → Step s t
  hang_up_fails :
      (a : Str) (r : ℕ)
      → t.conn ≡ fail_disconnect r s.conn
      → Goes (hanging_up a r) [] s.tasks t.tasks
      → Step s t
  hang_up_succeeds :
      (a : Str) (r : ℕ)
      → t.conn ≡ s.conn
      → Goes (hanging_up a r) (awaiting_pump a r ∷ []) s.tasks t.tasks
      → Step s t
  releases :
      (a : Str) (r : ℕ)
      → (s.conn.instance_at r).done ≡ true
      → t.conn ≡ finish_disconnect a s.conn
      → Goes (awaiting_pump a r) [] s.tasks t.tasks
      → Step s t
  delivers :
      (a : Str) (r : ℕ) (ev : E)
      → deliver a ev s.conn ≡ some t.conn
      → Goes (pumping a r) (pumping a r ∷ []) s.tasks t.tasks
      → Step s t
  drains :
      (a : Str) (r : ℕ)
      → drain a s.conn ≡ some t.conn
      → Goes (pumping a r) (drained a r ∷ []) s.tasks t.tasks
      → Step s t
  closes_done :
      (a : Str) (r : ℕ)
      → close_done r s.conn ≡ some t.conn
      → Goes (drained a r) [] s.tasks t.tasks
      → Step s t
  subscribes : (a : Str) → t.conn ≡ (subscribe a s.conn).1 → t.tasks ≡ s.tasks → Step s t
  unsubscribes : (o : Option ℕ) → unsubscribe o s.conn ≡ some t.conn → t.tasks ≡ s.tasks → Step s t

-- What `New` makes.
abbrev pub new_connector : {E : Type 0} → Connector E
new_connector = record {
  instances = [];
  instance_at = λ r. record { provider = none; phase = connecting; done = false };
  next = 0;
  subs = [];
  cell = λ r. record { account_id = []; closed = false; buffer = []; channel_closed = false };
  next_sub = 0;
}

pub data Reach {E : Type 0} : System E → Type 0 where
  start : Reach (record { conn = new_connector; tasks = [] })
  later : {s t : System E} → Reach s → Step s t → Reach t
