-- ===== src/Bus.antt =====
-- internal/state/bus.go: the fan-out of state snapshots. Every operation holds the bus's mutex from
-- its start to its end, so an execution is a sequence of whole operations, with the events of the
-- environment between them: a timer that expires, its goroutine that gets the mutex, and a
-- consumer that takes a frame.
-- A subscription is a cell of a heap under its reference, so that an unsubscribe after a shutdown
-- still finds it. `none` is a panic (a send on, or a close of, a closed channel). The version is
-- an int64 kept as its bit pattern.
pub mod Invariant
pub mod Loops
pub mod Offers
pub mod Steps
pub mod Execution
pub mod Delivery
pub mod Burst
mod Tests
use agent_chat.Prelude.{
  ℕ, zero, suc, ◌+◌, ◌%◌, ◌^◌, ◌≡◌, Bool, true, false, not, ◌&&◌, Option, none, some, List, [], ◌∷◌,
  ◌++◌, Str, str_eq, is_empty, any, length, StrMap, lookup, delete, put, ltb, leb, ◌==◌,
  if◌then◌else◌,
}
use agent_chat.Errcode.{Code, resource_exhausted}
use agent_chat.Errcode.Result.{Result, ok, err}

abbrev pub max_subscribers_per_account : ℕ
max_subscribers_per_account = 8

-- make(chan *Snapshot, 8)
abbrev pub channel_capacity : ℕ
channel_capacity = 8

-- What the bus uses of the aggregator: `Build` on the contents of the store, whose snapshot
-- carries the version that it was given.
pub record Builder (W S : Type 0) : Type 0 where
  pub build : W → Str → ℕ → Result S
  pub version_of : S → ℕ
  pub build_version :
      (w : W) (account_id : Str) (v : ℕ) (s : S) → build w account_id v ≡ ok s → version_of s ≡ v

-- `buffer` and `channel_closed` are the channel; `received` is what the consumer took from it.
pub record Subscription (S : Type 0) : Type 0 where
  pub account_id : Str
  pub closed : Bool
  pub buffer : List S
  pub channel_closed : Bool
  pub received : List S

-- A *time.Timer of AfterFunc: the account of its function, and whether it still runs.
pub record Timer : Type 0 where
  pub account_id : Str
  pub armed : Bool

-- `next` and `next_timer` are the first unused references; `fires` are the goroutines that
-- expired timers have started and that wait for the mutex.
pub record Bus (S : Type 0) : Type 0 where
  pub version : ℕ
  pub pending : StrMap ℕ
  pub subs : StrMap (List ℕ)
  pub cell : ℕ → Subscription S
  pub next : ℕ
  pub timer : ℕ → Timer
  pub next_timer : ℕ
  pub fires : List Str

-- atomic.Int64.Add(1)
abbrev pub bump : ℕ → ℕ
bump v = (v + 1) % 2 ^ 64

abbrev pub write {ℓ} : {A : Type ℓ} → (ℕ → A) → ℕ → A → ℕ → A
write m r a q = if r == q then a else m q

-- The list of an absent key is nil.
abbrev pub or_nil : Option (List ℕ) → List ℕ
or_nil none = []
or_nil (some rs) = rs

-- append(arr[:i], arr[i+1:]...) at the first occurrence
abbrev pub without : ℕ → List ℕ → List ℕ
without r [] = []
without r (q ∷ qs) = let rest = without r qs in if q == r then qs else q ∷ rest

-- One of the goroutines of the account leaves the queue.
abbrev pub without_fire : Str → List Str → List Str
without_fire a [] = []
without_fire a (b ∷ bs) = let rest = without_fire a bs in if str_eq b a then bs else b ∷ rest

-- The first loop of `Shutdown`.
unfoldable pub stop_timers : StrMap ℕ → (ℕ → Timer) → ℕ → Timer
stop_timers [] timer = timer
stop_timers ((a, t) ∷ m) timer = stop_timers m (write timer t (record (timer t) { armed = false }))

module _ {S : Type 0} where
  abbrev pub subs_of : Bus S → Str → List ℕ
  subs_of b account_id = or_nil (lookup account_id b.subs)

  -- close(s.send)
  abbrev pub close_channel : Subscription S → Option (Subscription S)
  close_channel s = if s.channel_closed then none else some (record s { channel_closed = true })

  -- if !s.closed { s.closed = true; close(s.send) }
  unfoldable pub close_once : Subscription S → Option (Subscription S)
  close_once s = if s.closed then some s else close_channel (record s { closed = true })

  -- select { case s.send <- snap: default: }
  abbrev pub try_send : S → Subscription S → Option (Subscription S)
  try_send snap s =
      if s.channel_closed
      then none
      else some (
          if ltb (length s.buffer) channel_capacity
          then record s { buffer = s.buffer ++ snap ∷ [] }
          else s)

  -- One round of the loop of `fire`.
  unfoldable pub offer : S → Subscription S → Option (Subscription S)
  offer snap s = if s.closed then some s else try_send snap s

  abbrev pub then_write :
      (ℕ → Subscription S) → ℕ → Option (Subscription S) → Option (ℕ → Subscription S)
  then_write cell r none = none
  then_write cell r (some s) = some (write cell r s)

  -- A loop over subscriptions that updates each one.
  unfoldable pub each :
      (Subscription S → Option (Subscription S))
      → List ℕ
      → (ℕ → Subscription S)
      → Option (ℕ → Subscription S)
  each f [] cell = some cell
  each f (r ∷ rs) cell = elim (then_write cell r (f (cell r))) [
    | none ↦ none
    | some cell' ↦ each f rs cell'
  ]

  abbrev pub with_cells : Bus S → Option (ℕ → Subscription S) → Option (Bus S)
  with_cells b none = none
  with_cells b (some cell) = some (record b { cell = cell })

  unfoldable pub fresh_subscription : Str → S → Subscription S
  fresh_subscription account_id initial = record {
    account_id = account_id;
    closed = false;
    buffer = initial ∷ [];
    channel_closed = false;
    received = [];
  }

  -- `Publish`. `Stop` of a timer that runs is undone by `Reset`, which only moves its deadline.
  unfoldable pub start_timer : Str → Bus S → Bus S
  start_timer account_id b = record b {
    timer = write b.timer b.next_timer (record { account_id = account_id; armed = true });
    next_timer = b.next_timer + 1;
    pending = put account_id b.next_timer b.pending;
  }

  unfoldable pub debounce : Str → Option ℕ → Bus S → Bus S
  unfolding start_timer
  debounce account_id none b = start_timer account_id b
  debounce account_id (some t) b =
      if (b.timer t).armed
      then b
      else start_timer account_id (record b { pending = delete account_id b.pending })

  unfoldable pub publish : Str → Bus S → Bus S
  unfolding debounce
  publish account_id b =
      if is_empty account_id
      then b
      else if length (subs_of b account_id) == 0
      then b
      else debounce account_id (lookup account_id b.pending) b

  unfoldable pub publish_many : List Str → Bus S → Bus S
  publish_many [] b = b
  publish_many (a ∷ more) b = publish_many more (publish a b)

  unfoldable pub unsubscribe : Option ℕ → Bus S → Option (Bus S)
  unsubscribe none b = some b
  unsubscribe (some r) b =
      let account_id = (b.cell r).account_id in
      let arr = subs_of b account_id in
      with_cells
        (record b {
          subs = if any (λ q. q == r) arr then put account_id (without r arr) b.subs else b.subs;
        })
        (each close_once (r ∷ []) b.cell)

  -- The second loop of `Shutdown`; the first is `stop_timers`.
  unfoldable pub close_lists : StrMap (List ℕ) → (ℕ → Subscription S) → Option (ℕ → Subscription S)
  close_lists [] cell = some cell
  close_lists ((a, rs) ∷ m) cell = elim (each close_once rs cell) [
    | none ↦ none
    | some cell' ↦ close_lists m cell'
  ]

  unfoldable pub shutdown : Bus S → Option (Bus S)
  shutdown b =
      with_cells (record b { pending = []; subs = []; timer = stop_timers b.pending b.timer })
        (close_lists b.subs b.cell)

  -- A timer that runs expires, and its goroutine starts.
  unfoldable pub expire : ℕ → Bus S → Bus S
  expire t b =
      if (b.timer t).armed
      then record b {
        timer = write b.timer t (record (b.timer t) { armed = false });
        fires = b.fires ++ (b.timer t).account_id ∷ [];
      }
      else b

  -- The consumer takes the first frame of the channel, if there is one.
  unfoldable pub take_frame : List S → Subscription S → Subscription S
  take_frame [] s = s
  take_frame (x ∷ xs) s = record s { buffer = xs; received = s.received ++ x ∷ [] }

  unfoldable pub receive : ℕ → Bus S → Bus S
  unfolding take_frame
  receive r b = record b { cell = write b.cell r (take_frame (b.cell r).buffer (b.cell r)) }

module _ {W S : Type 0} (a : Builder W S) where
  unfoldable pub register : Str → Result S → Bus S → Result ℕ × Bus S
  unfolding fresh_subscription
  register account_id (err e) b = (err e, b)
  register account_id (ok initial) b = (
    ok b.next,
    record b {
      cell = write b.cell b.next (fresh_subscription account_id initial);
      next = b.next + 1;
      subs = put account_id (subs_of b account_id ++ b.next ∷ []) b.subs;
    },
  )

  -- The contents of the store, the account, and the bus; the reference of the new subscription.
  unfoldable pub subscribe : W → Str → Bus S → Result ℕ × Bus S
  unfolding register
  subscribe w account_id b =
      if leb max_subscribers_per_account (length (subs_of b account_id))
      then (err resource_exhausted, b)
      else register account_id (a.build w account_id (bump b.version))
          (record b { version = bump b.version })

  unfoldable pub build_now : W → Str → Bus S → Result S × Bus S
  build_now w account_id b =
      (a.build w account_id (bump b.version), record b { version = bump b.version })

  unfoldable pub broadcast : Str → Result S → Bus S → Option (Bus S)
  broadcast account_id (err e) b = some b
  broadcast account_id (ok snap) b = with_cells b (each (offer snap) (subs_of b account_id) b.cell)

  unfoldable pub fire_locked : W → Str → Bus S → Option (Bus S)
  fire_locked w account_id b =
      if length (subs_of b account_id) == 0
      then some b
      else broadcast account_id (a.build w account_id (bump b.version))
          (record b { version = bump b.version })

  unfoldable pub fire : W → Str → Bus S → Option (Bus S)
  fire w account_id b =
      fire_locked w account_id (record b { pending = delete account_id b.pending })

  -- A goroutine of the account that waits for the mutex gets it.
  unfoldable pub run_fire : W → Str → Bus S → Option (Bus S)
  run_fire w account_id b =
      if any (λ f. str_eq f account_id) b.fires
      then fire w account_id (record b { fires = without_fire account_id b.fires })
      else some b
