-- ===== src/Connector.antt =====
-- internal/connector/connector.go: the live providers of the accounts and the fan-out of their events.
-- The mutex is given up around the slow calls of a provider, so a function here is one section that
-- holds it, and Connector/System puts the sections of many calls together.
-- An instance and a subscription are cells of a heap; `none` is a panic (a close of a closed channel
-- or a send on one). The events and the providers themselves are parameters: a provider is known by a
-- number. `Shutdown` calls `Disconnect` for `online_ids`, one after the other.
pub mod System
mod Tests
use agent_chat.Prelude.{
  ℕ, ◌+◌, Bool, true, false, Option, none, some, List, [], ◌∷◌, ◌++◌, Str, StrMap, lookup, delete,
  put, length, any, ltb, ◌==◌, if◌then◌else◌,
}
use agent_chat.Errcode.{conflict}
use agent_chat.Errcode.Result.{Result, ok, err}
use agent_chat.Bus.{write, or_nil, without}

pub data Phase : Type 0 where
  connecting online disconnecting : Phase

-- `done` is the closed state of the channel pumpDone.
pub record Instance : Type 0 where
  pub provider : Option ℕ
  pub phase : Phase
  pub done : Bool

pub record Subscription (E : Type 0) : Type 0 where
  pub account_id : Str
  pub closed : Bool
  pub buffer : List E
  pub channel_closed : Bool

pub record Connector (E : Type 0) : Type 0 where
  pub instances : StrMap ℕ
  pub instance_at : ℕ → Instance
  pub next : ℕ
  pub subs : StrMap (List ℕ)
  pub cell : ℕ → Subscription E
  pub next_sub : ℕ

-- make(chan bot.Event, 32)
abbrev pub channel_capacity : ℕ
channel_capacity = 32

abbrev pub provider_of : Instance → Option ℕ
provider_of i = elim i.phase [ online ↦ i.provider | _ ↦ none ]

abbrev pub is_online : Phase → Bool
is_online online = true
is_online connecting = false
is_online disconnecting = false

-- The accounts that `Shutdown` disconnects; the order of a map's range is open.
unfoldable pub online_ids : (ℕ → Instance) → StrMap ℕ → List Str
online_ids at [] = []
online_ids at ((a, r) ∷ m) =
    let rest = online_ids at m in if is_online (at r).phase then a ∷ rest else rest

module _ {E : Type 0} where
  abbrev pub set_instance : ℕ → Instance → Connector E → Connector E
  set_instance r i c = record c { instance_at = write c.instance_at r i }

  abbrev pub set_phase : ℕ → Phase → Connector E → Connector E
  set_phase r phase c = set_instance r (record (c.instance_at r) { phase = phase }) c

  abbrev pub forget : Str → Connector E → Connector E
  forget account_id c = record c { instances = delete account_id c.instances }

  -- close(inst.pumpDone)
  unfoldable pub close_done : ℕ → Connector E → Option (Connector E)
  close_done r c =
      if (c.instance_at r).done
      then none
      else some (set_instance r (record (c.instance_at r) { done = true }) c)

  abbrev pub reserve : Str → Connector E → Connector E
  reserve account_id c = record c {
    instances = put account_id c.next c.instances;
    instance_at =
        write c.instance_at c.next (record { provider = none; phase = connecting; done = false });
    next = c.next + 1;
  }

  abbrev pub reserve_if : Option ℕ → Str → Connector E → Result ℕ × Connector E
  reserve_if (some r) account_id c = (err conflict, c)
  reserve_if none account_id c = (ok c.next, reserve account_id c)

  -- `Connect` up to the provider's own Connect.
  unfoldable pub begin_connect : Str → Connector E → Result ℕ × Connector E
  begin_connect account_id c = reserve_if (lookup account_id c.instances) account_id c

  abbrev pub forget_after : Str → Option (Connector E) → Option (Connector E)
  forget_after account_id none = none
  forget_after account_id (some c) = some (forget account_id c)

  abbrev pub close_if : Option ℕ → Connector E → Option (Connector E)
  close_if none c = some c
  close_if (some r) c = close_done r c

  -- `Connect` after the provider's Connect has failed.
  unfoldable pub fail_connect : Str → Connector E → Option (Connector E)
  fail_connect account_id c = forget_after account_id (close_if (lookup account_id c.instances) c)

  abbrev pub go_online : ℕ → ℕ → Connector E → Connector E
  go_online r p c =
      set_instance r (record (c.instance_at r) { provider = some p; phase = online }) c

  abbrev pub go_online_if : Option ℕ → ℕ → Connector E → Result ℕ × Connector E
  go_online_if none p c = (err conflict, c)
  go_online_if (some r) p c = (ok r, go_online r p c)

  -- `Connect` after the provider's Connect has succeeded: the instance whose pump starts.
  unfoldable pub finish_connect : Str → ℕ → Connector E → Result ℕ × Connector E
  finish_connect account_id p c = go_online_if (lookup account_id c.instances) p c

  abbrev pub hang_up_in : Phase → ℕ → Connector E → Result ℕ × Connector E
  hang_up_in online r c = (ok r, set_phase r disconnecting c)
  hang_up_in connecting r c = (err conflict, c)
  hang_up_in disconnecting r c = (err conflict, c)

  abbrev pub hang_up_if : Option ℕ → Connector E → Result ℕ × Connector E
  hang_up_if none c = (err conflict, c)
  hang_up_if (some r) c = hang_up_in (c.instance_at r).phase r c

  -- `Disconnect` up to the provider's own Disconnect.
  unfoldable pub begin_disconnect : Str → Connector E → Result ℕ × Connector E
  begin_disconnect account_id c = hang_up_if (lookup account_id c.instances) c

  -- The two ends of `Disconnect`; the second follows the receive from pumpDone.
  unfoldable pub fail_disconnect : ℕ → Connector E → Connector E
  fail_disconnect r c = set_phase r online c

  unfoldable pub finish_disconnect : Str → Connector E → Connector E
  finish_disconnect account_id c = forget account_id c

  -- `none` for StatusOffline, `some none` for StatusConnecting, else the provider that is asked.
  unfoldable pub status : Str → Connector E → Option (Option ℕ)
  status account_id c = elim (lookup account_id c.instances) [
    | none ↦ none
    | some r ↦ some (c.instance_at r).provider
  ]

  unfoldable pub provider : Str → Connector E → Option ℕ
  provider account_id c = elim (lookup account_id c.instances) [
    | none ↦ none
    | some r ↦ provider_of (c.instance_at r)
  ]

  unfoldable pub is_registered : Str → Connector E → Bool
  is_registered account_id c = elim (lookup account_id c.instances) [ none ↦ false | some r ↦ true ]

  unfoldable pub subscribe : Str → Connector E → ℕ × Connector E
  subscribe account_id c = (
    c.next_sub,
    record c {
      cell =
          write c.cell c.next_sub (record {
            account_id = account_id;
            closed = false;
            buffer = [];
            channel_closed = false;
          });
      next_sub = c.next_sub + 1;
      subs = put account_id (or_nil (lookup account_id c.subs) ++ c.next_sub ∷ []) c.subs;
    },
  )

  -- close(s.send)
  abbrev pub close_channel : Subscription E → Option (Subscription E)
  close_channel s = if s.channel_closed then none else some (record s { channel_closed = true })

  unfoldable pub close_once : Subscription E → Option (Subscription E)
  close_once s = if s.closed then some s else close_channel (record s { closed = true })

  abbrev pub try_send : E → Subscription E → Option (Subscription E)
  try_send ev s =
      if s.channel_closed
      then none
      else some (
          if ltb (length s.buffer) channel_capacity
          then record s { buffer = s.buffer ++ ev ∷ [] }
          else s)

  unfoldable pub offer : E → Subscription E → Option (Subscription E)
  offer ev s = if s.closed then some s else try_send ev s

  abbrev pub then_write :
      (ℕ → Subscription E) → ℕ → Option (Subscription E) → Option (ℕ → Subscription E)
  then_write cell r none = none
  then_write cell r (some s) = some (write cell r s)

  unfoldable pub each :
      (Subscription E → Option (Subscription E))
      → List ℕ
      → (ℕ → Subscription E)
      → Option (ℕ → Subscription E)
  each f [] cell = some cell
  each f (r ∷ rs) cell = elim (then_write cell r (f (cell r))) [
    | none ↦ none
    | some cell' ↦ each f rs cell'
  ]

  abbrev pub with_cells : Connector E → Option (ℕ → Subscription E) → Option (Connector E)
  with_cells c none = none
  with_cells c (some cell) = some (record c { cell = cell })

  abbrev pub drop_sub : ℕ → Connector E → Connector E
  drop_sub r c =
      let account_id = (c.cell r).account_id in
      let arr = or_nil (lookup account_id c.subs) in
      record c {
        subs = if any (λ q. q == r) arr then put account_id (without r arr) c.subs else c.subs;
      }

  unfoldable pub unsubscribe : Option ℕ → Connector E → Option (Connector E)
  unfolding each close_once
  unsubscribe none c = some c
  unsubscribe (some r) c = with_cells (drop_sub r c) (each close_once (r ∷ []) c.cell)

  -- `pump`: one event, and the tail after the provider has closed its events.
  unfoldable pub deliver : Str → E → Connector E → Option (Connector E)
  deliver account_id ev c =
      with_cells c (each (offer ev) (or_nil (lookup account_id c.subs)) c.cell)

  unfoldable pub drain : Str → Connector E → Option (Connector E)
  drain account_id c =
      with_cells (record c { subs = delete account_id c.subs })
        (each close_once (or_nil (lookup account_id c.subs)) c.cell)
