-- ===== src/Bus/Execution.antt =====
-- Executions of the bus: any operations and events of the environment, in any order.
use agent_chat.Prelude.{
  ℕ, ◌+◌, ◌^◌, ◌≤◌, ◌<◌, ◌≡◌, refl, Option, none, some, List, [], ◌∷◌, Str, length, arith,
}
use agent_chat.Bus.{
  Builder, Bus, publish, publish_many, subscribe, unsubscribe, build_now, run_fire, expire, receive,
  shutdown,
}
use agent_chat.Bus.Invariant.{BusOk, new_bus, new_bus-BusOk}
use agent_chat.Bus.Steps.{
  publish-BusOk, publish_many-BusOk, expire-BusOk, receive-BusOk, unsubscribe-BusOk, shutdown-BusOk,
  subscribe-BusOk, run_fire-BusOk, bumped-BusOk, version-publish, version-publish_many,
  version-expire,
}

-- `W` is the contents of the store, which can be any at each event.
pub data Event (W : Type 0) : Type 0 where
  watch : W → Str → Event W
  unwatch : Option ℕ → Event W
  mutation : Str → Event W
  mutations : List Str → Event W
  query : W → Str → Event W
  expiry : ℕ → Event W
  firing : W → Str → Event W
  taking : ℕ → Event W
  stop : Event W

module _ {W S : Type 0} (a : Builder W S) where
  unfoldable pub step : Event W → Bus S → Option (Bus S)
  step (watch w account_id) b = some (subscribe a w account_id b).1
  step (unwatch r) b = unsubscribe r b
  step (mutation account_id) b = some (publish account_id b)
  step (mutations ids) b = some (publish_many ids b)
  step (query w account_id) b = some (build_now a w account_id b).1
  step (expiry t) b = some (expire t b)
  step (firing w account_id) b = run_fire a w account_id b
  step (taking r) b = some (receive r b)
  step stop b = shutdown b

  unfoldable pub run : List (Event W) → Bus S → Option (Bus S)
  unfolding step
  run [] b = some b
  run (e ∷ es) b = elim (step e b) [ none ↦ none | some b' ↦ run es b' ]

  step_lem :
      (e : Event W) (b : Bus S)
      → b.version + 1 < 2 ^ 63
      → BusOk a.version_of b
      → (b' : Bus S) × (step e b ≡ some b') × BusOk a.version_of b' × (b'.version ≤ b.version + 1)
  unfolding step build_now
  step_lem (watch w account_id) b small h =
      let (fine, v) = subscribe-BusOk a w account_id b small h in
      ((subscribe a w account_id b).1, refl, fine, v)
  step_lem (unwatch none) b small h = (b, unfold unsubscribe in refl, h, omega arith)
  step_lem (unwatch (some r)) b small h =
      let (b', e, fine, _, _, v) = unsubscribe-BusOk a.version_of b h r in
      (b', e, fine, omega (arith, v))
  step_lem (mutation account_id) b small h = (
    publish account_id b,
    refl,
    publish-BusOk a.version_of account_id b h,
    omega (arith, version-publish account_id b),
  )
  step_lem (mutations ids) b small h = (
    publish_many ids b,
    refl,
    publish_many-BusOk a.version_of ids b h,
    omega (arith, version-publish_many ids b),
  )
  step_lem (query w account_id) b small h =
      (_, refl, bumped-BusOk a.version_of b small h, omega arith)
  step_lem (expiry t) b small h =
      (expire t b, refl, expire-BusOk a.version_of t b h, omega (arith, version-expire t b))
  step_lem (firing w account_id) b small h = run_fire-BusOk a w account_id b small h
  step_lem (taking r) b small h =
      (receive r b, refl, receive-BusOk a.version_of r b h, unfold receive in omega arith)
  step_lem stop b small h =
      let (b', e, fine, v) = shutdown-BusOk a.version_of b h in (b', e, fine, omega (arith, v))

  run_lem :
      (es : List (Event W)) (b : Bus S)
      → b.version + length es < 2 ^ 63
      → BusOk a.version_of b
      → (b' : Bus S) × (run es b ≡ some b') × BusOk a.version_of b'
  unfolding run
  run_lem [] b small h = (b, refl, h)
  run_lem (e ∷ es) b small h =
      let (b', eq, h', v) = step_lem e b (omega arith) h in
      let (b'', eq', h'') = run_lem es b' (omega arith) h' in (b'', rw (eq, run) eq', h'')

  -- From a new bus no sequence of fewer than 2 ^ 63 operations and events panics, so no channel is
  -- sent to after it is closed, or closed twice. Afterwards every account has at most 8
  -- subscriptions, which are distinct, open and its own; every channel holds at most 8 frames; the
  -- frames that a consumer took and those that wait have strictly rising versions, none above the
  -- bus's counter; and a pending timer is its account's and runs, or its goroutine waits.
  pub run-BusOk :
      (es : List (Event W))
      → length es < 2 ^ 63
      → (b : Bus S) × (run es new_bus ≡ some b) × BusOk a.version_of b
  run-BusOk es small = run_lem es new_bus (omega arith) (new_bus-BusOk a.version_of)
