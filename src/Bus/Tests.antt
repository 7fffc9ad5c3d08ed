-- ===== src/Bus/Tests.antt =====
-- The theorems on the bus at a small execution. The store is the number of unread messages, and a
-- snapshot pairs it with the version.
use agent_chat.Prelude.{
  ℕ, ◌+◌, ◌^◌, ◌<◌, ◌≡◌, refl, false, true, some, List, [], ◌∷◌, ◌++◌, Str, bytes, str_eq, any, All,
  length, lookup, ◌==◌, arith,
}
use agent_chat.Errcode.Result.{Result, ok}
use agent_chat.Bus.{
  Builder, Bus, bump, subs_of, channel_capacity, publish, expire, run_fire, subscribe, unsubscribe,
  fresh_subscription, register,
}
use agent_chat.Bus.Invariant.{BusOk, new_bus, new_bus-BusOk}
use agent_chat.Bus.Steps.{subscribe-BusOk, unsubscribe-BusOk}
use agent_chat.Bus.Execution.{
  Event, watch, unwatch, mutation, expiry, firing, taking, stop, run, run-BusOk,
}
use agent_chat.Bus.Delivery.{publish_delivers}

abbrev Frame : Type 0
Frame = ℕ × ℕ

stamped :
    (w : ℕ) (account_id : Str) (v : ℕ) (s : Frame)
    → ◌≡◌ {A = Result Frame} (ok (v, w)) (ok s)
    → s.0 ≡ v
stamped w account_id v s h = ground arith

abbrev counter : Builder ℕ Frame
counter = record {
  build = λ w account_id v. ok (v, w);
  version_of = λ s. s.0;
  build_version = stamped;
}

abbrev ann : Str
ann = bytes "a1"

abbrev session : List (Event ℕ)
session =
    watch 3 ann
    ∷ mutation ann
    ∷ mutation ann
    ∷ expiry 0
    ∷ firing 4 ann
    ∷ taking 0
    ∷ stop
    ∷ unwatch (some 0)
    ∷ []

run-BusOk_example :
    (b : Bus Frame) × (run counter session new_bus ≡ some b) × BusOk counter.version_of b
run-BusOk_example = run-BusOk counter session (omega arith)

abbrev watched : Bus Frame
watched = (subscribe counter 3 ann new_bus).1

watched-BusOk : BusOk counter.version_of watched
watched-BusOk =
    (subscribe-BusOk counter 3 ann new_bus (omega arith) (new_bus-BusOk counter.version_of)).0

first_frame : (watched.cell 0).buffer ≡ (1, 3) ∷ []
unfolding subscribe register fresh_subscription
first_frame = refl

is_watched : (length (subs_of watched ann) == 0) ≡ false
unfolding subscribe register str_eq
is_watched = refl

watched_version : watched.version + 1 < 2 ^ 63
unfolding subscribe register
watched_version = omega arith

publish_delivers_example :
    (t : ℕ) × (b' : Bus Frame) × (lookup ann (publish ann watched).pending ≡ some t)
    × (run_fire counter 4 ann (expire t (publish ann watched)) ≡ some b')
    × ((r : ℕ)
        → any (λ q. q == r) (subs_of watched ann) ≡ true
        → length (watched.cell r).buffer < channel_capacity
        → (b'.cell r).buffer ≡ (watched.cell r).buffer ++ (bump watched.version, 4) ∷ [])
    × ((r : ℕ) → any (λ q. q == r) (subs_of watched ann) ≡ false → b'.cell r ≡ watched.cell r)
    × (publish ann (publish ann watched) ≡ publish ann watched)
publish_delivers_example =
    publish_delivers counter 4 ann watched (bump watched.version, 4) refl is_watched watched_version
      watched-BusOk refl

unsubscribe_example :
    (b' : Bus Frame) × (unsubscribe (some 0) watched ≡ some b')
    × BusOk counter.version_of b'
    × ((b'.cell 0).closed ≡ true)
    × ((a : Str) → All (λ q. (0 == q) ≡ false) (subs_of b' a))
    × (b'.version ≡ watched.version)
unsubscribe_example = unsubscribe-BusOk counter.version_of watched watched-BusOk 0
