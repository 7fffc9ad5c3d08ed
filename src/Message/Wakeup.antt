-- ===== src/Message/Wakeup.antt =====
-- From the gateway event to the bus: the members that watch are told.
use agent_chat.Prelude.{
  ℕ, ◌≡◌, refl, sym, ap, ◌∙◌, subst, true, false, ◌||◌, List, [], ◌∷◌, Str, str_eq, is_empty, any,
  length, ◌==◌,
}
use agent_chat.Store.{Db, Room, Membership}
use agent_chat.Bus.{Bus, subs_of}
use agent_chat.Bus.Invariant.{BusOk}
use agent_chat.Bus.Burst.{Awaited, publish_many_lem}
use agent_chat.Bus.Steps.{publish_many-BusOk}
use agent_chat.Message.{Draws, Inbound, message_new, is_member, account_ids, notify, dispatch}
use agent_chat.Message.Delivery.{Arrival, Delivered, members, ingest_new-Delivered}

any-account_ids :
    (a : Str) (ms : List Membership) → any (λ y. str_eq y a) (account_ids ms) ≡ is_member a ms
any-account_ids a [] = refl
any-account_ids a (m ∷ ms) = ap (λ b. str_eq m.account_id a || b) (any-account_ids a ms)

module _ {S : Type 0} (version_of : S → ℕ) where
  -- One round of the drain loop on a message that is new, as `ingest_new-Delivered` has it, with a
  -- bus that satisfies `BusOk`: the round stores everything that theorem lists, keeps the bus's
  -- invariant, and for each member with a watcher and a non-empty id leaves a running timer of that
  -- member pending.
  pub dispatch_lem :
      (d : Draws) (e : Inbound) (db : Db) (room : Room) (id : Str) (h : Arrival d e db room id)
      (ingester a : Str) (b : Bus S)
      → BusOk version_of b
      → is_member a (members d e db room id h) ≡ true
      → is_empty a ≡ false
      → (length (subs_of b a) == 0) ≡ false
      → Delivered d e db room id h (dispatch d ingester (message_new e) db b).0
        × BusOk version_of (dispatch d ingester (message_new e) db b).1
        × Awaited (dispatch d ingester (message_new e) db b).1 a
  unfolding dispatch
  dispatch_lem d e db room id h ingester a b fine member named watched =
      let (db', eq, delivered) = ingest_new-Delivered d e db room id h in
      let ids = account_ids (members d e db room id h) in
      subst
        (λ r.
          Delivered d e db room id h (notify r b).0
          × BusOk version_of (notify r b).1
          × Awaited (notify r b).1 a)
        (sym eq)
        (
          delivered,
          publish_many-BusOk version_of ids b fine,
          publish_many_lem version_of ids a b fine
              (any-account_ids a (members d e db room id h) ∙ member) named watched,
        )
