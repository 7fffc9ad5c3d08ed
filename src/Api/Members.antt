-- ===== src/Api/Members.antt =====
-- internal/api/v1/rooms.go: the members of a room.
use agent_chat.Prelude.{ℕ, Bool, not, Option, none, some, List, Str, bytes, is_empty, if◌then◌else◌}
use agent_chat.Errcode.{Code, invalid_argument}
use agent_chat.Errcode.Result.{Result, ok, err, ◌>>=◌, ◌>>◌, require}
use agent_chat.Store.{Db, Account, Membership, with_tx}
use agent_chat.Store.Accounts
use agent_chat.Store.Rooms
use agent_chat.Store.Memberships
use agent_chat.Bus.{Bus, publish}
use agent_chat.Api.{Env, actor_of, provider_for_actor, as_is, gate, record_audit, after, tell}
use agent_chat.Api.Rooms.{Channels, seat}

pub record InviteRequest : Type 0 where
  pub account_id : Str
  pub subscribed : Bool

-- The prior membership, if there is one.
abbrev pub or_absent : Result Membership → Result (Option Membership)
or_absent (ok m) = ok (some m)
or_absent (err Code.not_found) = ok none
or_absent (err c) = err c

abbrev pub joined_at : Env → Option Membership → ℕ
joined_at e none = e.now
joined_at e (some m) = m.joined_at

-- Up to the provider's grant: the actor, and the membership to write.
unfoldable pub grant :
    Env → Option Account → Option Channels → Str → InviteRequest → Db → Result (Str × Membership)
unfolding provider_for_actor
grant e who live room_id req db = do
  require (not (is_empty req.account_id)) invalid_argument
  a ← actor_of who
  p ← provider_for_actor live
  room ← Rooms.get room_id db
  target ← Accounts.get req.account_id db
  require (not (is_empty target.bot_user_id)) invalid_argument
  prior ← or_absent (Memberships.get req.account_id room_id db)
  p.add_member room.discord_channel_id target.bot_user_id
  ok (a.id, seat req.account_id room_id req.subscribed (joined_at e prior))

unfoldable pub store_member : Env → Str → Membership → Db → Result (Membership × Db)
store_member e actor_id m t = do
  t1 ← Memberships.upsert m t
  t2 ← record_audit e 0 actor_id (bytes "room.member.add") m.room_id t1
  ok (m, t2)

-- Only a subscribed member's watchers are told.
unfoldable pub invite_member :
    {S : Type 0}
    → Env
    → Option Account
    → Option Channels
    → Str
    → InviteRequest
    → Db
    → Bus S
    → Result Membership × Db × Bus S
unfolding grant store_member
invite_member e who live room_id req db b =
    tell (λ m db' b'. if req.subscribed then publish req.account_id b' else b') (λ m. m)
      (after (grant e who live room_id req db) db (λ x. with_tx (store_member e x.0 x.1) db)) b

abbrev pub revoke_grant : Channels → Str → Str → Result (Unit {0})
revoke_grant p channel_id bot_user_id =
    if is_empty bot_user_id then ok tt else p.remove_member channel_id bot_user_id

unfoldable pub ungrant : Option Account → Option Channels → Str → Str → Db → Result Str
unfolding provider_for_actor
ungrant who live room_id target_id db = do
  a ← actor_of who
  p ← provider_for_actor live
  room ← Rooms.get room_id db
  target ← Accounts.get target_id db
  m ← Memberships.get target_id room_id db
  revoke_grant p room.discord_channel_id target.bot_user_id
  ok a.id

unfoldable pub drop_member : Env → Str → Str → Str → Db → Result (Unit {0} × Db)
drop_member e actor_id room_id target_id t = do
  t1 ← Memberships.delete target_id room_id t
  t2 ← record_audit e 0 actor_id (bytes "room.member.remove") room_id t1
  ok (tt, t2)

unfoldable pub kick_member :
    {S : Type 0}
    → Env
    → Option Account
    → Option Channels
    → Str
    → Str
    → Db
    → Bus S
    → Result (Unit {0}) × Db × Bus S
unfolding ungrant drop_member
kick_member e who live room_id target_id db b =
    tell (λ u db'. publish target_id) (λ u. u)
      (after (ungrant who live room_id target_id db) db
        (λ actor_id. with_tx (drop_member e actor_id room_id target_id) db))
      b

unfoldable pub list_members : Option Account → Str → Db → Result (List Membership)
unfolding gate
list_members who room_id db = do
  actor ← actor_of who
  room ← Rooms.get room_id db
  a ← gate as_is actor.id room_id db
  ok (Memberships.list_by_room room_id db)

unfoldable pub store_subscribed : Env → Str → Str → Bool → Db → Result ((Str × Membership) × Db)
store_subscribed e actor_id room_id subscribed t = do
  m ← Memberships.get actor_id room_id t
  t1 ← Memberships.set_subscribed actor_id room_id subscribed t
  t2 ←
      record_audit e 0 actor_id
        (if subscribed then bytes "membership.subscribe" else bytes "membership.unsubscribe")
        room_id t1
  ok ((actor_id, record m { subscribed = subscribed }), t2)

unfoldable pub update_membership :
    {S : Type 0} → Env → Option Account → Str → Bool → Db → Bus S → Result Membership × Db × Bus S
unfolding store_subscribed
update_membership e who room_id subscribed db b =
    tell (λ x db'. publish x.0) (λ x. x.1)
      (after (actor_of who) db (λ a. with_tx (store_subscribed e a.id room_id subscribed) db)) b
