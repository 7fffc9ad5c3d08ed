-- ===== src/Api/Rooms.antt =====
-- internal/api/v1/rooms.go: the rooms themselves.
use agent_chat.Prelude.{
  ℕ, Bool, true, false, not, Option, none, some, List, Str, bytes, str_eq, is_empty, length, ltb,
  if◌then◌else◌,
}
use agent_chat.Errcode.{Code, invalid_argument}
use agent_chat.Errcode.Result.{Result, ok, err, ◌>>=◌, ◌>>◌, require}
use agent_chat.Store.{Db, Account, Membership, Room, with_tx}
use agent_chat.Store.Accounts
use agent_chat.Store.Rooms
use agent_chat.Store.Memberships
use agent_chat.Bus.{Bus, publish, publish_many}
use agent_chat.Api.{
  Env, drawn, actor_of, provider_for_actor, is_admin, as_is, gate, record_audit, after, tell,
  member_ids, publish_room_members,
}

-- The provider's calls that touch a channel, with their outcomes.
pub record Channels : Type 0 where
  pub create_channel : Str → Result Str
  pub delete_channel : Str → Result (Unit {0})
  pub add_member : Str → Str → Result (Unit {0})
  pub remove_member : Str → Str → Result (Unit {0})

unfoldable pub validate_room_name : (Str → Str) → Str → Result (Unit {0})
validate_room_name trim_space name = do
  require (not (is_empty name)) invalid_argument
  require (str_eq (trim_space name) name) invalid_argument
  require (not (ltb 100 (length name))) invalid_argument

abbrev pub new_room : Env → Str → Str → Str → Room
new_room e id channel_id name = record {
  id = id;
  discord_channel_id = channel_id;
  name = name;
  archived = false;
  created_at = e.now;
  updated_at = e.now;
}

abbrev pub seat : Str → Str → Bool → ℕ → Membership
seat account_id room_id subscribed joined_at = record {
  account_id = account_id;
  room_id = room_id;
  subscribed = subscribed;
  joined_at = joined_at;
}

unfoldable pub store_room : Env → Str → Str → Str → Db → Result ((Str × Room) × Db)
store_room e actor_id channel_id name t = do
  id ← drawn e.uuid
  t1 ← Rooms.create (new_room e id channel_id name) t
  t2 ← Memberships.upsert (seat actor_id id false e.now) t1
  t3 ← record_audit e 0 actor_id (bytes "room.create") id t2
  ok ((actor_id, new_room e id channel_id name), t3)

-- The actor, and the channel that the provider made.
unfoldable pub open_channel : Env → Option Account → Option Channels → Str → Result (Str × Str)
unfolding validate_room_name provider_for_actor
open_channel e who live name = do
  validate_room_name e.trim_space name
  a ← actor_of who
  p ← provider_for_actor live
  channel_id ← p.create_channel name
  ok (a.id, channel_id)

-- The channel of a room that could not be stored is deleted again; the outcome of that is dropped.
unfoldable pub create_room :
    {S : Type 0}
    → Env
    → Option Account
    → Option Channels
    → Str
    → Db
    → Bus S
    → Result Room × Db × Bus S
unfolding open_channel store_room
create_room e who live name db b =
    tell (λ x db'. publish x.0) (λ x. x.1)
      (after (open_channel e who live name) db (λ x. with_tx (store_room e x.0 x.1 name) db)) b

unfoldable pub list_rooms : Option Account → Bool → Db → Result (List Room)
list_rooms who include_archived db = do
  actor ← actor_of who
  a ← Accounts.get actor.id db
  ok (
      if is_admin a.role
      then Rooms.list include_archived db
      else Rooms.list_by_member actor.id include_archived db)

unfoldable pub get_room : Option Account → Str → Db → Result Room
unfolding gate
get_room who id db = do
  actor ← actor_of who
  room ← Rooms.get id db
  a ← gate as_is actor.id id db
  ok room

abbrev pub given_name : Option Str → Result Str
given_name none = err invalid_argument
given_name (some name) = ok name

abbrev pub renamed : Env → Str → Room → Room
renamed e name room = record room { name = name; updated_at = e.now }

abbrev pub archived_now : Env → Room → Room
archived_now e room = record room { archived = true; updated_at = e.now }

unfoldable pub change_room : Env → Str → (Room → Room) → Str → Str → Db → Result (Room × Db)
change_room e actor_id change action id t = do
  room ← Rooms.get id t
  t1 ← Rooms.update (change room) t
  t2 ← record_audit e 0 actor_id action room.id t1
  ok (change room, t2)

unfoldable pub name_to_set : Env → Option Account → Option Str → Result (Str × Str)
unfolding validate_room_name
name_to_set e who wanted = do
  a ← actor_of who
  name ← given_name wanted
  validate_room_name e.trim_space name
  ok (a.id, name)

unfoldable pub update_room :
    {S : Type 0} → Env → Option Account → Option Str → Str → Db → Bus S → Result Room × Db × Bus S
unfolding name_to_set change_room publish_room_members
update_room e who wanted id db b =
    tell (λ room db'. publish_room_members id db') (λ room. room)
      (after (name_to_set e who wanted) db
        (λ x. with_tx (change_room e x.0 (renamed e x.1) (bytes "room.rename") id) db))
      b

unfoldable pub archive_room :
    {S : Type 0} → Env → Option Account → Str → Db → Bus S → Result Room × Db × Bus S
unfolding change_room publish_room_members
archive_room e who id db b =
    tell (λ room db'. publish_room_members id db') (λ room. room)
      (after (actor_of who) db
        (λ a. with_tx (change_room e a.id (archived_now e) (bytes "room.archive") id) db))
      b

-- A channel that is gone already is what was wanted.
abbrev pub or_gone : Result (Unit {0}) → Result (Unit {0})
or_gone (ok u) = ok u
or_gone (err Code.not_found) = ok tt
or_gone (err c) = err c

abbrev pub delete_channel_of : Channels → Str → Result (Unit {0})
delete_channel_of p channel_id =
    if is_empty channel_id then ok tt else or_gone (p.delete_channel channel_id)

-- The actor and the members, once the channel is gone.
unfoldable pub close_channel : Option Account → Option Channels → Str → Db → Result (Str × List Str)
unfolding provider_for_actor
close_channel who live id db = do
  a ← actor_of who
  p ← provider_for_actor live
  room ← Rooms.get id db
  delete_channel_of p room.discord_channel_id
  ok (a.id, member_ids id db)

unfoldable pub drop_room : Env → Str → Str → List Str → Db → Result (List Str × Db)
drop_room e actor_id id members t = do
  t1 ← Rooms.delete id t
  t2 ← record_audit e 0 actor_id (bytes "room.delete") id t1
  ok (members, t2)

unfoldable pub delete_room :
    {S : Type 0}
    → Env
    → Option Account
    → Option Channels
    → Str
    → Db
    → Bus S
    → Result (Unit {0}) × Db × Bus S
unfolding close_channel drop_room
delete_room e who live id db b =
    tell (λ members db'. publish_many members) (λ members. tt)
      (after (close_channel who live id db) db (λ x. with_tx (drop_room e x.0 id x.1) db)) b
