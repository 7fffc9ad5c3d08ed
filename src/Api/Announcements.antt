-- ===== src/Api/Announcements.antt =====
-- internal/api/v1/announcements.go. The mirror of an announcement in the Discord channel has no effect
-- on the tables or the bus, and its outcome is dropped.
use agent_chat.Prelude.{ℕ, Bool, not, Option, List, map, Str, bytes, is_empty}
use agent_chat.Errcode.{invalid_argument, conflict}
use agent_chat.Errcode.Result.{Result, ok, ◌>>=◌, ◌>>◌, require}
use agent_chat.Store.{
  Db, Account, Announcement, AnnouncementRead, SystemAnnouncement, SystemAnnouncementRead, with_tx,
}
use agent_chat.Store.Accounts
use agent_chat.Store.Rooms
use agent_chat.Store.Announcements
use agent_chat.Store.SystemAnnouncements
use agent_chat.Bus.{Bus, publish, publish_many}
use agent_chat.Api.{
  Env, drawn, actor_of, or_denied, gate, record_audit, after, tell, publish_room_members,
}

abbrev pub new_announcement : Env → Str → Str → Str → Str → ℕ → Announcement
new_announcement e id actor_id room_id content version = record {
  id = id;
  room_id = room_id;
  content = content;
  version = version;
  created_by = actor_id;
  created_at = e.now;
}

unfoldable pub store_announcement : Env → Str → Str → Str → Str → Db → Result (Announcement × Db)
unfolding gate
store_announcement e id actor_id room_id content t = do
  room ← Rooms.get room_id t
  require (not room.archived) conflict
  a ← gate or_denied actor_id room_id t
  let row = new_announcement e id actor_id room_id content (Announcements.next_version room_id t)
  t1 ← Announcements.create row t
  t2 ← record_audit e 0 actor_id (bytes "announcement.create") id t1
  ok (row, t2)

abbrev pub author_and_id : Env → Option Account → Str → Result (Str × Str)
author_and_id e who content = do
  require (not (is_empty content)) invalid_argument
  a ← actor_of who
  id ← drawn e.uuid
  ok (a.id, id)

unfoldable pub create_announcement :
    {S : Type 0} → Env → Option Account → Str → Str → Db → Bus S → Result Announcement × Db × Bus S
unfolding store_announcement publish_room_members
create_announcement e who room_id content db b =
    tell (λ row db'. publish_room_members room_id db') (λ row. row)
      (after (author_and_id e who content) db
        (λ x. with_tx (store_announcement e x.1 x.0 room_id content) db))
      b

-- The latest version, and whether the caller has read it.
unfoldable pub get_announcement : Option Account → Str → Db → Result (Announcement × Bool)
unfolding gate
get_announcement who room_id db = do
  actor ← actor_of who
  room ← Rooms.get room_id db
  a ← gate or_denied actor.id room_id db
  latest ← Announcements.latest room_id db
  ok (latest, Announcements.is_read latest.id actor.id db)

abbrev pub read_row : Env → Str → Str → AnnouncementRead
read_row e id actor_id = record { announcement_id = id; account_id = actor_id; read_at = e.now }

unfoldable pub store_read : Env → Str → Str → Db → Result (AnnouncementRead × Db)
unfolding gate
store_read e id actor_id t = do
  row ← Announcements.get id t
  a ← gate or_denied actor_id row.room_id t
  t1 ← Announcements.upsert_read (read_row e id actor_id) t
  t2 ← record_audit e 0 actor_id (bytes "announcement.read") id t1
  ok (read_row e id actor_id, t2)

unfoldable pub mark_announcement_read :
    {S : Type 0} → Env → Option Account → Str → Db → Bus S → Result AnnouncementRead × Db × Bus S
unfolding store_read
mark_announcement_read e who id db b =
    tell (λ row db'. publish row.account_id) (λ row. row)
      (after (actor_of who) db (λ a. with_tx (store_read e id a.id) db)) b

abbrev pub new_system_announcement : Env → Str → Str → Str → SystemAnnouncement
new_system_announcement e id actor_id content = record {
  id = id;
  content = content;
  created_by = actor_id;
  created_at = e.now;
}

-- The row, and everyone to tell.
unfoldable pub store_system_announcement :
    Env → Str → Str → Str → Db → Result ((SystemAnnouncement × List Str) × Db)
store_system_announcement e id actor_id content t = do
  let row = new_system_announcement e id actor_id content
  t1 ← SystemAnnouncements.create row t
  t2 ← record_audit e 0 actor_id (bytes "system_announcement.create") id t1
  ok ((row, map (λ (a : Account). a.id) (Accounts.list t1)), t2)

unfoldable pub create_system_announcement :
    {S : Type 0} → Env → Option Account → Str → Db → Bus S → Result SystemAnnouncement × Db × Bus S
unfolding store_system_announcement
create_system_announcement e who content db b =
    tell (λ x db'. publish_many x.1) (λ x. x.0)
      (after (author_and_id e who content) db
        (λ x. with_tx (store_system_announcement e x.1 x.0 content) db))
      b

unfoldable pub list_system_announcements :
    Option Account → Db → Result (List (SystemAnnouncement × Bool))
list_system_announcements who db = do
  actor ← actor_of who
  ok (
      map (λ (a : SystemAnnouncement). (a, SystemAnnouncements.is_read a.id actor.id db))
        (SystemAnnouncements.list 0 db))

abbrev pub system_read_row : Env → Str → Str → SystemAnnouncementRead
system_read_row e id actor_id = record { sys_ann_id = id; account_id = actor_id; read_at = e.now }

unfoldable pub store_system_read : Env → Str → Str → Db → Result (SystemAnnouncementRead × Db)
store_system_read e id actor_id t = do
  row ← SystemAnnouncements.get id t
  t1 ← SystemAnnouncements.upsert_read (system_read_row e id actor_id) t
  t2 ← record_audit e 0 actor_id (bytes "system_announcement.read") id t1
  ok (system_read_row e id actor_id, t2)

unfoldable pub mark_system_announcement_read :
    {S : Type 0}
    → Env
    → Option Account
    → Str
    → Db
    → Bus S
    → Result SystemAnnouncementRead × Db × Bus S
unfolding store_system_read
mark_system_announcement_read e who id db b =
    tell (λ row db'. publish row.account_id) (λ row. row)
      (after (actor_of who) db (λ a. with_tx (store_system_read e id a.id) db)) b
