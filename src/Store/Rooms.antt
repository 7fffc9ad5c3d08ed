-- ===== src/Store/Rooms.antt =====
-- internal/store/sqlite/room_repo.go
use agent_chat.Prelude.{
  Bool, ◌||◌, not, ◌&&◌, List, [], ◌∷◌, ◌++◌, Str, str_eq, str_leb, find, any, modify, keep,
  sort_by, ltb, ◌==◌, if◌then◌else◌,
}
use agent_chat.Errcode.{not_found, conflict}
use agent_chat.Errcode.Result.{or_not_found, Result, ok, err}
use agent_chat.Store.{
  Db, Room, Membership, Message, MessageState, MentionRow, Attachment, Announcement,
  AnnouncementRead,
}

abbrev pub has_id : Str → Room → Bool
has_id id r = str_eq r.id id

abbrev pub has_channel : Str → Room → Bool
has_channel channel_id r = str_eq r.discord_channel_id channel_id

-- The primary key and the unique channel.
unfoldable pub create : Room → Db → Result Db
create room db =
    if any (has_id room.id) db.rooms || any (has_channel room.discord_channel_id) db.rooms
    then err conflict
    else ok (record db { rooms = db.rooms ++ room ∷ [] })

unfoldable pub get : Str → Db → Result Room
get id db = or_not_found (find (has_id id) db.rooms)

unfoldable pub get_by_discord_channel_id : Str → Db → Result Room
get_by_discord_channel_id channel_id db = or_not_found (find (has_channel channel_id) db.rooms)

-- ORDER BY created_at ASC, id ASC
abbrev pub oldest_first : Room → Room → Bool
oldest_first a b =
    ltb a.created_at b.created_at || a.created_at == b.created_at && str_leb a.id b.id

unfoldable pub list : Bool → Db → List Room
unfolding str_leb
list include_archived db =
    sort_by oldest_first (keep (λ r. include_archived || not r.archived) db.rooms)

unfoldable pub list_by_member : Str → Bool → Db → List Room
unfolding str_leb
list_by_member account_id include_archived db = sort_by oldest_first (
    keep
      (λ r.
        any (λ (m : Membership). str_eq m.room_id r.id && str_eq m.account_id account_id)
          db.memberships
        && (include_archived || not r.archived))
      db.rooms)

-- The columns that the UPDATE writes.
abbrev pub overwrite : Room → Room → Room
overwrite r old = record old { name = r.name; archived = r.archived; updated_at = r.updated_at }

unfoldable pub update : Room → Db → Result Db
update room db =
    if any (has_id room.id) db.rooms
    then ok (record db { rooms = modify (has_id room.id) (overwrite room) db.rooms })
    else err not_found

abbrev pub in_room : Str → Db → Str → Bool
in_room room_id db message_id =
    any (λ (m : Message). str_eq m.id message_id && str_eq m.room_id room_id) db.messages

abbrev pub announced_in : Str → Db → Str → Bool
announced_in room_id db announcement_id =
    any (λ (a : Announcement). str_eq a.id announcement_id && str_eq a.room_id room_id)
      db.announcements

abbrev pub forget_reply : Message → Message
forget_reply m = record m { reply_to_msg_id = [] }

-- ON DELETE CASCADE for the memberships, messages and announcements of the room, and for the states,
-- mentions and attachments of those messages and the reads of those announcements; ON DELETE SET NULL for replies to them.
abbrev pub cascade : Str → Db → Db
cascade id db = record db {
  rooms = keep (λ (r : Room). not (str_eq r.id id)) db.rooms;
  memberships = keep (λ (m : Membership). not (str_eq m.room_id id)) db.memberships;
  messages =
      modify (λ (m : Message). in_room id db m.reply_to_msg_id) forget_reply
        (keep (λ (m : Message). not (str_eq m.room_id id)) db.messages);
  message_states = keep (λ (s : MessageState). not (in_room id db s.message_id)) db.message_states;
  message_mentions =
      keep (λ (r : MentionRow). not (in_room id db r.message_id)) db.message_mentions;
  attachments = keep (λ (a : Attachment). not (in_room id db a.message_id)) db.attachments;
  announcements = keep (λ (a : Announcement). not (str_eq a.room_id id)) db.announcements;
  announcement_reads =
      keep (λ (r : AnnouncementRead). not (announced_in id db r.announcement_id))
        db.announcement_reads;
}

unfoldable pub delete : Str → Db → Result Db
delete id db = if any (has_id id) db.rooms then ok (cascade id db) else err not_found
