-- ===== src/Message.antt =====
-- internal/message/ingester.go: what one gateway event does to the tables and to the bus. The drain
-- goroutines and the connector's subscriptions are not modelled; `dispatch` is one round of a drain
-- loop, with the transaction as one step (SQLite runs the writers one after another).
-- The log lines are left out.
pub mod Archive
pub mod Fanout
pub mod Owners
pub mod Targets
pub mod Delivery
pub mod Echo
pub mod Wakeup
mod Tests
use agent_chat.Prelude.{
  ℕ, ◌+◌, Bool, true, false, ◌||◌, not, ◌&&◌, Option, none, some, List, [], ◌∷◌, map, Str, bytes,
  str_eq, is_empty, find, any, StrMap, lookup, put, if◌then◌else◌,
}
use agent_chat.Errcode.{Code, internal, not_found}
use agent_chat.Errcode.Result.{Result, ok, err, ◌>>=◌}
use agent_chat.Store.{
  Db, Account, Room, Membership, Message, MessageState, Attachment, normal, with_tx,
}
use agent_chat.Store.Accounts
use agent_chat.Store.Rooms
use agent_chat.Store.Memberships
use agent_chat.Store.Messages
use agent_chat.Store.MessageStates
use agent_chat.Store.MessageMentions
use agent_chat.Store.Attachments
use agent_chat.Store.Audit
use agent_chat.Bus.{Bus, publish_many}

-- bot.MsgAttachURL and bot.Message, of internal/bot/types.go.
pub record MsgAttach : Type 0 where
  pub filename : Str
  pub size : ℕ
  pub mime : Str
  pub url : Str

pub record Inbound : Type 0 where
  pub id : Str
  pub channel_id : Str
  pub author_id : Str
  pub content : Str
  pub created_at : ℕ
  pub attachments : List MsgAttach
  pub mentioned_bot_user_ids : List Str
  pub mention_everyone : Bool

-- What one event reads from outside: the UUIDs (`none` for an error of uuid.NewV7) and the times of
-- the k-th attachment, the time at which the author's state row is made, the time of an archive,
-- its audit entry and the entry's payload as JSON, and the hexadecimal SHA-256 of a text.
pub record Draws : Type 0 where
  pub message_uuid : Option Str
  pub attachment_uuid : ℕ → Option Str
  pub attachment_time : ℕ → ℕ
  pub read_time : ℕ
  pub archive_time : ℕ
  pub audit_uuid : Option Str
  pub audit_time : ℕ
  pub payload : Str → Str
  pub content_hash : Str → Str

pub data Event : Type 0 where
  message_new : Inbound → Event
  channel_deleted : Str → Event
  other_event : Event

abbrev pub has_bot : Str → Account → Bool
has_bot discord_user_id a = str_eq a.bot_user_id discord_user_id

abbrev pub account_id_or_none : Option Account → Str
account_id_or_none none = []
account_id_or_none (some a) = a.id

-- The first account that owns the bot, or "".
unfoldable pub resolve_author : Str → Db → Str
resolve_author discord_user_id db =
    if is_empty discord_user_id
    then []
    else account_id_or_none (find (has_bot discord_user_id) (Accounts.list db))

abbrev pub is_member : Str → List Membership → Bool
is_member account_id members = any (λ (m : Membership). str_eq m.account_id account_id) members

abbrev pub has : Str → List Str → Bool
has x xs = any (λ y. str_eq y x) xs

-- The map from bots to accounts; a later account takes the place of an earlier one.
unfoldable pub by_bot_id : List Account → StrMap Str → StrMap Str
by_bot_id [] m = m
by_bot_id (a ∷ more) m =
    by_bot_id more (if is_empty a.bot_user_id then m else put a.bot_user_id a.id m)

-- The account of a mention, unless the loop continues.
abbrev pub kept_target : List Membership → List Str → Option Str → Option Str
kept_target members seen none = none
kept_target members seen (some aid) =
    if not (is_member aid members) then none else if has aid seen then none else some aid

unfoldable pub resolve_loop : StrMap Str → List Membership → List Str → List Str → List Str
resolve_loop bots members seen [] = []
resolve_loop bots members seen (bid ∷ bids) = elim (kept_target members seen (lookup bid bots)) [
  | none ↦ resolve_loop bots members seen bids
  | some aid ↦ aid ∷ resolve_loop bots members (aid ∷ seen) bids
]

unfoldable pub resolve_mentions : List Str → List Membership → Db → List Str
resolve_mentions bot_user_ids members db =
    resolve_loop (by_bot_id (Accounts.list db) []) members [] bot_user_ids

abbrev pub account_ids : List Membership → List Str
account_ids members = map (λ (m : Membership). m.account_id) members

abbrev pub message_row : Draws → Str → Room → Inbound → Db → Message
message_row d new_id room e db = record {
  id = new_id;
  room_id = room.id;
  author_account_id = resolve_author e.author_id db;
  discord_msg_id = e.id;
  content = e.content;
  reply_to_msg_id = [];
  priority = normal;
  created_at = e.created_at;
  content_hash = d.content_hash e.content;
  mention_everyone = e.mention_everyone;
}

abbrev pub state_row : Draws → Str → Str → Membership → MessageState
state_row d message_id author_id m = record {
  message_id = message_id;
  account_id = m.account_id;
  read_at =
      if not (is_empty author_id) && str_eq m.account_id author_id then some d.read_time else none;
}

-- One state row per member.
unfoldable pub fan_out : Draws → Str → Str → List Membership → Db → Result Db
fan_out d message_id author_id [] db = ok db
fan_out d message_id author_id (m ∷ members) db =
    MessageStates.upsert (state_row d message_id author_id m) db >>= λ db'.
    fan_out d message_id author_id members db'

abbrev pub attachment_row : Draws → ℕ → Str → Str → MsgAttach → Attachment
attachment_row d k id message_id a = record {
  id = id;
  message_id = message_id;
  filename = a.filename;
  size = a.size;
  mime = a.mime;
  local_path = [];
  discord_url = a.url;
  downloaded_at = none;
  sha256 = [];
  created_at = d.attachment_time k;
}

abbrev pub drawn : Option Str → Result Str
drawn none = err internal
drawn (some u) = ok u

-- The attachments from the k-th on.
unfoldable pub index_attachments : Draws → ℕ → Str → List MsgAttach → Db → Result Db
index_attachments d k message_id [] db = ok db
index_attachments d k message_id (a ∷ more) db = drawn (d.attachment_uuid k) >>= λ id.
    Attachments.create (attachment_row d k id message_id a) db >>= λ db'.
    index_attachments d (k + 1) message_id more db'

abbrev pub merge_everyone : Str → Bool → Db → Result Db
merge_everyone message_id true db = Messages.merge_mention_everyone message_id true db
merge_everyone message_id false db = ok db

abbrev pub add_mentions : Str → List Str → Db → Result Db
add_mentions message_id [] db = ok db
add_mentions message_id (aid ∷ aids) db = MessageMentions.add_for_message message_id (aid ∷ aids) db

abbrev pub nonempty : List Str → Bool
nonempty [] = false
nonempty (x ∷ xs) = true

-- After the mentions: an echo only notifies, and a new row gets its states and attachments.
unfoldable pub finish :
    Draws → Bool → Str → Str → List Membership → Bool → Inbound → Db → Result (List Str × Db)
finish d false message_id author_id members changed e db =
    ok (if changed then account_ids members else [], db)
finish d true message_id author_id members changed e db =
    fan_out d message_id author_id members db >>= λ db1.
    index_attachments d 0 message_id e.attachments db1 >>= λ db2. ok (account_ids members, db2)

-- From the row's insertion on: its id, and whether it was inserted.
unfoldable pub persist_mentions :
    Draws → Str → Str → Inbound → Str × Bool × Db → Result (List Str × Db)
persist_mentions d room_id author_id e (message_id, inserted, db) =
    let members = Memberships.list_by_room room_id db in
    merge_everyone message_id e.mention_everyone db >>= λ db1.
    let targets = resolve_mentions e.mentioned_bot_user_ids members db1 in
    add_mentions message_id targets db1 >>= λ db2.
    finish d inserted message_id author_id members (e.mention_everyone || nonempty targets) e db2

unfoldable pub persist_new : Draws → Inbound → Room → Db → Result (List Str × Db)
persist_new d e room db = drawn d.message_uuid >>= λ new_id.
    Messages.create_ignore_conflict (message_row d new_id room e db) db >>= λ row.
    persist_mentions d room.id (resolve_author e.author_id db) e row

-- A channel that is not a room is passed over.
abbrev pub if_catalogued :
    (Room → Db → Result (List Str × Db)) → Result Room → Db → Result (List Str × Db)
if_catalogued f (ok room) db = f room db
if_catalogued f (err Code.not_found) db = ok ([], db)
if_catalogued f (err c) db = err c

-- The accounts to notify, and the tables.
unfoldable pub ingest_new : Draws → Inbound → Db → Result (List Str) × Db
ingest_new d e db =
    with_tx
      (λ t. if_catalogued (persist_new d e) (Rooms.get_by_discord_channel_id e.channel_id t) t) db

abbrev pub archived_at : ℕ → Room → Room
archived_at now room = record room { archived = true; updated_at = now }

unfoldable pub archive_room : Draws → Str → Str → Room → Db → Result (List Str × Db)
archive_room d account_id channel_id room db =
    if room.archived
    then ok ([], db)
    else Rooms.update (archived_at d.archive_time room) db >>= λ db1.
        Audit.record_via d.audit_uuid d.audit_time account_id (bytes "room.archive") room.id
          (d.payload channel_id) db1
        >>= λ db2. ok (account_ids (Memberships.list_by_room room.id db2), db2)

unfoldable pub ingest_channel_deleted : Draws → Str → Str → Db → Result (List Str) × Db
ingest_channel_deleted d account_id channel_id db =
    if is_empty channel_id
    then (ok [], db)
    else with_tx
        (λ t.
          if_catalogued (archive_room d account_id channel_id)
            (Rooms.get_by_discord_channel_id channel_id t) t)
        db

-- The publishes come after the commit, and only if there was one.
abbrev pub notify : {S : Type 0} → Result (List Str) × Db → Bus S → Db × Bus S
notify (ok ids, db) b = (db, publish_many ids b)
notify (err c, db) b = (db, b)

unfoldable pub dispatch : {S : Type 0} → Draws → Str → Event → Db → Bus S → Db × Bus S
dispatch d account_id (message_new e) db b = notify (ingest_new d e db) b
dispatch d account_id (channel_deleted channel_id) db b =
    notify (ingest_channel_deleted d account_id channel_id db) b
dispatch d account_id other_event db b = (db, b)
