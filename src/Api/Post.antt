-- ===== src/Api/Post.antt =====
-- internal/api/v1/messages.go: SendMessage up to the provider's answer.
use agent_chat.Prelude.{
  ℕ, Bool, true, false, not, ◌||◌, Option, none, some, List, [], ◌∷◌, Str, str_eq, is_empty, lookup,
  put, StrMap, ltb, if◌then◌else◌,
}
use agent_chat.Errcode.{invalid_argument, conflict, attachment_too_large}
use agent_chat.Errcode.Result.{Result, ok, err, ◌>>=◌, ◌>>◌, require}
use agent_chat.Store.{
  Db, Account, Room, Membership, Message, MessagePriority, normal, urgent, system, other_priority,
  priority_valid,
}
use agent_chat.Store.Accounts
use agent_chat.Store.Rooms
use agent_chat.Store.Memberships
use agent_chat.Store.Messages
use agent_chat.Store.Messages.{SendMetadata}
use agent_chat.Mentions.{RoomMember, ParsedMentions, parse_mentions}
use agent_chat.Api.{Env, drawn, actor_of, provider_for_actor, is_admin, or_denied, member_or_admin}

pub record AttachmentRequest : Type 0 where
  pub path : Str
  pub filename : Str
  pub mime : Str

-- `priority` is `none` for "".
pub record SendRequest : Type 0 where
  pub content : Str
  pub priority : Option MessagePriority
  pub reply_to_id : Str
  pub attachments : List AttachmentRequest

-- os.Lstat of a path: whether it is a link, a regular file, a directory; and its size.
pub record FileInfo : Type 0 where
  pub symlink : Bool
  pub regular : Bool
  pub directory : Bool
  pub size : ℕ

-- bot.UploadFile, with its size.
pub record Upload : Type 0 where
  pub path : Str
  pub filename : Str
  pub mime : Str
  pub size : ℕ

pub record SentFile : Type 0 where
  pub url : Str
  pub filename : Str

pub record Sent : Type 0 where
  pub id : Str
  pub created_at : ℕ
  pub attachments : List SentFile

-- What one call of Provider.SendMessage is given.
pub record Outgoing : Type 0 where
  pub channel_id : Str
  pub content : Str
  pub reply_to : Str
  pub attachments : List Upload
  pub allowed_users : List Str
  pub allowed_everyone : Bool

-- The file system, filepath.Base, the hexadecimal SHA-256 of a text, and the UUID and the time of the
-- k-th attachment's row.
pub record SendEnv : Type 0 where
  pub base : Env
  pub lstat : Str → Option FileInfo
  pub base_name : Str → Str
  pub content_hash : Str → Str
  pub attachment_uuid : ℕ → Option Str
  pub attachment_time : ℕ

-- DiscordAttachmentLimit
abbrev pub discord_attachment_limit : ℕ
discord_attachment_limit = 10485760

abbrev pub has_attachments : List AttachmentRequest → Bool
has_attachments [] = false
has_attachments (a ∷ more) = true

unfoldable pub chosen_priority : Option MessagePriority → Result MessagePriority
unfolding priority_valid
chosen_priority none = ok normal
chosen_priority (some p) = require (priority_valid p) invalid_argument >>= λ u. ok p

abbrev pub is_system : MessagePriority → Bool
is_system system = true
is_system normal = false
is_system urgent = false
is_system (other_priority s) = false

-- A user may not send as the system, and only to a room of theirs.
abbrev pub may_send : Account → MessagePriority → Str → Db → Result (Unit {0})
may_send a p room_id db =
    if is_admin a.role
    then ok tt
    else (require (not (is_system p)) invalid_argument >>= λ u.
        member_or_admin or_denied a room_id db)

-- The message replied to: its own id, and its id at Discord.
abbrev pub reply_target : Str → Str → Db → Result (Str × Str)
reply_target reply_to_id room_id db =
    if is_empty reply_to_id
    then ok ([], [])
    else Messages.get reply_to_id db >>= λ parent.
        require (str_eq parent.room_id room_id) invalid_argument >>= λ u.
        ok (parent.id, parent.discord_msg_id)

unfoldable pub accounts_by_id : List Account → StrMap Account → StrMap Account
accounts_by_id [] m = m
accounts_by_id (a ∷ more) m = accounts_by_id more (put a.id a m)

abbrev pub cons_member : Option Account → List RoomMember → List RoomMember
cons_member none rest = rest
cons_member (some a) rest =
    record { account_id = a.id; name = a.name; bot_user_id = a.bot_user_id } ∷ rest

unfoldable pub room_members : StrMap Account → List Membership → List RoomMember
room_members accounts [] = []
room_members accounts (m ∷ ms) =
    cons_member (lookup m.account_id accounts) (room_members accounts ms)

-- What the first transaction finds.
pub record Target : Type 0 where
  pub room : Room
  pub reply_id : Str
  pub reply_discord_id : Str
  pub members : List RoomMember

unfoldable pub authorize : Str → MessagePriority → Str → Str → Db → Result Target
unfolding accounts_by_id room_members
authorize actor_id p room_id reply_to_id db = do
  room ← Rooms.get room_id db
  require (not room.archived) conflict
  a ← Accounts.get actor_id db
  may_send a p room_id db
  reply ← reply_target reply_to_id room_id db
  ok (record {
    room = room;
    reply_id = reply.0;
    reply_discord_id = reply.1;
    members =
        room_members (accounts_by_id (Accounts.list db) []) (Memberships.list_by_room room_id db);
  })

abbrev pub stat_of : Option FileInfo → Result FileInfo
stat_of none = err invalid_argument
stat_of (some f) = ok f

abbrev pub upload_of : SendEnv → AttachmentRequest → FileInfo → Upload
upload_of e a f = record {
  path = a.path;
  filename = if is_empty a.filename then e.base_name a.path else a.filename;
  mime = a.mime;
  size = f.size;
}

unfoldable pub check_attachment : SendEnv → AttachmentRequest → Result Upload
check_attachment e a = do
  require (not (is_empty a.path)) invalid_argument
  f ← stat_of (e.lstat a.path)
  require (not f.symlink) invalid_argument
  require f.regular invalid_argument
  require (not f.directory) invalid_argument
  require (not (ltb discord_attachment_limit f.size)) attachment_too_large
  ok (upload_of e a f)

unfoldable pub check_attachments : SendEnv → List AttachmentRequest → Result (List Upload)
unfolding check_attachment
check_attachments e [] = ok []
check_attachments e (a ∷ more) =
    check_attachment e a >>= λ u. check_attachments e more >>= λ us. ok (u ∷ us)

-- What the second transaction stores.
pub record Parcel : Type 0 where
  pub actor_id : Str
  pub room_id : Str
  pub parsed : ParsedMentions
  pub uploads : List Upload
  pub sent : Sent
  pub row : Message

abbrev pub message_row :
    SendEnv → Str → Str → Str → MessagePriority → Str → ParsedMentions → Sent → Message
message_row e id room_id actor_id p reply_id parsed sent = record {
  id = id;
  room_id = room_id;
  author_account_id = actor_id;
  discord_msg_id = sent.id;
  content = parsed.rewritten_content;
  reply_to_msg_id = reply_id;
  priority = p;
  created_at = sent.created_at;
  content_hash = e.content_hash parsed.rewritten_content;
  mention_everyone = parsed.everyone;
}

abbrev pub outgoing : Target → ParsedMentions → List Upload → Outgoing
outgoing t parsed uploads = record {
  channel_id = t.room.discord_channel_id;
  content = parsed.rewritten_content;
  reply_to = t.reply_discord_id;
  attachments = uploads;
  allowed_users = parsed.bot_user_ids;
  allowed_everyone = parsed.everyone;
}

-- From the room's checks on, up to the provider's answer.
unfoldable pub post :
    SendEnv
    → Option (Outgoing → Result Sent)
    → Str
    → Str
    → MessagePriority
    → SendRequest
    → Db
    → Result Parcel
unfolding authorize check_attachments provider_for_actor
post e live actor_id room_id p req db = do
  t ← authorize actor_id p room_id req.reply_to_id db
  parsed ← parse_mentions req.content t.members
  uploads ← check_attachments e req.attachments
  send ← provider_for_actor live
  sent ← send (outgoing t parsed uploads)
  id ← drawn e.base.uuid
  ok (record {
    actor_id = actor_id;
    room_id = room_id;
    parsed = parsed;
    uploads = uploads;
    sent = sent;
    row = message_row e id room_id actor_id p t.reply_id parsed sent;
  })

abbrev pub checked : Option Account → SendRequest → Result (Str × MessagePriority)
checked who req = do
  require (not (is_empty req.content) || has_attachments req.attachments) invalid_argument
  p ← chosen_priority req.priority
  a ← actor_of who
  ok (a.id, p)
