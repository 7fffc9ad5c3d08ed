-- ===== src/Store/Messages.antt =====
-- internal/store/sqlite/message_repo.go
use agent_chat.Prelude.{
  ℕ, Bool, true, false, ◌||◌, not, ◌&&◌, Option, none, some, List, [], ◌∷◌, ◌++◌, Str, str_eq,
  str_leb, is_empty, find, any, modify, keep, sort_by, take, ltb, ◌==◌, if◌then◌else◌,
}
use agent_chat.Errcode.{not_found, conflict, internal, invalid_argument}
use agent_chat.Errcode.Result.{or_not_found, Result, ok, err, ◌>>=◌, ◌>>◌, require}
use agent_chat.Store.{
  Db, Room, Account, Message, MessageState, Membership, MessagePriority, priority_valid,
}

abbrev pub has_id : Str → Message → Bool
has_id id m = str_eq m.id id

abbrev pub has_discord_id : Str → Message → Bool
has_discord_id discord_msg_id m = str_eq m.discord_msg_id discord_msg_id

-- The foreign keys: the room, and the author and the message replied to where they are not NULL.
abbrev pub author_exists : Str → Db → Bool
author_exists author_id db =
    is_empty author_id || any (λ (a : Account). str_eq a.id author_id) db.accounts

abbrev pub reply_exists : Str → Db → Bool
reply_exists reply_id db = is_empty reply_id || any (has_id reply_id) db.messages

abbrev pub refers_to_rows : Message → Db → Bool
refers_to_rows m db =
    any (λ (r : Room). str_eq r.id m.room_id) db.rooms
    && author_exists m.author_account_id db
    && reply_exists m.reply_to_msg_id db

abbrev pub insert : Message → Db → Result Db
insert m db =
    if refers_to_rows m db
    then ok (record db { messages = db.messages ++ m ∷ [] })
    else err internal

unfoldable pub create : Message → Db → Result Db
unfolding priority_valid
create m db = do
  require (priority_valid m.priority) invalid_argument
  require (not (any (has_id m.id) db.messages || any (has_discord_id m.discord_msg_id) db.messages))
      conflict
  insert m db

abbrev pub existing_id : Option Message → Db → Result (Str × Bool × Db)
existing_id none db = err internal
existing_id (some m) db = ok (m.id, false, db)

abbrev pub insert_or_find : Message → Db → Result (Str × Bool × Db)
insert_or_find m db =
    if any (has_discord_id m.discord_msg_id) db.messages
    then existing_id (find (has_discord_id m.discord_msg_id) db.messages) db
    else if any (has_id m.id) db.messages
    then err internal
    else (do db' ← insert m db; ok (m.id, true, db'))

-- The id of the row that has the Discord id, whether it was inserted, and the tables. Only a clash
-- of the Discord id is ignored; one of the primary key is an error.
unfoldable pub create_ignore_conflict : Message → Db → Result (Str × Bool × Db)
unfolding priority_valid
create_ignore_conflict m db = do
  require (priority_valid m.priority) invalid_argument
  insert_or_find m db

unfoldable pub get : Str → Db → Result Message
get id db = or_not_found (find (has_id id) db.messages)

unfoldable pub get_by_discord_msg_id : Str → Db → Result Message
get_by_discord_msg_id discord_msg_id db =
    or_not_found (find (has_discord_id discord_msg_id) db.messages)

-- ORDER BY created_at DESC, id DESC
abbrev pub newest_first : Message → Message → Bool
newest_first a b =
    ltb b.created_at a.created_at || a.created_at == b.created_at && str_leb b.id a.id

-- (created_at, id) < (created_at, id) of the other message
abbrev pub strictly_older : Message → Message → Bool
strictly_older m b =
    ltb m.created_at b.created_at
    || m.created_at == b.created_at && str_leb m.id b.id && not (str_eq m.id b.id)

-- A limit that is 0 or above 200 gives way to the default; the source's int may also be negative,
-- which counts as 0 here.
abbrev pub clamp_limit : ℕ → ℕ → ℕ
clamp_limit fallback limit = if limit == 0 || ltb 200 limit then fallback else limit

abbrev older_than : Option Message → Message → Bool
older_than none m = false
older_than (some b) m = strictly_older m b

-- An unknown `before_id` makes the comparison with an empty subquery NULL, so no row passes.
abbrev pub before : Str → Db → Message → Bool
before before_id db m = is_empty before_id || older_than (find (has_id before_id) db.messages) m

unfoldable pub list : Str → Str → ℕ → Db → Result (List Message)
unfolding str_leb
list room_id before_id limit db =
    if is_empty room_id
    then err invalid_argument
    else ok (
        take (clamp_limit 50 limit) (
          sort_by newest_first
            (keep (λ m. str_eq m.room_id room_id && before before_id db m) db.messages)))

-- What the send path writes onto a row.
pub record SendMetadata : Type 0 where
  pub author_account_id : Str
  pub reply_to_msg_id : Str
  pub priority : MessagePriority
  pub content_hash : Str
  pub mention_everyone : Bool

-- mention_everyone = MAX(mention_everyone, ?)
abbrev pub set_metadata : SendMetadata → Message → Message
set_metadata s m = record m {
  author_account_id = s.author_account_id;
  reply_to_msg_id = s.reply_to_msg_id;
  priority = s.priority;
  content_hash = s.content_hash;
  mention_everyone = m.mention_everyone || s.mention_everyone;
}

unfoldable pub apply_send_metadata : Str → SendMetadata → Db → Result Db
unfolding priority_valid
apply_send_metadata id s db = do
  require (priority_valid s.priority) invalid_argument
  require (any (has_id id) db.messages) not_found
  require (author_exists s.author_account_id db && reply_exists s.reply_to_msg_id db) internal
  ok (record db { messages = modify (has_id id) (set_metadata s) db.messages })

abbrev pub set_everyone : Message → Message
set_everyone m = record m { mention_everyone = true }

unfoldable pub merge_mention_everyone : Str → Bool → Db → Result Db
merge_mention_everyone id flag db =
    if any (has_id id) db.messages
    then ok
        (if flag then record db { messages = modify (has_id id) set_everyone db.messages } else db)
    else err not_found

-- The state row of the message and the account passes the test.
abbrev pub has_state : (Option ℕ → Bool) → Str → Db → Message → Bool
has_state test account_id db m =
    any
      (λ (s : MessageState).
        str_eq s.message_id m.id && str_eq s.account_id account_id && test s.read_at)
      db.message_states

abbrev pub is_unread : Option ℕ → Bool
is_unread none = true
is_unread (some at) = false

abbrev pub is_read : Option ℕ → Bool
is_read none = false
is_read (some at) = true

unfoldable pub list_unread_for_account_in_room : Str → Str → ℕ → Db → List Message
unfolding str_leb
list_unread_for_account_in_room account_id room_id limit db = take (clamp_limit 200 limit) (
    sort_by newest_first
      (keep (λ m. str_eq m.room_id room_id && has_state is_unread account_id db m) db.messages))

unfoldable pub list_read_history_for_account_in_room : Str → Str → ℕ → Db → List Message
unfolding str_leb
list_read_history_for_account_in_room account_id room_id limit db = take (clamp_limit 10 limit) (
    sort_by newest_first
      (keep (λ m. str_eq m.room_id room_id && has_state is_read account_id db m) db.messages))

-- The first row of each room in the order that ROW_NUMBER numbers them; the source's map has no entry
-- where there is none.
unfoldable pub latest_per_room_for_member : Str → Db → Str → Option Message
unfolding str_leb
latest_per_room_for_member account_id db room_id =
    if any (λ (mb : Membership). str_eq mb.room_id room_id && str_eq mb.account_id account_id)
        db.memberships
      && any (λ (r : Room). str_eq r.id room_id && not r.archived) db.rooms
    then find (λ m. true) (sort_by newest_first (keep (λ m. str_eq m.room_id room_id) db.messages))
    else none
