-- ===== src/Store/MessageStates.antt =====
-- internal/store/sqlite/message_state_repo.go
use agent_chat.Prelude.{
  ℕ, Bool, true, false, ◌||◌, not, ◌&&◌, Option, none, some, List, [], ◌∷◌, ◌++◌, Str, str_eq,
  str_leb, find, any, modify, keep, sort_by, take, length, if◌then◌else◌,
}
use agent_chat.Errcode.{internal}
use agent_chat.Errcode.Result.{or_not_found, Result, ok, err}
use agent_chat.Store.{
  Db, Room, Account, Message, MessageState, MentionRow, Membership, urgent, system,
}
use agent_chat.Store.Messages.{newest_first, clamp_limit, is_unread}

abbrev pub is_state : Str → Str → MessageState → Bool
is_state message_id account_id s = str_eq s.message_id message_id && str_eq s.account_id account_id

-- COALESCE(message_states.read_at, excluded.read_at)
abbrev pub coalesce : Option ℕ → Option ℕ → Option ℕ
coalesce none new = new
coalesce (some at) new = some at

abbrev pub merge_read : Option ℕ → MessageState → MessageState
merge_read new s = record s { read_at = coalesce s.read_at new }

unfoldable pub upsert : MessageState → Db → Result Db
upsert s db =
    if any (is_state s.message_id s.account_id) db.message_states
    then ok (record db {
      message_states =
          modify (is_state s.message_id s.account_id) (merge_read s.read_at) db.message_states;
    })
    else if any (λ (m : Message). str_eq m.id s.message_id) db.messages
        && any (λ (a : Account). str_eq a.id s.account_id) db.accounts
    then ok (record db { message_states = db.message_states ++ s ∷ [] })
    else err internal

unfoldable pub get : Str → Str → Db → Result MessageState
get message_id account_id db =
    or_not_found (find (is_state message_id account_id) db.message_states)

-- The joins' conditions on one state row: its message, the account's membership in the message's
-- room and the room exist (each by its primary key), and the test holds of them.
abbrev pub with_membership : (Membership → Bool) → Option Membership → Bool
with_membership test none = false
with_membership test (some mb) = test mb

abbrev pub with_room : (Room → Bool) → Option Room → Bool
with_room test none = false
with_room test (some r) = test r

abbrev pub with_message : (Message → Bool) → Option Message → Bool
with_message test none = false
with_message test (some m) = test m

abbrev pub joins : (Message → Membership → Bool) → Db → MessageState → Bool
joins test db s =
    with_message
      (λ m.
        with_membership
          (λ mb.
            with_room (λ r. not r.archived && test m mb)
              (find (λ r. str_eq r.id m.room_id) db.rooms))
          (find (λ mb. str_eq mb.account_id s.account_id && str_eq mb.room_id m.room_id)
            db.memberships))
      (find (λ m. str_eq m.id s.message_id) db.messages)

-- The rows that a feed of the account shows: its own, unread, in a room that is not archived.
abbrev pub feed_row : (Message → Membership → Bool) → Str → Db → MessageState → Bool
feed_row test account_id db s =
    str_eq s.account_id account_id && is_unread s.read_at && joins test db s

abbrev pub in_unread : Message → Membership → Bool
in_unread m mb = mb.subscribed

-- @everyone reaches every member; a mention by name only a subscriber.
abbrev pub in_mentions : Str → Db → Message → Membership → Bool
in_mentions account_id db m mb =
    m.mention_everyone
    || mb.subscribed
      && any (λ (r : MentionRow). str_eq r.message_id m.id && str_eq r.account_id account_id)
          db.message_mentions

abbrev pub in_priority : Message → Membership → Bool
in_priority m mb = mb.subscribed && elim m.priority [ urgent ↦ true | system ↦ true | _ ↦ false ]

unfoldable pub count_unread_for_subscribed : Str → Db → ℕ
count_unread_for_subscribed account_id db =
    length (keep (feed_row in_unread account_id db) db.message_states)

unfoldable pub count_mentions_for_subscribed : Str → Db → ℕ
count_mentions_for_subscribed account_id db =
    length (keep (feed_row (in_mentions account_id db) account_id db) db.message_states)

unfoldable pub count_priority_for_subscribed : Str → Db → ℕ
count_priority_for_subscribed account_id db =
    length (keep (feed_row in_priority account_id db) db.message_states)

-- One group of the GROUP BY; a room with no row in the source's map has the count 0.
unfoldable pub unread_count_by_room_for_subscribed : Str → Db → Str → ℕ
unread_count_by_room_for_subscribed account_id db room_id = length (
    keep (feed_row (λ m mb. mb.subscribed && str_eq m.room_id room_id) account_id db)
      db.message_states)

-- The messages of the rows, each with a row.
abbrev pub feed : (Message → Membership → Bool) → Str → ℕ → Db → List Message
feed test account_id limit db = take (clamp_limit 50 limit) (
    sort_by newest_first (
      keep
        (λ m.
          any (λ s. str_eq s.message_id m.id && feed_row test account_id db s) db.message_states)
        db.messages))

unfoldable pub list_mentions_for_subscribed : Str → ℕ → Db → List Message
unfolding str_leb
list_mentions_for_subscribed account_id limit db =
    feed (in_mentions account_id db) account_id limit db

unfoldable pub list_priority_for_subscribed : Str → ℕ → Db → List Message
unfolding str_leb
list_priority_for_subscribed account_id limit db = feed in_priority account_id limit db

unfoldable pub list_by_account : Str → Db → List MessageState
list_by_account account_id db = keep (λ s. str_eq s.account_id account_id) db.message_states
