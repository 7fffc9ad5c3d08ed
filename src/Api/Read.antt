-- ===== src/Api/Read.antt =====
-- internal/api/v1/messages.go: ReadRoom.
use agent_chat.Prelude.{
  ℕ, ◌+◌, Bool, false, ◌==◌, ltb, Option, none, some, List, [], ◌∷◌, ◌++◌, map, Str, bytes,
  is_empty, StrMap, lookup, put, length, if◌then◌else◌,
}
use agent_chat.Errcode.{invalid_argument}
use agent_chat.Errcode.Result.{Result, ok, err, ◌>>=◌, ◌>>◌}
use agent_chat.Store.{
  Db, Account, Room, Membership, Message, MessageState, Attachment, Announcement, with_tx,
}
use agent_chat.Store.Accounts
use agent_chat.Store.Rooms
use agent_chat.Store.Memberships
use agent_chat.Store.Messages
use agent_chat.Store.MessageStates
use agent_chat.Store.MessageMentions
use agent_chat.Store.Attachments
use agent_chat.Store.Announcements
use agent_chat.Bus.{Bus, publish}
use agent_chat.Api.{Env, actor_of, or_denied, member_or_admin, record_audit, after, tell}
use agent_chat.Api.Display.{render_display_content}

-- `limit` is `none` for a negative number; an absent body is the request with 0 and "".
pub record ReadRequest : Type 0 where
  pub limit : Option ℕ
  pub before : Str

abbrev pub given_limit : Option ℕ → Result ℕ
given_limit none = err invalid_argument
given_limit (some n) = ok n

abbrev pub unread_cap : ℕ
unread_cap = 200

abbrev pub context_limit : ℕ → Str → ℕ
context_limit n before =
    let wanted = if n == 0 then (if is_empty before then 10 else 50) else n in
    if ltb 200 wanted then 200 else wanted

-- What the first transaction finds.
pub record Page : Type 0 where
  pub room : Room
  pub subscribed : Bool
  pub messages : List Message
  pub marked_read : List Str
  pub more : Bool

abbrev pub is_subscribed : Result Membership → Bool
is_subscribed (ok m) = m.subscribed
is_subscribed (err c) = false

abbrev pub read_state : ℕ → Str → Str → MessageState
read_state now account_id message_id = record {
  message_id = message_id;
  account_id = account_id;
  read_at = some now;
}

-- The loop over the unread messages; the k-th writes the k-th audit entry.
unfoldable pub mark_read : Env → ℕ → Str → List Message → Db → Result Db
mark_read e k account_id [] t = ok t
mark_read e k account_id (m ∷ ms) t =
    MessageStates.upsert (read_state e.now account_id m.id) t >>= λ t1.
    record_audit e k account_id (bytes "message.read") m.id t1 >>= λ t2.
    mark_read e (k + 1) account_id ms t2

abbrev pub ids_of : List Message → List Str
ids_of ms = map (λ (m : Message). m.id) ms

unfoldable pub reversed : List Message → List Message
reversed [] = []
reversed (m ∷ ms) = reversed ms ++ m ∷ []

-- The history before a message: nothing is marked.
abbrev pub history_page : Room → Bool → Str → Str → ℕ → Db → Result (Page × Db)
history_page room subscribed room_id before limit t =
    Messages.list room_id before limit t >>= λ rows. ok (
      record {
        room = room;
        subscribed = subscribed;
        messages = rows;
        marked_read = [];
        more = length rows == limit;
      },
      t,
    )

abbrev pub unread_page : Env → Room → Bool → Str → Str → ℕ → Db → Result (Page × Db)
unread_page e room subscribed account_id room_id limit t =
    let unread = Messages.list_unread_for_account_in_room account_id room_id unread_cap t in
    let context = Messages.list_read_history_for_account_in_room account_id room_id limit t in
    mark_read e 0 account_id unread t >>= λ t1. ok (
      record {
        room = room;
        subscribed = subscribed;
        messages = reversed context ++ reversed unread;
        marked_read = ids_of unread;
        more = length unread == unread_cap;
      },
      t1,
    )

unfoldable pub read_page : Env → Str → Str → Str → ℕ → Db → Result (Page × Db)
unfolding mark_read reversed
read_page e actor_id room_id before limit t = do
  room ← Rooms.get room_id t
  a ← Accounts.get actor_id t
  member_or_admin or_denied a room_id t
  let subscribed = is_subscribed (Memberships.get actor_id room_id t)
  if is_empty before
      then unread_page e room subscribed actor_id room_id limit t
      else history_page room subscribed room_id before limit t

-- One message of the reply.
pub record Shown : Type 0 where
  pub message : Message
  pub author_name : Str
  pub display_content : Str
  pub read_at : Option ℕ
  pub attachments : List Attachment
  pub mentions : List Str

pub record ReadReply : Type 0 where
  pub room_id : Str
  pub room_name : Str
  pub subscribed : Bool
  pub current_announcement_id : Str
  pub marked_read : List Str
  pub messages : List Shown
  pub more : Bool

unfoldable pub names_by_id : List Account → StrMap Str → StrMap Str
names_by_id [] m = m
names_by_id (a ∷ more) m = names_by_id more (put a.id a.name m)

unfoldable pub names_by_bot : List Account → StrMap Str → StrMap Str
names_by_bot [] m = m
names_by_bot (a ∷ more) m =
    names_by_bot more (if is_empty a.bot_user_id then m else put a.bot_user_id a.name m)

abbrev pub or_blank : Option Str → Str
or_blank none = []
or_blank (some s) = s

abbrev pub read_time : Result MessageState → Option ℕ
read_time (ok s) = s.read_at
read_time (err c) = none

abbrev pub announcement_id : Result Announcement → Str
announcement_id (ok a) = a.id
announcement_id (err c) = []

unfoldable pub show : Str → StrMap Str → StrMap Str → Db → Message → Shown
show account_id names bots db m = record {
  message = m;
  author_name = or_blank (lookup m.author_account_id names);
  display_content = render_display_content m.content bots;
  read_at = read_time (MessageStates.get m.id account_id db);
  attachments = Attachments.list_by_message m.id db;
  mentions = MessageMentions.list_for_message m.id db;
}

-- The reply, from the tables after the commit.
unfoldable pub hydrate : Str → Page → Db → ReadReply
unfolding show names_by_id names_by_bot
hydrate account_id p db =
    let accounts = Accounts.list db in
    record {
      room_id = p.room.id;
      room_name = p.room.name;
      subscribed = p.subscribed;
      current_announcement_id = announcement_id (Announcements.latest p.room.id db);
      marked_read = p.marked_read;
      messages =
          map (show account_id (names_by_id accounts []) (names_by_bot accounts []) db) p.messages;
      more = p.more;
    }

-- Without a message that was marked, nobody is told.
abbrev pub tell_reader : {S : Type 0} → Str → List Str → Bus S → Bus S
tell_reader account_id [] b = b
tell_reader account_id (id ∷ ids) b = publish account_id b

abbrev pub reader : Option Account → ReadRequest → Result (Str × ℕ)
reader who req = do
  a ← actor_of who
  n ← given_limit req.limit
  ok (a.id, context_limit n req.before)

abbrev pub hydrated : Str → Page × Db → (Str × Page × ReadReply) × Db
hydrated account_id (p, t) = ((account_id, p, hydrate account_id p t), t)

unfoldable pub read_room :
    {S : Type 0}
    → Env
    → Option Account
    → Str
    → ReadRequest
    → Db
    → Bus S
    → Result ReadReply × Db × Bus S
unfolding read_page hydrate
read_room e who room_id req db b =
    tell (λ (account_id, p, reply) db'. tell_reader account_id p.marked_read)
      (λ (account_id, p, reply). reply)
      (after (reader who req) db (λ x.
        with_tx (λ t. read_page e x.0 room_id req.before x.1 t >>= λ y. ok (hydrated x.0 y)) db))
      b
