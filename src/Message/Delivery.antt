-- ===== src/Message/Delivery.antt =====
-- A message that the gateway reports for the first time.
use agent_chat.Prelude.{
  any_weaker, ◌≡◌, inl, inr, refl, sym, ap, ◌∙◌, leb, Bool-cases, Bool, true, false, Option, none,
  some, List, [], ◌∷◌, ◌++◌, Str, str_eq, str_eq_refl, is_empty, find, any, All, All-map, All-keep,
  All-sort_by, any_found, any-find, any-sort_by, find-append, find-modify, find-none, modify, keep,
  if◌then◌else◌, arith,
}
use agent_chat.Errcode.Result.{then_ok, ok, or_not_found}
use agent_chat.Store.{
  Db, Account, Room, Membership, Message, MessageState, Attachment, normal, priority_valid,
}
use agent_chat.Store.Transaction.{commit}
use agent_chat.Store.Accounts
use agent_chat.Store.Rooms
use agent_chat.Store.Memberships
use agent_chat.Store.Messages
use agent_chat.Store.MessageStates
use agent_chat.Message.{
  drawn, Draws, Inbound, has_bot, account_id_or_none, resolve_author, resolve_mentions, is_member,
  account_ids, merge_everyone, finish, persist_mentions, persist_new, ingest_new, if_catalogued,
  has,
}
use agent_chat.Message.Archive.{found_body}
use agent_chat.Message.Fanout.{
  HasAccount, state_of, row_for, fan_out_lem, Indexable, AreRows, index_attachments_lem,
}
use agent_chat.Message.Owners.{
  IsAuthor, Called, owns, alone, resolve_author-IsAuthor, resolve_mentions-Called,
  resolve_mentions-has,
}
use agent_chat.Message.Targets.{Adds, Fresh, add_mentions_lem, member_exists, resolve_mentions_lem}

-- The message is in a room of the tables and is new; its UUID is drawn and used by no row; the
-- tables' foreign keys hold; the attachments have names and unused UUIDs.
pub record Arrival (d : Draws) (e : Inbound) (db : Db) (room : Room) (id : Str) : Type 0 where
  pub found : find (Rooms.has_channel e.channel_id) db.rooms ≡ some room
  pub new : any (Messages.has_discord_id e.id) db.messages ≡ false
  pub uuid : d.message_uuid ≡ some id
  pub uuid_given : is_empty id ≡ false
  pub uuid_fresh : any (Messages.has_id id) db.messages ≡ false
  pub no_states : any (λ (s : MessageState). str_eq s.message_id id) db.message_states ≡ false
  pub members_exist : All (HasAccount db) db.memberships
  pub indexable : Indexable d id 0 e.attachments db.attachments

author_found :
    (author_id : Str) (db : Db) → Messages.author_exists (resolve_author author_id db) db ≡ true
unfolding resolve_author Accounts.list
author_found author_id db = elim (Bool-cases (is_empty author_id)) [
  | inl blank ↦ rw blank refl
  | inr given ↦ rw given (owner (find (has_bot author_id) (Accounts.list db)) refl)
]
  where
    owner :
        (o : Option Account)
        → find (has_bot author_id) (Accounts.list db) ≡ o
        → Messages.author_exists (account_id_or_none o) db ≡ true
    owner none h = refl
    owner (some a) h = ground (
      arith,
      sym (
            any-sort_by (Accounts.has_id a.id) (λ (x y : Account). leb x.created_at y.created_at)
              db.accounts)
          ∙ any_found (has_bot author_id) (Accounts.has_id a.id) (Accounts.list db) a h
              (str_eq_refl a.id),
    )

-- Merging the flag that the row already has.
merge_lem :
    (id : Str) (m : Message) (flag : Bool) (db : Db)
    → find (Messages.has_id id) db.messages ≡ some m
    → m.mention_everyone ≡ flag
    → str_eq m.id id ≡ true
    → (messages : List Message) × (merge_everyone id flag db
        ≡ ok (record db { messages = messages }))
      × (find (Messages.has_id id) messages ≡ some m)
unfolding Messages.merge_mention_everyone
merge_lem id m false db found flagged own = (db.messages, refl, found)
merge_lem id m true db found flagged own = (
  modify (Messages.has_id id) Messages.set_everyone db.messages,
  rw (any-find (Messages.has_id id) db.messages m found) refl,
  find-modify (Messages.has_id id) (Messages.has_id id) Messages.set_everyone db.messages
        (λ x k. refl)
      ∙ rw (found, own) (ap (λ b. some (record m { mention_everyone = b })) (sym flagged)),
)

module _ (d : Draws) (e : Inbound) (db : Db) (room : Room) (id : Str)
    (h : Arrival d e db room id) where
  abbrev row : Message
  row = record {
    id = id;
    room_id = room.id;
    author_account_id = resolve_author e.author_id db;
    discord_msg_id = e.id;
    content = e.content;
    reply_to_msg_id = [];
    priority = normal;
    created_at = e.created_at;
    content_hash = d.content_hash e.content;
    mention_everyone = e.mention_everyone;
  }

  abbrev pub members : List Membership
  members = Memberships.list_by_room room.id db

  abbrev author : Str
  author = resolve_author e.author_id db

  inserted :
      Messages.create_ignore_conflict row db
      ≡ ok (id, true, record db { messages = db.messages ++ row ∷ [] })
  unfolding Messages.create_ignore_conflict priority_valid
  inserted =
      rw
        (
          h.new,
          h.uuid_fresh,
          any_found (Rooms.has_channel e.channel_id) (Rooms.has_id room.id) db.rooms room h.found
              (str_eq_refl room.id),
          author_found e.author_id db,
        )
        refl

  posted : find (Messages.has_id id) (db.messages ++ row ∷ []) ≡ some row
  posted =
      find-append (Messages.has_id id) db.messages (row ∷ []) h.uuid_fresh
      ∙ rw (str_eq_refl id) refl

  members_exist : All (HasAccount db) members
  unfolding Memberships.list_by_room
  members_exist =
      All-sort_by (HasAccount db) Memberships.joined_first
        (keep (λ m. str_eq m.room_id room.id) db.memberships)
        (All-keep (HasAccount db) (λ m. str_eq m.room_id room.id) db.memberships h.members_exist)

  abbrev targets : List Str
  targets = resolve_mentions e.mentioned_bot_user_ids members db

  targets_exist : All (λ t. any (Accounts.has_id t) db.accounts ≡ true) targets
  targets_exist =
      All-map (λ t. is_member t members ≡ true) (λ t. any (Accounts.has_id t) db.accounts ≡ true)
        targets (member_exists db members members_exist)
        (resolve_mentions_lem e.mentioned_bot_user_ids members db).0

  no_state : (a : Str) → state_of id db.message_states a ≡ none
  no_state a = find-none (MessageStates.is_state id a) db.message_states (
      any_weaker (λ (s : MessageState). str_eq s.message_id id) (MessageStates.is_state id a)
        db.message_states (λ s k. ground (arith, k)) h.no_states)

  -- What `ingestNew` leaves in the tables.
  pub record Delivered (db' : Db) : Type 0 where
    pub stored : Messages.get id db' ≡ ok row
    pub states :
        (a : Str)
        → state_of id db'.message_states a
          ≡ (if is_member a members then some (row_for d id author a) else none)
    pub written_by : IsAuthor e.author_id db author
    pub mentions : (a : Str) → Adds id targets db.message_mentions db'.message_mentions a
    pub called : All (Called e.mentioned_bot_user_ids db) targets
    pub all_called :
        (bid a : Str)
        → has bid e.mentioned_bot_user_ids ≡ true
        → is_empty bid ≡ false
        → owns bid a db.accounts ≡ true
        → alone bid a db.accounts ≡ true
        → is_member a members ≡ true
        → has a targets ≡ true
    pub mentioned_once : Fresh [] targets
    pub mentioned_members : All (λ t. is_member t members ≡ true) targets
    pub attached :
        (rows : List Attachment) × (db'.attachments ≡ db.attachments ++ rows)
        × AreRows d id 0 e.attachments rows

  persist_new_lem :
      (db' : Db) × (persist_new d e room db ≡ ok (account_ids members, db')) × Delivered db'
  unfolding persist_new persist_mentions finish Memberships.list_by_room resolve_mentions
      Accounts.list Messages.get
  persist_new_lem =
      let (messages, e1, found) =
        merge_lem id row e.mention_everyone (record db { messages = db.messages ++ row ∷ [] })
          posted refl (str_eq_refl id) in
      let there : any (Messages.has_id id) messages ≡ true =
        any-find (Messages.has_id id) messages row found in
      let db1 = record db { messages = messages } in
      let (mentions, e2, mentioned, added) =
        add_mentions_lem id targets db1 h.uuid_given there targets_exist in
      let db2 = record db1 { message_mentions = mentions } in
      let (states, e3, stated) =
        fan_out_lem d id author members db2 there members_exist (λ a. inl (no_state a)) in
      let db3 = record db2 { message_states = states } in
      let (rows, e4, are) =
        index_attachments_lem d id 0 e.attachments db3 h.uuid_given there h.indexable in
      (
        record db3 { attachments = db.attachments ++ rows },
        then_ok _ _ (ap drawn h.uuid) (
            then_ok _ _ inserted
              (then_ok _ _ e1 (then_ok _ _ e2 (then_ok _ _ e3 (then_ok _ _ e4 refl))))),
        record {
          stored = ap or_not_found found;
          states = λ a. stated a ∙ rw (no_state a) refl;
          written_by = resolve_author-IsAuthor e.author_id db;
          mentions = added;
          called = resolve_mentions-Called e.mentioned_bot_user_ids members db;
          all_called = λ bid a. resolve_mentions-has e.mentioned_bot_user_ids members db bid a;
          mentioned_once = (resolve_mentions_lem e.mentioned_bot_user_ids members db).1;
          mentioned_members = (resolve_mentions_lem e.mentioned_bot_user_ids members db).0;
          attached = (rows, refl, are);
        },
      )

  -- A message that is new, in a room of the tables whose foreign keys hold, with a fresh UUID for it
  -- and for each attachment: its transaction commits and names every member for a notification.
  -- The row is stored with what the event says, by an account that owns the author's bot ("" where
  -- there is none); every member has one state row, unread but for the author's, and nobody else has
  -- one. The mentions that are added are those of a list (but for an empty account id) without
  -- duplicates, of members that own one of the bots mentioned, and each member that alone owns one is
  -- in it. There is one row per attachment, in order, that waits for its download.
  pub ingest_new-Delivered :
      (db' : Db) × (ingest_new d e db ≡ (ok (account_ids members), db')) × Delivered db'
  unfolding ingest_new
  ingest_new-Delivered =
      let (db', eq, delivered) = persist_new_lem in
      (
        db',
        commit
            (λ t.
              if_catalogued (persist_new d e) (Rooms.get_by_discord_channel_id e.channel_id t) t)
            db (account_ids members) db'
            (found_body (persist_new d e) e.channel_id db room h.found ∙ eq),
        delivered,
      )
