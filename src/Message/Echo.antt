-- ===== src/Message/Echo.antt =====
-- A message that is in the tables already: the gateway's echo of a message that the send path
-- stored, or a second report.
use agent_chat.Prelude.{
  subst, ◌&&◌, ◌≡◌, refl, sym, ap, ◌∙◌, Bool-cases, inl, inr, Bool, true, false, Option, none, some,
  List, [], ◌∷◌, map, Str, is_empty, find, any, modify, if◌then◌else◌, arith,
}
use agent_chat.Errcode.{Code, invalid_argument}
use agent_chat.Errcode.Result.{Result, ok, err, require, AllOk, AllOk-bind, AllOk-if, AllOk-Unit}
use agent_chat.Store.{Db, Room, Message, priority_valid}
use agent_chat.Store.Transaction.{kept}
use agent_chat.Store.Accounts
use agent_chat.Store.Rooms
use agent_chat.Store.Memberships
use agent_chat.Store.Messages
use agent_chat.Store.MessageMentions
use agent_chat.Message.{
  Draws, Inbound, resolve_author, resolve_mentions, drawn, message_row, merge_everyone,
  add_mentions, finish, persist_mentions, persist_new, ingest_new, if_catalogued,
}

-- A message without its flag.
abbrev pub unflagged : Message → Message
unflagged m = record m { mention_everyone = false }

-- Only mentions differ: rows of message_mentions, and flags in messages.
abbrev pub OnlyMentions : Db → Db → Type 0
OnlyMentions db db' =
    (db' ≡ record db { messages = db'.messages; message_mentions = db'.message_mentions })
    × (map unflagged db'.messages ≡ map unflagged db.messages)

OnlyMentions-refl : (db : Db) → OnlyMentions db db
OnlyMentions-refl db = (refl, refl)

OnlyMentions-trans : (a b c : Db) → OnlyMentions a b → OnlyMentions b c → OnlyMentions a c
OnlyMentions-trans a b c (e, m) (f, n) = (
  f ∙ ap (λ (x : Db). record x { messages = c.messages; message_mentions = c.message_mentions }) e,
  n ∙ m,
)

AllOk-trans :
    (a b : Db)
    → OnlyMentions a b
    → (r : Result Db) → AllOk (OnlyMentions b) r
    → AllOk (OnlyMentions a) r
AllOk-trans a b h (ok c) k = OnlyMentions-trans a b c h k
AllOk-trans a b h (err c) k = tt

flags_only :
    (p : Message → Bool) (ms : List Message)
    → map unflagged (modify p Messages.set_everyone ms) ≡ map unflagged ms
flags_only p [] = refl
flags_only p (m ∷ ms) = ground (arith, flags_only p ms)

merge_everyone-OnlyMentions :
    (id : Str) (flag : Bool) (db : Db) → AllOk (OnlyMentions db) (merge_everyone id flag db)
unfolding Messages.merge_mention_everyone
merge_everyone-OnlyMentions id false db = OnlyMentions-refl db
merge_everyone-OnlyMentions id true db = elim (Bool-cases (any (Messages.has_id id) db.messages)) [
  | inl there ↦ rw there (refl, flags_only (Messages.has_id id) db.messages)
  | inr absent ↦ rw absent tt
]

insert_or_ignore-OnlyMentions :
    (id t : Str) (db : Db)
    → AllOk
        (OnlyMentions db)
        (if is_empty t then ok db else MessageMentions.insert_or_ignore id t db)
insert_or_ignore-OnlyMentions id t db =
    AllOk-if (OnlyMentions db) (is_empty t) (ok db) (MessageMentions.insert_or_ignore id t db)
      (OnlyMentions-refl db)
      (AllOk-if (OnlyMentions db) (any (MessageMentions.is_mention id t) db.message_mentions)
        (ok db) _ (OnlyMentions-refl db)
        (AllOk-if (OnlyMentions db)
          (any (Messages.has_id id) db.messages && any (Accounts.has_id t) db.accounts) _ _
          (refl, refl) tt))

insert_all-OnlyMentions :
    (id : Str) (ts : List Str) (db : Db)
    → AllOk (OnlyMentions db) (MessageMentions.insert_all id ts db)
unfolding MessageMentions.insert_all
insert_all-OnlyMentions id [] db = OnlyMentions-refl db
insert_all-OnlyMentions id (t ∷ ts) db =
    AllOk-bind (OnlyMentions db) (OnlyMentions db)
      (if is_empty t then ok db else MessageMentions.insert_or_ignore id t db)
      (λ db'. MessageMentions.insert_all id ts db') (insert_or_ignore-OnlyMentions id t db)
      (λ db1 h.
        AllOk-trans db db1 h (MessageMentions.insert_all id ts db1)
          (insert_all-OnlyMentions id ts db1))

add_mentions-OnlyMentions :
    (id : Str) (ts : List Str) (db : Db) → AllOk (OnlyMentions db) (add_mentions id ts db)
unfolding MessageMentions.add_for_message
add_mentions-OnlyMentions id [] db = OnlyMentions-refl db
add_mentions-OnlyMentions id (t ∷ ts) db =
    AllOk-if (OnlyMentions db) (is_empty id) (err invalid_argument)
      (MessageMentions.insert_all id (t ∷ ts) db) tt (insert_all-OnlyMentions id (t ∷ ts) db)

module _ (d : Draws) (e : Inbound) where
  abbrev Echoed : Db → List Str × Db → Type 0
  Echoed db r = OnlyMentions db r.1

  persist_mentions-Echoed :
      (room_id author_id id : Str) (db : Db)
      → AllOk (Echoed db) (persist_mentions d room_id author_id e (id, false, db))
  unfolding persist_mentions finish
  persist_mentions-Echoed room_id author_id id db =
      AllOk-bind (OnlyMentions db) (Echoed db) (merge_everyone id e.mention_everyone db) _
        (merge_everyone-OnlyMentions id e.mention_everyone db)
        (λ db1 h1.
          AllOk-bind (OnlyMentions db) (Echoed db)
            (add_mentions id
              (resolve_mentions e.mentioned_bot_user_ids (Memberships.list_by_room room_id db) db1)
              db1)
            _
            (AllOk-trans db db1 h1
              (add_mentions id
                (resolve_mentions e.mentioned_bot_user_ids (Memberships.list_by_room room_id db)
                  db1)
                db1)
              (add_mentions-OnlyMentions id
                (resolve_mentions e.mentioned_bot_user_ids (Memberships.list_by_room room_id db)
                  db1)
                db1))
            (λ db2 h2. h2))

  -- The insert finds the row and writes nothing.
  abbrev Found : Db → Str × Bool × Db → Type 0
  Found db row = (id : Str) × (row ≡ (id, false, db))

  existing-Found : (o : Option Message) (db : Db) → AllOk (Found db) (Messages.existing_id o db)
  existing-Found none db = tt
  existing-Found (some m) db = (m.id, refl)

  create-Found :
      (m : Message) (db : Db)
      → any (Messages.has_discord_id m.discord_msg_id) db.messages ≡ true
      → AllOk (Found db) (Messages.create_ignore_conflict m db)
  unfolding Messages.create_ignore_conflict
  create-Found m db there =
      AllOk-bind (λ _. Unit) (Found db) (require (priority_valid m.priority) invalid_argument)
        (λ _. Messages.insert_or_find m db)
        (AllOk-Unit (require (priority_valid m.priority) invalid_argument))
        (λ _ _.
          rw there
            (existing-Found (find (Messages.has_discord_id m.discord_msg_id) db.messages) db))

  persist_new-Echoed :
      (room : Room) (db : Db)
      → any (Messages.has_discord_id e.id) db.messages ≡ true
      → AllOk (Echoed db) (persist_new d e room db)
  unfolding persist_new
  persist_new-Echoed room db there =
      AllOk-bind (λ u. Unit) (Echoed db) (drawn d.message_uuid) _
        (AllOk-Unit (drawn d.message_uuid))
        (λ id _.
          AllOk-bind (Found db) (Echoed db)
            (Messages.create_ignore_conflict (message_row d id room e db) db)
            (persist_mentions d room.id (resolve_author e.author_id db) e)
            (create-Found (message_row d id room e db) db there)
            (λ row (mid, same).
              subst
                (λ r.
                  AllOk (Echoed db)
                    (persist_mentions d room.id (resolve_author e.author_id db) e r))
                (sym same)
                (persist_mentions-Echoed room.id (resolve_author e.author_id db) mid db)))

  catalogued-Echoed :
      (found : Result Room) (db : Db)
      → any (Messages.has_discord_id e.id) db.messages ≡ true
      → AllOk (Echoed db) (if_catalogued (persist_new d e) found db)
  catalogued-Echoed (ok room) db there = persist_new-Echoed room db there
  catalogued-Echoed (err Code.not_found) db there = OnlyMentions-refl db
  catalogued-Echoed (err c) db there = tt

  -- A message whose Discord id is stored already, in whatever way the event describes it and however
  -- the transaction ends: afterwards every table is as before but for message_mentions, and the
  -- messages are the same rows in the same order but for their mention_everyone flags. So no row is
  -- duplicated, no state row is added or made unread again, and no attachment is indexed twice.
  pub ingest_new-OnlyMentions :
      (db : Db)
      → any (Messages.has_discord_id e.id) db.messages ≡ true
      → OnlyMentions db (ingest_new d e db).1
  unfolding ingest_new
  ingest_new-OnlyMentions db there =
      kept (λ t. if_catalogued (persist_new d e) (Rooms.get_by_discord_channel_id e.channel_id t) t)
        db (OnlyMentions db) (OnlyMentions-refl db)
        (catalogued-Echoed (Rooms.get_by_discord_channel_id e.channel_id db) db there)
