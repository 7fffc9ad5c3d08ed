-- ===== src/Api/Race.antt =====
-- A message that is sent and that the ingester has stored first.
use agent_chat.Prelude.{
  ◌≡◌, ◌≤◌, refl, ap, ◌∙◌, true, false, some, List, [], ◌∷◌, ◌++◌, ◌||◌, map, length, Str, str_eq,
  str_eq_refl, bytes, is_empty, find, any, any-find, find_rewritten, modify, All, All-map, All-keep,
  All-self, All-sort_by, keep,
}
use mathlib.Core.Option
use agent_chat.Errcode.Result.{ok, then_ok, or_not_found}
use agent_chat.Store.{Db, Membership, Message, MessageState, Attachment, AuditEntry, priority_valid}
use agent_chat.Store.Accounts
use agent_chat.Store.Memberships
use agent_chat.Store.Messages
use agent_chat.Store.Attachments
use agent_chat.Store.Audit
use agent_chat.Message.Fanout.{HasAccount}
use agent_chat.Message.Targets.{Mentioned, add_mentions_lem}
use agent_chat.Api.{record_audit}
use agent_chat.Api.Post.{SendEnv, Parcel}
use agent_chat.Api.Send.{metadata, own_row, store_rest, store_sent}
use agent_chat.Api.Rows.{Row, Kept, upsert_keeps, fan_out_keeps, patched, messages-modify}

-- The provider has sent the message, and the ingester has stored it as `m`, with a row for each file; the
-- tables' foreign keys hold and the audit entry's UUID is in no entry.
pub record Racing (e : SendEnv) (p : Parcel) (audit_id : Str) (m : Message) (db : Db) : Type 0 where
  pub first : find (Messages.has_discord_id p.row.discord_msg_id) db.messages ≡ some m
  pub own : find (Messages.has_id m.id) db.messages ≡ some m
  pub id_given : is_empty m.id ≡ false
  pub valid : priority_valid p.row.priority ≡ true
  pub author_exists : Messages.author_exists p.row.author_account_id db ≡ true
  pub reply_exists : Messages.reply_exists p.row.reply_to_msg_id db ≡ true
  pub actor_exists : any (Accounts.has_id p.actor_id) db.accounts ≡ true
  pub members_exist : All (HasAccount db) db.memberships
  pub mentioned_exist :
      All (λ t. any (Accounts.has_id t) db.accounts ≡ true) p.parsed.mentioned_account_ids
  pub filed : length p.uploads ≤ length (Attachments.list_by_message m.id db)
  pub audit_uuid : e.base.audit_uuid 0 ≡ some audit_id
  pub audit_fresh : any (λ (x : AuditEntry). str_eq x.id audit_id) db.audit_log ≡ false

module _ (e : SendEnv) (p : Parcel) (audit_id : Str) (m : Message) (db : Db)
    (h : Racing e p audit_id m db) where
  -- The ingester's row with the sender's metadata.
  abbrev pub merged : Message
  merged = record m {
    author_account_id = p.row.author_account_id;
    reply_to_msg_id = p.row.reply_to_msg_id;
    priority = p.row.priority;
    content_hash = p.row.content_hash;
    mention_everyone = m.mention_everyone || p.row.mention_everyone;
  }

  abbrev members : List Membership
  members = Memberships.list_by_room p.room_id db

  -- The row has the sender's metadata; there is no second row of the message or of a file; the author
  -- and every member have a state row, and the accounts mentioned are stored.
  pub record Merged (db' : Db) : Type 0 where
    pub stored : Messages.get m.id db' ≡ ok merged
    pub no_second :
        map (λ (x : Message). x.id) db'.messages ≡ map (λ (x : Message). x.id) db.messages
    pub no_copies :
        map (λ (a : Attachment). a.id) db'.attachments
        ≡ map (λ (a : Attachment). a.id) db.attachments
    pub members_have : All (λ (x : Membership). Row m.id x.account_id db'.message_states) members
    pub author_has : Row m.id p.actor_id db'.message_states
    pub mentioned : All (Mentioned m.id db'.message_mentions) p.parsed.mentioned_account_ids

  abbrev messages1 : List Message
  messages1 = modify (Messages.has_id m.id) (Messages.set_metadata (metadata p.row)) db.messages

  there : any (Messages.has_id m.id) db.messages ≡ true
  there = any-find (Messages.has_id m.id) db.messages m h.own

  found1 : find (Messages.has_id m.id) messages1 ≡ some merged
  found1 =
      find_rewritten (Messages.has_id m.id) (Messages.set_metadata (metadata p.row)) db.messages
        (λ x k. refl)
      ∙ ap (Option.map (Messages.set_metadata (metadata p.row))) h.own

  ignored : Messages.create_ignore_conflict p.row db ≡ ok (m.id, false, db)
  unfolding Messages.create_ignore_conflict
  ignored =
      rw
        (
          h.valid,
          any-find (Messages.has_discord_id p.row.discord_msg_id) db.messages m h.first,
          h.first,
        )
        refl

  taken_over : own_row p.row (m.id, false, db) ≡ ok (merged, record db { messages = messages1 })
  unfolding own_row Messages.apply_send_metadata Messages.get
  taken_over = rw (h.valid, there, h.author_exists, h.reply_exists, found1) refl

  seated : All (HasAccount db) members
  unfolding Memberships.list_by_room
  seated =
      All-sort_by (HasAccount db) Memberships.joined_first
        (keep (λ x. str_eq x.room_id p.room_id) db.memberships)
        (All-keep (HasAccount db) (λ x. str_eq x.room_id p.room_id) db.memberships h.members_exist)

  abbrev files : List Attachment
  files = Attachments.list_by_message m.id db

  filed_rows : All (Kept db.attachments) files
  unfolding Attachments.list_by_message
  filed_rows =
      All-sort_by (Kept db.attachments) Attachments.by_id
        (keep (λ a. str_eq a.message_id m.id) db.attachments)
        (All-keep (Kept db.attachments) (λ a. str_eq a.message_id m.id) db.attachments
          (All-self (λ (a b : Attachment). str_eq b.id a.id) db.attachments
            (λ a. str_eq_refl a.id)))

  entry : AuditEntry
  entry = record {
    id = audit_id;
    account_id = p.actor_id;
    action = bytes "message.send";
    target = m.id;
    payload = e.base.payload 0;
    created_at = e.base.audit_time 0;
  }

  -- The second transaction, when the ingester was first: it succeeds with the ingester's row, which now
  -- has the sender's author, reply, priority and content hash, and either side's flag for everyone; neither the message nor a file
  -- gets a second row; the author and every member have a state row; and the mentions are stored.
  pub store_sent-Merged : (db' : Db) × (store_sent e p db ≡ ok (merged, db')) × Merged db'
  unfolding store_sent store_rest Memberships.list_by_room Messages.get Audit.record_via entry
      Attachments.list_by_message
  store_sent-Merged =
      let db1 = record db { messages = messages1 } in
      let there1 : any (Messages.has_id m.id) messages1 ≡ true =
        any-find (Messages.has_id m.id) messages1 merged found1 in
      let (mentions, e1, mentioned, added) =
        add_mentions_lem m.id p.parsed.mentioned_account_ids db1 h.id_given there1
          h.mentioned_exist in
      let db2 = record db1 { message_mentions = mentions } in
      let (rows, e2, all, keeps) =
        fan_out_keeps e.base.now p.actor_id m.id members db2 there1 seated in
      let db3 = record db2 { message_states = rows } in
      let mine : MessageState = record {
        message_id = m.id;
        account_id = p.actor_id;
        read_at = some e.base.now;
      } in
      let (states, e3, here, keeps3) = upsert_keeps mine db3 there1 h.actor_exists in
      let db4 = record db3 { message_states = states } in
      let (files', e4, same) =
        patched e 0 m.id p.uploads p.sent.attachments files db4 h.filed filed_rows in
      let db5 = record db4 { attachments = files' } in
      let db6 = record db5 { audit_log = db.audit_log ++ entry ∷ [] } in
      let audited : record_audit e.base 0 p.actor_id (bytes "message.send") m.id db5 ≡ ok db6 =
        rw (h.audit_uuid, h.audit_fresh) refl in
      let finished : store_rest e p m.id false db1 ≡ ok db6 =
        then_ok _ _ e1 (then_ok _ _ e2 (then_ok _ _ e3 (then_ok _ _ e4 audited))) in
      (
        db6,
        then_ok _ _ ignored (then_ok _ _ taken_over (then_ok _ _ finished refl)),
        record {
          stored = ap or_not_found found1;
          no_second =
              messages-modify (Messages.has_id m.id) (Messages.set_metadata (metadata p.row))
                db.messages (λ x. refl);
          no_copies = same;
          members_have =
              All-map (λ (x : Membership). Row m.id x.account_id rows)
                (λ (x : Membership). Row m.id x.account_id states) members
                (λ x k. keeps3 m.id x.account_id k) all;
          author_has = here;
          mentioned = mentioned;
        },
      )
