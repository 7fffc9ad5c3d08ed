-- ===== src/Api/Delivery.antt =====
-- A message that is sent and that the ingester has not stored yet.
use agent_chat.Prelude.{
  ◌≡◌, inl, inr, refl, sym, ap, subst, ◌∙◌, Bool-cases, true, false, ◌||◌, Option, none, some, List,
  [], ◌∷◌, ◌++◌, Str, str_eq, str_eq_refl, bytes, is_empty, find, any, any-find, find-append,
  find-none, any_weaker, All, All-keep, All-sort_by, keep, if◌then◌else◌, arith,
}
use agent_chat.Errcode.Result.{Result, ok, ◌>>=◌, then_ok, AllOk, or_not_found}
use agent_chat.Store.{
  Db, Account, Membership, Message, MessageState, Attachment, AuditEntry, priority_valid,
}
use agent_chat.Store.Transaction.{commit}
use agent_chat.Store.Accounts
use agent_chat.Store.Memberships
use agent_chat.Store.Messages
use agent_chat.Store.MessageStates
use agent_chat.Store.Attachments
use agent_chat.Store.Audit
use agent_chat.Bus.{Bus}
use agent_chat.Message.{Draws, is_member}
use agent_chat.Message.Fanout.{HasAccount, state_of, row_for, fan_out_lem, Clean, upsert_row}
use agent_chat.Message.Targets.{Mentioned, add_mentions_lem}
use agent_chat.Api.{publish_room_members, record_audit}
use agent_chat.Api.Post.{SendEnv, SendRequest, Sent, Outgoing, Parcel, post, checked}
use agent_chat.Api.Send.{own_row, store_rest, store_sent, send_message}
use agent_chat.Api.Uploads.{Storable, AreUploads, store_uploads_lem}
use agent_chat.Api.Parcels.{reading_at, same_fan_out, Addressed, request-Addressed}

-- The provider has sent the message, and the ingester has not stored it: no row has its Discord id. The
-- UUIDs drawn are in no row, the tables' foreign keys hold, and the files have names.
pub record Sending (e : SendEnv) (p : Parcel) (audit_id : Str) (db : Db) : Type 0 where
  pub actor_given : is_empty p.actor_id ≡ false
  pub actor_exists : any (Accounts.has_id p.actor_id) db.accounts ≡ true
  pub new : any (Messages.has_discord_id p.row.discord_msg_id) db.messages ≡ false
  pub uuid_given : is_empty p.row.id ≡ false
  pub uuid_fresh : any (Messages.has_id p.row.id) db.messages ≡ false
  pub no_states : any (λ (s : MessageState). str_eq s.message_id p.row.id) db.message_states ≡ false
  pub valid : priority_valid p.row.priority ≡ true
  pub refers : Messages.refers_to_rows p.row db ≡ true
  pub members_exist : All (HasAccount db) db.memberships
  pub mentioned_exist :
      All (λ t. any (Accounts.has_id t) db.accounts ≡ true) p.parsed.mentioned_account_ids
  pub storable : Storable e p.row.id 0 p.uploads p.sent.attachments db.attachments
  pub audit_uuid : e.base.audit_uuid 0 ≡ some audit_id
  pub audit_fresh : any (λ (x : AuditEntry). str_eq x.id audit_id) db.audit_log ≡ false

module _ (e : SendEnv) (p : Parcel) (audit_id : Str) (db : Db) (h : Sending e p audit_id db) where
  abbrev id : Str
  id = p.row.id

  abbrev d : Draws
  d = reading_at e.base.now

  abbrev members : List Membership
  members = Memberships.list_by_room p.room_id db

  -- What the call leaves in the tables.
  pub record SentOut (db' : Db) : Type 0 where
    pub stored : Messages.get id db' ≡ ok p.row
    pub states :
        (a : Str)
        → state_of id db'.message_states a ≡ (
            if str_eq p.actor_id a || is_member a members
            then some (row_for d id p.actor_id a)
            else none)
    pub mentioned : All (Mentioned id db'.message_mentions) p.parsed.mentioned_account_ids
    pub attached :
        (rows : List Attachment) × (db'.attachments ≡ db.attachments ++ rows)
        × AreUploads e id 0 p.uploads p.sent.attachments rows

  inserted :
      Messages.create_ignore_conflict p.row db
      ≡ ok (id, true, record db { messages = db.messages ++ p.row ∷ [] })
  unfolding Messages.create_ignore_conflict
  inserted = rw (h.valid, h.new, h.uuid_fresh, h.refers) refl

  posted : find (Messages.has_id id) (db.messages ++ p.row ∷ []) ≡ some p.row
  posted =
      find-append (Messages.has_id id) db.messages (p.row ∷ []) h.uuid_fresh
      ∙ rw (str_eq_refl id) refl

  seated : All (HasAccount db) members
  unfolding Memberships.list_by_room
  seated =
      All-sort_by (HasAccount db) Memberships.joined_first
        (keep (λ m. str_eq m.room_id p.room_id) db.memberships)
        (All-keep (HasAccount db) (λ m. str_eq m.room_id p.room_id) db.memberships h.members_exist)

  no_state : (a : Str) → state_of id db.message_states a ≡ none
  no_state a = find-none (MessageStates.is_state id a) db.message_states (
      any_weaker (λ (s : MessageState). str_eq s.message_id id) (MessageStates.is_state id a)
        db.message_states (λ s k. ground (arith, k)) h.no_states)

  entry : AuditEntry
  entry = record {
    id = audit_id;
    account_id = p.actor_id;
    action = bytes "message.send";
    target = id;
    payload = e.base.payload 0;
    created_at = e.base.audit_time 0;
  }

  own_state :
      row_for d id p.actor_id p.actor_id
      ≡ record { message_id = id; account_id = p.actor_id; read_at = some e.base.now }
  own_state = rw (h.actor_given, str_eq_refl p.actor_id) refl

  clean :
      (rows : List MessageState)
      → ((a : Str)
          → state_of id rows a
            ≡ (if is_member a members then some (row_for d id p.actor_id a) else none))
      → Clean d id p.actor_id rows
  clean rows w a = elim (Bool-cases (is_member a members)) [
    | inl there ↦ inr (w a ∙ rw there refl)
    | inr absent ↦ inl (w a ∙ rw absent refl)
  ]

  store_sent_lem : (db' : Db) × (store_sent e p db ≡ ok (p.row, db')) × SentOut db'
  unfolding store_sent store_rest own_row Memberships.list_by_room Messages.get Audit.record_via
      entry
  store_sent_lem =
      let there : any (Messages.has_id id) (db.messages ++ p.row ∷ []) ≡ true =
        any-find (Messages.has_id id) (db.messages ++ p.row ∷ []) p.row posted in
      let db1 = record db { messages = db.messages ++ p.row ∷ [] } in
      let (mentions, e1, mentioned, added) =
        add_mentions_lem id p.parsed.mentioned_account_ids db1 h.uuid_given there
          h.mentioned_exist in
      let db2 = record db1 { message_mentions = mentions } in
      let (rows, e2, w) =
        fan_out_lem d id p.actor_id members db2 there seated (λ a. inl (no_state a)) in
      let w0 : (a : Str)
          → state_of id rows a
            ≡ (if is_member a members then some (row_for d id p.actor_id a) else none) =
        λ a. w a ∙ rw (no_state a) refl in
      let db3 = record db2 { message_states = rows } in
      let (states, e3, written) =
        upsert_row d id p.actor_id p.actor_id db3 there h.actor_exists (clean rows w0) in
      let db4 = record db3 { message_states = states } in
      let (files, e4, are) =
        store_uploads_lem e id 0 p.uploads p.sent.attachments db4 h.uuid_given there h.storable in
      let db5 = record db4 { attachments = db.attachments ++ files } in
      let db6 = record db5 { audit_log = db.audit_log ++ entry ∷ [] } in
      let audited : record_audit e.base 0 p.actor_id (bytes "message.send") id db5 ≡ ok db6 =
        rw (h.audit_uuid, h.audit_fresh) refl in
      let finished : store_rest e p id true db1 ≡ ok db6 = then_ok _ _ e1 (
        then_ok _ _ (same_fan_out e.base.now p.actor_id id members db2 h.actor_given ∙ e2) (
          then_ok _ _ (ap (λ s. MessageStates.upsert s db3) (sym own_state) ∙ e3)
            (then_ok _ _ e4 audited))) in
      (
        db6,
        then_ok _ _ inserted (then_ok _ _ finished refl),
        record {
          stored = ap or_not_found posted;
          states = λ a. ground (arith, written a, w0 a);
          mentioned = mentioned;
          attached = (files, refl, are);
        },
      )

  -- A request that passes all checks and that the provider has sent, as the parcel `p`, before the
  -- ingester has stored the message; UUIDs are unused and foreign keys hold. Then the call stores the
  -- parcel's row with its author, room, content and Discord id, and replies with it; the author has read it, each other
  -- member of the room has it as unread, and nobody else has a state for it; the accounts that it
  -- mentions are stored (but for an empty id), and so is one row per file, in order, that needs no
  -- download; and the room's members are told.
  pub send_message-SentOut :
      {S : Type 0} (who : Account) (live : Option (Outgoing → Result Sent)) (room_id : Str)
      (req : SendRequest) (b : Bus S)
      → (checked (some who) req >>= λ x. post e live x.0 room_id x.1 req db) ≡ ok p
      → (db' : Db) × (send_message e (some who) live room_id req db b ≡ (
        ok (p.row, Attachments.list_by_message id db'),
        db',
        publish_room_members room_id db' b,
      ))
        × SentOut db'
        × Addressed who.id room_id p
  unfolding send_message
  send_message-SentOut who live room_id req b sent =
      let (db', stored, out) = store_sent_lem in
      let body : Db → Result ((Message × List Attachment) × Db) =
        λ t. store_sent e p t >>= λ x. ok ((x.0, Attachments.list_by_message x.0.id x.1), x.1) in
      let reply : Message × List Attachment = (p.row, Attachments.list_by_message id db') in
      (
        db',
        rw (sent, commit body db reply db' (then_ok _ _ stored refl)) refl,
        out,
        subst (AllOk (Addressed who.id room_id)) sent (request-Addressed e live who room_id req db),
      )
