-- ===== src/Api/Send.antt =====
-- internal/api/v1/messages.go: SendMessage, from the provider's answer on.
use agent_chat.Prelude.{
  ℕ, ◌+◌, Bool, true, false, Option, none, some, List, [], ◌∷◌, Str, bytes, str_eq, is_empty,
  if◌then◌else◌,
}
use agent_chat.Errcode.Result.{Result, ok, ◌>>=◌}
use agent_chat.Store.{Db, Account, Membership, Message, MessageState, Attachment, with_tx}
use agent_chat.Store.Memberships
use agent_chat.Store.Messages
use agent_chat.Store.Messages.{SendMetadata}
use agent_chat.Store.MessageStates
use agent_chat.Store.Attachments
use agent_chat.Bus.{Bus}
use agent_chat.Message.{add_mentions}
use agent_chat.Api.{drawn, record_audit, after, tell, publish_room_members}
use agent_chat.Api.Post.{
  SendRequest, Upload, SentFile, Sent, Outgoing, SendEnv, Parcel, post, checked,
}

abbrev pub metadata : Message → SendMetadata
metadata m = record {
  author_account_id = m.author_account_id;
  reply_to_msg_id = m.reply_to_msg_id;
  priority = m.priority;
  content_hash = m.content_hash;
  mention_everyone = m.mention_everyone;
}

-- The row as it stands: the own one, or the ingester's with the sender's metadata.
unfoldable pub own_row : Message → Str × Bool × Db → Result (Message × Db)
own_row m (id, true, t) = ok (m, t)
own_row m (id, false, t) = Messages.apply_send_metadata id (metadata m) t >>= λ t1.
    Messages.get id t1 >>= λ row. ok (row, t1)

abbrev pub state_row : ℕ → Str → Str → Str → MessageState
state_row now actor_id message_id account_id = record {
  message_id = message_id;
  account_id = account_id;
  read_at = if str_eq account_id actor_id then some now else none;
}

-- One state row per member.
unfoldable pub fan_out : ℕ → Str → Str → List Membership → Db → Result Db
fan_out now actor_id message_id [] t = ok t
fan_out now actor_id message_id (m ∷ members) t =
    MessageStates.upsert (state_row now actor_id message_id m.account_id) t >>= λ t1.
    fan_out now actor_id message_id members t1

-- The file that Discord reports at the upload's place, or blanks.
abbrev pub first_sent : List SentFile → SentFile
first_sent [] = record { url = []; filename = [] }
first_sent (s ∷ more) = s

abbrev pub rest {ℓ} : {A : Type ℓ} → List A → List A
rest [] = []
rest (x ∷ xs) = xs

abbrev pub attachment_row : SendEnv → Str → Str → Upload → SentFile → Attachment
attachment_row e id message_id u s = record {
  id = id;
  message_id = message_id;
  filename = if is_empty s.filename then u.filename else s.filename;
  size = u.size;
  mime = u.mime;
  local_path = u.path;
  discord_url = s.url;
  downloaded_at = some e.attachment_time;
  sha256 = [];
  created_at = e.attachment_time;
}

-- The ingester's row of the upload is patched, or there is none and one is made.
abbrev pub store_upload : SendEnv → ℕ → Str → Upload → SentFile → List Attachment → Db → Result Db
store_upload e k message_id u s (old ∷ more) t =
    Attachments.mark_downloaded old.id u.path [] e.attachment_time t
store_upload e k message_id u s [] t =
    drawn (e.attachment_uuid k) >>= λ id. Attachments.create (attachment_row e id message_id u s) t

-- The uploads from the k-th on, beside what Discord and the ingester have of them.
unfoldable pub store_uploads :
    SendEnv → ℕ → Str → List Upload → List SentFile → List Attachment → Db → Result Db
store_uploads e k message_id [] sent existing t = ok t
store_uploads e k message_id (u ∷ us) sent existing t =
    store_upload e k message_id u (first_sent sent) existing t >>= λ t1.
    store_uploads e (k + 1) message_id us (rest sent) (rest existing) t1

abbrev pub existing_rows : Bool → Str → Db → List Attachment
existing_rows true message_id t = []
existing_rows false message_id t = Attachments.list_by_message message_id t

-- After the row: members, mentions, states, attachments and the audit entry.
unfoldable pub store_rest : SendEnv → Parcel → Str → Bool → Db → Result Db
unfolding fan_out store_uploads
store_rest e p id inserted t = do
  let members = Memberships.list_by_room p.room_id t
  t1 ← add_mentions id p.parsed.mentioned_account_ids t
  t2 ← fan_out e.base.now p.actor_id id members t1
  t3 ←
      MessageStates.upsert
        (record { message_id = id; account_id = p.actor_id; read_at = some e.base.now }) t2
  t4 ← store_uploads e 0 id p.uploads p.sent.attachments (existing_rows inserted id t3) t3
  record_audit e.base 0 p.actor_id (bytes "message.send") id t4

unfoldable pub store_sent : SendEnv → Parcel → Db → Result (Message × Db)
unfolding own_row store_rest
store_sent e p t = do
  row ← Messages.create_ignore_conflict p.row t
  own ← own_row p.row row
  t1 ← store_rest e p row.0 row.1 own.1
  ok (own.0, t1)

-- The reply has the row and its attachments, read back after the commit.
unfoldable pub send_message :
    {S : Type 0}
    → SendEnv
    → Option Account
    → Option (Outgoing → Result Sent)
    → Str
    → SendRequest
    → Db
    → Bus S
    → Result (Message × List Attachment) × Db × Bus S
unfolding post store_sent publish_room_members
send_message e who live room_id req db b =
    tell (λ x db'. publish_room_members room_id db') (λ x. x)
      (after (checked who req >>= λ x. post e live x.0 room_id x.1 req db) db (λ p.
        with_tx
          (λ t. store_sent e p t >>= λ x. ok ((x.0, Attachments.list_by_message x.0.id x.1), x.1))
          db))
      b
