-- ===== src/Api/Uploads.antt =====
-- The files of a message that is sent: one row per file.
use mathlib.Core.List.{append-nil, append_assoc}
use agent_chat.Prelude.{
  ℕ, ◌+◌, ◌≡◌, refl, sym, ap, true, false, some, List, [], ◌∷◌, ◌++◌, Str, str_eq, is_empty, any,
  if◌then◌else◌,
}
use agent_chat.Errcode.Result.{ok}
use agent_chat.Store.{Db, Attachment}
use agent_chat.Store.Messages
use agent_chat.Store.Attachments
use agent_chat.Api.Post.{SendEnv, Upload, SentFile}
use agent_chat.Api.Send.{first_sent, rest, store_uploads}

module _ (e : SendEnv) (message_id : Str) where
  -- The row of a file that needs no download, with Discord's name for it, if it has one.
  abbrev pub local_row : Str → Upload → SentFile → Attachment
  local_row id u s = record {
    id = id;
    message_id = message_id;
    filename = if is_empty s.filename then u.filename else s.filename;
    size = u.size;
    mime = u.mime;
    local_path = u.path;
    discord_url = s.url;
    downloaded_at = some e.attachment_time;
    sha256 = [];
    created_at = e.attachment_time;
  }

  -- From the k-th upload on, each row has a name, and its UUID is drawn and is not in use.
  abbrev pub Storable : ℕ → List Upload → List SentFile → List Attachment → Type 0
  Storable k [] sent rows = Unit
  Storable k (u ∷ us) sent rows =
      (id : Str) × (e.attachment_uuid k ≡ some id)
      × (is_empty (local_row id u (first_sent sent)).filename ≡ false)
      × (any (λ (r : Attachment). str_eq r.id id) rows ≡ false)
      × Storable (k + 1) us (rest sent) (rows ++ local_row id u (first_sent sent) ∷ [])

  -- The rows of the uploads, in order, under the UUIDs drawn.
  abbrev pub AreUploads : ℕ → List Upload → List SentFile → List Attachment → Type 0
  AreUploads k [] sent rows = rows ≡ []
  AreUploads k (u ∷ us) sent rows =
      (id : Str) × (more : List Attachment) × (rows ≡ local_row id u (first_sent sent) ∷ more)
      × AreUploads (k + 1) us (rest sent) more

  pub store_uploads_lem :
      (k : ℕ) (us : List Upload) (sent : List SentFile) (db : Db)
      → is_empty message_id ≡ false
      → any (Messages.has_id message_id) db.messages ≡ true
      → Storable k us sent db.attachments
      → (rows : List Attachment) × (store_uploads e k message_id us sent [] db
          ≡ ok (record db { attachments = db.attachments ++ rows }))
        × AreUploads k us sent rows
  unfolding store_uploads Attachments.create
  store_uploads_lem k [] sent db given posted h =
      ([], ap (λ xs. ok (record db { attachments = xs })) (sym (append-nil db.attachments)), refl)
  store_uploads_lem k (u ∷ us) sent db given posted (id, uuid, named, fresh, h) =
      let row = local_row id u (first_sent sent) in
      let (rows, eq, are) =
        store_uploads_lem (k + 1) us (rest sent)
          (record db { attachments = db.attachments ++ row ∷ [] }) given posted h in
      (
        row ∷ rows,
        rw (uuid, given, posted, named, fresh, eq)
            (ap (λ xs. ok (record db { attachments = xs }))
              (append_assoc db.attachments (row ∷ []) rows)),
        (id, rows, refl, are),
      )
