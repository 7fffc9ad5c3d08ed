-- ===== src/Store/Attachments.antt =====
-- internal/store/sqlite/attachment_repo.go
use agent_chat.Prelude.{
  ℕ, Bool, true, false, none, some, List, Str, str_leb, ltb, ◌==◌, ◌||◌, find, keep, modify,
  sort_by, take, if◌then◌else◌, not, ◌&&◌, [], ◌∷◌, ◌++◌, str_eq, is_empty, any,
}
use agent_chat.Errcode.{not_found, internal, invalid_argument}
use agent_chat.Errcode.Result.{or_not_found, Result, ok, err, ◌>>◌, require}
use agent_chat.Store.{Db, Message, Attachment}
use agent_chat.Store.Messages.{clamp_limit}

unfoldable pub create : Attachment → Db → Result Db
create a db = do
  require (not (is_empty a.message_id)) invalid_argument
  require (not (is_empty a.filename)) invalid_argument
  require
      (not (any (λ (b : Attachment). str_eq b.id a.id) db.attachments)
        && any (λ (m : Message). str_eq m.id a.message_id) db.messages)
      internal
  ok (record db { attachments = db.attachments ++ a ∷ [] })

abbrev pub has_id : Str → Attachment → Bool
has_id id a = str_eq a.id id

unfoldable pub get : Str → Db → Result Attachment
get id db = or_not_found (find (has_id id) db.attachments)

-- ORDER BY id
abbrev pub by_id : Attachment → Attachment → Bool
by_id a b = str_leb a.id b.id

unfoldable pub list_by_message : Str → Db → List Attachment
unfolding str_leb
list_by_message message_id db =
    sort_by by_id (keep (λ a. str_eq a.message_id message_id) db.attachments)

-- ORDER BY created_at ASC, id ASC
abbrev pub oldest_first : Attachment → Attachment → Bool
oldest_first a b =
    ltb a.created_at b.created_at || a.created_at == b.created_at && str_leb a.id b.id

abbrev pub is_pending : Attachment → Bool
is_pending a = elim a.downloaded_at [ none ↦ true | some at ↦ false ]

unfoldable pub list_pending_downloads : ℕ → Db → List Attachment
unfolding str_leb
list_pending_downloads limit db =
    take (clamp_limit 50 limit) (sort_by oldest_first (keep is_pending db.attachments))

abbrev pub downloaded : Str → Str → ℕ → Attachment → Attachment
downloaded local_path sha256 at a = record a {
  local_path = local_path;
  sha256 = sha256;
  downloaded_at = some at;
}

unfoldable pub mark_downloaded : Str → Str → Str → ℕ → Db → Result Db
mark_downloaded id local_path sha256 at db =
    if any (has_id id) db.attachments
    then ok (record db {
      attachments = modify (has_id id) (downloaded local_path sha256 at) db.attachments;
    })
    else err not_found
