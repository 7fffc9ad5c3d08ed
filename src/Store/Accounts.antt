-- ===== src/Store/Accounts.antt =====
-- internal/store/sqlite/account_repo.go
use agent_chat.Prelude.{
  ℕ, Bool, ◌||◌, not, ◌&&◌, List, [], ◌∷◌, ◌++◌, Str, str_eq, find, any, modify, keep, sort_by,
  length, leb, if◌then◌else◌,
}
use agent_chat.Errcode.{not_found, conflict, invalid_argument}
use agent_chat.Errcode.Result.{or_not_found, Result, ok, err, ◌>>◌, require}
use agent_chat.Store.{
  Db, Token, Account, Membership, MessageState, MentionRow, Message, Announcement, AnnouncementRead,
  SystemAnnouncement, SystemAnnouncementRead, role_valid, lifecycle_valid,
}

abbrev pub has_id : Str → Account → Bool
has_id id a = str_eq a.id id

abbrev pub has_name : Str → Account → Bool
has_name name a = str_eq a.name name

-- The primary key and the unique name; both violations read "UNIQUE constraint failed".
unfoldable pub create : Account → Db → Result Db
unfolding role_valid lifecycle_valid
create a db = do
  require (role_valid a.role) invalid_argument
  require (lifecycle_valid a.lifecycle_state) invalid_argument
  require (not (any (has_id a.id) db.accounts || any (has_name a.name) db.accounts)) conflict
  ok (record db { accounts = db.accounts ++ a ∷ [] })

unfoldable pub get : Str → Db → Result Account
get id db = or_not_found (find (has_id id) db.accounts)

unfoldable pub get_by_name : Str → Db → Result Account
get_by_name name db = or_not_found (find (has_name name) db.accounts)

unfoldable pub list : Db → List Account
list db = sort_by (λ a b. leb a.created_at b.created_at) db.accounts

-- The columns that the UPDATE writes.
abbrev pub overwrite : Account → Account → Account
overwrite a old = record old {
  name = a.name;
  role = a.role;
  lifecycle_state = a.lifecycle_state;
  bot_token_enc = a.bot_token_enc;
  bot_user_id = a.bot_user_id;
  updated_at = a.updated_at;
}

-- Another row has the new name, and there is a row to write it to.
abbrev pub name_taken : Account → Db → Bool
name_taken a db =
    any (has_id a.id) db.accounts
    && any (λ (b : Account). str_eq b.name a.name && not (str_eq b.id a.id)) db.accounts

unfoldable pub update : Account → Db → Result Db
unfolding role_valid lifecycle_valid
update a db = do
  require (role_valid a.role) invalid_argument
  require (lifecycle_valid a.lifecycle_state) invalid_argument
  require (not (name_taken a db)) conflict
  require (any (has_id a.id) db.accounts) not_found
  ok (record db { accounts = modify (has_id a.id) (overwrite a) db.accounts })

-- ON DELETE CASCADE for the tokens, memberships, states, mentions and reads of the account, and
-- ON DELETE SET NULL for the messages and announcements that it wrote.
abbrev pub cascade : Str → Db → Db
cascade id db = record db {
  accounts = keep (λ (a : Account). not (str_eq a.id id)) db.accounts;
  tokens = keep (λ (t : Token). not (str_eq t.account_id id)) db.tokens;
  memberships = keep (λ (m : Membership). not (str_eq m.account_id id)) db.memberships;
  message_states = keep (λ (s : MessageState). not (str_eq s.account_id id)) db.message_states;
  message_mentions = keep (λ (r : MentionRow). not (str_eq r.account_id id)) db.message_mentions;
  messages =
      modify (λ (m : Message). str_eq m.author_account_id id)
        (λ (m : Message). record m { author_account_id = [] }) db.messages;
  announcements =
      modify (λ (a : Announcement). str_eq a.created_by id)
        (λ (a : Announcement). record a { created_by = [] }) db.announcements;
  announcement_reads =
      keep (λ (r : AnnouncementRead). not (str_eq r.account_id id)) db.announcement_reads;
  system_announcements =
      modify (λ (a : SystemAnnouncement). str_eq a.created_by id)
        (λ (a : SystemAnnouncement). record a { created_by = [] }) db.system_announcements;
  system_announcement_reads =
      keep (λ (r : SystemAnnouncementRead). not (str_eq r.account_id id))
        db.system_announcement_reads;
}

unfoldable pub delete : Str → Db → Result Db
delete id db = if any (has_id id) db.accounts then ok (cascade id db) else err not_found

unfoldable pub count : Db → ℕ
count db = length db.accounts
