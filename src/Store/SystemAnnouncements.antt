-- ===== src/Store/SystemAnnouncements.antt =====
-- internal/store/sqlite/system_announcement_repo.go: the announcements to everybody.
use agent_chat.Prelude.{
  ℕ, Bool, ◌||◌, not, ◌&&◌, List, [], ◌∷◌, ◌++◌, Str, str_eq, str_leb, is_empty, find, any, modify,
  keep, sort_by, take, length, ltb, ◌==◌, if◌then◌else◌,
}
use agent_chat.Errcode.{internal, invalid_argument}
use agent_chat.Errcode.Result.{or_not_found, Result, ok, err, ◌>>◌, require}
use agent_chat.Store.{Db, Account, SystemAnnouncement, SystemAnnouncementRead}
use agent_chat.Store.Messages.{clamp_limit, author_exists}

abbrev pub has_id : Str → SystemAnnouncement → Bool
has_id id a = str_eq a.id id

unfoldable pub create : SystemAnnouncement → Db → Result Db
create a db = do
  require (not (is_empty a.content)) invalid_argument
  require (not (any (has_id a.id) db.system_announcements) && author_exists a.created_by db)
      internal
  ok (record db { system_announcements = db.system_announcements ++ a ∷ [] })

unfoldable pub get : Str → Db → Result SystemAnnouncement
get id db = or_not_found (find (has_id id) db.system_announcements)

-- ORDER BY created_at DESC, id DESC
abbrev pub newest_first : SystemAnnouncement → SystemAnnouncement → Bool
newest_first a b =
    ltb b.created_at a.created_at || a.created_at == b.created_at && str_leb b.id a.id

unfoldable pub list : ℕ → Db → List SystemAnnouncement
unfolding str_leb
list limit db = take (clamp_limit 50 limit) (sort_by newest_first db.system_announcements)

abbrev pub is_read_row : Str → Str → SystemAnnouncementRead → Bool
is_read_row sys_ann_id account_id r =
    str_eq r.sys_ann_id sys_ann_id && str_eq r.account_id account_id

abbrev pub set_read_at : ℕ → SystemAnnouncementRead → SystemAnnouncementRead
set_read_at at r = record r { read_at = at }

unfoldable pub upsert_read : SystemAnnouncementRead → Db → Result Db
upsert_read r db =
    if any (is_read_row r.sys_ann_id r.account_id) db.system_announcement_reads
    then ok (record db {
      system_announcement_reads =
          modify (is_read_row r.sys_ann_id r.account_id) (set_read_at r.read_at)
            db.system_announcement_reads;
    })
    else if any (has_id r.sys_ann_id) db.system_announcements
        && any (λ (a : Account). str_eq a.id r.account_id) db.accounts
    then ok (record db { system_announcement_reads = db.system_announcement_reads ++ r ∷ [] })
    else err internal

unfoldable pub is_read : Str → Str → Db → Bool
is_read sys_ann_id account_id db =
    any (is_read_row sys_ann_id account_id) db.system_announcement_reads

abbrev pub is_unread : Str → Db → SystemAnnouncement → Bool
is_unread account_id db a = not (is_read a.id account_id db)

unfoldable pub count_unread_for_account : Str → Db → ℕ
unfolding is_read
count_unread_for_account account_id db =
    length (keep (is_unread account_id db) db.system_announcements)

unfoldable pub list_unread_for_account : Str → ℕ → Db → List SystemAnnouncement
unfolding is_read str_leb
list_unread_for_account account_id limit db =
    take (clamp_limit 50 limit)
      (sort_by newest_first (keep (is_unread account_id db) db.system_announcements))
