-- ===== src/Store/Announcements.antt =====
-- internal/store/sqlite/announcement_repo.go: the announcements of rooms, and who has read them.
use agent_chat.Prelude.{
  ℕ, ◌+◌, Bool, true, ◌||◌, not, ◌&&◌, List, [], ◌∷◌, ◌++◌, Str, str_eq, str_leb, is_empty, find,
  any, modify, keep, sort_by, take, length, ltb, ◌==◌, if◌then◌else◌,
}
use agent_chat.Errcode.{internal, invalid_argument}
use agent_chat.Errcode.Result.{or_not_found, Result, ok, err, ◌>>◌, require}
use agent_chat.Store.{Db, Room, Account, Membership, Announcement, AnnouncementRead}
use agent_chat.Store.Messages.{clamp_limit, author_exists}

abbrev pub has_id : Str → Announcement → Bool
has_id id a = str_eq a.id id

abbrev pub of_room : Str → Announcement → Bool
of_room room_id a = str_eq a.room_id room_id

unfoldable pub create : Announcement → Db → Result Db
create a db = do
  require (not (is_empty a.room_id)) invalid_argument
  require (not (is_empty a.content)) invalid_argument
  require (not (a.version == 0)) invalid_argument
  require
      (not (any (has_id a.id) db.announcements)
        && any (λ (r : Room). str_eq r.id a.room_id) db.rooms
        && author_exists a.created_by db)
      internal
  ok (record db { announcements = db.announcements ++ a ∷ [] })

unfoldable pub get : Str → Db → Result Announcement
get id db = or_not_found (find (has_id id) db.announcements)

-- ORDER BY version DESC, id DESC
abbrev pub latest_first : Announcement → Announcement → Bool
latest_first a b = ltb b.version a.version || a.version == b.version && str_leb b.id a.id

unfoldable pub latest : Str → Db → Result Announcement
unfolding str_leb
latest room_id db =
    or_not_found (find (λ a. true) (sort_by latest_first (keep (of_room room_id) db.announcements)))

-- MAX(version), or 0 for the NULL of no rows: a version is at least 1.
unfoldable pub max_version : List Announcement → ℕ
max_version [] = 0
max_version (a ∷ more) = let m = max_version more in if ltb m a.version then a.version else m

unfoldable pub next_version : Str → Db → ℕ
next_version room_id db = max_version (keep (of_room room_id) db.announcements) + 1

abbrev pub is_read_row : Str → Str → AnnouncementRead → Bool
is_read_row announcement_id account_id r =
    str_eq r.announcement_id announcement_id && str_eq r.account_id account_id

abbrev pub set_read_at : ℕ → AnnouncementRead → AnnouncementRead
set_read_at at r = record r { read_at = at }

unfoldable pub upsert_read : AnnouncementRead → Db → Result Db
upsert_read r db =
    if any (is_read_row r.announcement_id r.account_id) db.announcement_reads
    then ok (record db {
      announcement_reads =
          modify (is_read_row r.announcement_id r.account_id) (set_read_at r.read_at)
            db.announcement_reads;
    })
    else if any (has_id r.announcement_id) db.announcements
        && any (λ (a : Account). str_eq a.id r.account_id) db.accounts
    then ok (record db { announcement_reads = db.announcement_reads ++ r ∷ [] })
    else err internal

unfoldable pub is_read : Str → Str → Db → Bool
is_read announcement_id account_id db =
    any (is_read_row announcement_id account_id) db.announcement_reads

-- The rows of the joins: an announcement of the highest version of its room, in a room of which the
-- account is a member, that the account has not read.
abbrev pub is_latest : Db → Announcement → Bool
is_latest db a = a.version == max_version (keep (of_room a.room_id) db.announcements)

abbrev pub is_unread : Str → Db → Announcement → Bool
is_unread account_id db a =
    is_latest db a
    && any (λ (mb : Membership). str_eq mb.room_id a.room_id && str_eq mb.account_id account_id)
        db.memberships
    && not (is_read a.id account_id db)

unfoldable pub count_unread_for_account : Str → Db → ℕ
unfolding is_read max_version
count_unread_for_account account_id db = length (keep (is_unread account_id db) db.announcements)

-- ORDER BY created_at DESC, id DESC
abbrev pub newest_first : Announcement → Announcement → Bool
newest_first a b =
    ltb b.created_at a.created_at || a.created_at == b.created_at && str_leb b.id a.id

unfoldable pub list_unread_for_account : Str → ℕ → Db → List Announcement
unfolding is_read max_version str_leb
list_unread_for_account account_id limit db =
    take (clamp_limit 50 limit)
      (sort_by newest_first (keep (is_unread account_id db) db.announcements))
