-- ===== src/Api/Versions.antt =====
-- The versions of a room's announcements.
use agent_chat.Prelude.{
  ℕ, ◌<◌, ◌≡◌, refl, ap, ◌∙◌, Bool, true, false, ◌==◌, some, List, [], ◌∷◌, ◌++◌, Str, str_eq,
  str_eq_refl, str_eq_sound, any-find, bytes, is_empty, find, any, keep, sort_by, insert_by, All,
  All-kept, arith,
}
use agent_chat.Errcode.Result.{ok, then_ok, or_not_found}
use agent_chat.Store.{Db, Account, Room, Announcement, AuditEntry}
use agent_chat.Store.Transaction.{commit}
use agent_chat.Store.Accounts
use agent_chat.Store.Rooms
use agent_chat.Store.Messages
use agent_chat.Store.Announcements
use agent_chat.Store.Announcements.{max_version, next_version, of_room, latest_first, is_latest}
use agent_chat.Store.Audit
use agent_chat.Bus.{Bus}
use agent_chat.Api.{Env, or_denied, member_or_admin, gate, publish_room_members}
use agent_chat.Api.Announcements.{store_announcement, create_announcement}

abbrev pub Below : ℕ → Announcement → Type 0
Below n a = a.version < n

Below-max_version : (xs : List Announcement) (n : ℕ) → max_version xs < n → All (Below n) xs
unfolding max_version
Below-max_version [] n h = tt
Below-max_version (a ∷ xs) n h = (ground (arith, h), Below-max_version xs n (ground (arith, h)))

max_of_snoc :
    (xs : List Announcement) (row : Announcement)
    → max_version xs < row.version
    → max_version (xs ++ row ∷ []) ≡ row.version
unfolding max_version
max_of_snoc [] row h = ground (arith, h)
max_of_snoc (a ∷ xs) row h = ground (arith, h, max_of_snoc xs row (ground (arith, h)))

keep_snoc :
    (p : Announcement → Bool) (xs : List Announcement) (row : Announcement)
    → p row ≡ true
    → keep p (xs ++ row ∷ []) ≡ keep p xs ++ row ∷ []
keep_snoc p [] row h = rw h refl
keep_snoc p (a ∷ xs) row h = ground (arith, keep_snoc p xs row h)

-- A row of the highest version comes first.
first-sort_by :
    (xs : List Announcement) (row : Announcement)
    → All (Below row.version) xs
    → (ys : List Announcement) × (sort_by latest_first (xs ++ row ∷ []) ≡ row ∷ ys)
first-sort_by [] row h = ([], refl)
first-sort_by (a ∷ xs) row (k, h) =
    let (ys, e) = first-sort_by xs row h in (insert_by latest_first a ys, rw e (ground (arith, k)))

-- The call of an account that may announce in the room; the UUIDs that it draws are in no row.
pub record Announcing (e : Env) (who : Account) (room_id content id audit_id : Str) (a : Account)
    (room : Room) (db : Db) : Type 0 where
  pub account : find (Accounts.has_id who.id) db.accounts ≡ some a
  pub found : find (Rooms.has_id room_id) db.rooms ≡ some room
  pub room_given : is_empty room_id ≡ false
  pub open_room : room.archived ≡ false
  pub allowed : member_or_admin or_denied a room_id db ≡ ok tt
  pub given : is_empty content ≡ false
  pub uuid : e.uuid ≡ some id
  pub unused : any (Announcements.has_id id) db.announcements ≡ false
  pub audit_uuid : e.audit_uuid 0 ≡ some audit_id
  pub audit_unused : any (λ (x : AuditEntry). str_eq x.id audit_id) db.audit_log ≡ false

module _ (e : Env) (who : Account) (room_id content id audit_id : Str) (a : Account) (room : Room)
    (db : Db) (h : Announcing e who room_id content id audit_id a room db) where
  abbrev pub row : Announcement
  row = record {
    id = id;
    room_id = room_id;
    content = content;
    version = next_version room_id db;
    created_by = who.id;
    created_at = e.now;
  }

  abbrev earlier : List Announcement
  earlier = keep (of_room room_id) db.announcements

  abbrev pub entry : AuditEntry
  entry = record {
    id = audit_id;
    account_id = who.id;
    action = bytes "announcement.create";
    target = id;
    payload = e.payload 0;
    created_at = e.audit_time 0;
  }

  -- The announcement is the room's latest, above all others; it and its audit entry come after the
  -- rows of before, and nothing else has changed.
  pub record Announced (db' : Db) : Type 0 where
    pub above : All (Below row.version) earlier
    pub latest : Announcements.latest room_id db' ≡ ok row
    pub current : is_latest db' row ≡ true
    pub superseded : All (λ old. is_latest db' old ≡ false) earlier
    pub rest : db' ≡ record db {
      announcements = db.announcements ++ row ∷ [];
      audit_log = db.audit_log ++ entry ∷ [];
    }

  gate_lem : gate or_denied who.id room_id db ≡ ok a
  unfolding gate Accounts.get
  gate_lem = then_ok _ _ (ap or_not_found h.account) (then_ok _ _ h.allowed refl)

  abbrev db1 : Db
  db1 = record db { announcements = db.announcements ++ row ∷ [] }

  author_lem : Messages.author_exists who.id db ≡ true
  author_lem = rw (any-find (Accounts.has_id who.id) db.accounts a h.account) (ground arith)

  not_zero : (next_version room_id db == 0) ≡ false
  unfolding next_version
  not_zero = ground arith

  created : Announcements.create row db ≡ ok db1
  unfolding Announcements.create
  created =
      rw
        (
          h.room_given,
          h.given,
          not_zero,
          h.unused,
          any-find (Rooms.has_id room_id) db.rooms room h.found,
          author_lem,
        )
        refl

  highest : max_version (keep (of_room room_id) (db.announcements ++ row ∷ [])) ≡ row.version
  unfolding next_version
  highest =
      rw (keep_snoc (of_room room_id) db.announcements row (str_eq_refl room_id))
        (max_of_snoc earlier row (omega arith))

  abbrev db2 : Db
  db2 = record db1 { audit_log = db.audit_log ++ entry ∷ [] }

  stored : store_announcement e id who.id room_id content db ≡ ok (row, db2)
  unfolding store_announcement Audit.record_via Rooms.get
  stored = then_ok _ _ (ap or_not_found h.found) (
      rw h.open_room
        (then_ok _ _ gate_lem (then_ok _ _ created (rw (h.audit_uuid, h.audit_unused) refl))))

  outdated :
      (xs : List Announcement)
      → All (Below row.version) xs
      → All (λ old. of_room room_id old ≡ true) xs
      → All (λ old. is_latest db2 old ≡ false) xs
  outdated [] h k = tt
  outdated (old ∷ xs) (h, hs) (k, ks) =
      (rw (str_eq_sound old.room_id room_id k, highest) (ground (arith, h)), outdated xs hs ks)

  announced : Announced db2
  unfolding Announcements.latest next_version
  announced = record {
    above = Below-max_version earlier row.version (omega arith);
    latest =
        let (ys, first) =
          first-sort_by earlier row (Below-max_version earlier row.version (omega arith)) in
        ap (λ xs. or_not_found (find (λ x. true) xs))
          (ap (sort_by latest_first)
              (keep_snoc (of_room room_id) db.announcements row (str_eq_refl room_id))
            ∙ first);
    current = ground (arith, highest);
    superseded =
        outdated earlier (Below-max_version earlier row.version (omega arith))
          (All-kept (of_room room_id) db.announcements);
    rest = refl;
  }

  -- An announcement with text, by a member of the room or an admin, in a room that is not archived,
  -- with UUIDs that no row has: the call stores it and tells the room's members. It is the latest of
  -- its room, its version is above those of all others, none of which is current any more. The
  -- announcements of before, of all rooms, stay as they are, one entry joins the audit log, and
  -- nothing else changes.
  pub create_announcement-Announced :
      {S : Type 0} (b : Bus S)
      → (db' : Db) × (create_announcement e (some who) room_id content db b
          ≡ (ok row, db', publish_room_members room_id db' b))
        × Announced db'
  unfolding create_announcement
  create_announcement-Announced b = (
    db2,
    rw (h.given, h.uuid, commit (store_announcement e id who.id room_id content) db row db2 stored)
        refl,
    announced,
  )
