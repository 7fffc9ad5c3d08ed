-- ===== src/Api/Outsiders.antt =====
-- An account that is neither a member of a room nor an admin.
use agent_chat.Prelude.{ℕ, ◌≡◌, refl, ap, false, Option, some, Str, is_empty, find, any, find-none}
use agent_chat.Errcode.{perm_denied}
use agent_chat.Errcode.Result.{Result, ok, err, then_ok, then_err, or_not_found}
use agent_chat.Store.{Db, Account, Room, Announcement, MessagePriority}
use agent_chat.Store.Transaction.{rollback}
use agent_chat.Store.Accounts
use agent_chat.Store.Rooms
use agent_chat.Store.Memberships
use agent_chat.Store.Announcements
use agent_chat.Bus.{Bus}
use agent_chat.Api.{Env, is_admin, or_denied, member_or_admin, gate}
use agent_chat.Api.Announcements.{
  create_announcement, get_announcement, mark_announcement_read, store_announcement, store_read,
}
use agent_chat.Api.Post.{
  SendEnv, SendRequest, Sent, Outgoing, may_send, is_system, authorize, post, checked,
}
use agent_chat.Api.Send.{send_message}
use agent_chat.Api.Read.{read_page, read_room, context_limit}

-- The account of the context, its row `a`, and a room that is not archived.
pub record Outsider (who : Account) (room_id : Str) (a : Account) (room : Room) (db : Db)
    : Type 0 where
  pub account : find (Accounts.has_id who.id) db.accounts ≡ some a
  pub own : a.id ≡ who.id
  pub no_admin : is_admin a.role ≡ false
  pub no_member : any (Memberships.is_edge who.id room_id) db.memberships ≡ false
  pub found : find (Rooms.has_id room_id) db.rooms ≡ some room
  pub open_room : room.archived ≡ false

module _ (who : Account) (room_id : Str) (a : Account) (room : Room) (db : Db)
    (h : Outsider who room_id a room db) where
  account_lem : Accounts.get who.id db ≡ ok a
  unfolding Accounts.get
  account_lem = ap or_not_found h.account

  room_lem : Rooms.get room_id db ≡ ok room
  unfolding Rooms.get
  room_lem = ap or_not_found h.found

  member_lem : member_or_admin or_denied a room_id db ≡ err perm_denied
  unfolding Memberships.get
  member_lem =
      rw
        (
          h.no_admin,
          h.own,
          find-none (Memberships.is_edge who.id room_id) db.memberships h.no_member,
        )
        refl

  gate_lem : gate or_denied who.id room_id db ≡ err perm_denied
  unfolding gate
  gate_lem = then_ok _ _ account_lem (then_err _ _ member_lem)

  may_send_lem :
      (p : MessagePriority) → is_system p ≡ false → may_send a p room_id db ≡ err perm_denied
  unfolding Memberships.get
  may_send_lem p plain =
      rw
        (
          h.no_admin,
          plain,
          h.own,
          find-none (Memberships.is_edge who.id room_id) db.memberships h.no_member,
        )
        refl

  post_lem :
      (e : SendEnv) (live : Option (Outgoing → Result Sent)) (p : MessagePriority)
      (req : SendRequest)
      → is_system p ≡ false
      → post e live who.id room_id p req db ≡ err perm_denied
  unfolding post authorize
  post_lem e live p req plain = then_err _ _ (
      then_ok _ _ room_lem
        (rw h.open_room (then_ok _ _ account_lem (then_err _ _ (may_send_lem p plain)))))

  read_page_lem :
      (e : Env) (before : Str) (limit : ℕ)
      → read_page e who.id room_id before limit db ≡ err perm_denied
  unfolding read_page
  read_page_lem e before limit =
      then_ok _ _ room_lem (then_ok _ _ account_lem (then_err _ _ member_lem))

  store_announcement_lem :
      (e : Env) (id content : Str)
      → store_announcement e id who.id room_id content db ≡ err perm_denied
  unfolding store_announcement
  store_announcement_lem e id content =
      then_ok _ _ room_lem (rw h.open_room (then_err _ _ gate_lem))

  get_announcement_lem : get_announcement (some who) room_id db ≡ err perm_denied
  unfolding get_announcement
  get_announcement_lem = then_ok _ _ room_lem (then_err _ _ gate_lem)

  store_read_lem :
      (e : Env) (row : Announcement)
      → find (Announcements.has_id row.id) db.announcements ≡ some row
      → row.room_id ≡ room_id
      → store_read e row.id who.id db ≡ err perm_denied
  unfolding store_read Announcements.get
  store_read_lem e row found here =
      then_ok _ _ (ap or_not_found found) (rw here (then_err _ _ gate_lem))

  module _ {S : Type 0} (b : Bus S) where
    -- An account that is neither an admin nor a member of a room that exists and is not archived gets
    -- PERM_DENIED for a message to it, whatever the files that the message names and whatever the
    -- provider, for a request that is well formed and does not claim the system's priority; and for
    -- reading the room, for announcing in it, for its announcement, and for the acknowledgement of one
    -- of its announcements. Tables and bus stay as they were.
    pub outsider_refused :
        (e : Env) (f : SendEnv) (live : Option (Outgoing → Result Sent)) (p : MessagePriority)
        (req : SendRequest) (n : ℕ) (before id content : Str) (row : Announcement)
        → checked (some who) req ≡ ok (who.id, p)
        → is_system p ≡ false
        → e.uuid ≡ some id
        → is_empty content ≡ false
        → find (Announcements.has_id row.id) db.announcements ≡ some row
        → row.room_id ≡ room_id
        → (send_message f (some who) live room_id req db b ≡ (err perm_denied, db, b))
          × (read_room e (some who) room_id (record { limit = some n; before = before }) db b
              ≡ (err perm_denied, db, b))
          × (create_announcement e (some who) room_id content db b ≡ (err perm_denied, db, b))
          × (get_announcement (some who) room_id db ≡ err perm_denied)
          × (mark_announcement_read e (some who) row.id db b ≡ (err perm_denied, db, b))
    unfolding send_message read_room create_announcement mark_announcement_read
    outsider_refused e f live p req n before id content row fine plain uuid given found here = (
      rw (fine, post_lem f live p req plain) refl,
      rw
          (rollback _ db perm_denied
            (then_err _ _ (read_page_lem e before (context_limit n before))))
          refl,
      rw (given, uuid, rollback _ db perm_denied (store_announcement_lem e id content)) refl,
      get_announcement_lem,
      rw (rollback _ db perm_denied (store_read_lem e row found here)) refl,
    )
