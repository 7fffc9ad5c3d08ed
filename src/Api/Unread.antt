-- ===== src/Api/Unread.antt =====
-- ReadRoom without a message to scroll back from.
use agent_chat.Prelude.{ℕ, ◌≡◌, Option, none, some, List, [], ◌++◌, Str, find, All, length, ◌==◌}
use mathlib.Core.Option
use agent_chat.Errcode.Result.{Result, ok}
use agent_chat.Store.{Db, Account, Room, Message}
use agent_chat.Store.Accounts
use agent_chat.Store.Rooms
use agent_chat.Store.Memberships
use agent_chat.Store.Messages
use agent_chat.Store.MessageStates
use agent_chat.Bus.{Bus}
use agent_chat.Api.{Env, or_denied, member_or_admin}
use agent_chat.Api.Read.{
  Page, read_state, ids_of, unread_cap, context_limit, is_subscribed, reversed,
}
use agent_chat.Api.Marking.{Auditable, Marked}

-- A call of an account that may read the room, with UUIDs for the audit entries that are in no entry.
pub record Reading (e : Env) (who : Account) (room_id : Str) (a : Account) (room : Room) (db : Db)
    : Type 0 where
  pub account : find (Accounts.has_id who.id) db.accounts ≡ some a
  pub found : find (Rooms.has_id room_id) db.rooms ≡ some room
  pub allowed : member_or_admin or_denied a room_id db ≡ ok tt
  pub audit :
      Auditable e who.id 0
        (Messages.list_unread_for_account_in_room who.id room_id unread_cap db)
        db.audit_log

module _ (e : Env) (who : Account) (room_id : Str) (a : Account) (room : Room) (db : Db)
    (h : Reading e who room_id a room db) where
  abbrev pub unread : List Message
  unread = Messages.list_unread_for_account_in_room who.id room_id unread_cap db

  -- The rows of the caller and the messages listed have a time, an earlier one if they had one; all
  -- other rows are as before, and nothing else changes but the audit log.
  pub record HasRead (db' : Db) : Type 0 where
    pub marked : Marked e who.id unread db.message_states db'.message_states
    pub seen :
        All
          (λ m. (at : ℕ) × (MessageStates.get m.id who.id db' ≡ ok (read_state at who.id m.id)))
          unread
    pub rest : record db' { message_states = db.message_states; audit_log = db.audit_log } ≡ db

  at_of : Option ℕ → ℕ
  at_of none = e.now
  at_of (some t) = t

  abbrev pub page : ℕ → Page
  page n = record {
    room = room;
    subscribed = is_subscribed (Memberships.get who.id room_id db);
    messages =
        reversed
          (Messages.list_read_history_for_account_in_room who.id room_id (context_limit n []) db)
        ++ reversed unread;
    marked_read = ids_of unread;
    more = length unread == unread_cap;
  }
