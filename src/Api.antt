-- ===== src/Api.antt =====
-- internal/api/v1: the request handlers. A handler is a function of what it reads from outside, the
-- acting account that the middleware left, the decoded request, the tables and the bus, to the
-- reply or the error's code, the tables and the bus. The provider's calls come between the
-- transactions of a request, which follow each other with nothing in between; a goroutine that
-- publishes runs where it starts. JSON, the URL and the status line
-- of a success are left out, and so is the copying of a row into its response.
pub mod Rooms
pub mod Members
pub mod Announcements
pub mod Profiles
pub mod Tokens
pub mod Discord
pub mod Post
pub mod Send
pub mod Read
pub mod Display
pub mod Outsiders
pub mod Versions
pub mod Marking
pub mod Unread
pub mod Uploads
pub mod Parcels
pub mod Delivery
pub mod Rows
pub mod Race
mod Samples
mod Tests
use agent_chat.Prelude.{
  ℕ, Bool, true, false, Option, none, some, List, [], ◌∷◌, map, Str, str_eq, if◌then◌else◌,
}
use agent_chat.Errcode.{Code, internal, conflict, perm_denied}
use agent_chat.Errcode.Result.{Result, ok, err, ◌>>=◌}
use agent_chat.Store.{Db, Account, Role, admin, user, other_role, Membership, Room, with_tx}
use agent_chat.Store.Accounts
use agent_chat.Store.Memberships
use agent_chat.Store.Audit
use agent_chat.Bus.{Bus, publish, publish_many}

-- What a handler reads from outside: strings.TrimSpace, the UUID that it draws for its row (`none` for an error of
-- uuid.NewV7), the time, and, for the k-th entry of the audit log that it writes, the UUID, the time
-- and the payload as JSON ("" for nil).
pub record Env : Type 0 where
  pub trim_space : Str → Str
  pub uuid : Option Str
  pub now : ℕ
  pub audit_uuid : ℕ → Option Str
  pub audit_time : ℕ → ℕ
  pub payload : ℕ → Str

abbrev pub drawn : Option Str → Result Str
drawn none = err internal
drawn (some id) = ok id

-- auth.AccountFromContext
abbrev pub actor_of : Option Account → Result Account
actor_of none = err internal
actor_of (some a) = ok a

-- providerForActor: the actor's live provider, if the connector has one.
unfoldable pub provider_for_actor : {P : Type 0} → Option P → Result P
provider_for_actor none = err conflict
provider_for_actor (some p) = ok p

abbrev pub is_admin : Role → Bool
is_admin admin = true
is_admin user = false
is_admin (other_role s) = false

-- A missing membership is a refusal.
abbrev pub or_denied : Result Membership → Result Membership
or_denied (ok m) = ok m
or_denied (err Code.not_found) = err perm_denied
or_denied (err c) = err c

-- An admin, or a member of the room; `refuse` treats a missing membership.
abbrev pub member_or_admin :
    (Result Membership → Result Membership) → Account → Str → Db → Result (Unit {0})
member_or_admin refuse a room_id db =
    if is_admin a.role then ok tt else (refuse (Memberships.get a.id room_id db) >>= λ m. ok tt)

-- The role is that of the account's row, not of the context.
unfoldable pub gate : (Result Membership → Result Membership) → Str → Str → Db → Result Account
gate refuse actor_id room_id db =
    Accounts.get actor_id db >>= λ a. member_or_admin refuse a room_id db >>= λ u. ok a

abbrev pub as_is : Result Membership → Result Membership
as_is r = r

-- recorder.RecordVia
abbrev pub record_audit : Env → ℕ → Str → Str → Str → Db → Result Db
record_audit e k account_id action target db =
    Audit.record_via (e.audit_uuid k) (e.audit_time k) account_id action target (e.payload k) db

-- The rest of a handler, unless what went before has failed.
abbrev pub after {ℓ} :
    {A : Type ℓ} {B : Type 0} → Result A → Db → (A → Result B × Db) → Result B × Db
after (ok a) db k = k a
after (err c) db k = (err c, db)

-- The publishes come after the commit, and only if there was one; then the reply is made.
abbrev pub tell :
    {A B S : Type 0}
    → (A → Db → Bus S → Bus S)
    → (A → B)
    → Result A × Db
    → Bus S
    → Result B × Db × Bus S
tell f reply (ok a, db) b = (ok (reply a), db, f a db b)
tell f reply (err c, db) b = (err c, db, b)

abbrev pub member_ids : Str → Db → List Str
member_ids room_id db = map (λ (m : Membership). m.account_id) (Memberships.list_by_room room_id db)

-- publishRoomMembers
unfoldable pub publish_room_members : {S : Type 0} → Str → Db → Bus S → Bus S
publish_room_members room_id db b = publish_many (member_ids room_id db) b
