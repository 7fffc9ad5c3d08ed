-- ===== src/Store.antt =====
-- internal/store/types.go, and the tables of internal/store/sqlite/migrations as lists of rows. The
-- operations of the repositories (internal/store/sqlite/*_repo.go) are in the child modules.
-- A time is its Unix second, as the tables keep it; a nullable column or pointer is an `Option`,
-- and a nullable text, which the source reads back as "", is a string.
-- Pointer arguments are given, so the repositories' nil checks are left out, and so are failures of
-- the database engine itself (a full disk, a closed connection), which the source reports as
-- INTERNAL.
pub mod Accounts
pub mod Tokens
pub mod Rooms
pub mod Memberships
pub mod Messages
pub mod MessageStates
pub mod MessageMentions
pub mod Attachments
pub mod Audit
pub mod Announcements
pub mod SystemAnnouncements
pub mod Transaction
pub mod Keys
use agent_chat.Prelude.{ℕ, Bool, true, false, Option, none, some, List, [], Str}
use agent_chat.Errcode.{Code}
use agent_chat.Errcode.Result.{Result, ok, err}

-- `Role` is a string type: any other string can occur.
pub data Role : Type 0 where
  admin user : Role
  other_role : Str → Role

unfoldable pub role_valid : Role → Bool
role_valid admin = true
role_valid user = true
role_valid (other_role s) = false

pub data LifecycleState : Type 0 where
  created online offline archived deleted : LifecycleState
  other_state : Str → LifecycleState

unfoldable pub lifecycle_valid : LifecycleState → Bool
lifecycle_valid created = true
lifecycle_valid online = true
lifecycle_valid offline = true
lifecycle_valid archived = true
lifecycle_valid deleted = true
lifecycle_valid (other_state s) = false

pub record Account : Type 0 where
  pub id : Str
  pub name : Str
  pub role : Role
  pub lifecycle_state : LifecycleState
  pub bot_token_enc : Str
  pub bot_user_id : Str
  pub created_at : ℕ
  pub updated_at : ℕ

pub record Token : Type 0 where
  pub id : Str
  pub account_id : Str
  pub hash : Str
  pub created_at : ℕ
  pub revoked_at : Option ℕ
  pub last_used_at : Option ℕ

unfoldable pub revoked : Token → Bool
revoked t = elim t.revoked_at [ none ↦ false | some at ↦ true ]

pub record AuditEntry : Type 0 where
  pub id : Str
  pub account_id : Str
  pub action : Str
  pub target : Str
  pub payload : Str
  pub created_at : ℕ

pub data MessagePriority : Type 0 where
  normal urgent system : MessagePriority
  other_priority : Str → MessagePriority

unfoldable pub priority_valid : MessagePriority → Bool
priority_valid normal = true
priority_valid urgent = true
priority_valid system = true
priority_valid (other_priority s) = false

pub record Room : Type 0 where
  pub id : Str
  pub discord_channel_id : Str
  pub name : Str
  pub archived : Bool
  pub created_at : ℕ
  pub updated_at : ℕ

pub record Membership : Type 0 where
  pub account_id : Str
  pub room_id : Str
  pub subscribed : Bool
  pub joined_at : ℕ

pub record Message : Type 0 where
  pub id : Str
  pub room_id : Str
  pub author_account_id : Str
  pub discord_msg_id : Str
  pub content : Str
  pub reply_to_msg_id : Str
  pub priority : MessagePriority
  pub created_at : ℕ
  pub content_hash : Str
  pub mention_everyone : Bool

pub record MessageState : Type 0 where
  pub message_id : Str
  pub account_id : Str
  pub read_at : Option ℕ

-- One row of message_mentions.
pub record MentionRow : Type 0 where
  pub message_id : Str
  pub account_id : Str

pub record Attachment : Type 0 where
  pub id : Str
  pub message_id : Str
  pub filename : Str
  pub size : ℕ
  pub mime : Str
  pub local_path : Str
  pub discord_url : Str
  pub downloaded_at : Option ℕ
  pub sha256 : Str
  pub created_at : ℕ

pub record Announcement : Type 0 where
  pub id : Str
  pub room_id : Str
  pub content : Str
  pub version : ℕ
  pub created_by : Str
  pub created_at : ℕ

pub record AnnouncementRead : Type 0 where
  pub announcement_id : Str
  pub account_id : Str
  pub read_at : ℕ

pub record SystemAnnouncement : Type 0 where
  pub id : Str
  pub content : Str
  pub created_by : Str
  pub created_at : ℕ

pub record SystemAnnouncementRead : Type 0 where
  pub sys_ann_id : Str
  pub account_id : Str
  pub read_at : ℕ

pub record Db : Type 0 where
  pub accounts : List Account
  pub tokens : List Token
  pub audit_log : List AuditEntry
  pub rooms : List Room
  pub memberships : List Membership
  pub messages : List Message
  pub message_states : List MessageState
  pub message_mentions : List MentionRow
  pub attachments : List Attachment
  pub announcements : List Announcement
  pub announcement_reads : List AnnouncementRead
  pub system_announcements : List SystemAnnouncement
  pub system_announcement_reads : List SystemAnnouncementRead

abbrev pub empty_db : Db
empty_db = record {
  accounts = [];
  tokens = [];
  audit_log = [];
  rooms = [];
  memberships = [];
  messages = [];
  message_states = [];
  message_mentions = [];
  attachments = [];
  announcements = [];
  announcement_reads = [];
  system_announcements = [];
  system_announcement_reads = [];
}

-- The end of a transaction: COMMIT or ROLLBACK.
abbrev pub settle : {A : Type 0} → Db → Result (A × Db) → Result A × Db
settle db (ok (a, db')) = (ok a, db')
settle db (err c) = (err c, db)

-- `WithTx`: what the function wrote is kept if it returns no error, and dropped if it does.
unfoldable pub with_tx : {A : Type 0} → (Db → Result (A × Db)) → Db → Result A × Db
with_tx f db = settle db (f db)
