-- ===== src/Aggregator.antt =====
-- internal/state/aggregator.go and internal/state/types.go: the snapshot of one account.
-- sort.Slice leaves the order of equal elements open; here they keep the order of the joined rows.
-- `recent_errors` is left out: the source never sets it.
pub mod Agreement
pub mod Counts
pub mod Instance
mod Tests
use agent_chat.Prelude.{
  ℕ, ◌+◌, Bool, true, false, not, ◌&&◌, Option, none, some, List, [], ◌∷◌, map, Str, bytes, str_eq,
  str_leb, is_empty, StrMap, lookup, put, keep, sort_by, take, ltb, leb, if◌then◌else◌,
}
use agent_chat.Errcode.{Code, invalid_argument}
use agent_chat.Errcode.Result.{Result, ok, err, ◌>>=◌}
use agent_chat.Store.{
  Db, Account, Room, Membership, Message, MessagePriority, normal, urgent, system, other_priority,
  Announcement, SystemAnnouncement,
}
use agent_chat.Store.Accounts
use agent_chat.Store.Memberships
use agent_chat.Store.Messages
use agent_chat.Store.MessageStates
use agent_chat.Store.Announcements
use agent_chat.Store.SystemAnnouncements

pub record Totals : Type 0 where
  pub unread : ℕ
  pub mentions : ℕ
  pub priority : ℕ
  pub announcements : ℕ
  pub system_announcements : ℕ

pub record RoomUnread : Type 0 where
  pub room_id : Str
  pub name : Str
  pub unread : ℕ

pub record RoomEntry : Type 0 where
  pub room_id : Str
  pub name : Str
  pub subscribed : Bool
  pub joined_at : ℕ
  pub last_message_at : Option ℕ
  pub last_message_id : Str

pub record MessageEntry : Type 0 where
  pub message_id : Str
  pub room_id : Str
  pub room_name : Str
  pub author_account_id : Str
  pub priority : Str
  pub content : Str
  pub created_at : ℕ

pub record AnnouncementEntry : Type 0 where
  pub announcement_id : Str
  pub room_id : Str
  pub room_name : Str
  pub version : ℕ
  pub content : Str
  pub created_by : Str
  pub created_at : ℕ

pub record SystemAnnouncementEntry : Type 0 where
  pub sys_ann_id : Str
  pub content : Str
  pub created_by : Str
  pub created_at : ℕ

pub record Health : Type 0 where
  pub token_ok : Bool
  pub provider_status : Str
  pub discord_reachable : Bool

pub record Snapshot : Type 0 where
  pub version : ℕ
  pub account_id : Str
  pub emitted_at : ℕ
  pub totals : Totals
  pub rooms : List RoomUnread
  pub mentions : List MessageEntry
  pub priority : List MessageEntry
  pub new_rooms : List RoomEntry
  pub recently_active : List RoomEntry
  pub health : Health
  pub announcements : List AnnouncementEntry
  pub system_announcements : List SystemAnnouncementEntry

-- What a build reads: the tables, the connector's status of an account, and the clock, once for the
-- room feeds and once for the snapshot.
pub record World : Type 0 where
  pub db : Db
  pub status : Str → Str
  pub feeds_time : ℕ
  pub emitted_time : ℕ

-- The limits and the window that `New` sets.
abbrev pub mentions_limit : ℕ
mentions_limit = 50

abbrev pub priority_limit : ℕ
priority_limit = 50

abbrev pub new_rooms_limit : ℕ
new_rooms_limit = 5

abbrev pub recent_limit : ℕ
recent_limit = 20

abbrev pub announcements_limit : ℕ
announcements_limit = 20

abbrev pub system_announcements_limit : ℕ
system_announcements_limit = 20

abbrev pub new_rooms_window : ℕ
new_rooms_window = 86400

unfoldable pub priority_text : MessagePriority → Str
priority_text normal = bytes "normal"
priority_text urgent = bytes "urgent"
priority_text system = bytes "system"
priority_text (other_priority s) = s

unfoldable pub room_by_id : List (Membership × Room) → StrMap Room → StrMap Room
room_by_id [] m = m
room_by_id ((mb, r) ∷ more) m = room_by_id more (put mb.room_id r m)

abbrev pub name_or_empty : Option Room → Str
name_or_empty none = []
name_or_empty (some r) = r.name

unfoldable pub list_entries : StrMap Room → List Message → List MessageEntry
unfolding priority_text
list_entries rooms msgs =
    map
      (λ (m : Message). record {
        message_id = m.id;
        room_id = m.room_id;
        room_name = name_or_empty (lookup m.room_id rooms);
        author_account_id = m.author_account_id;
        priority = priority_text m.priority;
        content = m.content;
        created_at = m.created_at;
      })
      msgs

abbrev pub shows : Membership × Room → Bool
shows (mb, r) = mb.subscribed && not r.archived

unfoldable pub room_unreads : (Str → ℕ) → List (Membership × Room) → List RoomUnread
unfolding str_leb
room_unreads unread joined =
    sort_by (λ (a b : RoomUnread). str_leb a.name b.name)
      (map
        (λ (x : Membership × Room). record {
          room_id = x.0.room_id;
          name = x.1.name;
          unread = unread x.0.room_id;
        })
        (keep shows joined))

abbrev pub last_at : Option Message → Option ℕ
last_at none = none
last_at (some m) = some m.created_at

abbrev pub last_id : Option Message → Str
last_id none = []
last_id (some m) = m.id

-- `all` of buildRoomFeeds
abbrev pub room_entries : (Str → Option Message) → List (Membership × Room) → List RoomEntry
room_entries latest joined =
    map
      (λ (x : Membership × Room). record {
        room_id = x.0.room_id;
        name = x.1.name;
        subscribed = x.0.subscribed;
        joined_at = x.0.joined_at;
        last_message_at = last_at (latest x.0.room_id);
        last_message_id = last_id (latest x.0.room_id);
      })
      (keep (λ (x : Membership × Room). not x.1.archived) joined)

-- JoinedAt.After(now - window)
abbrev pub is_new : ℕ → RoomEntry → Bool
is_new now e = e.subscribed && ltb now (e.joined_at + new_rooms_window)

abbrev pub newest_join : RoomEntry → RoomEntry → Bool
newest_join a b = leb b.joined_at a.joined_at

-- The order of RecentlyActive: no later than, for the `less` of the source.
abbrev pub more_recent : RoomEntry → RoomEntry → Bool
more_recent a b = elim a.last_message_at [
  | none ↦ elim b.last_message_at [ none ↦ leb b.joined_at a.joined_at | some tb ↦ false ]
  | some ta ↦ elim b.last_message_at [ none ↦ true | some tb ↦ leb tb ta ]
]

unfoldable pub new_room_feed : ℕ → List RoomEntry → List RoomEntry
new_room_feed now all = take new_rooms_limit (sort_by newest_join (keep (is_new now) all))

unfoldable pub recent_feed : List RoomEntry → List RoomEntry
recent_feed all =
    take recent_limit (sort_by more_recent (keep (λ (e : RoomEntry). e.subscribed) all))

abbrev pub announcement_entries : StrMap Room → List Announcement → List AnnouncementEntry
announcement_entries rooms anns =
    map
      (λ (a : Announcement). record {
        announcement_id = a.id;
        room_id = a.room_id;
        room_name = name_or_empty (lookup a.room_id rooms);
        version = a.version;
        content = a.content;
        created_by = a.created_by;
        created_at = a.created_at;
      })
      anns

abbrev pub system_entries : List SystemAnnouncement → List SystemAnnouncementEntry
system_entries anns =
    map
      (λ (a : SystemAnnouncement). record {
        sys_ann_id = a.id;
        content = a.content;
        created_by = a.created_by;
        created_at = a.created_at;
      })
      anns

unfoldable pub health_of : (Str → Str) → Str → Account → Health
unfolding str_eq
health_of status account_id a =
    if is_empty a.bot_token_enc
    then record { token_ok = true; provider_status = []; discord_reachable = false }
    else record {
      token_ok = true;
      provider_status = status account_id;
      discord_reachable = str_eq (status account_id) (bytes "online");
    }

unfoldable pub totals_of : Str → Db → Totals
totals_of account_id db = record {
  unread = MessageStates.count_unread_for_subscribed account_id db;
  mentions = MessageStates.count_mentions_for_subscribed account_id db;
  priority = MessageStates.count_priority_for_subscribed account_id db;
  announcements = Announcements.count_unread_for_account account_id db;
  system_announcements = SystemAnnouncements.count_unread_for_account account_id db;
}

unfoldable pub assemble : World → Str → ℕ → Account → List (Membership × Room) → Snapshot
unfolding totals_of health_of new_room_feed recent_feed room_unreads list_entries room_by_id
assemble w account_id version a joined =
    let rooms = room_by_id joined [] in
    let entries = room_entries (Messages.latest_per_room_for_member account_id w.db) joined in
    record {
      version = version;
      account_id = account_id;
      emitted_at = w.emitted_time;
      totals = totals_of account_id w.db;
      rooms =
          room_unreads (MessageStates.unread_count_by_room_for_subscribed account_id w.db) joined;
      mentions =
          list_entries rooms
            (MessageStates.list_mentions_for_subscribed account_id mentions_limit w.db);
      priority =
          list_entries rooms
            (MessageStates.list_priority_for_subscribed account_id priority_limit w.db);
      new_rooms = new_room_feed w.feeds_time entries;
      recently_active = recent_feed entries;
      health = health_of w.status account_id a;
      announcements =
          announcement_entries rooms
            (Announcements.list_unread_for_account account_id announcements_limit w.db);
      system_announcements =
          system_entries (
            SystemAnnouncements.list_unread_for_account account_id system_announcements_limit w.db);
    }

unfoldable pub build : World → Str → ℕ → Result Snapshot
unfolding assemble
build w account_id version =
    if is_empty account_id
    then err invalid_argument
    else Accounts.get account_id w.db >>= λ a.
        ok
          (assemble w account_id version a (Memberships.list_by_account_with_rooms account_id w.db))
