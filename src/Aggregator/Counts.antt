-- ===== src/Aggregator/Counts.antt =====
-- The totals of a snapshot, by the rows that they stand for.
use agent_chat.Prelude.{
  ℕ, ◌≡◌, ◌≤◌, inl, inr, refl, ap, ◌∙◌, Bool-cases, Bool, true, false, not, ◌&&◌, ◌||◌, Option,
  none, some, List, [], ◌∷◌, Str, str_eq, str_eq_sound, str_eq_refl, any, find, keep, keep_ext,
  count, length, ltb, leb, All, All-map, arith,
}
use agent_chat.Errcode.Result.{Result, ok, err, or_not_found}
use agent_chat.Store.{
  Db, Message, MessageState, Membership, Room, MentionRow, Announcement, AnnouncementRead,
  SystemAnnouncement, SystemAnnouncementRead, urgent, system,
}
use agent_chat.Store.Messages
use agent_chat.Store.Memberships
use agent_chat.Store.Rooms
use agent_chat.Store.MessageStates
use agent_chat.Store.MessageStates.{
  feed_row, joins, with_message, with_membership, with_room, in_unread, in_mentions, in_priority,
}
use agent_chat.Store.Announcements
use agent_chat.Store.Announcements.{max_version, of_room}
use agent_chat.Store.SystemAnnouncements
use agent_chat.Aggregator.{Totals, totals_of}

abbrev is_ok {ℓ} : {A : Type ℓ} → (A → Bool) → Result A → Bool
is_ok test (ok a) = test a
is_ok test (err c) = false

abbrev joined_ok : (Message → Membership → Bool) → Str → Db → Message → Bool
joined_ok test account_id db m =
    is_ok
      (λ (mb : Membership).
        is_ok (λ (r : Room). not r.archived && test m mb) (Rooms.get m.room_id db))
      (Memberships.get account_id m.room_id db)

-- An unread row of the account for a message whose room is not archived and has the account as a
-- member, when the message and the membership pass the test.
abbrev pub owed : (Message → Membership → Bool) → Str → Db → MessageState → Bool
owed test account_id db s =
    str_eq s.account_id account_id
    && elim s.read_at [ none ↦ true | some at ↦ false ]
    && is_ok (joined_ok test account_id db) (Messages.get s.message_id db)

abbrev pub names : Str → Db → Message → Bool
names account_id db m =
    any (λ (r : MentionRow). str_eq r.message_id m.id && str_eq r.account_id account_id)
      db.message_mentions

-- An announcement of a room of the account that no later one of the room replaces, and that the
-- account has not read.
abbrev pub posted : Str → Db → Announcement → Bool
posted account_id db a =
    not (
      any (λ (b : Announcement). str_eq b.room_id a.room_id && ltb a.version b.version)
        db.announcements)
    && is_ok (λ (mb : Membership). true) (Memberships.get account_id a.room_id db)
    && not (
        any
          (λ (r : AnnouncementRead).
            str_eq r.announcement_id a.id && str_eq r.account_id account_id)
          db.announcement_reads)

pub record Counted (account_id : Str) (db : Db) (t : Totals) : Type 0 where
  pub unread : t.unread ≡ count (owed (λ m mb. mb.subscribed) account_id db) db.message_states
  pub mentions :
      t.mentions
      ≡ count
          (owed
            (λ m mb. m.mention_everyone || (mb.subscribed && names account_id db m))
            account_id
            db)
          db.message_states
  pub priority :
      t.priority
      ≡ count
          (owed
            (λ m mb. mb.subscribed && elim m.priority [ urgent ↦ true | system ↦ true | _ ↦ false ])
            account_id
            db)
          db.message_states
  pub announcements : t.announcements ≡ count (posted account_id db) db.announcements
  pub system_announcements :
      t.system_announcements
      ≡ count
          (λ (a : SystemAnnouncement). not (
            any
              (λ (r : SystemAnnouncementRead).
                str_eq r.sys_ann_id a.id && str_eq r.account_id account_id)
              db.system_announcement_reads))
          db.system_announcements

member_lem :
    (account_id room_id : Str) (xs : List Membership)
    → any (λ (mb : Membership). str_eq mb.room_id room_id && str_eq mb.account_id account_id) xs
      ≡ is_ok
          (λ (mb : Membership). true)
          (or_not_found (find (Memberships.is_edge account_id room_id) xs))
member_lem account_id room_id [] = refl
member_lem account_id room_id (x ∷ xs) = ground (arith, member_lem account_id room_id xs)

room_lem : (test : Room → Bool) (o : Option Room) → with_room test o ≡ is_ok test (or_not_found o)
room_lem test none = refl
room_lem test (some r) = refl

membership_lem :
    (f g : Membership → Bool) (o : Option Membership)
    → ((mb : Membership) → f mb ≡ g mb)
    → with_membership f o ≡ is_ok g (or_not_found o)
membership_lem f g none h = refl
membership_lem f g (some mb) h = h mb

message_lem :
    (f g : Message → Bool) (o : Option Message)
    → ((m : Message) → f m ≡ g m)
    → with_message f o ≡ is_ok g (or_not_found o)
message_lem f g none h = refl
message_lem f g (some m) h = h m

owed_lem :
    (test : Message → Membership → Bool) (account_id : Str) (db : Db) (s : MessageState)
    → feed_row test account_id db s ≡ owed test account_id db s
unfolding Messages.get Memberships.get Rooms.get
owed_lem test account_id db s = elim (Bool-cases (str_eq s.account_id account_id)) [
  | inl mine ↦
      let joined : joins test db s
          ≡ is_ok (joined_ok test s.account_id db) (Messages.get s.message_id db) =
        message_lem _ _ (find (λ (m : Message). str_eq m.id s.message_id) db.messages) (λ m.
          membership_lem _ _
            (find
              (λ (mb : Membership).
                str_eq mb.account_id s.account_id && str_eq mb.room_id m.room_id)
              db.memberships)
            (λ mb.
              room_lem (λ (r : Room). not r.archived && test m mb)
                (find (λ (r : Room). str_eq r.id m.room_id) db.rooms))) in
      ap (λ b. str_eq s.account_id account_id && Messages.is_unread s.read_at && b)
        (joined
          ∙ ap (λ i. is_ok (joined_ok test i db) (Messages.get s.message_id db))
              (str_eq_sound s.account_id account_id mine))
  | inr other ↦ ground (arith, other)
]

-- The highest version of some rows, against one version.
max_version_lem :
    (xs : List Announcement) (n : ℕ)
    → leb (max_version xs) n ≡ not (any (λ (b : Announcement). ltb n b.version) xs)
unfolding max_version
max_version_lem [] n = ground arith
max_version_lem (a ∷ xs) n = ground (arith, max_version_lem xs n)

any-keep :
    (p q : Announcement → Bool) (xs : List Announcement)
    → any q (keep p xs) ≡ any (λ b. p b && q b) xs
any-keep p q [] = refl
any-keep p q (x ∷ xs) = ground (arith, any-keep p q xs)

max_version_grows :
    (a : Announcement) (xs : List Announcement) → max_version xs ≤ max_version (a ∷ xs)
unfolding max_version
max_version_grows a xs = ground arith

longer :
    (p : Announcement → Bool) (a : Announcement) (xs : List Announcement)
    → max_version (keep p xs) ≤ max_version (keep p (a ∷ xs))
unfolding max_version
longer p a xs = elim (Bool-cases (p a)) [
  | inl passes ↦ rw passes (max_version_grows a (keep p xs))
  | inr fails ↦ rw fails (omega arith)
]

-- No row is above the highest version of its room.
below_highest :
    (xs : List Announcement) → All (λ a. a.version ≤ max_version (keep (of_room a.room_id) xs)) xs
unfolding max_version
below_highest [] = tt
below_highest (a ∷ xs) = (
  rw (str_eq_refl a.room_id) (ground arith),
  All-map (λ b. b.version ≤ max_version (keep (of_room b.room_id) xs))
      (λ b. b.version ≤ max_version (keep (of_room b.room_id) (a ∷ xs))) xs
      (λ b k. omega (arith, k, longer (of_room b.room_id) a xs)) (below_highest xs),
)

keep_ext_in :
    (p q : Announcement → Bool) (xs : List Announcement)
    → All (λ a. p a ≡ q a) xs
    → keep p xs ≡ keep q xs
keep_ext_in p q [] h = refl
keep_ext_in p q (a ∷ xs) (k, h) = ground (arith, k, keep_ext_in p q xs h)

posted_lem :
    (account_id : Str) (db : Db) (a : Announcement)
    → a.version ≤ max_version (keep (of_room a.room_id) db.announcements)
    → Announcements.is_unread account_id db a ≡ posted account_id db a
unfolding Announcements.is_read Memberships.get
posted_lem account_id db a h =
    let top : Announcements.is_latest db a
        ≡ not (
            any (λ (b : Announcement). str_eq b.room_id a.room_id && ltb a.version b.version)
              db.announcements) =
      ground (arith, h, max_version_lem (keep (of_room a.room_id) db.announcements) a.version)
      ∙ ap not (any-keep (of_room a.room_id) (λ b. ltb a.version b.version) db.announcements) in
    let unread : Bool = not (
      any
        (λ (r : AnnouncementRead). str_eq r.announcement_id a.id && str_eq r.account_id account_id)
        db.announcement_reads) in
    let newest : Bool = not (
      any (λ (b : Announcement). str_eq b.room_id a.room_id && ltb a.version b.version)
        db.announcements) in
    ap
      (λ b.
        b
        && any (λ (mb : Membership). str_eq mb.room_id a.room_id && str_eq mb.account_id account_id)
            db.memberships
        && unread)
      top
    ∙ ap (λ b. newest && b && unread) (member_lem account_id a.room_id db.memberships)

-- What `Build` counts.
pub totals_of-Counted :
    (account_id : Str) (db : Db) → Counted account_id db (totals_of account_id db)
unfolding totals_of MessageStates.count_unread_for_subscribed
    MessageStates.count_mentions_for_subscribed MessageStates.count_priority_for_subscribed
    Announcements.count_unread_for_account SystemAnnouncements.count_unread_for_account
    SystemAnnouncements.is_read
totals_of-Counted account_id db = record {
  unread = ap length (keep_ext _ _ db.message_states (owed_lem in_unread account_id db));
  mentions =
      ap length
        (keep_ext _ _ db.message_states (owed_lem (in_mentions account_id db) account_id db));
  priority = ap length (keep_ext _ _ db.message_states (owed_lem in_priority account_id db));
  announcements = ap length (
      keep_ext_in _ _ db.announcements (
        All-map (λ a. a.version ≤ max_version (keep (of_room a.room_id) db.announcements))
          (λ a. Announcements.is_unread account_id db a ≡ posted account_id db a) db.announcements
          (λ a h. posted_lem account_id db a h) (below_highest db.announcements)));
  system_announcements = refl;
}
