-- ===== src/Aggregator/Agreement.antt =====
-- The totals of a snapshot against its feeds.
use agent_chat.Prelude.{
  is_empty, ◌≤◌, both_true, str_eq_iff, count-false, ℕ, ◌≡◌, inl, inr, refl, sym, ap, ◌∙◌,
  Bool-cases, Bool, true, false, ◌&&◌, ◌||◌, Option, none, some, List, [], ◌∷◌, Str, str_eq,
  str_eq_sound, str_eq_comm, any, any_weaker, any-find, find, keep, keep_ext, count, count_or,
  length, length-map, length-take, length-sort_by, leb, take, sort_by, if◌then◌else◌, arith,
}
use agent_chat.Errcode.Result.{ok}
use agent_chat.Store.{Account, Db, Message, MessageState, Membership}
use agent_chat.Store.Keys.{DistinctIds, DistinctRows, Keyed, count_one}
use agent_chat.Store.Accounts
use agent_chat.Store.Memberships
use agent_chat.Store.Announcements
use agent_chat.Store.SystemAnnouncements
use agent_chat.Store.Messages
use agent_chat.Store.MessageStates
use agent_chat.Store.MessageStates.{feed_row, joins, with_message, feed}
use agent_chat.Aggregator.{
  World, Snapshot, build, assemble, totals_of, list_entries, new_room_feed, recent_feed,
}
use agent_chat.Store.Messages.{newest_first, clamp_limit, is_unread}

-- A message that one of the rows that pass the test is about.
abbrev about_row : (MessageState → Bool) → List MessageState → Message → Bool
about_row test rows m = any (λ (s : MessageState). str_eq s.message_id m.id && test s) rows

module _ (account_id : Str) (msgs : List Message) (test : MessageState → Bool)
    (own : (s : MessageState) → test s ≡ true → str_eq s.account_id account_id ≡ true)
    (stored : (s : MessageState)
      → test s ≡ true
      → any (Messages.has_id s.message_id) msgs ≡ true) where
  same_row :
      (s r : MessageState) (m : Message)
      → test s ≡ true
      → str_eq s.message_id m.id ≡ true
      → (str_eq r.message_id m.id && test r) ≡ true
      → MessageStates.is_state s.message_id s.account_id r ≡ true
  same_row s r m passes about k =
      let (there, also) = both_true (str_eq r.message_id m.id) (test r) k in
      let ids : r.message_id ≡ s.message_id =
        str_eq_sound r.message_id m.id there ∙ sym (str_eq_sound s.message_id m.id about) in
      let accounts : r.account_id ≡ s.account_id =
        str_eq_sound r.account_id account_id (own r also)
        ∙ sym (str_eq_sound s.account_id account_id (own s passes)) in
      rw ((str_eq_iff r.message_id s.message_id).1 ids)
        ((str_eq_iff r.account_id s.account_id).1 accounts)

  -- Two rows of the account are not about one message.
  only_row :
      (s : MessageState) (rows : List MessageState) (m : Message)
      → test s ≡ true
      → any (MessageStates.is_state s.message_id s.account_id) rows ≡ false
      → str_eq s.message_id m.id ≡ true
      → about_row test rows m ≡ false
  only_row s rows m passes new about =
      any_weaker (MessageStates.is_state s.message_id s.account_id)
        (λ (r : MessageState). str_eq r.message_id m.id && test r) rows
        (λ r k. same_row s r m passes about k) new

  rows_counted :
      (rows : List MessageState)
      → DistinctIds msgs
      → DistinctRows rows
      → count (about_row test rows) msgs ≡ count test rows
  rows_counted [] ids d = count-false msgs
  rows_counted (s ∷ rows) ids (new, d) = elim (Bool-cases (test s)) [
    | inl passes ↦
        ap length (
          keep_ext (about_row test (s ∷ rows))
            (λ m. Messages.has_id s.message_id m || about_row test rows m) msgs
            (λ m. ground (arith, passes, str_eq_comm s.message_id m.id)))
        ∙ count_or (Messages.has_id s.message_id) (about_row test rows) msgs
            (λ m is. only_row s rows m passes new (str_eq_comm s.message_id m.id ∙ is))
        ∙ ground (
          arith,
          passes,
          count_one s.message_id msgs ids (stored s passes),
          rows_counted rows ids d,
        )
    | inr fails ↦
        ap length (
          keep_ext (about_row test (s ∷ rows)) (about_row test rows) msgs
            (λ m. ground (arith, fails)))
        ∙ ground (arith, fails, rows_counted rows ids d)
  ]

joined_any :
    (test : Message → Bool) (id : Str) (msgs : List Message) (o : Option Message)
    → find (Messages.has_id id) msgs ≡ o
    → with_message test o ≡ true
    → any (Messages.has_id id) msgs ≡ true
joined_any test id msgs none e h = cc
joined_any test id msgs (some m) e h = any-find (Messages.has_id id) msgs m e

-- A row of a feed is the account's, and its message is stored.
feed_row_own :
    (p : Message → Membership → Bool) (account_id : Str) (db : Db) (s : MessageState)
    → feed_row p account_id db s ≡ true
    → (str_eq s.account_id account_id ≡ true)
      × (any (Messages.has_id s.message_id) db.messages ≡ true)
feed_row_own p account_id db s h =
    let (mine, joined) =
      both_true (str_eq s.account_id account_id && is_unread s.read_at) (joins p db s) h in
    (
      (both_true (str_eq s.account_id account_id) (is_unread s.read_at) mine).0,
      joined_any _ s.message_id db.messages (find (Messages.has_id s.message_id) db.messages) refl
          joined,
    )

-- The length of a list cut at a limit.
abbrev pub capped : ℕ → ℕ → ℕ
capped limit n = if leb n limit then n else limit

feed_lem :
    (p : Message → Membership → Bool) (account_id : Str) (limit : ℕ) (db : Db)
    → Keyed db
    → clamp_limit 50 limit ≡ limit
    → length (feed p account_id limit db)
      ≡ capped limit (count (feed_row p account_id db) db.message_states)
feed_lem p account_id limit db k clamped =
    ap
      (λ n. length (
        take n (
          sort_by newest_first
            (keep (about_row (feed_row p account_id db) db.message_states) db.messages))))
      clamped
    ∙ length-take limit (
        sort_by newest_first
          (keep (about_row (feed_row p account_id db) db.message_states) db.messages))
    ∙ ap (capped limit) (
        length-sort_by newest_first
          (keep (about_row (feed_row p account_id db) db.message_states) db.messages)
        ∙ rows_counted account_id db.messages (feed_row p account_id db)
            (λ s h. (feed_row_own p account_id db s h).0)
            (λ s h. (feed_row_own p account_id db s h).1) db.message_states k.message_ids
            k.state_rows)

length-capped : {A : Type 0} (n : ℕ) (xs : List A) → length (take n xs) ≡ capped n (length xs)
length-capped n xs = length-take n xs

at_most : {A : Type 0} (n : ℕ) (xs : List A) → length (take n xs) ≤ n
at_most n xs = ground (arith, length-take n xs)

-- For an account that exists, and tables whose primary keys hold, a build succeeds, under the version
-- and the account that it was given. Each feed of messages and of announcements holds as many
-- entries as its total says, up to its limit (50, or 20 for announcements), so a feed that is
-- shorter than its limit is complete; at most 5 rooms are new and at most 20 recently active.
pub build_lem :
    (w : World) (account_id : Str) (version : ℕ) (a : Account)
    → is_empty account_id ≡ false
    → find (Accounts.has_id account_id) w.db.accounts ≡ some a
    → Keyed w.db
    → (s : Snapshot) × (build w account_id version ≡ ok s)
      × (s.version ≡ version)
      × (s.account_id ≡ account_id)
      × (length s.mentions ≡ capped 50 s.totals.mentions)
      × (length s.priority ≡ capped 50 s.totals.priority)
      × (length s.announcements ≡ capped 20 s.totals.announcements)
      × (length s.system_announcements ≡ capped 20 s.totals.system_announcements)
      × (length s.new_rooms ≤ 5)
      × (length s.recently_active ≤ 20)
unfolding build assemble totals_of list_entries new_room_feed recent_feed
    MessageStates.list_mentions_for_subscribed MessageStates.list_priority_for_subscribed
    MessageStates.count_mentions_for_subscribed MessageStates.count_priority_for_subscribed
    Announcements.count_unread_for_account Announcements.list_unread_for_account
    SystemAnnouncements.count_unread_for_account SystemAnnouncements.list_unread_for_account
    Accounts.get
build_lem w account_id version a given found k = (
  assemble w account_id version a (Memberships.list_by_account_with_rooms account_id w.db),
  rw (given, found) refl,
  refl,
  refl,
  length-map _ _ ∙ feed_lem (MessageStates.in_mentions account_id w.db) account_id 50 w.db k refl,
  length-map _ _ ∙ feed_lem MessageStates.in_priority account_id 50 w.db k refl,
  length-map _ _ ∙ length-capped 20 _ ∙ ap (capped 20) (length-sort_by _ _),
  length-map _ _ ∙ length-capped 20 _ ∙ ap (capped 20) (length-sort_by _ _),
  at_most 5 _,
  at_most 20 _,
)
