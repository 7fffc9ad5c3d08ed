-- ===== src/Aggregator/Tests.antt =====
-- Snapshots of a small room, and the theorems on them.
use agent_chat.Prelude.{
  ℕ, ◌+◌, ◌^◌, ◌<◌, ◌≤◌, ◌≡◌, refl, true, false, none, some, [], ◌∷◌, ◌++◌, bytes, str_eq, find,
  any, length, lookup, ◌==◌, arith,
}
use agent_chat.Errcode.Result.{ok}
use agent_chat.Store.{Db, empty_db, Account, user, online, urgent}
use agent_chat.Store.Accounts
use agent_chat.Store.MessageStates
use agent_chat.Store.Keys.{Keyed}
use agent_chat.Bus.{
  Bus, bump, subs_of, channel_capacity, publish, expire, run_fire, subscribe, register,
}
use agent_chat.Bus.Invariant.{BusOk, new_bus, new_bus-BusOk}
use agent_chat.Bus.Steps.{subscribe-BusOk}
use agent_chat.Aggregator.{World, Snapshot, build, assemble}
use agent_chat.Aggregator.Agreement.{capped, build_lem}
use agent_chat.Aggregator.Counts.{Counted}
use agent_chat.Aggregator.Instance.{aggregator, fresh_frame}

abbrev amy : Account
amy = record {
  id = bytes "a1";
  name = bytes "amy";
  role = user;
  lifecycle_state = online;
  bot_token_enc = bytes "x";
  bot_user_id = bytes "b1";
  created_at = 1;
  updated_at = 1;
}

abbrev tables : Db
tables = record empty_db {
  accounts = amy ∷ [];
  rooms =
      record {
        id = bytes "r1";
        discord_channel_id = bytes "c1";
        name = bytes "lobby";
        archived = false;
        created_at = 1;
        updated_at = 1;
      }
      ∷ [];
  memberships =
      record { account_id = bytes "a1"; room_id = bytes "r1"; subscribed = true; joined_at = 2 }
      ∷ [];
  messages =
      record {
        id = bytes "m1";
        room_id = bytes "r1";
        author_account_id = [];
        discord_msg_id = bytes "d1";
        content = bytes "hi";
        reply_to_msg_id = [];
        priority = urgent;
        created_at = 4;
        content_hash = [];
        mention_everyone = true;
      }
      ∷ [];
  message_states = record { message_id = bytes "m1"; account_id = bytes "a1"; read_at = none } ∷ [];
}

abbrev world : World
world = record { db = tables; status = λ a. bytes "online"; feeds_time = 10; emitted_time = 10 }

tables-Keyed : Keyed tables
unfolding str_eq
tables-Keyed = record { message_ids = (refl, tt); state_rows = (refl, tt) }

amy_found : find (Accounts.has_id (bytes "a1")) tables.accounts ≡ some amy
unfolding str_eq
amy_found = refl

one_mention : MessageStates.count_mentions_for_subscribed (bytes "a1") tables ≡ 1
unfolding MessageStates.count_mentions_for_subscribed str_eq
one_mention = refl

build_example :
    (s : Snapshot) × (build world (bytes "a1") 7 ≡ ok s)
    × (s.version ≡ 7)
    × (s.account_id ≡ bytes "a1")
    × (length s.mentions ≡ capped 50 s.totals.mentions)
    × (length s.priority ≡ capped 50 s.totals.priority)
    × (length s.announcements ≡ capped 20 s.totals.announcements)
    × (length s.system_announcements ≡ capped 20 s.totals.system_announcements)
    × (length s.new_rooms ≤ 5)
    × (length s.recently_active ≤ 20)
build_example = build_lem world (bytes "a1") 7 amy refl amy_found tables-Keyed

abbrev watched : Bus Snapshot
watched = (subscribe aggregator world (bytes "a1") new_bus).1

watched-BusOk : BusOk (λ (s : Snapshot). s.version) watched
watched-BusOk =
    (subscribe-BusOk aggregator world (bytes "a1") new_bus (omega arith)
      (new_bus-BusOk (λ (s : Snapshot). s.version))).0

amy_watches : (length (subs_of watched (bytes "a1")) == 0) ≡ false
unfolding subscribe register build assemble Accounts.get str_eq
amy_watches = refl

watched_version : watched.version + 1 < 2 ^ 63
unfolding subscribe register build assemble Accounts.get str_eq
watched_version = omega arith

fresh_frame_example :
    (t : ℕ) × (b' : Bus Snapshot) × (s : Snapshot) × (lookup
        (bytes "a1")
        (publish (bytes "a1") watched).pending
      ≡ some t)
    × (run_fire aggregator world (bytes "a1") (expire t (publish (bytes "a1") watched)) ≡ some b')
    × (s.version ≡ bump watched.version)
    × Counted (bytes "a1") tables s.totals
    × ((r : ℕ)
        → any (λ q. q == r) (subs_of watched (bytes "a1")) ≡ true
        → length (watched.cell r).buffer < channel_capacity
        → (b'.cell r).buffer ≡ (watched.cell r).buffer ++ s ∷ [])
fresh_frame_example =
    fresh_frame world (bytes "a1") amy watched refl amy_found amy_watches watched_version
      watched-BusOk
