-- ===== src/Message/Tests.antt =====
-- The theorems on the ingester at a room with three members.
use agent_chat.Prelude.{
  length, ◌==◌, arith, ℕ, any, find, ◌≡◌, refl, true, false, some, List, [], ◌∷◌, ◌++◌, Str, bytes,
  str_eq,
}
use agent_chat.Errcode.Result.{Result, ok}
use agent_chat.Store.{Db, empty_db, Account, Room, Membership, user, online, urgent}
use agent_chat.Store.Rooms
use agent_chat.Store.Messages
use agent_chat.Store.Memberships
use agent_chat.Bus.{Builder, Bus, subs_of, subscribe, register}
use agent_chat.Bus.Invariant.{BusOk, new_bus, new_bus-BusOk}
use agent_chat.Bus.Steps.{subscribe-BusOk}
use agent_chat.Bus.Burst.{Awaited}
use agent_chat.Message.Wakeup.{dispatch_lem}
use agent_chat.Message.{
  is_member, dispatch, message_new, Draws, Inbound, account_ids, ingest_new, ingest_channel_deleted,
}
use agent_chat.Message.Archive.{entry, ingest_channel_deleted_lem}
use agent_chat.Message.Echo.{OnlyMentions, ingest_new-OnlyMentions}
use agent_chat.Message.Delivery.{members, Arrival, Delivered, ingest_new-Delivered}

abbrev account : Str → Str → Account
account id bot = record {
  id = id;
  name = id;
  role = user;
  lifecycle_state = online;
  bot_token_enc = [];
  bot_user_id = bot;
  created_at = 1;
  updated_at = 1;
}

abbrev lobby : Room
lobby = record {
  id = bytes "r1";
  discord_channel_id = bytes "c1";
  name = bytes "lobby";
  archived = false;
  created_at = 1;
  updated_at = 1;
}

abbrev joined : Str → Membership
joined id = record { account_id = id; room_id = bytes "r1"; subscribed = true; joined_at = 2 }

abbrev tables : Db
tables = record empty_db {
  accounts =
      account (bytes "a1") (bytes "b1")
      ∷ account (bytes "a2") (bytes "b2")
      ∷ account (bytes "a3") []
      ∷ [];
  rooms = lobby ∷ [];
  memberships = joined (bytes "a1") ∷ joined (bytes "a2") ∷ joined (bytes "a3") ∷ [];
}

abbrev draws : Draws
draws = record {
  message_uuid = some (bytes "m1");
  attachment_uuid = λ k. some (k ∷ []);
  attachment_time = λ k. 9;
  read_time = 8;
  archive_time = 7;
  audit_uuid = some (bytes "u1");
  audit_time = 7;
  payload = λ c. c;
  content_hash = λ c. c;
}

abbrev inbound : Inbound
inbound = record {
  id = bytes "d1";
  channel_id = bytes "c1";
  author_id = bytes "b1";
  content = bytes "hello";
  created_at = 5;
  attachments = record { filename = bytes "x.png"; size = 3; mime = []; url = bytes "u" } ∷ [];
  mentioned_bot_user_ids = bytes "b2" ∷ bytes "b9" ∷ bytes "b2" ∷ [];
  mention_everyone = true;
}

inbound-Arrival : Arrival draws inbound tables lobby (bytes "m1")
unfolding str_eq
inbound-Arrival = record {
  found = refl;
  new = refl;
  uuid = refl;
  uuid_given = refl;
  uuid_fresh = refl;
  no_states = refl;
  members_exist = (refl, (refl, (refl, tt)));
  indexable = (0 ∷ [], refl, refl, refl, tt);
}

ingest_new_example :
    (db' : Db) × (ingest_new draws inbound tables
      ≡ (ok (account_ids (Memberships.list_by_room (bytes "r1") tables)), db'))
    × Delivered draws inbound tables lobby (bytes "m1") inbound-Arrival db'
ingest_new_example = ingest_new-Delivered draws inbound tables lobby (bytes "m1") inbound-Arrival

lobby_found : find (Rooms.has_channel (bytes "c1")) tables.rooms ≡ some lobby
unfolding str_eq
lobby_found = refl

ingest_channel_deleted_example :
    (rooms : List Room) × (let db' = record tables {
      rooms = rooms;
      audit_log = [] ++ entry draws (bytes "a1") (bytes "c1") tables lobby (bytes "u1") ∷ [];
    } in
      (ingest_channel_deleted draws (bytes "a1") (bytes "c1") tables
        ≡ (ok (account_ids (Memberships.list_by_room (bytes "r1") tables)), db'))
      × (Rooms.get_by_discord_channel_id (bytes "c1") db'
          ≡ ok (record lobby { archived = true; updated_at = 7 }))
      × ((id : Str) → str_eq (bytes "r1") id ≡ false → Rooms.get id db' ≡ Rooms.get id tables)
      × ((d2 : Draws) (other : Str)
          → ingest_channel_deleted d2 other (bytes "c1") db' ≡ (ok [], db')))
ingest_channel_deleted_example =
    ingest_channel_deleted_lem draws (bytes "a1") (bytes "c1") tables lobby (bytes "u1") refl
      lobby_found refl refl refl

-- The tables with the message in them, sent by a2.
abbrev echoed : Db
echoed = record tables {
  messages =
      record {
        id = bytes "m0";
        room_id = bytes "r1";
        author_account_id = bytes "a2";
        discord_msg_id = bytes "d1";
        content = bytes "hello";
        reply_to_msg_id = [];
        priority = urgent;
        created_at = 4;
        content_hash = [];
        mention_everyone = false;
      }
      ∷ [];
}

echo_known : any (Messages.has_discord_id (bytes "d1")) echoed.messages ≡ true
unfolding str_eq
echo_known = refl

echo_example : OnlyMentions echoed (ingest_new draws inbound echoed).1
echo_example = ingest_new-OnlyMentions draws inbound echoed echo_known

stamped : (w : ℕ) (account_id : Str) (v : ℕ) (s : ℕ) → ◌≡◌ {A = Result ℕ} (ok v) (ok s) → s ≡ v
stamped w account_id v s h = ground arith

abbrev versions : Builder ℕ ℕ
versions = record { build = λ w account_id v. ok v; version_of = λ s. s; build_version = stamped }

abbrev watched : Bus ℕ
watched = (subscribe versions 0 (bytes "a2") new_bus).1

watched-BusOk : BusOk versions.version_of watched
watched-BusOk =
    (subscribe-BusOk versions 0 (bytes "a2") new_bus (omega arith)
      (new_bus-BusOk versions.version_of)).0

second_is_member :
    is_member (bytes "a2") (members draws inbound tables lobby (bytes "m1") inbound-Arrival) ≡ true
unfolding Memberships.list_by_room str_eq
second_is_member = refl

second_watches : (length (subs_of watched (bytes "a2")) == 0) ≡ false
unfolding subscribe register str_eq
second_watches = refl

dispatch_example :
    Delivered draws inbound tables lobby
      (bytes "m1")
      inbound-Arrival
      (dispatch draws (bytes "a1") (message_new inbound) tables watched).0
    × BusOk versions.version_of (dispatch draws (bytes "a1") (message_new inbound) tables watched).1
    × Awaited (dispatch draws (bytes "a1") (message_new inbound) tables watched).1 (bytes "a2")
dispatch_example =
    dispatch_lem versions.version_of draws inbound tables lobby (bytes "m1") inbound-Arrival
      (bytes "a1") (bytes "a2") watched watched-BusOk second_is_member refl second_watches
