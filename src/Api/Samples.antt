-- ===== src/Api/Samples.antt =====
-- A room with two members, for the tests of the handlers.
use agent_chat.Prelude.{ℕ, true, false, some, none, [], ◌∷◌, ◌++◌, Str, bytes}
use agent_chat.Errcode.Result.{Result, ok}
use agent_chat.Store.{
  Db, empty_db, Account, Role, Room, Membership, Message, Announcement, user, online, normal,
}
use agent_chat.Bus.{Bus}
use agent_chat.Bus.Invariant.{new_bus}
use agent_chat.Api.{Env}
use agent_chat.Api.Post.{SendEnv, SendRequest, Sent, Outgoing, Parcel}

abbrev pub person : Str → Role → Account
person id role = record {
  id = id;
  name = id;
  role = role;
  lifecycle_state = online;
  bot_token_enc = [];
  bot_user_id = bytes "u-" ++ id;
  created_at = 1;
  updated_at = 1;
}

abbrev pub lobby : Room
lobby = record {
  id = bytes "r1";
  discord_channel_id = bytes "c1";
  name = bytes "lobby";
  archived = false;
  created_at = 1;
  updated_at = 1;
}

abbrev pub joined : Str → Membership
joined id = record { account_id = id; room_id = bytes "r1"; subscribed = true; joined_at = 2 }

abbrev pub greeting : Message
greeting = record {
  id = bytes "m0";
  room_id = bytes "r1";
  author_account_id = bytes "bo";
  discord_msg_id = bytes "d0";
  content = bytes "hi";
  reply_to_msg_id = [];
  priority = normal;
  created_at = 3;
  content_hash = [];
  mention_everyone = false;
}

abbrev pub notice : Announcement
notice = record {
  id = bytes "n1";
  room_id = bytes "r1";
  content = bytes "be kind";
  version = 1;
  created_by = bytes "bo";
  created_at = 3;
}

abbrev pub ann : Account
ann = person (bytes "ann") user

abbrev pub zed : Account
zed = person (bytes "zed") user

abbrev pub tables : Db
tables = record empty_db {
  accounts = ann ∷ person (bytes "bo") user ∷ zed ∷ [];
  rooms = lobby ∷ [];
  memberships = joined (bytes "ann") ∷ joined (bytes "bo") ∷ [];
  messages = greeting ∷ [];
  message_states =
      record { message_id = bytes "m0"; account_id = bytes "ann"; read_at = none } ∷ [];
  announcements = notice ∷ [];
}

abbrev pub env : Env
env = record {
  trim_space = λ s. s;
  uuid = some (bytes "x1");
  now = 9;
  audit_uuid = λ k. some (k ∷ []);
  audit_time = λ k. 9;
  payload = λ k. [];
}

abbrev pub send_env : SendEnv
send_env = record {
  base = env;
  lstat = λ p. some (record { symlink = false; regular = true; directory = false; size = 5 });
  base_name = λ p. p;
  content_hash = λ s. s;
  attachment_uuid = λ k. some (k ∷ []);
  attachment_time = 9;
}

abbrev pub quiet : Bus ℕ
quiet = new_bus

abbrev pub wish : SendRequest
wish = record {
  content = bytes "hey @bo";
  priority = none;
  reply_to_id = bytes "m0";
  attachments = record { path = bytes "/tmp/a"; filename = []; mime = [] } ∷ [];
}

abbrev pub provider : Outgoing → Result Sent
provider o = ok (record {
  id = bytes "d1";
  created_at = 8;
  attachments = record { url = bytes "u"; filename = [] } ∷ [];
})

abbrev pub parcel : Parcel
parcel = record {
  actor_id = bytes "ann";
  room_id = bytes "r1";
  parsed = record {
    rewritten_content = bytes "hey <@u-bo>";
    bot_user_ids = bytes "u-bo" ∷ [];
    everyone = false;
    mentioned_account_ids = bytes "bo" ∷ [];
  };
  uploads = record { path = bytes "/tmp/a"; filename = bytes "/tmp/a"; mime = []; size = 5 } ∷ [];
  sent = record {
    id = bytes "d1";
    created_at = 8;
    attachments = record { url = bytes "u"; filename = [] } ∷ [];
  };
  row = record {
    id = bytes "x1";
    room_id = bytes "r1";
    author_account_id = bytes "ann";
    discord_msg_id = bytes "d1";
    content = bytes "hey <@u-bo>";
    reply_to_msg_id = bytes "m0";
    priority = normal;
    created_at = 8;
    content_hash = bytes "hey <@u-bo>";
    mention_everyone = false;
  };
}

-- The tables after the ingester has stored the parcel's message.
abbrev pub echoed : Db
echoed = record tables {
  messages =
      record parcel.row { id = bytes "m1"; author_account_id = []; reply_to_msg_id = [] }
      ∷ tables.messages;
  attachments =
      record {
        id = bytes "f1";
        message_id = bytes "m1";
        filename = bytes "a";
        size = 5;
        mime = [];
        local_path = [];
        discord_url = bytes "u";
        downloaded_at = none;
        sha256 = [];
        created_at = 8;
      }
      ∷ [];
}
