-- ===== src/Api/Tests.antt =====
-- The theorems on the handlers, at a room with two members.
use agent_chat.Prelude.{◌≡◌, refl, arith, some, [], ◌∷◌, bytes, str_eq}
use agent_chat.Errcode.{perm_denied}
use agent_chat.Errcode.Result.{ok, err, ◌>>=◌}
use agent_chat.Store.{Db, Message, normal, priority_valid}
use agent_chat.Store.Accounts
use agent_chat.Store.Rooms
use agent_chat.Store.Memberships
use agent_chat.Store.Messages
use agent_chat.Store.Attachments
use agent_chat.Mentions.{
  parse_mentions, has_raw_mention, raw_mention_here, rewrite_pieces, split_mentions, is_name_char,
  rewrite_piece, resolve, members_by_name,
}
use agent_chat.Api.{provider_for_actor, publish_room_members}
use agent_chat.Api.Post.{
  checked, chosen_priority, check_attachments, check_attachment, authorize, room_members,
  accounts_by_id, post,
}
use agent_chat.Api.Send.{send_message}
use agent_chat.Api.Read.{read_room}
use agent_chat.Api.Announcements.{create_announcement, get_announcement, mark_announcement_read}
use agent_chat.Api.Outsiders.{Outsider, outsider_refused}
use agent_chat.Api.Versions.{row, Announcing, Announced, create_announcement-Announced}
use agent_chat.Api.Delivery.{Sending, SentOut, send_message-SentOut}
use agent_chat.Api.Parcels.{Addressed}
use agent_chat.Api.Samples.{
  lobby, notice, ann, zed, tables, env, send_env, echoed, quiet, wish, provider, parcel,
}
use agent_chat.Api.Race.{Racing, Merged, merged, store_sent-Merged}
use agent_chat.Api.Send.{store_sent}

zed-Outsider : Outsider zed (bytes "r1") zed lobby tables
unfolding str_eq
zed-Outsider = record {
  account = refl;
  own = refl;
  no_admin = refl;
  no_member = refl;
  found = refl;
  open_room = refl;
}

outsider_example :
    (send_message send_env (some zed) (some provider) (bytes "r1") wish tables quiet
      ≡ (err perm_denied, tables, quiet))
    × (read_room env (some zed) (bytes "r1") (record { limit = some 0; before = [] }) tables quiet
        ≡ (err perm_denied, tables, quiet))
    × (create_announcement env (some zed) (bytes "r1") (bytes "mine") tables quiet
        ≡ (err perm_denied, tables, quiet))
    × (get_announcement (some zed) (bytes "r1") tables ≡ err perm_denied)
    × (mark_announcement_read env (some zed) (bytes "n1") tables quiet
        ≡ (err perm_denied, tables, quiet))
unfolding str_eq chosen_priority priority_valid
outsider_example =
    outsider_refused zed (bytes "r1") zed lobby tables zed-Outsider quiet env send_env
      (some provider) normal wish 0 [] (bytes "x1") (bytes "mine") notice refl refl refl refl refl
      refl

ann-Announcing :
    Announcing env ann (bytes "r1") (bytes "mine") (bytes "x1") (0 ∷ []) ann lobby tables
unfolding str_eq Memberships.get
ann-Announcing = record {
  account = refl;
  found = refl;
  room_given = refl;
  open_room = refl;
  allowed = refl;
  given = refl;
  uuid = refl;
  unused = refl;
  audit_uuid = refl;
  audit_unused = refl;
}

create_announcement_example :
    (db' : Db) × (create_announcement env (some ann) (bytes "r1") (bytes "mine") tables quiet ≡ (
      ok (
          row env ann
            (bytes "r1")
            (bytes "mine")
            (bytes "x1")
            (0 ∷ [])
            ann
            lobby
            tables
            ann-Announcing),
      db',
      publish_room_members (bytes "r1") db' quiet,
    ))
    × Announced env ann
        (bytes "r1")
        (bytes "mine")
        (bytes "x1")
        (0 ∷ [])
        ann
        lobby
        tables
        ann-Announcing
        db'
create_announcement_example =
    create_announcement-Announced env ann (bytes "r1") (bytes "mine") (bytes "x1") (0 ∷ []) ann
      lobby tables ann-Announcing quiet

ann-Sending : Sending send_env parcel (0 ∷ []) tables
unfolding str_eq priority_valid
ann-Sending = record {
  actor_given = refl;
  actor_exists = refl;
  new = refl;
  uuid_given = refl;
  uuid_fresh = refl;
  no_states = refl;
  valid = refl;
  refers = refl;
  members_exist = (refl, (refl, tt));
  mentioned_exist = (refl, tt);
  storable = (0 ∷ [], refl, refl, refl, tt);
  audit_uuid = refl;
  audit_fresh = refl;
}

posted :
    (checked (some ann) wish >>= λ x.
    post send_env (some provider) x.0 (bytes "r1") x.1 wish tables)
    ≡ ok parcel
unfolding str_eq priority_valid chosen_priority post authorize check_attachments check_attachment
    provider_for_actor room_members accounts_by_id Rooms.get Accounts.get Accounts.list
    Memberships.get Memberships.list_by_room Messages.get parse_mentions has_raw_mention
    raw_mention_here rewrite_pieces split_mentions is_name_char rewrite_piece resolve
    members_by_name
posted = refl

send_message_example :
    (db' : Db) × (send_message send_env (some ann) (some provider) (bytes "r1") wish tables quiet
      ≡ (
        ok (parcel.row, Attachments.list_by_message (bytes "x1") db'),
        db',
        publish_room_members (bytes "r1") db' quiet,
      ))
    × SentOut send_env parcel (0 ∷ []) tables ann-Sending db'
    × Addressed (bytes "ann") (bytes "r1") parcel
send_message_example =
    send_message-SentOut send_env parcel (0 ∷ []) tables ann-Sending ann (some provider)
      (bytes "r1") wish quiet posted

abbrev first_row : Message
first_row = record parcel.row { id = bytes "m1"; author_account_id = []; reply_to_msg_id = [] }

ann-Racing : Racing send_env parcel (0 ∷ []) first_row echoed
unfolding str_eq priority_valid Attachments.list_by_message
ann-Racing = record {
  first = refl;
  own = refl;
  id_given = refl;
  valid = refl;
  author_exists = refl;
  reply_exists = refl;
  actor_exists = refl;
  members_exist = (refl, (refl, tt));
  mentioned_exist = (refl, tt);
  filed = omega arith;
  audit_uuid = refl;
  audit_fresh = refl;
}

store_sent_example :
    (db' : Db) × (store_sent send_env parcel echoed
      ≡ ok (merged send_env parcel (0 ∷ []) first_row echoed ann-Racing, db'))
    × Merged send_env parcel (0 ∷ []) first_row echoed ann-Racing db'
store_sent_example = store_sent-Merged send_env parcel (0 ∷ []) first_row echoed ann-Racing
