-- ===== src/Store/MessageMentions.antt =====
-- internal/store/sqlite/message_mention_repo.go
use agent_chat.Prelude.{
  Bool, not, ◌&&◌, List, [], ◌∷◌, ◌++◌, Str, str_eq, is_empty, any, keep, map, if◌then◌else◌,
}
use agent_chat.Errcode.{internal, invalid_argument}
use agent_chat.Errcode.Result.{Result, ok, err, ◌>>=◌}
use agent_chat.Store.{Db, Account, Message, MentionRow}

abbrev pub is_mention : Str → Str → MentionRow → Bool
is_mention message_id account_id r =
    str_eq r.message_id message_id && str_eq r.account_id account_id

-- INSERT OR IGNORE: a row that is there already is left; a foreign key still fails the statement.
abbrev pub insert_or_ignore : Str → Str → Db → Result Db
insert_or_ignore message_id account_id db =
    if any (is_mention message_id account_id) db.message_mentions
    then ok db
    else if any (λ (m : Message). str_eq m.id message_id) db.messages
        && any (λ (a : Account). str_eq a.id account_id) db.accounts
    then ok (record db {
      message_mentions =
          db.message_mentions ++ record { message_id = message_id; account_id = account_id } ∷ [];
    })
    else err internal

-- The loop over the ids; an empty id is passed over.
unfoldable pub insert_all : Str → List Str → Db → Result Db
insert_all message_id [] db = ok db
insert_all message_id (aid ∷ aids) db =
    (if is_empty aid then ok db else insert_or_ignore message_id aid db) >>= λ db'.
    insert_all message_id aids db'

unfoldable pub set_for_message : Str → List Str → Db → Result Db
unfolding insert_all
set_for_message message_id aids db =
    if is_empty message_id
    then err invalid_argument
    else insert_all message_id aids (record db {
      message_mentions = keep (λ r. not (str_eq r.message_id message_id)) db.message_mentions;
    })

unfoldable pub add_for_message : Str → List Str → Db → Result Db
unfolding insert_all
add_for_message message_id aids db =
    if is_empty message_id then err invalid_argument else insert_all message_id aids db

unfoldable pub list_for_message : Str → Db → List Str
list_for_message message_id db =
    map (λ (r : MentionRow). r.account_id)
      (keep (λ r. str_eq r.message_id message_id) db.message_mentions)
