-- ===== src/Api/Tokens.antt =====
-- internal/api/v1/tokens.go
use agent_chat.Prelude.{Option, List, Str, bytes}
use agent_chat.Errcode.Result.{Result, ok, ◌>>=◌}
use agent_chat.Store.{Db, Account, Token, with_tx}
use agent_chat.Store.Accounts
use agent_chat.Store.Tokens as Rows
use agent_chat.Auth.Manager.{Crypto, Entropy, prepare_token, revoke}
use agent_chat.Api.{Env, actor_of, record_audit, after}

-- The raw form is returned once, and the row has its hash.
unfoldable pub store_token : Env → Str → Str → Str × Token → Db → Result ((Str × Token) × Db)
store_token e actor_id account_id (raw, row) t = do
  a ← Accounts.get account_id t
  t1 ← Rows.create row t
  t2 ← record_audit e 0 actor_id (bytes "token.create") row.id t1
  ok ((raw, row), t2)

abbrev pub prepared : Crypto → Entropy → Env → Option Account → Str → Result (Str × Str × Token)
prepared c entropy e who account_id = do
  a ← actor_of who
  (raw, row) ← prepare_token c entropy e.now account_id
  ok (a.id, raw, row)

unfoldable pub create_token :
    Crypto → Entropy → Env → Option Account → Str → Db → Result (Str × Token) × Db
unfolding store_token
create_token c entropy e who account_id db =
    after (prepared c entropy e who account_id) db
      (λ (actor_id, raw, row). with_tx (store_token e actor_id account_id (raw, row)) db)

unfoldable pub list_tokens : Str → Db → Result (List Token)
list_tokens account_id db =
    Accounts.get account_id db >>= λ a. ok (Rows.list_by_account account_id db)

unfoldable pub drop_token : Env → Str → Str → Db → Result (Unit {0} × Db)
drop_token e actor_id id t = do
  t1 ← revoke e.now id t
  t2 ← record_audit e 0 actor_id (bytes "token.revoke") id t1
  ok (tt, t2)

unfoldable pub revoke_token : Env → Option Account → Str → Db → Result (Unit {0}) × Db
unfolding drop_token
revoke_token e who id db = after (actor_of who) db (λ a. with_tx (drop_token e a.id id) db)
