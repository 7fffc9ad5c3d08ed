-- ===== src/Api/Discord.antt =====
-- internal/api/v1/discord.go: SetDiscord, and what OnlineAccount and OfflineAccount read and store. Their
-- calls of the connector stand between these parts.
pub mod Secret
pub mod Stored
mod Tests
use agent_chat.Prelude.{
  Bool, true, false, not, Option, none, some, Str, bytes, str_eq, is_empty, if◌then◌else◌,
}
use agent_chat.Errcode.{invalid_argument}
use agent_chat.Errcode.Result.{Result, ok, err, ◌>>=◌, ◌>>◌, require}
use agent_chat.Store.{Db, Account, LifecycleState, online, offline, with_tx}
use agent_chat.Store.Accounts
use agent_chat.Secrets.{Gcm, aesgcm_encrypt, aesgcm_decrypt}
use agent_chat.Api.{Env, actor_of, record_audit, after}

-- bot.Identity, less the avatar.
pub record Identity : Type 0 where
  pub user_id : Str
  pub username : Str

-- Probe with the token and the account's name, if there is a prober.
abbrev pub Prober : Type 0
Prober = Option (Str → Str → Result Identity)

abbrev pub probe : Prober → Str → Str → Result (Option Identity)
probe none token name = ok none
probe (some p) token name = p token name >>= λ i. ok (some i)

abbrev pub or_else : Str → Str → Str
or_else new old = if is_empty new then old else new

-- The account takes the user id and the name of the bot, as far as they are given.
abbrev pub with_identity : Option Identity → Account → Account
with_identity none a = a
with_identity (some i) a = record a {
  bot_user_id = or_else i.user_id a.bot_user_id;
  name = or_else i.username a.name;
}

unfoldable pub store_discord : Env → Str → Str → Str → Option Identity → Db → Result (Account × Db)
store_discord e actor_id id enc probed t = do
  a ← Accounts.get id t
  let new = with_identity probed (record a { bot_token_enc = enc; updated_at = e.now })
  t1 ← Accounts.update new t
  t2 ← record_audit e 0 actor_id (bytes "account.discord_set") id t1
  ok (new, t2)

-- Before the second transaction: the acting account's id, the bot's identity and the blob.
unfoldable pub prepare_discord :
    Gcm → Str → Prober → Option Account → Str → Str → Db → Result (Str × Option Identity × Str)
prepare_discord g master_key prober who id bot_token db = do
  require (not (is_empty bot_token)) invalid_argument
  actor ← actor_of who
  a ← Accounts.get id db
  probed ← probe prober bot_token a.name
  enc ← aesgcm_encrypt g master_key bot_token
  ok (actor.id, probed, enc)

unfoldable pub set_discord :
    Env → Gcm → Str → Prober → Option Account → Str → Str → Db → Result Account × Db
unfolding prepare_discord store_discord
set_discord e g master_key prober who id bot_token db =
    after (prepare_discord g master_key prober who id bot_token db) db
      (λ x. with_tx (store_discord e x.0 id x.2 x.1) db)

-- The token that OnlineAccount connects with.
unfoldable pub connect_token : Gcm → Str → Str → Db → Result Str
connect_token g master_key id db = do
  a ← Accounts.get id db
  require (not (is_empty a.bot_token_enc)) invalid_argument
  aesgcm_decrypt g master_key a.bot_token_enc

-- The transaction of OnlineAccount, with the user id of the provider ("" where there is none).
unfoldable pub store_online : Env → Str → Str → Str → Db → Result (Unit {0} × Db)
store_online e actor_id id captured t = do
  a ← Accounts.get id t
  t1 ←
      Accounts.update
        (record a {
          lifecycle_state = online;
          updated_at = e.now;
          bot_user_id = or_else captured a.bot_user_id;
        })
        t
  t2 ← record_audit e 0 actor_id (bytes "account.online") id t1
  ok (tt, t2)

-- The transaction of OfflineAccount.
unfoldable pub store_offline : Env → Str → Str → Db → Result (Unit {0} × Db)
store_offline e actor_id id t = do
  a ← Accounts.get id t
  t1 ← Accounts.update (record a { lifecycle_state = offline; updated_at = e.now }) t
  t2 ← record_audit e 0 actor_id (bytes "account.offline") id t1
  ok (tt, t2)
