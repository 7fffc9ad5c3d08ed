-- ===== src/Api/Profiles.antt =====
-- internal/api/v1/accounts.go. The rename of the bot at Discord, with the decryption of its token, is
-- one call that a parameter stands for.
use agent_chat.Prelude.{
  Bool, true, false, not, Option, none, some, List, [], ◌∷◌, Str, bytes, str_eq, is_empty,
  if◌then◌else◌,
}
use agent_chat.Errcode.{conflict}
use agent_chat.Errcode.Result.{Result, ok, ◌>>=◌, require}
use agent_chat.Store.{Db, Account, Role, with_tx}
use agent_chat.Store.Accounts
use agent_chat.Account.{Draws, UpdateRequest, ChangeRecord, build, plan_update}
use agent_chat.Api.{Env, actor_of, record_audit, after}

abbrev pub draws_of : Env → Draws
draws_of e = record { trim_space = e.trim_space; uuid = e.uuid; now = e.now }

unfoldable pub store_account : Env → Str → Account → Db → Result (Account × Db)
store_account e actor_id a t = do
  t1 ← Accounts.create a t
  t2 ← record_audit e 0 actor_id (bytes "account.create") a.id t1
  ok (a, t2)

abbrev pub new_account : Env → Option Account → Str → Role → Result (Str × Account)
new_account e who name role = do
  actor ← actor_of who
  a ← build (draws_of e) name role
  ok (actor.id, a)

unfoldable pub create_account : Env → Option Account → Str → Role → Db → Result Account × Db
unfolding store_account
create_account e who name role db =
    after (new_account e who name role) db (λ x. with_tx (store_account e x.0 x.1) db)

abbrev pub has_changes : List ChangeRecord → Bool
has_changes [] = false
has_changes (c ∷ cs) = true

-- The bot's new name goes to Discord first; without a prober nothing does.
abbrev pub rename_bot :
    Option (Str → Str → Result (Unit {0}))
    → Account
    → Account
    → List ChangeRecord
    → Result (Unit {0})
rename_bot none current planned changes = ok tt
rename_bot (some rename) current planned changes =
    if str_eq current.name planned.name
    then ok tt
    else if has_changes changes
    then (if is_empty current.bot_token_enc
        then ok tt
        else rename current.bot_token_enc planned.name)
    else ok tt

abbrev pub renames :
    Option (Str → Str → Result (Unit {0})) → UpdateRequest → Option (Str → Str → Result (Unit {0}))
renames prober req = elim req.name [ none ↦ none | some n ↦ prober ]

abbrev pub at_discord :
    Env → Option (Str → Str → Result (Unit {0})) → Str → UpdateRequest → Db → Result (Unit {0})
at_discord e none id req db = ok tt
at_discord e (some rename) id req db = do
  current ← Accounts.get id db
  x ← plan_update (draws_of e) current req
  rename_bot (some rename) current x.0 x.1

abbrev pub write_changes :
    Env → Str → Str → Account → Account × List ChangeRecord → Db → Result (Account × Db)
write_changes e actor_id id current (planned, []) t = ok (current, t)
write_changes e actor_id id current (planned, c ∷ cs) t = do
  t1 ← Accounts.update planned t
  t2 ← record_audit e 0 actor_id (bytes "account.update") id t1
  ok (planned, t2)

unfoldable pub store_changes : Env → Str → Str → UpdateRequest → Db → Result (Account × Db)
store_changes e actor_id id req t = do
  current ← Accounts.get id t
  x ← plan_update (draws_of e) current req
  write_changes e actor_id id current x t

unfoldable pub update_account :
    Env
    → Option (Str → Str → Result (Unit {0}))
    → Option Account
    → Str
    → UpdateRequest
    → Db
    → Result Account × Db
unfolding store_changes
update_account e prober who id req db =
    after (actor_of who >>= λ a. at_discord e (renames prober req) id req db >>= λ u. ok a.id) db
      (λ actor_id. with_tx (store_changes e actor_id id req) db)

unfoldable pub drop_account : Env → Str → Str → Db → Result (Unit {0} × Db)
drop_account e actor_id id t = do
  a ← Accounts.get id t
  t1 ← Accounts.delete id t
  t2 ← record_audit e 0 actor_id (bytes "account.delete") id t1
  ok (tt, t2)

-- `registered` is the connector's IsRegistered.
unfoldable pub delete_account :
    Env → (Str → Bool) → Option Account → Str → Db → Result (Unit {0}) × Db
unfolding drop_account
delete_account e registered who id db =
    after (actor_of who >>= λ a. require (not (registered id)) conflict >>= λ u. ok a.id) db
      (λ actor_id. with_tx (drop_account e actor_id id) db)
