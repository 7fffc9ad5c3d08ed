-- ===== src/Account/Tests.antt =====
-- The theorem on updates at a table of two accounts.
use agent_chat.Prelude.{◌≡◌, refl, none, some, [], ◌∷◌, Str, bytes, str_eq}
use agent_chat.Errcode.Result.{ok}
use agent_chat.Store.{Db, empty_db, Account, Role, admin, user, online, role_valid, lifecycle_valid}
use agent_chat.Store.Accounts
use agent_chat.Account.{Draws, UpdateRequest, validate_name, update, bootstrap_root}
use agent_chat.Account.Bootstrap.{bootstrap_root_lem}
use agent_chat.Account.Records.{differing, asked}
use agent_chat.Account.Updates.{Updatable, Updated, update_lem}

abbrev account : Str → Role → Account
account id role = record {
  id = id;
  name = id;
  role = role;
  lifecycle_state = online;
  bot_token_enc = [];
  bot_user_id = [];
  created_at = 1;
  updated_at = 1;
}

abbrev tables : Db
tables = record empty_db { accounts = account (bytes "a1") admin ∷ account (bytes "a2") user ∷ [] }

abbrev draws : Draws
draws = record { trim_space = λ s. s; uuid = none; now = 5 }

abbrev rename : UpdateRequest
rename = record { name = some (bytes "carol"); role = some admin }

rename-Updatable : Updatable draws (bytes "a2") rename tables (account (bytes "a2") user)
unfolding str_eq role_valid lifecycle_valid validate_name
rename-Updatable = record {
  found = refl;
  stored_role = refl;
  stored_state = refl;
  given = refl;
  named = refl;
  ranked = refl;
  free = refl;
}

update_example :
    (new : Account) × (db' : Db) × (update draws (bytes "a2") rename tables
      ≡ ok (new, differing (account (bytes "a2") user) new, db'))
    × (new ≡ asked 5 (account (bytes "a2") user) rename)
    × Updated draws (bytes "a2") rename tables (account (bytes "a2") user) rename-Updatable new db'
update_example =
    update_lem draws (bytes "a2") rename tables (account (bytes "a2") user) rename-Updatable

abbrev first_draws : Draws
first_draws = record { trim_space = λ s. s; uuid = some (bytes "u1"); now = 1 }

bootstrap_root_example :
    (a : Account) × (db' : Db) × (bootstrap_root first_draws empty_db ≡ ok (some a, db'))
    × (a.role ≡ admin)
    × (Accounts.count db' ≡ 1)
    × (Accounts.get_by_name (bytes "root") db' ≡ ok a)
    × ((later : Draws) → bootstrap_root later db' ≡ ok (none, db'))
bootstrap_root_example = bootstrap_root_lem first_draws empty_db (bytes "u1") refl refl refl
