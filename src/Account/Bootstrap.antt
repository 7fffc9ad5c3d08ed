-- ===== src/Account/Bootstrap.antt =====
-- The first account of a fresh database.
use agent_chat.Prelude.{
  if◌then◌else◌, ltb, ◌≡◌, refl, ap, ◌∙◌, some, none, [], ◌∷◌, Str, bytes, str_eq, length,
}
use agent_chat.Errcode.Result.{ok, then_ok}
use agent_chat.Store.{Db, Account, admin, role_valid, lifecycle_valid}
use agent_chat.Store.Accounts
use agent_chat.Account.{
  Draws, drawn, new_account, validate_name, build, create, as_created, bootstrap_root,
}

abbrev pub root : Draws → Str → Account
root d u = new_account d (bytes "root") admin u

module _ (d : Draws) (db : Db) (u : Str) (fresh : db.accounts ≡ []) (uuid : d.uuid ≡ some u)
    (trimmed : d.trim_space (bytes "root") ≡ bytes "root") where
  abbrev rooted : Db
  rooted = record db { accounts = root d u ∷ [] }

  named : validate_name d.trim_space (bytes "root") ≡ ok tt
  unfolding validate_name str_eq
  named = rw trimmed refl

  built : build d (bytes "root") admin ≡ ok (root d u)
  unfolding build role_valid
  built = then_ok _ _ named (then_ok _ _ (ap drawn uuid) refl)

  inserted : Accounts.create (root d u) db ≡ ok rooted
  unfolding Accounts.create role_valid lifecycle_valid
  inserted = rw (fresh, Accounts.create) refl

  none_yet : Accounts.count db ≡ 0
  unfolding Accounts.count
  none_yet = ap length fresh

  created_root : create d (bytes "root") admin db ≡ ok (root d u, rooted)
  unfolding create
  created_root = then_ok _ _ built (then_ok _ _ inserted refl)

  bootstrapped : bootstrap_root d db ≡ ok (some (root d u), rooted)
  unfolding bootstrap_root
  bootstrapped =
      ap (λ n. if ltb 0 n then ok (none, db) else as_created (create d (bytes "root") admin db))
        none_yet
      ∙ ap as_created created_root

  -- On a database without accounts, given a UUID, `BootstrapRoot` creates an admin named "root", which
  -- is then its only account and is found by its name; and any later call on what it left creates
  -- nothing and changes nothing. (TrimSpace is taken to leave "root" as it is.)
  pub bootstrap_root_lem :
      (a : Account) × (db' : Db) × (bootstrap_root d db ≡ ok (some a, db'))
      × (a.role ≡ admin)
      × (Accounts.count db' ≡ 1)
      × (Accounts.get_by_name (bytes "root") db' ≡ ok a)
      × ((later : Draws) → bootstrap_root later db' ≡ ok (none, db'))
  unfolding bootstrap_root Accounts.count Accounts.get_by_name str_eq
  bootstrap_root_lem = (root d u, rooted, bootstrapped, refl, refl, refl, λ later. refl)
