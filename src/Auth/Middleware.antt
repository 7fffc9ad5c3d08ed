-- ===== src/Auth/Middleware.antt =====
-- internal/auth/middleware.go. A handler returns the account that it hands to the next handler, or
-- the error that it writes.
use agent_chat.Prelude.{
  ℕ, Bool, true, false, Option, none, some, Str, bytes, is_empty, if◌then◌else◌,
}
use agent_chat.Errcode.{Code, auth_missing, auth_invalid, perm_denied}
use agent_chat.Errcode.Result.{Result, ok, err, ◌>>=◌}
use agent_chat.Store.{Db, Account, Role, admin, user, other_role}
use agent_chat.Store.Accounts
use agent_chat.Auth.Token.{strip_prefix}
use agent_chat.Auth.Manager.{Crypto, verify}

abbrev pub bearer_prefix : Str
bearer_prefix = bytes "Bearer "

bearer_of : Crypto → Option Str → Result Str
bearer_of c none = err auth_invalid
bearer_of c (some rest) =
    if is_empty (c.trim_space rest) then err auth_invalid else ok (c.trim_space rest)

-- The Authorization header, "" if there is none.
unfoldable pub extract_bearer : Crypto → Str → Result Str
unfolding bearer_of strip_prefix
extract_bearer c h =
    if is_empty h then err auth_missing else bearer_of c (strip_prefix bearer_prefix h)

-- A valid token of an account that is gone.
hide_vanished : Result Account → Result Account
hide_vanished (ok a) = ok a
hide_vanished (err Code.not_found) = err auth_invalid
hide_vanished (err c) = err c

unfoldable pub load_account : Result (Str × Str) × Db → Result (Account × Str) × Db
unfolding hide_vanished Accounts.get
load_account (err c, db) = (err c, db)
load_account (ok (account_id, token_id), db) =
    (hide_vanished (Accounts.get account_id db) >>= λ a. ok (a, token_id), db)

unfoldable pub verify_bearer : Crypto → ℕ → Result Str → Db → Result (Account × Str) × Db
unfolding load_account
verify_bearer c now (err e) db = (err e, db)
verify_bearer c now (ok raw) db = load_account (verify c now raw db)

-- `Handler`.
unfoldable pub handler : Crypto → ℕ → Str → Db → Result (Account × Str) × Db
unfolding extract_bearer verify_bearer
handler c now h db = verify_bearer c now (extract_bearer c h) db

abbrev pub is_admin : Role → Bool
is_admin admin = true
is_admin user = false
is_admin (other_role s) = false

-- `RequireAdmin`, on the account in the request's context.
unfoldable pub require_admin : Option Account → Result Account
require_admin none = err auth_missing
require_admin (some a) = if is_admin a.role then ok a else err perm_denied

unfoldable pub admin_of : Result (Account × Str) → Result Account
unfolding require_admin
admin_of (err e) = err e
admin_of (ok (a, token_id)) = require_admin (some a)

-- The two in the order in which the router puts them before an administrator's handler.
unfoldable pub admin_handler : Crypto → ℕ → Str → Db → Result Account × Db
unfolding admin_of require_admin
admin_handler c now h db = let (r, db') = handler c now h db in (admin_of r, db')
