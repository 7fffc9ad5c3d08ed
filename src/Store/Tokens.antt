-- ===== src/Store/Tokens.antt =====
-- internal/store/sqlite/token_repo.go
use agent_chat.Prelude.{
  ℕ, Bool, ◌||◌, not, ◌&&◌, some, List, [], ◌∷◌, ◌++◌, Str, str_eq, find, any, modify, keep,
  sort_by, leb, if◌then◌else◌,
}
use agent_chat.Errcode.{not_found, conflict, internal}
use agent_chat.Errcode.Result.{or_not_found, Result, ok, err}
use agent_chat.Store.{Db, Token, Account, revoked}

abbrev pub has_id : Str → Token → Bool
has_id id t = str_eq t.id id

-- The primary key and the foreign key on accounts(id); a violation of either is INTERNAL.
unfoldable pub create : Token → Db → Result Db
create t db =
    if any (has_id t.id) db.tokens
      || not (any (λ (a : Account). str_eq a.id t.account_id) db.accounts)
    then err internal
    else ok (record db { tokens = db.tokens ++ t ∷ [] })

unfoldable pub get : Str → Db → Result Token
get id db = or_not_found (find (has_id id) db.tokens)

unfoldable pub list_by_account : Str → Db → List Token
list_by_account account_id db =
    sort_by (λ s t. leb s.created_at t.created_at)
      (keep (λ t. str_eq t.account_id account_id) db.tokens)

-- The UPDATE's WHERE clause: the id, and not yet revoked.
abbrev pub revocable : Str → Token → Bool
revocable id t = str_eq t.id id && not (revoked t)

abbrev pub set_revoked : ℕ → Token → Token
set_revoked at t = record t { revoked_at = some at }

unfoldable pub revoke : Str → ℕ → Db → Result Db
unfolding revoked
revoke id at db =
    if any (revocable id) db.tokens
    then ok (record db { tokens = modify (revocable id) (set_revoked at) db.tokens })
    else if any (has_id id) db.tokens
    then err conflict
    else err not_found

abbrev pub set_last_used : ℕ → Token → Token
set_last_used at t = record t { last_used_at = some at }

unfoldable pub touch_last_used : Str → ℕ → Db → Db
touch_last_used id at db = record db { tokens = modify (has_id id) (set_last_used at) db.tokens }
