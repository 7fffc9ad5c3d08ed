-- ===== src/Auth/Revocation.antt =====
-- Revoking a token: what `Verify` says of it afterwards, and that no other token is touched.
use agent_chat.Prelude.{
  ℕ, ◌≡◌, refl, ap, sym, ◌∙◌, ◌≢◌, true, false, Option, none, some, List, [], ◌∷◌, Str, str_eq,
  str_eq_iff, find, any, modify, find-modify, find-passes, any-find, arith, if◌then◌else◌,
}
use agent_chat.Errcode.{auth_revoked, conflict}
use agent_chat.Errcode.Result.{or_not_found, Result, ok, err, ◌>>=◌}
use agent_chat.Store.{Db, Token, revoked}
use agent_chat.Store.Tokens
use agent_chat.Store.Tokens.{has_id, revocable, set_revoked}
use agent_chat.Auth.Token.{parse_raw}
use agent_chat.Auth.Manager.{Crypto, verify, authenticate, check_row, touch, revoke}
use mathlib.Core.Option

-- The row under an id after a revocation.
after : Str → ℕ → Token → Token
after id at t = if revocable id t then set_revoked at t else t

revoked-after :
    (id : Str) (at : ℕ) (t : Token) → str_eq t.id id ≡ true → revoked (after id at t) ≡ true
unfolding after revoked
revoked-after id at t h = ground arith

find-revoke :
    (id j : Str) (at : ℕ) (ts : List Token)
    → find (has_id j) (modify (revocable id) (set_revoked at) ts)
      ≡ Option.map (after id at) (find (has_id j) ts)
unfolding after
find-revoke id j at ts = find-modify (has_id j) (revocable id) (set_revoked at) ts (λ x h. refl)

-- A row that is found under the id and not yet revoked is what the UPDATE looks for.
any-revocable :
    (id : Str) (ts : List Token) (t : Token)
    → find (has_id id) ts ≡ some t
    → revoked t ≡ false
    → any (revocable id) ts ≡ true
any-revocable id [] t h live = cc
any-revocable id (x ∷ ts) t h live = ground (arith, any-revocable id ts t)

none-revocable :
    (id : Str) (at : ℕ) (ts : List Token)
    → any (revocable id) (modify (revocable id) (set_revoked at) ts) ≡ false
unfolding revoked
none-revocable id at [] = refl
none-revocable id at (t ∷ ts) = ground (arith, none-revocable id at ts)

-- What `Verify` answers once the raw token is read.
answer : Crypto → Str → Str → Result Token → Result (Str × Str)
answer c id secret found = check_row c id secret found >>= λ (t, j). ok (t.account_id, j)

touch-answer :
    (now : ℕ) (r : Result (Token × Str)) (db : Db)
    → (touch now r db).0 ≡ (r >>= λ (t, j). ok (t.account_id, j))
unfolding touch
touch-answer now (err e) db = refl
touch-answer now (ok (t, j)) db = refl

verify-answer :
    (c : Crypto) (now : ℕ) (raw id secret : Str) (db : Db)
    → parse_raw raw ≡ ok (id, secret)
    → (verify c now raw db).0 ≡ answer c id secret (Tokens.get id db)
unfolding verify
verify-answer c now raw id secret db p =
    touch-answer now (authenticate c raw db) db ∙ unfold authenticate answer in rw p

revoked-refused :
    (c : Crypto) (id secret : Str) (t : Token)
    → revoked t ≡ true
    → answer c id secret (ok t) ≡ err auth_revoked
unfolding answer check_row
revoked-refused c id secret t h = ground arith

module _ (id : Str) (at : ℕ) (db : Db) where
  revoked_db : Db
  revoked_db = record db { tokens = modify (revocable id) (set_revoked at) db.tokens }

  get-revoked_db :
      (j : Str) → Tokens.get j revoked_db ≡ (Tokens.get j db >>= λ t. ok (after id at t))
  unfolding revoked_db Tokens.get
  get-revoked_db j =
      ap or_not_found (find-revoke id j at db.tokens) ∙ (got (find (has_id j) db.tokens))
    where
      got :
          (o : Option Token)
          → or_not_found (Option.map (after id at) o) ≡ (or_not_found o >>= λ t. ok (after id at t))
      got none = refl
      got (some t) = refl

after-other :
    (id j : Str) (at : ℕ) (ts : List Token) (o : Option Token)
    → j ≢ id
    → find (has_id j) ts ≡ o
    → Option.map (after id at) o ≡ o
after-other id j at ts none other p = refl
after-other id j at ts (some t) other p =
    unfold after in
    ground (arith, find-passes (has_id j) ts t p, str_eq_iff t.id j, str_eq_iff t.id id)

get-revoked_db_other :
    (id j : Str) (at : ℕ) (db : Db) → j ≢ id → Tokens.get j (revoked_db id at db) ≡ Tokens.get j db
unfolding revoked_db Tokens.get
get-revoked_db_other id j at db other =
    ap or_not_found (find-revoke id j at db.tokens ∙ after-other id j at db.tokens _ other refl)

get-find :
    (id : Str) (db : Db) (t : Token) → Tokens.get id db ≡ ok t → find (has_id id) db.tokens ≡ some t
unfolding Tokens.get
get-find id db t h = ground arith

revoke-revoked_db :
    (id : Str) (at : ℕ) (db : Db) (t : Token)
    → find (has_id id) db.tokens ≡ some t
    → revoked t ≡ false
    → revoke at id db ≡ ok (revoked_db id at db)
unfolding revoke revoked_db
revoke-revoked_db id at db t found live = rw (any-revocable id db.tokens t found live)

revoke_again :
    (id : Str) (at again : ℕ) (db : Db) (t : Token)
    → find (has_id id) db.tokens ≡ some t
    → revoke again id (revoked_db id at db) ≡ err conflict
unfolding revoke revoked_db
revoke_again id at again db t found = rw (none-revocable id at db.tokens) (
    rw (
      any-find (has_id id) (modify (revocable id) (set_revoked at) db.tokens) (after id at t)
        (find-revoke id id at db.tokens ∙ ap (Option.map (after id at)) found)))

module _ (c : Crypto) (id : Str) (at : ℕ) (db : Db) where
  -- Revoking the live row of an id succeeds; from then on `Verify` answers every raw token of that
  -- id with AUTH_REVOKED, whatever its secret, revoking it again is a CONFLICT, and every raw
  -- token of another id is answered as before.
  pub revoke_lem :
      (t : Token)
      → Tokens.get id db ≡ ok t
      → revoked t ≡ false
      → (db' : Db) × (revoke at id db ≡ ok db')
        × ((now : ℕ) (raw secret : Str)
            → parse_raw raw ≡ ok (id, secret)
            → (verify c now raw db').0 ≡ err auth_revoked)
        × ((again : ℕ) → revoke again id db' ≡ err conflict)
        × ((now : ℕ) (raw j secret : Str)
            → parse_raw raw ≡ ok (j, secret)
            → j ≢ id
            → (verify c now raw db').0 ≡ (verify c now raw db).0)
  revoke_lem t row live =
      let found = get-find id db t row in
      (
        revoked_db id at db,
        revoke-revoked_db id at db t found live,
        (λ now raw secret p.
            verify-answer c now raw id secret (revoked_db id at db) p
            ∙ ap (answer c id secret)
                (get-revoked_db id at db id ∙ ap (λ r. r >>= λ t. ok (after id at t)) row)
            ∙ revoked-refused c id secret (after id at t)
                (revoked-after id at t (find-passes (has_id id) db.tokens t found))),
        (λ again. revoke_again id at again db t found),
        (λ now raw j secret p other.
            verify-answer c now raw j secret (revoked_db id at db) p
            ∙ ap (answer c j secret) (get-revoked_db_other id j at db other)
            ∙ sym (verify-answer c now raw j secret db p)),
      )
