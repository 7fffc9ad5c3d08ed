-- ===== src/Auth/Manager.antt =====
-- internal/auth/token.go: issuing, verifying and revoking, and internal/crypto/bcrypt.go.
use agent_chat.Prelude.{ℕ, ◌≡◌, not, Option, none, some, Str, is_empty, keep, ◌==◌, if◌then◌else◌}
use agent_chat.Errcode.{Code, auth_invalid, auth_revoked, internal, invalid_argument}
use agent_chat.Errcode.Result.{Result, ok, err, ◌>>=◌, ◌>>◌, require}
use agent_chat.Store.{Db, Token, revoked}
use agent_chat.Store.Tokens
use agent_chat.Auth.Token.{encode_raw, parse_raw}

-- The outcome of bcrypt.CompareHashAndPassword.
pub data Comparison : Type 0 where
  matches mismatched malformed : Comparison

pub record Crypto : Type 0 where
  -- bcrypt.GenerateFromPassword with its salt; `none` is an error (a password above 72 bytes).
  pub hash_password : ℕ → Str → Option Str
  pub compare_hash : Str → Str → Comparison
  -- base64.RawURLEncoding.EncodeToString
  pub encode_base64 : Str → Str
  -- strings.TrimSpace
  pub trim_space : Str → Str

-- What one call draws from outside: the text of a new UUID, random bytes and a salt.
pub record Entropy : Type 0 where
  pub uuid : Option Str
  pub random : Option Str
  pub salt : ℕ

-- bcrypt accepts the password that it hashed.
abbrev pub BcryptLaw : Crypto → Type 0
BcryptLaw c =
    (salt : ℕ) (s h : Str) → c.hash_password salt s ≡ some h → c.compare_hash h s ≡ matches

unfoldable pub hash_api_token : Crypto → ℕ → Str → Result Str
hash_api_token c salt secret =
    if is_empty secret
    then err invalid_argument
    else elim (c.hash_password salt secret) [ none ↦ err internal | some h ↦ ok h ]

unfoldable pub verify_api_token : Crypto → Str → Str → Result (Unit {0})
verify_api_token c hash secret = elim (c.compare_hash hash secret) [
  | matches ↦ ok tt
  | mismatched ↦ err auth_invalid
  | malformed ↦ err internal
]

unfoldable pub random_secret : Crypto → Entropy → Result Str
random_secret c e = elim e.random [ none ↦ err internal | some buf ↦ ok (c.encode_base64 buf) ]

-- strings.ReplaceAll(u.String(), "-", "")
unfoldable pub compact : Str → Str
compact s = keep (λ b. not (b == b'-')) s

new_uuid : Option Str → Result Str
new_uuid none = err internal
new_uuid (some u) = ok u

-- `PrepareToken`: the raw form and the row.
unfoldable pub prepare_token : Crypto → Entropy → ℕ → Str → Result (Str × Token)
unfolding hash_api_token random_secret new_uuid
prepare_token c e now account_id = do
  require (not (is_empty account_id)) invalid_argument
  u ← new_uuid e.uuid
  secret ← random_secret c e
  hash ← hash_api_token c e.salt secret
  ok (
    encode_raw (compact u) secret,
    record {
      id = compact u;
      account_id = account_id;
      hash = hash;
      created_at = now;
      revoked_at = none;
      last_used_at = none;
    },
  )

-- `Issue` and `IssueVia`: the raw form, the row and the tables.
unfoldable pub issue : Crypto → Entropy → ℕ → Str → Db → Result (Str × Token × Db)
unfolding Tokens.create
issue c e now account_id db = do
  (raw, t) ← prepare_token c e now account_id
  db' ← Tokens.create t db
  ok (raw, t, db')

-- A missing row is reported as an invalid token, to hide which ids exist.
hide_missing : Result Token → Result Token
hide_missing (ok t) = ok t
hide_missing (err Code.not_found) = err auth_invalid
hide_missing (err c) = err c

-- The row found for the id, checked, and returned with the id.
unfoldable pub check_row : Crypto → Str → Str → Result Token → Result (Token × Str)
unfolding verify_api_token hide_missing revoked
check_row c id secret found = do
  t ← hide_missing found
  require (not (revoked t)) auth_revoked
  verify_api_token c t.hash secret
  ok (t, id)

unfoldable pub authenticate : Crypto → Str → Db → Result (Token × Str)
unfolding check_row Tokens.get
authenticate c raw db = do (id, secret) ← parse_raw raw; check_row c id secret (Tokens.get id db)

unfoldable pub touch : ℕ → Result (Token × Str) → Db → Result (Str × Str) × Db
unfolding Tokens.touch_last_used
touch now (err c) db = (err c, db)
touch now (ok (t, id)) db = (ok (t.account_id, id), Tokens.touch_last_used id now db)

-- `Verify`: the account and the token id; a success sets `last_used_at`.
unfoldable pub verify : Crypto → ℕ → Str → Db → Result (Str × Str) × Db
unfolding touch authenticate
verify c now raw db = touch now (authenticate c raw db) db

-- `Revoke` and `RevokeVia`.
unfoldable pub revoke : ℕ → Str → Db → Result Db
unfolding Tokens.revoke
revoke now id db = Tokens.revoke id now db
