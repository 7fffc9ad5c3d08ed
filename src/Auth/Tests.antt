-- ===== src/Auth/Tests.antt =====
-- The theorems on tokens at a small database, with a toy cryptography.
use agent_chat.Prelude.{
  ℕ, ◌∷◌, ◌≡◌, ◌≢◌, refl, ◌↔◌, true, false, none, some, [], Str, bytes, str_eq, is_empty,
  if◌then◌else◌, any, arith, str_eq_refl,
}
use agent_chat.Errcode.{auth_invalid, auth_revoked, conflict, perm_denied}
use agent_chat.Errcode.Result.{ok, err}
use agent_chat.Store.{Db, empty_db, Account, Token, admin, online, revoked}
use agent_chat.Store.Tokens
use agent_chat.Store.Accounts
use agent_chat.Auth.Token.{encode_raw, parse_raw, underscore}
use agent_chat.Auth.Format.{Avoids, parse_raw-encode_raw}
use agent_chat.Auth.Manager.{
  Crypto, Comparison, matches, mismatched, malformed, Entropy, BcryptLaw, issue, verify, revoke,
  compact,
}
use agent_chat.Auth.Middleware.{handler, admin_handler}
use agent_chat.Auth.Verification.{Accepts, IsRefusal, verify-Accepts, verify_refuses}
use agent_chat.Auth.Gate.{Authenticated, handler-Authenticated, admin_handler-Authenticated}
use agent_chat.Auth.Revocation.{revoke_lem}
use agent_chat.Auth.Lifecycle.{Draw, verify-issue}

abbrev toy_compare : Str → Str → Comparison
toy_compare [] s = malformed
toy_compare (salt ∷ h) s = if str_eq h s then matches else mismatched

abbrev toy : Crypto
toy = record {
  hash_password = λ salt s. some (salt ∷ s);
  compare_hash = toy_compare;
  encode_base64 = λ s. s;
  trim_space = λ s. s;
}

toy-BcryptLaw : BcryptLaw toy
toy-BcryptLaw salt s h e = ground (arith, str_eq_refl s)

abbrev root : Account
root = record {
  id = bytes "a1";
  name = bytes "root";
  role = admin;
  lifecycle_state = online;
  bot_token_enc = [];
  bot_user_id = bytes "77";
  created_at = 5;
  updated_at = 5;
}

abbrev old_token : Token
old_token = record {
  id = bytes "01ab";
  account_id = bytes "a1";
  hash = 9 ∷ bytes "x_y";
  created_at = 6;
  revoked_at = none;
  last_used_at = none;
}

abbrev db : Db
db = record empty_db { accounts = root ∷ []; tokens = old_token ∷ [] }

abbrev old_raw : Str
old_raw = bytes "agch_01ab_x_y"

parse_raw_example :
    (parse_raw old_raw ≡ ok (bytes "01ab", bytes "x_y"))
    ↔ (old_raw ≡ encode_raw (bytes "01ab") (bytes "x_y"))
      × (is_empty (bytes "01ab") ≡ false)
      × (is_empty (bytes "x_y") ≡ false)
      × Avoids underscore (bytes "01ab")
parse_raw_example = parse_raw-encode_raw old_raw (bytes "01ab") (bytes "x_y")

old_parsed : parse_raw old_raw ≡ ok (bytes "01ab", bytes "x_y")
unfolding parse_raw
old_parsed = refl

old_verified : (verify toy 8 old_raw db).0 ≡ ok (bytes "a1", bytes "01ab")
unfolding verify parse_raw str_eq
old_verified = refl

verify-Accepts_example :
    ((verify toy 8 old_raw db).0 ≡ ok (bytes "a1", bytes "01ab"))
    ↔ (t : Token) × (secret : Str) × Accepts toy old_raw db t (bytes "01ab") secret
      × (t.account_id ≡ bytes "a1")
verify-Accepts_example = verify-Accepts toy db 8 old_raw (bytes "a1") (bytes "01ab")

abbrev forged : Str
forged = bytes "agch_01ab_xyz"

forged_refused : (verify toy 8 forged db).0 ≡ err auth_invalid
unfolding verify parse_raw str_eq
forged_refused = refl

verify_refuses_example : ((verify toy 8 forged db).1 ≡ db) × IsRefusal auth_invalid
verify_refuses_example = verify_refuses toy db 8 forged auth_invalid forged_refused

abbrev header : Str
header = bytes "Bearer agch_01ab_x_y"

header_passes : (handler toy 8 header db).0 ≡ ok (root, bytes "01ab")
unfolding handler verify parse_raw str_eq
header_passes = refl

handler-Authenticated_example : Authenticated toy header db root (bytes "01ab")
handler-Authenticated_example =
    handler-Authenticated toy 8 header db root (bytes "01ab") header_passes

admin_handler_example :
    ((admin_handler toy 8 header db).0 ≡ ok root
      → (root.role ≡ admin) × (id : Str) × Authenticated toy header db root id)
    × ((id : Str)
        → (handler toy 8 header db).0 ≡ ok (root, id)
        → (root.role ≡ admin → ⊥)
        → (admin_handler toy 8 header db).0 ≡ err perm_denied)
admin_handler_example = admin_handler-Authenticated toy 8 header db root

old_row : Tokens.get (bytes "01ab") db ≡ ok old_token
unfolding Tokens.get str_eq
old_row = refl

old_live : revoked old_token ≡ false
unfolding revoked
old_live = refl

revoke_example :
    (db' : Db) × (revoke 9 (bytes "01ab") db ≡ ok db')
    × ((now : ℕ) (raw secret : Str)
        → parse_raw raw ≡ ok (bytes "01ab", secret)
        → (verify toy now raw db').0 ≡ err auth_revoked)
    × ((again : ℕ) → revoke again (bytes "01ab") db' ≡ err conflict)
    × ((now : ℕ) (raw j secret : Str)
        → parse_raw raw ≡ ok (j, secret)
        → j ≢ bytes "01ab"
        → (verify toy now raw db').0 ≡ (verify toy now raw db).0)
revoke_example = revoke_lem toy (bytes "01ab") 9 db old_token old_row old_live

abbrev entropy : Entropy
entropy = record { uuid = some (bytes "01-cd"); random = some (bytes "s3cr_t"); salt = 4 }

draw : Draw toy entropy db
unfolding compact str_eq
draw = record {
  uuid = bytes "01-cd";
  buffer = bytes "s3cr_t";
  hash = 4 ∷ bytes "s3cr_t";
  uuid_drawn = refl;
  uuid_nonempty = refl;
  uuid_clean = refl;
  uuid_fresh = refl;
  random_drawn = refl;
  secret_nonempty = refl;
  hashed = refl;
}

root_exists : any (Accounts.has_id (bytes "a1")) db.accounts ≡ true
unfolding str_eq
root_exists = refl

verify-issue_example :
    (raw : Str) × (t : Token) × (db' : Db) × (issue toy entropy 7 (bytes "a1") db
      ≡ ok (raw, t, db'))
    × ((later : ℕ) → (verify toy later raw db').0 ≡ ok (bytes "a1", t.id))
verify-issue_example =
    verify-issue toy entropy 7 (bytes "a1") db draw toy-BcryptLaw refl root_exists
