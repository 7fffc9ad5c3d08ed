-- ===== src/Auth/Lifecycle.antt =====
-- A token from its issue to its first use.
use agent_chat.Prelude.{
  ℕ, ◌≡◌, refl, ◌∙◌, true, false, none, some, [], ◌∷◌, ◌++◌, Str, str_eq_refl, find-append, any,
  is_empty, arith,
}
use agent_chat.Errcode.Result.{ok}
use agent_chat.Store.{Db, Token, revoked}
use agent_chat.Store.Tokens
use agent_chat.Store.Accounts
use agent_chat.Auth.Token.{underscore, encode_raw}
use agent_chat.Auth.Format.{Avoids}
use agent_chat.Auth.Manager.{Crypto, Entropy, BcryptLaw, compact, issue, prepare_token, verify}
use agent_chat.Auth.Verification.{Accepts, verify-Accepts}

Avoids-compact : (c : ℕ) (s : Str) → Avoids c s → Avoids c (compact s)
unfolding compact
Avoids-compact c [] h = refl
Avoids-compact c (b ∷ s) h = ground (arith, Avoids-compact c s)

-- What an issue draws from outside: a UUID that reads as hexadecimal digits with dashes and is not
-- in use, and random bytes that base64 spells as a text that bcrypt takes.
pub record Draw (c : Crypto) (e : Entropy) (db : Db) : Type 0 where
  pub uuid : Str
  pub buffer : Str
  pub hash : Str
  pub uuid_drawn : e.uuid ≡ some uuid
  pub uuid_nonempty : is_empty (compact uuid) ≡ false
  pub uuid_clean : Avoids underscore uuid
  pub uuid_fresh : any (Tokens.has_id (compact uuid)) db.tokens ≡ false
  pub random_drawn : e.random ≡ some buffer
  pub secret_nonempty : is_empty (c.encode_base64 buffer) ≡ false
  pub hashed : c.hash_password e.salt (c.encode_base64 buffer) ≡ some hash

module _ (c : Crypto) (e : Entropy) (now : ℕ) (account_id : Str) (db : Db) (d : Draw c e db) where
  abbrev issued : Token
  issued = record {
    id = compact d.uuid;
    account_id = account_id;
    hash = d.hash;
    created_at = now;
    revoked_at = none;
    last_used_at = none;
  }

  abbrev issued_raw : Str
  issued_raw = encode_raw (compact d.uuid) (c.encode_base64 d.buffer)

  abbrev issued_db : Db
  issued_db = record db { tokens = db.tokens ++ issued ∷ [] }

  prepared :
      is_empty account_id ≡ false → prepare_token c e now account_id ≡ ok (issued_raw, issued)
  unfolding prepare_token
  prepared named = ground (arith, d.uuid_drawn, d.random_drawn, d.secret_nonempty, d.hashed)

  stored :
      any (Accounts.has_id account_id) db.accounts ≡ true → Tokens.create issued db ≡ ok issued_db
  unfolding Tokens.create
  stored exists = rw (d.uuid_fresh, exists)

  Accepts-issued :
      BcryptLaw c
      → Accepts c issued_raw issued_db issued (compact d.uuid) (c.encode_base64 d.buffer)
  unfolding revoked
  Accepts-issued law = record {
    form = refl;
    id_nonempty = d.uuid_nonempty;
    secret_nonempty = d.secret_nonempty;
    id_clean = Avoids-compact underscore d.uuid d.uuid_clean;
    row =
        find-append (Tokens.has_id (compact d.uuid)) db.tokens (issued ∷ []) d.uuid_fresh
        ∙ rw str_eq_refl;
    live = refl;
    compares = law e.salt (c.encode_base64 d.buffer) d.hash d.hashed;
  }

  -- Issuing a token for an account that exists succeeds, given a fresh UUID, random bytes and a
  -- bcrypt that accepts the password that it hashed; the raw token that it returns is then verified
  -- as that account's, under the id of the row that was stored, at any later time.
  pub verify-issue :
      BcryptLaw c
      → is_empty account_id ≡ false
      → any (Accounts.has_id account_id) db.accounts ≡ true
      → (raw : Str) × (t : Token) × (db' : Db) × (issue c e now account_id db ≡ ok (raw, t, db'))
        × ((later : ℕ) → (verify c later raw db').0 ≡ ok (account_id, t.id))
  unfolding issue
  verify-issue law named exists = (
    issued_raw,
    issued,
    issued_db,
    rw (prepared named, stored exists),
    (λ later.
        (verify-Accepts c issued_db later issued_raw account_id (compact d.uuid)).1
          (issued, c.encode_base64 d.buffer, Accepts-issued law, refl)),
  )
