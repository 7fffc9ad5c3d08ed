-- ===== src/Auth/Verification.antt =====
-- What `Verify` accepts and how it refuses.
use agent_chat.Prelude.{
  ℕ, ◌≡◌, refl, ap, ◌∙◌, ◌↔◌, ◌⊎◌, false, Option, none, some, Str, is_empty, find, inl, arith,
}
use agent_chat.Errcode.{Code, auth_invalid, auth_revoked, internal}
use agent_chat.Errcode.Result.{Result, ok, err, ◌>>=◌}
use agent_chat.Store.{Db, Token, revoked}
use agent_chat.Store.Tokens
use agent_chat.Auth.Token.{
  underscore, encode_raw, parse_raw, check_parts, cut_rest, cut, strip_prefix, token_prefix,
}
use agent_chat.Auth.Format.{Avoids, parse_raw-encode_raw}
use agent_chat.Auth.Manager.{Crypto, matches, authenticate, touch, verify, check_row}

-- The row that a raw token stands for.
pub record Accepts (c : Crypto) (raw : Str) (db : Db) (t : Token) (id secret : Str) : Type 0 where
  pub form : raw ≡ encode_raw id secret
  pub id_nonempty : is_empty id ≡ false
  pub secret_nonempty : is_empty secret ≡ false
  pub id_clean : Avoids underscore id
  pub row : find (Tokens.has_id id) db.tokens ≡ some t
  pub live : revoked t ≡ false
  pub compares : c.compare_hash t.hash secret ≡ matches

abbrev pub IsRefusal : Code → Type 0
IsRefusal e = (e ≡ auth_invalid) ⊎ (e ≡ auth_revoked) ⊎ (e ≡ internal)

cut_rest_error : (o : Option Str) (e : Code) → cut_rest o ≡ err e → e ≡ auth_invalid
unfolding cut_rest
cut_rest_error none e h = cc
cut_rest_error (some rest) e h = checked (cut underscore rest) h
  where
    checked : (p : Option (Str × Str)) → check_parts p ≡ err e → e ≡ auth_invalid
    checked none k = ground arith
    checked (some (i, s)) k = ground arith

parse_raw_error : (raw : Str) (e : Code) → parse_raw raw ≡ err e → e ≡ auth_invalid
unfolding parse_raw
parse_raw_error raw e h = cut_rest_error (strip_prefix token_prefix raw) e h

module _ (c : Crypto) (db : Db) where
  check_row-eq_ok :
      (id secret : Str) (r : Option Token) (t : Token) (j : Str)
      → find (Tokens.has_id id) db.tokens ≡ r
      → check_row c id secret (Tokens.get id db) ≡ ok (t, j)
      → (j ≡ id) × (r ≡ some t) × (revoked t ≡ false) × (c.compare_hash t.hash secret ≡ matches)
  unfolding check_row Tokens.get
  check_row-eq_ok id secret none t j p h = ground arith
  check_row-eq_ok id secret (some x) t j p h = ground arith

  authenticate-eq_ok :
      (raw : Str) (parts : Result (Str × Str)) (t : Token) (id : Str)
      → parse_raw raw ≡ parts
      → (parts >>= λ (i, s). check_row c i s (Tokens.get i db)) ≡ ok (t, id)
      → (secret : Str) × Accepts c raw db t id secret
  authenticate-eq_ok raw (err e) t id p h = cc
  authenticate-eq_ok raw (ok (i, secret)) t id p h =
      let (same, row, live, compares) = check_row-eq_ok i secret _ t id refl h in
      let (form, id_nonempty, secret_nonempty, id_clean) =
        (parse_raw-encode_raw raw i secret).0 p in
      (
        secret,
        rw same (record {
          form = form;
          id_nonempty = id_nonempty;
          secret_nonempty = secret_nonempty;
          id_clean = id_clean;
          row = row;
          live = live;
          compares = compares;
        }),
      )

  Accepts-authenticate :
      (raw : Str) (t : Token) (id secret : Str)
      → Accepts c raw db t id secret
      → authenticate c raw db ≡ ok (t, id)
  unfolding authenticate
  Accepts-authenticate raw t id secret a =
      let parsed : parse_raw raw ≡ ok (id, secret) =
        (parse_raw-encode_raw raw id secret).1
          (a.form, a.id_nonempty, a.secret_nonempty, a.id_clean) in
      rw parsed (ground (arith, a.row, a.live, a.compares))

  verify-eq_ok :
      (now : ℕ) (raw account_id id : Str) (r : Result (Token × Str))
      → authenticate c raw db ≡ r
      → (touch now r db).0 ≡ ok (account_id, id)
      → (t : Token) × (secret : Str) × Accepts c raw db t id secret × (t.account_id ≡ account_id)
  unfolding touch authenticate
  verify-eq_ok now raw account_id id (err e) p h = cc
  verify-eq_ok now raw account_id id (ok (t, j)) p h =
      let same : j ≡ id = ground arith in
      let (secret, a) =
        authenticate-eq_ok raw (parse_raw raw) t id refl (p ∙ ap (λ k. ok (t, k)) same) in
      (t, secret, a, ground arith)

  -- `Verify` answers with an account and a token id exactly if the raw token is well formed for
  -- that id and some secret, the tokens table has an unrevoked row under the id that belongs to
  -- the account, and bcrypt accepts the secret for the row's hash.
  pub verify-Accepts :
      (now : ℕ) (raw account_id id : Str)
      → ((verify c now raw db).0 ≡ ok (account_id, id))
        ↔ (t : Token) × (secret : Str) × Accepts c raw db t id secret × (t.account_id ≡ account_id)
  unfolding verify
  verify-Accepts now raw account_id id = (
    verify-eq_ok now raw account_id id (authenticate c raw db) refl,
    (λ (t, secret, a, owner).
        rw (Accepts-authenticate raw t id secret a) (ap (λ o. ok (o, id)) owner)),
  )

  check_row_error :
      (id secret : Str) (r : Option Token) (e : Code)
      → find (Tokens.has_id id) db.tokens ≡ r
      → check_row c id secret (Tokens.get id db) ≡ err e
      → IsRefusal e
  unfolding check_row Tokens.get
  check_row_error id secret none e p h = ground arith
  check_row_error id secret (some x) e p h = ground arith

  authenticate_error :
      (raw : Str) (parts : Result (Str × Str)) (e : Code)
      → parse_raw raw ≡ parts
      → (parts >>= λ (i, s). check_row c i s (Tokens.get i db)) ≡ err e
      → IsRefusal e
  authenticate_error raw (err x) e p h = inl (ground (arith, parse_raw_error raw x p))
  authenticate_error raw (ok (i, secret)) e p h = check_row_error i secret _ e refl h

  touch_error :
      (now : ℕ) (r : Result (Token × Str)) (e : Code)
      → (touch now r db).0 ≡ err e
      → ((touch now r db).1 ≡ db) × (r ≡ err e)
  unfolding touch
  touch_error now (err x) e h = ground arith
  touch_error now (ok x) e h = cc

  accounts-touch : (now : ℕ) (r : Result (Token × Str)) → (touch now r db).1.accounts ≡ db.accounts
  unfolding touch Tokens.touch_last_used
  accounts-touch now (err e) = refl
  accounts-touch now (ok (t, id)) = refl

  -- A token that `Verify` refuses leaves the tables as they were, and the error is one of
  -- AUTH_INVALID, AUTH_REVOKED and INTERNAL: never NOT_FOUND, which would tell a prober which ids
  -- exist.
  pub verify_refuses :
      (now : ℕ) (raw : Str) (e : Code)
      → (verify c now raw db).0 ≡ err e
      → ((verify c now raw db).1 ≡ db) × IsRefusal e
  unfolding verify
  verify_refuses now raw e h =
      let (same, refused) = touch_error now (authenticate c raw db) e h in
      (same, authenticate_error raw (parse_raw raw) e refl (unfold authenticate in refused))

  pub accounts-verify : (now : ℕ) (raw : Str) → (verify c now raw db).1.accounts ≡ db.accounts
  unfolding verify
  accounts-verify now raw = accounts-touch now (authenticate c raw db)
