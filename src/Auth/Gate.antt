-- ===== src/Auth/Gate.antt =====
-- What the authentication middleware and the administrator check let through.
use agent_chat.Prelude.{ℕ, ◌≡◌, refl, ap, subst, Option, none, some, Str, find, arith}
use agent_chat.Errcode.{perm_denied}
use agent_chat.Errcode.Result.{Result, ok, err}
use agent_chat.Store.{Db, Token, Account, admin}
use agent_chat.Store.Accounts
use agent_chat.Auth.Manager.{Crypto, verify}
use agent_chat.Auth.Middleware.{
  load_account, handler, extract_bearer, verify_bearer, admin_of, admin_handler,
}
use agent_chat.Auth.Verification.{Accepts, verify-Accepts, accounts-verify}

load_account-found :
    (account_id j : Str) (db : Db) (a : Account) (id : Str) (o : Option Account)
    → find (Accounts.has_id account_id) db.accounts ≡ o
    → (load_account (ok (account_id, j), db)).0 ≡ ok (a, id)
    → (j ≡ id) × (o ≡ some a)
unfolding load_account
load_account-found account_id j db a id none p h = ground arith
load_account-found account_id j db a id (some x) p h = ground arith

load_account-eq_ok :
    (r : Result (Str × Str)) (db : Db) (a : Account) (id : Str)
    → (load_account (r, db)).0 ≡ ok (a, id)
    → (account_id : Str) × (r ≡ ok (account_id, id))
      × (find (Accounts.has_id account_id) db.accounts ≡ some a)
load_account-eq_ok (err e) db a id h = unfold load_account in cc
load_account-eq_ok (ok (account_id, j)) db a id h =
    let (same, found) = load_account-found account_id j db a id _ refl h in
    (account_id, ap (λ k. ok (account_id, k)) same, found)

-- The request's bearer token stands for a live row, and the account is the row's owner.
pub record Authenticated (c : Crypto) (header : Str) (db : Db) (a : Account) (id : Str)
    : Type 0 where
  pub raw : Str
  pub token : Token
  pub secret : Str
  pub bearer : extract_bearer c header ≡ ok raw
  pub accepted : Accepts c raw db token id secret
  pub owner : find (Accounts.has_id token.account_id) db.accounts ≡ some a

module _ (c : Crypto) (now : ℕ) (header : Str) (db : Db) where
  bearer-Authenticated :
      (r : Result Str) (a : Account) (id : Str)
      → extract_bearer c header ≡ r
      → (verify_bearer c now r db).0 ≡ ok (a, id)
      → Authenticated c header db a id
  bearer-Authenticated (err e) a id p h = unfold verify_bearer in cc
  bearer-Authenticated (ok raw) a id p h =
      let (account_id, verified, found) =
        load_account-eq_ok (verify c now raw db).0 (verify c now raw db).1 a id
          (unfold verify_bearer in h) in
      let (t, secret, accepted, mine) = (verify-Accepts c db now raw account_id id).0 verified in
      record {
        raw = raw;
        token = t;
        secret = secret;
        bearer = p;
        accepted = accepted;
        owner = rw mine (
            subst (λ rows. find (Accounts.has_id account_id) rows ≡ some a)
              (accounts-verify c db now raw) found);
      }

  -- The middleware hands a request on only with an account that owns the live, matching row of
  -- the request's bearer token.
  pub handler-Authenticated :
      (a : Account) (id : Str)
      → (handler c now header db).0 ≡ ok (a, id)
      → Authenticated c header db a id
  unfolding handler
  handler-Authenticated a id h = bearer-Authenticated (extract_bearer c header) a id refl h

  admin_of-eq_ok :
      (r : Result (Account × Str)) (a : Account)
      → admin_of r ≡ ok a
      → (id : Str) × (r ≡ ok (a, id)) × (a.role ≡ admin)
  unfolding admin_of
  admin_of-eq_ok (err e) a h = cc
  admin_of-eq_ok (ok (x, id)) a h = (id, ground arith, ground arith)

  -- Behind `RequireAdmin` stands an account with the role admin, authenticated by the request's
  -- bearer token; any other account that is authenticated gets PERM_DENIED.
  pub admin_handler-Authenticated :
      (a : Account)
      → ((admin_handler c now header db).0 ≡ ok a
          → (a.role ≡ admin) × (id : Str) × Authenticated c header db a id)
        × ((id : Str)
            → (handler c now header db).0 ≡ ok (a, id)
            → (a.role ≡ admin → ⊥)
            → (admin_handler c now header db).0 ≡ err perm_denied)
  unfolding admin_handler
  admin_handler-Authenticated a = (
    (λ h.
        let (id, passed, role) = admin_of-eq_ok (handler c now header db).0 a h in
        (role, id, handler-Authenticated a id passed)),
    (λ id passed other. rw passed (unfold admin_of in ground arith)),
  )
