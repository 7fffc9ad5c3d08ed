-- ===== src/Api/Discord/Secret.antt =====
-- The bot's token, from SetDiscord to OnlineAccount.
use agent_chat.Prelude.{
  ℕ, [], ◌∷◌, ◌≡◌, refl, ap, ◌∙◌, Bool, not, true, false, Option, none, some, Str, any, find,
  modify, find_rewritten, is_empty, str_eq, str_eq_sound, find-passes, bytes,
}
use agent_chat.Errcode.{Code, internal, conflict, not_found, invalid_argument}
use agent_chat.Errcode.Result.{
  ◌>>◌, Result, ok, err, require, AllOk, AllOk-bind, AllOk-Unit, or_not_found,
}
use agent_chat.Store.{Db, Account, AuditEntry, with_tx, settle, role_valid, lifecycle_valid}
use agent_chat.Store.Accounts
use agent_chat.Store.Audit
use agent_chat.Secrets.{Gcm, GcmLaw, aesgcm_encrypt}
use agent_chat.Secrets.Sealing.{Opens, aesgcm_encrypt-Opens}
use agent_chat.Api.{Env, actor_of, after, record_audit}
use agent_chat.Api.Discord.{
  probe, Prober, Identity, with_identity, set_discord, store_discord, prepare_discord,
  connect_token,
}

-- A success leaves the token for OnlineAccount, and an error leaves the tables as they were.
abbrev pub Handed : Gcm → Str → Str → Str → Db → Result Account × Db → Type 0
Handed g master_key id bot_token db (ok a, db') = connect_token g master_key id db' ≡ ok bot_token
Handed g master_key id bot_token db (err c, db') = db' ≡ db

-- What holds of the result holds after some tests.
checked :
    (Q : Db → Type 0) (b : Bool) (c : Code) (r : Result Db) → AllOk Q r → AllOk Q (require b c >> r)
checked Q true c r h = h
checked Q false c r h = tt

same_accounts :
    (uuid : Option Str) (now : ℕ) (actor action target payload : Str) (t : Db)
    → AllOk
        (λ (t' : Db). t'.accounts ≡ t.accounts)
        (Audit.record_via uuid now actor action target payload t)
unfolding Audit.record_via Audit.record_entry
same_accounts none now actor [] target payload t = tt
same_accounts none now actor (c ∷ action) target payload t = tt
same_accounts (some id) now actor [] target payload t = tt
same_accounts (some id) now actor (c ∷ action) target payload t =
    checked (λ t'. t'.accounts ≡ t.accounts)
      (not (any (λ (x : AuditEntry). str_eq x.id id) t.audit_log)) internal _ refl

found :
    (id : Str) (t : Db)
    → AllOk (λ a. find (Accounts.has_id id) t.accounts ≡ some a) (Accounts.get id t)
unfolding Accounts.get
found id t = go (find (Accounts.has_id id) t.accounts) refl
  where
    go :
        (o : Option Account)
        → find (Accounts.has_id id) t.accounts ≡ o
        → AllOk (λ a. find (Accounts.has_id id) t.accounts ≡ some a) (or_not_found o)
    go none e = tt
    go (some a) e = e

rewritten :
    (a : Account) (t : Db)
    → AllOk
        (λ (t' : Db). t'.accounts ≡ modify (Accounts.has_id a.id) (Accounts.overwrite a) t.accounts)
        (Accounts.update a t)
unfolding Accounts.update
rewritten a t =
    let Q : Db → Type 0 =
      λ t'. t'.accounts ≡ modify (Accounts.has_id a.id) (Accounts.overwrite a) t.accounts in
    let done : Result Db =
      ok
        (record t { accounts = modify (Accounts.has_id a.id) (Accounts.overwrite a) t.accounts }) in
    let there : Result Db = require (any (Accounts.has_id a.id) t.accounts) not_found >> done in
    let free : Result Db = require (not (Accounts.name_taken a t)) conflict >> there in
    let living : Result Db = require (lifecycle_valid a.lifecycle_state) invalid_argument >> free in
    checked Q (role_valid a.role) invalid_argument living (
      checked Q (lifecycle_valid a.lifecycle_state) invalid_argument free (
        checked Q (not (Accounts.name_taken a t)) conflict there
          (checked Q (any (Accounts.has_id a.id) t.accounts) not_found done refl)))

identified : (probed : Option Identity) (a : Account) → (with_identity probed a).id ≡ a.id
identified none a = refl
identified (some i) a = refl

blob_kept :
    (probed : Option Identity) (a : Account)
    → (with_identity probed a).bot_token_enc ≡ a.bot_token_enc
blob_kept none a = refl
blob_kept (some i) a = refl

module _ (g : Gcm) (law : GcmLaw g) (master_key bot_token : Str) (e : Env) (actor_id id : Str) where
  -- The rows after the transaction.
  module _ (enc : Str) (opens : Opens g master_key bot_token enc) (probed : Option Identity)
      (t : Db) where
    readable :
        (a : Account) (t2 : Db)
        → find (Accounts.has_id id) t.accounts ≡ some a
        → t2.accounts
          ≡ modify
              (Accounts.has_id a.id)
              (Accounts.overwrite
                (with_identity probed (record a { bot_token_enc = enc; updated_at = e.now })))
              t.accounts
        → connect_token g master_key id t2 ≡ ok bot_token
    unfolding connect_token Accounts.get
    readable a t2 there rows =
        let new : Account =
          with_identity probed (record a { bot_token_enc = enc; updated_at = e.now }) in
        let same : a.id ≡ id =
          str_eq_sound a.id id (find-passes (Accounts.has_id id) t.accounts a there) in
        let rows1 : t2.accounts ≡ modify (Accounts.has_id id) (Accounts.overwrite new) t.accounts =
          rows ∙ ap (λ i. modify (Accounts.has_id i) (Accounts.overwrite new) t.accounts) same in
        let row : find (Accounts.has_id id) t2.accounts ≡ some (Accounts.overwrite new a) =
          ap (find (Accounts.has_id id)) rows1
          ∙ find_rewritten (Accounts.has_id id) (Accounts.overwrite new) t.accounts (λ x k. refl)
          ∙ rw there refl in
        let blob : new.bot_token_enc ≡ enc =
          blob_kept probed (record a { bot_token_enc = enc; updated_at = e.now }) in
        rw (row, blob, opens.nonempty) opens.opened

    store_discord-Readable :
        AllOk
          (λ x. connect_token g master_key id x.1 ≡ ok bot_token)
          (store_discord e actor_id id enc probed t)
    unfolding store_discord
    store_discord-Readable =
        let Q : Account × Db → Type 0 = λ x. connect_token g master_key id x.1 ≡ ok bot_token in
        AllOk-bind (λ a. find (Accounts.has_id id) t.accounts ≡ some a) Q (Accounts.get id t) _
          (found id t)
          (λ a there.
            let new : Account =
              with_identity probed (record a { bot_token_enc = enc; updated_at = e.now }) in
            AllOk-bind
              (λ (t1 : Db).
                t1.accounts ≡ modify (Accounts.has_id new.id) (Accounts.overwrite new) t.accounts)
              Q (Accounts.update new t) _ (rewritten new t)
              (λ t1 written.
                AllOk-bind (λ (t2 : Db). t2.accounts ≡ t1.accounts) Q
                  (record_audit e 0 actor_id (bytes "account.discord_set") id t1) _
                  (same_accounts (e.audit_uuid 0) (e.audit_time 0) actor_id
                    (bytes "account.discord_set") id (e.payload 0) t1)
                  (λ t2 same. readable a t2 there (
                    same
                    ∙ written
                    ∙ ap (λ i. modify (Accounts.has_id i) (Accounts.overwrite new) t.accounts)
                        (identified probed
                          (record a { bot_token_enc = enc; updated_at = e.now }))))))

  settled :
      (db : Db) (r : Result (Account × Db))
      → AllOk (λ x. connect_token g master_key id x.1 ≡ ok bot_token) r
      → Handed g master_key id bot_token db (settle db r)
  settled db (ok (a, db')) h = h
  settled db (err c) h = refl

  prepare_discord-Opens :
      (prober : Prober) (who : Option Account) (db : Db)
      → AllOk
          (λ x. Opens g master_key bot_token x.2)
          (prepare_discord g master_key prober who id bot_token db)
  unfolding prepare_discord
  prepare_discord-Opens prober who db =
      let Q : Str × Option Identity × Str → Type 0 = λ x. Opens g master_key bot_token x.2 in
      AllOk-bind (λ u. Unit) Q (require (not (is_empty bot_token)) invalid_argument) _
        (AllOk-Unit _)
        (λ u h.
          AllOk-bind (λ a. Unit) Q (actor_of who) _ (AllOk-Unit _)
            (λ actor h.
              AllOk-bind (λ a. Unit) Q (Accounts.get id db) _ (AllOk-Unit _)
                (λ a h.
                  AllOk-bind (λ i. Unit) Q (probe prober bot_token a.name) _ (AllOk-Unit _)
                    (λ probed h.
                      AllOk-bind (Opens g master_key bot_token) Q
                        (aesgcm_encrypt g master_key bot_token) _
                        (aesgcm_encrypt-Opens g law master_key bot_token) (λ enc opens. opens)))))

-- A call of SetDiscord either fails and leaves the tables as they were, or OnlineAccount afterwards
-- reads the token that it was given, whatever the identity is that the prober answers with, where
-- Open inverts Seal, a nonce is not empty, and a read of random bytes fills its buffer.
pub set_discord-Handed :
    (g : Gcm) (law : GcmLaw g) (e : Env) (master_key : Str) (prober : Prober) (who : Option Account)
    (id bot_token : Str) (db : Db)
    → Handed g master_key id bot_token db (set_discord e g master_key prober who id bot_token db)
unfolding set_discord with_tx
set_discord-Handed g law e master_key prober who id bot_token db =
    finish (prepare_discord g master_key prober who id bot_token db)
      (prepare_discord-Opens g law master_key bot_token e [] id prober who db)
  where
    finish :
        (r : Result (Str × Option Identity × Str))
        → AllOk (λ x. Opens g master_key bot_token x.2) r
        → Handed g master_key id bot_token db
            (after r db (λ x. with_tx (store_discord e x.0 id x.2 x.1) db))
    finish (ok (actor_id, probed, enc)) opens =
        settled g law master_key bot_token e actor_id id db
          (store_discord e actor_id id enc probed db)
          (store_discord-Readable g law master_key bot_token e actor_id id enc opens probed db)
    finish (err c) h = refl
