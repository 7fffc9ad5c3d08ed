-- ===== src/Api/Discord/Stored.antt =====
-- When SetDiscord succeeds.
use agent_chat.Prelude.{
  ◌≡◌, refl, ap, subst, ◌∙◌, [], ◌∷◌, ◌++◌, modify, str_eq_sound, find-passes, true, false, Option,
  none, some, Str, any, any-find, find, length, ◌==◌, is_empty, str_eq, bytes,
}
use agent_chat.Errcode.Result.{ok, then_ok}
use agent_chat.Store.{Db, Account, AuditEntry, role_valid, lifecycle_valid}
use agent_chat.Store.Accounts
use agent_chat.Store.Audit
use agent_chat.Store.Transaction.{commit}
use agent_chat.Secrets.{Gcm, GcmLaw, master_key_len, new_gcm, aesgcm_encrypt}
use agent_chat.Api.{Env, record_audit}
use agent_chat.Api.Discord.{
  Prober, Identity, probe, with_identity, set_discord, prepare_discord, store_discord,
  connect_token,
}
use agent_chat.Api.Discord.Secret.{Handed, set_discord-Handed}

-- The row that is written.
abbrev pub renewed : Env → Str → Option Identity → Account → Account
renewed e enc probed a = with_identity probed (record a { bot_token_enc = enc; updated_at = e.now })

-- What SetDiscord asks: a token, a row with the id, an answer of the prober whose name is free, a key
-- of the right length, random bytes and a fresh audit entry.
pub record Settable (e : Env) (g : Gcm) (master_key : Str) (prober : Prober) (id bot_token : Str)
    (db : Db) (a : Account) (probed : Option Identity) (nonce uuid : Str) : Type 0 where
  pub given : is_empty bot_token ≡ false
  pub row : find (Accounts.has_id id) db.accounts ≡ some a
  pub answer : probe prober bot_token a.name ≡ ok probed
  pub key_length : (length master_key == master_key_len) ≡ true
  pub takes : g.takes_key master_key ≡ true
  pub random : g.read_random g.nonce_size ≡ some nonce
  pub role : role_valid a.role ≡ true
  pub state : lifecycle_valid a.lifecycle_state ≡ true
  pub free : Accounts.name_taken (renewed e [] probed a) db ≡ false
  pub entry : e.audit_uuid 0 ≡ some uuid
  pub fresh : any (λ (x : AuditEntry). str_eq x.id uuid) db.audit_log ≡ false

updated :
    (e : Env) (enc : Str) (probed : Option Identity) (a : Account) (db : Db)
    → role_valid a.role ≡ true
    → lifecycle_valid a.lifecycle_state ≡ true
    → Accounts.name_taken (renewed e [] probed a) db ≡ false
    → any (Accounts.has_id a.id) db.accounts ≡ true
    → Accounts.update (renewed e enc probed a) db
      ≡ ok (record db {
        accounts =
            modify (Accounts.has_id a.id) (Accounts.overwrite (renewed e enc probed a)) db.accounts;
      })
unfolding Accounts.update
updated e enc none a db role state free here = rw (role, state, free, here) refl
updated e enc (some i) a db role state free here = rw (role, state, free, here) refl

module _ (e : Env) (g : Gcm) (master_key : Str) (prober : Prober) (actor : Account)
    (id bot_token : Str) (db : Db) (a : Account) (probed : Option Identity) (nonce uuid : Str)
    (h : Settable e g master_key prober id bot_token db a probed nonce uuid) where
  abbrev enc : Str
  enc = nonce ++ g.seal master_key nonce bot_token

  abbrev new : Account
  new = renewed e enc probed a

  prepared :
      prepare_discord g master_key prober (some actor) id bot_token db ≡ ok (actor.id, probed, enc)
  unfolding prepare_discord aesgcm_encrypt new_gcm Accounts.get
  prepared = rw (h.given, h.row, h.answer, h.key_length, h.takes, h.random) refl

  abbrev t1 : Db
  t1 = record db { accounts = modify (Accounts.has_id a.id) (Accounts.overwrite new) db.accounts }

  abbrev t2 : Db
  t2 = record t1 {
    audit_log =
        db.audit_log
        ++ record {
          id = uuid;
          account_id = actor.id;
          action = bytes "account.discord_set";
          target = id;
          payload = e.payload 0;
          created_at = e.audit_time 0;
        }
          ∷ [];
  }

  got : Accounts.get id db ≡ ok a
  unfolding Accounts.get
  got = rw h.row refl

  logged : record_audit e 0 actor.id (bytes "account.discord_set") id t1 ≡ ok t2
  unfolding Audit.record_via Audit.record_entry
  logged = rw (h.entry, h.fresh) refl

  here : any (Accounts.has_id a.id) db.accounts ≡ true
  here =
      ap (λ i. any (Accounts.has_id i) db.accounts)
        (str_eq_sound a.id id (find-passes (Accounts.has_id id) db.accounts a h.row))
      ∙ any-find (Accounts.has_id id) db.accounts a h.row

  stored : store_discord e actor.id id enc probed db ≡ ok (new, t2)
  unfolding store_discord
  stored = then_ok (Accounts.get id db) _ got (
      then_ok (Accounts.update new db) _ (updated e enc probed a db h.role h.state h.free here)
        (then_ok (record_audit e 0 actor.id (bytes "account.discord_set") id t1) _ logged refl))

  done : set_discord e g master_key prober (some actor) id bot_token db ≡ (ok new, t2)
  unfolding set_discord
  done = rw (prepared, commit (store_discord e actor.id id enc probed) db new t2 stored) refl

  -- SetDiscord by an authenticated account succeeds for a token that is not empty and the id of a row
  -- with a valid role and lifecycle state, when the prober answers with a name that no other row has,
  -- the key has 32 bytes and the cipher takes it, random bytes are read, and the audit entry's id is
  -- fresh. Then OnlineAccount reads that token, where Open inverts Seal, a nonce is not empty, and a
  -- read of random bytes fills its buffer.
  pub set_discord_lem :
      GcmLaw g
      → (new : Account) × (db' : Db) × (set_discord e g master_key prober
            (some actor)
            id
            bot_token
            db
          ≡ (ok new, db'))
        × (connect_token g master_key id db' ≡ ok bot_token)
  set_discord_lem law = (
    new,
    t2,
    done,
    subst (Handed g master_key id bot_token db) done
        (set_discord-Handed g law e master_key prober (some actor) id bot_token db),
  )
