-- ===== src/Api/Discord/Tests.antt =====
-- The theorems on SetDiscord, at a cipher that copies its text and a bot with another name.
use agent_chat.Prelude.{
  ℕ, zero, suc, ◌≡◌, refl, true, some, [], ◌∷◌, Str, bytes, str_eq, length, arith,
}
use agent_chat.Errcode.Result.{ok}
use agent_chat.Store.{Db, Account, user, with_tx, role_valid, lifecycle_valid}
use agent_chat.Store.Accounts
use agent_chat.Store.Audit
use agent_chat.Secrets.{Gcm, GcmLaw, aesgcm_encrypt, new_gcm}
use agent_chat.Api.Samples.{person, ann, tables, env}
use agent_chat.Api.Discord.{Prober, set_discord, prepare_discord, store_discord, connect_token}
use agent_chat.Api.Discord.Stored.{Settable, set_discord_lem}
use agent_chat.Api.Discord.Secret.{set_discord-Handed}

abbrev zeros : ℕ → Str
zeros zero = []
zeros (suc n) = 0 ∷ zeros n

length-zeros : (n : ℕ) → length (zeros n) ≡ n
length-zeros zero = refl
length-zeros (suc n) = ground (arith, length-zeros n)

abbrev copier : Gcm
copier = record {
  takes_key = λ key. true;
  nonce_size = 12;
  seal = λ key nonce plaintext. plaintext;
  unseal = λ key nonce ciphertext. some ciphertext;
  read_random = λ n. some (zeros n);
}

copier-GcmLaw : GcmLaw copier
copier-GcmLaw = record {
  opens = λ key nonce plaintext. refl;
  has_nonce = refl;
  fills = λ n buffer e. cc (e, length-zeros n);
}

abbrev key : Str
key = zeros 32

abbrev prober : Prober
prober = some (λ token name. ok (record { user_id = bytes "77"; username = bytes "bot" }))

set_discord_example :
    connect_token copier key
      (bytes "bo")
      (set_discord env copier key prober (some ann) (bytes "bo") (bytes "t") tables).1
    ≡ ok (bytes "t")
unfolding set_discord prepare_discord store_discord with_tx aesgcm_encrypt new_gcm Accounts.get
    Accounts.update role_valid lifecycle_valid Audit.record_via Audit.record_entry str_eq
set_discord_example =
    set_discord-Handed copier copier-GcmLaw env key prober (some ann) (bytes "bo") (bytes "t")
      tables

abbrev bo : Account
bo = person (bytes "bo") user

bo-Settable :
    Settable env copier key prober
      (bytes "bo")
      (bytes "t")
      tables
      bo
      (some (record { user_id = bytes "77"; username = bytes "bot" }))
      (zeros 12)
      (0 ∷ [])
unfolding str_eq role_valid lifecycle_valid
bo-Settable = record {
  given = refl;
  row = refl;
  answer = refl;
  key_length = refl;
  takes = refl;
  random = refl;
  role = refl;
  state = refl;
  free = refl;
  entry = refl;
  fresh = refl;
}

set_discord_succeeds_example :
    (new : Account) × (db' : Db) × (set_discord env copier key prober
        (some ann)
        (bytes "bo")
        (bytes "t")
        tables
      ≡ (ok new, db'))
    × (connect_token copier key (bytes "bo") db' ≡ ok (bytes "t"))
set_discord_succeeds_example =
    set_discord_lem env copier key prober ann (bytes "bo") (bytes "t") tables bo
      (some (record { user_id = bytes "77"; username = bytes "bot" })) (zeros 12) (0 ∷ [])
      bo-Settable copier-GcmLaw
