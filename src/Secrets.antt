-- ===== src/Secrets.antt =====
-- internal/crypto/aesgcm.go. A GCM of the standard library is a parameter.
pub mod Sealing
use agent_chat.Prelude.{
  ℕ, zero, suc, Bool, not, ◌≡◌, true, Option, none, some, List, [], ◌∷◌, ◌++◌, Str, length, take,
  ltb, ◌==◌,
}
use agent_chat.Errcode.{internal, invalid_argument, auth_invalid}
use agent_chat.Errcode.Result.{Result, ok, err, ◌>>=◌, ◌>>◌, require}

-- Whether aes.NewCipher and cipher.NewGCM take the key; NonceSize; Seal and Open (`unseal`) with a key, a nonce
-- and no additional data; and rand.Read for so many bytes.
pub record Gcm : Type 0 where
  pub takes_key : Str → Bool
  pub nonce_size : ℕ
  pub seal : Str → Str → Str → Str
  pub unseal : Str → Str → Str → Option Str
  pub read_random : ℕ → Option Str

-- cipher.AEAD and crypto/rand: Open inverts Seal, a nonce has at least one byte, and a read fills its buffer.
pub record GcmLaw (g : Gcm) : Type 0 where
  pub opens :
      (key nonce plaintext : Str) → g.unseal key nonce (g.seal key nonce plaintext) ≡ some plaintext
  pub has_nonce : ltb 0 g.nonce_size ≡ true
  pub fills : (n : ℕ) (buffer : Str) → g.read_random n ≡ some buffer → length buffer ≡ n

abbrev pub master_key_len : ℕ
master_key_len = 32

-- The slice from an index on, within the length.
abbrev pub drop : ℕ → Str → Str
drop zero s = s
drop (suc n) [] = []
drop (suc n) (c ∷ s) = drop n s

unfoldable pub new_gcm : Gcm → Str → Result (Unit {0})
new_gcm g key = do
  require (length key == master_key_len) invalid_argument
  require (g.takes_key key) internal

abbrev pub or_unread : Option Str → Result Str
or_unread none = err internal
or_unread (some nonce) = ok nonce

abbrev pub or_tampered : Option Str → Result Str
or_tampered none = err auth_invalid
or_tampered (some plaintext) = ok plaintext

unfoldable pub aesgcm_encrypt : Gcm → Str → Str → Result Str
unfolding new_gcm
aesgcm_encrypt g key plaintext = do
  u ← new_gcm g key
  nonce ← or_unread (g.read_random g.nonce_size)
  ok (nonce ++ g.seal key nonce plaintext)

unfoldable pub aesgcm_decrypt : Gcm → Str → Str → Result Str
unfolding new_gcm
aesgcm_decrypt g key encrypted = do
  u ← new_gcm g key
  require (not (ltb (length encrypted) g.nonce_size)) invalid_argument
  or_tampered (g.unseal key (take g.nonce_size encrypted) (drop g.nonce_size encrypted))
