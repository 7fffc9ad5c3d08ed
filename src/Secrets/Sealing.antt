-- ===== src/Secrets/Sealing.antt =====
-- What is sealed can be opened again.
use agent_chat.Prelude.{
  ◌≡◌, refl, sym, ap, ◌∙◌, true, false, Option, none, some, [], ◌∷◌, ◌++◌, Str, length, take, ltb,
  is_empty, arith,
}
use agent_chat.Errcode.Result.{Result, ok, err, AllOk, AllOk-bind}
use agent_chat.Secrets.{Gcm, GcmLaw, drop, new_gcm, or_unread, aesgcm_encrypt, aesgcm_decrypt}

take-append : (s t : Str) → take (length s) (s ++ t) ≡ s
take-append [] t = refl
take-append (c ∷ s) t = ap (λ r. c ∷ r) (take-append s t)

drop-append : (s t : Str) → drop (length s) (s ++ t) ≡ t
drop-append [] t = refl
drop-append (c ∷ s) t = drop-append s t

no_shorter : (s t : Str) → ltb (length (s ++ t)) (length s) ≡ false
no_shorter [] t = ground arith
no_shorter (c ∷ s) t = ground (arith, no_shorter s t)

nonempty_append : (s t : Str) → ltb 0 (length s) ≡ true → is_empty (s ++ t) ≡ false
nonempty_append [] t h = ground (arith, h)
nonempty_append (c ∷ s) t h = refl

-- A blob that opens to the text.
pub record Opens (g : Gcm) (key plaintext blob : Str) : Type 0 where
  pub nonempty : is_empty blob ≡ false
  pub opened : aesgcm_decrypt g key blob ≡ ok plaintext

module _ (g : Gcm) (law : GcmLaw g) (key plaintext : Str) where
  opened_blob :
      (nonce : Str)
      → length nonce ≡ g.nonce_size
      → new_gcm g key ≡ ok tt
      → Opens g key plaintext (nonce ++ g.seal key nonce plaintext)
  unfolding aesgcm_decrypt
  opened_blob nonce size built =
      let blob : Str = nonce ++ g.seal key nonce plaintext in
      record {
        nonempty =
            nonempty_append nonce (g.seal key nonce plaintext) (ap (ltb 0) size ∙ law.has_nonce);
        opened =
            rw
              (
                built,
                sym size,
                no_shorter nonce (g.seal key nonce plaintext),
                take-append nonce (g.seal key nonce plaintext),
                drop-append nonce (g.seal key nonce plaintext),
                law.opens key nonce plaintext,
              )
              refl;
      }

  -- What AESGCMEncrypt returns without an error, AESGCMDecrypt turns back into the text with the same key,
  -- where Open inverts Seal, a nonce is not empty, and a read of random bytes fills its buffer.
  pub aesgcm_encrypt-Opens : AllOk (Opens g key plaintext) (aesgcm_encrypt g key plaintext)
  unfolding aesgcm_encrypt
  aesgcm_encrypt-Opens =
      AllOk-bind (λ u. new_gcm g key ≡ ok tt) (Opens g key plaintext) (new_gcm g key) _
        (self (new_gcm g key) refl)
        (λ u built.
          AllOk-bind (λ nonce. length nonce ≡ g.nonce_size) (Opens g key plaintext)
            (or_unread (g.read_random g.nonce_size)) _ (filled (g.read_random g.nonce_size) refl)
            (λ nonce size. opened_blob nonce size built))
    where
      self : (r : Result (Unit {0})) → new_gcm g key ≡ r → AllOk (λ u. new_gcm g key ≡ ok tt) r
      self (ok tt) e = e
      self (err c) e = tt

      filled :
          (r : Option Str)
          → g.read_random g.nonce_size ≡ r
          → AllOk (λ nonce. length nonce ≡ g.nonce_size) (or_unread r)
      filled none e = tt
      filled (some nonce) e = law.fills g.nonce_size nonce e
