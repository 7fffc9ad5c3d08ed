-- ===== src/Auth/Format.antt =====
-- The wire form of a token: `parseRaw` accepts exactly what `encodeRaw` makes.
use agent_chat.Prelude.{
  ℕ, ◌≡◌, refl, ap, ◌∙◌, ◌↔◌, false, Option, none, some, [], ◌∷◌, ◌++◌, Str, is_empty, any, ◌==◌,
  Bool-cases, inl, inr, arith,
}
use agent_chat.Errcode.Result.{ok}
use agent_chat.Auth.Token.{
  token_prefix, underscore, encode_raw, strip_prefix, cons_first, cut, check_parts, cut_rest,
  parse_raw,
}

-- The byte does not occur.
abbrev pub Avoids : ℕ → Str → Type 0
Avoids c s = any (λ b. b == c) s ≡ false

pub strip_prefix-append : (p s : Str) → strip_prefix p (p ++ s) ≡ some s
unfolding strip_prefix
strip_prefix-append [] s = refl
strip_prefix-append (a ∷ p) s = ground (arith, strip_prefix-append p s)

pub strip_prefix-eq_some : (p s rest : Str) → strip_prefix p s ≡ some rest → s ≡ p ++ rest
unfolding strip_prefix
strip_prefix-eq_some [] s rest h = ground arith
strip_prefix-eq_some (a ∷ p) [] rest h = cc
strip_prefix-eq_some (a ∷ p) (b ∷ s) rest h = ground (arith, strip_prefix-eq_some p s rest)

cut-append : (c : ℕ) (s t : Str) → Avoids c s → cut c (s ++ c ∷ t) ≡ some (s, t)
unfolding cut
cut-append c [] t h = ground arith
cut-append c (b ∷ s) t h = ground (arith, cut-append c s t)

cons_first-eq_some :
    (b : ℕ) (o : Option (Str × Str)) (u v : Str)
    → cons_first b o ≡ some (u, v)
    → (w : Str) × (u ≡ b ∷ w) × (o ≡ some (w, v))
cons_first-eq_some b none u v h = cc
cons_first-eq_some b (some (s, t)) u v h = (s, ground arith, ground arith)

cut-eq_some : (c : ℕ) (s u v : Str) → cut c s ≡ some (u, v) → (s ≡ u ++ c ∷ v) × Avoids c u
unfolding cut
cut-eq_some c [] u v h = cc
cut-eq_some c (b ∷ s) u v h = elim (Bool-cases (b == c)) [
  | inl found ↦ ground arith
  | inr other ↦
      let (w, first, tail) = cons_first-eq_some b (cut c s) u v (rw other at h) in
      ground (arith, cut-eq_some c s w v)
]

check_parts-eq_ok :
    (o : Option (Str × Str)) (id secret : Str)
    → check_parts o ≡ ok (id, secret)
    → (o ≡ some (id, secret)) × (is_empty id ≡ false) × (is_empty secret ≡ false)
unfolding check_parts
check_parts-eq_ok none id secret h = cc
check_parts-eq_ok (some (i, s)) id secret h = ground arith

encoded :
    (raw id secret : Str) (o : Option Str)
    → strip_prefix token_prefix raw ≡ o
    → cut_rest o ≡ ok (id, secret)
    → (raw ≡ encode_raw id secret)
      × (is_empty id ≡ false)
      × (is_empty secret ≡ false)
      × Avoids underscore id
unfolding cut_rest encode_raw
encoded raw id secret none p h = cc
encoded raw id secret (some rest) p h =
    let (found, i, s) = check_parts-eq_ok (cut underscore rest) id secret h in
    let (whole, clean) = cut-eq_some underscore rest id secret found in
    (strip_prefix-eq_some token_prefix raw rest p ∙ ap (λ t. token_prefix ++ t) whole, i, s, clean)

parsed :
    (id secret : Str)
    → is_empty id ≡ false
    → is_empty secret ≡ false
    → Avoids underscore id
    → parse_raw (encode_raw id secret) ≡ ok (id, secret)
unfolding parse_raw encode_raw
parsed id secret i s clean = ground (arith, cut-append underscore id secret clean)

-- Every raw token is accepted with an id and a secret exactly if it is what `encodeRaw` makes of the two, they are not empty, and
-- the id has no underscore.
pub parse_raw-encode_raw :
    (raw id secret : Str)
    → (parse_raw raw ≡ ok (id, secret))
      ↔ (raw ≡ encode_raw id secret)
        × (is_empty id ≡ false)
        × (is_empty secret ≡ false)
        × Avoids underscore id
unfolding parse_raw
parse_raw-encode_raw raw id secret = (
  encoded raw id secret (strip_prefix token_prefix raw) refl,
  (λ h. ap parse_raw h.0 ∙ parsed id secret h.1 h.2 h.3),
)
