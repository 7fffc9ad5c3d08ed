-- ===== src/Auth/Token.antt =====
-- internal/auth/token.go: the wire form of a token.
use agent_chat.Prelude.{
  ℕ, ◌||◌, Option, none, some, [], ◌∷◌, ◌++◌, Str, bytes, is_empty, ◌==◌, if◌then◌else◌,
}
use agent_chat.Errcode.{auth_invalid}
use agent_chat.Errcode.Result.{Result, ok, err}

abbrev pub token_prefix : Str
token_prefix = bytes "agch_"

abbrev pub underscore : ℕ
underscore = b'_'

unfoldable pub encode_raw : Str → Str → Str
encode_raw id secret = token_prefix ++ (id ++ (bytes "_" ++ secret))

-- `strings.HasPrefix` with the slice behind the prefix.
unfoldable pub strip_prefix : Str → Str → Option Str
strip_prefix [] s = some s
strip_prefix (a ∷ p) [] = none
strip_prefix (a ∷ p) (b ∷ s) = let rest = strip_prefix p s in if a == b then rest else none

abbrev pub cons_first : ℕ → Option (Str × Str) → Option (Str × Str)
cons_first c none = none
cons_first c (some (s, t)) = some (c ∷ s, t)

-- `strings.IndexByte` with the slices around the byte.
unfoldable pub cut : ℕ → Str → Option (Str × Str)
cut c [] = none
cut c (b ∷ s) = let rest = cut c s in if b == c then some ([], s) else cons_first b rest

unfoldable pub check_parts : Option (Str × Str) → Result (Str × Str)
check_parts none = err auth_invalid
check_parts (some (id, secret)) =
    if is_empty id || is_empty secret then err auth_invalid else ok (id, secret)

unfoldable pub cut_rest : Option Str → Result (Str × Str)
unfolding cut check_parts
cut_rest none = err auth_invalid
cut_rest (some rest) = check_parts (cut underscore rest)

unfoldable pub parse_raw : Str → Result (Str × Str)
unfolding strip_prefix cut_rest
parse_raw raw = cut_rest (strip_prefix token_prefix raw)
