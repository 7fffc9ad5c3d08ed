-- ===== src/Mentions.antt =====
-- internal/bot/mentions.go: the mentions in an outgoing message. The two regular expressions are
-- written out as scans over the bytes; both decide on ASCII bytes only, so a scan by bytes and one by
-- runes agree.
pub mod Targets
mod Tests
use agent_chat.Prelude.{
  ℕ, Bool, true, false, ◌||◌, not, ◌&&◌, Option, none, some, List, [], ◌∷◌, ◌++◌, Str, bytes,
  str_eq, is_empty, any, StrMap, lookup, put, leb, ◌==◌, if◌then◌else◌,
}
use agent_chat.Errcode.{invalid_argument}
use agent_chat.Errcode.Result.{Result, ok, err}

pub record RoomMember : Type 0 where
  pub account_id : Str
  pub name : Str
  pub bot_user_id : Str

pub record ParsedMentions : Type 0 where
  pub rewritten_content : Str
  pub bot_user_ids : List Str
  pub everyone : Bool
  pub mentioned_account_ids : List Str

-- \s
unfoldable pub is_space : ℕ → Bool
is_space c = c == 9 || c == 10 || c == 12 || c == 13 || c == 32

-- [a-zA-Z0-9._-]
unfoldable pub is_name_char : ℕ → Bool
is_name_char c =
    leb 97 c && leb c 122
    || leb 65 c && leb c 90
    || leb 48 c && leb c 57
    || c == 46
    || c == 95
    || c == 45

-- [^>\s]*>
unfoldable pub closes : Str → Bool
closes [] = false
closes (c ∷ s) = c == 62 || not (is_space c) && closes s

-- [^>\s]+>
unfoldable pub has_body : Str → Bool
has_body [] = false
has_body (c ∷ s) = not (c == 62) && not (is_space c) && closes s

-- [!&]?[^>\s]+>
unfoldable pub has_target : Str → Bool
has_target [] = false
has_target (c ∷ s) = (c == 33 || c == 38) && has_body s || has_body (c ∷ s)

-- <[@#][!&]?[^>\s]+> at the start, and anywhere.
unfoldable pub raw_mention_here : Str → Bool
raw_mention_here (a ∷ b ∷ s) = a == 60 && (b == 64 || b == 35) && has_target s
raw_mention_here s = false

unfoldable pub has_raw_mention : Str → Bool
has_raw_mention [] = false
has_raw_mention (c ∷ s) = raw_mention_here (c ∷ s) || has_raw_mention s

-- The matches of @[a-zA-Z0-9._-]+, without the "@", and the bytes between them.
pub data Piece : Type 0 where
  byte : ℕ → Piece
  mention : Str → Piece

-- The end of a run that began with "@".
abbrev pub end_run : Str → List Piece → List Piece
end_run [] rest = byte 64 ∷ rest
end_run (c ∷ s) rest = mention (c ∷ s) ∷ rest

unfoldable pub split_mentions : Option Str → Str → List Piece
split_mentions none [] = []
split_mentions (some token) [] = end_run token []
split_mentions none (c ∷ s) =
    let opened = split_mentions (some []) s in
    let outside = split_mentions none s in if c == 64 then opened else byte c ∷ outside
split_mentions (some token) (c ∷ s) =
    let longer = split_mentions (some (token ++ c ∷ [])) s in
    let opened = split_mentions (some []) s in
    let outside = split_mentions none s in
    if is_name_char c then longer else end_run token (if c == 64 then opened else byte c ∷ outside)

-- The members by name; a later one takes the place of an earlier one.
unfoldable pub members_by_name : List RoomMember → StrMap RoomMember → StrMap RoomMember
members_by_name [] m = m
members_by_name (r ∷ more) m = members_by_name more (if is_empty r.name then m else put r.name r m)

abbrev pub has : Str → List Str → Bool
has x xs = any (λ y. str_eq y x) xs

-- The sets of the ids that were seen hold what the lists hold.
abbrev pub add_once : Str → List Str → List Str
add_once x xs = if has x xs then xs else xs ++ x ∷ []

abbrev pub verbatim : Str → ParsedMentions → ParsedMentions
verbatim s p = record p { rewritten_content = p.rewritten_content ++ s }

unfoldable pub resolve : Str → Option RoomMember → ParsedMentions → ParsedMentions
resolve token none p = verbatim (64 ∷ token) p
resolve token (some m) p = if is_empty m.bot_user_id then verbatim (64 ∷ token) p else record p {
  rewritten_content = p.rewritten_content ++ bytes "<@" ++ m.bot_user_id ++ bytes ">";
  bot_user_ids = add_once m.bot_user_id p.bot_user_ids;
  mentioned_account_ids = add_once m.account_id p.mentioned_account_ids;
}

unfoldable pub rewrite_piece : StrMap RoomMember → Piece → ParsedMentions → ParsedMentions
rewrite_piece by_name (byte c) p = verbatim (c ∷ []) p
rewrite_piece by_name (mention token) p =
    if str_eq token (bytes "everyone")
    then verbatim (64 ∷ token) (record p { everyone = true })
    else if str_eq token (bytes "here")
    then verbatim (64 ∷ token) p
    else resolve token (lookup token by_name) p

unfoldable pub rewrite_pieces : StrMap RoomMember → List Piece → ParsedMentions → ParsedMentions
rewrite_pieces by_name [] p = p
rewrite_pieces by_name (x ∷ xs) p = rewrite_pieces by_name xs (rewrite_piece by_name x p)

abbrev pub nothing_parsed : ParsedMentions
nothing_parsed = record {
  rewritten_content = [];
  bot_user_ids = [];
  everyone = false;
  mentioned_account_ids = [];
}

unfoldable pub parse_mentions : Str → List RoomMember → Result ParsedMentions
parse_mentions content members =
    if has_raw_mention content
    then err invalid_argument
    else ok
        (rewrite_pieces (members_by_name members []) (split_mentions none content) nothing_parsed)
