-- ===== src/Mentions/Tests.antt =====
-- The mentions of small messages.
use agent_chat.Prelude.{◌≡◌, refl, true, false, [], ◌∷◌, Str, bytes, str_eq}
use agent_chat.Errcode.{invalid_argument}
use agent_chat.Errcode.Result.{ok, err}
use agent_chat.Mentions.{
  RoomMember, ParsedMentions, is_space, is_name_char, closes, has_body, has_target,
  raw_mention_here, has_raw_mention, split_mentions, members_by_name, resolve, rewrite_piece,
  rewrite_pieces, parse_mentions,
}
use agent_chat.Mentions.Targets.{Good, parse_mentions-Good}

abbrev bob : RoomMember
bob = record { account_id = bytes "a1"; name = bytes "bob"; bot_user_id = bytes "7" }

abbrev greeting : Str
greeting = bytes "hi @bob, @bob @amy @everyone"

parse_greeting :
    parse_mentions greeting (bob ∷ [])
    ≡ ok (record {
      rewritten_content = bytes "hi <@7>, <@7> @amy @everyone";
      bot_user_ids = bytes "7" ∷ [];
      everyone = true;
      mentioned_account_ids = bytes "a1" ∷ [];
    })
unfolding parse_mentions has_raw_mention raw_mention_here rewrite_pieces rewrite_piece resolve
    members_by_name split_mentions is_name_char str_eq
parse_greeting = refl

raw_rejected : parse_mentions (bytes "x <@!7>") (bob ∷ []) ≡ err invalid_argument
unfolding parse_mentions has_raw_mention raw_mention_here has_target has_body closes is_space
raw_rejected = refl

greeting_clean : has_raw_mention greeting ≡ false
unfolding has_raw_mention raw_mention_here
greeting_clean = refl

parse_mentions_example :
    (p : ParsedMentions) × (parse_mentions greeting (bob ∷ []) ≡ ok p) × Good (bob ∷ []) p
parse_mentions_example = parse_mentions-Good (bob ∷ []) greeting greeting_clean
