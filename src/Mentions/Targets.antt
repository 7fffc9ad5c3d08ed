-- ===== src/Mentions/Targets.antt =====
-- Whom a message may ping.
use agent_chat.Prelude.{
  ◌≡◌, ◌⊎◌, inl, inr, refl, sym, ap, ◌∙◌, Bool-cases, Bool, true, false, not, ◌&&◌, Option, none,
  some, List, [], ◌∷◌, ◌++◌, Str, bytes, str_eq, str_eq_refl, str_eq_sound, is_empty, any, any_snoc,
  All, All-append, StrMap, lookup, lookup-put, put, if◌then◌else◌, arith,
}
use agent_chat.Errcode.Result.{ok}
use agent_chat.Mentions.{
  RoomMember, ParsedMentions, Piece, byte, mention, members_by_name, has, add_once, resolve,
  rewrite_piece, rewrite_pieces, nothing_parsed, split_mentions, has_raw_mention, parse_mentions,
}

abbrev pub Distinct : List Str → Type 0
Distinct [] = Unit
Distinct (x ∷ xs) = (has x xs ≡ false) × Distinct xs

str_eq_flip : (x u : Str) → str_eq x u ≡ false → str_eq u x ≡ false
str_eq_flip x u h = elim (Bool-cases (str_eq u x)) [
  | inl same ↦ ground (arith, h, ap (λ y. str_eq x y) (str_eq_sound u x same), str_eq_refl x)
  | inr other ↦ other
]

Distinct-snoc : (u : Str) (xs : List Str) → Distinct xs → has u xs ≡ false → Distinct (xs ++ u ∷ [])
Distinct-snoc u [] d h = (refl, tt)
Distinct-snoc u (x ∷ xs) (n, d) h = (
  any_snoc (λ y. str_eq y x) xs u ∙ ground (arith, n, h, str_eq_flip x u),
  Distinct-snoc u xs d (ground (arith, h)),
)

-- The bot of a member, and a member's account.
abbrev pub OfMember : (RoomMember → Str) → List RoomMember → Str → Type 0
OfMember f members u = any (λ m. str_eq (f m) u && not (is_empty m.bot_user_id)) members ≡ true

pub record GoodIds (f : RoomMember → Str) (members : List RoomMember) (ids : List Str)
    : Type 0 where
  pub distinct : Distinct ids
  pub members_only : All (OfMember f members) ids

GoodIds-add_once :
    (f : RoomMember → Str) (members : List RoomMember) (u : Str) (ids : List Str)
    → OfMember f members u
    → GoodIds f members ids
    → GoodIds f members (add_once u ids)
GoodIds-add_once f members u ids own g = elim (Bool-cases (has u ids)) [
  | inl seen ↦ rw seen g
  | inr new ↦ rw new (record {
    distinct = Distinct-snoc u ids g.distinct new;
    members_only = All-append (OfMember f members) ids (u ∷ []) g.members_only (own, tt);
  })
]

-- What is found by name was in the list.
by_name_lem :
    (p : RoomMember → Bool) (ms : List RoomMember) (acc : StrMap RoomMember) (t : Str)
    (m : RoomMember)
    → lookup t (members_by_name ms acc) ≡ some m
    → p m ≡ true
    → (any p ms ≡ true) ⊎ (lookup t acc ≡ some m)
unfolding members_by_name
by_name_lem p [] acc t m h k = inr h
by_name_lem p (r ∷ ms) acc t m h k =
    elim (by_name_lem p ms (if is_empty r.name then acc else put r.name r acc) t m h k) [
      | inl later ↦ inl (ground (arith, later))
      | inr here ↦ elim (Bool-cases (is_empty r.name)) [
        | inl blank ↦ inr (ground (arith, blank, here))
        | inr named ↦ elim (Bool-cases (str_eq r.name t)) [
          | inl same ↦ inl (
              ground (
                arith,
                k,
                ap p (
                    of_some r m
                      (sym (lookup-put r.name t r acc ∙ rw same refl) ∙ of_name named here)),
              ))
          | inr other ↦ inr (sym (lookup-put r.name t r acc ∙ rw other refl) ∙ of_name named here)
        ]
      ]
    ]
  where
    of_name :
        is_empty r.name ≡ false
        → lookup t (if is_empty r.name then acc else put r.name r acc) ≡ some m
        → lookup t (put r.name r acc) ≡ some m
    of_name named here = sym (ap (λ b. lookup t (if b then acc else put r.name r acc)) named) ∙ here

    of_some : (x y : RoomMember) → ◌≡◌ {A = Option RoomMember} (some x) (some y) → x ≡ y
    of_some x y e = ap (λ o. elim o [ none ↦ x | some z ↦ z ]) e

module _ (members : List RoomMember) where
  -- The ids that the parse has collected are of members with a bot, each once.
  pub record Good (p : ParsedMentions) : Type 0 where
    pub bots : GoodIds (λ m. m.bot_user_id) members p.bot_user_ids
    pub accounts : GoodIds (λ m. m.account_id) members p.mentioned_account_ids

  resolve-Good :
      (token : Str) (o : Option RoomMember) (p : ParsedMentions)
      → lookup token (members_by_name members []) ≡ o
      → Good p
      → Good (resolve token o p)
  unfolding resolve
  resolve-Good token none p e g = record { bots = g.bots; accounts = g.accounts }
  resolve-Good token (some m) p e g = elim (Bool-cases (is_empty m.bot_user_id)) [
    | inl blank ↦ rw blank (record { bots = g.bots; accounts = g.accounts })
    | inr given ↦ rw given (record {
      bots =
          GoodIds-add_once (λ m. m.bot_user_id) members m.bot_user_id p.bot_user_ids
            (from (λ r. str_eq r.bot_user_id m.bot_user_id && not (is_empty r.bot_user_id))
              (rw (str_eq_refl m.bot_user_id, given) refl))
            g.bots;
      accounts =
          GoodIds-add_once (λ m. m.account_id) members m.account_id p.mentioned_account_ids
            (from (λ r. str_eq r.account_id m.account_id && not (is_empty r.bot_user_id))
              (rw (str_eq_refl m.account_id, given) refl))
            g.accounts;
    })
  ]
    where
      from : (q : RoomMember → Bool) → q m ≡ true → any q members ≡ true
      from q k = elim (by_name_lem q members [] token m e k) [
        | inl found ↦ found
        | inr no_entry ↦ cc
      ]

  rewrite_piece-Good :
      (x : Piece) (p : ParsedMentions)
      → Good p
      → Good (rewrite_piece (members_by_name members []) x p)
  unfolding rewrite_piece
  rewrite_piece-Good (byte c) p g = record { bots = g.bots; accounts = g.accounts }
  rewrite_piece-Good (mention token) p g = elim (Bool-cases (str_eq token (bytes "everyone"))) [
    | inl all ↦ rw all (record { bots = g.bots; accounts = g.accounts })
    | inr named ↦ elim (Bool-cases (str_eq token (bytes "here"))) [
      | inl here ↦ rw (named, here) (record { bots = g.bots; accounts = g.accounts })
      | inr other ↦
          rw (named, other)
            (resolve-Good token (lookup token (members_by_name members [])) p refl g)
    ]
  ]

  rewrite_pieces-Good :
      (xs : List Piece) (p : ParsedMentions)
      → Good p
      → Good (rewrite_pieces (members_by_name members []) xs p)
  unfolding rewrite_pieces
  rewrite_pieces-Good [] p g = g
  rewrite_pieces-Good (x ∷ xs) p g =
      rewrite_pieces-Good xs (rewrite_piece (members_by_name members []) x p)
        (rewrite_piece-Good x p g)

  -- A content without raw mentions is accepted, and the users that the message is allowed to ping, and
  -- the accounts that it is said to mention, are those of room members that have a bot, each once.
  pub parse_mentions-Good :
      (content : Str)
      → has_raw_mention content ≡ false
      → (p : ParsedMentions) × (parse_mentions content members ≡ ok p) × Good p
  unfolding parse_mentions
  parse_mentions-Good content clean = (
    rewrite_pieces (members_by_name members []) (split_mentions none content) nothing_parsed,
    rw clean refl,
    rewrite_pieces-Good (split_mentions none content) nothing_parsed (record {
      bots = record { distinct = tt; members_only = tt };
      accounts = record { distinct = tt; members_only = tt };
    }),
  )
