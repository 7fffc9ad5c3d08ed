-- ===== src/Message/Targets.antt =====
-- The accounts that a message mentions, and their rows.
use agent_chat.Prelude.{
  ◌||◌, ◌&&◌, not, ap, subst, ◌≡◌, inl, inr, refl, ◌∙◌, Bool-cases, true, false, Option, none, some,
  List, [], ◌∷◌, ◌++◌, Str, str_eq, str_eq_refl, str_eq_sound, is_empty, any, All, any_snoc, lookup,
  StrMap, if◌then◌else◌, arith,
}
use agent_chat.Errcode.Result.{ok}
use agent_chat.Store.{Db, Membership, MentionRow}
use agent_chat.Store.Accounts
use agent_chat.Store.Messages
use agent_chat.Store.MessageMentions
use agent_chat.Message.{
  by_bot_id, is_member, has, kept_target, resolve_loop, resolve_mentions, add_mentions,
}

kept_target-member :
    (members : List Membership) (seen : List Str) (found : Option Str) (aid : Str)
    → kept_target members seen found ≡ some aid
    → (is_member aid members ≡ true) × (has aid seen ≡ false)
kept_target-member members seen none aid h = cc
kept_target-member members seen (some x) aid h = ground (arith, h)

-- No duplicates, and no account of the list.
abbrev pub Fresh : List Str → List Str → Type 0
Fresh seen [] = Unit
Fresh seen (t ∷ ts) = (has t seen ≡ false) × Fresh (t ∷ seen) ts

abbrev Good : List Membership → List Str → List Str → Type 0
Good members seen ts = All (λ t. is_member t members ≡ true) ts × Fresh seen ts

Good-kept :
    (members : List Membership) (seen : List Str) (found : Option Str) (rest : List Str → List Str)
    → ((s : List Str) → Good members s (rest s))
    → (k : Option Str) → kept_target members seen found ≡ k
    → Good members seen (elim k [ none ↦ rest seen | some aid ↦ aid ∷ rest (aid ∷ seen) ])
Good-kept members seen found rest h none e = h seen
Good-kept members seen found rest h (some aid) e =
    let (member, new) = kept_target-member members seen found aid e in
    let (all, fresh) = h (aid ∷ seen) in ((member, all), (new, fresh))

resolve_loop_lem :
    (bots : StrMap Str) (members : List Membership) (bids seen : List Str)
    → Good members seen (resolve_loop bots members seen bids)
unfolding resolve_loop
resolve_loop_lem bots members [] seen = (tt, tt)
resolve_loop_lem bots members (bid ∷ bids) seen =
    Good-kept members seen (lookup bid bots) (λ s. resolve_loop bots members s bids)
      (λ s. resolve_loop_lem bots members bids s) (kept_target members seen (lookup bid bots)) refl

module _ (message_id : Str) where
  -- The mention is stored; an empty id is passed over.
  abbrev pub Mentioned : List MentionRow → Str → Type 0
  Mentioned rows t = (is_empty t || any (MessageMentions.is_mention message_id t) rows) ≡ true

  -- The mentions of the message afterwards are those of before and those of the list.
  abbrev pub Adds : List Str → List MentionRow → List MentionRow → Str → Type 0
  Adds ts old rows s =
      any (MessageMentions.is_mention message_id s) rows
      ≡ (any (MessageMentions.is_mention message_id s) old || (not (is_empty s) && has s ts))

  same_text : (t s : Str) → str_eq t s ≡ true → is_empty t ≡ is_empty s
  same_text t s h = ap is_empty (str_eq_sound t s h)

  insert_one :
      (t : Str) (db : Db)
      → any (Messages.has_id message_id) db.messages ≡ true
      → any (Accounts.has_id t) db.accounts ≡ true
      → (rows : List MentionRow) × ((if is_empty t
            then ok db
            else MessageMentions.insert_or_ignore message_id t db)
          ≡ ok (record db { message_mentions = rows }))
        × Mentioned rows t
        × ((s : Str)
            → any (MessageMentions.is_mention message_id s) db.message_mentions ≡ true
            → any (MessageMentions.is_mention message_id s) rows ≡ true)
        × ((s : Str) → Adds (t ∷ []) db.message_mentions rows s)
  insert_one t db posted exists = elim (Bool-cases (is_empty t)) [
    | inl blank ↦ (
      db.message_mentions,
      rw blank refl,
      rw blank refl,
      λ s h. h,
      λ s. ground (arith, blank, same_text t s),
    )
    | inr full ↦
        elim (Bool-cases (any (MessageMentions.is_mention message_id t) db.message_mentions)) [
          | inl there ↦ (
            db.message_mentions,
            rw (full, there) refl,
            rw (full, there) refl,
            λ s h. h,
            λ s. ground (
              arith,
              there,
              λ (h : str_eq t s ≡ true).
                  ap (λ i. any (MessageMentions.is_mention message_id i) db.message_mentions)
                    (str_eq_sound t s h),
            ),
          )
          | inr absent ↦ (
            db.message_mentions ++ record { message_id = message_id; account_id = t } ∷ [],
            rw (full, absent, posted, exists) refl,
            rw full (
                any_snoc (MessageMentions.is_mention message_id t) db.message_mentions
                  (record { message_id = message_id; account_id = t })
                ∙ rw (absent, str_eq_refl message_id, str_eq_refl t) refl),
            λ s h.
                any_snoc (MessageMentions.is_mention message_id s) db.message_mentions
                  (record { message_id = message_id; account_id = t })
                ∙ rw h refl,
            λ s.
                any_snoc (MessageMentions.is_mention message_id s) db.message_mentions
                  (record { message_id = message_id; account_id = t })
                ∙ ground (arith, full, str_eq_refl message_id, same_text t s),
          )
        ]
  ]

  insert_all_lem :
      (ts : List Str) (db : Db)
      → any (Messages.has_id message_id) db.messages ≡ true
      → All (λ t. any (Accounts.has_id t) db.accounts ≡ true) ts
      → (rows : List MentionRow) × (MessageMentions.insert_all message_id ts db
          ≡ ok (record db { message_mentions = rows }))
        × All (Mentioned rows) ts
        × ((s : Str)
            → any (MessageMentions.is_mention message_id s) db.message_mentions ≡ true
            → any (MessageMentions.is_mention message_id s) rows ≡ true)
        × ((s : Str) → Adds ts db.message_mentions rows s)
  unfolding MessageMentions.insert_all
  insert_all_lem [] db posted exist = (db.message_mentions, refl, tt, λ s h. h, λ s. ground arith)
  insert_all_lem (t ∷ ts) db posted (exists, exist) =
      let (rows1, e1, m1, k1, x1) = insert_one t db posted exists in
      let (rows2, e2, m2, k2, x2) =
        insert_all_lem ts (record db { message_mentions = rows1 }) posted exist in
      (
        rows2,
        rw (e1, e2) refl,
        (ground (arith, m1, k2 t), m2),
        λ s h. k2 s (k1 s h),
        λ s. x2 s ∙ ground (arith, x1 s),
      )

  -- The mentions of accounts that exist are written.
  pub add_mentions_lem :
      (ts : List Str) (db : Db)
      → is_empty message_id ≡ false
      → any (Messages.has_id message_id) db.messages ≡ true
      → All (λ t. any (Accounts.has_id t) db.accounts ≡ true) ts
      → (rows : List MentionRow) × (add_mentions message_id ts db
          ≡ ok (record db { message_mentions = rows }))
        × All (Mentioned rows) ts
        × ((s : Str) → Adds ts db.message_mentions rows s)
  unfolding MessageMentions.add_for_message
  add_mentions_lem [] db given posted exist = (db.message_mentions, refl, tt, λ s. ground arith)
  add_mentions_lem (t ∷ ts) db given posted exist =
      let (rows, e, m, k, x) = insert_all_lem (t ∷ ts) db posted exist in
      (rows, rw (given, e) refl, m, x)

-- A member is an account, by the foreign key.
pub member_exists :
    (db : Db) (members : List Membership)
    → All (λ (m : Membership). any (Accounts.has_id m.account_id) db.accounts ≡ true) members
    → (t : Str) → is_member t members ≡ true
    → any (Accounts.has_id t) db.accounts ≡ true
member_exists db [] h t k = cc
member_exists db (m ∷ members) (a, h) t k = elim (Bool-cases (str_eq m.account_id t)) [
  | inl same ↦
      subst (λ x. any (Accounts.has_id x) db.accounts ≡ true) (str_eq_sound m.account_id t same) a
  | inr other ↦ member_exists db members h t (ground (arith, k, other))
]

pub resolve_mentions_lem :
    (bids : List Str) (members : List Membership) (db : Db)
    → All (λ t. is_member t members ≡ true) (resolve_mentions bids members db)
      × Fresh [] (resolve_mentions bids members db)
unfolding resolve_mentions
resolve_mentions_lem bids members db =
    resolve_loop_lem (by_bot_id (Accounts.list db) []) members bids []
