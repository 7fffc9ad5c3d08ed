-- ===== src/Message/Owners.antt =====
-- Which accounts the bots of a message stand for: its author, and those that it mentions.
use agent_chat.Prelude.{
  ◌≡◌, ◌⊎◌, inl, inr, refl, sym, subst, ap, ◌∙◌, leb, Bool-cases, Bool, true, false, not, ◌&&◌,
  ◌||◌, Option, none, some, List, [], ◌∷◌, Str, str_eq, str_eq_refl, str_eq_sound, is_empty, find,
  find-passes, any, any-sort_by, any_found, any_of_none, All, All-map, StrMap, lookup, put,
  lookup-put, if◌then◌else◌, arith,
}
use agent_chat.Store.{Db, Account, Membership}
use agent_chat.Store.Accounts
use agent_chat.Message.{
  has_bot, account_id_or_none, resolve_author, by_bot_id, is_member, has, kept_target, resolve_loop,
  resolve_mentions,
}

-- An account with the bot and the id.
abbrev pub owns : Str → Str → List Account → Bool
owns bot_user_id account_id accounts =
    any (λ (a : Account). str_eq a.bot_user_id bot_user_id && str_eq a.id account_id) accounts

-- No account with another id has the bot.
abbrev pub alone : Str → Str → List Account → Bool
alone bot_user_id account_id accounts = not (
    any (λ (a : Account). str_eq a.bot_user_id bot_user_id && not (str_eq a.id account_id))
      accounts)

-- An account that has the bot, or "" if the bot is "" or no account has it.
abbrev pub IsAuthor : Str → Db → Str → Type 0
IsAuthor bot_user_id db x =
    ((x ≡ [])
      × ((is_empty bot_user_id
            || not (any (λ (a : Account). str_eq a.bot_user_id bot_user_id) db.accounts))
          ≡ true))
    ⊎ ((is_empty bot_user_id ≡ false) × (owns bot_user_id x db.accounts ≡ true))

abbrev by_age : Account → Account → Bool
by_age x y = leb x.created_at y.created_at

pub resolve_author-IsAuthor :
    (bot_user_id : Str) (db : Db) → IsAuthor bot_user_id db (resolve_author bot_user_id db)
unfolding resolve_author Accounts.list
resolve_author-IsAuthor bot_user_id db = elim (Bool-cases (is_empty bot_user_id)) [
  | inl blank ↦ rw blank (inl (refl, refl))
  | inr given ↦
      let found : resolve_author bot_user_id db
          ≡ account_id_or_none (find (has_bot bot_user_id) (Accounts.list db)) =
        rw given refl in
      subst (IsAuthor bot_user_id db) (sym found)
        (owner given (find (has_bot bot_user_id) (Accounts.list db)) refl)
]
  where
    owner :
        is_empty bot_user_id ≡ false
        → (o : Option Account) → find (has_bot bot_user_id) (Accounts.list db) ≡ o
        → IsAuthor bot_user_id db (account_id_or_none o)
    owner given none h = inl (
      refl,
      ground (
        arith,
        sym (any-sort_by (has_bot bot_user_id) by_age db.accounts)
            ∙ any_of_none (has_bot bot_user_id) (Accounts.list db) h,
      ),
    )
    owner given (some a) h = inr (
      given,
      sym (
            any-sort_by (λ (x : Account). str_eq x.bot_user_id bot_user_id && str_eq x.id a.id)
              by_age db.accounts)
          ∙ any_found (has_bot bot_user_id)
              (λ (x : Account). str_eq x.bot_user_id bot_user_id && str_eq x.id a.id)
              (Accounts.list db) a h
              (rw (find-passes (has_bot bot_user_id) (Accounts.list db) a h) (str_eq_refl a.id)),
    )

-- What the map holds for a bot after one account.
abbrev with_account : Account → StrMap Str → StrMap Str
with_account a m = if is_empty a.bot_user_id then m else put a.bot_user_id a.id m

lookup-with_account :
    (a : Account) (m : StrMap Str) (bid : Str)
    → lookup bid (with_account a m) ≡ (
        if not (is_empty a.bot_user_id) && str_eq a.bot_user_id bid
        then some a.id
        else lookup bid m)
lookup-with_account a m bid = elim (Bool-cases (is_empty a.bot_user_id)) [
  | inl blank ↦ rw blank refl
  | inr given ↦ rw given (lookup-put a.bot_user_id bid a.id m)
]

either :
    (c : Bool) (x y : Str) (o : Option Str)
    → (if c then some x else o) ≡ some y
    → ((c ≡ true) × (x ≡ y)) ⊎ (o ≡ some y)
either true x y o h = inl (refl, ground (arith, h))
either false x y o h = inr h

-- What the map holds for a bot is an account that has it.
by_bot_id-owns :
    (bid aid : Str) (xs : List Account) (m : StrMap Str)
    → lookup bid (by_bot_id xs m) ≡ some aid
    → (owns bid aid xs ≡ true) ⊎ (lookup bid m ≡ some aid)
unfolding by_bot_id
by_bot_id-owns bid aid [] m h = inr h
by_bot_id-owns bid aid (a ∷ xs) m h = elim (by_bot_id-owns bid aid xs (with_account a m) h) [
  | inl there ↦ inl (ground (arith, there))
  | inr here ↦
      elim (either (not (is_empty a.bot_user_id) && str_eq a.bot_user_id bid) a.id aid
        (lookup bid m) (sym (lookup-with_account a m bid) ∙ here)) [
          | inl own ↦ inl (ground (arith, own.0, ap (λ i. str_eq a.id i) own.1, str_eq_refl a.id))
          | inr before ↦ inr before
        ]
]

-- The only account that has the bot is what the map holds.
by_bot_id-alone :
    (bid aid : Str) (xs : List Account) (m : StrMap Str)
    → is_empty bid ≡ false
    → alone bid aid xs ≡ true
    → (owns bid aid xs ≡ true) ⊎ (lookup bid m ≡ some aid)
    → lookup bid (by_bot_id xs m) ≡ some aid
unfolding by_bot_id
by_bot_id-alone bid aid [] m given only (inl there) = cc
by_bot_id-alone bid aid [] m given only (inr before) = before
by_bot_id-alone bid aid (a ∷ xs) m given only h =
    by_bot_id-alone bid aid xs (with_account a m) given (ground (arith, only))
      (elim (Bool-cases (str_eq a.bot_user_id bid)) [
        | inl same ↦
            let id : str_eq a.id aid ≡ true = ground (arith, only, same) in
            let named : is_empty a.bot_user_id ≡ false =
              ap is_empty (str_eq_sound a.bot_user_id bid same) ∙ given in
            inr
              (lookup-with_account a m bid ∙ rw (named, same) (ap some (str_eq_sound a.id aid id)))
        | inr other ↦ elim h [
          | inl there ↦ inl (ground (arith, there, other))
          | inr before ↦ inr (lookup-with_account a m bid ∙ ground (arith, other, before))
        ]
      ])

-- Each account that the loop keeps is what the map holds for one of the bots.
abbrev Held : StrMap Str → List Str → Str → Type 0
Held bots bids t = (bid : Str) × (has bid bids ≡ true) × (lookup bid bots ≡ some t)

kept_target-eq_some :
    (members : List Membership) (seen : List Str) (o : Option Str) (t : Str)
    → kept_target members seen o ≡ some t
    → o ≡ some t
kept_target-eq_some members seen none t h = cc
kept_target-eq_some members seen (some x) t h = ground (arith, h)

-- One round of the loop, with what its rest makes of the accounts seen.
abbrev round : (List Str → List Str) → List Str → Option Str → List Str
round rest seen k = elim k [ none ↦ rest seen | some aid ↦ aid ∷ rest (aid ∷ seen) ]

Held-round :
    (bots : StrMap Str) (members : List Membership) (bids : List Str) (bid : Str) (seen : List Str)
    (rest : List Str → List Str)
    → ((s : List Str) → All (Held bots bids) (rest s))
    → (k : Option Str) → kept_target members seen (lookup bid bots) ≡ k
    → All (Held bots (bid ∷ bids)) (round rest seen k)
Held-round bots members bids bid seen rest h k e =
    let later : (s : List Str) → All (Held bots (bid ∷ bids)) (rest s) = λ s.
      All-map (Held bots bids) (Held bots (bid ∷ bids)) (rest s)
        (λ t x. (x.0, ground (arith, x.1), x.2)) (h s) in
    go later k e
  where
    go :
        ((s : List Str) → All (Held bots (bid ∷ bids)) (rest s))
        → (k : Option Str) → kept_target members seen (lookup bid bots) ≡ k
        → All (Held bots (bid ∷ bids)) (round rest seen k)
    go later none e = later seen
    go later (some aid) e = (
      (bid, rw (str_eq_refl bid) refl, kept_target-eq_some members seen (lookup bid bots) aid e),
      later (aid ∷ seen),
    )

resolve_loop-Held :
    (bots : StrMap Str) (members : List Membership) (bids seen : List Str)
    → All (Held bots bids) (resolve_loop bots members seen bids)
unfolding resolve_loop
resolve_loop-Held bots members [] seen = tt
resolve_loop-Held bots members (bid ∷ bids) seen =
    Held-round bots members bids bid seen (λ s. resolve_loop bots members s bids)
      (λ s. resolve_loop-Held bots members bids s) (kept_target members seen (lookup bid bots)) refl

-- What the map holds for one of the bots, if it is a member, is kept.
abbrev Kept : Str → List Str → List Str → Type 0
Kept aid seen ts = (has aid seen || has aid ts) ≡ true

Kept-round :
    (aid : Str) (rest : List Str → List Str) (seen : List Str)
    → ((s : List Str) → Kept aid s (rest s))
    → (k : Option Str) → Kept aid seen (round rest seen k)
Kept-round aid rest seen h none = h seen
Kept-round aid rest seen h (some x) = ground (arith, h (x ∷ seen))

Kept-own :
    (aid : Str) (members : List Membership) (rest : List Str → List Str) (seen : List Str)
    (found : Option Str)
    → found ≡ some aid
    → is_member aid members ≡ true
    → Kept aid seen (round rest seen (kept_target members seen found))
Kept-own aid members rest seen found e member = elim (Bool-cases (has aid seen)) [
  | inl there ↦ rw there refl
  | inr new ↦
      let own : kept_target members seen found ≡ some aid = rw (e, member, new) refl in
      subst (λ k. Kept aid seen (round rest seen k)) (sym own) (ground (arith, str_eq_refl aid))
]

resolve_loop-Kept :
    (bots : StrMap Str) (members : List Membership) (bid aid : Str) (bids seen : List Str)
    → lookup bid bots ≡ some aid
    → is_member aid members ≡ true
    → has bid bids ≡ true
    → Kept aid seen (resolve_loop bots members seen bids)
unfolding resolve_loop
resolve_loop-Kept bots members bid aid [] seen held member there = cc
resolve_loop-Kept bots members bid aid (b ∷ bids) seen held member there =
    elim (Bool-cases (str_eq b bid)) [
      | inl same ↦
          Kept-own aid members (λ s. resolve_loop bots members s bids) seen (lookup b bots)
            (ap (λ i. lookup i bots) (str_eq_sound b bid same) ∙ held) member
      | inr other ↦
          Kept-round aid (λ s. resolve_loop bots members s bids) seen
            (λ s.
              resolve_loop-Kept bots members bid aid bids s held member
                (ground (arith, there, other)))
            (kept_target members seen (lookup b bots))
    ]

-- One of the bots is the account's.
abbrev pub Called : List Str → Db → Str → Type 0
Called bids db t = (bid : Str) × (has bid bids ≡ true) × (owns bid t db.accounts ≡ true)

same_accounts : (p : Account → Bool) (db : Db) → any p (Accounts.list db) ≡ any p db.accounts
unfolding Accounts.list
same_accounts p db = any-sort_by p by_age db.accounts

-- The accounts that the mentions resolve to have one of the bots.
pub resolve_mentions-Called :
    (bids : List Str) (members : List Membership) (db : Db)
    → All (Called bids db) (resolve_mentions bids members db)
unfolding resolve_mentions
resolve_mentions-Called bids members db =
    All-map (Held (by_bot_id (Accounts.list db) []) bids) (Called bids db)
      (resolve_loop (by_bot_id (Accounts.list db) []) members [] bids)
      (λ t h. (h.0, h.1, owner h.0 t (by_bot_id-owns h.0 t (Accounts.list db) [] h.2)))
      (resolve_loop-Held (by_bot_id (Accounts.list db) []) members bids [])
  where
    owner :
        (bid t : Str)
        → (owns bid t (Accounts.list db) ≡ true) ⊎ (none ≡ some t)
        → owns bid t db.accounts ≡ true
    owner bid t (inl h) =
        sym (same_accounts (λ (a : Account). str_eq a.bot_user_id bid && str_eq a.id t) db) ∙ h
    owner bid t (inr h) = cc

-- A member that alone has one of the bots is among them.
pub resolve_mentions-has :
    (bids : List Str) (members : List Membership) (db : Db) (bid aid : Str)
    → has bid bids ≡ true
    → is_empty bid ≡ false
    → owns bid aid db.accounts ≡ true
    → alone bid aid db.accounts ≡ true
    → is_member aid members ≡ true
    → has aid (resolve_mentions bids members db) ≡ true
unfolding resolve_mentions
resolve_mentions-has bids members db bid aid there given own only member =
    resolve_loop-Kept (by_bot_id (Accounts.list db) []) members bid aid bids []
      (by_bot_id-alone bid aid (Accounts.list db) [] given
        (ap not
            (same_accounts (λ (a : Account). str_eq a.bot_user_id bid && not (str_eq a.id aid)) db)
          ∙ only)
        (inl
          (same_accounts (λ (a : Account). str_eq a.bot_user_id bid && str_eq a.id aid) db ∙ own)))
      member there
