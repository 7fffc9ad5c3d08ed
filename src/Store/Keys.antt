-- ===== src/Store/Keys.antt =====
-- The primary keys of the tables that the feeds join, and how many rows a key finds.
use agent_chat.Prelude.{
  ◌≡◌, inl, inr, sym, ap, ◌∙◌, Bool-cases, true, false, List, [], ◌∷◌, Str, str_eq, str_eq_sound,
  any, count, count_none, arith,
}
use agent_chat.Store.{Db, Message, MessageState}
use agent_chat.Store.Messages
use agent_chat.Store.MessageStates

-- messages.id
abbrev pub DistinctIds : List Message → Type 0
DistinctIds [] = Unit
DistinctIds (m ∷ ms) = (any (Messages.has_id m.id) ms ≡ false) × DistinctIds ms

-- message_states.(message_id, account_id)
abbrev pub DistinctRows : List MessageState → Type 0
DistinctRows [] = Unit
DistinctRows (s ∷ rows) =
    (any (MessageStates.is_state s.message_id s.account_id) rows ≡ false) × DistinctRows rows

pub record Keyed (db : Db) : Type 0 where
  pub message_ids : DistinctIds db.messages
  pub state_rows : DistinctRows db.message_states

-- A key that occurs finds one row.
pub count_one :
    (id : Str) (ms : List Message)
    → DistinctIds ms
    → any (Messages.has_id id) ms ≡ true
    → count (Messages.has_id id) ms ≡ 1
count_one id [] d h = cc
count_one id (m ∷ ms) (n, d) h = elim (Bool-cases (str_eq m.id id)) [
  | inl same ↦ ground (
    arith,
    same,
    count_none (Messages.has_id id) ms
        (ap (λ i. any (Messages.has_id i) ms) (sym (str_eq_sound m.id id same)) ∙ n),
  )
  | inr other ↦ ground (arith, other, h, count_one id ms d)
]
