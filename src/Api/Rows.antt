-- ===== src/Api/Rows.antt =====
-- The rows of a message that is there already: its states and its files.
use agent_chat.Prelude.{
  ℕ, ◌+◌, ◌≡◌, ◌≤◌, inl, inr, refl, ◌∙◌, Bool-cases, Bool, true, List, [], ◌∷◌, ◌++◌, map, length,
  Str, str_eq_refl, any, any-modify, any_snoc, modify, All, All-map, arith,
}
use agent_chat.Errcode.Result.{ok}
use agent_chat.Store.{Db, Membership, Message, MessageState, Attachment}
use agent_chat.Store.Accounts
use agent_chat.Store.Messages
use agent_chat.Store.MessageStates
use agent_chat.Store.MessageStates.{is_state, merge_read}
use agent_chat.Store.Attachments
use agent_chat.Message.Fanout.{HasAccount}
use agent_chat.Api.Post.{SendEnv, Upload, SentFile}
use agent_chat.Api.Send.{state_row, fan_out, rest, store_uploads}

abbrev pub Row : Str → Str → List MessageState → Type 0
Row id a rows = any (is_state id a) rows ≡ true

-- A state row that is written is there, and all others are still.
pub upsert_keeps :
    (s : MessageState) (db : Db)
    → any (Messages.has_id s.message_id) db.messages ≡ true
    → any (Accounts.has_id s.account_id) db.accounts ≡ true
    → (rows : List MessageState) × (MessageStates.upsert s db
        ≡ ok (record db { message_states = rows }))
      × Row s.message_id s.account_id rows
      × ((i a : Str) → Row i a db.message_states → Row i a rows)
unfolding MessageStates.upsert
upsert_keeps s db posted exists =
    elim (Bool-cases (any (is_state s.message_id s.account_id) db.message_states)) [
      | inl there ↦ (
        modify (is_state s.message_id s.account_id) (merge_read s.read_at) db.message_states,
        rw there refl,
        any-modify (is_state s.message_id s.account_id) (is_state s.message_id s.account_id)
              (merge_read s.read_at) db.message_states (λ x. refl)
            ∙ there,
        λ i a h.
            any-modify (is_state i a) (is_state s.message_id s.account_id) (merge_read s.read_at)
              db.message_states (λ x. refl)
            ∙ h,
      )
      | inr absent ↦ (
        db.message_states ++ s ∷ [],
        rw (absent, posted, exists) refl,
        any_snoc (is_state s.message_id s.account_id) db.message_states s
            ∙ rw (absent, str_eq_refl s.message_id, str_eq_refl s.account_id) refl,
        λ i a h. any_snoc (is_state i a) db.message_states s ∙ rw h refl,
      )
    ]

pub fan_out_keeps :
    (now : ℕ) (actor_id id : Str) (members : List Membership) (db : Db)
    → any (Messages.has_id id) db.messages ≡ true
    → All (HasAccount db) members
    → (rows : List MessageState) × (fan_out now actor_id id members db
        ≡ ok (record db { message_states = rows }))
      × All (λ (m : Membership). Row id m.account_id rows) members
      × ((i a : Str) → Row i a db.message_states → Row i a rows)
unfolding fan_out
fan_out_keeps now actor_id id [] db posted exist = (db.message_states, refl, tt, λ i a h. h)
fan_out_keeps now actor_id id (m ∷ members) db posted (exists, exist) =
    let (rows1, e1, here, keeps1) =
      upsert_keeps (state_row now actor_id id m.account_id) db posted exists in
    let (rows2, e2, all, keeps2) =
      fan_out_keeps now actor_id id members (record db { message_states = rows1 }) posted exist in
    (
      rows2,
      rw (e1, e2) refl,
      (keeps2 id m.account_id here, all),
      λ i a h. keeps2 i a (keeps1 i a h),
    )

ids-modify :
    (q : Attachment → Bool) (f : Attachment → Attachment) (xs : List Attachment)
    → ((x : Attachment) → (f x).id ≡ x.id)
    → map (λ (a : Attachment). a.id) (modify q f xs) ≡ map (λ (a : Attachment). a.id) xs
ids-modify q f [] h = refl
ids-modify q f (x ∷ xs) h = ground (arith, ids-modify q f xs h, h x)

abbrev pub Kept : List Attachment → Attachment → Type 0
Kept rows a = any (Attachments.has_id a.id) rows ≡ true

-- The ingester's rows of the files are patched, and no row is added.
pub patched :
    (e : SendEnv) (k : ℕ) (id : Str) (us : List Upload) (sent : List SentFile)
    (existing : List Attachment) (db : Db)
    → length us ≤ length existing
    → All (Kept db.attachments) existing
    → (rows : List Attachment) × (store_uploads e k id us sent existing db
        ≡ ok (record db { attachments = rows }))
      × (map (λ (a : Attachment). a.id) rows ≡ map (λ (a : Attachment). a.id) db.attachments)
unfolding store_uploads Attachments.mark_downloaded
patched e k id [] sent existing db enough there = (db.attachments, refl, refl)
patched e k id (u ∷ us) sent [] db enough there = absurd (omega (arith, enough))
patched e k id (u ∷ us) sent (old ∷ more) db enough (here, there) =
    let f : Attachment → Attachment = Attachments.downloaded u.path [] e.attachment_time in
    let rows1 = modify (Attachments.has_id old.id) f db.attachments in
    let kept1 : All (Kept rows1) more =
      All-map (Kept db.attachments) (Kept rows1) more
        (λ a h.
          any-modify (Attachments.has_id a.id) (Attachments.has_id old.id) f db.attachments
            (λ x. refl)
          ∙ h)
        there in
    let (rows, eq, same) =
      patched e (k + 1) id us (rest sent) more (record db { attachments = rows1 })
        (omega (arith, enough)) kept1 in
    (
      rows,
      rw (here, eq) refl,
      same ∙ ids-modify (Attachments.has_id old.id) f db.attachments (λ x. refl),
    )

pub messages-modify :
    (q : Message → Bool) (f : Message → Message) (xs : List Message)
    → ((x : Message) → (f x).id ≡ x.id)
    → map (λ (m : Message). m.id) (modify q f xs) ≡ map (λ (m : Message). m.id) xs
messages-modify q f [] h = refl
messages-modify q f (x ∷ xs) h = ground (arith, messages-modify q f xs h, h x)
