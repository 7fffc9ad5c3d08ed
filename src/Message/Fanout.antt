-- ===== src/Message/Fanout.antt =====
-- The loops of `ingestNew`: one state row per member, one row per attachment.
use agent_chat.Prelude.{
  modify, subst, ℕ, ◌+◌, ◌≡◌, ◌⊎◌, inl, inr, refl, sym, ap, ◌∙◌, Bool-cases, true, false, not, ◌&&◌,
  Option, none, some, List, [], ◌∷◌, ◌++◌, Str, str_eq, str_eq_refl, str_eq_sound, is_empty, find,
  any, All, any-find, any_of_none, find_snoc, find_unmodified, find-modify, if◌then◌else◌, arith,
}
use mathlib.Core.List.{append-nil, append_assoc}
use agent_chat.Errcode.Result.{ok}
use agent_chat.Store.{Db, Membership, MessageState, Attachment}
use agent_chat.Store.Accounts
use agent_chat.Store.Messages
use agent_chat.Store.MessageStates
use agent_chat.Store.Attachments
use agent_chat.Message.{Draws, MsgAttach, is_member, fan_out, attachment_row, index_attachments}

-- The account of a membership exists, by the foreign key.
abbrev pub HasAccount : Db → Membership → Type 0
HasAccount db m = any (Accounts.has_id m.account_id) db.accounts ≡ true

coalesce_same : (at : Option ℕ) → MessageStates.coalesce at at ≡ at
coalesce_same none = refl
coalesce_same (some x) = refl

merge_same : (s : MessageState) → MessageStates.merge_read s.read_at s ≡ s
merge_same s = ap (λ at. record s { read_at = at }) (coalesce_same s.read_at)

-- The rows of a message: what `Get` finds for an account.
abbrev pub state_of : Str → List MessageState → Str → Option MessageState
state_of message_id rows account_id = find (MessageStates.is_state message_id account_id) rows

module _ (d : Draws) (message_id author_id : Str) where
  abbrev pub row_for : Str → MessageState
  row_for account_id = record {
    message_id = message_id;
    account_id = account_id;
    read_at =
        if not (is_empty author_id) && str_eq account_id author_id then some d.read_time else none;
  }

  -- No row of the message but those that the loop writes.
  abbrev pub Clean : List MessageState → Type 0
  Clean rows =
      (a : Str)
      → (state_of message_id rows a ≡ none) ⊎ (state_of message_id rows a ≡ some (row_for a))

  -- What `rows` says of an account after the row of `a` was written over `old`.
  abbrev pub Written : Str → List MessageState → List MessageState → Str → Type 0
  Written a old rows b =
      state_of message_id rows b
      ≡ (if str_eq a b then some (row_for b) else state_of message_id old b)

  added :
      (a : Str) (old : List MessageState)
      → state_of message_id old a ≡ none
      → (b : Str) → Written a old (old ++ row_for a ∷ []) b
  added a old absent b = elim (Bool-cases (str_eq a b)) [
    | inl same ↦ subst (Written a old (old ++ row_for a ∷ [])) (str_eq_sound a b same) (
        find_snoc (MessageStates.is_state message_id a) old (row_for a)
        ∙ rw (absent, str_eq_refl message_id, str_eq_refl a) refl)
    | inr other ↦
        find_snoc (MessageStates.is_state message_id b) old (row_for a)
        ∙ ground (arith, other, str_eq_refl message_id)
  ]

  abbrev merged_rows : Str → List MessageState → List MessageState
  merged_rows a old =
      modify (MessageStates.is_state message_id a) (MessageStates.merge_read (row_for a).read_at)
        old

  other_row :
      (a b : Str) (s : MessageState)
      → str_eq a b ≡ false
      → MessageStates.is_state message_id a s ≡ true
      → MessageStates.is_state message_id b s ≡ false
  other_row a b s other h = ground (
    arith,
    h,
    other,
    λ (e : str_eq s.account_id a ≡ true). ap (λ i. str_eq i b) (str_eq_sound s.account_id a e),
  )

  merged :
      (a : Str) (old : List MessageState)
      → state_of message_id old a ≡ some (row_for a)
      → (b : Str) → Written a old (merged_rows a old) b
  merged a old present b = elim (Bool-cases (str_eq a b)) [
    | inl same ↦ subst (Written a old (merged_rows a old)) (str_eq_sound a b same) (
        find-modify (MessageStates.is_state message_id a) (MessageStates.is_state message_id a)
          (MessageStates.merge_read (row_for a).read_at) old (λ x h. refl)
        ∙ rw (present, str_eq_refl message_id, str_eq_refl a) (ap some (merge_same (row_for a))))
    | inr other ↦ rw other (
        find_unmodified (MessageStates.is_state message_id b) (MessageStates.is_state message_id a)
          (MessageStates.merge_read (row_for a).read_at) old (λ x h. other_row a b x other h)
          (λ x h. other_row a b x other h))
  ]

  pub upsert_row :
      (a : Str) (db : Db)
      → any (Messages.has_id message_id) db.messages ≡ true
      → any (Accounts.has_id a) db.accounts ≡ true
      → Clean db.message_states
      → (rows : List MessageState) × (MessageStates.upsert (row_for a) db
          ≡ ok (record db { message_states = rows }))
        × ((b : Str) → Written a db.message_states rows b)
  unfolding MessageStates.upsert
  upsert_row a db posted exists clean = elim (clean a) [
    | inl absent ↦ (
      db.message_states ++ row_for a ∷ [],
      rw (
        any_of_none (MessageStates.is_state message_id a) db.message_states absent,
        posted,
        exists,
      ),
      added a db.message_states absent,
    )
    | inr present ↦ (
      merged_rows a db.message_states,
      rw (any-find (MessageStates.is_state message_id a) db.message_states (row_for a) present),
      merged a db.message_states present,
    )
  ]

  pub Clean-Written :
      (a : Str) (old rows : List MessageState)
      → ((b : Str) → Written a old rows b)
      → Clean old
      → Clean rows
  Clean-Written a old rows w clean b = elim (Bool-cases (str_eq a b)) [
    | inl same ↦ inr (w b ∙ rw same)
    | inr other ↦ subst (λ o. (o ≡ none) ⊎ (o ≡ some (row_for b))) (sym (w b ∙ rw other)) (clean b)
  ]

  -- The loop over the members succeeds, and leaves the row of every member.
  pub fan_out_lem :
      (members : List Membership) (db : Db)
      → any (Messages.has_id message_id) db.messages ≡ true
      → All (HasAccount db) members
      → Clean db.message_states
      → (rows : List MessageState) × (fan_out d message_id author_id members db
          ≡ ok (record db { message_states = rows }))
        × ((a : Str)
            → state_of message_id rows a ≡ (
                if is_member a members
                then some (row_for a)
                else state_of message_id db.message_states a))
  unfolding fan_out
  fan_out_lem [] db posted exist clean = (db.message_states, refl, λ a. refl)
  fan_out_lem (m ∷ members) db posted (exists, exist) clean =
      let (rows1, e1, w1) = upsert_row m.account_id db posted exists clean in
      let clean1 : Clean rows1 = Clean-Written m.account_id db.message_states rows1 w1 clean in
      let (rows2, e2, w2) =
        fan_out_lem members (record db { message_states = rows1 }) posted exist clean1 in
      (rows2, rw (e1, e2), λ a. ground (arith, w2 a, w1 a))

module _ (d : Draws) (message_id : Str) where
  -- The row of an attachment that waits for its download.
  abbrev pub pending_row : ℕ → Str → MsgAttach → Attachment
  pending_row k id a = record {
    id = id;
    message_id = message_id;
    filename = a.filename;
    size = a.size;
    mime = a.mime;
    local_path = [];
    discord_url = a.url;
    downloaded_at = none;
    sha256 = [];
    created_at = d.attachment_time k;
  }

  -- From the k-th attachment on, each has a name, and its UUID is drawn and is not in use.
  abbrev pub Indexable : ℕ → List MsgAttach → List Attachment → Type 0
  Indexable k [] rows = Unit
  Indexable k (a ∷ more) rows =
      (id : Str) × (d.attachment_uuid k ≡ some id)
      × (is_empty a.filename ≡ false)
      × (any (λ (r : Attachment). str_eq r.id id) rows ≡ false)
      × Indexable (k + 1) more (rows ++ pending_row k id a ∷ [])

  -- The rows of the attachments, under the UUIDs drawn.
  abbrev pub AreRows : ℕ → List MsgAttach → List Attachment → Type 0
  AreRows k [] rows = rows ≡ []
  AreRows k (a ∷ more) rows =
      (id : Str) × (rest : List Attachment) × (d.attachment_uuid k ≡ some id)
      × (rows ≡ pending_row k id a ∷ rest)
      × AreRows (k + 1) more rest

  created :
      (k : ℕ) (id : Str) (a : MsgAttach) (db : Db)
      → is_empty message_id ≡ false
      → any (Messages.has_id message_id) db.messages ≡ true
      → is_empty a.filename ≡ false
      → any (λ (r : Attachment). str_eq r.id id) db.attachments ≡ false
      → Attachments.create (attachment_row d k id message_id a) db
        ≡ ok (record db { attachments = db.attachments ++ attachment_row d k id message_id a ∷ [] })
  unfolding Attachments.create
  created k id a db given posted named fresh = rw (given, posted, named, fresh)

  pub index_attachments_lem :
      (k : ℕ) (more : List MsgAttach) (db : Db)
      → is_empty message_id ≡ false
      → any (Messages.has_id message_id) db.messages ≡ true
      → Indexable k more db.attachments
      → (rows : List Attachment) × (index_attachments d k message_id more db
          ≡ ok (record db { attachments = db.attachments ++ rows }))
        × AreRows k more rows
  unfolding index_attachments
  index_attachments_lem k [] db given posted h =
      ([], ap (λ xs. ok (record db { attachments = xs })) (sym (append-nil db.attachments)), refl)
  index_attachments_lem k (a ∷ more) db given posted (id, uuid, named, fresh, h) =
      let row = attachment_row d k id message_id a in
      let (rows, e, are) =
        index_attachments_lem (k + 1) more (record db { attachments = db.attachments ++ row ∷ [] })
          given posted h in
      (
        row ∷ rows,
        rw (uuid, created k id a db given posted named fresh, e)
            (ap (λ xs. ok (record db { attachments = xs }))
              (append_assoc db.attachments (row ∷ []) rows)),
        (id, rows, uuid, refl, are),
      )
