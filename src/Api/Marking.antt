-- ===== src/Api/Marking.antt =====
-- The loop of ReadRoom over the unread messages.
use agent_chat.Prelude.{
  ℕ, ◌+◌, ◌≡◌, inl, inr, refl, ap, ◌∙◌, subst, Bool-cases, Bool, true, false, ◌&&◌, Option, none,
  some, List, [], ◌∷◌, ◌++◌, Str, str_eq, str_eq_sound, bytes, find, any, find_unmodified, modify,
  All, All-map, both_true, any-modify, find_rewritten, if◌then◌else◌, arith,
}
use mathlib.Core.Option
use agent_chat.Errcode.Result.{ok}
use agent_chat.Store.{Db, Message, MessageState, AuditEntry}
use agent_chat.Store.MessageStates
use agent_chat.Store.MessageStates.{is_state, merge_read}
use agent_chat.Store.Audit
use agent_chat.Api.{Env}
use agent_chat.Api.Read.{mark_read}

abbrev pub listed : Str → List Message → Bool
listed id ms = any (λ (m : Message). str_eq m.id id) ms

abbrev pub audit_row : Env → ℕ → Str → Str → Str → AuditEntry
audit_row e k actor_id audit_id target = record {
  id = audit_id;
  account_id = actor_id;
  action = bytes "message.read";
  target = target;
  payload = e.payload k;
  created_at = e.audit_time k;
}

-- From the k-th on, the UUIDs of the audit entries are drawn and are in no entry.
abbrev pub Auditable : Env → Str → ℕ → List Message → List AuditEntry → Type 0
Auditable e actor_id k [] log = Unit
Auditable e actor_id k (m ∷ ms) log =
    (id : Str) × (e.audit_uuid k ≡ some id)
    × (any (λ (x : AuditEntry). str_eq x.id id) log ≡ false)
    × Auditable e actor_id (k + 1) ms (log ++ audit_row e k actor_id id m.id ∷ [])

merge_twice :
    (now : ℕ) (o : Option MessageState)
    → Option.map (merge_read (some now)) (Option.map (merge_read (some now)) o)
      ≡ Option.map (merge_read (some now)) o
merge_twice now none = refl
merge_twice now (some s) = ap some (ap (λ at. record s { read_at = at }) (coalesced s.read_at))
  where
    coalesced :
        (at : Option ℕ)
        → MessageStates.coalesce (MessageStates.coalesce at (some now)) (some now)
          ≡ MessageStates.coalesce at (some now)
    coalesced none = refl
    coalesced (some t) = refl

module _ (e : Env) (actor_id : Str) where
  -- The row of an account and a message, when the messages of a list were marked.
  abbrev pub Marked : List Message → List MessageState → List MessageState → Type 0
  Marked ms old rows =
      (id b : Str)
      → find (is_state id b) rows ≡ (
          if str_eq actor_id b && listed id ms
          then Option.map (merge_read (some e.now)) (find (is_state id b) old)
          else find (is_state id b) old)

  abbrev pub HasRow : List MessageState → Message → Type 0
  HasRow rows m = any (is_state m.id actor_id) rows ≡ true

  other_row :
      (m : Message) (id b : Str) (s : MessageState)
      → (str_eq actor_id b && str_eq m.id id) ≡ false
      → is_state m.id actor_id s ≡ true
      → is_state id b s ≡ false
  other_row m id b s apart this =
      let (same_id, same_account) =
        both_true (str_eq s.message_id m.id) (str_eq s.account_id actor_id) this in
      rw (str_eq_sound s.message_id m.id same_id, str_eq_sound s.account_id actor_id same_account)
        (ground (arith, apart))

  marked_once :
      (m : Message) (old : List MessageState) (id b : Str)
      → find (is_state id b) (modify (is_state m.id actor_id) (merge_read (some e.now)) old) ≡ (
          if str_eq actor_id b && str_eq m.id id
          then Option.map (merge_read (some e.now)) (find (is_state id b) old)
          else find (is_state id b) old)
  marked_once m old id b = elim (Bool-cases (str_eq actor_id b && str_eq m.id id)) [
    | inl both ↦
        let (same_account, same_id) = both_true (str_eq actor_id b) (str_eq m.id id) both in
        rw both (
          subst
            (λ a.
              find (is_state id a) (modify (is_state m.id actor_id) (merge_read (some e.now)) old)
              ≡ Option.map (merge_read (some e.now)) (find (is_state id a) old))
            (str_eq_sound actor_id b same_account)
            (subst
              (λ i.
                find (is_state i actor_id)
                  (modify (is_state m.id actor_id) (merge_read (some e.now)) old)
                ≡ Option.map (merge_read (some e.now)) (find (is_state i actor_id) old))
              (str_eq_sound m.id id same_id)
              (find_rewritten (is_state m.id actor_id) (merge_read (some e.now)) old
                (λ s h. refl))))
    | inr apart ↦ rw apart (
        find_unmodified (is_state id b) (is_state m.id actor_id) (merge_read (some e.now)) old
          (λ s h. other_row m id b s apart h) (λ s h. other_row m id b s apart h))
  ]

  pub mark_read_lem :
      (k : ℕ) (ms : List Message) (db : Db)
      → All (HasRow db.message_states) ms
      → Auditable e actor_id k ms db.audit_log
      → (rows : List MessageState) × (log : List AuditEntry) × (mark_read e k actor_id ms db
          ≡ ok (record db { message_states = rows; audit_log = log }))
        × Marked ms db.message_states rows
  unfolding mark_read MessageStates.upsert Audit.record_via
  mark_read_lem k [] db there audit = (db.message_states, db.audit_log, refl, λ id b. ground arith)
  mark_read_lem k (m ∷ ms) db (here, there) (id, uuid, fresh, audit) =
      let rows1 = modify (is_state m.id actor_id) (merge_read (some e.now)) db.message_states in
      let db1 = record db {
        message_states = rows1;
        audit_log = db.audit_log ++ audit_row e k actor_id id m.id ∷ [];
      } in
      let there1 : All (HasRow rows1) ms =
        All-map (HasRow db.message_states) (HasRow rows1) ms
          (λ x h.
            any-modify (is_state x.id actor_id) (is_state m.id actor_id) (merge_read (some e.now))
              db.message_states (λ s. refl)
            ∙ h)
          there in
      let (rows, log, eq, marked) = mark_read_lem (k + 1) ms db1 there1 audit in
      (
        rows,
        log,
        rw (here, uuid, fresh) eq,
        λ i b.
            marked i b
            ∙ ground (
              arith,
              marked_once m db.message_states i b,
              merge_twice e.now (find (is_state i b) db.message_states),
            ),
      )
