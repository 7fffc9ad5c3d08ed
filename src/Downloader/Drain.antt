-- ===== src/Downloader/Drain.antt =====
-- A cycle in which every fetch succeeds.
use agent_chat.Prelude.{
  ℕ, zero, suc, ◌≡◌, inl, inr, refl, sym, ap, subst, ◌∙◌, Bool-cases, Bool, true, false, none, not,
  ◌||◌, List, [], ◌∷◌, Str, str_eq, str_eq_comm, str_eq_refl, str_eq_sound, keep, take, modify,
  length, leb, any, any-sort_by, length-sort_by, sort_by, All, All-map, StrMap, lookup, arith,
}
use agent_chat.Errcode.Result.{ok}
use agent_chat.Store.{Db, Attachment}
use agent_chat.Store.Attachments
use agent_chat.Downloader.{
  FailState, Worker, fetch, fetch_one, still_waits, in_backoff, visit, process_rows, process_once,
}
use agent_chat.Downloader.Cycle.{State, Known, visit_lem}
use agent_chat.Downloader.Queue.{queue-Known}

-- A fetch of the attachment is due, and succeeds.
abbrev pub Ready : Worker → ℕ → StrMap FailState → Attachment → Type 0
Ready w now failed a =
    (still_waits now (lookup a.id failed) ≡ false) × ((x : Str × Str) × (fetch w a ≡ ok x))

-- A row that is pending is in the queue.
abbrev Left : List Attachment → Attachment → Type 0
Left queue b = (not (Attachments.is_pending b) || any (Attachments.has_id b.id) queue) ≡ true

after_modify :
    (a : Attachment) (path hash : Str) (at : ℕ) (queue rows : List Attachment)
    → All (Left (a ∷ queue)) rows
    → All (Left queue) (modify (Attachments.has_id a.id) (Attachments.downloaded path hash at) rows)
after_modify a path hash at queue [] h = tt
after_modify a path hash at queue (b ∷ rows) (left, h) = elim (Bool-cases (str_eq b.id a.id)) [
  | inl same ↦ rw same (refl, after_modify a path hash at queue rows h)
  | inr other ↦
      rw other (
        ground (arith, left, str_eq_comm a.id b.id, other),
        after_modify a path hash at queue rows h,
      )
]

kept_present : (rows : List Attachment) → All (Left (keep Attachments.is_pending rows)) rows
kept_present [] = tt
kept_present (a ∷ rows) = elim (Bool-cases (Attachments.is_pending a)) [
  | inl holds ↦
      let kept : keep Attachments.is_pending (a ∷ rows) ≡ a ∷ keep Attachments.is_pending rows =
        rw holds refl in
      subst (λ q. All (Left q) (a ∷ rows)) (sym kept)
        (
          ground (arith, str_eq_refl a.id),
          All-map (Left (keep Attachments.is_pending rows))
              (Left (a ∷ keep Attachments.is_pending rows)) rows (λ b k. ground (arith, k))
              (kept_present rows),
        )
  | inr fails ↦
      let kept : keep Attachments.is_pending (a ∷ rows) ≡ keep Attachments.is_pending rows =
        rw fails refl in
      subst (λ q. All (Left q) (a ∷ rows)) (sym kept) (rw fails refl, kept_present rows)
]

none_pending : (rows : List Attachment) → All (Left []) rows → keep Attachments.is_pending rows ≡ []
none_pending [] h = refl
none_pending (a ∷ rows) (left, h) = elim (Bool-cases (Attachments.is_pending a)) [
  | inl holds ↦ ground (arith, left, holds)
  | inr fails ↦ rw fails (none_pending rows h)
]

take_whole : (n : ℕ) (rows : List Attachment) → leb (length rows) n ≡ true → take n rows ≡ rows
take_whole zero [] h = refl
take_whole zero (a ∷ rows) h = ground (arith, h)
take_whole (suc n) [] h = refl
take_whole (suc n) (a ∷ rows) h = ap (λ r. a ∷ r) (take_whole n rows (ground (arith, h)))

module _ (w : Worker) (now : ℕ) where
  -- The rows, and the counts of the rest of the queue, after a visit that succeeds.
  visited_rows :
      (a : Attachment) (failed : StrMap FailState) (db : Db) (x : Str × Str)
      → still_waits now (lookup a.id failed) ≡ false
      → fetch w a ≡ ok x
      → Known (failed, db) a
      → (visit w a now (failed, db)).1.attachments
        ≡ modify
            (Attachments.has_id a.id)
            (Attachments.downloaded x.0 x.1 (w.answers a.id).finished_at)
            db.attachments
  unfolding visit in_backoff fetch_one Attachments.mark_downloaded
  visited_rows a failed db x due fetched known = rw (due, fetched, known) refl

  visit-Ready :
      (a b : Attachment) (s : State)
      → Known s a
      → Ready w now s.0 a
      → Ready w now s.0 b
      → Ready w now (visit w a now s).0 b
  visit-Ready a b s known (due, (x, fetched)) (due_b, got) =
      let (v, o) = visit_lem w now a s.0 s.1 known in
      (
        elim (Bool-cases (str_eq a.id b.id)) [
          | inl same ↦
              let gone : lookup a.id (visit w a now s).0 ≡ none =
                v.count ∙ rw (due, fetched) refl in
              ap (λ i. still_waits now (lookup i (visit w a now s).0))
                (sym (str_eq_sound a.id b.id same))
              ∙ rw gone refl
          | inr apart ↦ ap (still_waits now) (o.counts b.id apart) ∙ due_b
        ],
        got,
      )

  module _ (cancelled : Str → Bool) (running : (id : Str) → cancelled id ≡ false) where
    process_rows-Left :
        (queue : List Attachment) (s : State)
        → All (Known s) queue
        → All (Ready w now s.0) queue
        → All (Left queue) s.1.attachments
        → All (Left []) (process_rows w cancelled now queue s).1.attachments
    unfolding process_rows
    process_rows-Left [] s known ready left = left
    process_rows-Left (a ∷ queue) s (here, known) ((due, (x, fetched)), ready) left =
        let s1 : State = visit w a now s in
        let (v, o) = visit_lem w now a s.0 s.1 here in
        let known1 : All (Known s1) queue =
          All-map (Known s) (Known s1) queue (λ b k. o.there b.id ∙ k) known in
        let ready1 : All (Ready w now s1.0) queue =
          All-map (Ready w now s.0) (Ready w now s1.0) queue
            (λ b r. visit-Ready a b s here (due, (x, fetched)) r) ready in
        let left1 : All (Left queue) s1.1.attachments =
          subst (All (Left queue)) (sym (visited_rows a s.0 s.1 x due fetched here))
            (after_modify a x.0 x.1 (w.answers a.id).finished_at queue s.1.attachments left) in
        let same : process_rows w cancelled now (a ∷ queue) s
            ≡ process_rows w cancelled now queue s1 =
          rw (running a.id) refl in
        subst (λ t. All (Left []) t.1.attachments) (sym same)
          (process_rows-Left queue s1 known1 ready1 left1)

queue-Left :
    (db : Db)
    → leb (length (keep Attachments.is_pending db.attachments)) 50 ≡ true
    → All (Left (Attachments.list_pending_downloads 50 db)) db.attachments
unfolding Attachments.list_pending_downloads
queue-Left db few =
    let sorted : List Attachment =
      sort_by Attachments.oldest_first (keep Attachments.is_pending db.attachments) in
    let whole : take 50 sorted ≡ sorted = take_whole 50 sorted (
      rw (length-sort_by Attachments.oldest_first (keep Attachments.is_pending db.attachments))
        few) in
    subst (λ q. All (Left q) db.attachments) (sym whole)
      (All-map (Left (keep Attachments.is_pending db.attachments)) (Left sorted) db.attachments
        (λ b k.
          ap (λ c. not (Attachments.is_pending b) || c)
            (any-sort_by (Attachments.has_id b.id) Attachments.oldest_first _)
          ∙ k)
        (kept_present db.attachments))

-- A cycle that is not cancelled leaves no attachment pending when at most 50 are, none of them waits,
-- and all their fetches succeed.
pub process_once_drains :
    (w : Worker) (cancelled : Str → Bool) (now : ℕ) (s : State)
    → ((id : Str) → cancelled id ≡ false)
    → leb (length (keep Attachments.is_pending s.1.attachments)) 50 ≡ true
    → All (Ready w now s.0) (Attachments.list_pending_downloads 50 s.1)
    → keep Attachments.is_pending (process_once w cancelled now s).1.attachments ≡ []
unfolding process_once
process_once_drains w cancelled now s running few ready =
    let queue : List Attachment = Attachments.list_pending_downloads 50 s.1 in
    none_pending _ (
      process_rows-Left w now cancelled running queue s (queue-Known 50 s) ready
        (queue-Left s.1 few))
