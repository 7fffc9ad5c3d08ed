-- ===== src/Downloader/Queue.antt =====
-- The queue that a cycle reads: which rows it holds, and the cycle over it.
use agent_chat.Prelude.{
  ℕ, zero, suc, ◌≡◌, inl, inr, refl, ◌∙◌, Bool-cases, Bool, true, false, List, [], ◌∷◌, Str, str_eq,
  str_eq_comm, str_eq_refl, keep, take, any, any-sort_by, insert_by, sort_by, any-insert_by, All,
  All-self, All-map, All-keep, All-sort_by, All-take, arith,
}
use agent_chat.Store.{Db, Attachment}
use agent_chat.Store.Attachments
use agent_chat.Downloader.{Worker, process_once}
use agent_chat.Downloader.Cycle.{State, Known, Distinct, Visited, Others, process_rows-Visited}

insert_by-Distinct :
    (le : Attachment → Attachment → Bool) (a : Attachment) (rows : List Attachment)
    → any (Attachments.has_id a.id) rows ≡ false
    → Distinct rows
    → Distinct (insert_by le a rows)
insert_by-Distinct le a [] fresh d = (fresh, tt)
insert_by-Distinct le a (b ∷ rows) fresh (new, d) = elim (Bool-cases (le a b)) [
  | inl holds ↦ rw holds (fresh, (new, d))
  | inr fails ↦ rw fails (
    any-insert_by (Attachments.has_id b.id) le a rows
        ∙ ground (arith, new, fresh, str_eq_comm a.id b.id),
    insert_by-Distinct le a rows (ground (arith, fresh)) d,
  )
]

sort_by-Distinct :
    (le : Attachment → Attachment → Bool) (rows : List Attachment)
    → Distinct rows
    → Distinct (sort_by le rows)
sort_by-Distinct le [] d = tt
sort_by-Distinct le (a ∷ rows) (new, d) =
    insert_by-Distinct le a (sort_by le rows) (any-sort_by (Attachments.has_id a.id) le rows ∙ new)
      (sort_by-Distinct le rows d)

kept_absent :
    (p q : Attachment → Bool) (rows : List Attachment)
    → any p rows ≡ false
    → any p (keep q rows) ≡ false
kept_absent p q [] none_left = refl
kept_absent p q (a ∷ rows) none_left = elim (Bool-cases (q a)) [
  | inl holds ↦
      rw holds (ground (arith, none_left, kept_absent p q rows (ground (arith, none_left))))
  | inr fails ↦ rw fails (kept_absent p q rows (ground (arith, none_left)))
]

keep-Distinct :
    (q : Attachment → Bool) (rows : List Attachment) → Distinct rows → Distinct (keep q rows)
keep-Distinct q [] d = tt
keep-Distinct q (a ∷ rows) (new, d) = elim (Bool-cases (q a)) [
  | inl holds ↦ rw holds (kept_absent (Attachments.has_id a.id) q rows new, keep-Distinct q rows d)
  | inr fails ↦ rw fails (keep-Distinct q rows d)
]

taken_absent :
    (p : Attachment → Bool) (n : ℕ) (rows : List Attachment)
    → any p rows ≡ false
    → any p (take n rows) ≡ false
taken_absent p zero rows none_left = refl
taken_absent p (suc n) [] none_left = refl
taken_absent p (suc n) (a ∷ rows) none_left =
    ground (arith, none_left, taken_absent p n rows (ground (arith, none_left)))

take-Distinct : (n : ℕ) (rows : List Attachment) → Distinct rows → Distinct (take n rows)
take-Distinct zero rows d = tt
take-Distinct (suc n) [] d = tt
take-Distinct (suc n) (a ∷ rows) (new, d) =
    (taken_absent (Attachments.has_id a.id) n rows new, take-Distinct n rows d)

queue-Distinct :
    (n : ℕ) (db : Db) → Distinct db.attachments → Distinct (Attachments.list_pending_downloads n db)
unfolding Attachments.list_pending_downloads
queue-Distinct n db d = take-Distinct _ _ (
    sort_by-Distinct Attachments.oldest_first _
      (keep-Distinct Attachments.is_pending db.attachments d))

pub queue-Known : (n : ℕ) (s : State) → All (Known s) (Attachments.list_pending_downloads n s.1)
unfolding Attachments.list_pending_downloads
queue-Known n s =
    let here : All (Known s) s.1.attachments =
      All-map (λ a. any (λ b. str_eq b.id a.id) s.1.attachments ≡ true) (Known s) s.1.attachments
        (λ a k. k) (All-self (λ a b. str_eq b.id a.id) s.1.attachments (λ a. str_eq_refl a.id)) in
    All-take (Known s) _ _ (
      All-sort_by (Known s) Attachments.oldest_first _
        (All-keep (Known s) Attachments.is_pending s.1.attachments here))

-- A cycle that is not cancelled visits each attachment of its queue whatever the fetches of the others
-- do, where no two attachments of the table have one id. One that waits is left alone; one that is due
-- is fetched: a success forgets its failures and marks its row as downloaded, a failure counts one
-- more and leaves the row. Nothing else changes in the counts or in the rows.
pub process_once-Visited :
    (w : Worker) (cancelled : Str → Bool) (now : ℕ) (s : State)
    → ((id : Str) → cancelled id ≡ false)
    → Distinct s.1.attachments
    → All
        (λ a. Visited w now a s (process_once w cancelled now s))
        (Attachments.list_pending_downloads 50 s.1)
      × Others
          (λ id. any (Attachments.has_id id) (Attachments.list_pending_downloads 50 s.1))
          s
          (process_once w cancelled now s)
unfolding process_once
process_once-Visited w cancelled now s running d =
    process_rows-Visited w cancelled now running (Attachments.list_pending_downloads 50 s.1) s
      (queue-Distinct 50 s.1 d) (queue-Known 50 s)
