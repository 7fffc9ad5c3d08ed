-- ===== src/Downloader/Cycle.antt =====
-- One cycle over the pending attachments.
use mathlib.Core.Option
use agent_chat.Prelude.{
  ℕ, ◌≡◌, inl, inr, refl, sym, ap, subst, ◌∙◌, Bool-cases, Bool, true, false, Option, none, some,
  List, [], ◌∷◌, Str, str_eq, str_eq_refl, str_eq_comm, str_eq_sound, lookup, lookup-put,
  lookup-delete, StrMap, find, any, any-modify, find_rewritten, find_unmodified, All, All-map,
  if◌then◌else◌, arith,
}
use agent_chat.Errcode.Result.{Result, ok, err, ◌>>=◌}
use agent_chat.Store.{Db, Attachment}
use agent_chat.Store.Attachments
use agent_chat.Downloader.{
  FailState, Worker, fetch, fetch_one, still_waits, one_more, in_backoff, record_failure,
  clear_failure, settle_fetch, visit, process_rows,
}

abbrev pub State : Type 0
State = StrMap FailState × Db

-- The count of failures, and the row, after the attempt on an attachment.
abbrev tried : ℕ → Result (Str × Str) → Option FailState → Option FailState
tried now (ok x) o = none
tried now (err c) o = some (one_more now o)

abbrev pub counted : Worker → ℕ → Attachment → Option FailState → Option FailState
counted w now a o = if still_waits now o then o else tried now (fetch w a) o

abbrev written : ℕ → Result (Str × Str) → Option Attachment → Option Attachment
written at (ok x) r = Option.map (Attachments.downloaded x.0 x.1 at) r
written at (err c) r = r

abbrev pub rewritten :
    Worker → ℕ → Attachment → Option FailState → Option Attachment → Option Attachment
rewritten w now a o r =
    if still_waits now o then r else written (w.answers a.id).finished_at (fetch w a) r

abbrev pub row_of : Str → State → Option Attachment
row_of id s = find (Attachments.has_id id) s.1.attachments

-- What a visit does for the attachment, and that it does nothing for others.
pub record Visited (w : Worker) (now : ℕ) (a : Attachment) (s s' : State) : Type 0 where
  pub count : lookup a.id s'.0 ≡ counted w now a (lookup a.id s.0)
  pub row : row_of a.id s' ≡ rewritten w now a (lookup a.id s.0) (row_of a.id s)

pub record Others (ids : Str → Bool) (s s' : State) : Type 0 where
  pub counts : (id : Str) → ids id ≡ false → lookup id s'.0 ≡ lookup id s.0
  pub rows : (id : Str) → ids id ≡ false → row_of id s' ≡ row_of id s
  pub there :
      (id : Str)
      → any (Attachments.has_id id) s'.1.attachments ≡ any (Attachments.has_id id) s.1.attachments

module _ (w : Worker) (now : ℕ) (a : Attachment) (failed : StrMap FailState) (db : Db)
    (known : any (Attachments.has_id a.id) db.attachments ≡ true) where
  abbrev end : Result (Str × Str) → State
  end r =
      settle_fetch a.id now failed db
        (r >>= λ x. Attachments.mark_downloaded a.id x.0 x.1 (w.answers a.id).finished_at db)

  ended :
      (r : Result (Str × Str))
      → (lookup a.id (end r).0 ≡ tried now r (lookup a.id failed))
        × (row_of a.id (end r) ≡ written (w.answers a.id).finished_at r (row_of a.id (failed, db)))
        × Others (λ id. str_eq a.id id) (failed, db) (end r)
  unfolding Attachments.mark_downloaded record_failure clear_failure
  ended (err c) = (
    lookup-put a.id a.id (one_more now (lookup a.id failed)) failed ∙ rw (str_eq_refl a.id) refl,
    refl,
    record {
      counts =
          λ id other. lookup-put a.id id (one_more now (lookup a.id failed)) failed ∙ rw other refl;
      rows = λ id other. refl;
      there = λ id. refl;
    },
  )
  ended (ok x) =
      let f : Attachment → Attachment =
        Attachments.downloaded x.0 x.1 (w.answers a.id).finished_at in
      rw known (
        lookup-delete a.id a.id failed ∙ rw (str_eq_refl a.id) refl,
        find_rewritten (Attachments.has_id a.id) f db.attachments (λ r k. refl),
        record {
          counts = λ id other. lookup-delete a.id id failed ∙ rw other refl;
          rows = λ id other.
              find_unmodified (Attachments.has_id id) (Attachments.has_id a.id) f db.attachments
                (λ r k. not_both r id k other) (λ r k. not_both r id k other);
          there = λ id.
              any-modify (Attachments.has_id id) (Attachments.has_id a.id) f db.attachments
                (λ r. refl);
        },
      )
    where
      not_both :
          (r : Attachment) (id : Str)
          → str_eq r.id a.id ≡ true
          → str_eq a.id id ≡ false
          → str_eq r.id id ≡ false
      not_both r id same other = ap (λ i. str_eq i id) (str_eq_sound r.id a.id same) ∙ other

  pub visit_lem :
      Visited w now a (failed, db) (visit w a now (failed, db))
      × Others (λ id. str_eq a.id id) (failed, db) (visit w a now (failed, db))
  unfolding visit in_backoff fetch_one
  visit_lem = elim (Bool-cases (still_waits now (lookup a.id failed))) [
    | inl waits ↦ rw waits (
      record { count = rw waits refl; row = rw waits refl },
      record { counts = λ id other. refl; rows = λ id other. refl; there = λ id. refl },
    )
    | inr due ↦
        let (count, row, others) = ended (fetch w a) in
        rw due (record { count = count ∙ rw due refl; row = row ∙ rw due refl }, others)
  ]

-- attachments.id
abbrev pub Distinct : List Attachment → Type 0
Distinct [] = Unit
Distinct (a ∷ more) = (any (Attachments.has_id a.id) more ≡ false) × Distinct more

abbrev pub Known : State → Attachment → Type 0
Known s a = any (Attachments.has_id a.id) s.1.attachments ≡ true

module _ (w : Worker) (cancelled : Str → Bool) (now : ℕ)
    (running : (id : Str) → cancelled id ≡ false) where
  later :
      (a : Attachment) (s s1 s' : State) (more : List Attachment)
      → Others (λ id. str_eq a.id id) s s1
      → any (Attachments.has_id a.id) more ≡ false
      → All (λ b. Visited w now b s1 s') more
      → All (λ b. Visited w now b s s') more
  later a s s1 s' [] o none_left h = tt
  later a s s1 s' (b ∷ more) o none_left (v, h) =
      let apart : str_eq a.id b.id ≡ false = str_eq_comm a.id b.id ∙ ground (arith, none_left) in
      (
        record {
          count = v.count ∙ ap (counted w now b) (o.counts b.id apart);
          row =
              v.row
              ∙ ap (λ x. rewritten w now b x (row_of b.id s1)) (o.counts b.id apart)
              ∙ ap (rewritten w now b (lookup b.id s.0)) (o.rows b.id apart);
        },
        later a s s1 s' more o (ground (arith, none_left)) h,
      )

  -- A cycle that is not cancelled, over attachments with distinct ids that are in the table, visits
  -- each of them whatever the fetches of the others do. One that waits is left alone; one that is due
  -- is fetched: a success forgets its failures and marks its row as downloaded, a failure counts one
  -- more and leaves the row. Nothing else changes in the counts or in the rows.
  pub process_rows-Visited :
      (pending : List Attachment) (s : State)
      → Distinct pending
      → All (Known s) pending
      → All (λ a. Visited w now a s (process_rows w cancelled now pending s)) pending
        × Others
            (λ id. any (Attachments.has_id id) pending)
            s
            (process_rows w cancelled now pending s)
  unfolding process_rows
  process_rows-Visited [] s d known =
      (tt, record { counts = λ id o. refl; rows = λ id o. refl; there = λ id. refl })
  process_rows-Visited (a ∷ more) s (fresh, d) (here, known) =
      let s1 : State = visit w a now s in
      let (v, o) = visit_lem w now a s.0 s.1 here in
      let known1 : All (Known s1) more =
        All-map (Known s) (Known s1) more (λ b k. o.there b.id ∙ k) known in
      let (vs, os) = process_rows-Visited more s1 d known1 in
      let same : process_rows w cancelled now (a ∷ more) s ≡ process_rows w cancelled now more s1 =
        rw (running a.id) refl in
      subst
        (λ t.
          All (λ b. Visited w now b s t) (a ∷ more)
          × Others (λ id. any (Attachments.has_id id) (a ∷ more)) s t)
        (sym same)
        (
          (
            record { count = os.counts a.id fresh ∙ v.count; row = os.rows a.id fresh ∙ v.row },
            later a s s1 (process_rows w cancelled now more s1) more o fresh vs,
          ),
          record {
            counts = λ id k. os.counts id (ground (arith, k)) ∙ o.counts id (ground (arith, k));
            rows = λ id k. os.rows id (ground (arith, k)) ∙ o.rows id (ground (arith, k));
            there = λ id. os.there id ∙ o.there id;
          },
        )
