-- ===== src/Downloader/Fetching.antt =====
-- Which fetches are accepted.
use agent_chat.Bus.Loops.{eq_of_test}
use agent_chat.Prelude.{
  ℕ, zero, suc, ◌+◌, ◌/◌, ◌≤◌, ◌<◌, ◌^◌, any, modify, str_eq, ◌≡◌, ◌⊎◌, inl, inr, refl, ap, subst,
  Bool-cases, Bool, true, false, not, ◌&&◌, Option, none, some, [], ◌∷◌, Str, is_empty, length,
  length-take, take, ltb, ◌==◌, arith,
}
use agent_chat.Errcode.{internal, unavailable, invalid_argument}
use agent_chat.Errcode.Result.{Result, ok, err, AllOk, AllOk-require, AllOk-bind}
use agent_chat.Store.{Db, Attachment}
use agent_chat.Store.Attachments
use agent_chat.Downloader.{Worker, read_limit, fetch, fetch_one, answered, safe_filename}

answered_lem : (o : Option (ℕ × Str)) → AllOk (λ r. o ≡ some r) (answered o)
answered_lem none = tt
answered_lem (some r) = refl

-- What a fetch that is accepted has seen: the whole body, of at most the size that is allowed and of
-- the size that the gateway promised, if it promised one.
pub record Whole (w : Worker) (a : Attachment) (x : Str × Str) (status : ℕ) (body : Str)
    : Type 0 where
  pub response : (w.answers a.id).response ≡ some (status, body)
  pub success : status / 100 ≡ 2
  pub bounded : length body ≤ w.max_bytes
  pub promised : (a.size ≡ 0) ⊎ (length body ≡ a.size)
  pub hash : x.1 ≡ w.hash body
  pub path : x.0 ≡ w.local_path a.message_id a.id (safe_filename w.base_name a.filename a.id)

take_all : (n : ℕ) (s : Str) → length s ≤ n → take n s ≡ s
take_all zero [] h = refl
take_all zero (c ∷ cs) h = absurd (omega (arith, h))
take_all (suc n) [] h = refl
take_all (suc n) (c ∷ cs) h = ap (λ x. c ∷ x) (take_all n cs (omega (arith, h)))

-- A body that is not cut off.
not_cut : (n : ℕ) (s : Str) → ltb n (length (take (n + 1) s)) ≡ false → length s ≤ n
not_cut n s h = ground (arith, length-take (n + 1) s, h)

kept_promise : (size n : ℕ) → not (ltb 0 size && not (n == size)) ≡ true → (size ≡ 0) ⊎ (n ≡ size)
kept_promise size n h = elim (Bool-cases (n == size)) [
  | inl same ↦ inr (eq_of_test n size same)
  | inr other ↦ inl (ground (arith, h, other))
]

passed : (b : Bool) → not b ≡ true → b ≡ false
passed b h = ground (arith, h)

abbrev pub Accepted : Worker → Attachment → Str × Str → Type 0
Accepted w a x = (status : ℕ) × (body : Str) × Whole w a x status body

module _ (w : Worker) (a : Attachment) (status : ℕ) (body : Str) where
  accepted :
      (w.answers a.id).response ≡ some (status, body)
      → (status / 100 == 2) ≡ true
      → not (ltb w.max_bytes (length (take (w.max_bytes + 1) body))) ≡ true
      → not (ltb 0 a.size && not (length (take (w.max_bytes + 1) body) == a.size)) ≡ true
      → Accepted w a (
        w.local_path a.message_id a.id (safe_filename w.base_name a.filename a.id),
        w.hash (take (w.max_bytes + 1) body),
      )
  accepted answer success small promised =
      let fits : length body ≤ w.max_bytes =
        not_cut w.max_bytes body
          (passed (ltb w.max_bytes (length (take (w.max_bytes + 1) body))) small) in
      let all : take (w.max_bytes + 1) body ≡ body =
        take_all (w.max_bytes + 1) body (omega (arith, fits)) in
      (
        status,
        body,
        record {
          response = answer;
          success = eq_of_test (status / 100) 2 success;
          bounded = fits;
          promised =
              kept_promise a.size (length body)
                (subst (λ s. not (ltb 0 a.size && not (length s == a.size)) ≡ true) all promised);
          hash = ap w.hash all;
          path = refl;
        },
      )

  -- The same with the limit that the reader is given.
  limited :
      (limit : ℕ)
      → w.max_bytes + 1 ≡ limit
      → (w.answers a.id).response ≡ some (status, body)
      → (status / 100 == 2) ≡ true
      → not (ltb w.max_bytes (length (take limit body))) ≡ true
      → not (ltb 0 a.size && not (length (take limit body) == a.size)) ≡ true
      → Accepted w a (
        w.local_path a.message_id a.id (safe_filename w.base_name a.filename a.id),
        w.hash (take limit body),
      )
  limited limit same answer success =
      subst
        (λ n.
          not (ltb w.max_bytes (length (take n body))) ≡ true
          → not (ltb 0 a.size && not (length (take n body) == a.size)) ≡ true
          → Accepted w a (
            w.local_path a.message_id a.id (safe_filename w.base_name a.filename a.id),
            w.hash (take n body),
          ))
        same (accepted answer success)

-- Below the largest int64 the limit does not wrap.
unwrapped : (n : ℕ) → n + 1 < 2 ^ 63 → n + 1 ≡ read_limit n
unfolding read_limit
unwrapped n h = ground (arith, h)

-- Where the cap is below the largest int64, a fetch that is accepted had a response with a status of the 200s, whose whole body was read: it is no longer
-- than the cap and has the promised size, if one was promised; the hash is that of the whole body.
pub fetch-Accepted :
    (w : Worker) (a : Attachment) → w.max_bytes + 1 < 2 ^ 63 → AllOk (Accepted w a) (fetch w a)
unfolding fetch
fetch-Accepted w a small_cap =
    let x = w.answers a.id in
    let Q : Str × Str → Type 0 = Accepted w a in
    AllOk-require Q (not (is_empty a.discord_url)) invalid_argument _ (λ u1.
      AllOk-require Q (not (ltb 0 w.max_bytes && ltb w.max_bytes a.size)) invalid_argument _ (λ u2.
        AllOk-require Q x.made_dir internal _ (λ u3.
          AllOk-require Q x.built_request internal _ (λ u4.
            AllOk-bind (λ r. x.response ≡ some r) Q (answered x.response) _
              (answered_lem x.response)
              (λ r answer. AllOk-require Q (r.0 / 100 == 2) unavailable _ (λ success.
                AllOk-require Q x.made_temp internal _ (λ u5.
                  AllOk-require Q (x.copied && x.synced && x.closed) internal _ (λ u6.
                    AllOk-require Q
                      (not (ltb w.max_bytes (length (take (read_limit w.max_bytes) r.1))))
                      invalid_argument _
                      (λ small.
                        AllOk-require Q
                          (not (
                            ltb 0 a.size
                            && not (length (take (read_limit w.max_bytes) r.1) == a.size)))
                          unavailable _
                          (λ promised. AllOk-require Q x.renamed internal _ (λ u7.
                            AllOk-require Q x.changed_mode internal _ (λ u8.
                              limited w a r.0 r.1 (read_limit w.max_bytes)
                                (unwrapped w.max_bytes small_cap) answer success small
                                promised))))))))))))

-- The row of the attachment, which is there, is marked with the path and the hash; all else is kept.
pub record Marked (id : Str) (x : Str × Str) (at : ℕ) (db db' : Db) : Type 0 where
  pub there : any (λ (b : Attachment). str_eq b.id id) db.attachments ≡ true
  pub rows : db' ≡ record db {
    attachments =
        modify
          (λ (b : Attachment). str_eq b.id id)
          (λ (b : Attachment). record b { local_path = x.0; sha256 = x.1; downloaded_at = some at })
          db.attachments;
  }

mark_downloaded-Marked :
    (id : Str) (x : Str × Str) (at : ℕ) (db : Db)
    → AllOk (Marked id x at db) (Attachments.mark_downloaded id x.0 x.1 at db)
unfolding Attachments.mark_downloaded
mark_downloaded-Marked id x at db = elim (Bool-cases (any (Attachments.has_id id) db.attachments)) [
  | inl there ↦ rw there (record { there = there; rows = refl })
  | inr absent ↦ rw absent tt
]

-- Where the cap is below the largest int64, a fetch that succeeds marks the row of its attachment, and
-- no other, as downloaded, with the path and the hash of the body, and changes nothing else. The
-- response had a status of the 200s and its whole body was read: it is no longer than the cap, and as
-- long as the gateway promised, if it promised a size.
pub fetch_one-Accepted :
    (w : Worker) (a : Attachment) (db : Db)
    → w.max_bytes + 1 < 2 ^ 63
    → AllOk
        (λ db'.
          (x : Str × Str) × Accepted w a x × Marked a.id x (w.answers a.id).finished_at db db')
        (fetch_one w a db)
unfolding fetch_one
fetch_one-Accepted w a db small =
    let at = (w.answers a.id).finished_at in
    let Q : Db → Type 0 = λ db'. (x : Str × Str) × Accepted w a x × Marked a.id x at db db' in
    AllOk-bind (Accepted w a) Q (fetch w a) _ (fetch-Accepted w a small) (λ x whole.
      AllOk-mono (Marked a.id x at db) Q (Attachments.mark_downloaded a.id x.0 x.1 at db)
        (λ db' marked. (x, whole, marked)) (mark_downloaded-Marked a.id x at db))
  where
    AllOk-mono :
        {B : Type 0} (P R : B → Type 0) (r : Result B)
        → ((b : B) → P b → R b)
        → AllOk P r
        → AllOk R r
    AllOk-mono P R (ok b) f h = f b h
    AllOk-mono P R (err c) f h = tt
