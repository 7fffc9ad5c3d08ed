-- ===== src/Downloader.antt =====
-- internal/attachment/downloader.go: the retries and the checks of the worker that fetches pending
-- attachments. What the file system and HTTP answer is a parameter, given per attachment id. A time of
-- the retries and a duration is in nanoseconds.
pub mod Names
pub mod Backoff
pub mod Fetching
pub mod Cycle
pub mod Queue
pub mod Drain
mod Tests
use agent_chat.Prelude.{
  ℕ, ◌+◌, ◌*◌, ◌/◌, ◌^◌, Bool, true, false, not, ◌||◌, ◌&&◌, Option, none, some, List, [], ◌∷◌,
  ◌++◌, Str, bytes, str_eq, is_empty, StrMap, lookup, put, delete, length, take, ltb, leb, ◌==◌,
  if◌then◌else◌,
}
use agent_chat.Errcode.{internal, unavailable, invalid_argument}
use agent_chat.Errcode.Result.{Result, ok, err, ◌>>=◌, ◌>>◌, require}
use agent_chat.Store.{Db, Attachment}
use agent_chat.Store.Attachments

pub record FailState : Type 0 where
  pub attempts : ℕ
  pub last_failed_at : ℕ

-- time.Second
abbrev pub second : ℕ
second = 1000000000

abbrev pub max_backoff : ℕ
max_backoff = 120 * second

unfoldable pub backoff_for : ℕ → ℕ
backoff_for attempts =
    if attempts == 0
    then 0
    else if leb 7 attempts
    then max_backoff
    else (let base = second * 2 ^ attempts in if ltb max_backoff base then max_backoff else base)

abbrev pub still_waits : ℕ → Option FailState → Bool
still_waits now none = false
still_waits now (some s) = ltb now (s.last_failed_at + backoff_for s.attempts)

unfoldable pub in_backoff : Str → ℕ → StrMap FailState → Bool
unfolding backoff_for
in_backoff id now failed = still_waits now (lookup id failed)

abbrev pub one_more : ℕ → Option FailState → FailState
one_more now none = record { attempts = 1; last_failed_at = now }
one_more now (some s) = record { attempts = s.attempts + 1; last_failed_at = now }

unfoldable pub record_failure : Str → ℕ → StrMap FailState → StrMap FailState
record_failure id now failed = put id (one_more now (lookup id failed)) failed

unfoldable pub clear_failure : Str → StrMap FailState → StrMap FailState
clear_failure id failed = delete id failed

-- [A-Za-z0-9._-]
unfoldable pub is_safe : ℕ → Bool
is_safe c =
    leb 97 c && leb c 122
    || (leb 65 c && leb c 90)
    || (leb 48 c && leb c 57)
    || c == 46
    || c == 95
    || c == 45

unfoldable pub sanitize : Str → Str
unfolding is_safe
sanitize [] = []
sanitize (c ∷ cs) = (if is_safe c then c else 95) ∷ sanitize cs

unfoldable pub strip_dots : Str → Str
strip_dots [] = []
strip_dots (c ∷ cs) = let rest = strip_dots cs in if c == 46 then rest else c ∷ cs

abbrev pub max_name : ℕ
max_name = 80

abbrev pub or_fallback : Str → Str → Str
or_fallback id [] = bytes "att-" ++ id
or_fallback id (c ∷ cs) = c ∷ cs

-- The first argument is filepath.Base.
unfoldable pub safe_filename : (Str → Str) → Str → Str → Str
unfolding sanitize strip_dots
safe_filename base_name name id =
    if is_empty name || str_eq name (bytes ".") || str_eq name (bytes "..")
    then bytes "att-" ++ id
    else or_fallback id (take max_name (strip_dots (sanitize (base_name name))))

-- The answers to one fetch: of MkdirAll, the request's construction, the client (its status and the
-- body's bytes, unless it fails), CreateTemp, the copy, the sync and the close, Rename and Chmod.
pub record Answers : Type 0 where
  pub made_dir : Bool
  pub built_request : Bool
  pub response : Option (ℕ × Str)
  pub made_temp : Bool
  pub copied : Bool
  pub synced : Bool
  pub closed : Bool
  pub renamed : Bool
  pub changed_mode : Bool
  pub finished_at : ℕ

-- filepath.Base, filepath.Join on the cache's root, the hexadecimal SHA-256, the size cap, and the
-- answers to the fetch of an attachment.
pub record Worker : Type 0 where
  pub base_name : Str → Str
  pub local_path : Str → Str → Str → Str
  pub hash : Str → Str
  pub max_bytes : ℕ
  pub answers : Str → Answers

abbrev pub answered : Option (ℕ × Str) → Result (ℕ × Str)
answered none = err unavailable
answered (some r) = ok r

-- d.maxBytes + 1 on an int64: past the largest it is negative, and io.LimitReader then reads nothing.
unfoldable pub read_limit : ℕ → ℕ
read_limit max_bytes = if ltb (max_bytes + 1) (2 ^ 63) then max_bytes + 1 else 0

-- The body as io.LimitReader cuts it off: the path and the hash of an accepted one.
unfoldable pub fetch : Worker → Attachment → Result (Str × Str)
unfolding safe_filename read_limit
fetch w a = do
  let x = w.answers a.id
  require (not (is_empty a.discord_url)) invalid_argument
  require (not (ltb 0 w.max_bytes && ltb w.max_bytes a.size)) invalid_argument
  require x.made_dir internal
  require x.built_request internal
  (status, body) ← answered x.response
  require (status / 100 == 2) unavailable
  require x.made_temp internal
  let got = take (read_limit w.max_bytes) body
  require (x.copied && x.synced && x.closed) internal
  require (not (ltb w.max_bytes (length got))) invalid_argument
  require (not (ltb 0 a.size && not (length got == a.size))) unavailable
  require x.renamed internal
  require x.changed_mode internal
  ok (w.local_path a.message_id a.id (safe_filename w.base_name a.filename a.id), w.hash got)

unfoldable pub fetch_one : Worker → Attachment → Db → Result Db
unfolding fetch
fetch_one w a db =
    fetch w a >>= λ x. Attachments.mark_downloaded a.id x.0 x.1 (w.answers a.id).finished_at db

abbrev pub settle_fetch : Str → ℕ → StrMap FailState → Db → Result Db → StrMap FailState × Db
settle_fetch id now failed db (ok db') = (clear_failure id failed, db')
settle_fetch id now failed db (err c) = (record_failure id now failed, db)

unfoldable pub visit : Worker → Attachment → ℕ → StrMap FailState × Db → StrMap FailState × Db
unfolding in_backoff fetch_one record_failure clear_failure
visit w a now (failed, db) =
    if in_backoff a.id now failed
    then (failed, db)
    else settle_fetch a.id now failed db (fetch_one w a db)

-- `cancelled` tells whether the context is done when the loop comes to an attachment.
unfoldable pub process_rows :
    Worker → (Str → Bool) → ℕ → List Attachment → StrMap FailState × Db → StrMap FailState × Db
unfolding visit
process_rows w cancelled now [] s = s
process_rows w cancelled now (a ∷ more) s =
    let rest = process_rows w cancelled now more (visit w a now s) in
    if cancelled a.id then s else rest

unfoldable pub process_once :
    Worker → (Str → Bool) → ℕ → StrMap FailState × Db → StrMap FailState × Db
unfolding process_rows
process_once w cancelled now (failed, db) =
    process_rows w cancelled now (Attachments.list_pending_downloads 50 db) (failed, db)
