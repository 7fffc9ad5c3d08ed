-- ===== src/Downloader/Tests.antt =====
-- The theorems on the downloader, at attachments that can and cannot be fetched.
use agent_chat.Prelude.{
  ◌+◌, ◌≡◌, ◌⊎◌, refl, arith, true, false, none, some, [], ◌∷◌, ◌++◌, Str, bytes, str_eq, All, any,
  keep, str_leb,
}
use agent_chat.Errcode.Result.{AllOk}
use agent_chat.Store.{Db, empty_db, Attachment}
use agent_chat.Store.Attachments
use agent_chat.Downloader.{
  Worker, max_backoff, safe_filename, in_backoff, record_failure, fetch_one, fetch, process_once,
}
use agent_chat.Downloader.Backoff.{retry_window}
use agent_chat.Downloader.Names.{IsSafeName, safe_filename-IsSafeName}
use agent_chat.Downloader.Fetching.{Accepted, Marked, fetch_one-Accepted}
use agent_chat.Downloader.Cycle.{Visited, Others}
use agent_chat.Downloader.Queue.{process_once-Visited}
use agent_chat.Downloader.Drain.{Ready, process_once_drains}

abbrev file : Str → Attachment
file id = record {
  id = id;
  message_id = bytes "m";
  filename = bytes "..a b";
  size = 2;
  mime = [];
  local_path = [];
  discord_url = bytes "u";
  downloaded_at = none;
  sha256 = [];
  created_at = 1;
}

abbrev worker : Worker
worker = record {
  base_name = λ s. s;
  local_path = λ m a n. n;
  hash = λ s. s;
  max_bytes = 3;
  answers = λ id. record {
    made_dir = true;
    built_request = true;
    response = some (200, id);
    made_temp = true;
    copied = true;
    synced = true;
    closed = true;
    renamed = true;
    changed_mode = true;
    finished_at = 9;
  };
}

-- The body of the second is shorter than promised.
abbrev tables : Db
tables = record empty_db { attachments = file (bytes "a1") ∷ file (bytes "b") ∷ [] }

retry_window_example :
    (in_backoff (bytes "b") 6 (record_failure (bytes "b") 5 []) ≡ true)
    × (in_backoff (bytes "b") (5 + max_backoff) (record_failure (bytes "b") 5 []) ≡ false)
retry_window_example = retry_window (bytes "b") 5 6 (5 + max_backoff) [] (omega arith) (omega arith)

safe_filename_example :
    (safe_filename (λ s. s) (bytes "..a b") (bytes "b") ≡ bytes "att-" ++ bytes "b")
    ⊎ IsSafeName (safe_filename (λ s. s) (bytes "..a b") (bytes "b"))
safe_filename_example = safe_filename-IsSafeName (λ s. s) (bytes "..a b") (bytes "b")

fetch_one_example :
    AllOk
      (λ db'.
        (x : Str × Str) × Accepted worker (file (bytes "a1")) x
        × Marked (bytes "a1") x 9 tables db')
      (fetch_one worker (file (bytes "a1")) tables)
fetch_one_example = fetch_one-Accepted worker (file (bytes "a1")) tables (omega arith)

process_once_example :
    All
      (λ a. Visited worker 5 a ([], tables) (process_once worker (λ id. false) 5 ([], tables)))
      (Attachments.list_pending_downloads 50 tables)
    × Others
        (λ id. any (Attachments.has_id id) (Attachments.list_pending_downloads 50 tables))
        ([], tables)
        (process_once worker (λ id. false) 5 ([], tables))
unfolding str_eq
process_once_example =
    process_once-Visited worker (λ id. false) 5 ([], tables) (λ id. refl) (refl, (refl, tt))

abbrev whole_tables : Db
whole_tables = record empty_db { attachments = file (bytes "a1") ∷ file (bytes "b2") ∷ [] }

whole_tables-Ready : All (Ready worker 5 []) (Attachments.list_pending_downloads 50 whole_tables)
unfolding Attachments.list_pending_downloads str_leb fetch str_eq
whole_tables-Ready = ((refl, ((_, _), refl)), ((refl, ((_, _), refl)), tt))

process_once_drains_example :
    keep Attachments.is_pending
      (process_once worker (λ id. false) 5 ([], whole_tables)).1.attachments
    ≡ []
process_once_drains_example =
    process_once_drains worker (λ id. false) 5 ([], whole_tables) (λ id. refl) refl
      whole_tables-Ready
