-- ===== src/Errcode/Status.antt =====
-- http.go and exitcode.go against each other.
use agent_chat.Prelude.{ℕ, ◌≤◌, ◌≡◌, ◌↔◌, ◌⊎◌, Option, none, some, arith}
use agent_chat.Errcode.{
  Code, GoError, plain, foreign, coded, caused, code_status, code_exit, http_status, exit_code,
}

-- What the exit code tells a script about the HTTP status.
abbrev pub Agrees : ℕ → ℕ → Type 0
Agrees status exit =
    ((status ≡ 200) ↔ (exit ≡ 0))
    × ((status ≡ 401) ↔ (10 ≤ exit) × (exit ≤ 12))
    × ((status ≡ 403) ↔ (exit ≡ 13))
    × ((status ≡ 404) ↔ (exit ≡ 20))
    × ((status ≡ 409) ⊎ (status ≡ 429) ↔ (exit ≡ 21))
    × ((status ≡ 400) ⊎ (status ≡ 413) ↔ (exit ≡ 22))
    × ((status ≡ 503) ↔ (exit ≡ 51))
    × ((status ≡ 500) ↔ (exit ≡ 1) ⊎ (exit ≡ 50))

code-Agrees : (c : Code) → Agrees (code_status c) (code_exit c)
unfolding code_status code_exit
code-Agrees Code.unspecified = grind arith
code-Agrees _ = grind arith

-- For every error, nil, unknown codes and the errors of other packages included, the HTTP status and the exit
-- code of the command line tell the same class of failure: success is 200 and 0; 401 goes with
-- 10 to 12, 403 with 13, 404 with 20, 409 or 429 with 21, 400 or 413 with 22, 503 with 51, and
-- 500 with 1 or 50.
pub http_status-exit_code-Agrees :
    {V : Type 0} (e : Option (GoError V)) → Agrees (http_status e) (exit_code e)
unfolding http_status exit_code
http_status-exit_code-Agrees none = grind arith
http_status-exit_code-Agrees (some (plain m)) = grind arith
http_status-exit_code-Agrees (some (foreign m e)) = http_status-exit_code-Agrees (some e)
http_status-exit_code-Agrees (some (coded c m d)) = code-Agrees c
http_status-exit_code-Agrees (some (caused c m d e)) = code-Agrees c
