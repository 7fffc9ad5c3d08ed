-- ===== src/Errcode/Tests.antt =====
-- The theorems on errors at concrete errors.
use agent_chat.Prelude.{ℕ, ◌≡◌, refl, ◌⊎◌, true, some, Str, bytes}
use agent_chat.Errcode.{
  not_found, conflict, GoError, foreign, coded, Error, as_go, unwrap, wrap, is_target, http_status,
  exit_code, no_details, code_status, code_exit,
}
use agent_chat.Errcode.Status.{Agrees, http_status-exit_code-Agrees}
use agent_chat.Errcode.Wrapping.{wrap_lem}

abbrev missing : GoError ℕ
missing = foreign (bytes "load: not found") (coded not_found (bytes "not found") no_details)

missing_status : (http_status (some missing) ≡ 404) × (exit_code (some missing) ≡ 20)
unfolding http_status exit_code
missing_status = (refl, refl)

http_status-exit_code-Agrees_example :
    Agrees (http_status (some missing)) (exit_code (some missing))
http_status-exit_code-Agrees_example = http_status-exit_code-Agrees (some missing)

wrap_example :
    (x : Error ℕ) × (wrap (some missing) conflict (bytes "busy") ≡ some x)
    × (http_status (some (as_go x)) ≡ code_status conflict)
    × (exit_code (some (as_go x)) ≡ code_exit conflict)
    × ((unwrap x ≡ some missing) ⊎ (as_go x ≡ missing))
    × ((y : Error ℕ) → y.code ≡ conflict → is_target x (some (as_go y)) ≡ true)
    × ((m' : Str) → wrap (some (as_go x)) conflict m' ≡ some x)
wrap_example = wrap_lem missing conflict (bytes "busy")
