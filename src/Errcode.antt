-- ===== src/Errcode.antt =====
-- internal/errcode: the error codes, the structured error, and the maps to HTTP statuses and to
-- exit codes. A Go `error` is `Option GoError`, `none` for nil. Of an error that another package
-- made, `plain` has no `Unwrap` method and `foreign` wraps one error (`fmt.Errorf` with `%w`).
-- A message is the text that `fmt.Sprintf` made, an argument here.
pub mod Result
pub mod Status
pub mod Wrapping
mod Tests
use agent_chat.Prelude.{
  ℕ, ◌≡◌, Bool, true, false, Option, none, some, Str, bytes, str_eq, if◌then◌else◌,
}

-- `other_code` is any string that is none of the constants: the client makes a code of whatever the
-- daemon answers.
pub data Code : Type 0 where
  unspecified : Code
  auth_missing auth_invalid auth_revoked perm_denied : Code
  not_found conflict invalid_argument : Code
  internal unavailable : Code
  attachment_too_large payload_too_large resource_exhausted : Code
  other_code : Str → Code

-- The string that the constant stands for.
unfoldable pub code_text : Code → Str
code_text unspecified = bytes ""
code_text auth_missing = bytes "AUTH_MISSING"
code_text auth_invalid = bytes "AUTH_INVALID"
code_text auth_revoked = bytes "AUTH_REVOKED"
code_text perm_denied = bytes "PERM_DENIED"
code_text not_found = bytes "NOT_FOUND"
code_text conflict = bytes "CONFLICT"
code_text invalid_argument = bytes "INVALID_ARGUMENT"
code_text internal = bytes "INTERNAL"
code_text unavailable = bytes "UNAVAILABLE"
code_text attachment_too_large = bytes "ATTACHMENT_TOO_LARGE"
code_text payload_too_large = bytes "PAYLOAD_TOO_LARGE"
code_text resource_exhausted = bytes "RESOURCE_EXHAUSTED"
code_text (other_code s) = s

-- `==` on codes compares the strings.
unfoldable pub code_eq : Code → Code → Bool
unfolding code_text str_eq
code_eq (other_code s) (other_code t) = str_eq s t
code_eq (other_code s) d = false
code_eq c (other_code t) = false
code_eq c d = str_eq (code_text c) (code_text d)

-- `V` is the type of the values in `Details` (`any` in the source).
pub data GoError (V : Type 0) : Type 0 where
  plain : Str → GoError V
  foreign : Str → GoError V → GoError V
  coded : Code → Str → (Str → Option V) → GoError V
  caused : Code → Str → (Str → Option V) → GoError V → GoError V

-- A non-nil *Error.
pub record Error (V : Type 0) : Type 0 where
  pub code : Code
  pub message : Str
  pub details : Str → Option V
  pub cause : Option (GoError V)

module _ {V : Type 0} where
  -- The *Error as a value of the interface type `error`.
  unfoldable pub as_go : Error V → GoError V
  as_go e = elim e.cause [
    | none ↦ coded e.code e.message e.details
    | some c ↦ caused e.code e.message e.details c
  ]

  abbrev pub no_details : Str → Option V
  no_details k = none

  unfoldable pub new : Code → Str → Error V
  new code message = record { code = code; message = message; details = no_details; cause = none }

  -- `errors.As` takes the first *Error of the chain.
  unfoldable pub as_error : GoError V → Option (Error V)
  as_error (plain m) = none
  as_error (foreign m e) = as_error e
  as_error (coded c m d) = some (record { code = c; message = m; details = d; cause = none })
  as_error (caused c m d e) = some (record { code = c; message = m; details = d; cause = some e })

  -- `Unwrap` of the *Error.
  unfoldable pub unwrap : Error V → Option (GoError V)
  unwrap e = e.cause

  -- The type assertion `cause.(*Error)` looks at the outermost error only.
  unfoldable pub assert_error : GoError V → Option (Error V)
  assert_error (plain m) = none
  assert_error (foreign m e) = none
  assert_error (coded c m d) = some (record { code = c; message = m; details = d; cause = none })
  assert_error (caused c m d e) =
      some (record { code = c; message = m; details = d; cause = some e })

  wrap_new : GoError V → Code → Str → Error V
  wrap_new cause code message = record {
    code = code;
    message = message;
    details = no_details;
    cause = some cause;
  }

  wrap_found : Option (Error V) → GoError V → Code → Str → Error V
  unfolding wrap_new code_eq
  wrap_found none cause code message = wrap_new cause code message
  wrap_found (some existing) cause code message =
      if code_eq existing.code code then existing else wrap_new cause code message

  unfoldable pub wrap : Option (GoError V) → Code → Str → Option (Error V)
  unfolding wrap_found assert_error
  wrap none code message = none
  wrap (some cause) code message = some (wrap_found (assert_error cause) cause code message)

  -- `Is` of a non-nil *Error.
  unfoldable pub is_target : Error V → Option (GoError V) → Bool
  unfolding as_error code_eq
  is_target e none = false
  is_target e (some target) = elim (as_error target) [
    | none ↦ false
    | some t ↦ code_eq e.code t.code
  ]

  -- Both loops over the maps, the second over the first.
  unfoldable pub with_details : Error V → (Str → Option V) → Error V
  with_details e kvs = record e {
    details = λ k. elim (kvs k) [ none ↦ e.details k | some v ↦ some v ];
  }

-- http.go: the `switch`; the last clause is its `default`.
unfoldable pub code_status : Code → ℕ
code_status auth_missing = 401
code_status auth_invalid = 401
code_status auth_revoked = 401
code_status perm_denied = 403
code_status not_found = 404
code_status conflict = 409
code_status invalid_argument = 400
code_status attachment_too_large = 413
code_status payload_too_large = 413
code_status resource_exhausted = 429
code_status unavailable = 503
code_status internal = 500
code_status unspecified = 500
code_status (other_code s) = 500

-- exitcode.go: the `switch`; its `default` takes the last two clauses.
unfoldable pub code_exit : Code → ℕ
code_exit auth_missing = 10
code_exit auth_invalid = 11
code_exit auth_revoked = 12
code_exit perm_denied = 13
code_exit not_found = 20
code_exit conflict = 21
code_exit invalid_argument = 22
code_exit attachment_too_large = 22
code_exit payload_too_large = 22
code_exit resource_exhausted = 21
code_exit internal = 50
code_exit unavailable = 51
code_exit unspecified = 1
code_exit (other_code s) = 1

module _ {V : Type 0} where
  unfoldable pub http_status : Option (GoError V) → ℕ
  unfolding as_error code_status
  http_status none = 200
  http_status (some e) = elim (as_error e) [ none ↦ 500 | some x ↦ code_status x.code ]

  unfoldable pub exit_code : Option (GoError V) → ℕ
  unfolding as_error code_exit
  exit_code none = 0
  exit_code (some e) = elim (as_error e) [ none ↦ 1 | some x ↦ code_exit x.code ]
