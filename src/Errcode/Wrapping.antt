-- ===== src/Errcode/Wrapping.antt =====
-- errcode.go: `Wrap`, `As`, `Is` and the statuses together.
use agent_chat.Prelude.{
  ◌≡◌, refl, ◌⊎◌, inl, inr, Bool-cases, true, Option, none, some, arith, Str, ap, sym, subst, ◌∙◌,
  str_eq_refl, str_eq_sound,
}
use agent_chat.Errcode.{
  Code, other_code, code_eq, GoError, plain, foreign, coded, caused, Error, as_go, as_error,
  assert_error, wrap, wrap_found, wrap_new, unwrap, is_target, http_status, exit_code, code_status,
  code_exit,
}

pub code_eq_refl : (c : Code) → code_eq c c ≡ true
unfolding code_eq
code_eq_refl (Code.other_code s) = str_eq_refl s
code_eq_refl _ = refl

-- No two constants share a string.
pub code_eq_sound : (c d : Code) → code_eq c d ≡ true → c ≡ d
unfolding code_eq
code_eq_sound (Code.other_code s) (Code.other_code t) h = ap other_code (str_eq_sound s t h)
code_eq_sound c d h = ground (arith, h)

module _ {V : Type 0} where
  as_error-as_go : (x : Error V) → as_error (as_go x) ≡ some x
  unfolding as_error as_go
  as_error-as_go x = ground arith

  assert_error-as_go : (x : Error V) → assert_error (as_go x) ≡ some x
  unfolding assert_error as_go
  assert_error-as_go x = ground arith

  as_go-assert_error : (e : GoError V) (x : Error V) → assert_error e ≡ some x → as_go x ≡ e
  unfolding assert_error as_go
  as_go-assert_error (plain m) x h = cc
  as_go-assert_error (foreign m e) x h = cc
  as_go-assert_error (coded c m d) x h = ground arith
  as_go-assert_error (caused c m d e) x h = ground arith

  -- The error that wrapping a non-nil cause makes.
  abbrev wrapped : GoError V → Code → Str → Error V
  wrapped e c m = wrap_found (assert_error e) e c m

  code-wrapped :
      (o : Option (Error V)) (e : GoError V) (c : Code) (m : Str) → (wrap_found o e c m).code ≡ c
  unfolding wrap_found wrap_new
  code-wrapped none e c m = refl
  code-wrapped (some x) e c m = elim (Bool-cases (code_eq x.code c)) [
    | inl t ↦ rw t (code_eq_sound x.code c t)
    | inr f ↦ rw f
  ]

  unwrap-wrapped :
      (o : Option (Error V)) (e : GoError V) (c : Code) (m : Str)
      → assert_error e ≡ o
      → (unwrap (wrap_found o e c m) ≡ some e) ⊎ (as_go (wrap_found o e c m) ≡ e)
  unfolding wrap_found wrap_new unwrap
  unwrap-wrapped none e c m h = inl refl
  unwrap-wrapped (some x) e c m h = elim (Bool-cases (code_eq x.code c)) [
    | inl t ↦ rw t (inr (as_go-assert_error e x h))
    | inr f ↦ rw f (inl refl)
  ]

  http_status-as_go :
      (x : Error V)
      → (http_status (some (as_go x)) ≡ code_status x.code)
        × (exit_code (some (as_go x)) ≡ code_exit x.code)
  unfolding http_status exit_code as_go
  http_status-as_go x = (ground arith, ground arith)

  is_target_same : (x y : Error V) → x.code ≡ y.code → is_target x (some (as_go y)) ≡ true
  unfolding is_target as_go
  is_target_same x y h = ground (arith, code_eq_refl y.code)

  wrap-as_go : (x : Error V) (m : Str) → wrap (some (as_go x)) x.code m ≡ some x
  unfolding wrap
  wrap-as_go x m = rw assert_error-as_go (unfold wrap_found in rw code_eq_refl)

  -- `Wrap` of a non-nil error with a code makes an error of that code: the API answers with the
  -- code's status and the command line exits with the code's number, the cause stays on the
  -- chain (it is unwrapped to, or it is the result itself), `Is` recognises every error of that
  -- code in it, and wrapping the result once more with the same code, under any message, changes nothing.
  pub wrap_lem :
      (e : GoError V) (c : Code) (m : Str)
      → (x : Error V) × (wrap (some e) c m ≡ some x)
        × (http_status (some (as_go x)) ≡ code_status c)
        × (exit_code (some (as_go x)) ≡ code_exit c)
        × ((unwrap x ≡ some e) ⊎ (as_go x ≡ e))
        × ((y : Error V) → y.code ≡ c → is_target x (some (as_go y)) ≡ true)
        × ((m' : Str) → wrap (some (as_go x)) c m' ≡ some x)
  unfolding wrap
  wrap_lem e c m =
      let x = wrapped e c m in
      let same : x.code ≡ c = code-wrapped (assert_error e) e c m in
      (
        x,
        refl,
        (http_status-as_go x).0 ∙ ap code_status same,
        (http_status-as_go x).1 ∙ ap code_exit same,
        unwrap-wrapped (assert_error e) e c m refl,
        (λ y h. is_target_same x y (same ∙ sym h)),
        (λ m'. subst (λ d. wrap (some (as_go x)) d m' ≡ some x) same (wrap-as_go x m')),
      )
