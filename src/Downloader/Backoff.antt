-- ===== src/Downloader/Backoff.antt =====
-- How long a failed attachment waits.
use agent_chat.Prelude.{
  ℕ, zero, suc, ◌+◌, ◌*◌, ◌≤◌, ◌<◌, ◌≡◌, refl, ap, ◌∙◌, true, false, Option, none, some, Str,
  str_eq_refl, lookup, lookup-put, StrMap, put, ltb, lt→ltb, arith,
}
use agent_chat.Downloader.{
  FailState, second, max_backoff, backoff_for, still_waits, one_more, in_backoff, record_failure,
}

-- The schedule rises from two seconds to two minutes.
pub backoff_range : (n : ℕ) → 1 ≤ n → (2 * second ≤ backoff_for n) × (backoff_for n ≤ max_backoff)
unfolding backoff_for
backoff_range zero h = absurd (omega (arith, h))
backoff_range (suc zero) h = (omega arith, omega arith)
backoff_range (suc (suc zero)) h = (omega arith, omega arith)
backoff_range (suc (suc (suc zero))) h = (omega arith, omega arith)
backoff_range (suc (suc (suc (suc zero)))) h = (omega arith, omega arith)
backoff_range (suc (suc (suc (suc (suc zero))))) h = (omega arith, omega arith)
backoff_range (suc (suc (suc (suc (suc (suc zero)))))) h = (omega arith, omega arith)
backoff_range (suc (suc (suc (suc (suc (suc (suc n))))))) h = (ground arith, ground arith)

one_more_lem :
    (now : ℕ) (o : Option FailState)
    → (1 ≤ (one_more now o).attempts) × ((one_more now o).last_failed_at ≡ now)
one_more_lem now none = (omega arith, refl)
one_more_lem now (some s) = (omega arith, refl)

found_again :
    (id : Str) (now t : ℕ) (failed : StrMap FailState)
    → in_backoff id t (record_failure id now failed)
      ≡ ltb t (now + backoff_for (one_more now (lookup id failed)).attempts)
unfolding in_backoff record_failure
found_again id now t failed =
    let s = one_more now (lookup id failed) in
    let there : lookup id (put id s failed) ≡ some s =
      lookup-put id id s failed ∙ rw (str_eq_refl id) refl in
    ap (still_waits t) there
    ∙ ap (λ n. ltb t (n + backoff_for (one_more now (lookup id failed)).attempts))
        (one_more_lem now (lookup id failed)).1

-- After a failure at `now`, however many there were before, the attachment is passed over in each
-- cycle of the next two seconds, and in none that starts two minutes later or more.
pub retry_window :
    (id : Str) (now soon late : ℕ) (failed : StrMap FailState)
    → soon < now + 2 * second
    → now + max_backoff ≤ late
    → (in_backoff id soon (record_failure id now failed) ≡ true)
      × (in_backoff id late (record_failure id now failed) ≡ false)
retry_window id now soon late failed h k =
    let n = (one_more now (lookup id failed)).attempts in
    let (low, high) = backoff_range n (one_more_lem now (lookup id failed)).0 in
    (
      found_again id now soon failed ∙ lt→ltb soon (now + backoff_for n) (omega (arith, h, low)),
      found_again id now late failed ∙ not_ltb late (now + backoff_for n) (omega (arith, k, high)),
    )
  where
    not_ltb : (a b : ℕ) → b ≤ a → ltb a b ≡ false
    not_ltb a b q = ground (arith, q)
