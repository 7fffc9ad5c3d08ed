-- ===== src/Bus/Steps/Timers.antt =====
-- `Publish`, and a timer that expires.
use agent_chat.Prelude.{
  ℕ, ◌≡◌, inl, inr, refl, ◌∙◌, Bool, Bool-cases, true, false, Option, none, some, List, [], ◌∷◌,
  ◌++◌, Str, str_eq, str_eq_iff, str_eq_sound, any, All-map, length, lookup, lookup-put,
  lookup-delete, put, delete, ◌==◌, arith, is_empty,
}
use agent_chat.Bus.{Bus, subs_of, write, start_timer, debounce, publish, publish_many, expire}
use agent_chat.Bus.Invariant.{Listed, Scheduled, BusOk}

any-append :
    {A : Type 0} (p : A → Bool) (xs ys : List A) → any p xs ≡ true → any p (xs ++ ys) ≡ true
any-append p [] ys h = cc
any-append p (x ∷ xs) ys h = ground (arith, any-append p xs ys)

pub any-snoc :
    {A : Type 0} (p : A → Bool) (xs : List A) (x : A) → p x ≡ true → any p (xs ++ x ∷ []) ≡ true
any-snoc p [] x h = ground arith
any-snoc p (y ∷ ys) x h = ground (arith, any-snoc p ys x)

module _ {S : Type 0} (version_of : S → ℕ) where
  start_timer-Scheduled :
      (account_id : Str) (b : Bus S) (a : Str) (t : ℕ)
      → BusOk version_of b
      → lookup a (put account_id b.next_timer b.pending) ≡ some t
      → Scheduled (start_timer account_id b) a t
  unfolding start_timer
  start_timer-Scheduled account_id b a t h e = elim (Bool-cases (str_eq account_id a)) [
    | inl same ↦
        let named : account_id ≡ a = str_eq_sound account_id a same in
        let new : b.next_timer ≡ t =
          ground (arith, lookup-put account_id a b.next_timer b.pending) in
        record { started = omega arith; owned = ground arith; coming = inl (ground arith) }
    | inr other ↦
        let old =
          h.scheduled a t (ground (arith, lookup-put account_id a b.next_timer b.pending)) in
        record {
          started = omega (arith, old.started);
          owned = ground (arith, old.started, old.owned);
          coming = ground (arith, old.started, old.coming);
        }
  ]

  start_timer-BusOk :
      (account_id : Str) (b : Bus S)
      → BusOk version_of b
      → BusOk version_of (start_timer account_id b)
  unfolding start_timer
  start_timer-BusOk account_id b h = record {
    cells = h.cells;
    capped = h.capped;
    listed = λ a.
        All-map (Listed b a) (Listed (start_timer account_id b) a) (subs_of b a)
          (λ r l. record { allocated = l.allocated; owned = l.owned; still_open = l.still_open })
          (h.listed a);
    distinct = h.distinct;
    scheduled = λ a t. start_timer-Scheduled account_id b a t h;
  }

  pub delete_pending-BusOk :
      (account_id : Str) (b : Bus S)
      → BusOk version_of b
      → BusOk version_of (record b { pending = delete account_id b.pending })
  delete_pending-BusOk account_id b h = record {
    cells = h.cells;
    capped = h.capped;
    listed = λ a.
        All-map (Listed b a) (Listed (record b { pending = delete account_id b.pending }) a)
          (subs_of b a)
          (λ r l. record { allocated = l.allocated; owned = l.owned; still_open = l.still_open })
          (h.listed a);
    distinct = h.distinct;
    scheduled = λ a t e.
        let old = h.scheduled a t (ground (arith, lookup-delete account_id a b.pending)) in
        record { started = old.started; owned = old.owned; coming = old.coming };
  }

  debounce-BusOk :
      (account_id : Str) (o : Option ℕ) (b : Bus S)
      → BusOk version_of b
      → BusOk version_of (debounce account_id o b)
  unfolding debounce
  debounce-BusOk account_id none b h = start_timer-BusOk account_id b h
  debounce-BusOk account_id (some t) b h = elim (Bool-cases (b.timer t).armed) [
    | inl runs ↦ rw runs h
    | inr gone ↦ rw gone (start_timer-BusOk account_id _ (delete_pending-BusOk account_id b h))
  ]

  pub publish-BusOk :
      (account_id : Str) (b : Bus S) → BusOk version_of b → BusOk version_of (publish account_id b)
  unfolding publish
  publish-BusOk account_id b h = elim (Bool-cases (is_empty account_id)) [
    | inl empty ↦ rw empty h
    | inr named ↦ elim (Bool-cases (length (subs_of b account_id) == 0)) [
      | inl unwatched ↦ rw (named, unwatched) h
      | inr watched ↦
          rw (named, watched) (debounce-BusOk account_id (lookup account_id b.pending) b h)
    ]
  ]

  pub publish_many-BusOk :
      (ids : List Str) (b : Bus S) → BusOk version_of b → BusOk version_of (publish_many ids b)
  unfolding publish_many
  publish_many-BusOk [] b h = h
  publish_many-BusOk (a ∷ ids) b h = publish_many-BusOk ids (publish a b) (publish-BusOk a b h)

  abbrev expired : ℕ → Bus S → Bus S
  expired t b = record b {
    timer = write b.timer t (record (b.timer t) { armed = false });
    fires = b.fires ++ (b.timer t).account_id ∷ [];
  }

  expired-Scheduled :
      (t : ℕ) (b : Bus S) (a : Str) (q : ℕ) → Scheduled b a q → Scheduled (expired t b) a q
  expired-Scheduled t b a q old = elim (Bool-cases (t == q)) [
    | inl same ↦ record {
      started = old.started;
      owned = ground (arith, old.owned);
      coming = inr (
          any-snoc (λ f. str_eq f a) b.fires (b.timer t).account_id
            (ground (arith, old.owned, str_eq_iff a a)));
    }
    | inr other ↦ record {
      started = old.started;
      owned = ground (arith, old.owned);
      coming = elim old.coming [
        | inl runs ↦ inl (ground (arith, runs))
        | inr waits ↦ inr (any-append (λ f. str_eq f a) b.fires _ waits)
      ];
    }
  ]

  pub expire-BusOk : (t : ℕ) (b : Bus S) → BusOk version_of b → BusOk version_of (expire t b)
  unfolding expire
  expire-BusOk t b h = elim (Bool-cases (b.timer t).armed) [
    | inr gone ↦ rw gone h
    | inl runs ↦ rw runs (record {
      cells = h.cells;
      capped = h.capped;
      listed = λ a.
          All-map (Listed b a) (Listed (expired t b) a) (subs_of b a)
            (λ r l. record { allocated = l.allocated; owned = l.owned; still_open = l.still_open })
            (h.listed a);
      distinct = h.distinct;
      scheduled = λ a q e. expired-Scheduled t b a q (h.scheduled a q e);
    })
  ]

module _ {S : Type 0} where
  pub version-publish : (account_id : Str) (b : Bus S) → (publish account_id b).version ≡ b.version
  unfolding publish debounce start_timer
  version-publish account_id b = ground arith

  pub version-publish_many : (ids : List Str) (b : Bus S) → (publish_many ids b).version ≡ b.version
  unfolding publish_many
  version-publish_many [] b = refl
  version-publish_many (a ∷ ids) b = version-publish_many ids (publish a b) ∙ version-publish a b

  pub version-expire : (t : ℕ) (b : Bus S) → (expire t b).version ≡ b.version
  unfolding expire
  version-expire t b = ground arith
