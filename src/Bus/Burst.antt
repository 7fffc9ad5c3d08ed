-- ===== src/Bus/Burst.antt =====
-- A burst of mutations: `PublishMany` misses none of the accounts that are watched.
use agent_chat.Prelude.{
  sym, ℕ, ◌<◌, ◌≡◌, inl, inr, refl, subst, ap, ◌∙◌, Bool-cases, true, false, Option, none, some,
  List, [], ◌∷◌, Str, str_eq, str_eq_sound, is_empty, any, length, lookup, lookup-put,
  lookup-delete, delete, ◌==◌, arith,
}
use agent_chat.Bus.{Bus, or_nil, subs_of, start_timer, debounce, publish, publish_many}
use agent_chat.Bus.Invariant.{BusOk}
use agent_chat.Bus.Steps.{publish-BusOk}
use agent_chat.Bus.Delivery.{publish-Debounced}

-- A timer of the account is pending and runs.
abbrev pub Awaited : {S : Type 0} → Bus S → Str → Type 0
Awaited b a = (t : ℕ) × (lookup a b.pending ≡ some t) × ((b.timer t).armed ≡ true)

module _ {S : Type 0} (version_of : S → ℕ) where
  start_timer-Awaited :
      (x a : Str) (b : Bus S) (t : ℕ)
      → str_eq x a ≡ false
      → t < b.next_timer
      → lookup a b.pending ≡ some t
      → (b.timer t).armed ≡ true
      → Awaited (start_timer x b) a
  unfolding start_timer
  start_timer-Awaited x a b t other old p armed =
      (t, rw (lookup-put x a b.next_timer b.pending, other, p) refl, ground (arith, old, armed))

  debounce-Awaited :
      (x a : Str) (o : Option ℕ) (b : Bus S) (t : ℕ)
      → str_eq x a ≡ false
      → t < b.next_timer
      → lookup a b.pending ≡ some t
      → (b.timer t).armed ≡ true
      → Awaited (debounce x o b) a
  unfolding debounce
  debounce-Awaited x a none b t other old p armed = start_timer-Awaited x a b t other old p armed
  debounce-Awaited x a (some q) b t other old p armed = elim (Bool-cases (b.timer q).armed) [
    | inl runs ↦ rw runs (t, p, armed)
    | inr gone ↦ rw gone (
        start_timer-Awaited x a (record b { pending = delete x b.pending }) t other old
          (lookup-delete x a b.pending ∙ rw (other, p) refl) armed)
  ]

  -- A publish of any account leaves a rebuild that is awaited.
  publish-Awaited :
      (x a : Str) (b : Bus S) → BusOk version_of b → Awaited b a → Awaited (publish x b) a
  unfolding publish
  publish-Awaited x a b h (t, p, armed) = elim (Bool-cases (is_empty x)) [
    | inl blank ↦ rw blank (t, p, armed)
    | inr named ↦ elim (Bool-cases (length (subs_of b x) == 0)) [
      | inl unwatched ↦ rw (named, unwatched) (t, p, armed)
      | inr watched ↦ elim (Bool-cases (str_eq x a)) [
        | inl same ↦
            let (q, d) = publish-Debounced version_of x b named watched h in
            subst (Awaited (publish x b)) (str_eq_sound x a same) (q, d.pending, d.armed)
        | inr other ↦
            rw (named, watched)
              (debounce-Awaited x a (lookup x b.pending) b t other (h.scheduled a t p).started p
                armed)
      ]
    ]
  ]

  publish_many-Awaited :
      (ids : List Str) (a : Str) (b : Bus S)
      → BusOk version_of b
      → Awaited b a
      → Awaited (publish_many ids b) a
  unfolding publish_many
  publish_many-Awaited [] a b h w = w
  publish_many-Awaited (x ∷ ids) a b h w =
      publish_many-Awaited ids a (publish x b) (publish-BusOk version_of x b h)
        (publish-Awaited x a b h w)

  subs-publish : (x : Str) (b : Bus S) → (publish x b).subs ≡ b.subs
  unfolding publish debounce start_timer
  subs-publish x b = ground arith

  -- On a bus that satisfies `BusOk`, after `PublishMany` every watched account of the list has a
  -- pending timer that runs, whatever the other accounts of the list are.
  pub publish_many_lem :
      (ids : List Str) (a : Str) (b : Bus S)
      → BusOk version_of b
      → any (λ y. str_eq y a) ids ≡ true
      → is_empty a ≡ false
      → (length (subs_of b a) == 0) ≡ false
      → Awaited (publish_many ids b) a
  unfolding publish_many
  publish_many_lem [] a b h listed named watched = cc
  publish_many_lem (x ∷ ids) a b h listed named watched = elim (Bool-cases (str_eq x a)) [
    | inl same ↦
        let (q, d) = publish-Debounced version_of a b named watched h in
        publish_many-Awaited ids a (publish x b) (publish-BusOk version_of x b h) (
          subst (λ y. Awaited (publish y b) a) (sym (str_eq_sound x a same))
            (q, d.pending, d.armed))
    | inr other ↦
        publish_many_lem ids a (publish x b) (publish-BusOk version_of x b h)
          (ground (arith, listed, other)) named
          (ap (λ m. length (or_nil (lookup a m)) == 0) (subs-publish x b) ∙ watched)
  ]
