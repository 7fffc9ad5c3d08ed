-- ===== src/Aggregator/Instance.antt =====
-- The aggregator as the builder of the bus.
use agent_chat.Prelude.{
  subst, ℕ, ◌+◌, ◌^◌, ◌<◌, ◌≡◌, refl, true, false, some, ◌∷◌, [], ◌++◌, Str, is_empty, find, any,
  length, lookup, ◌==◌,
}
use agent_chat.Errcode.Result.{Result, ok, AllOk, AllOk-if, AllOk-bind, AllOk-Unit}
use agent_chat.Store.{Account}
use agent_chat.Store.Accounts
use agent_chat.Store.Memberships
use agent_chat.Bus.{Builder, Bus, bump, subs_of, channel_capacity, publish, expire, run_fire}
use agent_chat.Bus.Invariant.{BusOk}
use agent_chat.Bus.Delivery.{publish_delivers}
use agent_chat.Aggregator.Counts.{Counted, totals_of-Counted}
use agent_chat.Aggregator.{World, Snapshot, build, assemble}

pub build-Versioned :
    (w : World) (account_id : Str) (v : ℕ)
    → AllOk (λ (s : Snapshot). s.version ≡ v) (build w account_id v)
unfolding build assemble
build-Versioned w account_id v =
    AllOk-if (λ (s : Snapshot). s.version ≡ v) (is_empty account_id) _ _ tt
      (AllOk-bind (λ _. Unit) (λ (s : Snapshot). s.version ≡ v) (Accounts.get account_id w.db) _
        (AllOk-Unit (Accounts.get account_id w.db)) (λ a _. refl))

pub of_ok : {A : Type 0} (P : A → Type 0) (r : Result A) (a : A) → r ≡ ok a → AllOk P r → P a
of_ok P r a e h = subst (AllOk P) e h

-- `Build` keeps the version that it is given, which is all that the bus relies on.
abbrev pub aggregator : Builder World Snapshot
aggregator = record {
  build = build;
  version_of = λ s. s.version;
  build_version = λ w account_id v s e.
      of_ok (λ (x : Snapshot). x.version ≡ v) (build w account_id v) s e
        (build-Versioned w account_id v);
}

built :
    (w : World) (account_id : Str) (v : ℕ) (a : Account)
    → is_empty account_id ≡ false
    → find (Accounts.has_id account_id) w.db.accounts ≡ some a
    → build w account_id v
      ≡ ok (assemble w account_id v a (Memberships.list_by_account_with_rooms account_id w.db))
unfolding build Accounts.get
built w account_id v a named found = rw (named, found) refl

-- The bus with the aggregator: after a mutation that concerns an account that exists and is watched,
-- the pending timer's expiry and its goroutine put one snapshot into every channel of the account
-- that has room; it is of the next version, and its totals count the rows of the tables as they
-- stand when the goroutine runs: the unread state rows of messages in rooms that the account can still
-- see, by subscription, mention or priority; the newest announcement of each of its rooms, and the
-- system announcements, that it has not read.
pub fresh_frame :
    (w : World) (account_id : Str) (a : Account) (b : Bus Snapshot)
    → is_empty account_id ≡ false
    → find (Accounts.has_id account_id) w.db.accounts ≡ some a
    → (length (subs_of b account_id) == 0) ≡ false
    → b.version + 1 < 2 ^ 63
    → BusOk (λ (s : Snapshot). s.version) b
    → (t : ℕ) × (b' : Bus Snapshot) × (s : Snapshot) × (lookup account_id
          (publish account_id b).pending
        ≡ some t)
      × (run_fire aggregator w account_id (expire t (publish account_id b)) ≡ some b')
      × (s.version ≡ bump b.version)
      × Counted account_id w.db s.totals
      × ((r : ℕ)
          → any (λ q. q == r) (subs_of b account_id) ≡ true
          → length (b.cell r).buffer < channel_capacity
          → (b'.cell r).buffer ≡ (b.cell r).buffer ++ s ∷ [])
unfolding assemble
fresh_frame w account_id a b named found watched small h =
    let s =
      assemble w account_id (bump b.version) a
        (Memberships.list_by_account_with_rooms account_id w.db) in
    let (t, b', pending, fired, delivered, _, _) =
      publish_delivers aggregator w account_id b s named watched small h
        (built w account_id (bump b.version) a named found) in
    (t, b', s, pending, fired, refl, totals_of-Counted account_id w.db, delivered)
