-- ===== src/Bus/Invariant.antt =====
-- The invariant of the bus between two operations.
use agent_chat.Prelude.{
  ℕ, ◌≤◌, ◌<◌, ◌≡◌, ◌⊎◌, refl, true, false, some, List, [], ◌∷◌, ◌++◌, Str, str_eq, any, All,
  length, lookup, ◌==◌, arith,
}
use agent_chat.Bus.{Subscription, Bus, subs_of, channel_capacity, max_subscribers_per_account}

-- The versions of the frames rise strictly from above `lo` to at most `hi`.
abbrev pub Climbs : {S : Type 0} → (S → ℕ) → ℕ → List S → ℕ → Type 0
Climbs f lo [] hi = lo ≤ hi
Climbs f lo (x ∷ xs) hi = (lo < f x) × Climbs f (f x) xs hi

pub Climbs-mono :
    {S : Type 0} (f : S → ℕ) (lo : ℕ) (xs : List S) (hi hi' : ℕ)
    → hi ≤ hi'
    → Climbs f lo xs hi
    → Climbs f lo xs hi'
Climbs-mono f lo [] hi hi' le h = omega arith
Climbs-mono f lo (x ∷ xs) hi hi' le (a, h) = (a, Climbs-mono f (f x) xs hi hi' le h)

pub Climbs-snoc :
    {S : Type 0} (f : S → ℕ) (lo : ℕ) (xs : List S) (hi : ℕ) (x : S) (hi' : ℕ)
    → hi < f x
    → f x ≤ hi'
    → Climbs f lo xs hi
    → Climbs f lo (xs ++ x ∷ []) hi'
Climbs-snoc f lo [] hi x hi' lt le h = (omega arith, le)
Climbs-snoc f lo (y ∷ ys) hi x hi' lt le (a, h) = (a, Climbs-snoc f (f y) ys hi x hi' lt le h)

abbrev pub Distinct : List ℕ → Type 0
Distinct [] = Unit
Distinct (r ∷ rs) = All (λ q. (r == q) ≡ false) rs × Distinct rs

module _ {S : Type 0} (version_of : S → ℕ) where
  -- The flag tells whether the channel is closed, the channel holds at most its capacity, and
  -- the frames, those taken first, have rising versions up to the bus's.
  pub record CellOk (version : ℕ) (s : Subscription S) : Type 0 where
    pub agrees : s.closed ≡ s.channel_closed
    pub bounded : length s.buffer ≤ channel_capacity
    pub rising : Climbs version_of 0 (s.received ++ s.buffer) version

-- A reference in the list of an account: allocated, the account's, and open.
pub record Listed {S : Type 0} (b : Bus S) (account_id : Str) (r : ℕ) : Type 0 where
  pub allocated : r < b.next
  pub owned : (b.cell r).account_id ≡ account_id
  pub still_open : (b.cell r).closed ≡ false

-- A pending timer is the account's, and it runs or its goroutine waits for the mutex.
pub record Scheduled {S : Type 0} (b : Bus S) (account_id : Str) (t : ℕ) : Type 0 where
  pub started : t < b.next_timer
  pub owned : (b.timer t).account_id ≡ account_id
  pub coming : ((b.timer t).armed ≡ true) ⊎ (any (λ f. str_eq f account_id) b.fires ≡ true)

pub record BusOk {S : Type 0} (version_of : S → ℕ) (b : Bus S) : Type 0 where
  pub cells : (r : ℕ) → CellOk version_of b.version (b.cell r)
  pub capped : (a : Str) → length (subs_of b a) ≤ max_subscribers_per_account
  pub listed : (a : Str) → All (Listed b a) (subs_of b a)
  pub distinct : (a : Str) → Distinct (subs_of b a)
  pub scheduled : (a : Str) (t : ℕ) → lookup a b.pending ≡ some t → Scheduled b a t

-- The bus that `NewBus` makes.
abbrev pub new_bus : {S : Type 0} → Bus S
new_bus = record {
  version = 0;
  pending = [];
  subs = [];
  cell = λ r. record {
    account_id = [];
    closed = false;
    buffer = [];
    channel_closed = false;
    received = [];
  };
  next = 0;
  timer = λ t. record { account_id = []; armed = false };
  next_timer = 0;
  fires = [];
}

pub new_bus-BusOk : {S : Type 0} (version_of : S → ℕ) → BusOk version_of new_bus
new_bus-BusOk version_of = record {
  cells = λ r. record { agrees = refl; bounded = omega arith; rising = omega arith };
  capped = λ a. omega arith;
  listed = λ a. tt;
  distinct = λ a. tt;
  scheduled = λ a t h. cc;
}
