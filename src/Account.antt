-- ===== src/Account.antt =====
-- internal/account/service.go, on the tables. A name is checked with strings.TrimSpace, which is a
-- parameter; `none` of a UUID is an error of uuid.NewV7. A pointer to an optional field is an Option.
pub mod Records
pub mod Updates
pub mod Bootstrap
mod Tests
use agent_chat.Prelude.{
  ℕ, ◌+◌, Bool, true, false, not, ◌&&◌, Option, none, some, List, [], ◌∷◌, ◌++◌, Str, bytes, str_eq,
  is_empty, length, ltb, ◌==◌, if◌then◌else◌,
}
use agent_chat.Errcode.{internal, invalid_argument}
use agent_chat.Errcode.Result.{Result, ok, err, ◌>>=◌, ◌>>◌, require}
use agent_chat.Store.{Db, Account, Role, admin, user, other_role, role_valid, created}
use agent_chat.Store.Accounts

unfoldable pub role_text : Role → Str
role_text admin = bytes "admin"
role_text user = bytes "user"
role_text (other_role s) = s

unfoldable pub role_eq : Role → Role → Bool
role_eq admin admin = true
role_eq user user = true
role_eq (other_role s) (other_role t) = str_eq s t
role_eq r q = false

-- What an operation draws from outside.
pub record Draws : Type 0 where
  pub trim_space : Str → Str
  pub uuid : Option Str
  pub now : ℕ

unfoldable pub validate_name : (Str → Str) → Str → Result (Unit {0})
validate_name trim_space name = do
  require (not (is_empty name)) invalid_argument
  require (str_eq (trim_space name) name) invalid_argument
  require (not (ltb 64 (length name))) invalid_argument

abbrev pub drawn : Option Str → Result Str
drawn none = err internal
drawn (some u) = ok u

abbrev pub new_account : Draws → Str → Role → Str → Account
new_account d name role u = record {
  id = u;
  name = name;
  role = role;
  lifecycle_state = created;
  bot_token_enc = [];
  bot_user_id = [];
  created_at = d.now;
  updated_at = d.now;
}

unfoldable pub build : Draws → Str → Role → Result Account
build d name role = validate_name d.trim_space name >>= λ _.
    require (role_valid role) invalid_argument >>= λ _.
    drawn d.uuid >>= λ u. ok (new_account d name role u)

-- The account, and the tables with it.
unfoldable pub create : Draws → Str → Role → Db → Result (Account × Db)
create d name role db = build d name role >>= λ a. Accounts.create a db >>= λ db'. ok (a, db')

pub record UpdateRequest : Type 0 where
  pub name : Option Str
  pub role : Option Role

pub record ChangeRecord : Type 0 where
  pub field : Str
  pub old_value : Str
  pub new_value : Str

abbrev pub name_change : Account → Option Str → List ChangeRecord
name_change a none = []
name_change a (some n) =
    if str_eq n a.name
    then []
    else record { field = bytes "name"; old_value = a.name; new_value = n } ∷ []

abbrev pub role_change : Account → Option Role → List ChangeRecord
role_change a none = []
role_change a (some r) =
    if role_eq r a.role
    then []
    else record { field = bytes "role"; old_value = role_text a.role; new_value = role_text r } ∷ []

abbrev pub checked_name : (Str → Str) → Option Str → Result (Unit {0})
checked_name trim_space none = ok tt
checked_name trim_space (some n) = validate_name trim_space n

abbrev pub checked_role : Option Role → Result (Unit {0})
checked_role none = ok tt
checked_role (some r) = require (role_valid r) invalid_argument

abbrev pub is_blank : UpdateRequest → Bool
is_blank req = elim req.name [
  | some n ↦ false
  | none ↦ elim req.role [ some r ↦ false | none ↦ true ]
]

abbrev pub changes_of : Account → UpdateRequest → List ChangeRecord
changes_of a req = name_change a req.name ++ role_change a req.role

-- `updated_at` moves only with a change.
abbrev pub touched_at : ℕ → Account → List ChangeRecord → ℕ
touched_at now a [] = a.updated_at
touched_at now a (c ∷ cs) = now

abbrev pub write_name : Account → Option Str → Account
write_name a none = a
write_name a (some n) = if str_eq n a.name then a else record a { name = n }

abbrev pub write_role : Account → Option Role → Account
write_role a none = a
write_role a (some r) = if role_eq r a.role then a else record a { role = r }

unfoldable pub plan_update : Draws → Account → UpdateRequest → Result (Account × List ChangeRecord)
plan_update d a req = require (not (is_blank req)) invalid_argument >>= λ _.
    checked_name d.trim_space req.name >>= λ _. checked_role req.role >>= λ _.
    let changes = changes_of a req in
    ok (
      record (write_role (write_name a req.name) req.role) {
        updated_at = touched_at d.now a changes;
      },
      changes,
    )

-- A request that changes nothing writes nothing.
unfoldable pub apply_plan :
    Account → Account × List ChangeRecord → Db → Result (Account × List ChangeRecord × Db)
apply_plan a (new, []) db = ok (a, [], db)
apply_plan a (new, c ∷ cs) db = Accounts.update new db >>= λ db'. ok (new, c ∷ cs, db')

unfoldable pub update : Draws → Str → UpdateRequest → Db → Result (Account × List ChangeRecord × Db)
update d id req db =
    Accounts.get id db >>= λ a. plan_update d a req >>= λ plan. apply_plan a plan db

unfoldable pub delete : Str → Db → Result Db
delete id db = Accounts.delete id db

abbrev pub as_created : Result (Account × Db) → Result (Option Account × Db)
as_created (ok (a, db)) = ok (some a, db)
as_created (err c) = err c

-- The root account, if this call creates it, and the tables.
unfoldable pub bootstrap_root : Draws → Db → Result (Option Account × Db)
bootstrap_root d db =
    if ltb 0 (Accounts.count db)
    then ok (none, db)
    else as_created (create d (bytes "root") admin db)
