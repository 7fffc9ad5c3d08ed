-- ===== src/Account/Records.antt =====
-- The change records of an update, by the rows before and after.
use agent_chat.Prelude.{
  ℕ, Bool, ◌&&◌, bytes, str_eq_comm, if◌then◌else◌, ◌≡◌, refl, true, false, Option, none, some,
  List, [], ◌∷◌, ◌++◌, Str, str_eq, str_eq_refl,
}
use mathlib.Core.Path.{ap₂}
use agent_chat.Store.{Account, Role, admin, user, other_role}
use agent_chat.Account.{
  UpdateRequest, ChangeRecord, role_eq, name_change, role_change, changes_of, role_text, touched_at,
}

-- The field after the request.
abbrev pub or_old {ℓ} : {A : Type ℓ} → A → Option A → A
or_old x none = x
or_old x (some y) = y

-- The role as the audit log shows it, and whether two roles are one.
abbrev role_name : Role → Str
role_name admin = bytes "admin"
role_name user = bytes "user"
role_name (other_role s) = s

abbrev same_role : Role → Role → Bool
same_role admin q = elim q [ admin ↦ true | _ ↦ false ]
same_role user q = elim q [ user ↦ true | _ ↦ false ]
same_role (other_role s) q = elim q [ other_role t ↦ str_eq s t | _ ↦ false ]

-- The fields in which two rows differ.
abbrev pub differing : Account → Account → List ChangeRecord
differing old new =
    (if str_eq old.name new.name
      then []
      else record { field = bytes "name"; old_value = old.name; new_value = new.name } ∷ [])
    ++ (if same_role old.role new.role
        then []
        else record {
          field = bytes "role";
          old_value = role_name old.role;
          new_value = role_name new.role;
        }
          ∷ [])

-- The row with what the request asks for; the time moves if the row differs.
abbrev pub asked : ℕ → Account → UpdateRequest → Account
asked now a req = record a {
  name = or_old a.name req.name;
  role = or_old a.role req.role;
  updated_at =
      if str_eq a.name (or_old a.name req.name) && same_role a.role (or_old a.role req.role)
      then a.updated_at
      else now;
}

same_role_lem : (r q : Role) → role_eq r q ≡ same_role q r
unfolding role_eq
same_role_lem admin admin = refl
same_role_lem user user = refl
same_role_lem (other_role s) (other_role t) = str_eq_comm s t
same_role_lem admin user = refl
same_role_lem admin (other_role t) = refl
same_role_lem user admin = refl
same_role_lem user (other_role t) = refl
same_role_lem (other_role s) admin = refl
same_role_lem (other_role s) user = refl

same_role_refl : (r : Role) → same_role r r ≡ true
same_role_refl admin = refl
same_role_refl user = refl
same_role_refl (other_role s) = str_eq_refl s

role_name_lem : (r : Role) → role_text r ≡ role_name r
unfolding role_text
role_name_lem admin = refl
role_name_lem user = refl
role_name_lem (other_role s) = refl

pub name_change_lem :
    (a : Account) (o : Option Str)
    → name_change a o ≡ (
        if str_eq a.name (or_old a.name o)
        then []
        else record { field = bytes "name"; old_value = a.name; new_value = or_old a.name o } ∷ [])
name_change_lem a none = rw (str_eq_refl a.name) refl
name_change_lem a (some n) = rw (str_eq_comm n a.name) refl

pub role_change_lem :
    (a : Account) (o : Option Role)
    → role_change a o ≡ (
        if same_role a.role (or_old a.role o)
        then []
        else record {
          field = bytes "role";
          old_value = role_name a.role;
          new_value = role_name (or_old a.role o);
        }
          ∷ [])
role_change_lem a none = rw (same_role_refl a.role) refl
role_change_lem a (some r) = rw (same_role_lem r a.role, role_name_lem a.role, role_name_lem r) refl

pub changes_of_lem :
    (now : ℕ) (a : Account) (req : UpdateRequest) → changes_of a req ≡ differing a (asked now a req)
changes_of_lem now a req =
    ap₂ (λ x y. x ++ y) (name_change_lem a req.name) (role_change_lem a req.role)

pub touched_lem :
    (now : ℕ) (a : Account) (b c : Bool) (x y : ChangeRecord)
    → touched_at now a ((if b then [] else x ∷ []) ++ (if c then [] else y ∷ []))
      ≡ (if b && c then a.updated_at else now)
touched_lem now a true true x y = refl
touched_lem now a true false x y = refl
touched_lem now a false c x y = refl
