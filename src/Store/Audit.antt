-- ===== src/Store/Audit.antt =====
-- internal/store/sqlite/audit_repo.go and internal/audit: one entry, and the listing.
use agent_chat.Prelude.{
  Bool, true, List, str_leb, leb, ltb, ◌==◌, ◌||◌, ◌&&◌, take, keep, sort_by, ℕ, not, Option, none,
  some, [], ◌∷◌, ◌++◌, Str, str_eq, is_empty, any, if◌then◌else◌,
}
use agent_chat.Errcode.{internal, invalid_argument}
use agent_chat.Errcode.Result.{Result, ok, err, ◌>>◌, require}
use agent_chat.Store.{Db, AuditEntry}

abbrev pub default_audit_limit : ℕ
default_audit_limit = 500

unfoldable pub record_entry : AuditEntry → Db → Result Db
record_entry e db = do
  require (not (is_empty e.action)) invalid_argument
  require (not (any (λ (x : AuditEntry). str_eq x.id e.id) db.audit_log)) internal
  ok (record db { audit_log = db.audit_log ++ e ∷ [] })

-- `RecordVia`: the id that uuid.NewV7 gives (`none` for its error), the time, and the payload's
-- JSON text.
unfoldable pub record_via : Option Str → ℕ → Str → Str → Str → Str → Db → Result Db
unfolding record_entry
record_via uuid now account_id action target payload db =
    if is_empty action then err invalid_argument else elim uuid [
      | none ↦ err internal
      | some id ↦
          record_entry
            (record {
              id = id;
              account_id = account_id;
              action = action;
              target = target;
              payload = payload;
              created_at = now;
            })
            db
    ]

pub record AuditFilter : Type 0 where
  pub account_id : Str
  pub since : Option ℕ
  pub limit : ℕ

abbrev pub no_earlier : Option ℕ → ℕ → Bool
no_earlier none at = true
no_earlier (some t) at = leb t at

-- ORDER BY created_at DESC, id DESC
abbrev pub newest_first : AuditEntry → AuditEntry → Bool
newest_first a b =
    ltb b.created_at a.created_at || a.created_at == b.created_at && str_leb b.id a.id

abbrev pub default_limit : ℕ → ℕ
default_limit n = if n == 0 then default_audit_limit else n

unfoldable pub list : AuditFilter → Db → List AuditEntry
unfolding str_leb
list f db = take (default_limit f.limit) (
    sort_by newest_first (
      keep
        (λ e.
          (is_empty f.account_id || str_eq e.account_id f.account_id)
          && no_earlier f.since e.created_at)
        db.audit_log))
