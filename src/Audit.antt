-- ===== src/Audit.antt =====
-- internal/audit/log.go: the append-only trail.
use frpay.Prelude.{ℕ, String, Option, List, [], ◌∷◌, ◌++◌}
use frpay.Store.{Detail, ok, Action, DbError, Statement, statement}

-- Logger.Log. Marshalling a map of texts and numbers does not fail.
unfoldable pub log :
    {D : Type 0}
    → Option ℕ
    → String
    → String
    → String
    → List (String × Detail)
    → Action D DbError Unit
log order_id chain tx_hash event_type details = statement (Statement.log_audit event_type) λ w. (
  ok tt,
  record w {
    audit_log =
        w.audit_log
        ++ record {
          order_id = order_id;
          chain = chain;
          tx_hash = tx_hash;
          event_type = event_type;
          details = details;
        }
          ∷ [];
  },
)
