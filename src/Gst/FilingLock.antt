-- ===== src/Gst/FilingLock.antt =====
-- `ensure_gst_period_mutable` and `ensure_outward_period_mutable`
-- (backend/src/domains/taxation/filing_lock.py), on the rows of `GSTReturn`.
use text.Mathlib.Text.{◌==◌ as str_eq}
use bookkeeping.Base.{Bool, List, Result, String, [], any_of, leb, raise_if, ℕ, ◌&&◌, ◌==◌, ◌∷◌}

pub record GstReturn : Type 0 where
  pub tenant_id : ℕ
  pub return_type : String
  pub period_start : ℕ
  pub period_end : ℕ
  pub status : String

pub data FilingError : Type 0 where
  period_filed : FilingError

-- `status.in_(("FILED", "ACKNOWLEDGED"))`
abbrev pub is_filed : String → Bool
is_filed status = any_of (str_eq status) ("FILED" ∷ "ACKNOWLEDGED" ∷ [])

-- The filters of the query.
unfoldable pub is_filed_for : ℕ → ℕ → List String → GstReturn → Bool
is_filed_for tenant date return_types r =
    r.tenant_id == tenant
    && any_of (str_eq r.return_type) return_types
    && is_filed r.status
    && leb r.period_start date
    && leb date r.period_end

unfoldable pub ensure_gst_period_mutable :
    List GstReturn → ℕ → ℕ → List String → Result FilingError (Unit {0})
ensure_gst_period_mutable returns tenant document_date return_types =
    raise_if (any_of (is_filed_for tenant document_date return_types) returns) period_filed

unfoldable pub ensure_outward_period_mutable :
    List GstReturn → ℕ → ℕ → Result FilingError (Unit {0})
unfolding ensure_gst_period_mutable
ensure_outward_period_mutable returns tenant document_date =
    ensure_gst_period_mutable returns tenant document_date ("GSTR1" ∷ "GSTR3B" ∷ [])
