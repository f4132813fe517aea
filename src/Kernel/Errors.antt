-- ===== src/Kernel/Errors.antt =====
-- kernel/errors.go: the error detail that every component returns.
use feishu_super_search.Prelude.{String, Bool, ℤ}

-- The values of ErrorType; `other` is any text that is not one of the constants.
pub data ErrorType : Type 0 where
  invalid_request unsupported missing_scope identity_required not_found rate_limited : ErrorType
  upstream_transient upstream_permanent parse_error version_incompatible : ErrorType
  deadline_exceeded budget_exhausted cancelled internal : ErrorType
  other : String → ErrorType

-- `Details` (free-form data for a log) is left out: no code reads it.
pub record ErrorDetail : Type 0 where
  pub kind : ErrorType
  pub subtype : String
  pub code : ℤ
  pub message : String
  pub hint : String
  pub retryable : Bool
  pub provider_id : String
  pub source : String

-- kernel.NewError, and the composite literals that set only these two fields.
unfoldable pub new_error : ErrorType → String → ErrorDetail
new_error kind message = record {
  kind = kind;
  subtype = "";
  code = ℤ.pos 0;
  message = message;
  hint = "";
  retryable = Bool.false;
  provider_id = "";
  source = "";
}
