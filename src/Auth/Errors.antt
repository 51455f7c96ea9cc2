-- ===== src/Auth/Errors.antt =====
-- backend/enterprise_platform/auth.py: `AuthError` and `is_credential_failure`.
use easy_frame.Prelude.{ℕ, String, Bool, true, false, ◌&&◌, List, ◌==◌, nat_eq, string_eq}

-- `detail: Any` is a text, or the dict that asks for a second factor with the methods offered.
pub data Detail : Type 0 where
  message : String → Detail
  require_second_factor : List String → Detail

pub record AuthError : Type 0 where
  pub status_code : ℕ
  pub detail : Detail
  pub kind : String

-- `AuthError(status, detail)` with the default kind
abbrev pub auth_error : ℕ → String → AuthError
auth_error status text = record { status_code = status; detail = message text; kind = "credential" }

abbrev pub asks_second_factor : Detail → Bool
asks_second_factor (message _) = false
asks_second_factor (require_second_factor _) = true

unfoldable pub is_credential_failure : AuthError → Bool
is_credential_failure error = elim (asks_second_factor error.detail) [
  | true ↦ false
  | false ↦ error.status_code == 401 && error.kind == "credential"
]
