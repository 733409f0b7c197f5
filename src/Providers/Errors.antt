-- ===== src/Providers/Errors.antt =====
-- providers/base.go: the sentinel errors, the error structs and what errors.Is and errors.As see in
-- them. A Go error value is a value of `Error`; fmt.Errorf with %w is `wrapped`, without it `plain`.
use claude_code_router.Common.{ℕ, Text, Bool, false, ◌||◌, ◌==◌, Option, none, some}

pub data Sentinel : Type 0 where
  rate_limit upstream attempt_timeout connection model_unavailable : Sentinel
  context_exceeded all_exhausted : Sentinel

abbrev rank : Sentinel → ℕ
rank rate_limit = 0
rank upstream = 1
rank attempt_timeout = 2
rank connection = 3
rank model_unavailable = 4
rank context_exceeded = 5
rank all_exhausted = 6

abbrev pub same : Sentinel → Sentinel → Bool
same a b = rank a == rank b

pub data Error : Type 0 where
  sentinel : Sentinel → Error
  attempt_timeout_error : (timeout : ℕ) → Error
  connection_error : Error → Error
  model_unavailable_error : (status : ℕ) (body : Text) → Error
  context_exceeded_error : (context_limit input_tokens : ℕ) → Error
  rate_limit_error : (retry_after : ℕ) → Error
  wrapped : Text → Error → Error
  plain : Text → Error

-- errors.Is: the value itself, its `Is` method, then the chain of `Unwrap`.
unfoldable pub is : Error → Sentinel → Bool
is (sentinel s) t = same s t
is (attempt_timeout_error d) t = same attempt_timeout t
is (connection_error e) t = same connection t || is e t
is (model_unavailable_error st b) t = same model_unavailable t
is (context_exceeded_error l n) t = same context_exceeded t
is (rate_limit_error d) t = same rate_limit t
is (wrapped m e) t = is e t
is (plain m) t = false

-- errors.As into *RateLimitError, as the duration it carries.
unfoldable pub as_rate_limit : Error → Option ℕ
as_rate_limit (rate_limit_error d) = some d
as_rate_limit (connection_error e) = as_rate_limit e
as_rate_limit (wrapped m e) = as_rate_limit e
as_rate_limit _ = none

-- errors.As into *ContextExceededError, as the context limit and the input tokens.
pub as_context_exceeded : Error → Option (ℕ × ℕ)
as_context_exceeded (context_exceeded_error l n) = some (l, n)
as_context_exceeded (connection_error e) = as_context_exceeded e
as_context_exceeded (wrapped m e) = as_context_exceeded e
as_context_exceeded _ = none
