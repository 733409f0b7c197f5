-- ===== src/Middleware/Auth.antt =====
-- middleware/auth.go. `header` is the request's http.Header.Get, which yields the empty string for a
-- missing header. The update of last_used runs in a goroutine of its own; `now` is its clock.
pub mod Access
use claude_code_router.Common.{
  ℕ, Text, codes, cut_prefix, Bool, true, false, if◌then◌else◌, List, [], ◌∷◌, Option, none, some,
}
use claude_code_router.Db.{ClientKey, Database, get_key, update_last_used}

abbrev or_empty : Option Text → Text
or_empty none = []
or_empty (some s) = s

first_of_headers : Text → Text → Text
first_of_headers [] authorization = or_empty (cut_prefix (codes "Bearer ") authorization)
first_of_headers (b ∷ key) authorization = b ∷ key

unfoldable pub extract_token : (Text → Text) → Text
unfolding first_of_headers
extract_token header =
    first_of_headers (header (codes "x-api-key")) (header (codes "Authorization"))

-- 401 with one of the two messages, or the next handler with the key in its context.
pub data Decision : Type 0 where
  missing invalid : Decision
  served : ClientKey → Decision

check : Option ClientKey → Decision
check none = invalid
check (some k) = if k.revoked then invalid else served k

decide : Text → Database → Decision
unfolding check
decide [] d = missing
decide (b ∷ token) d = check (get_key (b ∷ token) d)

recorded : Text → ℕ → Decision → Database → Database
recorded token now missing d = d
recorded token now invalid d = d
recorded token now (served k) d = update_last_used token now d

pub auth : (Text → Text) → (now : ℕ) → Database → Decision × Database
unfolding decide recorded
auth header now d =
    let token = extract_token header in (decide token d, recorded token now (decide token d) d)
