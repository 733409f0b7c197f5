-- ===== src/Providers/Http.antt =====
-- What a provider sees of one HTTP exchange, and the parts that the two providers share. net/http and
-- the readers of numbers and dates are arguments.
use claude_code_router.Common.{
  codes, ℕ, ◌+◌, ◌-◌, Text, trim_space, Bool, ltb, if◌then◌else◌, List, [], ◌∷◌, Option, none, some,
}
use claude_code_router.Json.{ℤ, pos}
use claude_code_router.Providers.Errors.{Error}
use claude_code_router.Events.Lines.{scan_lines}

-- A response body: its bytes, the error that ends its reading, if any, and, when the line of a number
-- is scanned, whether the client has gone and whether the reader has met the end or the error already.
pub record Body : Type 0 where
  pub bytes : Text
  pub read_error : Option Text
  pub cancelled : ℕ → Bool
  pub met : ℕ → Bool

pub record Response : Type 0 where
  pub status : ℕ
  pub retry_after : Text
  pub body : Body

-- No request could be built, the request failed (with whether the client had gone and whether the
-- failure is a timeout), or there is a response.
pub data Exchange : Type 0 where
  not_built : Text → Exchange
  no_response : (client_gone timed_out : Bool) → Text → Exchange
  responded : Response → Exchange

-- The three results of Stream, and the bytes that it wrote.
pub record Streamed : Type 0 where
  pub input_tokens : ℤ
  pub output_tokens : ℤ
  pub error : Option Error
  pub written : Text

unfoldable pub refused : Error → Streamed
refused e = record { input_tokens = pos 0; output_tokens = pos 0; error = some e; written = [] }

-- What a scanner with a buffer of `max` bytes makes of a body: its lines and scanner.Err.
unfoldable pub scan : ℕ → Body → List Text × Option Text
scan max b =
    let (ls, too_long) = scan_lines max b.bytes in
    (ls, if too_long then some (codes "bufio.Scanner: token too long") else b.read_error)

-- scanner.Err while the line of a number is handled.
abbrev pub err_at : Body → ℕ → Option Text
err_at b i = if b.met i then b.read_error else none

abbrev half_second : ℕ
half_second = 500_000_000

after_half_second : Option ℕ → ℕ
after_half_second none = 0
after_half_second (some d) = if ltb 0 d then d + half_second else 0

-- `read_seconds` yields the duration of a positive number of seconds, and `read_date` the time of an
-- HTTP date.
pub parse_retry_after : (Text → Option ℕ) → (Text → Option ℕ) → (now : ℕ) → Text → ℕ
unfolding after_half_second
parse_retry_after read_seconds read_date now h = elim (trim_space h) [
  | [] ↦ 0
  | b ∷ s ↦ elim (read_seconds (b ∷ s)) [
    | some d ↦ d + half_second
    | none ↦ after_half_second (until (read_date (b ∷ s)))
  ]
]
  where
    until : Option ℕ → Option ℕ
    until none = none
    until (some t) = some (t - now)
