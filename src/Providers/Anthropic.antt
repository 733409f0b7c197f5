-- ===== src/Providers/Anthropic.antt =====
-- providers/anthropic.go, Stream: the events of an Anthropic upstream are passed on unchanged, and
-- their token counts are read on the way.
pub mod Forwarding
pub mod Quiet
pub mod Patch
use claude_code_router.Common.{
  ℕ, suc, Text, codes, text_eq, join, Bool, true, false, leb, ◌==◌, if◌then◌else◌, List, [], ◌∷◌,
  ◌++◌, Option, none, some,
}
use claude_code_router.Json.{ℤ, pos, Json}
use claude_code_router.Json.Decode.{str_field, int_field, obj_field, top, ◌>>=◌}
use claude_code_router.Events.{Line, event, data_, blank, other, classify}
use claude_code_router.Providers.Errors.{
  Error, plain, wrapped, sentinel, upstream, rate_limit_error, connection_error,
}
use claude_code_router.Providers.Http.{
  Body, Response, Exchange, not_built, no_response, responded, Streamed, refused, scan,
}

-- The variables of the loop, with the bytes written so far.
pub record Reader : Type 0 where
  pub input_tokens : ℤ
  pub output_tokens : ℤ
  pub event_type : Text
  pub data_lines : List Text
  pub out : Text

pub new_reader : Reader
new_reader = record {
  input_tokens = pos 0;
  output_tokens = pos 0;
  event_type = [];
  data_lines = [];
  out = [];
}

input_of : Json → Option ℤ
input_of v = do
  fs ← top v
  t ← str_field (codes "type") fs
  m ← obj_field (codes "message") fs
  u ← obj_field (codes "usage") m
  int_field (codes "input_tokens") u

output_of : Json → Option ℤ
output_of v = do fs ← top v; u ← obj_field (codes "usage") fs; int_field (codes "output_tokens") u

abbrev or_old : Option ℤ → ℤ → ℤ
or_old none n = n
or_old (some m) n = m

-- The switch on the event's type.
count : (Text → Option Json) → Text → Text → Reader → Reader
unfolding input_of output_of
count decode name content r =
    if text_eq name (codes "message_start")
    then record r { input_tokens = or_old (decode content >>= input_of) r.input_tokens }
    else if text_eq name (codes "message_delta")
    then record r { output_tokens = or_old (decode content >>= output_of) r.output_tokens }
    else r

event_line : Text → Text
event_line [] = []
event_line (b ∷ name) = codes "event: " ++ b ∷ name ++ 10 ∷ []

data_block : List Text → Text
data_block [] = 10 ∷ []
data_block (d ∷ ds) = codes "data: " ++ d ++ 10 ∷ data_block ds

-- An event as it is forwarded.
pub forwarded : Text → List Text → Text
unfolding event_line data_block
forwarded name ds = event_line name ++ data_block ds

flush : (Text → Option Json) → Text → List Text → Reader → Reader
unfolding count forwarded
flush decode name [] r = record r { event_type = [] }
flush decode name (d ∷ ds) r =
    let r' = count decode name (join (10 ∷ []) (d ∷ ds)) r in
    record r' { event_type = []; data_lines = []; out = r'.out ++ forwarded name (d ∷ ds) }

pub on_line : (Text → Option Json) → Line → Reader → Reader
unfolding flush
on_line decode (event v) r = record r { event_type = v }
on_line decode (data_ v) r = record r { data_lines = r.data_lines ++ v ∷ [] }
on_line decode blank r = flush decode r.event_type r.data_lines r
on_line decode other r = r

streamed : Option Error → Reader → Streamed
streamed e r = record {
  input_tokens = r.input_tokens;
  output_tokens = r.output_tokens;
  error = e;
  written = r.out;
}

abbrev read_failure : Option Text → Option Error
read_failure none = none
read_failure (some e) = some (wrapped (codes "anthropic: read stream") (plain e))

-- The loop over the lines from number `i` on.
read_lines : (Text → Option Json) → (ℕ → Bool) → ℕ → List Text → Option Text → Reader → Streamed
unfolding on_line streamed
read_lines decode gone i [] failure r = streamed (read_failure failure) r
read_lines decode gone i (l ∷ ls) failure r =
    let rest = read_lines decode gone (suc i) ls failure (on_line decode (classify l) r) in
    if gone i then streamed (some (plain (codes "context canceled"))) r else rest

-- The default buffer of a bufio.Scanner.
abbrev pub max_token : ℕ
max_token = 65536

read_body : (Text → Option Json) → Body → Streamed
unfolding read_lines scan new_reader
read_body decode b =
    let (ls, failure) = scan max_token b in read_lines decode b.cancelled 0 ls failure new_reader

on_response : (Text → Option Json) → (Text → ℕ) → Response → Streamed
unfolding read_body refused
on_response decode retry_after resp =
    let streaming = read_body decode resp.body in
    if resp.status == 429
    then refused (rate_limit_error (retry_after resp.retry_after))
    else if leb 500 resp.status
    then refused (sentinel upstream)
    else if resp.status == 200
    then streaming
    else refused (plain (codes "anthropic: unexpected status"))

unfoldable pub stream : (Text → Option Json) → (Text → ℕ) → Exchange → Streamed
unfolding on_response refused
stream decode retry_after (not_built e) = refused (plain e)
stream decode retry_after (no_response true timed_out e) =
    refused (wrapped (codes "anthropic: do request") (plain e))
stream decode retry_after (no_response false timed_out e) =
    refused (wrapped (codes "anthropic: do request") (connection_error (plain e)))
stream decode retry_after (responded resp) = on_response decode retry_after resp
