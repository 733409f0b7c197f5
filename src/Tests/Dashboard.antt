-- ===== src/Tests/Dashboard.antt =====
-- The guard of the dashboard and its handlers.
use claude_code_router.Common.{
  ◌≡◌, ◌≢◌, ◌↔◌, ◌⊎◌, ◌≤◌, refl, Text, codes, text_eq, Bool, true, false, List, [], ◌∷◌, Option,
  none, some, arith, if◌then◌else◌,
}
use claude_code_router.Json.{ℤ, Json}
use claude_code_router.Admin.Server.{Request, Outcome}
use claude_code_router.Admin.Server.Access.{run, Kept, IsLocal, serve-Kept}
use claude_code_router.Config.Types.{Config}
use claude_code_router.Config.Manager.{Manager, reload}
use claude_code_router.Admin.RawConfig.{broken_off, written, handle_set_raw_config}
use claude_code_router.Tests.Routing.{upstreams, start}
use claude_code_router.Config.Manager.{none_fails}
use claude_code_router.Db.{empty_database}
use claude_code_router.Admin.Loopback.{first_forwarded, loopback_only, loopback_only_iff}
use claude_code_router.Admin.Api.{State, put_provider, revoke, handle}
use claude_code_router.Admin.Api.Locked.{
  Edits, Command, Refuses, carry_out_all, set_raw_config-locked,
}
use claude_code_router.Admin.Server.Errors.{Fails, Unharmed, serve_error}
use claude_code_router.Tests.Store.{manager, decode, encode}

abbrev host_of : Text → Option Text
host_of s = some s

abbrev is_local : Text → Bool
is_local s = text_eq s (codes "127.0.0.1")

-- A peer elsewhere that sends the header itself is let through.
spoofed : loopback_only host_of is_local (codes "203.0.113.9") (codes "127.0.0.1") ≡ true
unfolding loopback_only text_eq claude_code_router.Common.trim_space
    claude_code_router.Common.before_byte
spoofed = refl

loopback_only_iff_example :
    (loopback_only host_of is_local (codes "203.0.113.9") (codes "127.0.0.1") ≡ true) ↔ (
      (is_local (codes "203.0.113.9") ≡ true)
      ⊎ ((codes "127.0.0.1" ≢ [])
          × (is_local (first_forwarded host_of is_local (codes "127.0.0.1")) ≡ true)))
loopback_only_iff_example =
    loopback_only_iff host_of is_local (codes "203.0.113.9") (codes "127.0.0.1")
      (codes "203.0.113.9") refl

abbrev no_body : Text → Option Json
no_body s = none

abbrev before : State
before = record { manager = manager; database = empty_database }

-- The text "{" does not decode.
abbrev decode_most : Text → Option Config
decode_most s = if text_eq s (codes "{") then none else decode s

torn : decode_most (codes "{") ≡ none
unfolding text_eq
torn = refl

abbrev overwritten : Manager
overwritten = (handle_set_raw_config written (some (codes "{")) manager).1

-- Behind it a provider is added and a key is revoked.
abbrev tried_edits : List Command
tried_edits =
    record { fault = none_fails; now = 8; action = put_provider [] }
    ∷ record { fault = none_fails; now = 9; action = revoke (codes "k1") }
    ∷ []

abbrev locked : State
locked =
    carry_out_all no_body decode_most encode tried_edits (record before { manager = overwritten })

set_raw_config-locked_example :
    (locked.manager.current ≡ manager.current)
    × (locked.manager.file ≡ some (codes "{"))
    × (reload decode_most encode locked.manager ≡ locked.manager)
    × ((c : Command)
        → Edits c.action
        → Refuses locked (handle no_body decode_most encode c.fault c.now c.action locked))
set_raw_config-locked_example =
    set_raw_config-locked no_body decode_most encode (codes "{") before tried_edits torn

abbrev no_scan : Text → Option ℤ
no_scan s = none

-- A remote peer without the header asks for a key to be revoked.
abbrev revoking : Request
revoking = record {
  remote_addr = codes "203.0.113.9";
  forwarded_for = [];
  method = codes "DELETE";
  path = some (codes "keys" ∷ codes "k1" ∷ []);
  query = record { key = []; model = []; from = []; to = []; limit = [] };
  body = [];
}

abbrev dashboard : Request → Outcome
dashboard r =
    run host_of is_local no_scan none no_body decode encode none_fails written 7 upstreams r before
      start

serve-Kept_example :
    Kept host_of is_local no_scan none no_body decode encode none_fails written 7 upstreams before
      start
      (dashboard revoking)
    ⊎ ((codes "DELETE" ≢ codes "GET")
        × IsLocal host_of is_local no_scan none no_body decode encode none_fails written 7 upstreams
            (codes "203.0.113.9")
            [])
serve-Kept_example =
    serve-Kept host_of is_local no_scan none no_body decode encode none_fails written 7 upstreams
      revoking before start

-- A local request to replace the raw configuration, whose write is broken off behind its first byte.
abbrev replacing : Request
replacing = record {
  remote_addr = codes "127.0.0.1";
  forwarded_for = [];
  method = codes "POST";
  path = some (codes "config" ∷ codes "raw" ∷ []);
  query = record { key = []; model = []; from = []; to = []; limit = [] };
  body = codes "{}";
}

abbrev breaking : Request → Outcome
breaking r =
    run host_of is_local no_scan none no_body decode encode none_fails (broken_off (codes "{")) 7
      upstreams r before start

breaks : Fails (breaking replacing).answer
unfolding claude_code_router.Admin.Server.serve loopback_only text_eq
    claude_code_router.Common.trim_space claude_code_router.Common.before_byte handle_set_raw_config
    claude_code_router.Server.known_method
breaks = omega arith

serve_error_example :
    Unharmed host_of is_local no_scan none no_body decode encode none_fails
      (broken_off (codes "{"))
      7
      upstreams
      replacing
      before
      start
      (breaking replacing)
serve_error_example =
    serve_error host_of is_local no_scan none no_body decode encode none_fails
      (broken_off (codes "{")) 7 upstreams replacing before start breaks
