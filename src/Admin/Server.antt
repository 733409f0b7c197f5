-- ===== src/Admin/Server.antt =====
-- admin/server.go, Start: the routes of the dashboard behind loopbackOnly. A path is the list of the
-- segments behind /admin/api, or `none` for any other path, which the static files answer. `scan` is
-- fmt.Sscan on a row's id. The event streams, the version, the restart and the update change nothing
-- that is modelled.
pub mod Access
pub mod Errors
use claude_code_router.Common.{
  ℕ, Text, codes, text_eq, Bool, true, false, if◌then◌else◌, List, [], ◌∷◌, Option, none, some,
}
use claude_code_router.Json.{ℤ, Json}
use claude_code_router.Config.Types.{Config}
use claude_code_router.Config.Manager.{Fault}
use claude_code_router.Db.{get_provider_key_values}
use claude_code_router.Router.Upstream.{Upstream, World}
use claude_code_router.Server.{known_method}
use claude_code_router.Admin.Loopback.{loopback_only}
use claude_code_router.Admin.Api.{
  State, Action, mint_key, revoke, put_model, remove_model, put_provider, remove_provider, add_key,
  remove_key, handle,
}
use claude_code_router.Admin.RawConfig.{Write, handle_get_raw_config, handle_set_raw_config}
use claude_code_router.Admin.Trial.{TestResult, handle_test}
use claude_code_router.Admin.Views.{UsageQuery}

-- The handlers that show something, with what they read of the URL.
pub data View : Type 0 where
  health info version keys usage usage_summary usage_live models providers config_path
        config_events :
      View
  provider_keys : (id : Text) → View

pub data Endpoint : Type 0 where
  shows : View → Endpoint
  changes : Action → Endpoint
  tries restarts updates reads_raw writes_raw : Endpoint
  method_not_allowed not_found : Endpoint

pub record Request : Type 0 where
  pub remote_addr : Text
  pub forwarded_for : Text
  pub method : Text
  pub path : Option (List Text)
  pub query : UsageQuery
  pub body : Text

-- The handlers of one path, by the method.
abbrev pub by_get : Text → Endpoint → Endpoint
by_get method e = if text_eq method (codes "GET") then e else method_not_allowed

abbrev pub by_post : Text → Endpoint → Endpoint
by_post method e = if text_eq method (codes "POST") then e else method_not_allowed

abbrev pub by_delete : Text → Endpoint → Endpoint
by_delete method e = if text_eq method (codes "DELETE") then e else method_not_allowed

abbrev pub by_get_or_post : Text → Endpoint → Endpoint → Endpoint
by_get_or_post method shown changed =
    if text_eq method (codes "GET") then shown else by_post method changed

module _ (scan : Text → Option ℤ) (new_id : Option Text) (method body : Text) where
  one : Text → Endpoint
  one a =
      if text_eq a (codes "health")
      then by_get method (shows health)
      else if text_eq a (codes "info")
      then by_get method (shows info)
      else if text_eq a (codes "version")
      then by_get method (shows version)
      else if text_eq a (codes "update")
      then by_post method updates
      else if text_eq a (codes "test")
      then by_post method tries
      else if text_eq a (codes "restart")
      then by_post method restarts
      else if text_eq a (codes "keys")
      then by_get_or_post method (shows keys) (changes (mint_key new_id body))
      else if text_eq a (codes "usage")
      then by_get method (shows usage)
      else if text_eq a (codes "models")
      then by_get_or_post method (shows models) (changes (put_model body))
      else if text_eq a (codes "providers")
      then by_get_or_post method (shows providers) (changes (put_provider body))
      else not_found

  usage_page : Text → Endpoint
  usage_page b =
      if text_eq b (codes "summary")
      then by_get method (shows usage_summary)
      else if text_eq b (codes "live")
      then by_get method (shows usage_live)
      else not_found

  config_page : Text → Endpoint
  config_page b =
      if text_eq b (codes "path")
      then by_get method (shows config_path)
      else if text_eq b (codes "raw")
      then by_get_or_post method reads_raw writes_raw
      else if text_eq b (codes "events")
      then by_get method (shows config_events)
      else not_found

  -- A parameter of the path is not empty.
  with_parameter : Text → Endpoint → Endpoint
  with_parameter [] e = not_found
  with_parameter (b ∷ s) e = e

  two : Text → Text → Endpoint
  unfolding usage_page config_page with_parameter
  two a b =
      if text_eq a (codes "keys")
      then with_parameter b (by_delete method (changes (revoke b)))
      else if text_eq a (codes "usage")
      then usage_page b
      else if text_eq a (codes "models")
      then with_parameter b (by_delete method (changes (remove_model b)))
      else if text_eq a (codes "providers")
      then with_parameter b (by_delete method (changes (remove_provider b)))
      else if text_eq a (codes "config")
      then config_page b
      else not_found

  provider_page : Text → Endpoint
  provider_page id = by_get_or_post method (shows (provider_keys id)) (changes (add_key id body))

  pub route : List Text → Endpoint
  unfolding one two provider_page
  route [] = not_found
  route (a ∷ []) = one a
  route (a ∷ b ∷ []) = two a b
  route (a ∷ b ∷ c ∷ []) =
      if text_eq a (codes "providers")
      then (if text_eq c (codes "keys") then with_parameter b (provider_page b) else not_found)
      else not_found
  route (a ∷ b ∷ c ∷ d ∷ []) =
      if text_eq a (codes "providers")
      then (if text_eq c (codes "keys")
          then with_parameter b
              (with_parameter d (by_delete method (changes (remove_key (scan d)))))
          else not_found)
      else not_found
  route (a ∷ b ∷ c ∷ d ∷ e ∷ rest) = not_found

-- `outside` is the answer of a handler that is not modelled, `shown` what Admin/Views prints.
pub data Answer : Type 0 where
  forbidden static_file outside : Answer
  shown : View → Answer
  status : ℕ → Answer
  raw : ℕ × Option Text → Answer
  tested : List TestResult → Answer

pub record Outcome : Type 0 where
  pub answer : Answer
  pub state : State
  pub world : World

abbrev unchanged : Answer → State → World → Outcome
unchanged a s w = record { answer = a; state = s; world = w }

module _ (split_host : Text → Option Text) (loopback : Text → Bool) (scan : Text → Option ℤ)
    (new_id : Option Text) (decode : Text → Option Json) (read : Text → Option Config)
    (encode : Config → Option Text) (fault : Fault) (writes : Write) (now : ℕ) (up : Upstream) where
  changed : State → World → ℕ × State → Outcome
  changed s w (c, t) = unchanged (status c) t w

  perform : Endpoint → Text → State → World → Outcome
  unfolding changed
  perform (shows v) body s w = unchanged (shown v) s w
  perform (changes a) body s w = changed s w (handle decode read encode fault now a s)
  perform tries body s w =
      let (rs, v) =
        handle_test up (λ p. get_provider_key_values p s.database) s.manager.current w in
      unchanged (tested rs) s v
  perform restarts body s w = unchanged outside s w
  perform updates body s w = unchanged outside s w
  perform reads_raw body s w = unchanged (raw (handle_get_raw_config s.manager)) s w
  perform writes_raw body s w =
      let (c, m) = handle_set_raw_config writes (some body) s.manager in
      unchanged (status c) (record s { manager = m }) w
  perform method_not_allowed body s w = unchanged (status 405) s w
  perform not_found body s w = unchanged (status 404) s w

  at_path : Option (List Text) → Request → State → World → Outcome
  unfolding route perform
  at_path none r s w = unchanged static_file s w
  at_path (some path) r s w = perform (route scan new_id r.method r.body path) r.body s w

  -- Chi answers 405 at any path to a method that it does not know.
  api : Request → State → World → Outcome
  unfolding at_path
  api r s w = if known_method r.method then at_path r.path r s w else unchanged (status 405) s w

  unfoldable pub serve : Request → State → World → Outcome
  unfolding api
  serve r s w =
      if loopback_only split_host loopback r.remote_addr r.forwarded_for
      then api r s w
      else unchanged forbidden s w
