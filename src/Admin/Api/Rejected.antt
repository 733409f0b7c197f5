-- ===== src/Admin/Api/Rejected.antt =====
-- An action on the keys or the configuration that is answered with an error changes nothing.
use claude_code_router.Common.{ℕ, ◌≡◌, ◌≤◌, ◌<◌, refl, ap, Text, [], ◌∷◌, Option, none, some, arith}
use claude_code_router.Json.{ℤ, pos, negsuc, Json}
use claude_code_router.Config.Types.{ModelConfig, ProviderConfig, Config}
use claude_code_router.Config.Manager.{
  Manager, Error, Fault, upsert_model, delete_model, upsert_provider, delete_provider,
}
use claude_code_router.Config.Manager.Edits.{edit-failure}
use claude_code_router.Db.{Database, create_key}
use claude_code_router.Admin.Api.{
  State, Action, mint_key, revoke, put_model, remove_model, put_provider, remove_provider, add_key,
  remove_key, edited, created, mint, store_key, drop_key, save_model, save_provider, handle,
}

-- An answer below 400, or the state as it was.
abbrev Keeps : State → ℕ × State → Type 0
Keeps s r = 400 ≤ r.0 → r.1 ≡ s

module _ (decode : Text → Option Json) (read : Text → Option Config) (encode : Config → Option Text)
    (fault : Fault) (now : ℕ) where
  edited-Keeps :
      (fine : ℕ) (s : State) (r : Manager × Option Error)
      → fine < 400
      → ((e : Error) → r.1 ≡ some e → r.0 ≡ s.manager)
      → Keeps s (edited decode read encode fault now fine s r)
  unfolding edited
  edited-Keeps fine s (m, none) f h q = absurd (omega (arith, f, q))
  edited-Keeps fine s (m, some e) f h q = ap (λ x. record s { manager = x }) (h e refl)

  created-Keeps :
      (s : State) (o : Option Database) → Keeps s (created decode read encode fault now s o)
  unfolding created
  created-Keeps s none q = refl
  created-Keeps s (some d) q = absurd (omega (arith, q))

  mint-Keeps :
      (new_id name : Option Text) (s : State)
      → Keeps s (mint decode read encode fault now new_id name s)
  unfolding mint
  mint-Keeps new_id none s q = refl
  mint-Keeps new_id (some []) s q = refl
  mint-Keeps none (some (b ∷ name)) s q = refl
  mint-Keeps (some id) (some (b ∷ name)) s q =
      created-Keeps s (create_key id (b ∷ name) now s.database) q

  store_key-Keeps :
      (p : Text) (v : Option Text) (s : State)
      → Keeps s (store_key decode read encode fault now p v s)
  unfolding store_key
  store_key-Keeps p none s q = refl
  store_key-Keeps p (some []) s q = refl
  store_key-Keeps p (some (b ∷ v)) s q = absurd (omega (arith, q))

  drop_key-Keeps :
      (row : Option ℤ) (s : State) → Keeps s (drop_key decode read encode fault now row s)
  unfolding drop_key
  drop_key-Keeps none s q = refl
  drop_key-Keeps (some (pos id)) s q = absurd (omega (arith, q))
  drop_key-Keeps (some (negsuc n)) s q = refl

  named-Keeps :
      (m : ModelConfig) (alias : Text) (s : State)
      → Keeps s (elim alias [
        | [] ↦ (400, s)
        | b ∷ rest ↦
            edited decode read encode fault now 200 s (upsert_model read encode m fault s.manager)
      ])
  unfolding upsert_model
  named-Keeps m [] s q = refl
  named-Keeps m (b ∷ rest) s q =
      edited-Keeps 200 s (upsert_model read encode m fault s.manager) (omega arith)
        (λ e p. edit-failure read encode _ fault s.manager e p) q

  save_model-Keeps :
      (o : Option ModelConfig) (s : State) → Keeps s (save_model decode read encode fault now o s)
  unfolding save_model
  save_model-Keeps none s q = refl
  save_model-Keeps (some m) s q = named-Keeps m m.alias s q

  save_provider-Keeps :
      (o : Option (Text × ProviderConfig)) (s : State)
      → Keeps s (save_provider decode read encode fault now o s)
  unfolding save_provider upsert_provider
  save_provider-Keeps none s q = refl
  save_provider-Keeps (some ([], p)) s q = refl
  save_provider-Keeps (some (b ∷ id, p)) s q =
      edited-Keeps 200 s (upsert_provider read encode (b ∷ id) p fault s.manager) (omega arith)
        (λ e x. edit-failure read encode _ fault s.manager e x) q

  -- An action on the keys, the models or the providers that is answered with a status of 400 or more
  -- leaves the configuration, its file and the tables as they were.
  pub handle_error :
      (a : Action) (s : State)
      → 400 ≤ (handle decode read encode fault now a s).0
      → (handle decode read encode fault now a s).1 ≡ s
  unfolding handle delete_model delete_provider
  handle_error (mint_key new_id body) s q = mint-Keeps new_id _ s q
  handle_error (revoke id) s q = absurd (omega (arith, q))
  handle_error (put_model body) s q = save_model-Keeps _ s q
  handle_error (remove_model alias) s q =
      edited-Keeps 204 s (delete_model read encode alias fault s.manager) (omega arith)
        (λ e p. edit-failure read encode _ fault s.manager e p) q
  handle_error (put_provider body) s q = save_provider-Keeps _ s q
  handle_error (remove_provider id) s q =
      edited-Keeps 204 s (delete_provider read encode id fault s.manager) (omega arith)
        (λ e p. edit-failure read encode _ fault s.manager e p) q
  handle_error (add_key p body) s q = store_key-Keeps p _ s q
  handle_error (remove_key row) s q = drop_key-Keeps row s q
