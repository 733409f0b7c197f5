-- ===== src/Admin/Api/Locked.antt =====
-- The dashboard after its raw configuration was replaced by a text that does not decode.
use claude_code_router.Common.{
  ℕ, ◌≡◌, ◌≤◌, refl, ap, ◌∙◌, Text, List, [], ◌∷◌, Option, none, some, arith,
}
use claude_code_router.Json.{ℤ, pos, negsuc, Json}
use claude_code_router.Config.Types.{ModelConfig, ProviderConfig, Config}
use claude_code_router.Config.Manager.{
  Manager, Error, load_current, Fault, parse_file, reload, edit, upsert_model, delete_model,
  upsert_provider, delete_provider,
}
use claude_code_router.Db.{Database}
use claude_code_router.Admin.RawConfig.{written, handle_set_raw_config}
use claude_code_router.Admin.Api.{
  State, Action, mint_key, revoke, put_model, remove_model, put_provider, remove_provider, add_key,
  remove_key, edited, created, mint, store_key, drop_key, save_model, save_provider, handle,
}

-- The actions that edit the configuration.
abbrev pub Edits : Action → Type 0
Edits (mint_key new_id body) = ⊥
Edits (revoke id) = ⊥
Edits (put_model body) = Unit
Edits (remove_model alias) = Unit
Edits (put_provider body) = Unit
Edits (remove_provider id) = Unit
Edits (add_key p body) = ⊥
Edits (remove_key row) = ⊥

-- An action as it is carried out: how far the write of the file gets, the time, and the action.
pub record Command : Type 0 where
  pub fault : Fault
  pub now : ℕ
  pub action : Action

-- The answer is an error, and the state is as it was.
abbrev pub Refuses : State → ℕ × State → Type 0
Refuses s r = (400 ≤ r.0) × (r.1 ≡ s)

module _ (decode : Text → Option Json) (read : Text → Option Config)
    (encode : Config → Option Text) where
  abbrev Stuck : Manager → Type 0
  Stuck m = parse_file read encode m.file ≡ none

  edit-Stuck :
      (change : Config → Config) (fault : Fault) (m : Manager)
      → Stuck m
      → edit read encode change fault m ≡ (m, some load_current)
  unfolding edit
  edit-Stuck change fault m h = rw (h, edit) refl

  edited-Refuses :
      (fault : Fault) (now fine : ℕ) (s : State) (r : Manager × Option Error)
      → r ≡ (s.manager, some load_current)
      → Refuses s (edited decode read encode fault now fine s r)
  unfolding edited
  edited-Refuses fault now fine s r e = rw e (omega arith, refl)

  save_model-Refuses :
      (fault : Fault) (now : ℕ) (o : Option ModelConfig) (s : State)
      → Stuck s.manager
      → Refuses s (save_model decode read encode fault now o s)
  unfolding save_model upsert_model
  save_model-Refuses fault now none s h = (omega arith, refl)
  save_model-Refuses fault now (some m) s h = by_alias m.alias
    where
      by_alias :
          (alias : Text)
          → Refuses s (elim alias [
            | [] ↦ (400, s)
            | b ∷ rest ↦
                edited decode read encode fault now 200 s
                  (upsert_model read encode m fault s.manager)
          ])
      by_alias [] = (omega arith, refl)
      by_alias (b ∷ rest) = edited-Refuses fault now 200 s _ (edit-Stuck _ fault s.manager h)

  save_provider-Refuses :
      (fault : Fault) (now : ℕ) (o : Option (Text × ProviderConfig)) (s : State)
      → Stuck s.manager
      → Refuses s (save_provider decode read encode fault now o s)
  unfolding save_provider upsert_provider
  save_provider-Refuses fault now none s h = (omega arith, refl)
  save_provider-Refuses fault now (some ([], p)) s h = (omega arith, refl)
  save_provider-Refuses fault now (some (b ∷ id, p)) s h =
      edited-Refuses fault now 200 s _ (edit-Stuck _ fault s.manager h)

  handle-Refuses :
      (fault : Fault) (now : ℕ) (a : Action) (s : State)
      → Stuck s.manager
      → Edits a
      → Refuses s (handle decode read encode fault now a s)
  unfolding handle delete_model delete_provider
  handle-Refuses fault now (mint_key new_id body) s h x = absurd x
  handle-Refuses fault now (revoke id) s h x = absurd x
  handle-Refuses fault now (put_model body) s h x = save_model-Refuses fault now _ s h
  handle-Refuses fault now (remove_model alias) s h x =
      edited-Refuses fault now 204 s _ (edit-Stuck _ fault s.manager h)
  handle-Refuses fault now (put_provider body) s h x = save_provider-Refuses fault now _ s h
  handle-Refuses fault now (remove_provider id) s h x =
      edited-Refuses fault now 204 s _ (edit-Stuck _ fault s.manager h)
  handle-Refuses fault now (add_key p body) s h x = absurd x
  handle-Refuses fault now (remove_key row) s h x = absurd x

  created-manager :
      (fault : Fault) (now : ℕ) (s : State) (o : Option Database)
      → (created decode read encode fault now s o).1.manager ≡ s.manager
  unfolding created
  created-manager fault now s none = refl
  created-manager fault now s (some d) = refl

  mint-manager :
      (fault : Fault) (now : ℕ) (new_id name : Option Text) (s : State)
      → (mint decode read encode fault now new_id name s).1.manager ≡ s.manager
  unfolding mint
  mint-manager fault now new_id none s = refl
  mint-manager fault now new_id (some []) s = refl
  mint-manager fault now none (some (b ∷ name)) s = refl
  mint-manager fault now (some id) (some (b ∷ name)) s = created-manager fault now s _

  store_key-manager :
      (fault : Fault) (now : ℕ) (p : Text) (v : Option Text) (s : State)
      → (store_key decode read encode fault now p v s).1.manager ≡ s.manager
  unfolding store_key
  store_key-manager fault now p none s = refl
  store_key-manager fault now p (some []) s = refl
  store_key-manager fault now p (some (b ∷ v)) s = refl

  drop_key-manager :
      (fault : Fault) (now : ℕ) (row : Option ℤ) (s : State)
      → (drop_key decode read encode fault now row s).1.manager ≡ s.manager
  unfolding drop_key
  drop_key-manager fault now none s = refl
  drop_key-manager fault now (some (pos id)) s = refl
  drop_key-manager fault now (some (negsuc n)) s = refl

  handle-manager :
      (fault : Fault) (now : ℕ) (a : Action) (s : State)
      → Stuck s.manager
      → (handle decode read encode fault now a s).1.manager ≡ s.manager
  unfolding handle
  handle-manager fault now (mint_key new_id body) s h = mint-manager fault now new_id _ s
  handle-manager fault now (revoke id) s h = refl
  handle-manager fault now (put_model body) s h =
      ap (λ t. t.manager) (handle-Refuses fault now (put_model body) s h tt).1
  handle-manager fault now (remove_model alias) s h =
      ap (λ t. t.manager) (handle-Refuses fault now (remove_model alias) s h tt).1
  handle-manager fault now (put_provider body) s h =
      ap (λ t. t.manager) (handle-Refuses fault now (put_provider body) s h tt).1
  handle-manager fault now (remove_provider id) s h =
      ap (λ t. t.manager) (handle-Refuses fault now (remove_provider id) s h tt).1
  handle-manager fault now (add_key p body) s h = store_key-manager fault now p _ s
  handle-manager fault now (remove_key row) s h = drop_key-manager fault now row s

  abbrev pub carry_out : Command → State → State
  carry_out c s = (handle decode read encode c.fault c.now c.action s).1

  abbrev pub carry_out_all : List Command → State → State
  carry_out_all [] s = s
  carry_out_all (c ∷ cs) s = carry_out_all cs (carry_out c s)

  all-manager :
      (cs : List Command) (s : State) → Stuck s.manager → (carry_out_all cs s).manager ≡ s.manager
  all-manager [] s h = refl
  all-manager (c ∷ cs) s h =
      let e = handle-manager c.fault c.now c.action s h in
      all-manager cs (carry_out c s) (rw e h) ∙ e

  -- A raw configuration that does not decode is written, and then locks the dashboard: whatever actions
  -- on the keys, the models and the providers follow, the manager keeps the configuration in use and the
  -- file, reloading changes nothing, and every edit of a model or a provider is answered with an error and
  -- changes nothing.
  pub set_raw_config-locked :
      (bytes : Text) (s : State) (cs : List Command)
      → read bytes ≡ none
      → let m = (handle_set_raw_config written (some bytes) s.manager).1 in
        let t = carry_out_all cs (record s { manager = m }) in
        (t.manager.current ≡ s.manager.current)
        × (t.manager.file ≡ some bytes)
        × (reload read encode t.manager ≡ t.manager)
        × ((c : Command)
            → Edits c.action
            → Refuses t (handle decode read encode c.fault c.now c.action t))
  unfolding handle_set_raw_config parse_file reload
  set_raw_config-locked bytes s cs d = (
    ap (λ x. x.current) kept,
    ap (λ x. x.file) kept,
    rw (stuck_then, reload) refl,
    λ c e. handle-Refuses c.fault c.now c.action _ stuck_then e,
  )
    where
      m : Manager
      m = record s.manager { file = some bytes }

      stuck : Stuck m
      stuck = rw (d, parse_file) refl

      kept : (carry_out_all cs (record s { manager = m })).manager ≡ m
      kept = all-manager cs (record s { manager = m }) stuck

      stuck_then : Stuck (carry_out_all cs (record s { manager = m })).manager
      stuck_then = rw kept stuck
