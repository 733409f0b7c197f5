-- ===== src/Config/Manager/Edits.antt =====
-- What the dashboard's edits do to the models and the providers.
use claude_code_router.Common.{
  ◌≡◌, refl, Text, text_eq, text_eq_iff, not, if◌then◌else◌, List, [], ◌∷◌, Option, none, some,
  select, Option-cases, inl, inr, arith,
}
use claude_code_router.Config.Types.{ProviderConfig, ModelConfig, Config, Dict, lookup}
use claude_code_router.Router.Chain.{find_model}
use claude_code_router.Config.Manager.{
  Result, ok, err, Error, Fault, none_fails, create_fails, close_fails, rename_fails, Manager,
  parse_file, write_config, commit, edit, replace_model, insert_provider,
}

pub find-replace_model :
    (alias : Text) (m : ModelConfig) (ms : List ModelConfig)
    → find_model alias (replace_model m ms)
      ≡ (if text_eq m.alias alias then some m else find_model alias ms)
unfolding find_model replace_model
find-replace_model alias m [] = refl
find-replace_model alias m (x ∷ xs) = ground (
  arith,
  text_eq_iff x.alias m.alias,
  text_eq_iff m.alias alias,
  text_eq_iff x.alias alias,
  find-replace_model alias m xs,
)

pub find-select :
    (alias gone : Text) (ms : List ModelConfig)
    → find_model alias (select (λ m. not (text_eq m.alias gone)) ms)
      ≡ (if text_eq gone alias then none else find_model alias ms)
unfolding find_model
find-select alias gone [] = ground arith
find-select alias gone (x ∷ xs) = ground (
  arith,
  text_eq_iff x.alias gone,
  text_eq_iff gone alias,
  text_eq_iff x.alias alias,
  find-select alias gone xs,
)

pub lookup-insert_provider :
    (id j : Text) (p : ProviderConfig) (d : Dict ProviderConfig)
    → lookup j (insert_provider id p d) ≡ (if text_eq id j then some p else lookup j d)
unfolding lookup insert_provider
lookup-insert_provider id j p [] = refl
lookup-insert_provider id j p ((i, q) ∷ d) =
    ground
      (arith, text_eq_iff id j, text_eq_iff i id, text_eq_iff i j, lookup-insert_provider id j p d)

pub lookup-select :
    (j gone : Text) (d : Dict ProviderConfig)
    → lookup j (select (λ e. not (text_eq e.0 gone)) d)
      ≡ (if text_eq gone j then none else lookup j d)
unfolding lookup
lookup-select j gone [] = ground arith
lookup-select j gone ((i, q) ∷ d) =
    ground (arith, text_eq_iff gone j, text_eq_iff i gone, text_eq_iff i j, lookup-select j gone d)

module _ (decode : Text → Option Config) (encode : Config → Option Text) where
  -- An edit that reports no error: the file held a configuration c, and the manager and the file now
  -- hold its change.
  pub record Committed (change : Config → Config) (m : Manager) (n : Manager) : Type 0 where
    pub read : Config
    pub found : parse_file decode encode m.file ≡ some read
    pub current : n.current ≡ change read
    pub bytes : Text
    pub encoded : encode (change read) ≡ some bytes
    pub written : n.file ≡ some bytes
    pub kept : n.on_reload ≡ m.on_reload

  -- What an edit does, by its error.
  abbrev pub Edited : (Config → Config) → Manager → Manager × Option Error → Type 0
  Edited change m (n, some e) = n ≡ m
  Edited change m (n, none) = Committed change m n

  written-Edited :
      (change : Config → Config) (c : Config) (m : Manager) (fault : Fault)
      → parse_file decode encode m.file ≡ some c
      → Edited change m
          (commit decode encode m (change c) (write_config decode encode fault (change c) m.file))
  unfolding commit write_config
  written-Edited change c m create_fails p = refl
  written-Edited change c m none_fails p = elim (Option-cases (encode (change c))) [
    | inl e ↦ rw (e, write_config) refl
    | inr (b, e) ↦
        rw (e, write_config)
          (record {
            read = c;
            found = p;
            current = refl;
            bytes = b;
            encoded = e;
            written = refl;
            kept = refl;
          })
  ]
  written-Edited change c m close_fails p = elim (Option-cases (encode (change c))) [
    | inl e ↦ rw (e, write_config) refl
    | inr (b, e) ↦ rw (e, write_config) refl
  ]
  written-Edited change c m rename_fails p = elim (Option-cases (encode (change c))) [
    | inl e ↦ rw (e, write_config) refl
    | inr (b, e) ↦ rw (e, write_config) refl
  ]

  pub edit-Edited :
      (change : Config → Config) (fault : Fault) (m : Manager)
      → Edited change m (edit decode encode change fault m)
  unfolding edit
  edit-Edited change fault m = elim (Option-cases (parse_file decode encode m.file)) [
    | inl e ↦ rw (e, edit) refl
    | inr (c, e) ↦ rw (e, edit) (written-Edited change c m fault e)
  ]

  commit-failure :
      (m : Manager) (c : Config) (r : Result (Option Text)) (e : Error)
      → (commit decode encode m c r).1 ≡ some e
      → (commit decode encode m c r).0 ≡ m
  unfolding commit
  commit-failure m c (err x) e q = refl
  commit-failure m c (ok file) e q = absurd (none-ne-some q)
    where
      none-ne-some : none ≡ some e → ⊥
      none-ne-some p = cc

  -- An edit that reports an error leaves the manager and its file as they were.
  pub edit-failure :
      (change : Config → Config) (fault : Fault) (m : Manager) (e : Error)
      → (edit decode encode change fault m).1 ≡ some e
      → (edit decode encode change fault m).0 ≡ m
  unfolding edit
  edit-failure change fault m e q = elim (Option-cases (parse_file decode encode m.file)) [
    | inl n ↦ rw (n, edit) refl
    | inr (c, p) ↦
        rw (p, edit)
          (commit-failure m (change c) (write_config decode encode fault (change c) m.file) e
            (rw (p, edit) at q))
  ]
