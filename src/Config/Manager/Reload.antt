-- ===== src/Config/Manager/Reload.antt =====
-- The edits as the dashboard and the router see them: what is found afterwards, and what the file
-- watcher's reload of the edited file makes of it.
use claude_code_router.Common.{
  some_inj, ℕ, suc, ◌≡◌, refl, sym, ap, subst, ◌∙◌, Text, codes, zero, ◌∷◌, text_eq, not,
  if◌then◌else◌, [], ◌∷◌, Option, none, some, select, Option-cases, inl, inr,
}
use claude_code_router.Config.Types.{ProviderConfig, ModelConfig, Config, entries, provider_of}
use claude_code_router.Router.Chain.{find_model}
use claude_code_router.Config.Manager.{
  Error, Fault, Manager, parse_file, reload, replace_model, insert_provider, upsert_model,
  delete_model, upsert_provider, delete_provider, apply_defaults, or_port, or_level,
}
use claude_code_router.Config.Manager.Edits.{
  Edited, Committed, edit-Edited, find-replace_model, find-select, lookup-insert_provider,
  lookup-select,
}

module _ (decode : Text → Option Config) (encode : Config → Option Text) where
  edits-Edited :
      (model : ModelConfig) (prov : ProviderConfig) (id : Text) (fault : Fault) (m : Manager)
      → Edited decode encode
          (λ c. record c { models = replace_model model c.models })
          m
          (upsert_model decode encode model fault m)
        × Edited decode encode
            (λ c. record c { models = select (λ x. not (text_eq x.alias id)) c.models })
            m
            (delete_model decode encode id fault m)
        × Edited decode encode
            (λ c. record c { providers = some (insert_provider id prov (entries c.providers)) })
            m
            (upsert_provider decode encode id prov fault m)
        × Edited decode encode
            (λ c. record c {
              providers = some (select (λ e. not (text_eq e.0 id)) (entries c.providers));
            })
            m
            (delete_provider decode encode id fault m)
  unfolding upsert_model delete_model upsert_provider delete_provider
  edits-Edited model prov id fault m = (
    edit-Edited decode encode _ fault m,
    edit-Edited decode encode _ fault m,
    edit-Edited decode encode _ fault m,
    edit-Edited decode encode _ fault m,
  )

  committed :
      (change : Config → Config) (m n : Manager) (r : Manager × Option Error)
      → r ≡ (n, none)
      → Edited decode encode change m r
      → Committed decode encode change m n
  committed change m n r e h = subst (Edited decode encode change m) e h

  current_of :
      (change : Config → Config) (m n : Manager) (c : Config)
      → parse_file decode encode m.file ≡ some c
      → Committed decode encode change m n
      → n.current ≡ change c
  current_of change m n c p h = h.current ∙ ap change (some_inj (sym h.found ∙ p))

-- After an upsert without an error the router finds the new entry under its alias, and under every
-- other alias what the file held.
pub find-upsert_model :
    (decode : Text → Option Config) (encode : Config → Option Text) (model : ModelConfig)
    (fault : Fault) (m n : Manager) (c : Config) (alias : Text)
    → parse_file decode encode m.file ≡ some c
    → upsert_model decode encode model fault m ≡ (n, none)
    → find_model alias n.current.models
      ≡ (if text_eq model.alias alias then some model else find_model alias c.models)
unfolding upsert_model
find-upsert_model decode encode model fault m n c alias p q =
    rw
      (current_of decode encode _ m n c p
        (committed decode encode _ m n _ q (edit-Edited decode encode _ fault m)))
      (find-replace_model alias model c.models)

-- After a deletion without an error the router finds no model of that alias, and every other model
-- as the file held it.
pub find-delete_model :
    (decode : Text → Option Config) (encode : Config → Option Text) (gone : Text) (fault : Fault)
    (m n : Manager) (c : Config) (alias : Text)
    → parse_file decode encode m.file ≡ some c
    → delete_model decode encode gone fault m ≡ (n, none)
    → find_model alias n.current.models
      ≡ (if text_eq gone alias then none else find_model alias c.models)
unfolding delete_model
find-delete_model decode encode gone fault m n c alias p q =
    rw
      (current_of decode encode _ m n c p
        (committed decode encode _ m n _ q (edit-Edited decode encode _ fault m)))
      (find-select alias gone c.models)

-- After an upsert of a provider without an error its id reads as the new entry, and every other id as
-- the file held it.
pub lookup-upsert_provider :
    (decode : Text → Option Config) (encode : Config → Option Text) (id : Text)
    (prov : ProviderConfig) (fault : Fault) (m n : Manager) (c : Config) (j : Text)
    → parse_file decode encode m.file ≡ some c
    → upsert_provider decode encode id prov fault m ≡ (n, none)
    → provider_of n.current j ≡ (if text_eq id j then some prov else provider_of c j)
unfolding upsert_provider
lookup-upsert_provider decode encode id prov fault m n c j p q =
    rw
      (current_of decode encode _ m n c p
        (committed decode encode _ m n _ q (edit-Edited decode encode _ fault m)))
      (lookup-insert_provider id j prov (entries c.providers))

-- After a deletion of a provider without an error its id is not configured, and every other id reads
-- as the file held it.
pub lookup-delete_provider :
    (decode : Text → Option Config) (encode : Config → Option Text) (id : Text) (fault : Fault)
    (m n : Manager) (c : Config) (j : Text)
    → parse_file decode encode m.file ≡ some c
    → delete_provider decode encode id fault m ≡ (n, none)
    → provider_of n.current j ≡ (if text_eq id j then none else provider_of c j)
unfolding delete_provider
lookup-delete_provider decode encode id fault m n c j p q =
    rw
      (current_of decode encode _ m n c p
        (committed decode encode _ m n _ q (edit-Edited decode encode _ fault m)))
      (lookup-select j id (entries c.providers))

-- The defaults have been filled in.
abbrev pub HasDefaults : Config → Type 0
HasDefaults c = apply_defaults c ≡ c

or_port_idempotent : (n d : ℕ) → or_port (or_port n (suc d)) (suc d) ≡ or_port n (suc d)
or_port_idempotent zero d = refl
or_port_idempotent (suc n) d = refl

or_level_idempotent :
    (s : Text) (b : ℕ) (d : Text) → or_level (or_level s (b ∷ d)) (b ∷ d) ≡ or_level s (b ∷ d)
or_level_idempotent [] b d = refl
or_level_idempotent (a ∷ s) b d = refl

apply_defaults-HasDefaults : (c : Config) → HasDefaults (apply_defaults c)
unfolding apply_defaults
apply_defaults-HasDefaults c = λ i. record {
  server = record {
    client_port = or_port_idempotent c.server.client_port 4079 i;
    admin_port = or_port_idempotent c.server.admin_port 4080 i;
    log_level = or_level_idempotent c.server.log_level b'i' (codes "nfo") i;
  };
  providers = some (entries c.providers);
  models = c.models;
}

parse_file-HasDefaults :
    (decode : Text → Option Config) (encode : Config → Option Text) (file : Option Text)
    (c : Config)
    → parse_file decode encode file ≡ some c
    → HasDefaults c
unfolding parse_file
parse_file-HasDefaults decode encode none c e = absurd (cc)
parse_file-HasDefaults decode encode (some b) c e = elim (Option-cases (decode b)) [
  | inl n ↦ absurd (none-ne-some (rw (n, parse_file) at e))
  | inr (d, n) ↦
      subst HasDefaults (some_inj (rw (n, parse_file) at e)) (apply_defaults-HasDefaults d)
]
  where
    none-ne-some : none ≡ some c → ⊥
    none-ne-some q = cc

-- The TOML library reads back the document that it writes for this configuration.
abbrev pub Readable :
    (decode : Text → Option Config) (encode : Config → Option Text) → Config → Type 0
Readable decode encode c = (b : Text) → encode c ≡ some b → decode b ≡ some c

parsed_of :
    (decode : Text → Option Config) (encode : Config → Option Text) (n : Manager) (b : Text)
    (c : Config)
    → n.file ≡ some b
    → decode b ≡ some c
    → HasDefaults c
    → parse_file decode encode n.file ≡ some c
unfolding parse_file
parsed_of decode encode n b c p q h = rw (p, q, parse_file) (ap some h)

-- Where TOML reads back the configuration that an upsert of a model has written, the reload that the
-- file watcher makes next leaves the manager's configuration as the upsert left it.
pub reload-upsert_model :
    (decode : Text → Option Config) (encode : Config → Option Text) (model : ModelConfig)
    (fault : Fault) (m n : Manager)
    → Readable decode encode n.current
    → upsert_model decode encode model fault m ≡ (n, none)
    → (reload decode encode n).current ≡ n.current
unfolding upsert_model reload
reload-upsert_model decode encode model fault m n readable q = rw (parsed, reload)
  where
    h : Committed decode encode (λ c. record c { models = replace_model model c.models }) m n
    h = committed decode encode _ m n _ q (edit-Edited decode encode _ fault m)

    filled : HasDefaults n.current
    filled = subst HasDefaults (sym h.current) (
        unfold apply_defaults in
        (λ i. record (parse_file-HasDefaults decode encode m.file h.read h.found i) {
          models = replace_model model h.read.models;
        }))

    decoded : decode h.bytes ≡ some n.current
    decoded = readable h.bytes (subst (λ c. encode c ≡ some h.bytes) (sym h.current) h.encoded)

    parsed : parse_file decode encode n.file ≡ some n.current
    parsed = parsed_of decode encode n h.bytes n.current h.written decoded filled
