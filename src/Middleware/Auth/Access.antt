-- ===== src/Middleware/Auth/Access.antt =====
-- Who gets past the check, before and after a key is created or revoked.
use claude_code_router.Common.{
  inl, inr, ◌⊎◌, ℕ, ◌≡◌, ◌≢◌, ◌↔◌, refl, sym, ap, ◌∙◌, Text, text_eq, text_eq_refl, Bool, true,
  false, if◌then◌else◌, [], ◌∷◌, Option, none, some, some_inj,
}
use claude_code_router.Db.{ClientKey, Database, get_key, create_key, revoke_key}
use claude_code_router.Db.Keys.{
  get_key-revoke_key, get_key-create_key, new_row, revoked_row, on_found,
}
use claude_code_router.Middleware.Auth.{
  Decision, missing, recorded, invalid, served, extract_token, check, decide, auth,
}

served_inj : (j k : ClientKey) → served j ≡ served k → j ≡ k
served_inj j k e = cc

active_iff :
    (b : Bool) (j k : ClientKey)
    → b ≡ j.revoked
    → ((if b then invalid else served j) ≡ served k) ↔ ((some j ≡ some k) × (k.revoked ≡ false))
active_iff false j k q = (
  (λ e. let i = served_inj j k e in (ap some i, sym (ap (λ x. x.revoked) i) ∙ sym q)),
  (λ e. ap served (some_inj e.0)),
)
active_iff true j k q =
    ((λ e. cc), (λ e. absurd (true-ne-false (q ∙ ap (λ x. x.revoked) (some_inj e.0) ∙ e.1))))
  where
    true-ne-false : true ≡ false → ⊥
    true-ne-false e = cc

check_iff :
    (o : Option ClientKey) (k : ClientKey)
    → (check o ≡ served k) ↔ ((o ≡ some k) × (k.revoked ≡ false))
unfolding check
check_iff none k = ((λ e. cc), (λ e. cc (e.0)))
check_iff (some j) k = active_iff j.revoked j k refl

-- A request reaches the next handler, with the key k in its context, exactly when it carries a token
-- that is not empty and whose row in the database is k and not revoked.
pub auth_iff :
    (header : Text → Text) (now : ℕ) (d : Database) (k : ClientKey)
    → ((auth header now d).0 ≡ served k) ↔ (
        (extract_token header ≢ [])
        × (get_key (extract_token header) d ≡ some k)
        × (k.revoked ≡ false))
unfolding auth
auth_iff header now d k = decided (extract_token header)
  where
    decided :
        (token : Text)
        → (decide token d ≡ served k)
          ↔ ((token ≢ []) × (get_key token d ≡ some k) × (k.revoked ≡ false))
    decided [] = ((λ e. cc), (λ e. absurd (e.0 refl)))
    decided (b ∷ token) = (
      (λ e. let r = (check_iff (get_key (b ∷ token) d) k).0 e in ((λ q. cc), r.0, r.1)),
      (λ e. (check_iff (get_key (b ∷ token) d) k).1 (e.1, e.2)),
    )

marked : (o : Option ClientKey) (k : ClientKey) → on_found revoked_row o ≡ some k → k.revoked ≡ true
marked none k e = absurd (none-ne-some e)
  where
    none-ne-some : none ≡ some k → ⊥
    none-ne-some p = cc
marked (some j) k e = sym (ap (λ x. x.revoked) (some_inj e))

-- After a key is revoked no request that carries it is served, whatever the database held.
pub auth-revoke_key :
    (header : Text → Text) (now : ℕ) (d : Database) (k : ClientKey)
    → (auth header now (revoke_key (extract_token header) d)).0 ≢ served k
auth-revoke_key header now d k e = refused ((auth_iff header now (revoke_key token d) k).0 e)
  where
    token : Text
    token = extract_token header

    refused : (token ≢ []) × (get_key token (revoke_key token d) ≡ some k) × (k.revoked ≡ false) → ⊥
    refused f = true-ne-false (sym (marked (get_key token d) k (sym row ∙ f.1)) ∙ f.2)
      where
        true-ne-false : true ≡ false → ⊥
        true-ne-false q = cc

        row : get_key token (revoke_key token d) ≡ on_found revoked_row (get_key token d)
        row = rw (get_key-revoke_key token token d, text_eq_refl token) refl

served_row :
    (token : Text) (d : Database) (k : ClientKey)
    → token ≢ []
    → get_key token d ≡ some k
    → k.revoked ≡ false
    → decide token d ≡ served k
unfolding decide
served_row [] d k n e r = absurd (n refl)
served_row (b ∷ token) d k n e r = (check_iff (get_key (b ∷ token) d) k).1 (e, r)

-- A request that carries a key just created is served with the row of that key.
pub auth-create_key :
    (header : Text → Text) (name : Text) (now later : ℕ) (d e : Database)
    → extract_token header ≢ []
    → create_key (extract_token header) name now d ≡ some e
    → (auth header later e).0 ≡ served (new_row (extract_token header) name now)
unfolding auth
auth-create_key header name now later d e n h =
    served_row (extract_token header) e _ n (read (text_eq_refl (extract_token header))) refl
  where
    read :
        text_eq (extract_token header) (extract_token header) ≡ true
        → get_key (extract_token header) e ≡ some (new_row (extract_token header) name now)
    read y =
        get_key-create_key (extract_token header) name (extract_token header) now d e h ∙ rw y refl

-- A request that is not let through leaves the database as it was.
pub auth-cases :
    (header : Text → Text) (now : ℕ) (d : Database)
    → ((k : ClientKey) × ((auth header now d).0 ≡ served k))
      ⊎ ((auth header now d ≡ (missing, d)) ⊎ (auth header now d ≡ (invalid, d)))
unfolding auth recorded
auth-cases header now d = split (decide (extract_token header) d)
  where
    split :
        (x : Decision)
        → ((k : ClientKey) × (x ≡ served k))
          ⊎ (◌≡◌ {A = Decision × Database} (x, recorded (extract_token header) now x d) (missing, d)
              ⊎ ◌≡◌ {A = Decision × Database}
                  (x, recorded (extract_token header) now x d)
                  (invalid, d))
    split missing = inr (inl refl)
    split invalid = inr (inr refl)
    split (served k) = inl (k, refl)
