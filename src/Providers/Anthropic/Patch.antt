-- ===== src/Providers/Anthropic/Patch.antt =====
-- providers/anthropic.go, patchAnthropicBody: the model, the stream flag and, where it is missing, the
-- limit of tokens are put into the client's own body; `encode` prints a document.
use claude_code_router.Common.{
  ap, inr, subst, inl, text_eq_refl, Bool-cases, ◌≡◌, refl, ◌∙◌, Text, codes, text_eq, text_eq_iff,
  true, false, if◌then◌else◌, Option, none, some,
}
use claude_code_router.Json.{Json, Fields, ℤ, null, bool, int, str, obj}
use claude_code_router.Json.Dict.{
  Dict, IsMap, get, put, dict, members, last, get-put, get-dict, dict-IsMap, put-IsMap,
  last-members,
}

-- What comes of the body: the error of a body that is no object, or a document. A body of null makes
-- the map nil, and writing to it panics.
pub data Patched : Type 0 where
  rejected panics : Patched
  patched : Json → Patched

abbrev limit_where : Option Json → ℤ → Dict → Dict
limit_where none n d = put (codes "max_tokens") (int n) d
limit_where (some v) n d = d

set_limit : ℤ → Dict → Dict
set_limit n d = limit_where (get (codes "max_tokens") d) n d

patch_map : Text → ℤ → Dict → Dict
unfolding set_limit
patch_map model n d =
    set_limit n (put (codes "stream") (bool true) (put (codes "model") (str model) d))

pub patch_document : Text → ℤ → Json → Patched
unfolding patch_map
patch_document model n (obj fs) = patched (obj (members (patch_map model n (dict fs))))
patch_document model n null = panics
patch_document model n _ = rejected

pub patch_anthropic_body : (Text → Option Json) → Text → ℤ → Text → Patched
unfolding patch_document
patch_anthropic_body decode model n body = elim (decode body) [
  | none ↦ rejected
  | some v ↦ patch_document model n v
]

abbrev or_limit : ℤ → Option Json → Option Json
or_limit n none = some (int n)
or_limit n (some v) = some v

get-set_limit :
    (k : Text) (n : ℤ) (d : Dict)
    → get k (set_limit n d)
      ≡ (if text_eq (codes "max_tokens") k then or_limit n (get k d) else get k d)
unfolding set_limit
get-set_limit k n d = elim (Bool-cases (text_eq (codes "max_tokens") k)) [
  | inl y ↦ rw y (
      subst (λ x. get x (set_limit n d) ≡ or_limit n (get x d))
        ((text_eq_iff (codes "max_tokens") k).0 y) (own (get (codes "max_tokens") d) refl))
  | inr m ↦ rw m (others (get (codes "max_tokens") d) m)
]
  where
    own :
        (o : Option Json)
        → get (codes "max_tokens") d ≡ o
        → get (codes "max_tokens") (limit_where o n d) ≡ or_limit n (get (codes "max_tokens") d)
    own none e =
        get-put (codes "max_tokens") (codes "max_tokens") (int n) d
        ∙ rw (text_eq_refl (codes "max_tokens"), e) refl
    own (some v) e = rw e refl

    others :
        (o : Option Json)
        → text_eq (codes "max_tokens") k ≡ false
        → get k (limit_where o n d) ≡ get k d
    others none m = get-put k (codes "max_tokens") (int n) d ∙ rw m refl
    others (some v) m = refl

-- What a key has in the body that is sent.
abbrev pub patched_member : Text → ℤ → Text → Option Json → Option Json
patched_member model n k old =
    if text_eq (codes "stream") k
    then some (bool true)
    else if text_eq (codes "model") k
    then some (str model)
    else if text_eq (codes "max_tokens") k
    then or_limit n old
    else old

get-patch_map :
    (k : Text) (model : Text) (n : ℤ) (d : Dict)
    → get k (patch_map model n d) ≡ patched_member model n k (get k d)
unfolding patch_map text_eq
get-patch_map k model n d = elim (Bool-cases (text_eq (codes "max_tokens") k)) [
  | inl y ↦
      subst (λ x. get x (patch_map model n d) ≡ patched_member model n x (get x d))
        ((text_eq_iff (codes "max_tokens") k).0 y)
        (get-set_limit (codes "max_tokens") n _
          ∙ ap (or_limit n) (
              get-put (codes "max_tokens") (codes "stream") (bool true)
                (put (codes "model") (str model) d)
              ∙ get-put (codes "max_tokens") (codes "model") (str model) d))
  | inr m ↦
      get-set_limit k n _
      ∙ rw m (
          get-put k (codes "stream") (bool true) (put (codes "model") (str model) d)
          ∙ rw (get-put k (codes "model") (str model) d) refl)
]

patch_map-IsMap : (model : Text) (n : ℤ) (d : Dict) → IsMap d → IsMap (patch_map model n d)
unfolding patch_map set_limit
patch_map-IsMap model n d h = limited (get (codes "max_tokens") _)
  where
    limited :
        (o : Option Json)
        → IsMap
            (limit_where o n (put (codes "stream") (bool true) (put (codes "model") (str model) d)))
    limited none = put-IsMap _ _ _ (put-IsMap _ _ _ (put-IsMap _ _ d h))
    limited (some v) = put-IsMap _ _ _ (put-IsMap _ _ d h)

-- The body that an Anthropic upstream is sent has the configured model, asks for a stream, keeps the
-- client's limit of tokens or has the default where there was none, and has every other member of the
-- client's body as it was.
pub patch_anthropic_body-members :
    (decode : Text → Option Json) (model : Text) (n : ℤ) (body : Text) (fs : Fields)
    → decode body ≡ some (obj fs)
    → (gs : Fields) × (patch_anthropic_body decode model n body ≡ patched (obj gs))
      × ((k : Text) → last k gs ≡ patched_member model n k (last k fs))
unfolding patch_anthropic_body
patch_anthropic_body-members decode model n body fs h = (
  members (patch_map model n (dict fs)),
  rw (h, patch_anthropic_body) refl,
  λ k.
      last-members k _ (patch_map-IsMap model n (dict fs) (dict-IsMap fs))
      ∙ get-patch_map k model n (dict fs)
      ∙ rw (get-dict k fs) refl,
)
