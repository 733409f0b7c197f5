-- ===== src/Providers/Anthropic/Forwarding.antt =====
-- What the Anthropic provider passes on of a well-formed stream.
use mathlib.Core.List.{append_assoc, append-nil}
use claude_code_router.Common.{
  Bool, ℕ, suc, ◌≡◌, ◌≢◌, refl, sym, ap, ◌∙◌, Text, codes, cut_prefix, trim_space, text_eq, false,
  List, [], ◌∷◌, ◌++◌, Option, none, All, All-append, map, flatten, Bool-cases, inl, inr, subst,
}
use claude_code_router.Json.{Json}
use claude_code_router.Events.{event, data_, blank, classify}
use claude_code_router.Events.Lines.{newline}
use claude_code_router.Events.Lines.Scanned.{unlines, unlines-append, IsLine, scan_lines-unlines}
use claude_code_router.Providers.Http.{responded, scan}
use claude_code_router.Providers.Anthropic.{
  read_body, event_line, on_response, stream, data_block, Reader, count, forwarded, flush, on_line,
  streamed, read_lines, max_token, new_reader,
}

-- An event of the upstream: its type and the lines of its data, of which there is one at least.
pub record Event : Type 0 where
  pub name : Text
  pub first : Text
  pub others : List Text

abbrev data_line : Text → Text
data_line d = codes "data: " ++ d

abbrev pub lines_of : Event → List Text
lines_of e = (codes "event: " ++ e.name) ∷ (data_line e.first ∷ map data_line e.others) ++ ([] ∷ [])

-- What follows the space is neither empty nor begins or ends with white space.
abbrev IsField : Text → Type 0
IsField s = trim_space (b' ' ∷ s) ≡ s

pub record IsEvent (e : Event) : Type 0 where
  pub named : e.name ≢ []
  pub name : IsField e.name
  pub first : IsField e.first
  pub others : All IsField e.others
  pub lines : All (IsLine max_token) (lines_of e)

classify-event : (s : Text) → IsField s → classify (codes "event: " ++ s) ≡ event s
unfolding classify cut_prefix
classify-event s h = ap event h

classify-data : (s : Text) → IsField s → classify (data_line s) ≡ data_ s
unfolding classify cut_prefix
classify-data s h = ap data_ h

classify-blank : classify [] ≡ blank
unfolding classify cut_prefix
classify-blank = refl

module _ (decode : Text → Option Json) where
  feed : List Text → Reader → Reader
  feed [] r = r
  feed (l ∷ ls) r = feed ls (on_line decode (classify l) r)

  feed-append : (a b : List Text) (r : Reader) → feed (a ++ b) r ≡ feed b (feed a r)
  unfolding feed
  feed-append [] b r = refl
  feed-append (l ∷ a) b r = feed-append a b (on_line decode (classify l) r)

  read_lines-feed :
      (i : ℕ) (ls : List Text) (r : Reader)
      → read_lines decode (λ k. false) i ls none r ≡ streamed none (feed ls r)
  unfolding read_lines feed
  read_lines-feed i [] r = refl
  read_lines-feed i (l ∷ ls) r = read_lines-feed (suc i) ls _

  feed-data :
      (ds : List Text) (r : Reader)
      → All IsField ds
      → feed (map data_line ds) r ≡ record r { data_lines = r.data_lines ++ ds }
  unfolding feed on_line
  feed-data [] r h = rw (append-nil r.data_lines) refl
  feed-data (d ∷ ds) r h =
      ap (λ c. feed (map data_line ds) (on_line decode c r)) (classify-data d h.0)
      ∙ feed-data ds (record r { data_lines = r.data_lines ++ d ∷ [] }) h.1
      ∙ ap (λ x. record r { data_lines = x }) (append_assoc r.data_lines (d ∷ []) ds)

  -- The reader is between two events.
  abbrev IsBetween : Reader → Type 0
  IsBetween r = (r.event_type ≡ []) × (r.data_lines ≡ [])

  count-out : (name c : Text) (r : Reader) → (count decode name c r).out ≡ r.out
  unfolding count
  count-out name c r = elim (Bool-cases (text_eq name (codes "message_start"))) [
    | inl y ↦ rw y refl
    | inr n ↦ elim (Bool-cases (text_eq name (codes "message_delta"))) [
      | inl y ↦ rw (n, y) refl
      | inr y ↦ rw (n, y) refl
    ]
  ]

  -- The events come through as they are written, and the reader is between two events again.
  abbrev Passed : Reader → Text → Reader → Type 0
  Passed r t q = IsBetween q × (q.out ≡ r.out ++ t)

  flush-forwarded :
      (name d : Text) (ds : List Text) (r : Reader)
      → Passed r (forwarded name (d ∷ ds)) (flush decode name (d ∷ ds) r)
  unfolding flush
  flush-forwarded name d ds r =
      ((refl, refl), ap (λ t. t ++ forwarded name (d ∷ ds)) (count-out name _ r))

  feed-event :
      (e : Event) (r : Reader)
      → IsEvent e
      → IsBetween r
      → Passed r (forwarded e.name (e.first ∷ e.others)) (feed (lines_of e) r)
  unfolding feed on_line
  feed-event e r h (_, empty) =
      let ds = e.first ∷ e.others in
      let named : Reader = record r { event_type = e.name } in
      let path : feed (lines_of e) r ≡ flush decode e.name ds (record named { data_lines = ds }) =
        ap (λ c. feed (map data_line ds ++ [] ∷ []) (on_line decode c r))
          (classify-event e.name h.name)
        ∙ feed-append (map data_line ds) ([] ∷ []) named
        ∙ ap (feed ([] ∷ [])) (
            feed-data ds named (h.first, h.others)
            ∙ ap (λ x. record named { data_lines = x ++ ds }) empty)
        ∙ ap (λ c. on_line decode c (record named { data_lines = ds })) classify-blank in
      subst (Passed r (forwarded e.name ds)) (sym path)
        (flush-forwarded e.name e.first e.others (record named { data_lines = ds }))

  feed-events :
      (es : List Event) (r : Reader)
      → All IsEvent es
      → IsBetween r
      → (feed (flatten (map lines_of es)) r).out
        ≡ r.out ++ flatten (map (λ e. forwarded e.name (e.first ∷ e.others)) es)
  unfolding feed
  feed-events [] r h b = sym (append-nil r.out)
  feed-events (e ∷ es) r h b =
      let (between, out) = feed-event e r h.0 b in
      ap (λ q. q.out) (feed-append (lines_of e) (flatten (map lines_of es)) r)
      ∙ feed-events es (feed (lines_of e) r) h.1 between
      ∙ ap (λ t. t ++ flatten (map (λ x. forwarded x.name (x.first ∷ x.others)) es)) out
      ∙ append_assoc r.out _ _

data_block-unlines : (ds : List Text) → data_block ds ≡ unlines (map data_line ds ++ [] ∷ [])
unfolding data_block
data_block-unlines [] = refl
data_block-unlines (d ∷ ds) = ap (λ t. data_line d ++ newline ∷ t) (data_block-unlines ds)

forwarded-unlines :
    (e : Event) → e.name ≢ [] → forwarded e.name (e.first ∷ e.others) ≡ unlines (lines_of e)
unfolding forwarded
forwarded-unlines e n =
    ap (λ t. t ++ data_block (e.first ∷ e.others)) (line e.name n)
    ∙ append_assoc (codes "event: " ++ e.name) (newline ∷ []) (data_block (e.first ∷ e.others))
    ∙ ap (λ t. (codes "event: " ++ e.name) ++ newline ∷ t) (data_block-unlines (e.first ∷ e.others))
  where
    line : (s : Text) → s ≢ [] → event_line s ≡ (codes "event: " ++ s) ++ newline ∷ []
    line [] q = absurd (q refl)
    line (b ∷ s) q = refl

stream_text :
    (es : List Event)
    → All IsEvent es
    → flatten (map (λ e. forwarded e.name (e.first ∷ e.others)) es)
      ≡ unlines (flatten (map lines_of es))
stream_text [] h = refl
stream_text (e ∷ es) h =
    ap (λ t. t ++ flatten (map (λ x. forwarded x.name (x.first ∷ x.others)) es))
      (forwarded-unlines e h.0.named)
    ∙ ap (λ t. unlines (lines_of e) ++ t) (stream_text es h.1)
    ∙ sym (unlines-append (lines_of e) (flatten (map lines_of es)))

all_lines : (es : List Event) → All IsEvent es → All (IsLine max_token) (flatten (map lines_of es))
all_lines [] h = tt
all_lines (e ∷ es) h =
    All-append (IsLine max_token) (lines_of e) (flatten (map lines_of es)) h.0.lines
      (all_lines es h.1)

-- A stream of status 200 whose bytes are well-formed events, each a line with its type, lines with its
-- data and an empty line, with single spaces behind the colons and no line as long as the scanner's
-- buffer, is passed on byte for byte, and there is no error, if the client stays and the body ends.
pub stream-forwards :
    (decode : Text → Option Json) (retry_after : Text → ℕ) (retry : Text) (met : ℕ → Bool)
    (es : List Event)
    → All IsEvent es
    → let text = unlines (flatten (map lines_of es)) in
      let res = stream decode retry_after (
        responded (record {
          status = 200;
          retry_after = retry;
          body = record { bytes = text; read_error = none; cancelled = λ i. false; met = met };
        })) in
      (res.written ≡ text) × (res.error ≡ none)
unfolding stream on_response read_body scan new_reader
stream-forwards decode retry_after retry met es h =
    rw (scan_lines-unlines max_token (flatten (map lines_of es)) (all_lines es h), scan)
      (rw (read_lines-feed decode 0 (flatten (map lines_of es)) new_reader)
        (feed-events decode es new_reader h (refl, refl) ∙ stream_text es h, refl))
