-- ===== src/Output/Writer/Json.antt =====
-- What a run with JSON output leaves in its sink.
use nawala_checker.Common.{
  ℕ, ◌≡◌, refl, sym, ap, ◌∙◌, inl, inr, Bool, true, false, not, Option, none, some, List, [], ◌∷◌,
  ◌++◌, Bytes, codes, if◌then◌else◌, is_empty, append_assoc, append-nil, Bool-cases,
}
use nawala_checker.Types.{Result}
use nawala_checker.Output.{format_json}
use nawala_checker.Output.Writer.Buffered.{
  Buffer, fresh_buffer, total, write, flush_buffer, total-write,
}
use nawala_checker.Output.Writer.{
  Encoders, Writer, writer_over, new_writer, emit, flush_writer, json_open, write_element,
  json_of_result, write_result_as, write_result, cancel,
}
use nawala_checker.Output.Writer.Close.{close, json_end}

-- The sink's contents.
abbrev pub passed_of : Option Buffer → Bytes
passed_of none = []
passed_of (some b) = b.passed

abbrev pub commas : List Bytes → Bytes
commas [] = []
commas (x ∷ xs) = codes "," ++ (x ++ commas xs)

-- The elements of a JSON array.
abbrev pub array : List Bytes → Bytes
array [] = []
array (x ∷ xs) = x ++ commas xs

flushed :
    (s t : Bytes) (b : Buffer)
    → flush_buffer (write t (write s b)) ≡ record { passed = total b ++ (s ++ t); held = [] }
unfolding flush_buffer
flushed s t b =
    ap (λ (x : Bytes). record { passed = x; held = [] })
      (total-write t (write s b)
        ∙ (ap (λ x. x ++ t) (total-write s b) ∙ append_assoc (total b) s t))

pub flushed_end :
    (p s : Bytes) → (flush_buffer (write s (record { passed = p; held = [] }))).passed ≡ p ++ s
unfolding flush_buffer
flushed_end p s = total-write s (record { passed = p; held = [] }) ∙ ap (λ x. x ++ s) (append-nil p)

module _ (enc : Encoders) where
  unfoldable pub write_results : List Result → Writer → Writer
  write_results [] w = w
  write_results (r ∷ rs) w = write_results rs (write_result enc r w)

  abbrev pub element : Result → Bytes
  element r = enc.json_result (json_of_result enc r)

  abbrev pub elements : List Result → List Bytes
  elements [] = []
  elements (r ∷ rs) = element r ∷ elements rs

  module _ (closer : Bool) (path : Bytes) where
    -- A writer that has passed on `p`, with the array begun.
    abbrev begun : Bytes → Writer
    begun p =
        record (writer_over (some (record { passed = p; held = [] })) closer format_json path) {
          json_started = true;
          json_key = codes "result";
        }

    abbrev unbegun : Writer
    unbegun = writer_over (some fresh_buffer) closer format_json path

    write_first :
        (r : Result) → write_result enc r unbegun ≡ begun (json_open (codes "result") ++ element r)
    unfolding write_result write_result_as write_element emit flush_writer
    write_first r =
        ap (λ (b : Buffer). record (begun []) { buffer = some b })
          (flushed (json_open (codes "result")) (element r) fresh_buffer)

    write_next :
        (r : Result) (p : Bytes)
        → write_result enc r (begun p) ≡ begun (p ++ (codes "," ++ element r))
    unfolding write_result write_result_as write_element emit flush_writer
    write_next r p =
        ap (λ (b : Buffer). record (begun []) { buffer = some b })
          (flushed (codes ",") (element r) (record { passed = p; held = [] })
            ∙ ap (λ (x : Bytes). record { passed = x ++ (codes "," ++ element r); held = [] })
                (append-nil p))

    write_rest :
        (rs : List Result) (p : Bytes)
        → write_results rs (begun p) ≡ begun (p ++ commas (elements rs))
    unfolding write_results
    write_rest [] p = ap begun (sym (append-nil p))
    write_rest (r ∷ rs) p =
        ap (write_results rs) (write_next r p)
        ∙ (write_rest rs (p ++ (codes "," ++ element r))
            ∙ ap begun (append_assoc p (codes "," ++ element r) (commas (elements rs))))

    write_all :
        (r : Result) (rs : List Result)
        → write_results (r ∷ rs) unbegun
          ≡ begun (json_open (codes "result") ++ array (elements (r ∷ rs)))
    unfolding write_results
    write_all r rs =
        ap (write_results rs) (write_first r)
        ∙ (write_rest rs (json_open (codes "result") ++ element r)
            ∙ ap begun
                (append_assoc (json_open (codes "result")) (element r) (commas (elements rs))))

  -- The whole document for a list of results.
  abbrev pub document : List Result → Bytes
  document rs = json_open (codes "result") ++ (array (elements rs) ++ json_end)

  abbrev expected_closes : Bool → ℕ
  expected_closes b = if b then 1 else 0

  -- Whether the writer has a file to close, or the path was empty.
  opened :
      (can_create : Bytes → Bool) (path : Bytes) (w : Writer)
      → new_writer can_create path format_json ≡ some w
      → w ≡ unbegun (not (is_empty path)) path
  unfolding new_writer
  opened can_create [] w h = cc
  opened can_create (c ∷ path) w h = elim (Bool-cases (can_create (c ∷ path))) [
    | inl e ↦ cc
    | inr e ↦ absurd cc
  ]

  cancel-begun :
      (closer : Bool) (path p : Bytes)
      → (w : Writer) × (close enc (cancel (begun closer path p)) ≡ some (true, w))
        × (passed_of w.buffer ≡ p)
  unfolding close cancel
  cancel-begun true path p = (_, refl, refl)
  cancel-begun false path p = (_, refl, refl)

  cancel-unbegun :
      (closer : Bool) (path : Bytes)
      → (w : Writer) × (close enc (cancel (unbegun closer path)) ≡ some (true, w))
        × (passed_of w.buffer ≡ [])
  unfolding close cancel
  cancel-unbegun true path = (_, refl, refl)
  cancel-unbegun false path = (_, refl, refl)

  pub json_unused :
      (can_create : Bytes → Bool) (path : Bytes) (w : Writer)
      → new_writer can_create path format_json ≡ some w
      → (w' : Writer) × (close enc (cancel w) ≡ some (true, w')) × (passed_of w'.buffer ≡ [])
  json_unused can_create path w h =
      let (w', closed, out) = cancel-unbegun (not (is_empty path)) path in
      (w', ap (λ x. close enc (cancel x)) (opened can_create path w h) ∙ closed, out)

  -- A check with JSON output that is cancelled after a result: what stands in the sink behind `Close`
  -- is the document without its end, so it is not empty and lacks the four bytes that close it.
  pub json_cancelled :
      (can_create : Bytes → Bool) (path : Bytes) (w : Writer) (r : Result) (rs : List Result)
      → new_writer can_create path format_json ≡ some w
      → (w' : Writer) × (close enc (cancel (write_results (r ∷ rs) w)) ≡ some (true, w'))
        × (passed_of w'.buffer ++ json_end ≡ document (r ∷ rs))
  unfolding write_results
  json_cancelled can_create path w r rs h =
      let file = not (is_empty path) in
      let p = json_open (codes "result") ++ array (elements (r ∷ rs)) in
      let e : write_results (r ∷ rs) w ≡ begun file path p =
        ap (write_results (r ∷ rs)) (opened can_create path w h) ∙ write_all file path r rs in
      let (w', closed, out) = cancel-begun file path p in
      (
        w',
        ap (λ x. close enc (cancel x)) e ∙ closed,
        ap (λ x. x ++ json_end) out
            ∙ append_assoc (json_open (codes "result")) (array (elements (r ∷ rs))) json_end,
      )
