-- ===== src/Output/Writer/Buffered.antt =====
-- Go's `bufio.Writer`, with its buffer of 4096 bytes.
use nawala_checker.Common.{
  ℕ, zero, suc, ◌-◌, ◌≡◌, refl, sym, ap, ◌∙◌, true, [], ◌∷◌, ◌++◌, Bytes, if◌then◌else◌, leb,
  length, take, drop, is_empty, append_assoc, append-nil, arith, Bool-cases, inl, inr,
}

pub record Buffer : Type 0 where
  -- passed on to the sink
  pub passed : Bytes
  pub held : Bytes

abbrev pub buffer_size : ℕ
buffer_size = 4096

abbrev pub fresh_buffer : Buffer
fresh_buffer = record { passed = []; held = [] }

-- Into an empty buffer: kept if it fits, and passed on whole if not.
abbrev into_empty : Bytes → Bytes → Buffer
into_empty passed s =
    if leb (length s) buffer_size
    then record { passed = passed; held = s }
    else record { passed = passed ++ s; held = [] }

-- `Write`: what fits is kept; else the buffer is filled and passed on, and the rest is written.
unfoldable pub write : Bytes → Buffer → Buffer
write s b =
    let room = buffer_size - length b.held in
    if leb (length s) room
    then record b { held = b.held ++ s }
    else if is_empty b.held
    then record b { passed = b.passed ++ s }
    else into_empty (b.passed ++ (b.held ++ take room s)) (drop room s)

unfoldable pub flush_buffer : Buffer → Buffer
flush_buffer b = record { passed = b.passed ++ b.held; held = [] }

-- All that was written, in order.
abbrev pub total : Buffer → Bytes
total b = b.passed ++ b.held

take-drop : (n : ℕ) (s : Bytes) → take n s ++ drop n s ≡ s
take-drop zero s = refl
take-drop (suc n) [] = refl
take-drop (suc n) (c ∷ s) = ap (λ x. c ∷ x) (take-drop n s)

total-into_empty : (p s : Bytes) → total (into_empty p s) ≡ p ++ s
total-into_empty p s = elim (Bool-cases (leb (length s) buffer_size)) [
  | inl e ↦ rw e
  | inr e ↦ rw e (append-nil (p ++ s))
]

pub total-write : (s : Bytes) (b : Buffer) → total (write s b) ≡ total b ++ s
unfolding write
total-write s b =
    let room = buffer_size - length b.held in
    elim (Bool-cases (leb (length s) room)) [
      | inl fits ↦ rw (fits, write) (append_back b.passed b.held s)
      | inr full ↦ elim (Bool-cases (is_empty b.held)) [
        | inl e ↦ rw (full, e, write) (whole b.held e b.passed s)
        | inr e ↦
            rw (full, e, write)
              (total-into_empty (b.passed ++ (b.held ++ take room s)) (drop room s)
                ∙ (pieces b.passed b.held (take room s) (drop room s)
                    ∙ ap (λ x. (b.passed ++ b.held) ++ x) (take-drop room s)))
      ]
    ]
  where
    append_back : (p h s : Bytes) → p ++ (h ++ s) ≡ (p ++ h) ++ s
    append_back p h s = sym (append_assoc p h s)

    whole : (h : Bytes) → is_empty h ≡ true → (p s : Bytes) → (p ++ s) ++ h ≡ (p ++ h) ++ s
    whole [] e p s = simp append-nil
    whole (c ∷ h) e p s = absurd (ground (arith, e))

    pieces : (p h a b : Bytes) → (p ++ (h ++ a)) ++ b ≡ (p ++ h) ++ (a ++ b)
    pieces p h a b = simp append_assoc

pub total-flush_buffer : (b : Buffer) → total (flush_buffer b) ≡ total b
unfolding flush_buffer
total-flush_buffer b = append-nil (b.passed ++ b.held)
