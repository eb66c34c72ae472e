-- ===== src/Strings/HostPort.antt =====
-- `SplitHostPort` and `JoinHostPort` of Go's `net` package.
use nawala_checker.Common.{
  ℕ, ◌≡◌, refl, ap, ◌∙◌, sym, Bool, true, false, ◌||◌, [], ◌∷◌, ◌++◌, Option, none, some, arith,
  ◌==◌, if◌then◌else◌, Bytes, any, append_assoc,
}

-- `strings.IndexByte(s, b) >= 0`
abbrev pub has_byte : ℕ → Bytes → Bool
has_byte b = any (λ c. c == b)

-- The text before and behind the last `b`.
unfoldable pub cut_last : ℕ → Bytes → Option (Bytes × Bytes)
cut_last b [] = none
cut_last b (c ∷ s) = elim (cut_last b s) [
  | some (x, y) ↦ some (c ∷ x, y)
  | none ↦ if c == b then some ([], s) else none
]

-- The text before the first ']', if that is the last byte.
unfoldable pub close_bracket : Bytes → Option Bytes
close_bracket [] = none
close_bracket (c ∷ s) = elim (close_bracket s) [
  | some host ↦ if c == b']' then none else some (c ∷ host)
  | none ↦ elim s [ [] ↦ if c == b']' then some [] else none | d ∷ r ↦ none ]
]

-- `before` is the text before the last colon, and `port` the text behind it.
unfoldable pub split_at_colon : Bytes → Bytes → Option (Bytes × Bytes)
split_at_colon [] port = if has_byte b'[' port || has_byte b']' port then none else some ([], port)
split_at_colon (c ∷ rest) port =
    if c == b'['
    then elim (close_bracket rest) [
      | none ↦ none
      | some host ↦
          if (has_byte b'[' host || has_byte b'[' port) || has_byte b']' port
          then none
          else some (host, port)
    ]
    else if has_byte b':' (c ∷ rest)
    then none
    else if (has_byte b'[' (c ∷ rest) || has_byte b'[' port)
        || (has_byte b']' (c ∷ rest) || has_byte b']' port)
    then none
    else some (c ∷ rest, port)

-- `none` where `net.SplitHostPort` returns an error.
unfoldable pub split_host_port : Bytes → Option (Bytes × Bytes)
unfolding cut_last close_bracket split_at_colon
split_host_port s = elim (cut_last b':' s) [
  | none ↦ none
  | some (before, port) ↦ split_at_colon before port
]

unfoldable pub join_host_port : Bytes → Bytes → Bytes
join_host_port host port =
    if has_byte b':' host then b'[' ∷ (host ++ b']' ∷ b':' ∷ port) else host ++ b':' ∷ port

pub cut_last-lacks : (b : ℕ) (s : Bytes) → has_byte b s ≡ false → cut_last b s ≡ none
unfolding cut_last
cut_last-lacks b [] h = refl
cut_last-lacks b (c ∷ s) h = ground (arith, cut_last-lacks b s)

pub cut_last-append :
    (b : ℕ) (s t : Bytes) → has_byte b t ≡ false → cut_last b (s ++ b ∷ t) ≡ some (s, t)
unfolding cut_last
cut_last-append b [] t h = ground (arith, cut_last-lacks b t h)
cut_last-append b (c ∷ s) t h = ground (arith, cut_last-append b s t h)

pub close_bracket-append :
    (s : Bytes) → has_byte b']' s ≡ false → close_bracket (s ++ b']' ∷ []) ≡ some s
unfolding close_bracket
close_bracket-append [] h = refl
close_bracket-append (c ∷ s) h = ground (arith, close_bracket-append s)

-- A byte sequence with none of ':', '[' and ']'.
pub record IsPlain (s : Bytes) : Type 0 where
  pub no_colon : has_byte b':' s ≡ false
  pub no_open : has_byte b'[' s ≡ false
  pub no_close : has_byte b']' s ≡ false

pub close_bracket-lacks : (s : Bytes) → has_byte b']' s ≡ false → close_bracket s ≡ none
unfolding close_bracket
close_bracket-lacks [] h = refl
close_bracket-lacks (c ∷ []) h = ground arith
close_bracket-lacks (c ∷ d ∷ s) h = ground (arith, close_bracket-lacks (d ∷ s))

pub has_byte-append : (b : ℕ) (s t : Bytes) → has_byte b (s ++ t) ≡ (has_byte b s || has_byte b t)
has_byte-append b [] t = refl
has_byte-append b (c ∷ s) t = ground (arith, has_byte-append b s t)

pub split_no_colon : (s : Bytes) → has_byte b':' s ≡ false → split_host_port s ≡ none
unfolding split_host_port
split_no_colon s h = ground (arith, cut_last-lacks b':' s h)

-- Two colons and no bracket.
pub split_too_many :
    (a b : Bytes)
    → has_byte b':' a ≡ true
    → has_byte b'[' a ≡ false
    → has_byte b':' b ≡ false
    → split_host_port (a ++ b':' ∷ b) ≡ none
unfolding split_host_port
split_too_many [] b h k v = cc
split_too_many (c ∷ a) b h k v = ground (arith, cut_last-append b':' (c ∷ a) b v)

-- A bracket that closes behind the last colon.
pub split_late_bracket :
    (a b : Bytes)
    → has_byte b']' a ≡ false
    → has_byte b':' b ≡ false
    → split_host_port (b'[' ∷ (a ++ b':' ∷ b)) ≡ none
unfolding split_host_port
split_late_bracket a b h v =
    ground (arith, cut_last-append b':' (b'[' ∷ a) b v, close_bracket-lacks a h)

pub split_bracketed :
    (host port : Bytes)
    → has_byte b'[' host ≡ false
    → has_byte b']' host ≡ false
    → IsPlain port
    → split_host_port (b'[' ∷ (host ++ b']' ∷ b':' ∷ port)) ≡ some (host, port)
unfolding split_host_port
split_bracketed host port h k v =
    ap (λ t. split_host_port (b'[' ∷ t)) (sym (append_assoc host (b']' ∷ []) (b':' ∷ port)))
    ∙ ground (
      arith,
      cut_last-append b':' (b'[' ∷ (host ++ b']' ∷ [])) port v.no_colon,
      close_bracket-append host k,
      v.no_open,
      v.no_close,
    )

pub split_plain :
    (host port : Bytes)
    → IsPlain host
    → IsPlain port
    → split_host_port (host ++ b':' ∷ port) ≡ some (host, port)
unfolding split_host_port
split_plain [] port v w =
    ground (arith, cut_last-append b':' [] port w.no_colon, w.no_open, w.no_close)
split_plain (c ∷ host) port v w = ground (
  arith,
  cut_last-append b':' (c ∷ host) port w.no_colon,
  v.no_open,
  v.no_close,
  v.no_colon,
  w.no_open,
  w.no_close,
)
