-- ===== src/Command/Domains/Distinct.antt =====
-- What is streamed whatever stops it.
use nawala_checker.Common.{
  ℕ, zero, suc, ◌==◌, ◌≡◌, refl, inl, inr, true, false, ◌||◌, Option, none, some, List, [], ◌∷◌,
  ◌++◌, if◌then◌else◌, Bytes, codes, Outcome, ok, err, text_eq, text_eq_iff, any, is_empty, length,
  length-append, arith, All, All-append, Bool-cases, Option-cases,
}
use nawala_checker.Strings.{Unicode, trim_space, has_prefix}
use nawala_checker.Types.{CtxError}
use nawala_checker.Command.Domains.{
  Sources, StreamError, stopped, not_opened, not_read, no_domains, Feed, spelling, offer,
  add_spelled, add_domain, add_line, each, some_or_none, after_lines, from_file, after_args,
  stream_domains,
}

-- No text stands twice.
abbrev pub NoRepeat : List Bytes → Type 0
NoRepeat [] = Unit
NoRepeat (d ∷ ds) = (any (text_eq d) ds ≡ false) × NoRepeat ds

any-append :
    (d : Bytes) (xs ys : List Bytes)
    → any (text_eq d) (xs ++ ys) ≡ (any (text_eq d) xs || any (text_eq d) ys)
any-append d [] ys = refl
any-append d (x ∷ xs) ys = ground (arith, any-append d xs ys)

NoRepeat-append :
    (ds : List Bytes) (d : Bytes)
    → NoRepeat ds
    → any (text_eq d) ds ≡ false
    → NoRepeat (ds ++ d ∷ [])
NoRepeat-append [] d h k = (refl, tt)
NoRepeat-append (x ∷ ds) d h k = (
  ground (arith, any-append x ds (d ∷ []), text_eq_iff x d, text_eq_iff d x, h.0),
  NoRepeat-append ds d h.1 (ground (arith, k)),
)

-- An error of the function fits what was taken.
abbrev pub Fits : Option StreamError → List Bytes → Type 0
Fits none taken = is_empty taken ≡ false
Fits (some no_domains) taken = taken ≡ []
Fits (some (stopped e)) taken = Unit
Fits (some (not_opened e)) taken = Unit
Fits (some (not_read e)) taken = Unit

module _ {W : Type 0} (src : Sources W) (u : Unicode) where
  record IsFeed (f : Feed W) : Type 0 where
    distinct : NoRepeat f.taken
    seen_all : (x : Bytes) → any (text_eq x) f.taken ≡ true → any (text_eq x) f.seen ≡ true
    named : All (λ d. is_empty d ≡ false) f.taken
    counted : f.count ≡ length f.taken

  offer-IsFeed :
      (d : Bytes) (f : Feed W)
      → is_empty d ≡ false
      → any (text_eq d) f.seen ≡ false
      → IsFeed f
      → IsFeed (offer src u d f)
  unfolding offer
  offer-IsFeed d f full new v = elim (Bool-cases (src.send d f.world).0) [
    | inl e ↦
        rw (e, offer)
          (record {
            distinct = NoRepeat-append f.taken d v.distinct (ground (arith, v.seen_all d));
            seen_all = λ x h. ground (arith, any-append x f.taken (d ∷ []), v.seen_all x);
            named = All-append (λ x. is_empty x ≡ false) f.taken (d ∷ []) v.named (full, tt);
            counted = omega (arith, v.counted, length-append f.taken (d ∷ []));
          })
    | inr e ↦
        rw (e, offer)
          (record {
            distinct = v.distinct;
            seen_all = λ x h. ground (arith, v.seen_all x);
            named = v.named;
            counted = v.counted;
          })
  ]

  add_domain-IsFeed : (d : Bytes) (f : Feed W) → IsFeed f → IsFeed (add_domain src u d f)
  unfolding add_domain add_spelled
  add_domain-IsFeed d f v = elim (Bool-cases (is_empty (spelling src u d))) [
    | inl e ↦ rw (e, add_spelled) v
    | inr e ↦ elim (Bool-cases (any (text_eq (spelling src u d)) f.seen)) [
      | inl old ↦ rw (e, old, add_spelled) v
      | inr new ↦ rw (e, new, add_spelled) (offer-IsFeed (spelling src u d) f e new v)
    ]
  ]

  add_line-IsFeed : (l : Bytes) (f : Feed W) → IsFeed f → IsFeed (add_line src u l f)
  unfolding add_line
  add_line-IsFeed l f v =
      elim (Bool-cases (is_empty (trim_space u l) || has_prefix (trim_space u l) (codes "#"))) [
        | inl e ↦ rw (e, add_line) v
        | inr e ↦ rw (e, add_line) (add_domain-IsFeed (trim_space u l) f v)
      ]

  each-IsFeed :
      (add : Bytes → Feed W → Feed W) (ds : List Bytes) (f : Feed W)
      → ((d : Bytes) (g : Feed W) → IsFeed g → IsFeed (add d g))
      → IsFeed f
      → IsFeed (each src u add ds f).1
  unfolding each
  each-IsFeed add [] f keeps v = v
  each-IsFeed add (d ∷ ds) f keeps v = elim (Option-cases (src.ctx_err f.world)) [
    | inl e ↦ rw (e, each) (each-IsFeed add ds (add d f) keeps (keeps d f v))
    | inr (x, e) ↦ rw (e, each) v
  ]

  -- What is claimed of the whole function.
  abbrev pub IsStream : Option StreamError × Feed W → Type 0
  IsStream out =
      NoRepeat out.1.taken × All (λ d. is_empty d ≡ false) out.1.taken × Fits out.0 out.1.taken

  some_or_none-IsStream : (f : Feed W) → IsFeed f → IsStream (some_or_none src u f)
  unfolding some_or_none
  some_or_none-IsStream f v = (v.distinct, v.named, fits f.count f.taken v.counted)
    where
      fits :
          (n : ℕ) (ts : List Bytes)
          → n ≡ length ts
          → Fits (if n == 0 then some no_domains else none) ts
      fits zero [] e = refl
      fits zero (t ∷ ts) e = absurd (omega arith)
      fits (suc n) [] e = absurd (omega arith)
      fits (suc n) (t ∷ ts) e = let nonzero : (suc n == 0) ≡ false = ground arith in rw nonzero refl

  after_lines-IsStream :
      (e : Option Bytes) (c : Option CtxError) (f : Feed W)
      → IsFeed f
      → IsStream (after_lines src u e (c, f))
  unfolding after_lines
  after_lines-IsStream e (some c) f v = (v.distinct, v.named, tt)
  after_lines-IsStream (some e) none f v = (v.distinct, v.named, tt)
  after_lines-IsStream none none f v = some_or_none-IsStream f v

  moved-IsFeed : (f : Feed W) (w : W) → IsFeed f → IsFeed (record f { world = w })
  moved-IsFeed f w v = record {
    distinct = v.distinct;
    seen_all = v.seen_all;
    named = v.named;
    counted = v.counted;
  }

  from_file-IsStream :
      (o : Outcome Bytes (List Bytes × Option Bytes)) (w : W) (f : Feed W)
      → IsFeed f
      → IsStream (from_file src u (o, w) f)
  unfolding from_file
  from_file-IsStream (err e) w f v = (v.distinct, v.named, tt)
  from_file-IsStream (ok (lines, e)) w f v =
      let out = each src u (add_line src u) lines (record f { world = w }) in
      after_lines-IsStream e out.0 out.1 (
        each-IsFeed (add_line src u) lines (record f { world = w }) add_line-IsFeed
          (moved-IsFeed f w v))

  after_args-IsStream :
      (path : Bytes) (c : Option CtxError) (f : Feed W)
      → IsFeed f
      → IsStream (after_args src u path (c, f))
  unfolding after_args
  after_args-IsStream path (some c) f v = (v.distinct, v.named, tt)
  after_args-IsStream [] none f v = some_or_none-IsStream f v
  after_args-IsStream (b ∷ path) none f v =
      let opened = src.open_lines (b ∷ path) f.world in from_file-IsStream opened.0 opened.1 f v

  -- Whatever the context, the reader, IDNA and the file do: no domain is taken from the stream twice
  -- and none is empty; without an error at least one was taken, and the error for no domains is
  -- returned only if none was.
  pub stream_domains-IsStream :
      (args : List Bytes) (path : Bytes) (w : W) → IsStream (stream_domains src u args path w)
  unfolding stream_domains
  stream_domains-IsStream args path w =
      let first : Feed W = record { seen = []; count = 0; taken = []; world = w } in
      let out = each src u (add_domain src u) args first in
      after_args-IsStream path out.0 out.1 (
        each-IsFeed (add_domain src u) args first add_domain-IsFeed
          (record { distinct = tt; seen_all = λ x h. h; named = tt; counted = refl }))
