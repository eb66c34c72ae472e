-- ===== src/Command/Domains/Firsts.antt =====
-- What is streamed when nothing stops it.
use nawala_checker.Common.{
  ℕ, ◌==◌, ◌≡◌, refl, sym, ap, ◌∙◌, subst, inl, inr, Bool, true, false, ◌||◌, Option, none, some,
  List, [], ◌∷◌, ◌++◌, if◌then◌else◌, Bytes, codes, ok, text_eq, any, is_empty, length,
  length-append, arith, append_assoc, append-nil, Bool-cases,
}
use nawala_checker.Strings.{Unicode, trim_space, has_prefix}
use nawala_checker.Command.Domains.{
  Sources, StreamError, no_domains, Feed, spelling, offer, add_spelled, add_domain, add_line, each,
  some_or_none, after_lines, from_file, after_args, stream_domains,
}

-- The texts that are not among those seen, each at its first place.
unfoldable pub firsts : List Bytes → List Bytes → List Bytes
firsts seen [] = []
firsts seen (d ∷ ds) = elim (any (text_eq d) seen) [
  | true ↦ firsts seen ds
  | false ↦ d ∷ firsts (d ∷ seen) ds
]

abbrev unless_blank : Bytes → List Bytes → List Bytes
unless_blank d ds = if is_empty d then ds else d ∷ ds

module _ {W : Type 0} (src : Sources W) (u : Unicode) where
  -- The spellings of the arguments, and of the lines that are no comments; blank ones are left out.
  abbrev pub of_args : List Bytes → List Bytes
  of_args [] = []
  of_args (d ∷ ds) = unless_blank (spelling src u d) (of_args ds)

  abbrev skips : Bytes → Bool
  skips line = is_empty line || has_prefix line (codes "#")

  abbrev pub of_lines : List Bytes → List Bytes
  of_lines [] = []
  of_lines (l ∷ ls) =
      let line = trim_space u l in
      if skips line then of_lines ls else unless_blank (spelling src u line) (of_lines ls)

  -- What will have been taken when `more` is streamed yet.
  abbrev future : Feed W → List Bytes → List Bytes
  future f more = f.taken ++ firsts f.seen more

  abbrev pub Ended : List Bytes → Option StreamError × Feed W → Type 0
  Ended given out =
      (out.1.taken ≡ firsts [] given)
      × (out.0 ≡ (if is_empty out.1.taken then some no_domains else none))

  module _ (quiet : (w : W) → src.ctx_err w ≡ none)
      (taking : (d : Bytes) (w : W) → (src.send d w).0 ≡ true) where
    offer-future :
        (d : Bytes) (f : Feed W) (more : List Bytes)
        → any (text_eq d) f.seen ≡ false
        → future (offer src u d f) more ≡ future f (d ∷ more)
    unfolding offer firsts
    offer-future d f more new =
        rw (taking d f.world, offer) (rw (new, firsts) (append_assoc f.taken (d ∷ []) _))

    offer_counted :
        (d : Bytes) (f : Feed W)
        → f.count ≡ length f.taken
        → (offer src u d f).count ≡ length (offer src u d f).taken
    unfolding offer
    offer_counted d f h =
        rw (taking d f.world, offer) (omega (arith, length-append f.taken (d ∷ [])))

    -- One domain, spelled.
    abbrev Moves : List Bytes → List Bytes → Feed W → Feed W → Type 0
    Moves before after f g =
        (future g after ≡ future f before) × (f.count ≡ length f.taken → g.count ≡ length g.taken)

    add_spelled-Moves :
        (d : Bytes) (f : Feed W) (more : List Bytes)
        → Moves (unless_blank d more) more f (add_spelled src u d f)
    unfolding add_spelled firsts
    add_spelled-Moves d f more = elim (Bool-cases (is_empty d)) [
      | inl e ↦ rw (e, add_spelled) (refl, λ h. h)
      | inr e ↦ elim (Bool-cases (any (text_eq d) f.seen)) [
        | inl old ↦ rw (e, old, add_spelled, firsts) (refl, λ h. h)
        | inr new ↦ rw (e, new, add_spelled) (offer-future d f more new, offer_counted d f)
      ]
    ]

    add_line-Moves :
        (raw : Bytes) (f : Feed W) (more : List Bytes)
        → Moves
            (if skips (trim_space u raw)
              then more
              else unless_blank (spelling src u (trim_space u raw)) more)
            more
            f
            (add_line src u raw f)
    unfolding add_line add_domain
    add_line-Moves raw f more = elim (Bool-cases (skips (trim_space u raw))) [
      | inl e ↦ rw (e, add_line) (refl, λ h. h)
      | inr e ↦ rw (e, add_line) (add_spelled-Moves (spelling src u (trim_space u raw)) f more)
    ]

    -- A loop of such rounds, none of which is stopped.
    each-Moves :
        (add : Bytes → Feed W → Feed W) (given : List Bytes → List Bytes)
        → given [] ≡ []
        → ((d : Bytes) (ds more : List Bytes) (f : Feed W)
            → Moves (given (d ∷ ds) ++ more) (given ds ++ more) f (add d f))
        → (ds more : List Bytes) (f : Feed W)
        → (g : Feed W) × (each src u add ds f ≡ (none, g)) × Moves (given ds ++ more) more f g
    unfolding each
    each-Moves add given nothing moves [] more f =
        (f, refl, (ap (λ x. future f (x ++ more)) (sym nothing), λ h. h))
    each-Moves add given nothing moves (d ∷ ds) more f =
        let (g, e, (future, counted)) = each-Moves add given nothing moves ds more (add d f) in
        let (first, kept) = moves d ds more f in
        (g, rw (quiet f.world, each) e, (future ∙ first, λ h. counted (kept h)))

    unless_blank-append :
        (d : Bytes) (ds more : List Bytes) → unless_blank d ds ++ more ≡ unless_blank d (ds ++ more)
    unless_blank-append [] ds more = refl
    unless_blank-append (c ∷ d) ds more = refl

    arg-Moves :
        (d : Bytes) (ds more : List Bytes) (f : Feed W)
        → Moves (of_args (d ∷ ds) ++ more) (of_args ds ++ more) f (add_domain src u d f)
    unfolding add_domain
    arg-Moves d ds more f =
        subst (λ x. Moves x (of_args ds ++ more) f (add_domain src u d f))
          (sym (unless_blank-append (spelling src u d) (of_args ds) more))
          (add_spelled-Moves (spelling src u d) f (of_args ds ++ more))

    line-Moves :
        (l : Bytes) (ls more : List Bytes) (f : Feed W)
        → Moves (of_lines (l ∷ ls) ++ more) (of_lines ls ++ more) f (add_line src u l f)
    line-Moves l ls more f =
        subst (λ x. Moves x (of_lines ls ++ more) f (add_line src u l f))
          (sym (split_first (skips (trim_space u l)) (spelling src u (trim_space u l))))
          (add_line-Moves l f (of_lines ls ++ more))
      where
        split_first :
            (b : Bool) (d : Bytes)
            → (if b then of_lines ls else unless_blank d (of_lines ls)) ++ more
              ≡ (if b then of_lines ls ++ more else unless_blank d (of_lines ls ++ more))
        split_first true d = refl
        split_first false d = unless_blank-append d (of_lines ls) more

    some_or_none-Ended :
        (given : List Bytes) (f : Feed W)
        → future f [] ≡ firsts [] given
        → f.count ≡ length f.taken
        → Ended given (some_or_none src u f)
    unfolding some_or_none firsts
    some_or_none-Ended given f h k = (sym (append-nil f.taken) ∙ h, counted f.count f.taken k)
      where
        counted :
            (n : ℕ) (ts : List Bytes)
            → n ≡ length ts
            → ◌≡◌ {A = Option StreamError}
                (if n == 0 then some no_domains else none)
                (if is_empty ts then some no_domains else none)
        counted n [] e = ground (arith, e)
        counted n (t ∷ ts) e = ground (arith, e)

    file-Ended :
        (given lines : List Bytes) (f : Feed W)
        → future f (of_lines lines ++ []) ≡ firsts [] given
        → f.count ≡ length f.taken
        → Ended given (after_lines src u none (each src u (add_line src u) lines f))
    unfolding after_lines
    file-Ended given lines f h k =
        let (g, e, (future, counted)) =
          each-Moves (add_line src u) of_lines refl line-Moves lines [] f in
        subst (λ x. Ended given (after_lines src u none x)) (sym e)
          (some_or_none-Ended given g (future ∙ h) (counted k))

    -- Where the context is never done, the reader takes every domain, and the file opens and is read
    -- to its end: what is taken is exactly the spellings of the arguments and then of the lines, without
    -- blank ones, blank lines and comments, each at its first occurrence; and there is an error exactly
    -- when this is nothing, the error for no domains. Without a path there are no lines.
    pub stream_domains-firsts :
        (args lines : List Bytes) (path : Bytes) (w : W)
        → ((v : W) → (v' : W) × (src.open_lines path v ≡ (ok (lines, none), v')))
        → Ended
            (of_args args ++ of_lines (if is_empty path then [] else lines))
            (stream_domains src u args path w)
    unfolding stream_domains after_args from_file
    stream_domains-firsts args lines [] w opens =
        let (g, e, (future, counted)) =
          each-Moves (add_domain src u) of_args refl arg-Moves args []
            (record { seen = []; count = 0; taken = []; world = w }) in
        subst (λ x. Ended (of_args args ++ []) (after_args src u [] x)) (sym e)
          (some_or_none-Ended (of_args args ++ []) g future (counted refl))
    stream_domains-firsts args lines (c ∷ path) w opens =
        let (g, e, (future, counted)) =
          each-Moves (add_domain src u) of_args refl arg-Moves args (of_lines lines ++ [])
            (record { seen = []; count = 0; taken = []; world = w }) in
        let (v, q) = opens g.world in
        let given = of_args args ++ of_lines lines in
        subst (λ x. Ended given (after_args src u (c ∷ path) x)) (sym e)
          (subst (λ x. Ended given (from_file src u x g)) (sym q)
            (file-Ended given lines (record g { world = v })
              (future ∙ ap (λ x. firsts [] (of_args args ++ x)) (append-nil (of_lines lines)))
              (counted refl)))
