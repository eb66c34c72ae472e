-- ===== src/Command/Domains.antt =====
-- internal/cli/check.go: the domains of a check, from the arguments and a file. The state `W` is that
-- of the context, the channel's reader and the file system.
pub mod Firsts
pub mod Distinct
use nawala_checker.Common.{
  ℕ, ◌+◌, ◌==◌, Bool, true, false, ◌||◌, Option, none, some, List, [], ◌∷◌, ◌++◌, if◌then◌else◌,
  Bytes, codes, Outcome, ok, err, text_eq, any, is_empty,
}
use nawala_checker.Strings.{Unicode, to_lower, trim_space, has_prefix}
use nawala_checker.Types.{CtxError}

-- What is not in the repository: `ctx.Err()`; a send on the channel, true if the reader took it and
-- false if the context was done first; IDNA, `none` for an error; and the file: the error of opening
-- it, or its lines, and the error of reading them if there was one.
pub record Sources (W : Type 0) : Type 0 where
  pub ctx_err : W → Option CtxError
  pub send : Bytes → W → Bool × W
  pub to_ascii : Bytes → Option Bytes
  pub open_lines : Bytes → W → Outcome Bytes (List Bytes × Option Bytes) × W

pub data StreamError : Type 0 where
  stopped : CtxError → StreamError
  not_opened not_read : Bytes → StreamError
  no_domains : StreamError

-- The local variables, what the reader has taken so far, and the shared state.
pub record Feed (W : Type 0) : Type 0 where
  pub seen : List Bytes
  pub count : ℕ
  pub taken : List Bytes
  pub world : W

ascii_or_same : Option Bytes → Bytes → Bytes
ascii_or_same none d = d
ascii_or_same (some s) d = s

module _ {W : Type 0} (src : Sources W) (u : Unicode) where
  unfoldable pub to_ascii_domain : Bytes → Bytes
  unfolding ascii_or_same
  to_ascii_domain d = if is_empty d then d else ascii_or_same (src.to_ascii d) d

  -- The spelling under which a domain is streamed.
  unfoldable pub spelling : Bytes → Bytes
  unfolding to_ascii_domain
  spelling d = to_ascii_domain (to_lower u (trim_space u d))

  -- The `select` of `addDomain`.
  unfoldable pub offer : Bytes → Feed W → Feed W
  offer d f =
      let (took, w) = src.send d f.world in
      if took
      then record f { seen = d ∷ f.seen; count = f.count + 1; taken = f.taken ++ d ∷ []; world = w }
      else record f { seen = d ∷ f.seen; world = w }

  add_spelled : Bytes → Feed W → Feed W
  unfolding offer
  add_spelled d f = if is_empty d then f else if any (text_eq d) f.seen then f else offer d f

  unfoldable pub add_domain : Bytes → Feed W → Feed W
  unfolding add_spelled spelling
  add_domain d f = add_spelled (spelling d) f

  -- A line of the file: blank lines and comments are passed over.
  unfoldable pub add_line : Bytes → Feed W → Feed W
  unfolding add_domain
  add_line raw f =
      let line = trim_space u raw in
      if is_empty line || has_prefix line (codes "#") then f else add_domain line f

  -- A loop that ends when the context is done.
  unfoldable pub each : (Bytes → Feed W → Feed W) → List Bytes → Feed W → Option CtxError × Feed W
  each add [] f = (none, f)
  each add (d ∷ ds) f = elim (src.ctx_err f.world) [
    | some e ↦ (some e, f)
    | none ↦ each add ds (add d f)
  ]

  -- The count at the end.
  some_or_none : Feed W → Option StreamError × Feed W
  some_or_none f = (if f.count == 0 then some no_domains else none, f)

  after_lines : Option Bytes → Option CtxError × Feed W → Option StreamError × Feed W
  unfolding some_or_none
  after_lines e (some c, f) = (some (stopped c), f)
  after_lines (some e) (none, f) = (some (not_read e), f)
  after_lines none (none, f) = some_or_none f

  from_file : Outcome Bytes (List Bytes × Option Bytes) × W → Feed W → Option StreamError × Feed W
  unfolding after_lines each add_line
  from_file (err e, w) f = (some (not_opened e), record f { world = w })
  from_file (ok (lines, e), w) f = after_lines e (each add_line lines (record f { world = w }))

  after_args : Bytes → Option CtxError × Feed W → Option StreamError × Feed W
  unfolding from_file some_or_none
  after_args path (some c, f) = (some (stopped c), f)
  after_args path (none, f) =
      if is_empty path then some_or_none f else from_file (src.open_lines path f.world) f

  -- The channel is closed behind it in every case.
  unfoldable pub stream_domains : List Bytes → Bytes → W → Option StreamError × Feed W
  unfolding after_args each add_domain
  stream_domains args path w =
      after_args path
        (each add_domain args (record { seen = []; count = 0; taken = []; world = w }))
