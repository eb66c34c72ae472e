-- ===== src/Command/Run.antt =====
-- internal/cli/check.go and status.go: `runCheck` and `runStatus`, from the flags to the exit. What the
-- two goroutines of `runCheck` and the channel between them deliver is the parameter `pipeline`: the
-- first is Command/Domains, the second Checker/Stream.
pub mod Json
mod Examples
use nawala_checker.Common.{
  Bool, true, false, Option, none, some, List, [], ◌∷◌, Bytes, Outcome, ok, err, any,
}
use nawala_checker.Common.Int.{ℤ}
use nawala_checker.Types.{Error, Result, ServerStatus}
use nawala_checker.Network.{Network}
use nawala_checker.Checker.{Checker}
use nawala_checker.Checker
use nawala_checker.Strings.{Unicode}
use nawala_checker.Config.Load.{Files}
use nawala_checker.Output.{Format}
use nawala_checker.Output.Writer.{Encoders, Writer, new_writer, cancel, write_status}
use nawala_checker.Output.Writer.Close.{Closed, close}
use nawala_checker.Output.Writer.Json.{write_results}
use nawala_checker.Command.Build.{BuildError, build_checker}
use nawala_checker.Command.Flags.{FormatError, resolve_format}
use nawala_checker.Command.Domains.{StreamError}

pub data ExitError : Type 0 where
  bad_format : FormatError → ExitError
  not_built : BuildError → ExitError
  not_created : ExitError
  not_streamed : StreamError → ExitError
  check_failed status_failed : Error → ExitError
  partial_failure : ExitError

-- The results that came from `out`, in order, and the errors of the two goroutines.
pub record Delivery : Type 0 where
  pub results : List Result
  pub stream_error : Option StreamError
  pub check_error : Option Error

-- What is left behind the deferred calls: the error, the writer if there was one, and the world.
pub record Finished (W : Type 0) : Type 0 where
  pub exit : Option ExitError
  pub writer : Option Closed
  pub world : W

abbrev pub has_error : Result → Bool
has_error r = elim r.error [ none ↦ false | some e ↦ true ]

-- The errors at the end of the function, in their order.
pub verdict : Option StreamError → Option Error → Bool → Writer → Option ExitError × Writer
unfolding cancel
verdict (some e) _ partial w = (some (not_streamed e), cancel w)
verdict none (some e) partial w = (some (check_failed e), cancel w)
verdict none none true w = (some partial_failure, w)
verdict none none false w = (none, w)

-- What a command does with its writer, checker, time limit and world: the error and the writer at its
-- end, and the checker and the world.
abbrev pub Work : Type 0 → Type 0 → Type 0
Work W X = Writer → Checker X → ℤ → W → (Option ExitError × Writer) × Checker X × W

-- The flags, the checker and the writer, which `runCheck` and `runStatus` set up alike.
module _ {W X : Type 0} (net : Network W) (enc : Encoders) (files : Files) (u : Unicode)
    (d : Bytes → Option ℤ) (can_create : Bytes → Bool) (work : Work W X) where
  -- The deferred calls: the writer is closed, and then the checker.
  pub finish_command : (Option ExitError × Writer) × Checker X × W → Finished W
  unfolding close Checker.close
  finish_command ((e, w), c, world) = record {
    exit = e;
    writer = some (close enc w);
    world = (Checker.close net c world).1;
  }

  pub with_writer : Option Writer → Checker X → ℤ → W → Finished W
  unfolding finish_command Checker.close
  with_writer none c limit world = record {
    exit = some not_created;
    writer = none;
    world = (Checker.close net c world).1;
  }
  with_writer (some w) c limit world = finish_command (work w c limit world)

  pub with_checker : Format → Bytes → Outcome BuildError (Checker X × ℤ) → W → Finished W
  unfolding with_writer new_writer
  with_checker format output (err e) world = record {
    exit = some (not_built e);
    writer = none;
    world = world;
  }
  with_checker format output (ok (c, limit)) world =
      with_writer (new_writer can_create output format) c limit world

  pub with_format : Bytes → Bytes → Outcome FormatError Format → W → Finished W
  unfolding with_checker
  with_format config output (err e) world = record {
    exit = some (bad_format e);
    writer = none;
    world = world;
  }
  with_format config output (ok format) world =
      with_checker format output (build_checker files u d config) world

  pub run_command : List Bytes → Bytes → Bytes → W → Finished W
  unfolding with_format resolve_format
  run_command formats config output world = with_format config output (resolve_format formats) world

module _ (enc : Encoders) where
  pub report : Delivery → Writer → Option ExitError × Writer
  unfolding verdict write_results
  report p w =
      verdict p.stream_error p.check_error (any has_error p.results) (write_results enc p.results w)

  pub write_statuses : List ServerStatus → Writer → Writer
  unfolding write_status
  write_statuses [] w = w
  write_statuses (s ∷ ss) w = write_statuses ss (write_status enc s w)

  pub report_statuses : List ServerStatus × Option Error → Writer → Option ExitError × Writer
  unfolding write_statuses cancel
  report_statuses (ss, some e) w = (some (status_failed e), cancel w)
  report_statuses (ss, none) w = (none, write_statuses ss w)

  pub check_work : {W X : Type 0} → (Checker X → ℤ → W → Delivery × Checker X × W) → Work W X
  unfolding report
  check_work pipeline w c limit world =
      let (p, c', world') = pipeline c limit world in (report p w, c', world')

  -- `dns_status` is the call of `DNSStatus`, with the statuses and the error that it returns.
  pub status_work :
      {W X : Type 0}
      → (Checker X → ℤ → W → (List ServerStatus × Option Error) × Checker X × W)
      → Work W X
  unfolding report_statuses
  status_work dns_status w c limit world =
      let (r, c', world') = dns_status c limit world in (report_statuses r w, c', world')

module _ {W X : Type 0} (net : Network W) (enc : Encoders) (files : Files) (u : Unicode)
    (d : Bytes → Option ℤ) (can_create : Bytes → Bool) where
  pub run_check :
      (Checker X → ℤ → W → Delivery × Checker X × W) → List Bytes → Bytes → Bytes → W → Finished W
  unfolding run_command check_work
  run_check pipeline = run_command net enc files u d can_create (check_work enc pipeline)

  pub run_status :
      (Checker X → ℤ → W → (List ServerStatus × Option Error) × Checker X × W)
      → List Bytes
      → Bytes
      → Bytes
      → W
      → Finished W
  unfolding run_command status_work
  run_status dns_status = run_command net enc files u d can_create (status_work enc dns_status)
