-- ===== src/Command/Run/Json.antt =====
-- How a check with JSON output ends.
use nawala_checker.Common.{
  ◌≡◌, ◌≢◌, refl, ap, ◌⊎◌, Bool, true, Option, none, some, List, [], ◌∷◌, ◌++◌, Bytes, codes, ok,
  All, Any, text_eq,
}
use nawala_checker.Common.Int.{ℤ}
use nawala_checker.Strings.{contains, has_prefix}
use nawala_checker.Types.{Error, Result, ServerStatus}
use nawala_checker.Network.{Network}
use nawala_checker.Checker.{Checker}
use nawala_checker.Strings.{Unicode}
use nawala_checker.Config.Load.{Files}
use nawala_checker.Output.{format_json}
use nawala_checker.Output.Writer.{Encoders, Writer, new_writer}
use nawala_checker.Output.Writer.Close.{Closed, json_end}
use nawala_checker.Output.Writer.Json.{document, passed_of, json_unused}
use nawala_checker.Command.Build.{build_checker}
use nawala_checker.Command.Flags.{resolve_format}
use nawala_checker.Command.Domains.{StreamError}
use nawala_checker.Command.Run.{
  ExitError, not_streamed, check_failed, status_failed, partial_failure, Delivery, report_statuses,
  status_work, finish_command, run_command, with_writer, with_checker, with_format, run_status,
}

module _ (enc : Encoders) where
  -- What a check that failed leaves: nothing where it had no result, and else the document without its
  -- end.
  abbrev pub IsCut : List Result → Bytes → Type 0
  IsCut [] out = out ≡ []
  IsCut (r ∷ rs) out = out ++ json_end ≡ document enc (r ∷ rs)

  -- The exit and the output.
  abbrev pub Ends :
      Option StreamError → Option Error → List Result → Option ExitError → Bytes → Type 0
  Ends (some e) _ rs exit out = (exit ≡ some (not_streamed e)) × IsCut rs out
  Ends none (some e) rs exit out = (exit ≡ some (check_failed e)) × IsCut rs out
  Ends none none rs exit out =
      (out ≡ document enc rs)
      × (((exit ≡ none) × All (λ (r : Result). r.error ≡ none) rs)
          ⊎ ((exit ≡ some partial_failure) × Any (λ (r : Result). r.error ≢ none) rs))

  -- The writer behind `Close`, with what its sink has.
  abbrev pub Leaves : Delivery → Option ExitError → Closed → Type 0
  Leaves p exit closed =
      (w' : Writer) × (closed ≡ some (true, w'))
      × Ends p.stream_error p.check_error p.results exit (passed_of w'.buffer)

json_named : resolve_format (codes "json" ∷ []) ≡ ok format_json
unfolding resolve_format contains has_prefix text_eq
json_named = refl

module _ {W X : Type 0} (net : Network W) (enc : Encoders) (files : Files) (u : Unicode)
    (d : Bytes → Option ℤ) (can_create : Bytes → Bool)
    (dns_status : Checker X → ℤ → W → (List ServerStatus × Option Error) × Checker X × W) where
  -- Of `runStatus` with the flag for JSON, where the configuration gives a checker and the output can be
  -- written, and `DNSStatus` returns an error: the command returns that error, the writer is closed
  -- without one, and the output is empty, whatever statuses came with the error.
  run_status_lem :
      (config output : Bytes) (world : W) (c : Checker X) (limit : ℤ) (w : Writer) (e : Error)
      → build_checker files u d config ≡ ok (c, limit)
      → new_writer can_create output format_json ≡ some w
      → (dns_status c limit world).0.1 ≡ some e
      → ((run_status net enc files u d can_create dns_status
            (codes "json" ∷ [])
            config
            output
            world).exit
          ≡ some (status_failed e))
        × (w' : Writer) × ((run_status net enc files u d can_create dns_status
              (codes "json" ∷ [])
              config
              output
              world).writer
            ≡ some (some (true, w')))
        × (passed_of w'.buffer ≡ [])
  unfolding run_status run_command with_format with_checker with_writer status_work report_statuses
      finish_command
  run_status_lem config output world c limit w e built opened failed =
      let (w', closed, out) = json_unused enc can_create output w opened in
      rw (json_named, built, opened, failed) (refl, w', ap some closed, out)
