-- ===== src/Checker/Create/Examples.antt =====
-- `New` at work, and the theorem at it.
use nawala_checker.Common.{◌≡◌, refl, List, [], ◌∷◌, Bytes, codes, text_eq}
use nawala_checker.Common.Int.{pos, negsuc}
use nawala_checker.ConnPool.{new_conn_pool}
use nawala_checker.Checker.Settings.{
  Setting, apply, apply_all, is_positive, is_protocol, with_protocol, with_keep_alive,
  with_concurrency, with_max_retries,
}
use nawala_checker.Checker.Create.{new, add_pools}
use nawala_checker.Checker.Create.Ready.{IsReady, new-IsReady}
use nawala_checker.Checker.{find_pool}

abbrev settings : List (Setting Bytes)
settings =
    with_protocol (codes "tcp")
    ∷ with_keep_alive (pos 0)
    ∷ with_concurrency (pos 4)
    ∷ with_concurrency (pos 0)
    ∷ with_max_retries (negsuc 0)
    ∷ with_protocol (codes "quic")
    ∷ []

program : Unit {0}
unfolding new apply apply_all is_positive is_protocol add_pools new_conn_pool find_pool text_eq
program = tt

kept : (new settings).concurrency ≡ pos 4
unfolding program
kept = refl

default_retries : (new settings).max_retries ≡ pos 2
unfolding program
default_retries = refl

new-IsReady_example : IsReady settings (new settings)
new-IsReady_example = new-IsReady settings
