-- ===== src/Examples/Descriptors.antt =====
-- The program's filters on a table of descriptors.
use voxter.Common.{ℕ, ◌≡◌, refl, Bool, true, false, [], ◌∷◌, none, some, arith}
use voxter.LineFilter.Descriptors.{
  device, read_end, write_end, StdFdLineFilter, make_filter, start, stop, save_target, redirect,
}
use voxter.LineFilter.Bracket.{PutsBack, stop_waits_for_ever}
use voxter.App.Run.{signs_out, starts, closes, act, run}
use voxter.Main.{main, main_restores}
use voxter.Examples.Client.{world, client}
use voxter.Examples.Tables.{Table, find, tables}

-- standard output and error
abbrev console : Table
console = (1, device 1) ∷ (2, device 2) ∷ []

abbrev never_full : Table → Bool
never_full l = false

abbrev full_at_five : Table → Bool
full_at_five (a ∷ b ∷ d ∷ e ∷ f ∷ l) = true
full_at_five l = false

never_full-PutsBack : PutsBack (tables never_full)
never_full-PutsBack fd n s is_open e = ground (arith, is_open, e)

main_restores_example :
    (s' : Table) × (main (tables never_full) world 1 2 (signs_out ∷ []) client console
      ≡ some (act world closes (run world (signs_out ∷ []) (act world starts client)), s'))
    × ((x : ℕ) → find s' x ≡ find console x)
main_restores_example =
    main_restores (tables never_full) world 1 2 (signs_out ∷ []) client console never_full-PutsBack
      (ground arith) (ground arith) (omega arith)

abbrev started : StdFdLineFilter × Table
started = (
  record {
    target_fd = 1;
    original_fd = some 4;
    pipe_read = some 2;
    pipe_write = some 3;
    joinable = true;
    started = true;
  },
  (1, write_end 1) ∷ (4, device 1) ∷ (2, read_end 1) ∷ (3, write_end 1) ∷ (1, device 1) ∷ [],
)

started_lem :
    start (tables full_at_five) (make_filter 1) ((1, device 1) ∷ []) ≡ (true, started.0, started.1)
unfolding start save_target redirect make_filter
started_lem = refl

stop_waits_for_ever_example : stop (tables full_at_five) started.0 started.1 ≡ none
stop_waits_for_ever_example =
    stop_waits_for_ever (tables full_at_five) 1 ((1, device 1) ∷ []) started.1 started.0
      (ground arith) started_lem (λ fd. refl)
