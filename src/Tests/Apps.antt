-- ===== src/Tests/Apps.antt =====
-- Command lines of the benchmark program.
use lockfree_mpmc_queue.Base.{◌^◌, false, List, [], ◌∷◌, refl, arith}
use lockfree_mpmc_queue.TestApp.{
  default_app, Machine, Opt, depth_is, index_is, writers_are, not_inplace,
}
use lockfree_mpmc_queue.TestApp.Sizes.{Ends, run_app-Ends}
use lockfree_mpmc_queue.TestApp.Expected.{EndsWell}
use lockfree_mpmc_queue.TestApp.Endings.{main_program-EndsWell}

-- Built without boost, on a machine where no run waits too long.
abbrev plain_machine : Machine
plain_machine = record { with_boost = false; gives_up = λ r. false }

run_app-Ends_example : Ends 33 plain_machine default_app
run_app-Ends_example =
    run_app-Ends 33 plain_machine default_app refl refl (omega arith) (omega arith) (omega arith)

-- `-d 64 -w 8 -p 3 -D`
abbrev options : List Opt
options = depth_is 64 ∷ index_is 8 ∷ writers_are 3 ∷ not_inplace ∷ []

main_program-EndsWell_example : EndsWell (2 ^ 31) plain_machine options
main_program-EndsWell_example = main_program-EndsWell (2 ^ 31) plain_machine options (omega arith)
