-- ===== src/Main.antt =====
-- client/src/main.cpp, main: the two filters around the application's run. The events that app.exec
-- waits for are the actions; QML, which is loaded before `initialize`, is not modelled.
use voxter.Common.{ℕ, ◌≡◌, ◌≢◌, refl, List, Option, none, some, arith}
use voxter.App.{App}
use voxter.App.Run.{World, Action, starts, closes, act, run}
use voxter.LineFilter.Descriptors.{Runtime, StdFdLineFilter, make_filter, start, stop}
use voxter.LineFilter.Bracket.{PutsBack, stop_idle}
use voxter.LineFilter.Pair.{pair_restores}

module _ (c : Runtime) where
  open c use {System, stream}

  unfoldable pub stop_both :
      StdFdLineFilter
      → StdFdLineFilter
      → System
      → Option (StdFdLineFilter × StdFdLineFilter × System)
  stop_both f g s = elim (stop c f s) [
    | none ↦ none
    | some (f', s') ↦ elim (stop c g s') [ none ↦ none | some (g', s'') ↦ some (f', g', s'') ]
  ]

  -- Behind the calls of `stop` come the destructors, the last filter's first.
  unfoldable pub main : World → ℕ → ℕ → List Action → App → System → Option (App × System)
  unfolding stop_both
  main world stdout stderr actions a s =
      let (_, f, s1) = start c (make_filter stdout) s in
      let (_, g, s2) = start c (make_filter stderr) s1 in
      let b = act world closes (run world actions (act world starts a)) in
      elim (stop_both f g s2) [
        | none ↦ none
        | some (f', g', s3) ↦ elim (stop_both g' f' s3) [
          | none ↦ none
          | some (_, _, s4) ↦ some (b, s4)
        ]
      ]

  stop_both_lem :
      (f g : StdFdLineFilter) {f' g' : StdFdLineFilter} (s s' s'' : System)
      → stop c f s ≡ some (f', s')
      → stop c g s' ≡ some (g', s'')
      → stop_both f g s ≡ some (f', g', s'')
  unfolding stop_both
  stop_both_lem f g s s' s'' p q = ground (arith, p, q)

  -- Where standard output and error are open, are two descriptors, and the runtime puts targets
  -- back, the program ends: no join waits for ever. The application has run and shut down, and every
  -- descriptor refers to what it referred to before, whichever of the filters could be started.
  pub main_restores :
      (world : World) (stdout stderr : ℕ) (actions : List Action) (a : App) (s : System)
      → PutsBack c
      → stream s stdout ≢ none
      → stream s stderr ≢ none
      → stdout ≢ stderr
      → (s' : System) × (main world stdout stderr actions a s
          ≡ some (act world closes (run world actions (act world starts a)), s'))
        × ((x : ℕ) → stream s' x ≡ stream s x)
  unfolding main
  main_restores world stdout stderr actions a s puts open1 open2 differ =
      let (u, v, first, second, same) = pair_restores c stdout stderr s puts open1 open2 differ in
      let stopped = stop_both_lem _ _ _ u v first second in
      let idle = stop_both_lem _ _ v v v (stop_idle c stderr v) (stop_idle c stdout v) in
      (v, rw (stopped, main) (rw idle refl), same)
