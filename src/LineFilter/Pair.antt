-- ===== src/LineFilter/Pair.antt =====
-- Two filters on two descriptors, as the program has them: started one behind the other and stopped
-- in the same order.
use voxter.Common.{ℕ, ◌≡◌, ◌≢◌, ◌∙◌, inl, inr, none, some, arith}
use voxter.LineFilter.Descriptors.{write_end, Runtime, StdFdLineFilter, make_filter, start}
use voxter.LineFilter.Starting.{Redirected}
use voxter.LineFilter.Bracket.{
  Later, PutsBack, Restored, after_stop, stop_behind, stop_idle, start-Outcome, first_only,
  second_only, undone,
}

module _ (c : Runtime) where
  open c use {System, stream, dup2}

  -- The first filter's descriptors are open, so the second one's are others.
  module _ (t1 t2 : ℕ) (f g : StdFdLineFilter) (s s1 s2 : System) {r w o p r' w' o' p' : ℕ}
      (open1 : stream s t1 ≢ none) (open2 : stream s t2 ≢ none) (differ : t1 ≢ t2)
      (d : Redirected c t1 f s s1 r w o p) (k : Redirected c t2 g s1 s2 r' w' o' p') where
    copy_of_target : stream s1 o ≡ stream s t1
    copy_of_target = ground (arith, open1, d.after o, d.copy_new)

    second_target : stream s1 t2 ≡ stream s t2
    second_target = ground (arith, differ, open2, d.after t2, d.read_new, d.write_new, d.copy_new)

    first_fills : stream s1 t1 ≡ some (write_end p)
    first_fills = ground (arith, d.after t1)

    write_open : stream s1 w ≢ none
    write_open = ground (arith, d.after w, open1)

    -- a descriptor that the second filter leaves alone
    second_spares : (x : ℕ) → x ≢ t2 → stream s1 x ≢ none → stream s2 x ≡ stream s1 x
    second_spares x e is_open =
        ground (arith, e, is_open, k.after x, k.read_new, k.write_new, k.copy_new)

    first-Later : Later c t1 s1 s2 r o p
    first-Later = record {
      same_read =
          second_spares r (ground (arith, open2, d.read_new))
            (ground (arith, d.running.reads_pipe));
      same_copy = second_spares o (ground (arith, open2, d.copy_new)) (rw copy_of_target open1);
      same_target = second_spares t1 differ (ground (arith, first_fills));
      no_new_writer = λ x q.
          ground (arith, q, k.after x, k.pipe_new t1, first_fills, second_target, d.pipe_new t2);
    }

    module _ (u : System) (now : (x : ℕ) → stream u x ≡ after_stop c t1 r w o s s2 x) where
      -- what was not open before the second filter, or is its target, outlives the first one's stop
      first_spares : (x : ℕ) → stream s1 x ≡ none → stream u x ≡ stream s2 x
      first_spares x e =
          ground
            (arith, e, now x, copy_of_target, open1, d.running.reads_pipe, write_open, first_fills)

      target_spared : stream u t2 ≡ stream s2 t2
      target_spared = ground (arith, now t2, open2, d.read_new, d.write_new, d.copy_new, differ)

      second-Later : Later c t2 s2 u r' o' p'
      second-Later = record {
        same_read = first_spares r' k.read_new;
        same_copy = first_spares o' k.copy_new;
        same_target = target_spared;
        no_new_writer = λ x q. ground (arith, q, now x, copy_of_target, k.pipe_new o);
      }

      -- The order of the two stops does not matter.
      swapped : (x : ℕ) → after_stop c t2 r' w' o' s1 u x ≡ after_stop c t1 r w o s s1 x
      swapped x = ground (
        arith,
        now x,
        undone c t2 g s1 s2 k x,
        first_fills,
        open2,
        d.read_new,
        d.write_new,
        d.copy_new,
        differ,
      )

  both :
      (t1 t2 : ℕ) (f g : StdFdLineFilter) (s s1 s2 : System) {r w o p r' w' o' p' : ℕ}
      → PutsBack c
      → stream s t1 ≢ none
      → stream s t2 ≢ none
      → t1 ≢ t2
      → Redirected c t1 f s s1 r w o p
      → Redirected c t2 g s1 s2 r' w' o' p'
      → Restored c s f g s2 t1 t2
  both t1 t2 f g s s1 s2 {r} {w} {o} {p} {r'} {w'} {o'} {p'} puts open1 open2 differ d k =
      let (u, stopped1, now1) =
        stop_behind c t1 f s s1 s2 puts open1 d
          (first-Later t1 t2 f g s s1 s2 open1 open2 differ d k) in
      let (v, stopped2, now2) =
        stop_behind c t2 g s1 s2 u puts
          (rw (second_target t1 t2 f g s s1 s2 open1 open2 differ d k) open2) k
          (second-Later t1 t2 f g s s1 s2 open1 open2 differ d k u now1) in
      (
        u,
        v,
        stopped1,
        stopped2,
        λ x.
            now2 x
            ∙ swapped t1 t2 f g s s1 s2 open1 open2 differ d k u now1 x
            ∙ undone c t1 f s s1 d x,
      )

  still_open :
      (t1 t2 : ℕ) (f : StdFdLineFilter) (s s1 : System) {r w o p : ℕ}
      → stream s t2 ≢ none
      → t1 ≢ t2
      → Redirected c t1 f s s1 r w o p
      → stream s1 t2 ≢ none
  still_open t1 t2 f s s1 open2 differ d =
      ground (arith, differ, open2, d.after t2, d.read_new, d.write_new, d.copy_new)

  -- The stops of the program's two filters come to their ends, and behind them every descriptor is
  -- what it was before the starts, whichever of the two starts failed.
  pub pair_restores :
      (t1 t2 : ℕ) (s : System)
      → PutsBack c
      → stream s t1 ≢ none
      → stream s t2 ≢ none
      → t1 ≢ t2
      → let (_, f, s1) = start c (make_filter t1) s in
        let (_, g, s2) = start c (make_filter t2) s1 in Restored c s f g s2 t1 t2
  pair_restores t1 t2 s puts open1 open2 differ =
      let a = start c (make_filter t1) s in
      let b = start c (make_filter t2) a.2 in
      elim (start-Outcome c t1 s open1) [
        | inl (idle, same) ↦ elim (start-Outcome c t2 a.2 (rw (same t2) open2)) [
          | inl (idle', same') ↦ (
            b.2,
            b.2,
            rw idle (stop_idle c t1 b.2),
            rw idle' (stop_idle c t2 b.2),
            λ x. same' x ∙ same x,
          )
          | inr (r, w, o, p, k) ↦ second_only c t1 t2 a.1 b.1 s a.2 b.2 puts open2 idle same k
        ]
        | inr (r, w, o, p, d) ↦
            elim (start-Outcome c t2 a.2 (still_open t1 t2 a.1 s a.2 open2 differ d)) [
              | inl (idle, same) ↦ first_only c t1 t2 a.1 b.1 s a.2 b.2 puts open1 d idle same
              | inr (r', w', o', p', k) ↦ both t1 t2 a.1 b.1 s a.2 b.2 puts open1 open2 differ d k
            ]
      ]
