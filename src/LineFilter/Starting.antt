-- ===== src/LineFilter/Starting.antt =====
-- What starting a filter does to the descriptors.
use voxter.Common.{
  ℕ, ◌≡◌, ◌≢◌, inl, inr, refl, subst, true, false, Option, none, some, arith, eqb, if◌then◌else◌,
  Option-cases,
}
use voxter.LineFilter.Descriptors.{
  Stream, read_end, write_end, Runtime, StdFdLineFilter, make_filter, redirect, save_target, start,
}
use voxter.LineFilter.Stopping.{IsRunning}

-- the filter that a start leaves
filter_of : ℕ → ℕ → ℕ → ℕ → StdFdLineFilter
filter_of t r w o = record {
  target_fd = t;
  original_fd = some o;
  pipe_read = some r;
  pipe_write = some w;
  joinable = true;
  started = true;
}

module _ (c : Runtime) where
  open c use {
    System, stream, make_pipe, dup, dup2, close, ends, make_pipe_opens, dup_opens, dup2_opens,
    close_closes, ends_iff,
  }

  -- A pipe that was made and closed again, in either of the two places where a start gives up.
  closed_again :
      (r w : ℕ) (s s' : System)
      → make_pipe s ≡ some (r, w, s')
      → (x : ℕ) → stream (close w (close r s')) x ≡ stream s x
  closed_again r w s s' e x =
      let (fresh_r, fresh_w, differ, p, unused, after) = make_pipe_opens s s' r w e in
      ground (
        arith,
        fresh_r,
        fresh_w,
        differ,
        after x,
        close_closes w (close r s') x,
        close_closes r s' x,
      )

  closed_with_copy :
      (r w t o : ℕ) (s s1 s2 : System)
      → make_pipe s ≡ some (r, w, s1)
      → dup t s1 ≡ some (o, s2)
      → (x : ℕ) → stream (close o (close w (close r s2))) x ≡ stream s x
  closed_with_copy r w t o s s1 s2 e d x =
      let (fresh_r, fresh_w, differ, p, unused, after) = make_pipe_opens s s1 r w e in
      let (is_open, fresh_o, copied) = dup_opens t o s1 s2 d in
      ground (
        arith,
        fresh_r,
        fresh_w,
        differ,
        fresh_o,
        after x,
        after o,
        copied x,
        close_closes o (close w (close r s2)) x,
        close_closes w (close r s2) x,
        close_closes r s2 x,
      )

  -- A start that fails leaves the filter idle and every descriptor as it was, wherever it failed.
  pub start_fails :
      (t : ℕ) (s s' : System) (f' : StdFdLineFilter)
      → start c (make_filter t) s ≡ (false, f', s')
      → (f' ≡ make_filter t) × ((x : ℕ) → stream s' x ≡ stream s x)
  unfolding start save_target redirect make_filter
  start_fails t s s' f' h = elim (Option-cases (make_pipe s)) [
    | inl no_pipe ↦ (ground (arith, h, no_pipe), λ x. ground (arith, h, no_pipe))
    | inr ((r, w, s1), e) ↦ elim (Option-cases (dup t s1)) [
      | inl no_copy ↦ (
        ground (arith, h, e, no_copy),
        λ x. ground (arith, h, e, no_copy, closed_again r w s s1 e x),
      )
      | inr ((o, s2), d) ↦ (
        ground (arith, h, e, d),
        λ x. ground (arith, h, e, d, closed_with_copy r w t o s s1 s2 e d x),
      )
    ]
  ]

  -- what the descriptors refer to after a start
  abbrev pub after_start : ℕ → ℕ → ℕ → ℕ → ℕ → System → ℕ → Option Stream
  after_start t r w o p s x =
      if eqb x t
      then some (write_end p)
      else if eqb x o
      then stream s t
      else if eqb x r
      then some (read_end p)
      else if eqb x w
      then some (write_end p)
      else stream s x

  -- the descriptors before and after a start that succeeded
  pub record Redirected (t : ℕ) (f : StdFdLineFilter) (s s' : System) (r w o p : ℕ) : Type 0 where
    pub running : IsRunning c f s' r w o p
    pub same_target : f.target_fd ≡ t
    pub read_new : stream s r ≡ none
    pub write_new : stream s w ≡ none
    pub copy_new : stream s o ≡ none
    pub pipe_new : (x : ℕ) → stream s x ≢ some (write_end p)
    pub after : (x : ℕ) → stream s' x ≡ after_start t r w o p s x

  -- From an open target, in the order of the calls.
  redirected :
      (t r w o : ℕ) (s s1 s2 s' : System)
      → stream s t ≢ none
      → make_pipe s ≡ some (r, w, s1)
      → dup t s1 ≡ some (o, s2)
      → dup2 w t s2 ≡ some s'
      → (p : ℕ) × Redirected t (filter_of t r w o) s s' r w o p
  unfolding filter_of
  redirected t r w o s s1 s2 s' is_open e d u =
      let (fresh_r, fresh_w, differ, p, unused, opened) = make_pipe_opens s s1 r w e in
      let (has_target, fresh_o, copied) = dup_opens t o s1 s2 d in
      let now = dup2_opens w t s2 s' u in
      let r_ne_t : r ≢ t = λ q. is_open (subst (λ x. stream s x ≡ none) q fresh_r) in
      let w_ne_t : w ≢ t = λ q. is_open (subst (λ x. stream s x ≡ none) q fresh_w) in
      let o_ne_r : o ≢ r = ground (arith, fresh_o, opened o) in
      let o_ne_w : o ≢ w = ground (arith, fresh_o, opened o) in
      let o_ne_t : o ≢ t = λ q. has_target (subst (λ x. stream s1 x ≡ none) q fresh_o) in
      let final : (x : ℕ) → stream s' x ≡ after_start t r w o p s x = λ x. ground (
        arith,
        r_ne_t,
        w_ne_t,
        o_ne_w,
        o_ne_r,
        differ,
        now x,
        copied x,
        copied w,
        opened x,
        opened w,
        opened t,
      ) in
      (
        p,
        record {
          running = record {
            original = refl;
            reads = refl;
            writes = refl;
            has_thread = refl;
            is_started = refl;
            reads_pipe = ground (arith, r_ne_t, o_ne_r, final r);
            saved = ground (arith, o_ne_t, final o, unused t);
            fills_pipe = ground (arith, final t);
            two_writers = λ x h. ground (arith, h, final x, unused x, unused t);
            write_ne_target = w_ne_t;
            write_ne_read = ground (arith, differ);
          };
          same_target = refl;
          read_new = fresh_r;
          write_new = fresh_w;
          copy_new = ground (arith, fresh_o, opened o);
          pipe_new = unused;
          after = final;
        },
      )

  pub start_runs :
      (t : ℕ) (s s' : System) (f : StdFdLineFilter)
      → stream s t ≢ none
      → start c (make_filter t) s ≡ (true, f, s')
      → (r : ℕ) × (w : ℕ) × (o : ℕ) × (p : ℕ) × Redirected t f s s' r w o p
  unfolding start save_target redirect make_filter
  start_runs t s s' f is_open h = elim (Option-cases (make_pipe s)) [
    | inl no_pipe ↦ absurd (ground (arith, h, no_pipe))
    | inr ((r, w, s1), e) ↦ elim (Option-cases (dup t s1)) [
      | inl no_copy ↦ absurd (ground (arith, h, e, no_copy))
      | inr ((o, s2), d) ↦
          let u : dup2 w t s2 ≡ some s' = ground (arith, h, e, d) in
          let q : filter_of t r w o ≡ f = unfold filter_of in ground (arith, h, e, d) in
          let (p, k) = redirected t r w o s s1 s2 s' is_open e d u in
          (r, w, o, p, subst (λ g. Redirected t g s s' r w o p) q k)
    ]
  ]
