-- ===== src/LineFilter/Stopping.antt =====
-- What stopping a filter does to the descriptors.
use voxter.Common.{
  ℕ, ◌≡◌, ◌≢◌, ◌⊎◌, inl, inr, true, false, ◌||◌, Option, none, some, arith, eqb, if◌then◌else◌,
  Bool-cases,
}
use voxter.LineFilter.Descriptors.{
  Stream, read_end, write_end, Runtime, StdFdLineFilter, make_filter, put_back, close_open,
  join_ends, stop,
}

module _ (c : Runtime) where
  open c use {
    System, stream, make_pipe, dup, dup2, close, ends, make_pipe_opens, dup_opens, dup2_opens,
    close_closes, ends_iff,
  }

  -- a filter whose target is one of two descriptors of the write end of pipe `p`
  pub record IsRunning (f : StdFdLineFilter) (s : System) (r w o p : ℕ) : Type 0 where
    pub original : f.original_fd ≡ some o
    pub reads : f.pipe_read ≡ some r
    pub writes : f.pipe_write ≡ some w
    pub has_thread : f.joinable ≡ true
    pub is_started : f.started ≡ true
    pub reads_pipe : stream s r ≡ some (read_end p)
    pub saved : stream s o ≢ some (write_end p)
    pub fills_pipe : stream s f.target_fd ≡ some (write_end p)
    pub two_writers : (x : ℕ) → stream s x ≡ some (write_end p) → (x ≡ w) ⊎ (x ≡ f.target_fd)
    pub write_ne_target : w ≢ f.target_fd
    pub write_ne_read : w ≢ r

  -- what the descriptors refer to after a stop
  unfoldable pub released : ℕ → ℕ → ℕ → ℕ → System → ℕ → Option Stream
  released t r w o s x =
      if eqb x o || eqb x r || eqb x w then none else if eqb x t then stream s o else stream s x

  no_writer :
      (f : StdFdLineFilter) (s s1 : System) {r w o p : ℕ}
      → IsRunning f s r w o p
      → dup2 o f.target_fd s ≡ some s1
      → (x : ℕ) → stream (close w s1) x ≢ some (write_end p)
  no_writer f s s1 {r} {w} {o} h e x q =
      ground (arith, h.two_writers x, dup2_opens o f.target_fd s s1 e x, close_closes w s1 x)

  join_returns :
      (f : StdFdLineFilter) (s s1 : System) {r w o p : ℕ}
      → IsRunning f s r w o p
      → dup2 o f.target_fd s ≡ some s1
      → ends r (close w s1) ≡ true
  join_returns f s s1 {r} {w} {o} {p} h e =
      (ends_iff r p (close w s1)
          (ground (arith, h, dup2_opens o f.target_fd s s1 e r, close_closes w s1 r))).1
        (no_writer f s s1 h e)

  -- Once the target is put back, a stop comes to its end, closes what the start had opened and
  -- leaves every other descriptor alone.
  pub stop_releases :
      (f : StdFdLineFilter) (s s1 : System) {r w o p : ℕ}
      → IsRunning f s r w o p
      → dup2 o f.target_fd s ≡ some s1
      → (s' : System) × (stop c f s ≡ some (make_filter f.target_fd, s'))
        × ((x : ℕ) → stream s' x ≡ released f.target_fd r w o s x)
  unfolding stop join_ends put_back close_open released
  stop_releases f s s1 {r} {w} {o} h e = (
    close o (close r (close w s1)),
    ground (arith, h, e, join_returns f s s1 h e),
    λ x. ground (
      arith,
      close_closes o (close r (close w s1)) x,
      close_closes r (close w s1) x,
      close_closes w s1 x,
      dup2_opens o f.target_fd s s1 e x,
    ),
  )

  still_read :
      (f : StdFdLineFilter) (s : System) {r w o p : ℕ}
      → IsRunning f s r w o p
      → ends r (close w s) ≡ false
  still_read f s {r} {w} {o} {p} h =
      let reads : stream (close w s) r ≡ some (read_end p) =
        ground (arith, h, close_closes w s r) in
      elim (Bool-cases (ends r (close w s))) [
        | inl e ↦ absurd (
            (ends_iff r p (close w s) reads).0 e f.target_fd
              (ground (arith, h, close_closes w s f.target_fd)))
        | inr e ↦ e
      ]

  -- Where the runtime refuses to put the target back, the stop never ends: the target still holds
  -- the write end, so the thread's input has no end.
  pub stop_hangs :
      (f : StdFdLineFilter) (s : System) {r w o p : ℕ}
      → IsRunning f s r w o p
      → dup2 o f.target_fd s ≡ none
      → stop c f s ≡ none
  unfolding stop join_ends put_back close_open
  stop_hangs f s {r} {w} {o} {p} h e = ground (arith, h, e, still_read f s h)
