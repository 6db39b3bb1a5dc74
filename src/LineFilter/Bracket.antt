-- ===== src/LineFilter/Bracket.antt =====
-- A filter that is started and later stopped, while the descriptors of another one come and go.
use voxter.Common.{
  ℕ, ◌≡◌, subst, sym, ◌≢◌, ◌⊎◌, inl, inr, refl, Bool, true, ◌||◌, Option, none, some, arith, eqb,
  if◌then◌else◌, Option-cases, Bool-cases,
}
use voxter.LineFilter.Descriptors.{
  Stream, write_end, Runtime, StdFdLineFilter, make_filter, start, stop,
}
use voxter.LineFilter.Stopping.{IsRunning, released, stop_releases, stop_hangs}
use voxter.LineFilter.Starting.{Redirected, start_fails, start_runs}

module _ (c : Runtime) where
  open c use {System, stream, dup2}

  -- The filter's descriptors are untouched, and nothing else came to write into its pipe.
  pub record Later (t : ℕ) (s u : System) (r o p : ℕ) : Type 0 where
    pub same_read : stream u r ≡ stream s r
    pub same_copy : stream u o ≡ stream s o
    pub same_target : stream u t ≡ stream s t
    pub no_new_writer : (x : ℕ) → stream u x ≡ some (write_end p) → stream s x ≡ some (write_end p)

  still-IsRunning :
      (f : StdFdLineFilter) (s u : System) {r w o p : ℕ}
      → IsRunning c f s r w o p
      → Later f.target_fd s u r o p
      → IsRunning c f u r w o p
  still-IsRunning f s u {r} {w} {o} {p} h l = record {
    original = h.original;
    reads = h.reads;
    writes = h.writes;
    has_thread = h.has_thread;
    is_started = h.is_started;
    reads_pipe = cc;
    saved = λ e. h.saved cc;
    fills_pipe = cc;
    two_writers = λ x e. h.two_writers x (l.no_new_writer x e);
    write_ne_target = h.write_ne_target;
    write_ne_read = h.write_ne_read;
  }

  -- The runtime does put a target back.
  abbrev pub PutsBack : Type 0
  PutsBack = (fd n : ℕ) (s : System) → stream s fd ≢ none → dup2 fd n s ≢ none

  -- what the descriptors refer to once a filter is stopped, from what its target was
  abbrev pub after_stop : ℕ → ℕ → ℕ → ℕ → System → System → ℕ → Option Stream
  after_stop t r w o s u x =
      if eqb x o || eqb x r || eqb x w then none else if eqb x t then stream s t else stream u x

  pub stop_behind :
      (t : ℕ) (f : StdFdLineFilter) (s s' u : System) {r w o p : ℕ}
      → PutsBack
      → stream s t ≢ none
      → Redirected c t f s s' r w o p
      → Later t s' u r o p
      → (u' : System) × (stop c f u ≡ some (make_filter t, u'))
        × ((x : ℕ) → stream u' x ≡ after_stop t r w o s u x)
  unfolding released
  stop_behind t f s s' u {r} {w} {o} {p} puts is_open d l =
      let e : f.target_fd ≡ t = d.same_target in
      let runs : IsRunning c f u r w o p = still-IsRunning f s' u d.running (rw e l) in
      let copy : stream u o ≡ stream s t = ground (arith, l, d.after o, is_open, d.copy_new) in
      elim (Option-cases (dup2 o f.target_fd u)) [
        | inl refused ↦ absurd (puts o f.target_fd u (rw copy is_open) refused)
        | inr (u1, done) ↦
            let (u', stopped, now) = stop_releases c f u u1 runs done in
            (u', rw (← e) stopped, λ x. ground (arith, e, copy, now x))
      ]

  -- What a start did: nothing, or it put the pipe in the target's place.
  abbrev pub Outcome : ℕ → System → Bool × StdFdLineFilter × System → Type 0
  Outcome t s (done, f, s') =
      ((f ≡ make_filter t) × ((x : ℕ) → stream s' x ≡ stream s x))
      ⊎ ((r : ℕ) × (w : ℕ) × (o : ℕ) × (p : ℕ) × Redirected c t f s s' r w o p)

  pub start-Outcome :
      (t : ℕ) (s : System) → stream s t ≢ none → Outcome t s (start c (make_filter t) s)
  start-Outcome t s is_open = elim (Bool-cases (start c (make_filter t) s).0) [
    | inl done ↦ inr (start_runs c t s _ _ is_open (ground (arith, done)))
    | inr failed ↦ inl (start_fails c t s _ _ (ground (arith, failed)))
  ]

  pub stop_idle : (t : ℕ) (s : System) → stop c (make_filter t) s ≡ some (make_filter t, s)
  unfolding stop make_filter
  stop_idle t s = refl

  -- The two stops in a row come to their ends, and every descriptor is what it was before.
  abbrev pub Restored : System → StdFdLineFilter → StdFdLineFilter → System → ℕ → ℕ → Type 0
  Restored s f g u t1 t2 =
      (u' : System) × (v : System) × (stop c f u ≡ some (make_filter t1, u'))
      × (stop c g u' ≡ some (make_filter t2, v))
      × ((x : ℕ) → stream v x ≡ stream s x)

  pub first_only :
      (t1 t2 : ℕ) (f g : StdFdLineFilter) (s s1 s2 : System) {r w o p : ℕ}
      → PutsBack
      → stream s t1 ≢ none
      → Redirected c t1 f s s1 r w o p
      → g ≡ make_filter t2
      → ((x : ℕ) → stream s2 x ≡ stream s1 x)
      → Restored s f g s2 t1 t2
  first_only t1 t2 f g s s1 s2 {r} {w} {o} {p} puts is_open d e same =
      let (u, stopped, now) = stop_behind t1 f s s1 s2 puts is_open d (record {
        same_read = same r;
        same_copy = same o;
        same_target = same t1;
        no_new_writer = λ x h. ground (arith, h, same x);
      }) in
      (
        u,
        u,
        stopped,
        rw e (stop_idle t2 u),
        λ x. ground (arith, now x, same x, d.after x, d.read_new, d.write_new, d.copy_new),
      )

  pub second_only :
      (t1 t2 : ℕ) (f g : StdFdLineFilter) (s s1 s2 : System) {r w o p : ℕ}
      → PutsBack
      → stream s t2 ≢ none
      → f ≡ make_filter t1
      → ((x : ℕ) → stream s1 x ≡ stream s x)
      → Redirected c t2 g s1 s2 r w o p
      → Restored s f g s2 t1 t2
  second_only t1 t2 f g s s1 s2 {r} {w} {o} {p} puts is_open e same d =
      let (u, stopped, now) = stop_behind t2 g s1 s2 s2 puts (rw (same t2) is_open) d (record {
        same_read = refl;
        same_copy = refl;
        same_target = refl;
        no_new_writer = λ x h. h;
      }) in
      (
        s2,
        u,
        rw e (stop_idle t1 s2),
        stopped,
        λ x. ground (arith, now x, same x, same t2, d.after x, d.read_new, d.write_new, d.copy_new),
      )

  -- A stop undoes what a start did.
  pub undone :
      (t : ℕ) (f : StdFdLineFilter) (s s1 : System) {r w o p : ℕ}
      → Redirected c t f s s1 r w o p
      → (x : ℕ) → after_stop t r w o s s1 x ≡ stream s x
  undone t f s s1 d x = ground (arith, d.after x, d.read_new, d.write_new, d.copy_new)

  -- Where a filter was started on an open descriptor and the runtime then refuses every call that
  -- would put the target back, its stop waits for ever: the result of that call is not looked at, the
  -- target goes on holding the write end of the pipe, and the thread that is joined reads on.
  pub stop_waits_for_ever :
      (t : ℕ) (s s' : System) (f : StdFdLineFilter)
      → stream s t ≢ none
      → start c (make_filter t) s ≡ (true, f, s')
      → ((fd : ℕ) → dup2 fd t s' ≡ none)
      → stop c f s' ≡ none
  stop_waits_for_ever t s s' f is_open e refused =
      let (r, w, o, p, d) = start_runs c t s s' f is_open e in
      stop_hangs c f s' d.running (subst (λ n. dup2 o n s' ≡ none) (sym d.same_target) (refused o))
