-- ===== src/LineFilter/Descriptors.antt =====
-- client/src/main.cpp, StdFdLineFilter: `start` and `stop`, which put a pipe in the place of a
-- descriptor and take it away again. The C runtime's calls are the fields of `Runtime`; a call that
-- fails is `none` and changes nothing. A descriptor of -1 is `none`. std::fflush writes out what the
-- program's own buffers hold and opens or closes nothing, so it has no part here.
use voxter.Common.{ℕ, ◌≡◌, ◌≢◌, ◌↔◌, Bool, true, false, not, Option, none, some, eqb, if◌then◌else◌}

-- what a descriptor refers to: a file or console, or one end of a pipe
pub data Stream : Type 0 where
  device : ℕ → Stream
  read_end : ℕ → Stream
  write_end : ℕ → Stream

pub record Runtime : Type 1 where
  pub System : Type 0
  -- what each descriptor refers to, if it is open
  pub stream : System → ℕ → Option Stream
  -- _pipe: the descriptors of the new read end and of the new write end
  pub make_pipe : System → Option (ℕ × ℕ × System)
  -- _dup, _dup2, _close
  pub dup : ℕ → System → Option (ℕ × System)
  pub dup2 : ℕ → ℕ → System → Option System
  pub close : ℕ → System → System
  -- whether a reader of this descriptor comes to the end of its input
  pub ends : ℕ → System → Bool
  pub make_pipe_opens :
      (s s' : System) (r w : ℕ)
      → make_pipe s ≡ some (r, w, s')
      → (stream s r ≡ none)
        × (stream s w ≡ none)
        × (r ≢ w)
        × (p : ℕ) × ((x : ℕ) → stream s x ≢ some (write_end p))
        × ((x : ℕ)
            → stream s' x ≡ (
                if eqb x r
                then some (read_end p)
                else if eqb x w
                then some (write_end p)
                else stream s x))
  pub dup_opens :
      (fd n : ℕ) (s s' : System)
      → dup fd s ≡ some (n, s')
      → (stream s fd ≢ none)
        × (stream s n ≡ none)
        × ((x : ℕ) → stream s' x ≡ (if eqb x n then stream s fd else stream s x))
  pub dup2_opens :
      (fd n : ℕ) (s s' : System)
      → dup2 fd n s ≡ some s'
      → (x : ℕ) → stream s' x ≡ (if eqb x n then stream s fd else stream s x)
  pub close_closes :
      (fd : ℕ) (s : System) (x : ℕ)
      → stream (close fd s) x ≡ (if eqb x fd then none else stream s x)
  -- The input of a pipe ends when no descriptor of its write end is open any more.
  pub ends_iff :
      (r p : ℕ) (s : System)
      → stream s r ≡ some (read_end p)
      → (ends r s ≡ true) ↔ ((x : ℕ) → stream s x ≢ some (write_end p))

-- `joinable` says that the thread of `process_loop` was started and not joined.
pub record StdFdLineFilter : Type 0 where
  pub target_fd : ℕ
  pub original_fd : Option ℕ
  pub pipe_read : Option ℕ
  pub pipe_write : Option ℕ
  pub joinable : Bool
  pub started : Bool

unfoldable pub make_filter : ℕ → StdFdLineFilter
make_filter fd = record {
  target_fd = fd;
  original_fd = none;
  pipe_read = none;
  pipe_write = none;
  joinable = false;
  started = false;
}

module _ (c : Runtime) where
  open c use {System, make_pipe, dup, dup2, close, ends}

  -- with the pipe and the copy of the target open
  unfoldable pub redirect : ℕ → ℕ → ℕ → StdFdLineFilter → System → Bool × StdFdLineFilter × System
  redirect r w o f s = elim (dup2 w f.target_fd s) [
    | none ↦ (false, record f { original_fd = none }, close o (close w (close r s)))
    | some s' ↦ (
      true,
      record f {
        original_fd = some o;
        pipe_read = some r;
        pipe_write = some w;
        joinable = true;
        started = true;
      },
      s',
    )
  ]

  -- with the pipe open
  unfoldable pub save_target : ℕ → ℕ → StdFdLineFilter → System → Bool × StdFdLineFilter × System
  save_target r w f s = elim (dup f.target_fd s) [
    | none ↦ (false, record f { original_fd = none }, close w (close r s))
    | some (o, s') ↦ redirect r w o f s'
  ]

  unfoldable pub start : StdFdLineFilter → System → Bool × StdFdLineFilter × System
  start f s =
      if f.started
      then (true, f, s)
      else elim (make_pipe s) [ none ↦ (false, f, s) | some (r, w, s') ↦ save_target r w f s' ]

  -- `_dup2(m_originalFd, m_targetFd)`, whose result is not looked at
  unfoldable pub put_back : Option ℕ → ℕ → System → System
  put_back none t s = s
  put_back (some o) t s = elim (dup2 o t s) [ none ↦ s | some s' ↦ s' ]

  unfoldable pub close_open : Option ℕ → System → System
  close_open none s = s
  close_open (some fd) s = close fd s

  -- Whether `join` comes back: there is no thread, or its input ends.
  unfoldable pub join_ends : StdFdLineFilter → System → Bool
  join_ends f s = elim f.pipe_read [ none ↦ true | some r ↦ if f.joinable then ends r s else true ]

  -- `none`: `join` waits for ever.
  unfoldable pub stop : StdFdLineFilter → System → Option (StdFdLineFilter × System)
  stop f s =
      let s1 = put_back f.original_fd f.target_fd s in
      let s2 = close_open f.pipe_write s1 in
      if not f.started
      then some (f, s)
      else if join_ends f s2
      then some (make_filter f.target_fd, close_open f.original_fd (close_open f.pipe_read s2))
      else none
