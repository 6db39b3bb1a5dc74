-- ===== src/Examples/Tables.antt =====
-- A table of descriptors that keeps the laws of `Runtime`.
use voxter.Common.{
  ℕ, ◌≤◌, ◌<◌, suc, ◌≡◌, ◌≢◌, ◌↔◌, refl, Bool, true, false, not, ◌||◌, List, [], ◌∷◌, Option, none,
  some, arith, eqb, ltb, if◌then◌else◌,
}
use voxter.LineFilter.Descriptors.{Stream, device, read_end, write_end, Runtime}

abbrev pub Table : Type 0
Table = List (ℕ × Stream)

abbrev pub find : Table → ℕ → Option Stream
find [] x = none
find ((fd, v) ∷ l) x = if eqb x fd then some v else find l x

abbrev pub remove : ℕ → Table → Table
remove fd [] = []
remove fd ((n, v) ∷ l) = if eqb n fd then remove fd l else (n, v) ∷ remove fd l

-- above every descriptor, and above every pipe
abbrev next_fd : Table → ℕ
next_fd [] = 0
next_fd ((fd, v) ∷ l) = if ltb fd (next_fd l) then next_fd l else suc fd

abbrev pipe_of : Stream → ℕ
pipe_of (device n) = 0
pipe_of (read_end p) = p
pipe_of (write_end p) = p

abbrev next_pipe : Table → ℕ
next_pipe [] = 0
next_pipe ((fd, v) ∷ l) = if ltb (pipe_of v) (next_pipe l) then next_pipe l else suc (pipe_of v)

abbrev is_write_end : ℕ → Option Stream → Bool
is_write_end p (some (write_end q)) = eqb q p
is_write_end p (some (read_end q)) = false
is_write_end p (some (device q)) = false
is_write_end p none = false

abbrev has_writer : ℕ → Table → Table → Bool
has_writer p [] l = false
has_writer p ((fd, v) ∷ m) l = is_write_end p (find l fd) || has_writer p m l

abbrev make_pipe : Table → Option (ℕ × ℕ × Table)
make_pipe l =
    let n = next_fd l in
    let p = next_pipe l in some (n, suc n, (n, read_end p) ∷ (suc n, write_end p) ∷ l)

abbrev dup : ℕ → Table → Option (ℕ × Table)
dup fd l = elim (find l fd) [ none ↦ none | some v ↦ some (next_fd l, (next_fd l, v) ∷ l) ]

abbrev dup2 : (Table → Bool) → ℕ → ℕ → Table → Option Table
dup2 full fd n l =
    if full l then none else elim (find l fd) [ none ↦ none | some v ↦ some ((n, v) ∷ l) ]

abbrev reader_ends : Table → Option Stream → Bool
reader_ends l none = true
reader_ends l (some (device n)) = true
reader_ends l (some (read_end p)) = not (has_writer p l l)
reader_ends l (some (write_end p)) = true

find-above : (l : Table) (x : ℕ) → next_fd l ≤ x → find l x ≡ none
find-above [] x h = refl
find-above ((fd, v) ∷ l) x h = ground (arith, h, find-above l x)

find-pipe : (l : Table) (x p : ℕ) → find l x ≡ some (write_end p) → p < next_pipe l
find-pipe [] x p h = ground (arith, h)
find-pipe ((fd, v) ∷ l) x p h = ground (arith, h, find-pipe l x p)

pub find-remove :
    (fd : ℕ) (l : Table) (x : ℕ) → find (remove fd l) x ≡ (if eqb x fd then none else find l x)
find-remove fd [] x = ground arith
find-remove fd ((n, v) ∷ l) x = ground (arith, find-remove fd l x)

no_writer :
    (p : ℕ) (m l : Table) (x : ℕ)
    → has_writer p m l ≡ false
    → find l x ≡ some (write_end p)
    → find m x ≡ none
no_writer p [] l x h e = refl
no_writer p ((fd, v) ∷ m) l x h e = ground (arith, h, e, no_writer p m l x)

some_writer :
    (p : ℕ) (m l : Table) → ((x : ℕ) → find l x ≢ some (write_end p)) → has_writer p m l ≡ false
some_writer p [] l h = refl
some_writer p ((fd, v) ∷ m) l h = ground (arith, h fd, some_writer p m l h)

pub reader_ends_iff :
    (r p : ℕ) (l : Table)
    → find l r ≡ some (read_end p)
    → (reader_ends l (find l r) ≡ true) ↔ ((x : ℕ) → find l x ≢ some (write_end p))
reader_ends_iff r p l e = (
  λ h x q. ground (arith, rw e at h, no_writer p l l x (ground (arith, rw e at h)) q, q),
  λ h. rw e (rw (some_writer p l l h) refl),
)

pub make_pipe_opens :
    (s s' : Table) (r w : ℕ)
    → make_pipe s ≡ some (r, w, s')
    → (find s r ≡ none)
      × (find s w ≡ none)
      × (r ≢ w)
      × (p : ℕ) × ((x : ℕ) → find s x ≢ some (write_end p))
      × ((x : ℕ)
          → find s' x ≡ (
              if eqb x r
              then some (read_end p)
              else if eqb x w
              then some (write_end p)
              else find s x))
make_pipe_opens s s' r w e = (
  ground (arith, e, find-above s r),
  ground (arith, e, find-above s w),
  ground (arith, e),
  next_pipe s,
  λ x q. ground (arith, find-pipe s x (next_pipe s) q),
  λ x. ground (arith, e),
)

pub dup_opens :
    (fd n : ℕ) (s s' : Table)
    → dup fd s ≡ some (n, s')
    → (find s fd ≢ none)
      × (find s n ≡ none)
      × ((x : ℕ) → find s' x ≡ (if eqb x n then find s fd else find s x))
dup_opens fd n s s' e =
    (ground (arith, e), ground (arith, e, find-above s n), λ x. ground (arith, e))

pub dup2_opens :
    (full : Table → Bool) (fd n : ℕ) (s s' : Table)
    → dup2 full fd n s ≡ some s'
    → (x : ℕ) → find s' x ≡ (if eqb x n then find s fd else find s x)
dup2_opens full fd n s s' e x = ground (arith, e)

-- Tables whose `dup2` fails where the test says so.
abbrev pub tables : (Table → Bool) → Runtime
tables full = record {
  System = Table;
  stream = find;
  make_pipe = make_pipe;
  dup = dup;
  dup2 = dup2 full;
  close = remove;
  ends = λ fd l. reader_ends l (find l fd);
  make_pipe_opens = make_pipe_opens;
  dup_opens = dup_opens;
  dup2_opens = dup2_opens full;
  close_closes = find-remove;
  ends_iff = reader_ends_iff;
}
