-- ===== src/LineFilter/Chunks.antt =====
-- The filter's output does not depend on how the bytes arrive.
use mathlib.Core.List.{append-nil, append_assoc, flatten}
use voxter.Common.{ℕ, ◌≡◌, refl, ap, ◌∙◌, sym, List, [], ◌∷◌, ◌++◌, arith}
use voxter.LineFilter.{
  split_lines, cons_byte, keep_lines, Filter, read_chunk, read_chunks, flush, process_loop,
  last_line,
}

abbrev with_lines : List (List ℕ) → List (List ℕ) × List ℕ → List (List ℕ) × List ℕ
with_lines ls (more, rest) = (ls ++ more, rest)

cons_byte-with_lines :
    (x : ℕ) (ls : List (List ℕ)) (rest b : List ℕ)
    → cons_byte x (with_lines ls (split_lines (rest ++ b)))
      ≡ with_lines (cons_byte x (ls, rest)).0 (split_lines ((cons_byte x (ls, rest)).1 ++ b))
unfolding cons_byte split_lines
cons_byte-with_lines x [] rest b = ground arith
cons_byte-with_lines x (l ∷ ls) rest b = ground arith

-- The lines of two texts in a row: those of the first, and those of its rest with the second.
split_lines-append :
    (a b : List ℕ)
    → split_lines (a ++ b) ≡ with_lines (split_lines a).0 (split_lines ((split_lines a).1 ++ b))
unfolding split_lines
split_lines-append [] b = refl
split_lines-append (x ∷ a) b =
    ap (cons_byte x) (split_lines-append a b)
    ∙ cons_byte-with_lines x (split_lines a).0 (split_lines a).1 b

keep_lines-append : (k l : List (List ℕ)) → keep_lines (k ++ l) ≡ keep_lines k ++ keep_lines l
unfolding keep_lines
keep_lines-append [] l = refl
keep_lines-append (x ∷ k) l = ground (arith, keep_lines-append k l)

-- All lines of a text, the last one without a newline.
abbrev pub all_lines : List ℕ → List (List ℕ)
all_lines bs = (split_lines bs).0 ++ last_line (split_lines bs).1

-- a filter that has read the bytes `bs`
abbrev pub HasRead : List ℕ → Filter → Type 0
HasRead bs f = (f.pending ≡ (split_lines bs).1) × (f.written ≡ keep_lines (split_lines bs).0)

pub read_chunk-HasRead :
    (bs chunk : List ℕ) (f : Filter) → HasRead bs f → HasRead (bs ++ chunk) (read_chunk chunk f)
unfolding read_chunk
read_chunk-HasRead bs chunk f h = ground (
  arith,
  split_lines-append bs chunk,
  keep_lines-append (split_lines bs).0 (split_lines ((split_lines bs).1 ++ chunk)).0,
)

read_chunks-HasRead :
    (bs : List ℕ) (chunks : List (List ℕ)) (f : Filter)
    → HasRead bs f
    → HasRead (bs ++ flatten chunks) (read_chunks chunks f)
unfolding read_chunks flatten
read_chunks-HasRead bs [] f h = rw append-nil h
read_chunks-HasRead bs (c ∷ cs) f h =
    rw (← append_assoc)
      (read_chunks-HasRead (bs ++ c) cs (read_chunk c f) (read_chunk-HasRead bs c f h))

abbrev pub start : Filter
start = record { pending = []; written = [] }

pub start-HasRead : HasRead [] start
unfolding split_lines keep_lines
start-HasRead = (refl, refl)

pub flush-HasRead :
    (bs : List ℕ) (f : Filter) → HasRead bs f → (flush f).written ≡ keep_lines (all_lines bs)
unfolding flush
flush-HasRead bs f h =
    ground (arith, h, keep_lines-append (split_lines bs).0 (last_line (split_lines bs).1))

-- However the output arrives in chunks, the filter writes the lines of the whole, each once and in
-- order, without those that are to be dropped; a last line without a newline is a line too.
pub process_loop_lem :
    (chunks : List (List ℕ))
    → (process_loop chunks).written ≡ keep_lines (all_lines (flatten chunks))
unfolding process_loop
process_loop_lem chunks =
    flush-HasRead (flatten chunks) (read_chunks chunks start)
      (read_chunks-HasRead [] chunks start start-HasRead)

cons_byte-flatten :
    (b : ℕ) (ls : List (List ℕ)) (rest : List ℕ)
    → flatten (cons_byte b (ls, rest)).0 ++ (cons_byte b (ls, rest)).1 ≡ b ∷ (flatten ls ++ rest)
unfolding cons_byte flatten
cons_byte-flatten b [] rest = ground arith
cons_byte-flatten b (l ∷ ls) rest = ground arith

flatten-split_lines : (bs : List ℕ) → flatten (split_lines bs).0 ++ (split_lines bs).1 ≡ bs
unfolding split_lines flatten
flatten-split_lines [] = refl
flatten-split_lines (b ∷ bs) =
    cons_byte-flatten b (split_lines bs).0 (split_lines bs).1 ∙ ap (◌∷◌ b) (flatten-split_lines bs)

flatten-append_last_line :
    (ls : List (List ℕ)) (rest : List ℕ) → flatten (ls ++ last_line rest) ≡ flatten ls ++ rest
unfolding flatten
flatten-append_last_line [] [] = refl
flatten-append_last_line [] (b ∷ bs) = append-nil (b ∷ bs)
flatten-append_last_line (l ∷ ls) rest =
    ap (◌++◌ l) (flatten-append_last_line ls rest) ∙ sym (append_assoc l (flatten ls) rest)

-- Splitting loses no byte: put together, the lines of a text are the text.
pub flatten-all_lines : (bs : List ℕ) → flatten (all_lines bs) ≡ bs
flatten-all_lines bs =
    flatten-append_last_line (split_lines bs).0 (split_lines bs).1 ∙ flatten-split_lines bs
