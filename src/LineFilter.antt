-- ===== src/LineFilter.antt =====
-- client/src/main.cpp, StdFdLineFilter: lines of the LiveKit SDK's output are kept back. Bytes are
-- numbers. A read is a chunk of bytes, and the loop ends
-- behind the last one. `written` lists the writes to the original descriptor in order.
pub mod Chunks
pub mod Descriptors
pub mod Stopping
pub mod Starting
pub mod Bracket
pub mod Pair
pub mod Pipe
use Prim.Native.Char.{code}
use Prim.Native.String
use voxter.Common.{
  ℕ, String, Bool, true, false, not, ◌&&◌, ◌||◌, List, [], ◌∷◌, ◌++◌, eqb, if◌then◌else◌,
}

abbrev codes : String → List ℕ
codes String.[] = []
codes (String.◌∷◌ c s) = code c ∷ codes s

is_prefix : List ℕ → List ℕ → Bool
is_prefix [] bs = true
is_prefix (p ∷ ps) [] = false
is_prefix (p ∷ ps) (b ∷ bs) = eqb p b && is_prefix ps bs

-- line.find(pattern) != npos
occurs : List ℕ → List ℕ → Bool
unfolding is_prefix
occurs pattern_bytes [] = is_prefix pattern_bytes []
occurs pattern_bytes (b ∷ bs) = is_prefix pattern_bytes (b ∷ bs) || occurs pattern_bytes bs

unfoldable pub should_drop_line : List ℕ → Bool
unfolding occurs
should_drop_line line =
    occurs (codes "cs.state() is") line && occurs (codes "connection_state_ is") line

-- one byte in front of the lines and the rest that follow it
cons_byte : ℕ → List (List ℕ) × List ℕ → List (List ℕ) × List ℕ
cons_byte b (ls, rest) =
    if eqb b b'\n'
    then ((b ∷ []) ∷ ls, rest)
    else elim ls [ [] ↦ ([], b ∷ rest) | l ∷ more ↦ ((b ∷ l) ∷ more, rest) ]

-- the inner loop: the complete lines of the pending bytes, and what is left behind them
unfoldable pub split_lines : List ℕ → List (List ℕ) × List ℕ
unfolding cons_byte
split_lines [] = ([], [])
split_lines (b ∷ bs) = cons_byte b (split_lines bs)

unfoldable pub keep_lines : List (List ℕ) → List (List ℕ)
keep_lines [] = []
keep_lines (l ∷ ls) = if should_drop_line l then keep_lines ls else l ∷ keep_lines ls

pub record Filter : Type 0 where
  pub pending : List ℕ
  pub written : List (List ℕ)

unfoldable pub read_chunk : List ℕ → Filter → Filter
read_chunk chunk f =
    let (ls, rest) = split_lines (f.pending ++ chunk) in
    record { pending = rest; written = f.written ++ keep_lines ls }

unfoldable pub read_chunks : List (List ℕ) → Filter → Filter
read_chunks [] f = f
read_chunks (c ∷ cs) f = read_chunks cs (read_chunk c f)

abbrev last_line : List ℕ → List (List ℕ)
last_line [] = []
last_line (b ∷ bs) = (b ∷ bs) ∷ []

-- what is written behind the loop
unfoldable pub flush : Filter → Filter
flush f = record { pending = []; written = f.written ++ keep_lines (last_line f.pending) }

unfoldable pub process_loop : List (List ℕ) → Filter
process_loop chunks = flush (read_chunks chunks (record { pending = []; written = [] }))
