-- ===== src/Examples/Streams.antt =====
-- A pipe of 4096 bytes that keeps the laws of `BytePipe`, and a filter on it.
use mathlib.Core.List.{flatten}
use voxter.Common.{
  ℕ, zero, suc, ◌<◌, ◌≡◌, refl, ap, List, [], ◌∷◌, ◌++◌, Option, none, some, arith, ltb, length,
  if◌then◌else◌,
}
use voxter.LineFilter.{Filter, keep_lines}
use voxter.LineFilter.Chunks.{all_lines}
use voxter.LineFilter.Pipe.{
  BytePipe, Move, program_writes, thread_reads, take_chunk, move, run, drain, begin, drain-run,
}

abbrev take : ℕ → List ℕ → List ℕ
take zero l = []
take (suc n) [] = []
take (suc n) (x ∷ l) = x ∷ take n l

abbrev drop : ℕ → List ℕ → List ℕ
drop zero l = l
drop (suc n) [] = []
drop (suc n) (x ∷ l) = drop n l

take-drop : (n : ℕ) (l : List ℕ) → take n l ++ drop n l ≡ l
take-drop zero l = refl
take-drop (suc n) [] = refl
take-drop (suc n) (x ∷ l) = ap (◌∷◌ x) (take-drop n l)

take_some : (n : ℕ) (l : List ℕ) → 0 < n → take n l ≡ [] → l ≡ []
take_some zero l h e = absurd (omega arith)
take_some (suc n) [] h e = refl
take_some (suc n) (x ∷ l) h e = cc

abbrev put : List ℕ → List ℕ → Option (List ℕ)
put bs l = if ltb 4096 (length (l ++ bs)) then none else some (l ++ bs)

put_holds : (bs l l' : List ℕ) → put bs l ≡ some l' → l' ≡ l ++ bs
put_holds bs l l' e = ground (arith, e)

abbrev queue : BytePipe
queue = record {
  Pipe = List ℕ;
  held = λ l. l;
  write = put;
  read = λ n l. (take n l, drop n l);
  write_holds = put_holds;
  read_takes = take-drop;
  read_some = take_some;
}

-- a line, and the start of another one that is read before its end is written
abbrev moves : List Move
moves =
    program_writes (b'o' ∷ b'k' ∷ b'\n' ∷ b'g' ∷ [])
    ∷ thread_reads
    ∷ program_writes (b'o' ∷ [])
    ∷ []

one_left : length (run queue moves (begin queue [])).pipe < 2
unfolding run move take_chunk
one_left = omega arith

drain-run_example :
    (f : Filter) × (drain queue 2 (run queue moves (begin queue [])) ≡ some f)
    × (f.written ≡ keep_lines (all_lines (run queue moves (begin queue [])).sent))
    × (flatten (all_lines (run queue moves (begin queue [])).sent)
        ≡ (run queue moves (begin queue [])).sent)
drain-run_example = drain-run queue moves [] 2 refl one_left
