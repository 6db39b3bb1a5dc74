-- ===== src/LineFilter/Pipe.antt =====
-- client/src/main.cpp, StdFdLineFilter: the program writes into the pipe while the thread of
-- processLoop reads from it, in any order of their moves; behind a stop the thread reads what is
-- left. The pipe is a parameter: bytes come out as they went in, which in text mode holds of texts
-- without the byte 26.
use mathlib.Core.List.{append-nil, append_assoc, flatten}
use voxter.Common.{
  ℕ, zero, suc, ◌<◌, ◌≡◌, ◌⊎◌, inl, inr, subst, refl, sym, ap, ◌∙◌, List, [], ◌∷◌, ◌++◌, Option,
  none, some, arith, length, length-append, Option-cases,
}
use voxter.LineFilter.{Filter, read_chunk, flush, keep_lines}
use voxter.LineFilter.Chunks.{
  HasRead, start, start-HasRead, read_chunk-HasRead, flush-HasRead, all_lines, flatten-all_lines,
}

pub record BytePipe : Type 1 where
  pub Pipe : Type 0
  pub held : Pipe → List ℕ
  -- `none`: the bytes do not fit, and the program waits
  pub write : List ℕ → Pipe → Option Pipe
  -- _read with the size of the buffer
  pub read : ℕ → Pipe → List ℕ × Pipe
  pub write_holds : (bs : List ℕ) (q q' : Pipe) → write bs q ≡ some q' → held q' ≡ held q ++ bs
  pub read_takes : (n : ℕ) (q : Pipe) → (read n q).0 ++ held (read n q).1 ≡ held q
  pub read_some : (n : ℕ) (q : Pipe) → 0 < n → (read n q).0 ≡ [] → held q ≡ []

List-cases {ℓ} : {A : Type ℓ} (l : List A) → (l ≡ []) ⊎ ((x : A) × (more : List A) × (l ≡ x ∷ more))
List-cases [] = inl refl
List-cases (x ∷ l) = inr (x, l, refl)

pub data Move : Type 0 where
  program_writes : List ℕ → Move
  thread_reads : Move

module _ (b : BytePipe) where
  open b use {Pipe, held, write, read, write_holds, read_takes, read_some}

  -- `sent` is what the program's writes have put into the pipe since the start.
  pub record Session : Type 0 where
    pub pipe : Pipe
    pub filter : Filter
    pub sent : List ℕ

  -- A read of an empty pipe waits: nothing happens.
  unfoldable pub take_chunk : List ℕ × Pipe → Session → Session
  take_chunk ([], q) s = s
  take_chunk (x ∷ chunk, q) s = record s { pipe = q; filter = read_chunk (x ∷ chunk) s.filter }

  unfoldable pub move : Move → Session → Session
  unfolding take_chunk
  move (program_writes bs) s = elim (write bs s.pipe) [
    | none ↦ s
    | some q ↦ record s { pipe = q; sent = s.sent ++ bs }
  ]
  move thread_reads s = take_chunk (read 512 s.pipe) s

  unfoldable pub run : List Move → Session → Session
  run [] s = s
  run (m ∷ ms) s = run ms (move m s)

  -- The rest of processLoop once the program writes no more: a read of no bytes is the input's end.
  -- `none`: the fuel ran out.
  unfoldable pub drain : ℕ → Session → Option Filter
  drain zero s = none
  drain (suc fuel) s =
      let (chunk, q) = read 512 s.pipe in
      elim chunk [
        | [] ↦ some (flush s.filter)
        | x ∷ more ↦ drain fuel (record s { pipe = q; filter = read_chunk (x ∷ more) s.filter })
      ]

  -- The thread has read `got`, and the pipe holds the rest of what was sent.
  abbrev Flows : List ℕ → Session → Type 0
  Flows got s = HasRead got s.filter × (got ++ held s.pipe ≡ s.sent)

  chunk-Flows :
      (got chunk : List ℕ) (q : Pipe) (s : Session)
      → chunk ++ held q ≡ held s.pipe
      → Flows got s
      → Flows (got ++ chunk) (record s { pipe = q; filter = read_chunk chunk s.filter })
  chunk-Flows got chunk q s e (h, all) = (
    read_chunk-HasRead got chunk s.filter h,
    append_assoc got chunk (held q) ∙ ap (◌++◌ got) e ∙ all,
  )

  take_chunk-Flows :
      (got chunk : List ℕ) (q : Pipe) (s : Session)
      → chunk ++ held q ≡ held s.pipe
      → Flows got s
      → (later : List ℕ) × Flows later (take_chunk (chunk, q) s)
  unfolding take_chunk
  take_chunk-Flows got [] q s e h = (got, h)
  take_chunk-Flows got (x ∷ chunk) q s e h = (got ++ x ∷ chunk, chunk-Flows got (x ∷ chunk) q s e h)

  move-Flows :
      (m : Move) (got : List ℕ) (s : Session)
      → Flows got s
      → (later : List ℕ) × Flows later (move m s)
  unfolding move
  move-Flows thread_reads got s h =
      take_chunk-Flows got (read 512 s.pipe).0 (read 512 s.pipe).1 s (read_takes 512 s.pipe) h
  move-Flows (program_writes bs) got s (h, all) = elim (Option-cases (write bs s.pipe)) [
    | inl full ↦ (got, rw (full, move) (h, all))
    | inr (q, e) ↦ (
      got,
      rw (e, move)
          (
            h,
            ap (◌++◌ got) (write_holds bs s.pipe q e)
                ∙ sym (append_assoc got (held s.pipe) bs)
                ∙ ap (λ l. l ++ bs) all,
          ),
    )
  ]

  run-Flows :
      (ms : List Move) (got : List ℕ) (s : Session)
      → Flows got s
      → (later : List ℕ) × Flows later (run ms s)
  unfolding run
  run-Flows [] got s h = (got, h)
  run-Flows (m ∷ ms) got s h =
      let (later, k) = move-Flows m got s h in run-Flows ms later (move m s) k

  shorter :
      (x : ℕ) (more rest : List ℕ) (l : List ℕ) (fuel : ℕ)
      → (x ∷ more) ++ rest ≡ l
      → length l < suc fuel
      → length rest < fuel
  shorter x more rest l fuel e h = omega (arith, ap length e, length-append more rest)

  -- Enough fuel: every read but the last takes a byte at least.
  drain_lem :
      (fuel : ℕ) (got : List ℕ) (s : Session)
      → length (held s.pipe) < fuel
      → Flows got s
      → (f : Filter) × (drain fuel s ≡ some f) × (f.written ≡ keep_lines (all_lines s.sent))
  unfolding drain
  drain_lem zero got s enough h = absurd (omega arith)
  drain_lem (suc fuel) got s enough (h, all) = elim (List-cases (read 512 s.pipe).0) [
    | inl e ↦
        let empty : held s.pipe ≡ [] = read_some 512 s.pipe (omega arith) e in
        let heard : got ≡ s.sent = sym (append-nil got) ∙ ap (◌++◌ got) (sym empty) ∙ all in
        (
          flush s.filter,
          rw (e, drain) refl,
          subst (λ l. (flush s.filter).written ≡ keep_lines (all_lines l)) heard
              (flush-HasRead got s.filter h),
        )
    | inr (x, more, e) ↦
        let q = (read 512 s.pipe).1 in
        let taken : (x ∷ more) ++ held q ≡ held s.pipe =
          ap (λ l. l ++ held q) (sym e) ∙ read_takes 512 s.pipe in
        let next : Session = record s { pipe = q; filter = read_chunk (x ∷ more) s.filter } in
        let (f, done, wrote) =
          drain_lem fuel (got ++ x ∷ more) next
            (shorter x more (held q) (held s.pipe) fuel taken enough)
            (chunk-Flows got (x ∷ more) q s taken (h, all)) in
        (f, rw (e, drain) done, wrote)
  ]

  abbrev pub begin : Pipe → Session
  begin q = record { pipe = q; filter = start; sent = [] }

  -- However the program's writes and the thread's reads are interleaved, the thread comes to the end
  -- of what is left in the pipe, and by then the filter has written the lines of all that was sent,
  -- each once and in order, without those that are to be dropped; a last line without a newline is a
  -- line too, and the lines put together are what was sent.
  pub drain-run :
      (ms : List Move) (q : Pipe) (fuel : ℕ)
      → held q ≡ []
      → length (held (run ms (begin q)).pipe) < fuel
      → (f : Filter) × (drain fuel (run ms (begin q)) ≡ some f)
        × (f.written ≡ keep_lines (all_lines (run ms (begin q)).sent))
        × (flatten (all_lines (run ms (begin q)).sent) ≡ (run ms (begin q)).sent)
  drain-run ms q fuel empty enough =
      let (got, h) = run-Flows ms [] (begin q) (start-HasRead, empty) in
      let (f, done, wrote) = drain_lem fuel got (run ms (begin q)) enough h in
      (f, done, wrote, flatten-all_lines (run ms (begin q)).sent)
