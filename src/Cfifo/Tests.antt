-- ===== src/Cfifo/Tests.antt =====
-- Runs of a fifo of four slots.
use gsconferencing.Base.{ℕ, ◌≡◌, refl, List, [], ◌∷◌, none, arith}
use gsconferencing.Cfifo.{Cfifo, init, len}
use gsconferencing.Cfifo.Index.{IsValid, init-IsValid}
use gsconferencing.Cfifo.Queue
use gsconferencing.Cfifo.Queue.{Op, put, get, reset, Seen}
use gsconferencing.Cfifo.Refine.{run, run_refines}

abbrev four : Cfifo ℕ
unfolding init
four = init (λ _. 0) 2 6

four-IsValid : IsValid 2 four
unfolding init
four-IsValid = init-IsValid (λ _. 0) 2 6 (omega arith)

abbrev calls : List (Op ℕ)
calls = put 7 ∷ put 8 ∷ get ∷ put 9 ∷ put 10 ∷ put 11 ∷ get ∷ put 12 ∷ get ∷ reset ∷ []

overflow_drops_all :
    Queue.run {A = ℕ} 3 [] (put 1 ∷ put 2 ∷ put 3 ∷ put 4 ∷ get ∷ [])
    ≡ Queue.look 3 none (1 ∷ [])
      ∷ Queue.look 3 none (1 ∷ 2 ∷ [])
      ∷ Queue.look 3 none (1 ∷ 2 ∷ 3 ∷ [])
      ∷ Queue.look 3 none []
      ∷ Queue.look 3 none []
      ∷ []
unfolding Queue.run
overflow_drops_all = refl

run_refines_example : run four calls ≡ Queue.run 3 [] calls
unfolding init len
run_refines_example = run_refines calls four-IsValid
