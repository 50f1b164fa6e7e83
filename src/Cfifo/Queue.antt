-- ===== src/Cfifo/Queue.antt =====
-- What a client of the fifo sees: a queue of at most `cap` elements that drops all it holds when
-- one more element is put into a full queue.
use gsconferencing.Base.{
  ℕ, List, [], ◌∷◌, ◌++◌, Option, none, some, ◌==◌, if◌then◌else◌, length, Bool,
}

-- A client's calls: fill the slot at `in` and step (`put`), read the slot at `out` and step if the
-- fifo is not empty (`get`), `cfifo_clear`.
pub data Op (A : Type 0) : Type 0 where
  put : A → Op A
  get : Op A
  reset : Op A

-- What it sees after a call: the element read, `cfifo_len`, `cfifo_full` and `cfifo_empty`.
pub record Seen (A : Type 0) : Type 0 where
  pub element : Option A
  pub count : ℕ
  pub is_full : Bool
  pub is_empty : Bool

module _ {A : Type 0} where
  unfoldable pub enqueue : ℕ → List A → A → List A
  enqueue cap q x = if length q == cap then [] else q ++ (x ∷ [])

  unfoldable pub dequeue : List A → Option A × List A
  dequeue [] = (none, [])
  dequeue (x ∷ q) = (some x, q)

  abbrev pub look : ℕ → Option A → List A → Seen A
  look cap e q = record {
    element = e;
    count = length q;
    is_full = length q == cap;
    is_empty = length q == 0;
  }

  unfoldable pub run : ℕ → List A → List (Op A) → List (Seen A)
  unfolding enqueue dequeue
  run cap q [] = []
  run cap q (put x ∷ ops) = look cap none (enqueue cap q x) ∷ run cap (enqueue cap q x) ops
  run cap q (get ∷ ops) = look cap (dequeue q).0 (dequeue q).1 ∷ run cap (dequeue q).1 ops
  run cap q (reset ∷ ops) = look cap none [] ∷ run cap [] ops
