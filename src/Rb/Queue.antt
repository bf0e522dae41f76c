-- ===== src/Rb/Queue.antt =====
-- What a ring buffer promises, whatever its layout: a first-in first-out queue of at most `cap` bytes.
use csnip.Base.{ℕ, ◌-◌, min, List, [], ◌∷◌, ◌++◌, length, take, drop}

-- A client's calls.
pub data Call : Type 0 where
  write : List ℕ → Call
  read : ℕ → Call
  peek : ℕ → Call
  skip : ℕ → Call
  drop_all : Call
  reset : Call

-- The count that a call returns, and the bytes that it delivers.
abbrev pub Reply : Type 0
Reply = ℕ × List ℕ

module _ (cap : ℕ) where
  abbrev pub step : List ℕ → Call → Reply × List ℕ
  step q (write source) =
      let k = min (length source) (cap - length q) in ((k, []), q ++ take k source)
  step q (read n) = let k = min n (length q) in ((k, take k q), drop k q)
  step q (peek n) = let k = min n (length q) in ((k, take k q), q)
  step q (skip n) = let k = min n (length q) in ((k, []), drop k q)
  step q drop_all = ((length q, []), [])
  step q reset = ((0, []), [])

  abbrev pub run : List ℕ → List Call → List Reply × List ℕ
  run q [] = ([], q)
  run q (c ∷ cs) =
      let (reply, q') = step q c in let (replies, q'') = run q' cs in (reply ∷ replies, q'')
