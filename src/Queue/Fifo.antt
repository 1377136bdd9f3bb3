-- ===== src/Queue/Fifo.antt =====
-- What a queue promises: a list, oldest item first.
use vmsim.Prelude.{List, [], ◌∷◌, ◌++◌}

module _ {A : Type 0} (nothing : A) where
  unfoldable pub pop : List A → A × List A
  pop [] = (nothing, [])
  pop (x ∷ xs) = (x, xs)

module _ {A : Type 0} where
  unfoldable pub push : List A → A → List A
  push xs x = xs ++ x ∷ []
