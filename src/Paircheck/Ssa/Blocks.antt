-- ===== src/Paircheck/Ssa/Blocks.antt =====
-- The successors of the blocks of a function.
use precept.Base.{
  ℕ, zero, suc, ◌≤◌, List, [], ◌∷◌, ◌++◌, arith, Memᴰ, length, length-append, get_or,
}
use mathlib.Core.List.Memᴰ
use precept.Paircheck.Ssa.{Block}

-- The successors of every block.
abbrev pub all_succs : List Block → List ℕ
all_succs [] = []
all_succs (b ∷ blocks) = b.succs ++ all_succs blocks

-- The block of an index, an empty one beyond the last.
abbrev pub block_of : List Block → ℕ → Block
block_of blocks k = get_or blocks k (record { instrs = []; succs = [] })

pub mem-all_succs :
    (blocks : List Block) (k : ℕ) {b : ℕ}
    → Memᴰ b (get_or blocks k (record { instrs = []; succs = [] })).succs
    → Memᴰ b (all_succs blocks)
mem-all_succs [] k m = absurd (Memᴰ.not-nil m)
mem-all_succs (x ∷ blocks) zero m = Memᴰ.append_left (all_succs blocks) m
mem-all_succs (x ∷ blocks) (suc k) m = Memᴰ.append_right x.succs (mem-all_succs blocks k m)

pub length-succs :
    (blocks : List Block) (k : ℕ)
    → length (get_or blocks k (record { instrs = []; succs = [] })).succs
      ≤ length (all_succs blocks)
length-succs [] k = omega arith
length-succs (x ∷ blocks) zero = omega (arith, length-append {0} x.succs (all_succs blocks))
length-succs (x ∷ blocks) (suc k) =
    omega (arith, length-succs blocks k, length-append {0} x.succs (all_succs blocks))
