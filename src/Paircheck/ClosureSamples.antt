-- ===== src/Paircheck/ClosureSamples.antt =====
-- A closure whose one branch calls a satisfier, and the theorems on closures at it.
use precept.Base.{ℕ, Bool, true, false, [], none, some, ◌≡◌, ◌↔◌, refl, arith}
use precept.Paircheck.Identity.{ValuePath, Values}
use precept.Paircheck.Closure.{Closure, covers_every_path, decides}
use precept.Paircheck.Closure.Paths.{LeavesUncovered, covers_every_path_iff}
use precept.Paircheck.Closure.Decides.{LeavesUndecided, decides_iff}
use precept.Paircheck.Samples.{sample}

abbrev values : Values
values = record {
  fresh = λ root. false;
  instruction = λ root. false;
  received = λ reached instruction. false;
  called_satisfier = λ index. false;
}

abbrev path_of : ℕ → ValuePath
path_of v = record { root = v; steps = []; loads = false }

-- Its blocks are those of the sample whose second branch goes to the block given.
abbrev closure : ℕ → Closure
closure other = record { blocks = (sample other).program.blocks; free_vars = []; bindings = [] }

covers_every_path-covered : covers_every_path (sample 1) values path_of (closure 1) 20 ≡ some true
unfolding covers_every_path
covers_every_path-covered = refl

covers_every_path-open : covers_every_path (sample 2) values path_of (closure 2) 20 ≡ some false
unfolding covers_every_path
covers_every_path-open = refl

covers_every_path_iff_example :
    (b : Bool) × (covers_every_path (sample 2) values path_of (closure 2) 100 ≡ some b)
    × ((b ≡ true) ↔ (¬ LeavesUncovered (sample 2) values path_of (closure 2)))
covers_every_path_iff_example =
    covers_every_path_iff (sample 2) values path_of (closure 2) 100 refl (omega arith)

decides-open : decides (sample 2) values path_of (closure 2) none 40 ≡ some false
unfolding decides
decides-open = refl

decides_iff_example :
    (b : Bool) × (decides (sample 2) values path_of (closure 2) none 100 ≡ some b)
    × ((b ≡ true) ↔ (¬ LeavesUndecided (sample 2) values path_of (closure 2) none))
decides_iff_example = decides_iff (sample 2) values path_of (closure 2) none 100 refl (omega arith)
