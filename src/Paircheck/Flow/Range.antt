-- ===== src/Paircheck/Flow/Range.antt =====
-- The states that the search of paircheck/flow.go can reach are finitely many: their counts saturate,
-- their blocks are the function's, and their sets hold tracked indices alone.
use precept.Base.{
  ℕ, suc, ◌-◌, ◌/◌, ◌≤◌, ◌<◌, max, Bool, true, false, List, [], ◌∷◌, Option, none, some, ◌≡◌, refl,
  arith, inl, inr, Bool-cases, All, get_elem?, if◌then◌else◌, ◌==◌, contains_func,
}
use precept.Base.Members.{All-append, All-of_mem, All-get_elem?}
use precept.Base.Finite.{max_of, le-max_of}
use precept.Paircheck.Ssa.Blocks.{all_succs, mem-all_succs}
use precept.Paircheck.Proven.{Proven}
use precept.Paircheck.Proven.Size.{IsWithin, with-IsWithin, without-IsWithin}
use precept.Paircheck.Ssa.{Node}
use precept.Paircheck.Flow.Types.{
  Search, Point, State, Failure, Ending, end_none, Event, event_exit, event_none, event_trigger,
  event_satisfier, event_undeferred, event_deferred, event_abandon, event_transfer, Verdict,
  verdict_none, verdict_failed, verdict_succeeded, verdict_unknown,
}
use precept.Paircheck.Flow.Success.{
  index_of, marked, remember, remembered_as, remembered, register, registered_as, registered, Proof,
  learned, proved, along, proof_of, fails,
}
use precept.Paircheck.Flow.Events.{classify, calls_before_defer}
use precept.Paircheck.Flow.Step.{
  Stepped, goes, stops, advance, step, run, successors, stored, after, exit, exits, continue, into,
  into_found, chosen, following, known_along, resumed, block_at,
}

-- The bytes that the indices of a map take.
abbrev pub room : List (ℕ × ℕ) → ℕ
room [] = 0
room ((value, index) ∷ rest) = max (suc (index / 8)) (room rest)

index_of-room : (m : List (ℕ × ℕ)) (value k : ℕ) → index_of m value ≡ some k → k / 8 < room m
unfolding index_of
index_of-room [] value k h = cc
index_of-room ((key, index) ∷ m) value k h = ground (arith, index_of-room m value k)

if-IsWithin :
    {n : ℕ} (b : Bool) (p q : Proven)
    → IsWithin n p
    → IsWithin n q
    → IsWithin n (if b then p else q)
if-IsWithin true p q v w = v
if-IsWithin false p q v w = w

module _ (s : Search) where
  abbrev pub top_block : ℕ
  top_block = max s.start_block (max_of (all_succs s.program.blocks))

  pub record PointInRange (p : Point) : Type 0 where
    pub block : p.block ≤ top_block
    pub index : p.index ≤ s.start_index
    pub open_count : p.open_count ≤ 2
    pub deferred : p.deferred ≤ 2
    pub closures : IsWithin (room s.tracked) p.closures

  pub record InRange (u : State) : Type 0 where
    pub at : PointInRange u.at
    pub failed : IsWithin (room s.returned) u.failed

  marked-IsWithin :
      (failed : Proven) (k : ℕ) (b : Bool)
      → k / 8 < room s.returned
      → IsWithin (room s.returned) failed
      → IsWithin (room s.returned) (marked s failed k b)
  marked-IsWithin failed k true small v = with-IsWithin _ failed k small v
  marked-IsWithin failed k false small v = without-IsWithin _ failed k v

  remember-IsWithin :
      (failed : Proven) (value : ℕ) (m : ℕ)
      → IsWithin (room s.returned) failed
      → IsWithin (room s.returned) (remember s failed value (index_of s.returned m))
  remember-IsWithin failed value m v = at (index_of s.returned m) (index_of-room s.returned m)
    where
      at :
          (o : Option ℕ)
          → ((k : ℕ) → o ≡ some k → k / 8 < room s.returned)
          → IsWithin (room s.returned) (remember s failed value o)
      at none small = v
      at (some k) small = marked-IsWithin failed k (fails s failed value) (small k refl) v

  remembered-IsWithin :
      (failed : Proven) (i : ℕ)
      → IsWithin (room s.returned) failed
      → IsWithin (room s.returned) (remembered s failed i)
  unfolding remembered
  remembered-IsWithin failed i v = by_node (s.program.node i)
    where
      by_node : (n : Node) → IsWithin (room s.returned) (remembered_as s failed n)
      by_node (Node.store addr value) = if-IsWithin _ _ _ (remember-IsWithin failed value addr v) v
      by_node _ = v

  along-IsWithin :
      (failed : Proven) (condition position : ℕ)
      → IsWithin (room s.returned) failed
      → IsWithin (room s.returned) (along s failed condition position)
  unfolding along
  along-IsWithin failed condition position v = by_proof (proof_of s condition)
    where
      by_index :
          (found : Proof) (o : Option ℕ)
          → ((k : ℕ) → o ≡ some k → k / 8 < room s.returned)
          → IsWithin (room s.returned) (learned s failed found position o)
      by_index found none small = v
      by_index found (some k) small =
          if-IsWithin (position == found.failing) _ _ (with-IsWithin _ failed k (small k refl) v)
            (if-IsWithin found.nil_otherwise _ _ (without-IsWithin _ failed k v) v)

      by_proof : (o : Option Proof) → IsWithin (room s.returned) (proved s failed position o)
      by_proof none = v
      by_proof (some found) = by_index found (index_of s.returned _) (index_of-room s.returned _)

  registered-InRange : (p : Point) (i : ℕ) → PointInRange p → PointInRange (registered s p i)
  unfolding registered
  registered-InRange p i v = by_node (s.program.node i)
    where
      by_index :
          (o : Option ℕ)
          → ((k : ℕ) → o ≡ some k → k / 8 < room s.tracked)
          → PointInRange (register s p o)
      by_index none small = v
      by_index (some k) small = record {
        block = v.block;
        index = v.index;
        open_count = v.open_count;
        deferred = v.deferred;
        closures = with-IsWithin _ p.closures k (small k refl) v.closures;
      }

      by_node : (n : Node) → PointInRange (registered_as s p i n)
      by_node (Node.deferred_call common) =
          by_index (index_of s.tracked i) (index_of-room s.tracked i)
      by_node _ = v

  stored-InRange :
      (f : Failure) (p : Point) (n : Node) → PointInRange p → PointInRange (stored f p n)
  unfolding stored
  stored-InRange f p (Node.store addr value) v =
      elim (Bool-cases (contains_func f.homes (λ home. home == addr))) [
        | inl e ↦ rw e (record {
          block = v.block;
          index = v.index;
          open_count = v.open_count;
          deferred = v.deferred;
          closures = v.closures;
        })
        | inr e ↦ rw e v
      ]
  stored-InRange f p _ v = v

  -- The counts of a point change alone.
  counted :
      (p : Point) (o d : ℕ) (b : Bool)
      → PointInRange p
      → o ≤ 2
      → d ≤ 2
      → PointInRange (record p { open_count = o; deferred = d; called = b })
  counted p o d b v small small' = record {
    block = v.block;
    index = v.index;
    open_count = small;
    deferred = small';
    closures = v.closures;
  }

  after-InRange :
      (p : Point) (happened : Event) → PointInRange p → PointInRange (after p happened).0
  unfolding after
  after-InRange p event_trigger v = counted p _ _ _ v (omega arith) v.deferred
  after-InRange p event_satisfier v = elim (Bool-cases (p.open_count - 1 == 0)) [
    | inl e ↦ rw e (counted p _ _ true v (omega arith) v.deferred)
    | inr e ↦ rw e (counted p _ _ true v (omega arith) v.deferred)
  ]
  after-InRange p event_deferred v = counted p _ _ _ v v.open_count (omega arith)
  after-InRange p event_undeferred v = counted p _ _ true v v.open_count v.deferred
  after-InRange p event_abandon v = v
  after-InRange p event_transfer v = v
  after-InRange p event_none v = v
  after-InRange p event_exit v = v

  abbrev StepInRange : Stepped → Type 0
  StepInRange (goes u) = InRange u
  StepInRange (stops l e) = Unit

  continue-InRange :
      (failed : Proven) (r : Point × Ending)
      → IsWithin (room s.returned) failed
      → PointInRange r.0
      → StepInRange (continue s failed r)
  continue-InRange failed (p, end_none) w v = record { at = v; failed = w }
  continue-InRange failed (p, _) w v = tt

  exits-InRange :
      (p : Point) (failed : Proven) (n : Node) (happened : Event)
      → IsWithin (room s.returned) failed
      → PointInRange p
      → StepInRange (exits s p failed n happened)
  unfolding exit
  exits-InRange p failed (Node.returns results) event_exit w v = tt
  exits-InRange p failed n happened w v =
      continue-InRange failed (after p happened) w (after-InRange p happened v)

  step-InRange : (u : State) (i : ℕ) → InRange u → StepInRange (step s u i)
  unfolding step
  step-InRange u i v =
      let p = registered s (stored s.failure u.at (s.program.node i)) i in
      elim (Bool-cases (calls_before_defer s p i (classify s i))) [
        | inl e ↦ rw e tt
        | inr e ↦ rw e (
            exits-InRange p (remembered s u.failed i) (s.program.node i) (classify s i)
              (remembered-IsWithin u.failed i v.failed)
              (registered-InRange _ i (stored-InRange s.failure u.at (s.program.node i) v.at)))
      ]

  into-InRange :
      (u : State) (b : ℕ) (uncertain : Bool) (failed : Proven)
      → InRange u
      → b ≤ top_block
      → IsWithin (room s.returned) failed
      → InRange (record (into s u b uncertain) { failed = failed })
  into-InRange u b uncertain failed v small w = record {
    at = record {
      block = small;
      index = omega arith;
      open_count = v.at.open_count;
      deferred = v.at.deferred;
      closures = v.at.closures;
    };
    failed = w;
  }

  into_found-InRange :
      (u : State) (b : Bool) (o : Option ℕ)
      → InRange u
      → ((block : ℕ) → o ≡ some block → block ≤ top_block)
      → All InRange (into_found s u b o)
  into_found-InRange u b none v small = tt
  into_found-InRange u b (some block) v small =
      (into-InRange u block b u.failed v (small block refl) v.failed, tt)

  following-InRange :
      (u : State) (branch : Option ℕ) (k : ℕ) (succs : List ℕ)
      → InRange u
      → All (λ b. b ≤ top_block) succs
      → All InRange (following s u branch k succs)
  unfolding following
  following-InRange u branch k [] v h = tt
  following-InRange u branch k (b ∷ succs) v h = (
    into-InRange u b u.at.uncertain _ v h.0 (by_branch branch),
    following-InRange u branch (suc k) succs v h.1,
  )
    where
      by_branch : (o : Option ℕ) → IsWithin (room s.returned) (known_along s u o k)
      by_branch none = v.failed
      by_branch (some condition) =
          if-IsWithin s.protocol.on_success _ _ (along-IsWithin u.failed condition k v.failed)
            v.failed

  chosen-InRange :
      (u : State) (succs : List ℕ) (branch : Option ℕ) (verdict : Verdict)
      → InRange u
      → All (λ b. b ≤ top_block) succs
      → All InRange (chosen s u succs branch verdict)
  chosen-InRange u succs branch verdict_failed v h =
      into_found-InRange u false (get_elem? succs 1) v (All-get_elem? _ succs 1 h)
  chosen-InRange u succs branch verdict_succeeded v h =
      into_found-InRange u false (get_elem? succs 0) v (All-get_elem? _ succs 0 h)
  chosen-InRange u succs branch verdict_unknown v h =
      All-append InRange _ _
        (into_found-InRange u true (get_elem? succs 0) v (All-get_elem? _ succs 0 h))
        (into_found-InRange u true (get_elem? succs 1) v (All-get_elem? _ succs 1 h))
  chosen-InRange u succs branch verdict_none v h = following-InRange u branch 0 succs v h

  succs-InRange : (b : ℕ) → All (λ x. x ≤ top_block) (block_at s b).succs
  succs-InRange b = All-of_mem _ _ (λ x m.
      omega (arith, le-max_of (all_succs s.program.blocks) (mem-all_succs s.program.blocks b m)))

  run-InRange : (is : List ℕ) (u : State) → InRange u → All InRange (run s is u).next
  unfolding run successors
  run-InRange [] u v = chosen-InRange u _ _ _ v (succs-InRange u.at.block)
  run-InRange (i ∷ is) u v = resumed-InRange (step s u i) (step-InRange u i v) (run-InRange is)
    where
      resumed-InRange :
          (a : Stepped)
          → StepInRange a
          → ((t : State) → InRange t → All InRange (run s is t).next)
          → All InRange (resumed s a (run s is)).next
      resumed-InRange (goes t) w rest = rest t w
      resumed-InRange (stops l e) w rest = tt

  -- The states that follow a state in range are in range: their counts are at most two, their blocks are
  -- the function's, and their sets fit the indices tracked.
  pub advance-InRange : (u : State) → InRange u → All InRange (advance s u).next
  unfolding advance
  advance-InRange u v = run-InRange _ u v
