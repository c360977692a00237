-- ===== src/Audit/Tests.antt =====
-- audit.py: runs of the scans and the bisections on small chains.
use josuke.Prelude.{
  ℕ, zero, suc, ◌+◌, ◌-◌, ◌≤◌, ◌<◌, ◌≡◌, ◌≢◌, refl, sym, subst, ◌⊎◌, ◌↔◌, inl, inr, true, false,
  ◌&&◌, Option, none, some, String, List, [], ◌∷◌, arith, ltb, leb, if◌then◌else◌, In, Bool-cases,
  ap,
}
use josuke.Audit.Scan.{Scan, ok, stuck}
use josuke.Audit.Ranges.{Window, windows, windows-Tiles, Tiles, InRanges}
use josuke.Audit.Narrow.{NodeError, narrow, Narrowed, narrow_lem}
use josuke.Audit.Merge.{merged, merged-InRanges, merged-Apart, Apart}
use josuke.Audit.Search.{
  has_code, find_deploy_block, Finds, find_deploy_block-Boundary, history_start, StartsHistory,
  history_start-StartsHistory,
}
use josuke.Audit.Logs.{
  Log, Answer, logs, malformed, error, Reply, answered, Probe, fine, refused, Node, get_logs, holds,
}
use josuke.Audit.Logs.Rounds.{CompleteAnswer, CompleteAnswers}
use josuke.Audit.Logs.Coverage.{get_logs-accounted}
use josuke.Audit.Logs.Ends.{SteadyAnswer, SteadyAnswers, get_logs-ne-stuck}

-- The node holds the blocks from 3 on, and answers windows of at most three blocks.
abbrev pruned : NodeError
pruned = record {
  stated_limits = [];
  retry_range = none;
  missing_history = true;
  history_from = none;
}

abbrev too_wide : NodeError
too_wide = record {
  stated_limits = some 2 ∷ [];
  retry_range = none;
  missing_history = false;
  history_from = none;
}

-- The one log of the chain.
abbrev log5 : Log
log5 = record {
  block = 5;
  log_index = 0;
  removed = false;
  topics = [];
  tx = "0x01";
  calldata = "0x";
}

abbrev logs_in : ℕ → ℕ → List Log
logs_in a b = if leb a 5 && leb 5 b then log5 ∷ [] else []

abbrev answer_to : ℕ → ℕ → Answer
answer_to a b =
    if ltb a 3 then error pruned else if ltb 2 (b - a) then error too_wide else logs (logs_in a b)

abbrev answer_at : List Window → ℕ → Answer
answer_at [] i = malformed
answer_at ((a, b) ∷ queue) zero = answer_to a b
answer_at (w ∷ queue) (suc i) = answer_at queue i

abbrev pruned_node : Node
pruned_node = record {
  reply = λ round queue. answered (answer_at queue);
  probe = λ round block. if leb 3 block then fine else refused pruned;
}

-- The found log, and the pruned blocks.
run_test : get_logs pruned_node 0 9 ≡ ok (log5 ∷ [], (0, 2) ∷ [])
unfolding get_logs josuke.Audit.Logs.scan_round history_start josuke.Audit.Logs.holds_probe
    josuke.Audit.Search.first_held_above narrow windows merged
run_test = refl

abbrev IsLog5 : Log → Type 0
IsLog5 x = x ≡ log5

le→leb : (a b : ℕ) → a ≤ b → leb a b ≡ true
le→leb a b h = ground arith

answer_to-Complete : (a b : ℕ) → CompleteAnswer IsLog5 a b (some (answer_to a b))
answer_to-Complete a b = elim (Bool-cases (ltb a 3)) [
  | inl e ↦ rw e tt
  | inr e ↦ elim (Bool-cases (ltb 2 (b - a))) [
    | inl w ↦ rw (e, w) tt
    | inr w ↦
        rw (e, w)
          (λ x em p q. found x em (subst (λ y. a ≤ y.block) em p) (subst (λ y. y.block ≤ b) em q))
  ]
]
  where
    found : (x : Log) → x ≡ log5 → a ≤ 5 → 5 ≤ b → In x (logs_in a b)
    found x em p q = rw (le→leb a 5 p, le→leb 5 b q) (inl em)

answer_to-Steady :
    (round a b : ℕ) → SteadyAnswer (holds pruned_node round) a b (some (answer_to a b))
unfolding josuke.Audit.Logs.holds_probe
answer_to-Steady round a b = elim (Bool-cases (ltb a 3)) [
  | inl e ↦ rw e (λ _. steady e)
  | inr e ↦ elim (Bool-cases (ltb 2 (b - a))) [ inl w ↦ rw (e, w) (λ p. cc) | inr w ↦ rw (e, w) tt ]
]
  where
    steady : ltb a 3 ≡ true → (a < b) ⊎ (holds pruned_node round b ≢ ok true)
    steady e = elim (Bool-cases (leb 3 b)) [
      | inl h ↦ inl (ground arith)
      | inr h ↦ inr (rw h (λ p. cc))
    ]

complete_from :
    (f : ℕ → Option Answer) (i : ℕ) (queue : List Window)
    → ((j k : ℕ) → k ≡ j + i → f k ≡ some (answer_at queue j))
    → CompleteAnswers IsLog5 f i queue
complete_from f i [] h = tt
complete_from f i ((a, b) ∷ queue) h = (
  subst (CompleteAnswer IsLog5 a b) (sym (h 0 i (omega arith))) (answer_to-Complete a b),
  complete_from f (suc i) queue (λ j k e. h (suc j) k (omega arith)),
)

steady_from :
    (round : ℕ) (f : ℕ → Option Answer) (i : ℕ) (queue : List Window)
    → ((j k : ℕ) → k ≡ j + i → f k ≡ some (answer_at queue j))
    → SteadyAnswers (holds pruned_node round) f i queue
steady_from round f i [] h = tt
steady_from round f i ((a, b) ∷ queue) h = (
  subst (SteadyAnswer (holds pruned_node round) a b) (sym (h 0 i (omega arith)))
      (answer_to-Steady round a b),
  steady_from round f (suc i) queue (λ j k e. h (suc j) k (omega arith)),
)

at_position :
    (queue : List Window) (j k : ℕ)
    → k ≡ j + 0
    → some (answer_at queue k) ≡ some (answer_at queue j)
at_position queue j k e = ap (λ n. some (answer_at queue n)) (omega arith)

get_logs-accounted_example : In log5 (log5 ∷ []) ⊎ InRanges 5 ((0, 2) ∷ [])
get_logs-accounted_example =
    get_logs-accounted IsLog5 pruned_node 0 9 (log5 ∷ []) ((0, 2) ∷ []) log5
      (λ round queue. complete_from (λ i. some (answer_at queue i)) 0 queue (at_position queue))
      run_test refl (omega arith) (omega arith)

get_logs-ne-stuck_example : get_logs pruned_node 0 9 ≢ stuck
get_logs-ne-stuck_example =
    get_logs-ne-stuck pruned_node
      (λ round queue. steady_from round (λ i. some (answer_at queue i)) 0 queue (at_position queue))
      0 9 (omega arith)

narrow_lem_example : Narrowed 10 17 (narrow too_wide 10 17)
narrow_lem_example = narrow_lem too_wide 10 17 (omega arith)

windows-Tiles_example : Tiles 3 9 (windows 3 9 3)
windows-Tiles_example = windows-Tiles 3 9 3 (omega arith) (omega arith)

abbrev scattered : List Window
scattered = (8, 9) ∷ (0, 2) ∷ (3, 5) ∷ []

merged-InRanges_example : InRanges 4 (merged scattered) ↔ InRanges 4 scattered
merged-InRanges_example = merged-InRanges 4 scattered

merged-Apart_example : Apart (merged scattered)
merged-Apart_example = merged-Apart scattered

-- A proxy whose code stands from block 3 on.
abbrev code_from_3 : ℕ → Scan String
code_from_3 block = if leb 3 block then ok "0x60" else ok "0x"

has_code_from_3 : (block : ℕ) → has_code code_from_3 block ≡ ok (leb 3 block)
unfolding has_code
has_code_from_3 block = elim (Bool-cases (leb 3 block)) [ inl e ↦ rw e refl | inr e ↦ rw e refl ]

find_deploy_block-Boundary_example : Finds (leb 3) 0 9 (find_deploy_block code_from_3 9)
find_deploy_block-Boundary_example =
    find_deploy_block-Boundary code_from_3 (leb 3) 9 has_code_from_3 refl

history_start-StartsHistory_example :
    (r : ℕ) × ((history_start (λ b. ok (leb 3 b)) pruned 0 9 ≡ ok r) × StartsHistory (leb 3) 0 9 r)
history_start-StartsHistory_example =
    history_start-StartsHistory (λ b. ok (leb 3 b)) (leb 3) pruned 0 9 (λ b. refl)
      (λ b c k t. ground (arith, k, t)) tt (omega arith) refl
