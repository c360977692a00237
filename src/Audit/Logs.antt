-- ===== src/Audit/Logs.antt =====
-- audit.py: `get_logs`, the loop that scans a block range with `eth_getLogs`, and its parts. The node
-- is a parameter: what it answers to each round's queue, and to each probe of a block.
pub mod Rounds
pub mod Starts
pub mod Coverage
pub mod Ends
use josuke.Prelude.{
  ℕ, zero, suc, ◌+◌, ◌-◌, ◌*◌, min, not, Bool, true, false, ◌&&◌, ◌||◌, Option, none, some, String,
  List, [], ◌∷◌, ◌++◌, map, ltb, leb, nat_beq, if◌then◌else◌,
}
use josuke.Prelude.Sort.{sort_by}
use josuke.Audit.Scan.{Scan, ok, err, stuck, block_error, bad_response, rpc_error, ◌>>=◌}
use josuke.Audit.Ranges.{Window}
use josuke.Audit.Narrow.{NodeError, narrow}
use josuke.Audit.Merge.{merged, window_le}
use josuke.Audit.Search.{history_start}

-- A log as the node returns it, its numbers read from their hexadecimal texts.
pub record Log : Type 0 where
  pub block : ℕ
  pub log_index : ℕ
  pub removed : Bool
  pub topics : List String
  pub tx : String
  pub calldata : String

-- The answer to one `eth_getLogs`: a list of logs, a result that is no list, or an error.
pub data Answer : Type 0 where
  logs : List Log → Answer
  malformed : Answer
  error : NodeError → Answer

-- The outcome of one round: an answer for each position of the queue, or an `RpcError` with whether
-- a narrower query may avoid it, its message, the positions sent in the failed batch, and the
-- answers of the batches before it.
pub data Reply : Type 0 where
  answered : (ℕ → Answer) → Reply
  failed : Bool → NodeError → List ℕ → (ℕ → Option Answer) → Reply

-- The outcome of a probe of one block.
pub data Probe : Type 0 where
  fine : Probe
  refused : NodeError → Probe
  unreachable : Probe

-- The node, which may answer differently in each round.
pub record Node : Type 0 where
  pub reply : ℕ → List Window → Reply
  pub probe : ℕ → ℕ → Probe

unfoldable pub holds_probe : Probe → ℕ → Scan Bool
holds_probe fine block = ok true
holds_probe unreachable block = err rpc_error
holds_probe (refused e) block = if e.missing_history then ok false else err (block_error block)

abbrev pub holds : Node → ℕ → ℕ → Scan Bool
holds node round block = holds_probe (node.probe round block) block

-- What one round collects: logs, windows to send again, and windows whose history the node lacks.
pub record Round : Type 0 where
  pub found : List Log
  pub first_held : Option ℕ
  pub retry : List Window
  pub lacking : List (Window × NodeError)

abbrev pub lower : Option ℕ → ℕ → Option ℕ
lower none a = some a
lower (some b) a = some (min b a)

abbrev pub push_retry : Round → List Window → Round
push_retry r ws = record r { retry = r.retry ++ ws }

-- The `for` loop's body, by the answer to the window.
unfoldable pub take_answer : NodeError → Bool → ℕ → ℕ → Option Answer → Round → Scan Round
take_answer timeout unanswered a b none r =
    if unanswered && ltb a b
    then (do ws ← narrow timeout a b; ok (push_retry r ws))
    else ok (push_retry r ((a, b) ∷ []))
take_answer timeout unanswered a b (some (logs ls)) r =
    ok (record r { found = r.found ++ ls; first_held = lower r.first_held a })
take_answer timeout unanswered a b (some malformed) r = err (bad_response a b)
take_answer timeout unanswered a b (some (error e)) r =
    if e.missing_history
    then ok (record r { lacking = r.lacking ++ ((a, b), e) ∷ [] })
    else (do ws ← narrow e a b; ok (push_retry r ws))

abbrev pub mem_nat : ℕ → List ℕ → Bool
mem_nat i [] = false
mem_nat i (j ∷ js) = nat_beq i j || mem_nat i js

-- The loop over the queue from position `i` on.
unfoldable pub take_answers :
    NodeError → List ℕ → (ℕ → Option Answer) → ℕ → List Window → Round → Scan Round
unfolding take_answer
take_answers timeout unanswered answers i [] r = ok r
take_answers timeout unanswered answers i ((a, b) ∷ queue) r = do
  r' ← take_answer timeout (mem_nat i unanswered) a b (answers i) r
  take_answers timeout unanswered answers (suc i) queue r'

-- `e.failed or [0]`
abbrev pub failed_or_first : List ℕ → List ℕ
failed_or_first [] = 0 ∷ []
failed_or_first (i ∷ is) = i ∷ is

-- `all(queue[i][0] == queue[i][1] for i in failed)`, over the queue's positions from `i` on.
unfoldable pub all_single : List ℕ → ℕ → List Window → Bool
all_single ids i [] = true
all_single ids i ((a, b) ∷ queue) =
    (if mem_nat i ids then nat_beq a b else true) && all_single ids (suc i) queue

abbrev pub opened : List Log → Option ℕ → Round
opened found first_held = record {
  found = found;
  first_held = first_held;
  retry = [];
  lacking = [];
}

-- No window of a fully answered round is left out, so its timeout is never read.
abbrev pub no_message : NodeError
no_message = record {
  stated_limits = [];
  retry_range = none;
  missing_history = false;
  history_from = none;
}

unfoldable pub read_reply : Reply → List Window → List Log → Option ℕ → Scan Round
unfolding take_answers all_single
read_reply (answered answers) queue found first_held =
    take_answers no_message [] (λ i. some (answers i)) 0 queue (opened found first_held)
read_reply (failed narrowable message ids answers) queue found first_held =
    let unanswered = failed_or_first ids in
    if not narrowable || all_single unanswered 0 queue
    then err rpc_error
    else take_answers message unanswered answers 0 queue (opened found first_held)

abbrev pub Lacking : Type 0
Lacking = Window × NodeError

-- Whether a lacking window is below the first block that a query succeeded from.
abbrev pub is_start : Option ℕ → Lacking → Bool
is_start none w = true
is_start (some held) ((a, b), e) = ltb b held

unfoldable pub start_windows : Option ℕ → List Lacking → List Lacking
start_windows held [] = []
start_windows held (w ∷ ws) =
    let rest = start_windows held ws in if is_start held w then w ∷ rest else rest

unfoldable pub gaps : Option ℕ → List Lacking → List Window
gaps held [] = []
gaps held (w ∷ ws) = let rest = gaps held ws in if is_start held w then rest else w.0 ∷ rest

-- `max(start_windows)`: the first of the greatest.
unfoldable pub max_window : Lacking → List Lacking → Lacking
max_window best [] = best
max_window best (w ∷ ws) = max_window (if window_le w.0 best.0 then best else w) ws

-- `min(w[0] for w in start_windows)`
unfoldable pub min_start : ℕ → List Lacking → ℕ
min_start least [] = least
min_start least (w ∷ ws) = min_start (min least w.0.0) ws

pub record State : Type 0 where
  pub found : List Log
  pub missing : List Window
  pub queue : List Window
  pub first_held : Option ℕ

-- The missing start up to the first block held, and the rest of its highest window to send again.
abbrev pub split_start : ℕ → ℕ → Window → List Window × List Window
split_start least start (a, b) =
    ((least, start - 1) ∷ [], if leb start b then (start, b) ∷ [] else [])

unfoldable pub seek_start : Node → ℕ → List Lacking → Scan (List Window × List Window)
unfolding max_window min_start
seek_start node round [] = ok ([], [])
seek_start node round (w ∷ ws) = do
  let top = max_window w ws
  start ← history_start (holds node round) top.1 top.0.0 top.0.1
  ok (split_start (min_start w.0.0 ws) start top.0)

-- One pass of `while queue`.
unfoldable pub scan_round : Node → ℕ → State → Scan State
unfolding read_reply start_windows gaps seek_start
scan_round node round s = do
  r ← read_reply (node.reply round s.queue) s.queue s.found s.first_held
  sought ← seek_start node round (start_windows r.first_held r.lacking)
  ok (record {
    found = r.found;
    missing = s.missing ++ gaps r.first_held r.lacking ++ sought.0;
    queue = r.retry ++ sought.1;
    first_held = r.first_held;
  })

abbrev pub is_empty : List Window → Bool
is_empty [] = true
is_empty (w ∷ ws) = false

-- `while queue`
unfoldable pub scan_loop : Node → ℕ → ℕ → State → Scan State
scan_loop node zero round s = stuck
scan_loop node (suc fuel) round s =
    let rest = scan_round node round s >>= λ s'. scan_loop node fuel (suc round) s' in
    if is_empty s.queue then ok s else rest

abbrev pub log_le : Log → Log → Bool
log_le x y = window_le (x.block, x.log_index) (y.block, y.log_index)

abbrev pub initial : ℕ → ℕ → State
initial from_block to_block = record {
  found = [];
  missing = [];
  queue = (from_block, to_block) ∷ [];
  first_held = none;
}

-- The queue's weight bounds the rounds (`Logs.Ends`), so this fuel is enough.
unfoldable pub get_logs : Node → ℕ → ℕ → Scan (List Log × List Window)
unfolding scan_loop sort_by
get_logs node from_block to_block = do
  s ← scan_loop node (2 * (to_block - from_block) + 2) 0 (initial from_block to_block)
  ok (sort_by log_le s.found, merged s.missing)
