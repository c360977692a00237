-- ===== src/Storage/Trace.antt =====
-- src/josuke/storage.py: what a traced call reads of the proxy's storage.
use josuke.Prelude.{
  ℕ, ◌%◌, ◌^◌, Bool, false, ◌||◌, Option, none, some, String, List, [], ◌∷◌, ◌++◌, nat_beq, ltb,
  leb, if◌then◌else◌, length, take,
}
use josuke.Prelude.Eq.{◌==◌, string_eq}

-- The operations that are traced, with what they take of the stack: a slot, as its text, or a callee.
pub data Op : Type 0 where
  sload : String → Op
  call : ℕ → Op
  staticcall : ℕ → Op
  delegatecall : Op
  callcode : Op
  create : Op
  create2 : Op

pub record Step : Type 0 where
  pub depth : ℕ
  pub op : Op

-- An event: a depth, and a slot of the proxy's where it is a read.
abbrev pub Event : Type 0
Event = ℕ × Option String

abbrev pub last : List (Option ℕ) → Option ℕ
last [] = none
last (f ∷ []) = f
last (f ∷ g ∷ frames) = last (g ∷ frames)

abbrev pub is_proxy : ℕ → Option ℕ → Bool
is_proxy proxy none = false
is_proxy proxy (some a) = nat_beq a proxy

-- `frames` at the step's depth.
abbrev pub frames_at : ℕ → List (Option ℕ) → Option ℕ → List (Option ℕ)
frames_at depth frames callee =
    if ltb (length frames) depth then frames ++ (callee ∷ []) else take depth frames

-- Whose storage the next deeper frame runs in.
abbrev pub callee_of : Op → List (Option ℕ) → Option ℕ
callee_of (sload slot) frames = none
callee_of (call address) frames = some (address % 2 ^ 160)
callee_of (staticcall address) frames = some (address % 2 ^ 160)
callee_of delegatecall frames = last frames
callee_of callcode frames = last frames
callee_of create frames = none
callee_of create2 frames = none

abbrev pub slot_of : Op → Option String
slot_of (sload slot) = some slot
slot_of _ = none

unfoldable pub events_from : ℕ → List Step → List (Option ℕ) → Option ℕ → List Event
events_from proxy [] frames callee = []
events_from proxy (step ∷ steps) frames callee =
    let now = frames_at step.depth frames callee in
    elim (slot_of step.op) [
      | some slot ↦
          (let rest = events_from proxy steps now callee in
            if is_proxy proxy (last now) then (step.depth, some slot) ∷ rest else rest)
      | none ↦ (step.depth, none) ∷ events_from proxy steps now (callee_of step.op now)
    ]

-- `_proxy_events`
unfoldable pub proxy_events : List Step → ℕ → List Event
unfolding events_from
proxy_events steps proxy = events_from proxy steps (some proxy ∷ []) none

abbrev pub has_text : String → List String → Bool
has_text x [] = false
has_text x (y ∷ ys) = y == x || has_text x ys

-- `reads.add`
abbrev pub add_text : String → List String → List String
add_text x xs = if has_text x xs then xs else x ∷ xs

-- The loop after the read of `key` at depth `at`.
unfoldable pub reads_until : ℕ → List Event → List String → List String
reads_until at [] reads = reads
reads_until at ((depth, none) ∷ events) reads =
    let rest = reads_until at events reads in if leb depth at then reads else rest
reads_until at ((depth, some slot) ∷ events) reads = reads_until at events (add_text slot reads)

abbrev pub is_read_of : String → Option String → Bool
is_read_of key none = false
is_read_of key (some slot) = slot == key

-- `_steered_by`
unfoldable pub steered_by : List Event → String → List String
unfolding reads_until
steered_by [] key = []
steered_by ((depth, slot) ∷ events) key =
    let rest = steered_by events key in
    if is_read_of key slot then reads_until depth events [] else rest

-- The slots read, each once, in order.
unfoldable pub slots_read : List Event → List String → List String
slots_read [] seen = []
slots_read ((depth, none) ∷ events) seen = slots_read events seen
slots_read ((depth, some slot) ∷ events) seen =
    let rest = slots_read events (add_text slot seen) in
    if has_text slot seen then rest else slot ∷ rest
