-- ===== src/Rpc.antt =====
-- src/josuke/ethjsonrpc.py: `post_batch`, which sends requests in batches that the node accepts, with
-- the tests that it makes of an answer. The node is a parameter: what it answers to each POST.
pub mod Answers
pub mod Calls
pub mod Codes
pub mod Ends
pub mod Served
mod Tests
use josuke.Prelude.{
  ℕ, zero, suc, ◌+◌, ◌-◌, ◌*◌, ◌/◌, max, Bool, true, false, ◌&&◌, ◌||◌, not, Option, none, some,
  String, List, [], ◌∷◌, ◌++◌, map, length, take, drop, ltb, nat_beq, if◌then◌else◌,
}
use josuke.Prelude.Eq.{nat_eq}
use josuke.Prelude.Dict.{Dict, get, put, has}

pub record Request : Type 0 where
  pub id : ℕ
  pub method : String
  pub params : String

-- A JSON-RPC error: its code, negated, if it is a negative number, and whether its message names a
-- batch.
pub record Fault : Type 0 where
  pub negated_code : Option ℕ
  pub names_batch : Bool

-- The `error` of an answer: absent or falsy (null, an empty object), another object, or a truthy value
-- that is no object.
pub data ErrorField : Type 0 where
  no_error : ErrorField
  error_object : Fault → ErrorField
  error_value : ErrorField

-- An element of a response: its id if it is an object with one, its error, and its result if it has one.
pub record Answer : Type 0 where
  pub id : Option ℕ
  pub error : ErrorField
  pub result : Option String

-- A response: its status, and its body if that is JSON, one element if it is no list.
pub record Response : Type 0 where
  pub status : ℕ
  pub body : Option (List Answer)

-- What a POST comes to; `none` is an `RpcError` of `_post`.
abbrev pub Node : Type 0
Node = ℕ → List Request → Option Response

-- `_TRIES`, with none for a status that it does not list.
unfoldable pub tries : ℕ → ℕ
tries status =
    if nat_beq status 429 || (nat_beq status 502 || nat_beq status 503)
    then 5
    else if nat_beq status 504
    then 2
    else 0

abbrev pub batch_limit : ℕ
batch_limit = 100

abbrev pub mem_code : ℕ → List ℕ → Bool
mem_code n [] = false
mem_code n (m ∷ ms) = nat_beq n m || mem_code n ms

-- `_BATCH_TOO_LARGE` and `_RESPONSE_TOO_LARGE`, negated.
abbrev pub batch_too_large : List ℕ
batch_too_large = 32600 ∷ 32007 ∷ 32010 ∷ 32011 ∷ []

abbrev pub response_too_large : List ℕ
response_too_large = 32003 ∷ []

unfoldable pub fault_too_large : Fault → List ℕ → Bool
fault_too_large fault codes = elim fault.negated_code [
  | some n ↦ (if nat_beq n 32005 then fault.names_batch else mem_code n codes)
  | none ↦ false
]

-- `_too_large`
unfoldable pub too_large : Answer → List ℕ → Bool
unfolding fault_too_large
too_large answer codes = elim answer.error [
  | error_object fault ↦ fault_too_large fault codes
  | no_error ↦ false
  | error_value ↦ false
]

unfoldable pub any_too_large : List Answer → Bool
unfolding too_large
any_too_large [] = false
any_too_large (a ∷ answers) = too_large a batch_too_large || any_too_large answers

-- What `_post_chunk` returns, the body's elements, or `none` where it raises.
unfoldable pub post_chunk : Option Response → Option (ℕ × List Answer)
unfolding tries
post_chunk none = none
post_chunk (some response) =
    if nat_beq response.status 200 || (nat_beq response.status 413 || ltb 0 (tries response.status))
    then (elim response.body [
      | some fetched ↦ some (response.status, fetched)
      | none ↦ (if nat_beq response.status 200 then none else some (response.status, []))
    ])
    else none

-- `by_id`, into `d`.
unfoldable pub by_id : List Answer → Dict ℕ Answer → Dict ℕ Answer
by_id [] d = d
by_id (a ∷ fetched) d = by_id fetched (elim a.id [ some i ↦ put i a d | none ↦ d ])

-- Whether the response answers every request.
unfoldable pub all_answered : List Request → Dict ℕ Answer → Bool
all_answered [] d = true
all_answered (r ∷ chunk) d = has r.id d && all_answered chunk d

-- Whether the answer to the request says that the response grew too large.
unfoldable pub is_cut : Dict ℕ Answer → Request → Bool
unfolding too_large
is_cut d r = elim (get r.id d) [ some a ↦ too_large a response_too_large | none ↦ false ]

unfoldable pub select : (Request → Bool) → List Request → List Request
select p [] = []
select p (r ∷ rs) = let rest = select p rs in if p r then r ∷ rest else rest

-- `answers.update(...)` for the requests given.
unfoldable pub record_answers : Dict ℕ Answer → List Request → Dict ℕ Answer → Dict ℕ Answer
record_answers d [] answers = answers
record_answers d (r ∷ rs) answers =
    record_answers d rs (elim (get r.id d) [ some a ↦ put r.id a answers | none ↦ answers ])

-- The loop's variables, with the most requests that the node has taken in one batch.
pub record Sending : Type 0 where
  pub limit : ℕ
  pub answers : Dict ℕ Answer
  pub pending : List Request
  pub attempt : ℕ

-- What a pass of the loop does: go on, or raise with the ids of the chunk.
pub data Pass : Type 0 where
  again : Sending → Pass
  raised : List Request → Pass

abbrev pub is_none_left : List Request → Bool
is_none_left [] = true
is_none_left (r ∷ rs) = false

unfoldable pub accept : Sending → List Request → Dict ℕ Answer → Pass
unfolding select is_cut record_answers
accept s chunk d =
    let cut = select (is_cut d) chunk in
    let rest = drop (length chunk) s.pending in
    if not (is_none_left cut) && ltb 1 (length chunk)
    then again (record {
      limit = max 1 (length chunk - length cut);
      answers = record_answers d (select (λ r. not (is_cut d r)) chunk) s.answers;
      pending = cut ++ rest;
      attempt = 0;
    })
    else again (record {
      limit = s.limit;
      answers = record_answers d chunk s.answers;
      pending = rest;
      attempt = 0;
    })

unfoldable pub receive : Sending → List Request → ℕ → List Answer → Pass
unfolding accept any_too_large all_answered tries
receive s chunk status fetched =
    let d = by_id fetched [] in
    if nat_beq status 413 || (not (all_answered chunk d) && any_too_large fetched)
    then (if nat_beq (length chunk) 1
        then raised chunk
        else again (record s { limit = length chunk / 2 }))
    else if not (nat_beq status 200)
    then (if ltb (s.attempt + 1) (tries status)
        then again (record s { attempt = s.attempt + 1 })
        else raised chunk)
    else if not (all_answered chunk d)
    then raised chunk
    else accept s chunk d

unfoldable pub send : Node → ℕ → Sending → Pass
unfolding receive post_chunk
send node round s =
    let chunk = take s.limit s.pending in
    elim (post_chunk (node round chunk)) [
      | some (status, fetched) ↦ receive s chunk status fetched
      | none ↦ raised chunk
    ]

-- The answers by id; an error with the answers so far and the chunk that failed; `stuck` is a loop out
-- of fuel. The limit is kept for the next batch.
pub data Posted : Type 0 where
  posted : Dict ℕ Answer → ℕ → Posted
  rpc_error : Dict ℕ Answer → List Request → ℕ → Posted
  stuck : Posted

unfoldable pub post_loop : Node → ℕ → ℕ → Sending → Posted
unfolding send
post_loop node zero round s = stuck
post_loop node (suc fuel) round s =
    let rest = elim (send node round s) as (λ _. Posted) [
      | again s' ↦ post_loop node fuel (suc round) s'
      | raised chunk ↦ rpc_error s.answers chunk s.limit
    ] in
    if is_none_left s.pending then posted s.answers s.limit else rest

abbrev pub starting : List Request → ℕ → Sending
starting batch limit = record { limit = limit; answers = []; pending = batch; attempt = 0 }

-- Each pass answers a request, lowers the limit, or is one of five tries.
unfoldable pub post_batch : Node → List Request → ℕ → Posted
unfolding post_loop
post_batch node batch limit =
    post_loop node (5 * (length batch + limit) + 5) 0 (starting batch limit)
