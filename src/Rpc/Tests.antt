-- ===== src/Rpc/Tests.antt =====
-- ethjsonrpc.py: two requests to a node that takes one at a time.
use josuke.Prelude.{
  ◌≡◌, refl, ap, inl, inr, none, some, String, List, [], ◌∷◌, length, nat_beq, if◌then◌else◌, map,
  In, arith, Option, true, if_cases, sym, subst, ◌∙◌,
}
use josuke.Prelude.Dict.{put, get, some_injective}
use josuke.Rpc.{
  Request, Node, no_error, tries, fault_too_large, too_large, any_too_large, post_chunk, by_id,
  all_answered, is_cut, select, record_answers, accept, receive, send, post_loop, post_batch,
}
use josuke.Rpc.Served.{Apart, Outcome, post_batch-Outcome}
use josuke.Prelude.Eq.{◌==◌, string_eq}
use josuke.Rpc.Codes.{
  Codes, is_kept, Faithful, Answers, uncached, eth_get_code, prefetch_code, eth_get_code-Faithful,
}
use josuke.Rpc.Calls.{
  numbered, rpc_batch, results, key_error, gather, append_result, cons_result, Reported,
  rpc_batch-Reported,
}

-- A node that answers a batch of one, and refuses a larger one.
abbrev node : Node
node round chunk =
    if nat_beq (length chunk) 1
    then some (record {
      status = 200;
      body =
          some
            (map (λ r. record { id = some r.id; error = no_error; result = some r.params }) chunk);
    })
    else some (record { status = 413; body = none })

abbrev batch : List Request
batch =
    record { id = 7; method = "eth_getCode"; params = "a" }
    ∷ record { id = 8; method = "eth_getCode"; params = "b" }
    ∷ []

abbrev calls : List (String × String)
calls = ("eth_getCode", "a") ∷ ("eth_getCode", "b") ∷ []

batch-Apart : Apart batch
batch-Apart = (λ x m e. apart x m e, (λ x m e. m, tt))
  where
    apart :
        (x : Request)
        → In x (record { id = 8; method = "eth_getCode"; params = "b" } ∷ [])
        → x.id ≡ 7
        → ⊥
    apart x (inl p) e = omega (arith, ap (λ y. y.id) p)
    apart x (inr m) e = m

post_batch-Outcome_example : Outcome batch (post_batch node batch 2)
post_batch-Outcome_example = post_batch-Outcome node batch 2 (omega arith) batch-Apart

rpc_batch-Reported_example :
    Reported calls (post_batch node (numbered 0 calls) 2) (rpc_batch node calls 2)
rpc_batch-Reported_example = rpc_batch-Reported node calls 2 (omega arith)

-- Both calls have their results.
rpc_batch_test : rpc_batch node calls 2 ≡ results ("a" ∷ "b" ∷ [])
unfolding rpc_batch gather append_result cons_result numbered post_batch post_loop send receive
    accept post_chunk tries by_id all_answered any_too_large too_large fault_too_large is_cut select
    record_answers put get
rpc_batch_test = refl

-- A node whose answers have no result.
abbrev mute : Node
mute round chunk = some (record {
  status = 200;
  body = some (map (λ r. record { id = some r.id; error = no_error; result = none }) chunk);
})

rpc_batch_no_result : rpc_batch mute calls 2 ≡ key_error
unfolding rpc_batch gather append_result cons_result numbered post_batch post_loop send receive
    accept post_chunk tries by_id all_answered any_too_large too_large fault_too_large is_cut select
    record_answers put get
rpc_batch_no_result = refl

abbrev same : String → String
same address = address

abbrev first : String → String → String
first address block = address

abbrev lone : String → String → Option String
lone address block = some address

abbrev cached : Codes
cached = ("0xcc", "0xcc") ∷ []

cached-Faithful : Faithful same first lone same cached
unfolding get
cached-Faithful a c e = elim (if_cases ("0xcc" == a) (some "0xcc") none e) [
  | inl (p, q) ↦ (
    sym (some_injective q) ∙ (string_eq.same_iff "0xcc" a).0 p,
    subst (λ x. is_kept x ≡ true) (some_injective q) refl,
  )
  | inr (p, q) ↦ cc
]

prefetched-Answers :
    Answers same first lone same node 2
      (uncached same first lone (some "0xaa" ∷ none ∷ some "0xcc" ∷ []) cached [])
unfolding uncached rpc_batch gather append_result cons_result numbered post_batch post_loop send
    receive accept post_chunk tries by_id all_answered any_too_large too_large fault_too_large
    is_cut select record_answers put get
prefetched-Answers cs e = sym (results_injective e)
  where
    results_injective : {x y : List String} → results x ≡ results y → x ≡ y
    results_injective h = cc

eth_get_code-Faithful_example :
    ((eth_get_code same first lone "0xaa" "latest"
        (prefetch_code same first lone node 2 (some "0xaa" ∷ none ∷ some "0xcc" ∷ []) cached).0).0
      ≡ some "0xaa")
    × Faithful same first lone same
        (eth_get_code same first lone "0xaa" "latest"
          (prefetch_code same first lone node 2 (some "0xaa" ∷ none ∷ some "0xcc" ∷ []) cached).0).1
eth_get_code-Faithful_example =
    eth_get_code-Faithful same first lone same node 2 (some "0xaa" ∷ none ∷ some "0xcc" ∷ []) "0xaa"
      cached prefetched-Answers cached-Faithful refl
