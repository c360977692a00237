-- ===== src/Rpc/Calls.antt =====
-- src/josuke/ethjsonrpc.py: `rpc_batch`.
use josuke.Prelude.{
  ℕ, suc, ◌≤◌, ◌<◌, ◌≡◌, ◌≢◌, ◌⊎◌, ◌∙◌, refl, sym, subst, ap, inl, inr, true, Option, none, some,
  String, List, [], ◌∷◌, arith, In,
}
use josuke.Prelude.Eq.{nat_eq}
use josuke.Prelude.Dict.{Dict, get, has, has-get, some_injective}
use josuke.Rpc.{
  Request, Answer, Fault, ErrorField, no_error, error_object, error_value, Node, Posted, posted,
  rpc_error, stuck, post_batch,
}
use josuke.Rpc.Served.{Apart, post_batch-Outcome, Outcome}

-- `enumerate(calls)` as requests.
unfoldable pub numbered : ℕ → List (String × String) → List Request
numbered i [] = []
numbered i ((m, p) ∷ calls) = record { id = i; method = m; params = p } ∷ numbered (suc i) calls

-- The results, an `RpcError`, or the `KeyError` of an id with no answer or an answer with no result.
pub data Results : Type 0 where
  results : List String → Results
  failed : Results
  key_error : Results

unfoldable pub cons_result : String → Results → Results
cons_result r (results rs) = results (r ∷ rs)
cons_result r failed = failed
cons_result r key_error = key_error

-- `results.append(by_id[i]["result"])`, and the calls after it.
unfoldable pub append_result : Option String → Results → Results
unfolding cons_result
append_result none rest = key_error
append_result (some r) rest = cons_result r rest

-- The loop over the calls, from the `i`th on.
unfoldable pub gather : Dict ℕ Answer → ℕ → List (String × String) → Results
unfolding append_result
gather d i [] = results []
gather d i (call ∷ calls) =
    let rest = gather d (suc i) calls in
    elim (get i d) as (λ _. Results) [
      | none ↦ key_error
      | some a ↦ (elim a.error as (λ _. Results) [
        | error_object fault ↦ failed
        | error_value ↦ failed
        | no_error ↦ append_result a.result rest
      ])
    ]

unfoldable pub rpc_batch : Node → List (String × String) → ℕ → Results
unfolding gather
rpc_batch node calls limit = elim (post_batch node (numbered 0 calls) limit) as (λ _. Results) [
  | posted d l ↦ gather d 0 calls
  | rpc_error d c l ↦ failed
  | stuck ↦ failed
]

In-numbered_le :
    (i : ℕ) (calls : List (String × String)) (r : Request) → In r (numbered i calls) → i ≤ r.id
unfolding numbered
In-numbered_le i [] r m = absurd m
In-numbered_le i ((x, y) ∷ calls) r (inl e) = omega (arith, ap (λ z. z.id) e)
In-numbered_le i ((x, y) ∷ calls) r (inr m) = omega (arith, In-numbered_le (suc i) calls r m)

numbered-Apart : (i : ℕ) (calls : List (String × String)) → Apart (numbered i calls)
unfolding numbered
numbered-Apart i [] = tt
numbered-Apart i ((x, y) ∷ calls) =
    (λ r m e. omega (arith, In-numbered_le (suc i) calls r m), numbered-Apart (suc i) calls)

-- The answer to the `i`th call has this result and no error.
abbrev pub GaveResult : Dict ℕ Answer → ℕ → String → Type 0
GaveResult d i r = (a : Answer) × (get i d ≡ some a) × (a.error ≡ no_error) × (a.result ≡ some r)

-- One result for each call, in order, with the answers' own.
abbrev pub InOrder : Dict ℕ Answer → ℕ → List (String × String) → List String → Type 0
InOrder d i [] [] = Unit
InOrder d i [] (r ∷ rs) = ⊥
InOrder d i (call ∷ calls) [] = ⊥
InOrder d i (call ∷ calls) (r ∷ rs) = GaveResult d i r × InOrder d (suc i) calls rs

-- A call's answer is such, and those of the calls before it have a result.
abbrev pub FirstAnswer : (Answer → Type 0) → Dict ℕ Answer → ℕ → List (String × String) → Type 0
FirstAnswer P d i [] = ⊥
FirstAnswer P d i (call ∷ calls) =
    ((a : Answer) × (get i d ≡ some a) × P a)
    ⊎ (((r : String) × GaveResult d i r) × FirstAnswer P d (suc i) calls)

abbrev pub IsError : Answer → Type 0
IsError a = a.error ≢ no_error

abbrev pub HasNeither : Answer → Type 0
HasNeither a = (a.error ≡ no_error) × (a.result ≡ none)

abbrev pub Gathered : Dict ℕ Answer → List (String × String) → ℕ → Results → Type 0
Gathered d calls i (results rs) = InOrder d i calls rs
Gathered d calls i failed = FirstAnswer IsError d i calls
Gathered d calls i key_error = FirstAnswer HasNeither d i calls

gather-Gathered :
    (d : Dict ℕ Answer) (i : ℕ) (calls : List (String × String))
    → ((r : Request) → In r (numbered i calls) → has r.id d ≡ true)
    → Gathered d calls i (gather d i calls)
unfolding gather numbered append_result cons_result
gather-Gathered d i [] h = tt
gather-Gathered d i ((x, y) ∷ calls) h =
    let (a, g) = has-get i d (h _ (inl refl)) in
    look (get i d) g (
      go a g a.error refl (gather d (suc i) calls)
        (gather-Gathered d (suc i) calls (λ r m. h r (inr m))))
  where
    Goal : Results → Type 0
    Goal r = Gathered d ((x, y) ∷ calls) i r

    step : Answer → Results
    step a = elim a.error as (λ _. Results) [
      | error_object fault ↦ failed
      | error_value ↦ failed
      | no_error ↦ append_result a.result (gather d (suc i) calls)
    ]

    look :
        (o : Option Answer)
        → {a : Answer} → o ≡ some a
        → Goal (step a)
        → Goal (elim o as (λ _. Results) [ none ↦ key_error | some b ↦ step b ])
    look none e k = cc
    look (some b) {a} e k = subst (λ z. Goal (step z)) (some_injective (sym e)) k

    add :
        (r : String)
        → GaveResult d i r
        → (rest : Results) → Gathered d calls (suc i) rest
        → Goal (append_result (some r) rest)
    add r g (results rs) k = (g, k)
    add r g failed k = inr ((r, g), k)
    add r g key_error k = inr ((r, g), k)

    found :
        (a : Answer)
        → get i d ≡ some a
        → a.error ≡ no_error
        → (o : Option String) → a.result ≡ o
        → (rest : Results) → Gathered d calls (suc i) rest
        → Goal (append_result o rest)
    found a g n none e rest k = inl (a, g, (n, e))
    found a g n (some r) e rest k = add r (a, g, n, e) rest k

    go :
        (a : Answer)
        → get i d ≡ some a
        → (e : ErrorField) → a.error ≡ e
        → (rest : Results) → Gathered d calls (suc i) rest
        → Goal (elim e as (λ _. Results) [
          | error_object fault ↦ failed
          | error_value ↦ failed
          | no_error ↦ append_result a.result rest
        ])
    go a g no_error n rest k = found a g n a.result refl rest k
    go a g (error_object f) n rest k = inl (a, g, λ z. object f (sym n ∙ z))
      where
        object : (f : Fault) → error_object f ≡ no_error → ⊥
        object f z = cc
    go a g error_value n rest k = inl (a, g, λ z. other (sym n ∙ z))
      where
        other : error_value ≡ no_error → ⊥
        other z = cc

-- What `rpc_batch` comes to, given what its `post_batch` came to.
abbrev pub Reported : List (String × String) → Posted → Results → Type 0
Reported calls (posted d l) r = Gathered d calls 0 r
Reported calls (rpc_error d c l) r = r ≡ failed
Reported calls stuck r = ⊥

-- `rpc_batch`, under a positive limit and whatever the node answers, ends, and never looks up an
-- answer that is not there. Where it returns results there is one for each call, in the order of the
-- calls: the result of the answer to that call, which has no error. Where it fails, its `post_batch`
-- failed, or a call's answer has an error and those before it have none, and a result each. Where a
-- `KeyError` escapes, a call's answer has neither an error nor a result, and those before it have no
-- error, and a result each.
pub rpc_batch-Reported :
    (node : Node) (calls : List (String × String)) (limit : ℕ)
    → 0 < limit
    → Reported calls (post_batch node (numbered 0 calls) limit) (rpc_batch node calls limit)
unfolding rpc_batch
rpc_batch-Reported node calls limit l =
    go (post_batch node (numbered 0 calls) limit)
      (post_batch-Outcome node (numbered 0 calls) limit l (numbered-Apart 0 calls))
  where
    go :
        (p : Posted)
        → Outcome (numbered 0 calls) p
        → Reported calls p (elim p as (λ _. Results) [
          | posted d k ↦ gather d 0 calls
          | rpc_error d c k ↦ failed
          | stuck ↦ failed
        ])
    go (posted d k) h = gather-Gathered d 0 calls h.0
    go (rpc_error d c k) h = refl
    go stuck h = absurd h
