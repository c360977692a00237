-- ===== src/Rpc/Ends.antt =====
-- ethjsonrpc.py: why the loop of `post_batch` ends, whatever the node answers.
use josuke.Prelude.{
  ℕ, zero, suc, ◌+◌, ◌-◌, ◌*◌, ◌/◌, max, ◌≤◌, ◌<◌, ◌≡◌, refl, subst, inl, inr, Bool, true, false,
  ◌&&◌, not, Option, none, some, List, [], ◌∷◌, ◌++◌, length, length-append, length-drop,
  length-take, take, drop, ltb, nat_beq, if_cases, arith,
}
use josuke.Prelude.Eq.{nat_eq}
use josuke.Prelude.Dict.{Dict}
use josuke.Rpc.{
  Request, Answer, Node, Sending, Pass, again, raised, select, is_cut, all_answered, accept,
  receive, send, Posted, posted, rpc_error, stuck, post_loop, post_batch, starting, is_none_left,
  by_id, post_chunk, tries,
}
use josuke.Rpc.Answers.{again_injective, one_error}

abbrev measure : Sending → ℕ
measure s = 5 * (length s.pending + s.limit) + (4 - s.attempt)

abbrev Drops : Sending → Sending → Type 0
Drops s s' = (0 < s'.limit) × (s'.attempt ≤ 4) × (measure s' < measure s)

length-select : (p : Request → Bool) (rs : List Request) → length (select p rs) ≤ length rs
unfolding select
length-select p [] = omega arith
length-select p (r ∷ rs) = ground (arith, length-select p rs)

tries_le : (status : ℕ) → tries status ≤ 5
unfolding tries
tries_le status = ground arith

none_left-length : (rs : List Request) → is_none_left rs ≡ false → 0 < length rs
none_left-length [] h = cc
none_left-length (r ∷ rs) h = omega arith

-- The chunk that is sent has a request, and no more than the limit or the pending ones.
record Chunk (s : Sending) (chunk : List Request) : Type 0 where
  some_left : 0 < length chunk
  below_limit : length chunk ≤ s.limit
  below_pending : length chunk ≤ length s.pending
  few_tries : s.attempt ≤ 4

take-Chunk :
    (s : Sending)
    → is_none_left s.pending ≡ false
    → 0 < s.limit
    → s.attempt ≤ 4
    → Chunk s (take s.limit s.pending)
take-Chunk s h l t =
    let n = none_left-length s.pending h in
    let e = length-take s.limit s.pending in
    record {
      some_left = ground (arith, n, e);
      below_limit = ground (arith, n, e);
      below_pending = ground (arith, n, e);
      few_tries = t;
    }

-- The requests that are left, and the limit, where some of the chunk is sent again.
fewer-left :
    (s : Sending) (chunk cut : List Request)
    → Chunk s chunk
    → 1 < length chunk
    → 0 < length cut
    → length cut ≤ length chunk
    → 5 * (length (cut ++ drop (length chunk) s.pending) + max 1 (length chunk - length cut)) + 4
      < measure s
fewer-left s chunk cut c h k le =
    let a = length-append cut (drop (length chunk) s.pending) in
    let d = length-drop (length chunk) s.pending in
    let p = c.below_pending in let q = c.below_limit in rw (a, d) (ground arith)

accept-Drops :
    (s : Sending) (chunk : List Request) (d : Dict ℕ Answer) (s' : Sending)
    → Chunk s chunk
    → 0 < s.limit
    → accept s chunk d ≡ again s'
    → Drops s s'
unfolding accept
accept-Drops s chunk d s' c l e =
    elim (if_cases (not (is_none_left (select (is_cut d) chunk)) && ltb 1 (length chunk)) _ _ e) [
      | inl (t, q) ↦ subst (Drops s) (again_injective q) (
        ground arith,
        omega arith,
        fewer-left s chunk (select (is_cut d) chunk) c (ground (arith, t))
            (none_left-length (select (is_cut d) chunk) (ground (arith, t)))
            (length-select (is_cut d) chunk),
      )
      | inr (_, q) ↦ subst (Drops s) (again_injective q) (
        l,
        omega arith,
        omega (arith, length-drop (length chunk) s.pending, c.below_pending, c.some_left),
      )
    ]

receive-Drops :
    (s : Sending) (chunk : List Request) (status : ℕ) (fetched : List Answer) (s' : Sending)
    → Chunk s chunk
    → 0 < s.limit
    → receive s chunk status fetched ≡ again s'
    → Drops s s'
unfolding receive
receive-Drops s chunk status fetched s' c l h =
    elim (if_cases (one_error status chunk fetched) _ _ h) [
      | inl (_, p) ↦ elim (if_cases (nat_beq (length chunk) 1) (raised chunk) _ p) [
        | inl (_, q) ↦ cc
        | inr (t, q) ↦ subst (Drops s) (again_injective q) (halved t)
      ]
      | inr (_, p) ↦ elim (if_cases (not (nat_beq status 200)) _ _ p) [
        | inl (_, q) ↦ elim (if_cases (ltb (s.attempt + 1) (tries status)) _ (raised chunk) q) [
          | inl (t, r) ↦ subst (Drops s) (again_injective r) (l, (resent t).0, (resent t).1)
          | inr (_, r) ↦ cc
        ]
        | inr (_, q) ↦
            elim (if_cases (not (all_answered chunk (by_id fetched []))) (raised chunk) _ q) [
              | inl (_, r) ↦ cc
              | inr (a, r) ↦ accept-Drops s chunk (by_id fetched []) s' c l r
            ]
      ]
    ]
  where
    halved : nat_beq (length chunk) 1 ≡ false → Drops s (record s { limit = length chunk / 2 })
    halved t =
        let a = c.some_left in
        let q = c.below_limit in let f = c.few_tries in (ground arith, f, ground arith)

    resent :
        ltb (s.attempt + 1) (tries status) ≡ true
        → (s.attempt + 1 ≤ 4) × (measure (record s { attempt = s.attempt + 1 }) < measure s)
    resent t = let m = tries_le status in (ground arith, ground arith)

send-Drops :
    (node : Node) (round : ℕ) (s s' : Sending)
    → is_none_left s.pending ≡ false
    → 0 < s.limit
    → s.attempt ≤ 4
    → send node round s ≡ again s'
    → Drops s s'
unfolding send
send-Drops node round s s' n l t h = go (post_chunk (node round (take s.limit s.pending))) h
  where
    go :
        (o : Option (ℕ × List Answer))
        → (elim o as (λ _. Pass) [
          | some (status, fetched) ↦ receive s (take s.limit s.pending) status fetched
          | none ↦ raised (take s.limit s.pending)
        ])
          ≡ again s'
        → Drops s s'
    go none e = cc
    go (some (status, fetched)) e =
        receive-Drops s (take s.limit s.pending) status fetched s' (take-Chunk s n l t) l e

post_loop-ne-stuck :
    (node : Node) (fuel round : ℕ) (s : Sending)
    → 0 < s.limit
    → s.attempt ≤ 4
    → measure s < fuel
    → post_loop node fuel round s ≡ stuck
    → ⊥
unfolding post_loop
post_loop-ne-stuck node zero round s l t m h = omega arith
post_loop-ne-stuck node (suc fuel) round s l t m h =
    elim (if_cases (is_none_left s.pending) (posted s.answers s.limit) _ h) [
      | inl (_, p) ↦ cc
      | inr (n, p) ↦
          go (λ s' l' t' m'. post_loop-ne-stuck node fuel (suc round) s' l' t' m')
            (send node round s) refl n p
    ]
  where
    go :
        ((s' : Sending)
          → 0 < s'.limit
          → s'.attempt ≤ 4
          → measure s' < fuel
          → post_loop node fuel (suc round) s' ≡ stuck
          → ⊥)
        → (pass : Pass) → send node round s ≡ pass
        → is_none_left s.pending ≡ false
        → (elim pass as (λ _. Posted) [
          | again s' ↦ post_loop node fuel (suc round) s'
          | raised chunk ↦ rpc_error s.answers chunk s.limit
        ])
          ≡ stuck
        → ⊥
    go ih (raised chunk) e n p = cc
    go ih (again s') e n p =
        let (l', t', m') = send-Drops node round s s' n l t e in ih s' l' t' (omega arith) p

pub post_batch-ne-stuck :
    (node : Node) (batch : List Request) (limit : ℕ)
    → 0 < limit
    → post_batch node batch limit ≡ stuck
    → ⊥
unfolding post_batch
post_batch-ne-stuck node batch limit l h =
    post_loop-ne-stuck node (5 * (length batch + limit) + 5) 0 (starting batch limit) l
      (omega arith) (omega arith) h
