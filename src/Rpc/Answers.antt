-- ===== src/Rpc/Answers.antt =====
-- ethjsonrpc.py: every request of a batch is answered, failed or unsent, and none is two of these.
use josuke.Prelude.{
  ℕ, ◌+◌, ◌≡◌, refl, sym, subst, ap, ◌∙◌, ◌⊎◌, inl, inr, Bool, true, false, ◌&&◌, ◌||◌, not, Option,
  none, some, List, [], ◌∷◌, ◌++◌, length, take, drop, ltb, nat_beq, nat_beq_iff, if_cases,
  Bool-cases, arith, In,
}
use josuke.Prelude.Eq.{nat_eq}
use josuke.Prelude.Dict.{Dict, get, put, has, has-put, has-get}
use josuke.Rpc.{
  Request, Answer, Node, Sending, Pass, again, raised, select, is_cut, record_answers, all_answered,
  accept, receive, send, is_none_left, by_id, any_too_large, post_chunk, tries,
}

In-select :
    (p : Request → Bool) (r : Request) (rs : List Request)
    → In r rs
    → p r ≡ true
    → In r (select p rs)
unfolding select
In-select p r [] m h = m
In-select p r (x ∷ rs) (inl e) h = rw (ap p (sym e) ∙ h) (inl e)
In-select p r (x ∷ rs) (inr m) h = elim (Bool-cases (p x)) [
  | inl t ↦ rw t (inr (In-select p r rs m h))
  | inr f ↦ rw f (In-select p r rs m h)
]

pub In-select_cases :
    (p : Request → Bool) (r : Request) (rs : List Request)
    → In r (select p rs)
    → In r rs × (p r ≡ true)
unfolding select
In-select_cases p r [] m = absurd m
In-select_cases p r (x ∷ rs) m = elim (Bool-cases (p x)) [
  | inl t ↦ elim (rw t at m) [
    | inl e ↦ (inl e, ap p e ∙ t)
    | inr n ↦ let (i, q) = In-select_cases p r rs n in (inr i, q)
  ]
  | inr f ↦ let (i, q) = In-select_cases p r rs (rw f at m) in (inr i, q)
]

-- What was answered stays answered.
record_answers-kept :
    (i : ℕ) (d : Dict ℕ Answer) (rs : List Request) (answers : Dict ℕ Answer)
    → has i answers ≡ true
    → has i (record_answers d rs answers) ≡ true
unfolding record_answers
record_answers-kept i d [] answers h = h
record_answers-kept i d (r ∷ rs) answers h = record_answers-kept i d rs _ (go (get r.id d))
  where
    go :
        (o : Option Answer)
        → has i (elim o as (λ _. Dict ℕ Answer) [ some a ↦ put r.id a answers | none ↦ answers ])
          ≡ true
    go none = h
    go (some a) = has-put i r.id a answers ∙ ground (arith)

-- A request that the response answers is answered.
record_answers-has :
    (r : Request) (d : Dict ℕ Answer) (rs : List Request) (answers : Dict ℕ Answer)
    → In r rs
    → has r.id d ≡ true
    → has r.id (record_answers d rs answers) ≡ true
unfolding record_answers
record_answers-has r d [] answers m h = absurd m
record_answers-has r d (x ∷ rs) answers (inr m) h = record_answers-has r d rs _ m h
record_answers-has r d (x ∷ rs) answers (inl e) h =
    let (a, g) = has-get x.id d (ap (λ y. has y.id d) (sym e) ∙ h) in
    rw g (
      record_answers-kept r.id d rs (put x.id a answers) (
        has-put r.id x.id a answers ∙ rw ((nat_beq_iff x.id r.id).1 (ap (λ y. y.id) (sym e))) refl))

-- Nothing else is answered.
record_answers-cases :
    (i : ℕ) (d : Dict ℕ Answer) (rs : List Request) (answers : Dict ℕ Answer)
    → has i (record_answers d rs answers) ≡ true
    → (has i answers ≡ true) ⊎ ((r : Request) × (In r rs) × (r.id ≡ i))
unfolding record_answers
record_answers-cases i d [] answers h = inl h
record_answers-cases i d (r ∷ rs) answers h = elim (record_answers-cases i d rs _ h) [
  | inl k ↦ go (get r.id d) k
  | inr (x, m, e) ↦ inr (x, inr m, e)
]
  where
    go :
        (o : Option Answer)
        → has i (elim o as (λ _. Dict ℕ Answer) [ some a ↦ put r.id a answers | none ↦ answers ])
          ≡ true
        → (has i answers ≡ true) ⊎ ((x : Request) × (In x (r ∷ rs)) × (x.id ≡ i))
    go none k = inl k
    go (some a) k = elim (Bool-cases (nat_beq r.id i)) [
      | inl t ↦ inr (r, inl refl, (nat_beq_iff r.id i).0 t)
      | inr f ↦ inl (rw f at (sym (has-put i r.id a answers) ∙ k))
    ]

all_answered-has :
    (r : Request) (chunk : List Request) (d : Dict ℕ Answer)
    → all_answered chunk d ≡ true
    → In r chunk
    → has r.id d ≡ true
unfolding all_answered
all_answered-has r [] d h m = absurd m
all_answered-has r (x ∷ chunk) d h (inl e) = ap (λ y. has y.id d) e ∙ ground (arith)
all_answered-has r (x ∷ chunk) d h (inr m) = all_answered-has r chunk d (ground (arith)) m

-- What a pass that takes answers does to the loop's variables: the chunk is answered, but for `kept`,
-- which is sent again.
pub record Accepted (s : Sending) (chunk : List Request) (s' : Sending) : Type 0 where
  pub kept : List Request
  pub rest_pending : s'.pending ≡ kept ++ drop (length chunk) s.pending
  pub selected : (p : Request → Bool) × (kept ≡ select p chunk)
  pub answered : (r : Request) → In r chunk → In r kept ⊎ (has r.id s'.answers ≡ true)
  pub still : (i : ℕ) → has i s.answers ≡ true → has i s'.answers ≡ true
  pub only :
      (i : ℕ)
      → has i s'.answers ≡ true
      → (has i s.answers ≡ true) ⊎ ((r : Request) × (In r chunk) × (r.id ≡ i) × (In r kept → ⊥))

pub again_injective : {s s' : Sending} → again s ≡ again s' → s ≡ s'
again_injective h = cc

not-not : (b : Bool) → not b ≡ true → b ≡ true → ⊥
not-not true h k = cc
not-not false h k = cc

select-none : (rs : List Request) → [] ≡ select (λ r. false) rs
unfolding select
select-none [] = refl
select-none (r ∷ rs) = select-none rs

accept-Accepted :
    (s : Sending) (chunk : List Request) (d : Dict ℕ Answer) (s' : Sending)
    → all_answered chunk d ≡ true
    → accept s chunk d ≡ again s'
    → Accepted s chunk s'
unfolding accept
accept-Accepted s chunk d s' h e =
    elim (if_cases (not (is_none_left (select (is_cut d) chunk)) && ltb 1 (length chunk)) _ _ e) [
      | inl (_, q) ↦ subst (Accepted s chunk) (again_injective q) (record {
        kept = select (is_cut d) chunk;
        rest_pending = refl;
        selected = (is_cut d, refl);
        answered = λ r m. elim (Bool-cases (is_cut d r)) [
          | inl t ↦ inl (In-select (is_cut d) r chunk m t)
          | inr f ↦ inr (
              record_answers-has r d (select uncut chunk) s.answers
                (In-select uncut r chunk m (rw f refl)) (all_answered-has r chunk d h m))
        ];
        still = λ i. record_answers-kept i d (select uncut chunk) s.answers;
        only = λ i k. elim (record_answers-cases i d (select uncut chunk) s.answers k) [
          | inl p ↦ inl p
          | inr (r, m, p) ↦
              let (n, u) = In-select_cases uncut r chunk m in
              inr (r, n, p, λ c. not-not (is_cut d r) u (In-select_cases (is_cut d) r chunk c).1)
        ];
      })
      | inr (_, q) ↦ subst (Accepted s chunk) (again_injective q) (record {
        kept = [];
        rest_pending = refl;
        selected = (λ r. false, select-none chunk);
        answered =
            λ r m. inr (record_answers-has r d chunk s.answers m (all_answered-has r chunk d h m));
        still = λ i. record_answers-kept i d chunk s.answers;
        only = λ i k. elim (record_answers-cases i d chunk s.answers k) [
          | inl p ↦ inl p
          | inr (r, m, p) ↦ inr (r, m, p, λ c. absurd c)
        ];
      })
    ]
  where
    uncut : Request → Bool
    uncut r = not (is_cut d r)

-- A pass that only lowers the limit or waits keeps the requests and the answers.
abbrev pub Waits : Sending → Sending → Type 0
Waits s s' = (s'.pending ≡ s.pending) × (s'.answers ≡ s.answers)

abbrev pub one_error : ℕ → List Request → List Answer → Bool
one_error status chunk fetched =
    nat_beq status 413 || (not (all_answered chunk (by_id fetched [])) && any_too_large fetched)

not-false : (b : Bool) → not b ≡ false → b ≡ true
not-false true e = refl
not-false false e = cc

receive_cases :
    (s : Sending) (chunk : List Request) (status : ℕ) (fetched : List Answer) (s' : Sending)
    → receive s chunk status fetched ≡ again s'
    → Waits s s' ⊎ Accepted s chunk s'
unfolding receive
receive_cases s chunk status fetched s' h = elim (if_cases (one_error status chunk fetched) _ _ h) [
  | inl (_, p) ↦ elim (if_cases (nat_beq (length chunk) 1) (raised chunk) _ p) [
    | inl (_, q) ↦ cc
    | inr (_, q) ↦ inl (subst (Waits s) (again_injective q) (refl, refl))
  ]
  | inr (_, p) ↦ elim (if_cases (not (nat_beq status 200)) _ _ p) [
    | inl (_, q) ↦ elim (if_cases (ltb (s.attempt + 1) (tries status)) _ (raised chunk) q) [
      | inl (_, r) ↦ inl (subst (Waits s) (again_injective r) (refl, refl))
      | inr (_, r) ↦ cc
    ]
    | inr (_, q) ↦
        elim (if_cases (not (all_answered chunk (by_id fetched []))) (raised chunk) _ q) [
          | inl (_, r) ↦ cc
          | inr (a, r) ↦ inr (accept-Accepted s chunk (by_id fetched []) s' (not-false _ a) r)
        ]
  ]
]

raised_injective : {c d : List Request} → raised c ≡ raised d → c ≡ d
raised_injective h = cc

accept-ne-raised :
    (s : Sending) (chunk : List Request) (d : Dict ℕ Answer) (c : List Request)
    → accept s chunk d ≡ raised c
    → ⊥
unfolding accept
accept-ne-raised s chunk d c h =
    elim (if_cases (not (is_none_left (select (is_cut d) chunk)) && ltb 1 (length chunk)) _ _ h) [
      | inl (_, q) ↦ cc
      | inr (_, q) ↦ cc
    ]

-- A pass that raises names the chunk that it sent.
receive-raised :
    (s : Sending) (chunk : List Request) (status : ℕ) (fetched : List Answer) (c : List Request)
    → receive s chunk status fetched ≡ raised c
    → c ≡ chunk
unfolding receive
receive-raised s chunk status fetched c h = elim (if_cases (one_error status chunk fetched) _ _ h) [
  | inl (_, p) ↦ elim (if_cases (nat_beq (length chunk) 1) (raised chunk) _ p) [
    | inl (_, q) ↦ raised_injective (sym q)
    | inr (_, q) ↦ cc
  ]
  | inr (_, p) ↦ elim (if_cases (not (nat_beq status 200)) _ _ p) [
    | inl (_, q) ↦ elim (if_cases (ltb (s.attempt + 1) (tries status)) _ (raised chunk) q) [
      | inl (_, r) ↦ cc
      | inr (_, r) ↦ raised_injective (sym r)
    ]
    | inr (_, q) ↦
        elim (if_cases (not (all_answered chunk (by_id fetched []))) (raised chunk) _ q) [
          | inl (_, r) ↦ raised_injective (sym r)
          | inr (_, r) ↦ absurd (accept-ne-raised s chunk (by_id fetched []) c r)
        ]
  ]
]

pub send_cases :
    (node : Node) (round : ℕ) (s s' : Sending)
    → send node round s ≡ again s'
    → Waits s s' ⊎ Accepted s (take s.limit s.pending) s'
unfolding send
send_cases node round s s' h = go (post_chunk (node round (take s.limit s.pending))) h
  where
    go :
        (o : Option (ℕ × List Answer))
        → (elim o as (λ _. Pass) [
          | some (status, fetched) ↦ receive s (take s.limit s.pending) status fetched
          | none ↦ raised (take s.limit s.pending)
        ])
          ≡ again s'
        → Waits s s' ⊎ Accepted s (take s.limit s.pending) s'
    go none e = cc
    go (some (status, fetched)) e = receive_cases s (take s.limit s.pending) status fetched s' e

pub send-raised :
    (node : Node) (round : ℕ) (s : Sending) (c : List Request)
    → send node round s ≡ raised c
    → c ≡ take s.limit s.pending
unfolding send
send-raised node round s c h = go (post_chunk (node round (take s.limit s.pending))) h
  where
    go :
        (o : Option (ℕ × List Answer))
        → (elim o as (λ _. Pass) [
          | some (status, fetched) ↦ receive s (take s.limit s.pending) status fetched
          | none ↦ raised (take s.limit s.pending)
        ])
          ≡ raised c
        → c ≡ take s.limit s.pending
    go none e = raised_injective (sym e)
    go (some (status, fetched)) e = receive-raised s (take s.limit s.pending) status fetched c e
