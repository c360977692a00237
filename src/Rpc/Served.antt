-- ===== src/Rpc/Served.antt =====
-- ethjsonrpc.py: what `post_batch` returns or raises answers each request of the batch at most once.
use josuke.Prelude.{
  ℕ, zero, suc, ◌+◌, ◌*◌, ◌<◌, ◌≡◌, refl, sym, subst, ap, ◌∙◌, ◌⊎◌, inl, inr, Bool, true, false,
  Bool-cases, List, [], ◌∷◌, ◌++◌, length, take, drop, take-append-drop-length, take-append-drop,
  In, In-append_left, In-append_right, In-append_cases,
}
use josuke.Prelude.Eq.{nat_eq}
use josuke.Prelude.Dict.{has}
use josuke.Rpc.{
  Request, Node, Sending, Pass, again, raised, select, send, Posted, posted, rpc_error, stuck,
  post_loop, post_batch, starting, is_none_left,
}
use josuke.Rpc.Ends.{post_batch-ne-stuck}
use josuke.Rpc.Answers.{Accepted, Waits, send_cases, send-raised, In-select_cases}

-- No two requests have one id.
abbrev pub Apart : List Request → Type 0
Apart [] = Unit
Apart (r ∷ rs) = ((x : Request) → In x rs → x.id ≡ r.id → ⊥) × Apart rs

Apart-unique :
    (rs : List Request) (x y : Request) → Apart rs → In x rs → In y rs → x.id ≡ y.id → x ≡ y
Apart-unique [] x y h m n e = absurd m
Apart-unique (r ∷ rs) x y h (inl p) (inl q) e = p ∙ sym q
Apart-unique (r ∷ rs) x y h (inl p) (inr n) e = absurd (h.0 y n (sym e ∙ ap (λ z. z.id) p))
Apart-unique (r ∷ rs) x y h (inr m) (inl q) e = absurd (h.0 x m (e ∙ ap (λ z. z.id) q))
Apart-unique (r ∷ rs) x y h (inr m) (inr n) e = Apart-unique rs x y h.1 m n e

Apart-across :
    (xs ys : List Request) (x y : Request) → Apart (xs ++ ys) → In x xs → In y ys → x.id ≡ y.id → ⊥
Apart-across [] ys x y h m n e = absurd m
Apart-across (r ∷ xs) ys x y h (inl p) n e =
    h.0 y (In-append_right y xs ys n) (sym e ∙ ap (λ z. z.id) p)
Apart-across (r ∷ xs) ys x y h (inr m) n e = Apart-across xs ys x y h.1 m n e

In-select-append :
    (p : Request → Bool) (x : Request) (xs ys : List Request)
    → In x (select p xs ++ ys)
    → In x (xs ++ ys)
In-select-append p x xs ys m = elim (In-append_cases x (select p xs) ys m) [
  | inl n ↦ In-append_left x xs ys (In-select_cases p x xs n).0
  | inr n ↦ In-append_right x xs ys n
]

Apart-select :
    (p : Request → Bool) (xs ys : List Request) → Apart (xs ++ ys) → Apart (select p xs ++ ys)
unfolding select
Apart-select p [] ys h = h
Apart-select p (r ∷ xs) ys h = elim (Bool-cases (p r)) [
  | inl t ↦ rw t (λ x m. h.0 x (In-select-append p x xs ys m), Apart-select p xs ys h.1)
  | inr f ↦ rw f (Apart-select p xs ys h.1)
]

-- Between two passes: each request of the batch is pending or answered, none is both, and there is
-- no answer to anything else.
record Between (batch : List Request) (s : Sending) : Type 0 where
  covered : (r : Request) → In r batch → In r s.pending ⊎ (has r.id s.answers ≡ true)
  apart : Apart s.pending
  unanswered : (r : Request) → In r s.pending → has r.id s.answers ≡ true → ⊥
  pending_only : (r : Request) → In r s.pending → In r batch
  answers_only : (i : ℕ) → has i s.answers ≡ true → (r : Request) × In r batch × (r.id ≡ i)

starting-Between :
    (batch : List Request) (limit : ℕ) → Apart batch → Between batch (starting batch limit)
starting-Between batch limit h = record {
  covered = λ r m. inl m;
  apart = h;
  unanswered = λ r m e. cc;
  pending_only = λ r m. m;
  answers_only = λ i e. cc;
}

Waits-Between :
    (batch : List Request) (s s' : Sending) → Waits s s' → Between batch s → Between batch s'
Waits-Between batch s s' (p, q) b = record {
  covered = rw (p, q) b.covered;
  apart = rw p b.apart;
  unanswered = rw (p, q) b.unanswered;
  pending_only = rw p b.pending_only;
  answers_only = rw q b.answers_only;
}

module _ (batch : List Request) (s s' : Sending) (chunk : List Request)
    (parts : chunk ++ drop (length chunk) s.pending ≡ s.pending) (a : Accepted s chunk s')
    (b : Between batch s) where
  in_parts : (r : Request) → In r s.pending → In r chunk ⊎ In r (drop (length chunk) s.pending)
  in_parts r m =
      In-append_cases r chunk (drop (length chunk) s.pending) (subst (In r) (sym parts) m)

  in_chunk : (r : Request) → In r chunk → In r s.pending
  in_chunk r m = subst (In r) parts (In-append_left r chunk (drop (length chunk) s.pending) m)

  in_rest : (r : Request) → In r (drop (length chunk) s.pending) → In r s.pending
  in_rest r m = subst (In r) parts (In-append_right r chunk (drop (length chunk) s.pending) m)

  kept_chunk : (r : Request) → In r a.kept → In r chunk
  kept_chunk r m = (In-select_cases a.selected.0 r chunk (subst (In r) a.selected.1 m)).0

  parts_differ : Apart (chunk ++ drop (length chunk) s.pending)
  parts_differ = subst Apart (sym parts) b.apart

  still_pending :
      (r : Request) → In r s'.pending → In r a.kept ⊎ In r (drop (length chunk) s.pending)
  still_pending r m =
      In-append_cases r a.kept (drop (length chunk) s.pending) (subst (In r) a.rest_pending m)

  kept_pending : (r : Request) → In r a.kept → In r s'.pending
  kept_pending r m =
      subst (In r) (sym a.rest_pending) (In-append_left r a.kept (drop (length chunk) s.pending) m)

  rest_pending' : (r : Request) → In r (drop (length chunk) s.pending) → In r s'.pending
  rest_pending' r m =
      subst (In r) (sym a.rest_pending) (In-append_right r a.kept (drop (length chunk) s.pending) m)

  was_pending : (r : Request) → In r s'.pending → In r s.pending
  was_pending r m = elim (still_pending r m) [
    | inl k ↦ in_chunk r (kept_chunk r k)
    | inr k ↦ in_rest r k
  ]

  -- A request that is still pending is not the one that was answered.
  other_answered :
      (r x : Request) → In r s'.pending → In x chunk → x.id ≡ r.id → (In x a.kept → ⊥) → ⊥
  other_answered r x m n e out = elim (still_pending r m) [
    | inl k ↦ out (
        subst (λ z. In z a.kept)
          (Apart-unique s.pending r x b.apart (was_pending r m) (in_chunk x n) (sym e)) k)
    | inr k ↦ Apart-across chunk (drop (length chunk) s.pending) x r parts_differ n k e
  ]

  Accepted-Between : Between batch s'
  Accepted-Between = record {
    covered = λ r m. elim (b.covered r m) [
      | inl p ↦ elim (in_parts r p) [
        | inl c ↦ elim (a.answered r c) [ inl k ↦ inl (kept_pending r k) | inr h ↦ inr h ]
        | inr c ↦ inl (rest_pending' r c)
      ]
      | inr h ↦ inr (a.still r.id h)
    ];
    apart = rw a.rest_pending (
        rw a.selected.1
          (Apart-select a.selected.0 chunk (drop (length chunk) s.pending) parts_differ));
    unanswered = λ r m h. elim (a.only r.id h) [
      | inl k ↦ b.unanswered r (was_pending r m) k
      | inr (x, n, e, out) ↦ other_answered r x m n e out
    ];
    pending_only = λ r m. b.pending_only r (was_pending r m);
    answers_only = λ i h. elim (a.only i h) [
      | inl k ↦ b.answers_only i k
      | inr (x, n, e, _) ↦ (x, b.pending_only x (in_chunk x n), e)
    ];
  }

send-Between :
    (batch : List Request) (node : Node) (round : ℕ) (s s' : Sending)
    → send node round s ≡ again s'
    → Between batch s
    → Between batch s'
send-Between batch node round s s' h b = elim (send_cases node round s s' h) [
  | inl w ↦ Waits-Between batch s s' w b
  | inr a ↦
      Accepted-Between batch s s' (take s.limit s.pending)
        (take-append-drop-length s.limit s.pending) a b
]

-- What the batch has come to: all its requests answered, or some of them and the ones that failed.
abbrev Partial : List Request → Posted → Type 0
Partial batch (posted answers limit) =
    ((r : Request) → In r batch → has r.id answers ≡ true)
    × ((i : ℕ) → has i answers ≡ true → (r : Request) × In r batch × (r.id ≡ i))
Partial batch (rpc_error answers failed limit) =
    ((r : Request) → In r failed → In r batch × (has r.id answers ≡ false))
    × ((i : ℕ) → has i answers ≡ true → (r : Request) × In r batch × (r.id ≡ i))
Partial batch stuck = Unit

none-pending : (rs : List Request) (r : Request) → is_none_left rs ≡ true → In r rs → ⊥
none-pending [] r h m = m
none-pending (x ∷ rs) r h m = cc

posted-Partial :
    (batch : List Request) (s : Sending)
    → is_none_left s.pending ≡ true
    → Between batch s
    → Partial batch (posted s.answers s.limit)
posted-Partial batch s h b = (
  λ r m. elim (b.covered r m) [ inl p ↦ absurd (none-pending s.pending r h p) | inr e ↦ e ],
  b.answers_only,
)

rpc_error-Partial :
    (batch : List Request) (node : Node) (round : ℕ) (s : Sending) (failed : List Request)
    → send node round s ≡ raised failed
    → Between batch s
    → Partial batch (rpc_error s.answers failed s.limit)
rpc_error-Partial batch node round s failed h b = (
  λ r m.
      let n = sent r m in
      (
        b.pending_only r n,
        elim (Bool-cases (has r.id s.answers)) [ inl e ↦ absurd (b.unanswered r n e) | inr e ↦ e ],
      ),
  b.answers_only,
)
  where
    sent : (r : Request) → In r failed → In r s.pending
    sent r m = subst (In r) (take-append-drop s.limit s.pending) (
        In-append_left r (take s.limit s.pending) (drop s.limit s.pending)
          (subst (In r) (send-raised node round s failed h) m))

post_loop-Partial :
    (batch : List Request) (node : Node) (fuel round : ℕ) (s : Sending)
    → Between batch s
    → Partial batch (post_loop node fuel round s)
unfolding post_loop
post_loop-Partial batch node zero round s b = tt
post_loop-Partial batch node (suc fuel) round s b = elim (Bool-cases (is_none_left s.pending)) [
  | inl e ↦ rw e (posted-Partial batch s e b)
  | inr e ↦
      rw e (go (λ s'. post_loop-Partial batch node fuel (suc round) s') (send node round s) refl)
]
  where
    go :
        ((s' : Sending) → Between batch s' → Partial batch (post_loop node fuel (suc round) s'))
        → (pass : Pass) → send node round s ≡ pass
        → Partial batch (elim pass as (λ _. Posted) [
          | again s' ↦ post_loop node fuel (suc round) s'
          | raised chunk ↦ rpc_error s.answers chunk s.limit
        ])
    go ih (again s') h = ih s' (send-Between batch node round s s' h b)
    go ih (raised chunk) h = rpc_error-Partial batch node round s chunk h b

-- What the batch comes to.
abbrev pub Outcome : List Request → Posted → Type 0
Outcome batch (posted answers limit) = Partial batch (posted answers limit)
Outcome batch (rpc_error answers failed limit) = Partial batch (rpc_error answers failed limit)
Outcome batch stuck = ⊥

Partial-Outcome :
    (batch : List Request) (p : Posted) → (p ≡ stuck → ⊥) → Partial batch p → Outcome batch p
Partial-Outcome batch (posted answers limit) n h = h
Partial-Outcome batch (rpc_error answers failed limit) n h = h
Partial-Outcome batch stuck n h = n refl

-- `post_batch` of requests with different ids, under a positive limit and whatever the node answers,
-- ends: it returns an answer to each of them, or raises with a failed chunk of requests of the batch
-- of which none is among the answers it raises with. Either way it answers only requests of the batch.
pub post_batch-Outcome :
    (node : Node) (batch : List Request) (limit : ℕ)
    → 0 < limit
    → Apart batch
    → Outcome batch (post_batch node batch limit)
unfolding post_batch
post_batch-Outcome node batch limit l a =
    Partial-Outcome batch (post_batch node batch limit) (post_batch-ne-stuck node batch limit l) (
      post_loop-Partial batch node (5 * (length batch + limit) + 5) 0 (starting batch limit)
        (starting-Between batch limit a))
