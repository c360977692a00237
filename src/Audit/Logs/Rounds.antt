-- ===== src/Audit/Logs/Rounds.antt =====
-- audit.py: what one pass of the loop of `get_logs` keeps of the queue's blocks.
use josuke.Prelude.{
  ℕ, suc, ◌+◌, ◌≤◌, ◌<◌, ◌≡◌, refl, subst, ◌⊎◌, inl, inr, Bool, not, ◌&&◌, ◌||◌, Option, none, some,
  List, [], ◌∷◌, ◌++◌, arith, ltb, leb, Bool-cases, In, In-append_left, In-append_right, All,
  All-append, inr_map, if_cases,
}
use josuke.Audit.Scan.{ok, err, rpc_error, ok_injective, ◌>>=◌, >>=-eq-ok}
use josuke.Audit.Ranges.{Window, times, times-Tiles, Tiles-Proper}
use josuke.Audit.Narrow.{NodeError, narrow, narrow-Splits}
use josuke.Audit.Logs.{
  Log, Answer, logs, malformed, error, Reply, answered, failed, Round, push_retry, take_answer,
  lower, take_answers, mem_nat, Lacking, read_reply, opened, failed_or_first, all_single,
  no_message, no_message,
}

abbrev pub Proper : Window → Type 0
Proper (a, b) = a ≤ b

abbrev pub lacking_windows : List Lacking → List Window
lacking_windows [] = []
lacking_windows ((w, e) ∷ ws) = w ∷ lacking_windows ws

pub times-append :
    (block : ℕ) (xs ys : List Window) → times block (xs ++ ys) ≡ times block xs + times block ys
times-append block [] ys = omega arith
times-append block ((a, b) ∷ xs) ys = omega (arith, times-append block xs ys)

pub lacking_windows-append :
    (xs ys : List Lacking) → lacking_windows (xs ++ ys) ≡ lacking_windows xs ++ lacking_windows ys
lacking_windows-append [] ys = refl
lacking_windows-append ((w, e) ∷ xs) ys = cc (lacking_windows-append xs ys)

-- How many of the windows that a round has collected hold the block.
abbrev pub load : ℕ → Round → ℕ
load block r = times block r.retry + times block (lacking_windows r.lacking)

abbrev pub AllProper : Round → Type 0
AllProper r = All Proper r.retry × All Proper (lacking_windows r.lacking)

-- What one window adds to a round: no block stands in more windows than before, every log that was
-- found or is still to be scanned is found or still to be scanned, and no window is empty.
pub record Step (Emitted : Log → Type 0) (ws : List Window) (r r' : Round) : Type 0 where
  pub no_more : (block : ℕ) → load block r' ≤ times block ws + load block r
  pub kept :
      (x : Log)
      → Emitted x
      → In x r.found ⊎ (0 < times x.block ws + load x.block r)
      → In x r'.found ⊎ (0 < load x.block r')
  pub proper : All Proper ws → AllProper r → AllProper r'

pub window_or_load :
    (block a b n : ℕ) → 0 < times block ((a, b) ∷ []) + n → ((a ≤ block) × (block ≤ b)) ⊎ (0 < n)
window_or_load block a b n h = elim (Bool-cases (leb a block && leb block b)) [
  | inl t ↦ inl (ground arith, ground arith)
  | inr f ↦ inr (ground arith)
]

pub first_or_second : (m n : ℕ) → 0 < m + n → (0 < m) ⊎ (0 < n)
first_or_second m n h = omega arith

module _ (Emitted : Log → Type 0) where
  -- The windows that take the place of `(a, b)` hold its blocks, each once.
  push_retry-Step :
      (a b : ℕ) (ws : List Window) (r : Round)
      → ((block : ℕ) → times block ws ≡ times block ((a, b) ∷ []))
      → (a ≤ b → All Proper ws)
      → Step Emitted ((a, b) ∷ []) r (push_retry r ws)
  push_retry-Step a b ws r same proper = record {
    no_more = λ block. omega (arith, same block, times-append block r.retry ws);
    kept = λ x em. inr_map (λ h. omega (arith, same x.block, times-append x.block r.retry ws));
    proper = λ p q. (All-append Proper r.retry ws q.0 (proper p.0), q.1);
  }

  narrow-Step :
      (e : NodeError) (a b : ℕ) (r r' : Round)
      → a ≤ b
      → (narrow e a b >>= λ ws. ok (push_retry r ws)) ≡ ok r'
      → Step Emitted ((a, b) ∷ []) r r'
  narrow-Step e a b r r' le h =
      let (ws, p, q) = >>=-eq-ok (narrow e a b) (λ ws. ok (push_retry r ws)) h in
      let tiles = (narrow-Splits e a b le p).0 in
      subst (Step Emitted ((a, b) ∷ []) r) (ok_injective q) (
        push_retry-Step a b ws r (λ block. omega (arith, times-Tiles block a b ws tiles))
          (λ _. Tiles-Proper a b ws tiles))

  -- What an answer to the window `(a, b)` must hold: the logs of its blocks.
  abbrev pub CompleteAnswer : ℕ → ℕ → Option Answer → Type 0
  CompleteAnswer a b (some (logs ls)) = (x : Log) → Emitted x → a ≤ x.block → x.block ≤ b → In x ls
  CompleteAnswer a b o = Unit {0}

  logs-Step :
      (a b : ℕ) (ls : List Log) (r : Round)
      → CompleteAnswer a b (some (logs ls))
      → Step Emitted
          ((a, b) ∷ [])
          r
          (record r { found = r.found ++ ls; first_held = lower r.first_held a })
  logs-Step a b ls r complete = record {
    no_more = λ block. omega arith;
    kept = λ x em. elim [
      | inl i ↦ inl (In-append_left x r.found ls i)
      | inr h ↦ elim (window_or_load x.block a b (load x.block r) h) [
        | inl w ↦ inl (In-append_right x r.found ls (complete x em w.0 w.1))
        | inr l ↦ inr l
      ]
    ];
    proper = λ p q. q;
  }

  lacking-Step :
      (a b : ℕ) (e : NodeError) (r : Round)
      → Step Emitted ((a, b) ∷ []) r (record r { lacking = r.lacking ++ ((a, b), e) ∷ [] })
  lacking-Step a b e r = record {
    no_more = λ block.
        rw (lacking_windows-append r.lacking (((a, b), e) ∷ []), times-append) (omega arith);
    kept = λ x em.
        inr_map (λ h.
          rw (lacking_windows-append r.lacking (((a, b), e) ∷ []), times-append) (omega arith));
    proper = λ p q. (
      q.0,
      rw (lacking_windows-append r.lacking (((a, b), e) ∷ []))
          (All-append Proper (lacking_windows r.lacking) ((a, b) ∷ []) q.1 p),
    );
  }

  take_answer-Step :
      (timeout : NodeError) (unanswered : Bool) (a b : ℕ) (o : Option Answer) (r r' : Round)
      → a ≤ b
      → CompleteAnswer a b o
      → take_answer timeout unanswered a b o r ≡ ok r'
      → Step Emitted ((a, b) ∷ []) r r'
  unfolding take_answer
  take_answer-Step timeout u a b none r r' le c h = elim (Bool-cases (u && ltb a b)) [
    | inl t ↦ narrow-Step timeout a b r r' le (rw t at h)
    | inr f ↦
        subst (Step Emitted ((a, b) ∷ []) r) (ok_injective (rw f at h))
          (push_retry-Step a b ((a, b) ∷ []) r (λ block. refl) (λ p. (p, tt)))
  ]
  take_answer-Step timeout u a b (some (logs ls)) r r' le c h =
      subst (Step Emitted ((a, b) ∷ []) r) (ok_injective h) (logs-Step a b ls r c)
  take_answer-Step timeout u a b (some malformed) r r' le c h = cc
  take_answer-Step timeout u a b (some (error e)) r r' le c h =
      elim (if_cases e.missing_history _ _ h) [
        | inl (_, q) ↦ subst (Step Emitted ((a, b) ∷ []) r) (ok_injective q) (lacking-Step a b e r)
        | inr (_, q) ↦ narrow-Step e a b r r' le q
      ]

  Step-cons :
      (a b : ℕ) (queue : List Window) (r r' r'' : Round)
      → Step Emitted ((a, b) ∷ []) r r'
      → Step Emitted queue r' r''
      → Step Emitted ((a, b) ∷ queue) r r''
  Step-cons a b queue r r' r'' s t = record {
    no_more = λ block. omega (arith, s.no_more block, t.no_more block);
    kept = λ x em. elim [
      | inl i ↦ t.kept x em (inr_map (λ l. omega arith) (s.kept x em (inl i)))
      | inr h ↦
          elim (window_or_load x.block a b (times x.block queue + load x.block r) (omega arith)) [
            | inl w ↦ t.kept x em (inr_map (λ l. omega arith) (s.kept x em (inr (ground arith))))
            | inr l ↦ elim (first_or_second (times x.block queue) (load x.block r) l) [
              | inl p ↦ t.kept x em (inr (omega arith))
              | inr p ↦ t.kept x em (inr_map (λ l. omega arith) (s.kept x em (inr (omega arith))))
            ]
          ]
    ];
    proper = λ p q. t.proper p.1 (s.proper (p.0, tt) q);
  }

  nothing-Step : (r : Round) → Step Emitted [] r r
  nothing-Step r = record {
    no_more = λ block. omega arith;
    kept = λ x em. inr_map (λ h. omega arith);
    proper = λ p q. q;
  }

  -- The answers, from position `i` on, hold the logs of their windows.
  abbrev pub CompleteAnswers : (ℕ → Option Answer) → ℕ → List Window → Type 0
  CompleteAnswers answers i [] = Unit {0}
  CompleteAnswers answers i ((a, b) ∷ queue) =
      CompleteAnswer a b (answers i) × CompleteAnswers answers (suc i) queue

  pub take_answers-Step :
      (timeout : NodeError) (ids : List ℕ) (answers : ℕ → Option Answer) (i : ℕ)
      (queue : List Window) (r r' : Round)
      → All Proper queue
      → CompleteAnswers answers i queue
      → take_answers timeout ids answers i queue r ≡ ok r'
      → Step Emitted queue r r'
  unfolding take_answers
  take_answers-Step timeout ids answers i [] r r' p c h =
      subst (Step Emitted [] r) (ok_injective h) (nothing-Step r)
  take_answers-Step timeout ids answers i ((a, b) ∷ queue) r r'' p c h =
      let (r', q, t) = >>=-eq-ok (take_answer timeout (mem_nat i ids) a b (answers i) r) _ h in
      Step-cons a b queue r r' r''
        (take_answer-Step timeout (mem_nat i ids) a b (answers i) r r' p.0 c.0 q)
        (take_answers-Step timeout ids answers (suc i) queue r' r'' p.1 c.1 t)

  -- The reply holds the logs of every window that it answers.
  abbrev pub CompleteReply : Reply → List Window → Type 0
  CompleteReply (answered answers) queue = CompleteAnswers (λ i. some (answers i)) 0 queue
  CompleteReply (failed narrowable message ids answers) queue = CompleteAnswers answers 0 queue

  pub read_reply-Step :
      (reply : Reply) (queue : List Window) (found : List Log) (first_held : Option ℕ) (r : Round)
      → All Proper queue
      → CompleteReply reply queue
      → read_reply reply queue found first_held ≡ ok r
      → Step Emitted queue (opened found first_held) r
  unfolding read_reply
  read_reply-Step (answered answers) queue found first_held r p c h =
      take_answers-Step no_message [] (λ i. some (answers i)) 0 queue (opened found first_held) r p
        c h
  read_reply-Step (failed narrowable message ids answers) queue found first_held r p c h =
      elim (if_cases (not narrowable || all_single (failed_or_first ids) 0 queue) (err rpc_error) _
        h) [
          | inl (_, never) ↦ cc
          | inr (_, q) ↦
              take_answers-Step message (failed_or_first ids) answers 0 queue
                (opened found first_held) r p c q
        ]
