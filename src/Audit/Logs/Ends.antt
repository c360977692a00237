-- ===== src/Audit/Logs/Ends.antt =====
-- audit.py: the loop of `get_logs` ends. Every pass takes weight from the queue, where the node is
-- steady and a failed batch has answered none of its own requests.
use josuke.Prelude.{
  ℕ, zero, suc, ◌+◌, ◌-◌, ◌*◌, ◌≤◌, ◌<◌, ◌≡◌, ◌≢◌, refl, subst, ◌⊎◌, inl, inr, Bool, true, false,
  not, ◌&&◌, ◌||◌, Option, none, some, List, [], ◌∷◌, ◌++◌, arith, ltb, leb, if◌then◌else◌,
  Bool-cases, if_cases, All, All-append, length, length-append,
}
use josuke.Audit.Scan.{
  Scan, ok, err, stuck, rpc_error, block_error, ok_injective, ◌>>=◌, >>=-eq-ok, >>=-ne-stuck,
  ok-ne-stuck,
}
use josuke.Audit.Ranges.{Window, weight, weight-Tiles}
use josuke.Audit.Merge.{window_le}
use josuke.Audit.Narrow.{NodeError, narrow, narrow-Splits, narrow-ne-stuck}
use josuke.Audit.Search.{history_start, history_start_range, history_start-ne-stuck}
use josuke.Audit.Logs.{
  Answer, logs, malformed, error, Reply, answered, failed, Probe, fine, refused, unreachable, Node,
  holds_probe, holds, Round, push_retry, take_answer, take_answers, mem_nat, failed_or_first,
  all_single, no_message, opened, read_reply, Log, Lacking, is_start, start_windows, max_window,
  min_start, State, split_start, seek_start, scan_round, is_empty, scan_loop, initial, get_logs,
}
use josuke.Audit.Logs.Rounds.{
  Proper, lacking_windows, lacking_windows-append, Step, CompleteAnswer, CompleteAnswers,
  CompleteReply, read_reply-Step,
}
use josuke.Audit.Logs.Coverage.{Inv, scan_round-Inv}

if-ne-stuck {ℓ} :
    {A : Type ℓ} (b : Bool) (x y : Scan A) → x ≢ stuck → y ≢ stuck → (if b then x else y) ≢ stuck
if-ne-stuck true x y p q = p
if-ne-stuck false x y p q = q

weight-append : (xs ys : List Window) → weight (xs ++ ys) ≡ weight xs + weight ys
weight-append [] ys = omega arith
weight-append ((a, b) ∷ xs) ys = omega (arith, weight-append xs ys)

abbrev bulk : Round → ℕ
bulk r = weight r.retry + weight (lacking_windows r.lacking)

-- One for a window that a round answers or narrows, none for one that waits as it is.
abbrev gain : Bool → ℕ → ℕ → Option Answer → ℕ
gain unanswered a b none = if unanswered && ltb a b then 1 else 0
gain unanswered a b (some o) = 1

abbrev gains : List ℕ → (ℕ → Option Answer) → ℕ → List Window → ℕ
gains ids answers i [] = 0
gains ids answers i ((a, b) ∷ queue) =
    gain (mem_nat i ids) a b (answers i) + gains ids answers (suc i) queue

-- What the node lacks can be narrowed, or a probe of its last block does not say that it is held.
abbrev Steady : (ℕ → Scan Bool) → Window → Type 0
Steady probe (a, b) = (a < b) ⊎ (probe b ≢ ok true)

abbrev pub SteadyAnswer : (ℕ → Scan Bool) → ℕ → ℕ → Option Answer → Type 0
SteadyAnswer probe a b (some (error e)) = e.missing_history ≡ true → Steady probe (a, b)
SteadyAnswer probe a b o = Unit {0}

-- What an answer to one window takes from the weight of the round.
record Shrinks (probe : ℕ → Scan Bool) (took size : ℕ) (r r' : Round) : Type 0 where
  less : bulk r' + took + length r.lacking ≤ bulk r + size + length r'.lacking
  steady :
      All (Steady probe) (lacking_windows r.lacking)
      → All (Steady probe) (lacking_windows r'.lacking)

module _ (probe : ℕ → Scan Bool) where
  narrow-Shrinks :
      (e : NodeError) (a b : ℕ) (r r' : Round)
      → a ≤ b
      → (narrow e a b >>= λ ws. ok (push_retry r ws)) ≡ ok r'
      → Shrinks probe 1 (weight ((a, b) ∷ [])) r r'
  narrow-Shrinks e a b r r' le h =
      let (ws, p, q) = >>=-eq-ok (narrow e a b) (λ ws. ok (push_retry r ws)) h in
      let (tiles, two) = narrow-Splits e a b le p in
      subst (Shrinks probe 1 (weight ((a, b) ∷ [])) r) (ok_injective q) (record {
        less = omega (arith, weight-append r.retry ws, weight-Tiles a b ws tiles, two);
        steady = λ s. s;
      })

  wait-Shrinks :
      (a b : ℕ) (r : Round) → Shrinks probe 0 (weight ((a, b) ∷ [])) r (push_retry r ((a, b) ∷ []))
  wait-Shrinks a b r = record {
    less = omega (arith, weight-append r.retry ((a, b) ∷ []));
    steady = λ s. s;
  }

  take_answer-Shrinks :
      (timeout : NodeError) (u : Bool) (a b : ℕ) (o : Option Answer) (r r' : Round)
      → a ≤ b
      → SteadyAnswer probe a b o
      → take_answer timeout u a b o r ≡ ok r'
      → Shrinks probe (gain u a b o) (weight ((a, b) ∷ [])) r r'
  unfolding take_answer
  take_answer-Shrinks timeout u a b none r r' le c h = elim (Bool-cases (u && ltb a b)) [
    | inl t ↦ rw t (narrow-Shrinks timeout a b r r' le (rw t at h))
    | inr f ↦ rw f (
        subst (Shrinks probe 0 (weight ((a, b) ∷ [])) r) (ok_injective (rw f at h))
          (wait-Shrinks a b r))
  ]
  take_answer-Shrinks timeout u a b (some (logs ls)) r r' le c h =
      subst (Shrinks probe 1 (weight ((a, b) ∷ [])) r) (ok_injective h)
        (record { less = omega arith; steady = λ s. s })
  take_answer-Shrinks timeout u a b (some malformed) r r' le c h = cc
  take_answer-Shrinks timeout u a b (some (error e)) r r' le c h =
      elim (if_cases e.missing_history _ _ h) [
        | inl (t, q) ↦
            subst (Shrinks probe 1 (weight ((a, b) ∷ [])) r) (ok_injective q) (lacks (c t))
        | inr (_, q) ↦ narrow-Shrinks e a b r r' le q
      ]
    where
      lacks :
          Steady probe (a, b)
          → Shrinks probe 1
              (weight ((a, b) ∷ []))
              r
              (record r { lacking = r.lacking ++ ((a, b), e) ∷ [] })
      lacks s = record {
        less =
            rw (lacking_windows-append r.lacking (((a, b), e) ∷ []), weight-append)
              (omega (arith, length-append {0} r.lacking (((a, b), e) ∷ [])));
        steady = λ all.
            rw (lacking_windows-append r.lacking (((a, b), e) ∷ []))
              (All-append (Steady probe) (lacking_windows r.lacking) ((a, b) ∷ []) all (s, tt));
      }

  Shrinks-cons :
      (took took' size size' : ℕ) (r r' r'' : Round)
      → Shrinks probe took size r r'
      → Shrinks probe took' size' r' r''
      → Shrinks probe (took + took') (size + size') r r''
  Shrinks-cons took took' size size' r r' r'' s t = record {
    less = omega (arith, s.less, t.less);
    steady = λ p. t.steady (s.steady p);
  }

  abbrev pub SteadyAnswers : (ℕ → Option Answer) → ℕ → List Window → Type 0
  SteadyAnswers answers i [] = Unit {0}
  SteadyAnswers answers i ((a, b) ∷ queue) =
      SteadyAnswer probe a b (answers i) × SteadyAnswers answers (suc i) queue

  weight-cons :
      (a b : ℕ) (ws : List Window) → weight ((a, b) ∷ []) + weight ws ≡ weight ((a, b) ∷ ws)
  weight-cons a b ws = omega arith

  take_answers-Shrinks :
      (timeout : NodeError) (ids : List ℕ) (answers : ℕ → Option Answer) (i : ℕ)
      (queue : List Window) (r r' : Round)
      → All Proper queue
      → SteadyAnswers answers i queue
      → take_answers timeout ids answers i queue r ≡ ok r'
      → Shrinks probe (gains ids answers i queue) (weight queue) r r'
  unfolding take_answers
  take_answers-Shrinks timeout ids answers i [] r r' p c h =
      subst (Shrinks probe 0 0 r) (ok_injective h) (record { less = omega arith; steady = λ s. s })
  take_answers-Shrinks timeout ids answers i ((a, b) ∷ queue) r r'' p c h =
      let (r', q, t) = >>=-eq-ok (take_answer timeout (mem_nat i ids) a b (answers i) r) _ h in
      subst (λ w. Shrinks probe (gains ids answers i ((a, b) ∷ queue)) w r r'')
        (weight-cons a b queue)
        (Shrinks-cons (gain (mem_nat i ids) a b (answers i)) (gains ids answers (suc i) queue)
          (weight ((a, b) ∷ [])) (weight queue) r r' r''
          (take_answer-Shrinks timeout (mem_nat i ids) a b (answers i) r r' p.0 c.0 q)
          (take_answers-Shrinks timeout ids answers (suc i) queue r' r'' p.1 c.1 t))

-- A failed batch has answered none of its own requests.
abbrev pub Unanswered : List ℕ → (ℕ → Option Answer) → Type 0
Unanswered ids answers = (i : ℕ) → mem_nat i ids ≡ true → answers i ≡ none

gains_failed :
    (ids : List ℕ) (answers : ℕ → Option Answer) (i : ℕ) (queue : List Window)
    → All Proper queue
    → Unanswered ids answers
    → all_single ids i queue ≡ false
    → 0 < gains ids answers i queue
unfolding all_single
gains_failed ids answers i [] p u h = cc
gains_failed ids answers i ((a, b) ∷ queue) p u h = elim (Bool-cases (mem_nat i ids)) [
  | inl m ↦ ground (arith, u i m, gains_failed ids answers (suc i) queue p.1 u)
  | inr n ↦ ground (arith, gains_failed ids answers (suc i) queue p.1 u)
]

gains_answered :
    (answers : ℕ → Answer) (i : ℕ) (queue : List Window)
    → gains [] (λ j. some (answers j)) i queue ≡ length queue
gains_answered answers i [] = refl
gains_answered answers i ((a, b) ∷ queue) = omega (arith, gains_answered answers (suc i) queue)

-- The contract of a reply: a node that lacks a window says so again of its last block alone, and
-- a failed batch has answered none of its own requests.
abbrev pub SteadyReply : (ℕ → Scan Bool) → Reply → List Window → Type 0
SteadyReply probe (answered answers) queue = SteadyAnswers probe (λ i. some (answers i)) 0 queue
SteadyReply probe (failed narrowable message ids answers) queue =
    SteadyAnswers probe answers 0 queue × Unanswered (failed_or_first ids) answers

-- A pass that goes on has answered or narrowed a window.
record Advances (probe : ℕ → Scan Bool) (queue : List Window) (r : Round) : Type 0 where
  less : bulk r < weight queue + length r.lacking
  steady : All (Steady probe) (lacking_windows r.lacking)

read_reply-Advances :
    (probe : ℕ → Scan Bool) (reply : Reply) (queue : List Window) (s : State) (r : Round)
    → 0 < length queue
    → All Proper queue
    → SteadyReply probe reply queue
    → read_reply reply queue s.found s.first_held ≡ ok r
    → Advances probe queue r
unfolding read_reply
read_reply-Advances probe (answered answers) queue s r n p c h =
    let sh =
      take_answers-Shrinks probe no_message [] (λ i. some (answers i)) 0 queue
        (opened s.found s.first_held) r p c h in
    record { less = omega (arith, sh.less, gains_answered answers 0 queue); steady = sh.steady tt }
read_reply-Advances probe (failed narrowable message ids answers) queue s r n p c h =
    elim (if_cases (not narrowable || all_single (failed_or_first ids) 0 queue) (err rpc_error) _
      h) [
        | inl (_, never) ↦ cc
        | inr (more, q) ↦
            let sh =
              take_answers-Shrinks probe message (failed_or_first ids) answers 0 queue
                (opened s.found s.first_held) r p c.0 q in
            record {
              less = omega (
                arith,
                sh.less,
                gains_failed (failed_or_first ids) answers 0 queue p c.1 (ground arith),
              );
              steady = sh.steady tt;
            }
      ]

start_windows-weight :
    (held : Option ℕ) (ws : List Lacking)
    → weight (lacking_windows (start_windows held ws)) + length ws
      ≤ weight (lacking_windows ws) + length (start_windows held ws)
unfolding start_windows
start_windows-weight held [] = omega arith
start_windows-weight held (((a, b), e) ∷ ws) = elim (Bool-cases (is_start held ((a, b), e))) [
  | inl t ↦ rw t (omega (arith, start_windows-weight held ws))
  | inr f ↦ rw f (omega (arith, start_windows-weight held ws))
]

start_windows-All :
    (P : Window → Type 0) (held : Option ℕ) (ws : List Lacking)
    → All P (lacking_windows ws)
    → All P (lacking_windows (start_windows held ws))
unfolding start_windows
start_windows-All P held [] p = tt
start_windows-All P held ((w, e) ∷ ws) p = elim (Bool-cases (is_start held (w, e))) [
  | inl t ↦ rw t (p.0, start_windows-All P held ws p.1)
  | inr f ↦ rw f (start_windows-All P held ws p.1)
]

max_window-weight :
    (best : Lacking) (ws : List Lacking)
    → weight ((max_window best ws).0 ∷ []) + length ws ≤ weight (lacking_windows (best ∷ ws))
unfolding max_window
max_window-weight ((a, b), e) [] = omega arith
max_window-weight ((a, b), e) (((c, d), e') ∷ ws) = elim (Bool-cases (window_le (c, d) (a, b))) [
  | inl t ↦ rw (t, max_window) (omega (arith, max_window-weight ((a, b), e) ws))
  | inr f ↦ rw (f, max_window) (omega (arith, max_window-weight ((c, d), e') ws))
]

max_window-All :
    (P : Window → Type 0) (best : Lacking) (ws : List Lacking)
    → All P (lacking_windows (best ∷ ws))
    → P (max_window best ws).0
unfolding max_window
max_window-All P (v, e) [] p = p.0
max_window-All P (v, e) ((w, e') ∷ ws) p = elim (Bool-cases (window_le w v)) [
  | inl t ↦ rw (t, max_window) (max_window-All P (v, e) ws (p.0, p.1.1))
  | inr f ↦ rw (f, max_window) (max_window-All P (w, e') ws p.1)
]

split_start-weight :
    (least start a b : ℕ)
    → a < start
    → weight (split_start least start (a, b)).1 < weight ((a, b) ∷ [])
split_start-weight least start a b h = elim (Bool-cases (leb start b)) [
  | inl t ↦ rw t (ground arith)
  | inr f ↦ rw f (omega arith)
]

-- The window to send again is lighter than the windows of the missing start.
seek_start-weight :
    (node : Node) (round : ℕ) (ws : List Lacking) (sought : List Window × List Window)
    → All Proper (lacking_windows ws)
    → All (Steady (holds node round)) (lacking_windows ws)
    → seek_start node round ws ≡ ok sought
    → weight sought.1 + length ws ≤ weight (lacking_windows ws)
unfolding seek_start
seek_start-weight node round [] sought p s h =
    subst (λ (t : List Window × List Window). weight t.1 + 0 ≤ 0) (ok_injective h) (omega arith)
seek_start-weight node round (v ∷ ws) sought p s h =
    let top : Lacking = max_window v ws in
    let (start, q, t) = >>=-eq-ok (history_start (holds node round) top.1 top.0.0 top.0.1) _ h in
    let past : top.0.0 < start =
      (history_start_range (holds node round) top.1 top.0.0 top.0.1 start
          (max_window-All Proper v ws p) q).2
        (max_window-All (Steady (holds node round)) v ws s) in
    subst
      (λ (u : List Window × List Window).
        weight u.1 + suc (length ws) ≤ weight (lacking_windows (v ∷ ws)))
      (ok_injective t)
      (omega (
        arith,
        split_start-weight (min_start v.0.0 ws) start top.0.0 top.0.1 past,
        max_window-weight v ws,
      ))

holds-ne-stuck : (node : Node) (round block : ℕ) → holds node round block ≢ stuck
unfolding holds_probe
holds-ne-stuck node round block = go (node.probe round block)
  where
    go : (o : Probe) → holds_probe o block ≢ stuck
    go fine = ok-ne-stuck true
    go unreachable = λ p. cc
    go (refused e) =
        if-ne-stuck e.missing_history (ok false) (err (block_error block)) (ok-ne-stuck false)
          (λ p. cc)

push-ne-stuck :
    (e : NodeError) (a b : ℕ) (r : Round)
    → a ≤ b
    → (narrow e a b >>= λ ws. ok (push_retry r ws)) ≢ stuck
push-ne-stuck e a b r le =
    >>=-ne-stuck (narrow e a b) _ (narrow-ne-stuck e a b le) (λ ws _. ok-ne-stuck (push_retry r ws))

take_answer-ne-stuck :
    (timeout : NodeError) (u : Bool) (a b : ℕ) (o : Option Answer) (r : Round)
    → a ≤ b
    → take_answer timeout u a b o r ≢ stuck
unfolding take_answer
take_answer-ne-stuck timeout u a b none r le =
    if-ne-stuck (u && ltb a b) _ _ (push-ne-stuck timeout a b r le) (ok-ne-stuck _)
take_answer-ne-stuck timeout u a b (some (logs ls)) r le = ok-ne-stuck _
take_answer-ne-stuck timeout u a b (some malformed) r le = λ p. cc
take_answer-ne-stuck timeout u a b (some (error e)) r le =
    if-ne-stuck e.missing_history _ _ (ok-ne-stuck _) (push-ne-stuck e a b r le)

take_answers-ne-stuck :
    (timeout : NodeError) (ids : List ℕ) (answers : ℕ → Option Answer) (i : ℕ) (queue : List Window)
    (r : Round)
    → All Proper queue
    → take_answers timeout ids answers i queue r ≢ stuck
unfolding take_answers
take_answers-ne-stuck timeout ids answers i [] r p = ok-ne-stuck r
take_answers-ne-stuck timeout ids answers i ((a, b) ∷ queue) r p =
    >>=-ne-stuck (take_answer timeout (mem_nat i ids) a b (answers i) r) _
      (take_answer-ne-stuck timeout (mem_nat i ids) a b (answers i) r p.0)
      (λ r' _. take_answers-ne-stuck timeout ids answers (suc i) queue r' p.1)

read_reply-ne-stuck :
    (reply : Reply) (queue : List Window) (found : List Log) (held : Option ℕ)
    → All Proper queue
    → read_reply reply queue found held ≢ stuck
unfolding read_reply
read_reply-ne-stuck (answered answers) queue found held p =
    take_answers-ne-stuck no_message [] (λ i. some (answers i)) 0 queue (opened found held) p
read_reply-ne-stuck (failed narrowable message ids answers) queue found held p =
    if-ne-stuck (not narrowable || all_single (failed_or_first ids) 0 queue) (err rpc_error) _
      (λ e. cc)
      (take_answers-ne-stuck message (failed_or_first ids) answers 0 queue (opened found held) p)

seek_start-ne-stuck :
    (node : Node) (round : ℕ) (ws : List Lacking) → seek_start node round ws ≢ stuck
unfolding seek_start
seek_start-ne-stuck node round [] = ok-ne-stuck _
seek_start-ne-stuck node round (v ∷ ws) =
    let top : Lacking = max_window v ws in
    >>=-ne-stuck (history_start (holds node round) top.1 top.0.0 top.0.1) _
      (history_start-ne-stuck (holds node round) top.1 top.0.0 top.0.1 (holds-ne-stuck node round))
      (λ start _. ok-ne-stuck _)

scan_round-ne-stuck :
    (node : Node) (round : ℕ) (s : State) → All Proper s.queue → scan_round node round s ≢ stuck
unfolding scan_round
scan_round-ne-stuck node round s p =
    >>=-ne-stuck (read_reply (node.reply round s.queue) s.queue s.found s.first_held) _
      (read_reply-ne-stuck (node.reply round s.queue) s.queue s.found s.first_held p)
      (λ r _.
        >>=-ne-stuck (seek_start node round (start_windows r.first_held r.lacking)) _
          (seek_start-ne-stuck node round (start_windows r.first_held r.lacking))
          (λ sought _. ok-ne-stuck _))

silent-CompleteAnswers :
    (answers : ℕ → Option Answer) (i : ℕ) (queue : List Window)
    → CompleteAnswers (λ x. ⊥) answers i queue
silent-CompleteAnswers answers i [] = tt
silent-CompleteAnswers answers i ((a, b) ∷ queue) =
    (one (answers i), silent-CompleteAnswers answers (suc i) queue)
  where
    one : (o : Option Answer) → CompleteAnswer (λ x. ⊥) a b o
    one none = tt
    one (some (logs ls)) = λ x em. absurd em
    one (some malformed) = tt
    one (some (error e)) = tt

-- Where no log is emitted, any answer is complete.
silent-CompleteReply : (reply : Reply) (queue : List Window) → CompleteReply (λ x. ⊥) reply queue
silent-CompleteReply (answered answers) queue =
    silent-CompleteAnswers (λ i. some (answers i)) 0 queue
silent-CompleteReply (failed narrowable message ids answers) queue =
    silent-CompleteAnswers answers 0 queue

-- A pass makes the queue lighter.
scan_round-weight :
    (node : Node) (round : ℕ) (s s' : State)
    → All Proper s.queue
    → 0 < length s.queue
    → SteadyReply (holds node round) (node.reply round s.queue) s.queue
    → scan_round node round s ≡ ok s'
    → weight s'.queue < weight s.queue
unfolding scan_round
scan_round-weight node round s s' p more steady h =
    let (r, a, t) =
      >>=-eq-ok (read_reply (node.reply round s.queue) s.queue s.found s.first_held) _ h in
    let (sought, b, u) =
      >>=-eq-ok (seek_start node round (start_windows r.first_held r.lacking)) _ t in
    subst (λ (v : State). weight v.queue < weight s.queue) (ok_injective u)
      (lighter r sought
        (read_reply-Advances (holds node round) (node.reply round s.queue) s.queue s r more p steady
          a)
        (read_reply-Step (λ x. ⊥) (node.reply round s.queue) s.queue s.found s.first_held r p
          (silent-CompleteReply (node.reply round s.queue) s.queue) a)
        b)
  where
    lighter :
        (r : Round) (sought : List Window × List Window)
        → Advances (holds node round) s.queue r
        → Step (λ x. ⊥) s.queue (opened s.found s.first_held) r
        → seek_start node round (start_windows r.first_held r.lacking) ≡ ok sought
        → weight (r.retry ++ sought.1) < weight s.queue
    lighter r sought adv step b = omega (
      arith,
      weight-append r.retry sought.1,
      adv.less,
      start_windows-weight r.first_held r.lacking,
      seek_start-weight node round (start_windows r.first_held r.lacking) sought
          (start_windows-All Proper r.first_held r.lacking (step.proper p (tt, tt)).1)
          (start_windows-All (Steady (holds node round)) r.first_held r.lacking adv.steady) b,
    )

module _ (node : Node)
    (steady : (round : ℕ) (queue : List Window)
      → SteadyReply (holds node round) (node.reply round queue) queue) where
  scan_loop-ne-stuck :
      (fuel round : ℕ) (s : State)
      → Inv (λ x. ⊥) 0 0 s
      → weight s.queue < fuel
      → scan_loop node fuel round s ≢ stuck
  unfolding scan_loop
  scan_loop-ne-stuck zero round s inv h = absurd (omega arith)
  scan_loop-ne-stuck (suc fuel) round s inv h = split (is_empty s.queue) refl (λ s' a n.
      scan_loop-ne-stuck fuel (suc round) s'
        (scan_round-Inv (λ x. ⊥) 0 0 node round s s'
          (λ queue. silent-CompleteReply (node.reply round queue) queue) inv a)
        (omega (
          arith,
          scan_round-weight node round s s' inv.proper (nonempty s.queue n) (steady round s.queue)
              a,
        )))
    where
      nonempty : (ws : List Window) → is_empty ws ≡ false → 0 < length ws
      nonempty [] e = cc
      nonempty (w ∷ ws) e = omega arith

      split :
          (b : Bool)
          → is_empty s.queue ≡ b
          → ((s' : State)
              → scan_round node round s ≡ ok s'
              → is_empty s.queue ≡ false
              → scan_loop node fuel (suc round) s' ≢ stuck)
          → (if b
              then ok s
              else (scan_round node round s >>= λ s'. scan_loop node fuel (suc round) s'))
            ≢ stuck
      split true e k = ok-ne-stuck s
      split false e k =
          >>=-ne-stuck (scan_round node round s) _ (scan_round-ne-stuck node round s inv.proper)
            (λ s' a. k s' a e)

  -- The scan of a range that is not empty ends: it returns its logs and missing ranges, or raises;
  -- where a node that lacks a window says so again of its last block alone, and a failed batch has
  -- answered none of its own requests.
  pub get_logs-ne-stuck :
      (from_block to_block : ℕ) → from_block ≤ to_block → get_logs node from_block to_block ≢ stuck
  unfolding get_logs
  get_logs-ne-stuck from_block to_block h =
      >>=-ne-stuck
        (scan_loop node (2 * (to_block - from_block) + 2) 0 (initial from_block to_block)) _
        (scan_loop-ne-stuck (2 * (to_block - from_block) + 2) 0 (initial from_block to_block)
          (record {
            proper = (h, tt);
            disjoint = λ block. ground arith;
            accounted = λ x em. absurd em;
          })
          (omega arith))
        (λ s _. ok-ne-stuck _)
