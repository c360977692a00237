-- ===== src/Audit/Logs/Coverage.antt =====
-- audit.py: `get_logs` accounts for every block of its range.
use josuke.Prelude.{
  ℕ, zero, suc, ◌+◌, ◌-◌, ◌*◌, ◌≤◌, ◌<◌, ◌≡◌, refl, subst, ◌⊎◌, inl, inr, List, [], ◌∷◌, ◌++◌,
  arith, In, All, All-append, if_cases, true, ap,
}
use josuke.Prelude.Sort.{In-sort_by}
use josuke.Audit.Scan.{ok, ok_injective, >>=-eq-ok}
use josuke.Audit.Ranges.{Window, times, InRanges}
use josuke.Audit.Merge.{merged-InRanges}
use josuke.Audit.Logs.{
  Log, Node, Round, State, opened, read_reply, seek_start, start_windows, gaps, scan_round,
  scan_loop, get_logs, log_le, is_empty, initial,
}
use josuke.Audit.Logs.Rounds.{
  Proper, lacking_windows, times-append, load, Step, CompleteReply, read_reply-Step,
  first_or_second, window_or_load,
}
use josuke.Audit.Logs.Starts.{
  Disjoint, Sought, seek_start-Sought, times-start_windows, start_windows-Proper,
}

InRanges-append_left :
    (block : ℕ) (xs ys : List Window) → InRanges block xs → InRanges block (xs ++ ys)
InRanges-append_left block [] ys h = absurd h
InRanges-append_left block (x ∷ xs) ys (inl h) = inl h
InRanges-append_left block (x ∷ xs) ys (inr h) = inr (InRanges-append_left block xs ys h)

InRanges-append_right :
    (block : ℕ) (xs ys : List Window) → InRanges block ys → InRanges block (xs ++ ys)
InRanges-append_right block [] ys h = h
InRanges-append_right block (x ∷ xs) ys h = inr (InRanges-append_right block xs ys h)

InRanges-times : (block : ℕ) (ws : List Window) → 0 < times block ws → InRanges block ws
InRanges-times block [] h = absurd (omega arith)
InRanges-times block ((a, b) ∷ ws) h =
    elim (window_or_load block a b (times block ws) (omega arith)) [
      | inl w ↦ inl w
      | inr l ↦ inr (InRanges-times block ws l)
    ]

is_empty-nil : (ws : List Window) → is_empty ws ≡ true → ws ≡ []
is_empty-nil [] e = refl
is_empty-nil (w ∷ ws) e = cc

module _ (Emitted : Log → Type 0) (lo hi : ℕ) where
  -- Of every log of the range the block is scanned, missing, or still to be scanned, and no block
  -- is scanned twice.
  pub record Inv (s : State) : Type 0 where
    pub proper : All Proper s.queue
    pub disjoint : Disjoint s.queue
    pub accounted :
        (x : Log)
        → Emitted x
        → lo ≤ x.block
        → x.block ≤ hi
        → In x s.found ⊎ (InRanges x.block s.missing ⊎ (0 < times x.block s.queue))

  round-accounted :
      (x : Log) (s : State) (r : Round) (sought : List Window × List Window)
      → Sought (start_windows r.first_held r.lacking) sought
      → In x r.found ⊎ (0 < load x.block r)
      → In x r.found
        ⊎ (InRanges x.block (s.missing ++ gaps r.first_held r.lacking ++ sought.0)
            ⊎ (0 < times x.block (r.retry ++ sought.1)))
  round-accounted x s r sought look (inl i) = inl i
  round-accounted x s r sought look (inr l) =
      let together = times-append x.block r.retry sought.1 in
      let parts = times-start_windows x.block r.first_held r.lacking in
      let front : List Window = s.missing ++ gaps r.first_held r.lacking in
      elim (first_or_second (times x.block r.retry) (times x.block (lacking_windows r.lacking)) l) [
        | inl again ↦ inr (inr (omega arith))
        | inr lacks ↦
            elim (first_or_second
              (times x.block (lacking_windows (start_windows r.first_held r.lacking)))
              (times x.block (gaps r.first_held r.lacking)) (omega arith)) [
                | inl start ↦ elim (look.kept x.block start) [
                  | inl m ↦ inr (inl (InRanges-append_right x.block front sought.0 m))
                  | inr t ↦ inr (inr (omega arith))
                ]
                | inr gap ↦ inr (
                    inl (
                      InRanges-append_left x.block front sought.0 (
                        InRanges-append_right x.block s.missing (gaps r.first_held r.lacking)
                          (InRanges-times x.block (gaps r.first_held r.lacking) gap))))
              ]
      ]

  round-Inv :
      (s : State) (r : Round) (sought : List Window × List Window)
      → Inv s
      → Step Emitted s.queue (opened s.found s.first_held) r
      → Sought (start_windows r.first_held r.lacking) sought
      → Inv (record {
        found = r.found;
        missing = s.missing ++ gaps r.first_held r.lacking ++ sought.0;
        queue = r.retry ++ sought.1;
        first_held = r.first_held;
      })
  round-Inv s r sought inv step look = record {
    proper = All-append Proper r.retry sought.1 (step.proper inv.proper (tt, tt)).0 look.proper;
    disjoint = λ block. omega (
      arith,
      times-append block r.retry sought.1,
      look.no_more block,
      times-start_windows block r.first_held r.lacking,
      step.no_more block,
      inv.disjoint block,
    );
    accounted = λ x em p q. elim (inv.accounted x em p q) [
      | inl i ↦ round-accounted x s r sought look (step.kept x em (inl i))
      | inr (inl m) ↦ inr (
          inl (
            InRanges-append_left x.block (s.missing ++ gaps r.first_held r.lacking) sought.0
              (InRanges-append_left x.block s.missing (gaps r.first_held r.lacking) m)))
      | inr (inr t) ↦ round-accounted x s r sought look (step.kept x em (inr (omega arith)))
    ];
  }

  pub scan_round-Inv :
      (node : Node) (round : ℕ) (s s' : State)
      → ((queue : List Window) → CompleteReply Emitted (node.reply round queue) queue)
      → Inv s
      → scan_round node round s ≡ ok s'
      → Inv s'
  unfolding scan_round
  scan_round-Inv node round s s' complete inv h =
      let (r, a, t) =
        >>=-eq-ok (read_reply (node.reply round s.queue) s.queue s.found s.first_held) _ h in
      let (sought, b, u) =
        >>=-eq-ok (seek_start node round (start_windows r.first_held r.lacking)) _ t in
      let step =
        read_reply-Step Emitted (node.reply round s.queue) s.queue s.found s.first_held r inv.proper
          (complete s.queue) a in
      subst Inv (ok_injective u) (
        round-Inv s r sought inv step (
          seek_start-Sought node round (start_windows r.first_held r.lacking) sought
            (start_windows-Proper r.first_held r.lacking (step.proper inv.proper (tt, tt)).1)
            (λ block. omega (
              arith,
              times-start_windows block r.first_held r.lacking,
              step.no_more block,
              inv.disjoint block,
            ))
            b))

  scan_loop-Inv :
      (node : Node) (fuel round : ℕ) (s s' : State)
      → ((round' : ℕ) (queue : List Window) → CompleteReply Emitted (node.reply round' queue) queue)
      → Inv s
      → scan_loop node fuel round s ≡ ok s'
      → Inv s' × (s'.queue ≡ [])
  unfolding scan_loop
  scan_loop-Inv node zero round s s' complete inv h = cc
  scan_loop-Inv node (suc fuel) round s s' complete inv h =
      elim (if_cases (is_empty s.queue) (ok s) _ h) [
        | inl (e, q) ↦
            subst (λ t. Inv t × (t.queue ≡ [])) (ok_injective q) (inv, is_empty-nil s.queue e)
        | inr (_, q) ↦
            let (s'', a, t) = >>=-eq-ok (scan_round node round s) _ q in
            scan_loop-Inv node fuel (suc round) s'' s' complete
              (scan_round-Inv node round s s'' (complete round) inv a) t
      ]

-- Every log that the proxy emitted in the range is among the logs returned, or its block lies in a
-- range reported missing: where each window that the node answers with logs is answered with all
-- the logs of its blocks.
pub get_logs-accounted :
    (Emitted : Log → Type 0) (node : Node) (from_block to_block : ℕ) (found : List Log)
    (missing : List Window) (x : Log)
    → ((round : ℕ) (queue : List Window) → CompleteReply Emitted (node.reply round queue) queue)
    → get_logs node from_block to_block ≡ ok (found, missing)
    → Emitted x
    → from_block ≤ x.block
    → x.block ≤ to_block
    → In x found ⊎ InRanges x.block missing
unfolding get_logs
get_logs-accounted Emitted node from_block to_block found missing x complete h em p q =
    let start = initial from_block to_block in
    let fuel : ℕ = 2 * (to_block - from_block) + 2 in
    let (s, a, t) = >>=-eq-ok (scan_loop node fuel 0 start) _ h in
    let (inv, done) =
      scan_loop-Inv Emitted from_block to_block node fuel 0 start s complete
        (record {
          proper = (omega arith, tt);
          disjoint = λ block. ground arith;
          accounted = λ y em' p' q'. inr (inr (ground arith));
        })
        a in
    let same = ok_injective t in
    elim (inv.accounted x em p q) [
      | inl i ↦ inl (subst (In x) (ap (λ r. r.0) same) (In-sort_by log_le x s.found i))
      | inr (inl m) ↦
          inr (
            subst (InRanges x.block) (ap (λ r. r.1) same) ((merged-InRanges x.block s.missing).1 m))
      | inr (inr t') ↦ absurd (ended s.queue done t')
    ]
  where
    ended : (ws : List Window) → ws ≡ [] → 0 < times x.block ws → ⊥
    ended [] e k = omega arith
    ended (w ∷ ws) e k = cc
