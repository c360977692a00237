-- ===== src/Accept/Recorded.antt =====
-- accept.py and audit.py: what the ledger records of a proxy, accepting a deployment loses nothing of.
use josuke.Prelude.{
  ◌≡◌, refl, sym, ap, ◌∙◌, ◌⊎◌, inl, inr, Bool, true, false, ◌||◌, Option, none, some, String, List,
  [], ◌∷◌, arith, Bool-cases,
}
use josuke.Prelude.Eq.{bytes_beq, bytes_eq, bytes_beq_iff, string_le, string_eq}
use josuke.Prelude.Sort.{sort_by}
use josuke.Prelude.Bytes.{Bytes}
use josuke.Prelude.Dict.{has-put, has-update, Dict, put, has, update, keys, some_injective}
use josuke.Deployment.{FacetRecord, State}
use josuke.Verify.{truthy}
use josuke.Accept.{
  HistoryEntry, facet_entry, selectors_entry, facet_entries, history_entries, selectors_address,
  dropped, retired_entries, History, accept, accepted_state, Label, facet_delegates,
  state_delegates, entry_label, archived, recorded_delegates, ◌>>=◌, proposed_facet,
  proposed_selectors, current_facet, current_selectors,
}

-- Two tables that the same addresses are put in keep the same addresses.
has-put_same :
    {V W : Type 0} (a k : Bytes) (v : V) (w : W) (d : Dict Bytes V) (e : Dict Bytes W)
    → has a d ≡ has a e
    → has a (put k v d) ≡ has a (put k w e)
has-put_same a k v w d e h =
    has-put a k v d ∙ ap (λ b. bytes_beq k a || b) h ∙ sym (has-put a k w e)

facet_entries_same :
    (a : Bytes) (git_commit : String) (label : String → Label) (facets : Dict String FacetRecord)
    (d : Dict Bytes HistoryEntry) (e : Dict Bytes Label)
    → has a d ≡ has a e
    → has a (facet_entries git_commit facets d) ≡ has a (facet_delegates label facets e)
unfolding facet_entries facet_delegates
facet_entries_same a git_commit label [] d e h = h
facet_entries_same a git_commit label ((source_id, rec) ∷ facets) d e h =
    facet_entries_same a git_commit label facets _ _ (go (truthy rec.address))
  where
    go :
        (o : Option Bytes)
        → has a (elim o as (λ _. Dict Bytes HistoryEntry) [
          | some address ↦
              put address (facet_entry source_id git_commit (record rec { address = none })) d
          | none ↦ d
        ])
          ≡ has a (elim o as (λ _. Dict Bytes Label) [
            | some address ↦ put address (label source_id) e
            | none ↦ e
          ])
    go none = h
    go (some address) =
        has-put_same a address (facet_entry source_id git_commit (record rec { address = none }))
          (label source_id) d e h

-- The archive's entries of a state and the audit's record of it are of the same addresses.
history_entries_same :
    (a : Bytes) (label : String → Label) (selectors_label : Label) (s : State)
    (d : Dict Bytes HistoryEntry) (e : Dict Bytes Label)
    → history_entries s ≡ some d
    → state_delegates label selectors_label (some s) ≡ some e
    → has a d ≡ has a e
unfolding history_entries state_delegates
history_entries_same a label selectors_label s d e p q = go (selectors_address s.selectors) p q
  where
    facets : Dict Bytes HistoryEntry
    facets = facet_entries s.git_commit s.facets []

    delegates : Dict Bytes Label
    delegates = facet_delegates label s.facets []

    names : List String
    names = sort_by string_le (keys s.facets)

    same : has a facets ≡ has a delegates
    same = facet_entries_same a s.git_commit label s.facets [] [] refl

    go :
        (o : Option (Option Bytes))
        → (elim o as (λ _. Option (Dict Bytes HistoryEntry)) [
          | none ↦ some facets
          | some none ↦ none
          | some (some address) ↦ some (put address (selectors_entry s.git_commit names) facets)
        ])
          ≡ some d
        → (elim o as (λ _. Option (Dict Bytes Label)) [
          | none ↦ some delegates
          | some none ↦ none
          | some (some address) ↦ some (put address selectors_label delegates)
        ])
          ≡ some e
        → has a d ≡ has a e
    go none p' q' = ap (has a) (sym (some_injective p')) ∙ same ∙ ap (has a) (some_injective q')
    go (some none) p' q' = cc
    go (some (some address)) p' q' =
        ap (has a) (sym (some_injective p'))
        ∙ has-put_same a address (selectors_entry s.git_commit names) selectors_label facets
            delegates same
        ∙ ap (has a) (some_injective q')

has-dropped :
    (a : Bytes) (entries kept : Dict Bytes HistoryEntry)
    → has a entries ≡ true
    → (has a kept ≡ true) ⊎ (has a (dropped entries kept) ≡ true)
unfolding dropped
has-dropped a [] kept h = cc
has-dropped a ((k, v) ∷ entries) kept h = elim (Bool-cases (has k kept)) [
  | inl t ↦ elim (Bool-cases (bytes_beq k a)) [
    | inl e ↦ inl (ap (λ i. has i kept) (sym ((bytes_beq_iff k a).0 e)) ∙ t)
    | inr e ↦ rw (t) (has-dropped a entries kept (rw e at h))
  ]
  | inr f ↦ elim (Bool-cases (bytes_beq k a)) [
    | inl e ↦ rw f (inr (rw e refl))
    | inr e ↦ rw (f, e) (has-dropped a entries kept (rw e at h))
  ]
]

has-archived :
    (a : Bytes) (history : Dict Bytes HistoryEntry) (d : Dict Bytes Label)
    → has a (archived history d) ≡ (has a history || has a d)
unfolding archived
has-archived a [] d = refl
has-archived a ((k, v) ∷ history) d =
    ground (arith, has-archived a history (put k (entry_label v) d), has-put a k (entry_label v) d)

>>=-eq-some :
    {A B : Type 0} {out : B} (step : Option A) (next : A → Option B)
    → (step >>= next) ≡ some out
    → (value : A) × (step ≡ some value) × (next value ≡ some out)
>>=-eq-some none next h = cc
>>=-eq-some (some value) next h = (value, refl, h)

-- The addresses that the audit finds recorded, by part of the ledger.
has-recorded :
    (a : Bytes) (h : History) (d : Dict Bytes Label)
    → recorded_delegates h ≡ some d
    → (p : Dict Bytes Label) × (c : Dict Bytes Label) × (state_delegates proposed_facet
          proposed_selectors h.proposed
        ≡ some p)
      × (state_delegates current_facet current_selectors h.current ≡ some c)
      × (has a d ≡ (has a c || ((has a h.history || false) || has a p)))
unfolding recorded_delegates
has-recorded a h d e =
    let (p, hp, e') =
      >>=-eq-some (state_delegates proposed_facet proposed_selectors h.proposed) _ e in
    let (c, hc, e'') =
      >>=-eq-some (state_delegates current_facet current_selectors h.current) _ e' in
    (
      p,
      c,
      hp,
      hc,
      ap (has a) (sym (some_injective e''))
          ∙ has-update a (update p (archived h.history [])) c
          ∙ ap (λ b. has a c || b)
              (has-update a p (archived h.history [])
                ∙ ap (λ b. b || has a p) (has-archived a h.history [])),
    )

-- What `current` installs, the accepted state installs or the archive gains.
retired_entries-kept :
    (a : Bytes) (current : Option State) (accepted : State) (retired : Dict Bytes HistoryEntry)
    (c p : Dict Bytes Label)
    → retired_entries current accepted ≡ some retired
    → state_delegates current_facet current_selectors current ≡ some c
    → state_delegates current_facet current_selectors (some accepted) ≡ some p
    → has a c ≡ true
    → (has a p ≡ true) ⊎ (has a retired ≡ true)
unfolding retired_entries state_delegates
retired_entries-kept a none accepted retired c p r hc hp t =
    absurd (clash (ap (has a) (some_injective hc)) t)
  where
    clash : {b : Bool} → false ≡ b → b ≡ true → ⊥
    clash x y = cc
retired_entries-kept a (some current) accepted retired c p r hc hp t =
    let (kept, hk, r') = >>=-eq-some (history_entries accepted) _ r in
    let (entries, he, r'') = >>=-eq-some (history_entries current) _ r' in
    elim (has-dropped a entries kept
      (history_entries_same a current_facet current_selectors current entries c he hc ∙ t)) [
        | inl k ↦
            inl (
              sym (history_entries_same a current_facet current_selectors accepted kept p hk hp)
              ∙ k)
        | inr k ↦ inr (ap (has a) (sym (some_injective r'')) ∙ k)
      ]

-- A state that the audit can read has the entries of the archive.
history_entries-exist :
    (label : String → Label) (selectors_label : Label) (s : State) (e : Dict Bytes Label)
    → state_delegates label selectors_label (some s) ≡ some e
    → (d : Dict Bytes HistoryEntry) × (history_entries s ≡ some d)
unfolding history_entries state_delegates
history_entries-exist label selectors_label s e q = go (selectors_address s.selectors) q
  where
    facets : Dict Bytes HistoryEntry
    facets = facet_entries s.git_commit s.facets []

    delegates : Dict Bytes Label
    delegates = facet_delegates label s.facets []

    names : List String
    names = sort_by string_le (keys s.facets)

    go :
        (o : Option (Option Bytes))
        → (elim o as (λ _. Option (Dict Bytes Label)) [
          | none ↦ some delegates
          | some none ↦ none
          | some (some address) ↦ some (put address selectors_label delegates)
        ])
          ≡ some e
        → (d : Dict Bytes HistoryEntry) × ((elim o as (λ _. Option (Dict Bytes HistoryEntry)) [
          | none ↦ some facets
          | some none ↦ none
          | some (some address) ↦ some (put address (selectors_entry s.git_commit names) facets)
        ])
            ≡ some d)
    go none h = (facets, refl)
    go (some none) h = cc
    go (some (some address)) h = (put address (selectors_entry s.git_commit names) facets, refl)

-- Where the audit finds a delegate recorded before a deployment is accepted, as a facet or a
-- `selectors()` delegate of the current or the proposed deployment or in the archive, it finds it
-- recorded afterwards.
pub accept-recorded :
    (a : Bytes) (proposed : State) (before after : History) (d d' : Dict Bytes Label)
    → before.proposed ≡ some proposed
    → accept proposed before ≡ some after
    → recorded_delegates before ≡ some d
    → recorded_delegates after ≡ some d'
    → has a d ≡ true
    → has a d' ≡ true
unfolding accept accepted_state
accept-recorded a proposed before after d d' hp ha hd hd' t =
    let (retired, hr, e) = >>=-eq-some (retired_entries before.current proposed) _ ha in
    let accepted : History = record {
      current = some proposed;
      proposed = none;
      history = update before.history retired;
    } in
    let (p, c, hp0, hc0, has_d) = has-recorded a before d hd in
    let (p', c', hp1, hc1, has_d') =
      has-recorded a accepted d' (ap recorded_delegates (some_injective e) ∙ hd') in
    let staged : state_delegates proposed_facet proposed_selectors (some proposed) ≡ some p =
      ap (state_delegates proposed_facet proposed_selectors) (sym hp) ∙ hp0 in
    let (entries, he) = history_entries-exist proposed_facet proposed_selectors proposed p staged in
    let moved : has a p ≡ has a c' =
      sym (history_entries_same a proposed_facet proposed_selectors proposed entries p he staged)
      ∙ history_entries_same a current_facet current_selectors proposed entries c' he hc1 in
    has_d'
    ∙ covered (has a c') (has a (update before.history retired)) (has a p')
        (elim (or_cases (has a c) (has a before.history) (has a p) (sym has_d ∙ t)) [
          | inl k ↦
              elim (retired_entries-kept a before.current proposed retired c c' hr hc0 hc1 k) [
                | inl l ↦ inl l
                | inr l ↦ inr (has-update a before.history retired ∙ rw l refl)
              ]
          | inr (inl k) ↦ inr (has-update a before.history retired ∙ or_right (has a retired) k)
          | inr (inr k) ↦ inl (sym moved ∙ k)
        ])
  where
    or_right : (b : Bool) {c : Bool} → c ≡ true → (b || c) ≡ true
    or_right true h = refl
    or_right false h = h

    or_cases :
        (x y z : Bool) → (x || ((y || false) || z)) ≡ true → (x ≡ true) ⊎ ((y ≡ true) ⊎ (z ≡ true))
    or_cases true y z h = inl refl
    or_cases false true z h = inr (inl refl)
    or_cases false false z h = inr (inr h)

    covered : (x y z : Bool) → (x ≡ true) ⊎ (y ≡ true) → (x || ((y || false) || z)) ≡ true
    covered true y z h = refl
    covered false y z (inl h) = cc
    covered false true z (inr h) = refl
    covered false false z (inr h) = cc
