-- ===== src/Check/States.antt =====
-- src/josuke/check.py: `_check_storage_history`, which compares HEAD's storage with each recorded
-- state's. What a state's sources declare at its commit, if it can be read, is a parameter, and so is
-- the state's label.
use josuke.Prelude.{
  ◌≡◌, refl, sym, subst, inl, inr, Bool, true, false, ◌&&◌, ◌||◌, Bool-cases, Option, none, some,
  String, List, [], ◌∷◌, if◌then◌else◌, In, arith,
}
use josuke.Prelude.Eq.{◌==◌, string_eq}
use josuke.Check.Storage.{Decl, Findings, fail, unreadable}
use josuke.Check.Overlaps.{fail-ne-nil}
use josuke.Check.Compare.{compare_storage}
use josuke.Check.History.{Preserved, compare_storage-failures, compare_storage-Preserved}
use josuke.Check.Recorded.{State}

abbrev pub has_source : String → List String → Bool
has_source x [] = false
has_source x (y ∷ ys) = y == x || has_source x ys

abbrev pub all_in : List String → List String → Bool
all_in [] ys = true
all_in (x ∷ xs) ys = has_source x ys && all_in xs ys

-- The same commit and set of sources.
abbrev pub same_state : State → State → Bool
same_state s t = s.commit == t.commit && (all_in s.sources t.sources && all_in t.sources s.sources)

unfoldable pub was_seen : State → List State → Bool
was_seen s [] = false
was_seen s (t ∷ seen) = same_state s t || was_seen s seen

abbrev pub has_none : List String → Bool
has_none [] = true
has_none (s ∷ sources) = false

module _ (baselines : String → List String → Option (List Decl)) (label : State → String)
    (head : List Decl) where
  unfoldable pub check_state : State → Findings → Findings
  unfolding compare_storage fail
  check_state s f = elim (baselines s.commit s.sources) as (λ _. Findings) [
    | some old ↦ (compare_storage (label s) old head f).findings
    | none ↦ fail (unreadable (label s)) f
  ]

  unfoldable pub check_storage_history : List State → List State → Findings → Findings
  unfolding check_state was_seen
  check_storage_history [] seen f = f
  check_storage_history (s ∷ states) seen f =
      let skip = has_none s.sources || was_seen s seen in
      check_storage_history states (if skip then seen else s ∷ seen)
        (if skip then f else check_state s f)

  -- The state's declarations can be read, and are preserved at HEAD.
  abbrev pub Kept : State → Type 1
  Kept s =
      (old : List Decl) × (baselines s.commit s.sources ≡ some old)
      × ((o : Decl) → In o old → Preserved head o)

  check_state-Kept :
      (s : State) (f : Findings) → (check_state s f).failures ≡ [] → (f.failures ≡ []) × Kept s
  unfolding check_state
  check_state-Kept s f h = go (baselines s.commit s.sources) refl h
    where
      go :
          (o : Option (List Decl))
          → baselines s.commit s.sources ≡ o
          → (elim o as (λ _. Findings) [
            | some old ↦ (compare_storage (label s) old head f).findings
            | none ↦ fail (unreadable (label s)) f
          ]).failures
            ≡ []
          → (f.failures ≡ []) × Kept s
      go none e k = absurd (fail-ne-nil (unreadable (label s)) f k)
      go (some old) e k =
          let p = compare_storage-failures (label s) old head f k in
          (p, (old, e, (compare_storage-Preserved (label s) old head f p).0 k))

  -- A state of the same commit and sources is kept.
  abbrev pub KeptLike : State → Type 1
  KeptLike s = (t : State) × (same_state s t ≡ true) × Kept t

  all_in-cons : (x : String) (xs ys : List String) → all_in xs ys ≡ true → all_in xs (x ∷ ys) ≡ true
  all_in-cons x [] ys h = refl
  all_in-cons x (y ∷ xs) ys h =
      let r = all_in-cons x xs ys (ground (arith, h)) in ground (arith, h, r)

  all_in_refl : (xs : List String) → all_in xs xs ≡ true
  all_in_refl [] = refl
  all_in_refl (x ∷ xs) =
      let r = all_in-cons x xs xs (all_in_refl xs) in
      let q = (string_eq.same_iff x x).1 refl in ground (arith, q, r)

  same_state_refl : (s : State) → same_state s s ≡ true
  same_state_refl s =
      let q = (string_eq.same_iff s.commit s.commit).1 refl in
      let r = all_in_refl s.sources in ground (arith, q, r)

  was_seen-KeptLike :
      (s : State) (seen : List State)
      → ((t : State) → In t seen → Kept t)
      → was_seen s seen ≡ true
      → KeptLike s
  unfolding was_seen
  was_seen-KeptLike s [] k h = absurd (clash h)
    where
      clash : false ≡ true → ⊥
      clash e = cc
  was_seen-KeptLike s (t ∷ seen) k h = elim (Bool-cases (same_state s t)) [
    | inl e ↦ (t, e, k t (inl refl))
    | inr e ↦ was_seen-KeptLike s seen (λ u m. k u (inr m)) (ground (arith, h, e))
  ]

  check_storage_history-failures :
      (states seen : List State) (f : Findings)
      → (check_storage_history states seen f).failures ≡ []
      → f.failures ≡ []
  unfolding check_storage_history
  check_storage_history-failures [] seen f h = h
  check_storage_history-failures (s ∷ states) seen f h =
      step (has_none s.sources || was_seen s seen) (check_storage_history-failures states _ _ h)
    where
      step : (b : Bool) → (if b then f else check_state s f).failures ≡ [] → f.failures ≡ []
      step true e = e
      step false e = (check_state-Kept s f e).0

  history-KeptLike :
      (states seen : List State) (f : Findings)
      → ((t : State) → In t seen → Kept t)
      → (check_storage_history states seen f).failures ≡ []
      → (s : State) → In s states
      → has_none s.sources ≡ false
      → KeptLike s
  unfolding check_storage_history
  history-KeptLike [] seen f k h s m n = absurd m
  history-KeptLike (x ∷ states) seen f k h s m n =
      go (has_none x.sources || was_seen x seen) refl h m (λ c g. history-KeptLike states c g)
    where
      seen_case : has_none x.sources || was_seen x seen ≡ true → s ≡ x → KeptLike s
      seen_case t e = was_seen-KeptLike s seen k (
          let p = subst (λ y. has_none y.sources || was_seen y seen ≡ true) (sym e) t in
          ground (arith, p, n))

      go :
          (b : Bool)
          → (has_none x.sources || was_seen x seen) ≡ b
          → (check_storage_history states
              (if b then seen else x ∷ seen)
              (if b then f else check_state x f)).failures
            ≡ []
          → In s (x ∷ states)
          → ((c : List State) (g : Findings)
              → ((t : State) → In t c → Kept t)
              → (check_storage_history states c g).failures ≡ []
              → (s : State) → In s states
              → has_none s.sources ≡ false
              → KeptLike s)
          → KeptLike s
      go true t e (inl p) ih = seen_case t p
      go true t e (inr p) ih = ih seen f k e s p n
      go false t e p ih =
          let kept_x =
            (check_state-Kept x f
              (check_storage_history-failures states (x ∷ seen) (check_state x f) e)).1 in
          here kept_x p
        where
          more : Kept x → (u : State) → In u (x ∷ seen) → Kept u
          more kx u (inl q) = subst Kept (sym q) kx
          more kx u (inr q) = k u q

          here : Kept x → In s (x ∷ states) → KeptLike s
          here kx (inl q) = (x, subst (λ y. same_state y x ≡ true) (sym q) (same_state_refl x), kx)
          here kx (inr q) = ih (x ∷ seen) (check_state x f) (more kx) e s q n

  -- Where the comparison with the recorded states leaves no failure, every state with a source has one
  -- of the same commit and sources whose declarations at that commit were read, and are all preserved
  -- at HEAD.
  pub check_storage_history-KeptLike :
      (states : List State) (f : Findings)
      → (check_storage_history states [] f).failures ≡ []
      → (s : State) → In s states
      → has_none s.sources ≡ false
      → KeptLike s
  check_storage_history-KeptLike states f h s m n =
      history-KeptLike states [] f (λ t u. absurd u) h s m n
