-- ===== src/Check/Recorded.antt =====
-- src/josuke/check.py: `_recorded_states`, the deployments whose storage is still there. Whether a
-- source's name ends in `.evm` is a parameter.
use josuke.Prelude.{
  ◌≡◌, ◌⊎◌, refl, sym, ap, ◌∙◌, subst, inl, inr, Bool, false, Bool-cases, Option, none, some,
  String, List, [], ◌∷◌, ◌++◌, map, if◌then◌else◌, In, In-append_left, In-append_right,
}
use josuke.Prelude.Eq.{◌==◌, string_eq}
use josuke.Prelude.Dict.{Dict, get, put, get-put, some_injective, get-In}

-- A state's commit and sources; the legacy implementation's, and a retired delegate's, whose source
-- is none for a generated `selectors()`.
pub record History : Type 0 where
  pub legacy : Option (String × String)
  pub current : Option (String × List String)
  pub proposed : Option (String × List String)
  pub retired : List (String × Option String)

pub record State : Type 0 where
  pub name : String
  pub commit : String
  pub sources : List String

abbrev pub legacy_states : Option (String × String) → List State
legacy_states none = []
legacy_states (some (commit, source)) =
    record { name = "legacy"; commit = commit; sources = source ∷ [] } ∷ []

abbrev pub named_states : String → Option (String × List String) → List State
named_states name none = []
named_states name (some (commit, facets)) =
    record { name = name; commit = commit; sources = facets } ∷ []

abbrev pub add_source : String → List String → List String
add_source x [] = x ∷ []
add_source x (y ∷ ys) = if y == x then y ∷ ys else y ∷ add_source x ys

-- `retired`: the archived sources by commit.
unfoldable pub add_retired : String → String → Dict String (List String) → Dict String (List String)
add_retired commit source d = elim (get commit d) [
  | some sources ↦ put commit (add_source source sources) d
  | none ↦ put commit (source ∷ []) d
]

unfoldable pub group_retired :
    List (String × Option String) → Dict String (List String) → Dict String (List String)
unfolding add_retired
group_retired [] d = d
group_retired ((commit, none) ∷ records) d = group_retired records d
group_retired ((commit, some source) ∷ records) d =
    group_retired records (add_retired commit source d)

abbrev pub retired_states : Dict String (List String) → List State
retired_states [] = []
retired_states ((commit, sources) ∷ d) =
    record { name = "history"; commit = commit; sources = sources } ∷ retired_states d

abbrev pub without_evm : (String → Bool) → List String → List String
without_evm is_evm [] = []
without_evm is_evm (s ∷ sources) =
    if is_evm s then without_evm is_evm sources else s ∷ without_evm is_evm sources

unfoldable pub recorded_states : (String → Bool) → History → List State
unfolding group_retired
recorded_states is_evm h =
    map (λ (s : State). record s { sources = without_evm is_evm s.sources })
      (legacy_states h.legacy
        ++ (named_states "current" h.current
            ++ (named_states "proposed" h.proposed ++ retired_states (group_retired h.retired []))))

-- A source stands under a commit.
abbrev Holds : String → String → Dict String (List String) → Type 0
Holds commit source d = (sources : List String) × (get commit d ≡ some sources) × In source sources

In-add_source : (x s : String) (ys : List String) → In s (x ∷ ys) → In s (add_source x ys)
In-add_source x s [] m = m
In-add_source x s (y ∷ ys) m = elim (Bool-cases (y == x)) [
  | inl t ↦ rw t (met ((string_eq.same_iff y x).0 t) m)
  | inr f ↦ rw f (later (In-add_source x s ys) m)
]
  where
    met : y ≡ x → In s (x ∷ y ∷ ys) → In s (y ∷ ys)
    met e (inl p) = inl (p ∙ sym e)
    met e (inr p) = p

    later :
        (In s (x ∷ ys) → In s (add_source x ys)) → In s (x ∷ y ∷ ys) → In s (y ∷ add_source x ys)
    later ih (inl p) = inr (ih (inl p))
    later ih (inr (inl p)) = inl p
    later ih (inr (inr p)) = inr (ih (inr p))

-- What stood under a commit still does, and so does the source that is added.
add_retired-Holds :
    (c x commit source : String) (d : Dict String (List String))
    → (Holds commit source d) ⊎ ((c ≡ commit) × (x ≡ source))
    → Holds commit source (add_retired c x d)
unfolding add_retired
add_retired-Holds c x commit source d h = go (get c d) refl h
  where
    at : (ys : List String) → c ≡ commit → In source ys → Holds commit source (put c ys d)
    at ys e m = (ys, get-put c commit ys d ∙ rw ((string_eq.same_iff c commit).1 e) refl, m)

    other :
        (ys : List String)
        → (c == commit) ≡ false
        → Holds commit source d
        → Holds commit source (put c ys d)
    other ys f (zs, p, m) = (zs, get-put c commit ys d ∙ rw f p, m)

    none-some : {o : Option (List String)} {z : List String} → o ≡ none → o ≡ some z → ⊥
    none-some p q = cc

    go :
        (o : Option (List String))
        → get c d ≡ o
        → (Holds commit source d) ⊎ ((c ≡ commit) × (x ≡ source))
        → Holds commit source (elim o as (λ _. Dict String (List String)) [
          | some sources ↦ put c (add_source x sources) d
          | none ↦ put c (x ∷ []) d
        ])
    go none e (inr (p, q)) = at (x ∷ []) p (inl (sym q))
    go none e (inl (zs, p, m)) = elim (Bool-cases (c == commit)) [
      | inl t ↦
          absurd (none-some (subst (λ y. get y d ≡ none) ((string_eq.same_iff c commit).0 t) e) p)
      | inr f ↦ other (x ∷ []) f (zs, p, m)
    ]
    go (some ys) e (inr (p, q)) = at (add_source x ys) p (In-add_source x source ys (inl (sym q)))
    go (some ys) e (inl (zs, p, m)) = elim (Bool-cases (c == commit)) [
      | inl t ↦
          let same =
            some_injective
              (sym (subst (λ y. get y d ≡ some ys) ((string_eq.same_iff c commit).0 t) e) ∙ p) in
          at (add_source x ys) ((string_eq.same_iff c commit).0 t)
            (In-add_source x source ys (inr (subst (In source) (sym same) m)))
      | inr f ↦ other (add_source x ys) f (zs, p, m)
    ]

group_retired-kept :
    (commit source : String) (records : List (String × Option String))
    (d : Dict String (List String))
    → Holds commit source d
    → Holds commit source (group_retired records d)
unfolding group_retired
group_retired-kept commit source [] d h = h
group_retired-kept commit source ((c, none) ∷ records) d h =
    group_retired-kept commit source records d h
group_retired-kept commit source ((c, some x) ∷ records) d h =
    group_retired-kept commit source records (add_retired c x d)
      (add_retired-Holds c x commit source d (inl h))

group_retired-Holds :
    (commit source : String) (records : List (String × Option String))
    (d : Dict String (List String))
    → In (commit, some source) records
    → Holds commit source (group_retired records d)
unfolding group_retired
group_retired-Holds commit source [] d m = absurd m
group_retired-Holds commit source ((c, none) ∷ records) d (inl e) =
    absurd (clash (ap (λ (p : String × Option String). p.1) e))
  where
    clash : some source ≡ none → ⊥
    clash e = cc
group_retired-Holds commit source ((c, none) ∷ records) d (inr m) =
    group_retired-Holds commit source records d m
group_retired-Holds commit source ((c, some x) ∷ records) d (inr m) =
    group_retired-Holds commit source records (add_retired c x d) m
group_retired-Holds commit source ((c, some x) ∷ records) d (inl e) =
    group_retired-kept commit source records (add_retired c x d) (
      add_retired-Holds c x commit source d (
        inr (
          ap (λ (p : String × Option String). p.0) (sym e),
          some_injective (ap (λ (p : String × Option String). p.1) (sym e)),
        )))

-- A state holds the source under the commit.
abbrev pub InState : String → String → List State → Type 0
InState commit source states = (s : State) × In s states × (s.commit ≡ commit) × In source s.sources

abbrev pub StateHas : String → String → Option (String × List String) → Type 0
StateHas commit source state =
    (facets : List String) × (state ≡ some (commit, facets)) × In source facets

-- The history records the source at the commit.
abbrev pub IsRecorded : String → String → History → Type 0
IsRecorded commit source h =
    (h.legacy ≡ some (commit, source))
    ⊎ (StateHas commit source h.current
        ⊎ (StateHas commit source h.proposed ⊎ In (commit, some source) h.retired))

InState-left :
    (commit source : String) (xs ys : List State)
    → InState commit source xs
    → InState commit source (xs ++ ys)
InState-left commit source xs ys (s, m, e, n) = (s, In-append_left s xs ys m, e, n)

InState-right :
    (commit source : String) (xs ys : List State)
    → InState commit source ys
    → InState commit source (xs ++ ys)
InState-right commit source xs ys (s, m, e, n) = (s, In-append_right s xs ys m, e, n)

legacy_states-InState :
    (commit source : String) (o : Option (String × String))
    → o ≡ some (commit, source)
    → InState commit source (legacy_states o)
legacy_states-InState commit source o e =
    subst (λ x. InState commit source (legacy_states x)) (sym e)
      (record { name = "legacy"; commit = commit; sources = source ∷ [] }, inl refl, refl, inl refl)

named_states-InState :
    (name commit source : String) (o : Option (String × List String))
    → StateHas commit source o
    → InState commit source (named_states name o)
named_states-InState name commit source o (facets, e, m) =
    subst (λ x. InState commit source (named_states name x)) (sym e)
      (record { name = name; commit = commit; sources = facets }, inl refl, refl, m)

retired_states-InState :
    (commit source : String) (sources : List String) (d : Dict String (List String))
    → In (commit, sources) d
    → In source sources
    → InState commit source (retired_states d)
retired_states-InState commit source sources [] m n = absurd m
retired_states-InState commit source sources ((c, ys) ∷ d) (inl e) n = (
  record { name = "history"; commit = c; sources = ys },
  inl refl,
  ap (λ (p : String × List String). p.0) (sym e),
  subst (In source) (ap (λ (p : String × List String). p.1) e) n,
)
retired_states-InState commit source sources ((c, ys) ∷ d) (inr m) n =
    let (s, k, e, l) = retired_states-InState commit source sources d m n in (s, inr k, e, l)

In-without_evm :
    (is_evm : String → Bool) (source : String) (sources : List String)
    → is_evm source ≡ false
    → In source sources
    → In source (without_evm is_evm sources)
In-without_evm is_evm source [] f m = absurd m
In-without_evm is_evm source (x ∷ sources) f (inl e) = rw (ap is_evm (sym e) ∙ f) (inl e)
In-without_evm is_evm source (x ∷ sources) f (inr m) = elim (Bool-cases (is_evm x)) [
  | inl t ↦ rw t (In-without_evm is_evm source sources f m)
  | inr g ↦ rw g (inr (In-without_evm is_evm source sources f m))
]

filtered-InState :
    (is_evm : String → Bool) (commit source : String) (states : List State)
    → is_evm source ≡ false
    → InState commit source states
    → InState commit source
        (map (λ (s : State). record s { sources = without_evm is_evm s.sources }) states)
filtered-InState is_evm commit source [] f (s, m, e, n) = absurd m
filtered-InState is_evm commit source (x ∷ states) f (s, inl p, e, n) = (
  record x { sources = without_evm is_evm x.sources },
  inl refl,
  ap (λ y. y.commit) (sym p) ∙ e,
  In-without_evm is_evm source x.sources f (subst (λ y. In source y.sources) p n),
)
filtered-InState is_evm commit source (x ∷ states) f (s, inr m, e, n) =
    let (t, k, q, l) = filtered-InState is_evm commit source states f (s, m, e, n) in
    (t, inr k, q, l)

-- Every source that the history records at a commit, in the legacy, the current, the proposed or a
-- retired deployment, and that is no `.evm` source, is in a recorded state of that commit.
pub recorded_states-InState :
    (is_evm : String → Bool) (h : History) (commit source : String)
    → is_evm source ≡ false
    → IsRecorded commit source h
    → InState commit source (recorded_states is_evm h)
unfolding recorded_states
recorded_states-InState is_evm h commit source f r =
    filtered-InState is_evm commit source _ f (elim r [
      | inl e ↦ InState-left commit source legacy _ (legacy_states-InState commit source h.legacy e)
      | inr (inl e) ↦ InState-right commit source legacy _ (
          InState-left commit source current _
            (named_states-InState "current" commit source h.current e))
      | inr (inr (inl e)) ↦ InState-right commit source legacy _ (
          InState-right commit source current _ (
            InState-left commit source proposed _
              (named_states-InState "proposed" commit source h.proposed e)))
      | inr (inr (inr m)) ↦
          let (sources, e, n) = group_retired-Holds commit source h.retired [] m in
          InState-right commit source legacy _ (
            InState-right commit source current _ (
              InState-right commit source proposed _ (
                retired_states-InState commit source sources (group_retired h.retired [])
                  (get-In commit sources (group_retired h.retired []) e) n)))
    ])
  where
    legacy : List State
    legacy = legacy_states h.legacy

    current : List State
    current = named_states "current" h.current

    proposed : List State
    proposed = named_states "proposed" h.proposed
