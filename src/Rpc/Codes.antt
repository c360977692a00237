-- ===== src/Rpc/Codes.antt =====
-- src/josuke/ethjsonrpc.py: the cache of codes that `eth_get_code` and `prefetch_code` keep. The case of
-- letters, the text of a call's parameters and a lone call are parameters.
use josuke.Prelude.{
  ℕ, ◌≡◌, refl, sym, ap, ◌∙◌, subst, inl, inr, Bool, true, false, ◌||◌, not, Bool-cases, Option,
  none, some, String, List, [], ◌∷◌, map, if◌then◌else◌, if_cases,
}
use josuke.Prelude.Eq.{◌==◌, string_eq}
use josuke.Prelude.Dict.{Dict, get, put, has, get-put, some_injective}
use josuke.Rpc.{Node}
use josuke.Rpc.Calls.{Results, results, failed, key_error, rpc_batch}

-- `_codes`: an address in lower case, and its code.
abbrev pub Codes : Type 0
Codes = Dict String String

abbrev pub is_kept : String → Bool
is_kept code = not (code == "0x" || code == "0x0")

-- `_keep_code`, of an address in lower case.
unfoldable pub keep_code : String → String → Codes → Codes
keep_code address code codes = if is_kept code then put address code codes else codes

unfoldable pub keep_all : List String → List String → Codes → Codes
unfolding keep_code
keep_all [] cs codes = codes
keep_all (a ∷ wanted) [] codes = codes
keep_all (a ∷ wanted) (c ∷ cs) codes = keep_all wanted cs (keep_code a c codes)

abbrev pub in_list : String → List String → Bool
in_list x [] = false
in_list x (y ∷ ys) = y == x || in_list x ys

module _ (lower : String → String) (params : String → String → String)
    (rpc : String → String → Option String) where
  -- A code, or none for an `RpcError`, with the cache.
  unfoldable pub eth_get_code : String → String → Codes → Option String × Codes
  unfolding keep_code
  eth_get_code address block codes =
      if not (block == "latest")
      then (rpc address block, codes)
      else (elim (get (lower address) codes) as (λ _. Option String × Codes) [
        | some code ↦ (some code, codes)
        | none ↦ (elim (rpc address block) as (λ _. Option String × Codes) [
          | some code ↦ (some code, keep_code (lower address) code codes)
          | none ↦ (none, codes)
        ])
      ])

  -- The addresses that are given and not in the cache, each once; `none` is an address left out.
  unfoldable pub uncached : List (Option String) → Codes → List String → List String
  uncached [] codes seen = []
  uncached (none ∷ addresses) codes seen = uncached addresses codes seen
  uncached (some a ∷ addresses) codes seen =
      let skip = has (lower a) codes || in_list (lower a) seen in
      let rest = uncached addresses codes (if skip then seen else lower a ∷ seen) in
      if skip then rest else lower a ∷ rest

  abbrev pub code_calls : List String → List (String × String)
  code_calls wanted = map (λ a. ("eth_getCode", params a "latest")) wanted

  -- The cache, and whether a `KeyError` escapes; an `RpcError` is left for the read.
  unfoldable pub keep_results : List String → Results → Codes → Codes × Bool
  unfolding keep_all
  keep_results wanted (results cs) codes = (keep_all wanted cs codes, false)
  keep_results wanted failed codes = (codes, false)
  keep_results wanted key_error codes = (codes, true)

  unfoldable pub prefetch_code : Node → ℕ → List (Option String) → Codes → Codes × Bool
  unfolding uncached keep_results
  prefetch_code node limit addresses codes =
      let fetch = λ (wanted : List String).
        keep_results wanted (rpc_batch node (code_calls wanted) limit) codes in
      elim (uncached addresses codes []) as (λ _. Codes × Bool) [
        | [] ↦ (codes, false)
        | a ∷ wanted ↦ fetch (a ∷ wanted)
      ]

  module _ (code_of : String → String) where
    -- The cache holds the codes of addresses, none of them empty.
    abbrev pub Faithful : Codes → Type 0
    Faithful codes = (a c : String) → get a codes ≡ some c → (c ≡ code_of a) × (is_kept c ≡ true)

    keep_code-Faithful :
        (address : String) (codes : Codes)
        → Faithful codes
        → Faithful (keep_code address (code_of address) codes)
    unfolding keep_code
    keep_code-Faithful address codes f = elim (Bool-cases (is_kept (code_of address))) [
      | inr e ↦ rw e f
      | inl t ↦ rw t (λ a c e. put_in t a c (sym (get-put address a (code_of address) codes) ∙ e))
    ]
      where
        put_in :
            is_kept (code_of address) ≡ true
            → (a c : String)
            → (if address == a then some (code_of address) else get a codes) ≡ some c
            → (c ≡ code_of a) × (is_kept c ≡ true)
        put_in t a c e = elim (if_cases (address == a) (some (code_of address)) (get a codes) e) [
          | inl (p, q) ↦
              let s = some_injective q in
              (
                sym s ∙ ap code_of ((string_eq.same_iff address a).0 p),
                subst (λ x. is_kept x ≡ true) s t,
              )
          | inr (p, q) ↦ f a c q
        ]

    keep_all-Faithful :
        (wanted : List String) (codes : Codes)
        → Faithful codes
        → Faithful (keep_all wanted (map code_of wanted) codes)
    unfolding keep_all
    keep_all-Faithful [] codes f = f
    keep_all-Faithful (a ∷ wanted) codes f =
        keep_all-Faithful wanted (keep_code a (code_of a) codes) (keep_code-Faithful a codes f)

    -- Where the batch for these addresses has results, they are the addresses' codes.
    abbrev pub Answers : Node → ℕ → List String → Type 0
    Answers node limit wanted =
        (cs : List String)
        → rpc_batch node (code_calls wanted) limit ≡ results cs
        → cs ≡ map code_of wanted

    module _ (node : Node) (limit : ℕ) where
      prefetch_code-Faithful :
          (addresses : List (Option String)) (codes : Codes)
          → Answers node limit (uncached addresses codes [])
          → Faithful codes
          → Faithful (prefetch_code node limit addresses codes).0
      unfolding prefetch_code
      prefetch_code-Faithful addresses codes h f = go (uncached addresses codes []) h
        where
          kept :
              (wanted : List String)
              → Answers node limit wanted
              → (r : Results) → rpc_batch node (code_calls wanted) limit ≡ r
              → Faithful (keep_results wanted r codes).0
          kept wanted right (results cs) e =
              unfold keep_results in
              subst (λ x. Faithful (keep_all wanted x codes)) (sym (right cs e))
                (keep_all-Faithful wanted codes f)
          kept wanted right failed e = unfold keep_results in f
          kept wanted right key_error e = unfold keep_results in f

          go :
              (l : List String)
              → Answers node limit l
              → Faithful
                  (elim l as (λ _. Codes × Bool) [
                    | [] ↦ (codes, false)
                    | a ∷ wanted ↦
                        keep_results
                          (a ∷ wanted)
                          (rpc_batch node (code_calls (a ∷ wanted)) limit)
                          codes
                  ]).0
          go [] k = f
          go (a ∷ wanted) k =
              kept (a ∷ wanted) k (rpc_batch node (code_calls (a ∷ wanted)) limit) refl

      -- With a cache that holds the codes of addresses, none of them empty, and a node that
      -- answers every call for a code, in the prefetch's batch or alone, with the address's code,
      -- `eth_get_code` at `latest`, after a prefetch of any addresses, gives the address's code,
      -- and leaves such a cache.
      pub eth_get_code-Faithful :
          (addresses : List (Option String)) (address : String) (codes : Codes)
          → Answers node limit (uncached addresses codes [])
          → Faithful codes
          → rpc address "latest" ≡ some (code_of (lower address))
          → ((eth_get_code address "latest" (prefetch_code node limit addresses codes).0).0
              ≡ some (code_of (lower address)))
            × Faithful
                (eth_get_code address "latest" (prefetch_code node limit addresses codes).0).1
      unfolding eth_get_code
      eth_get_code-Faithful addresses address codes h f r =
          let after = (prefetch_code node limit addresses codes).0 in
          let g = prefetch_code-Faithful addresses codes h f in
          go after g (get (lower address) after) refl (rpc address "latest") r
        where
          go :
              (d : Codes)
              → Faithful d
              → (o : Option String) → get (lower address) d ≡ o
              → (p : Option String) → p ≡ some (code_of (lower address))
              → ((elim o as (λ _. Option String × Codes) [
                | some code ↦ (some code, d)
                | none ↦ (elim p as (λ _. Option String × Codes) [
                  | some code ↦ (some code, keep_code (lower address) code d)
                  | none ↦ (none, d)
                ])
              ]).0
                  ≡ some (code_of (lower address)))
                × Faithful
                    (elim o as (λ _. Option String × Codes) [
                      | some code ↦ (some code, d)
                      | none ↦ (elim p as (λ _. Option String × Codes) [
                        | some code ↦ (some code, keep_code (lower address) code d)
                        | none ↦ (none, d)
                      ])
                    ]).1
          go d h (some c) e p q = (ap some (h (lower address) c e).0, h)
          go d h none e none q = cc
          go d h none e (some c) q = (
            q,
            subst (λ x. Faithful (keep_code (lower address) x d)) (sym (some_injective q))
                (keep_code-Faithful (lower address) d h),
          )
