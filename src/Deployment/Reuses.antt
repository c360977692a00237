-- ===== src/Deployment/Reuses.antt =====
-- deploy.py: a deployment that is reused has the code that is wanted.
use josuke.Prelude.{
  ◌≡◌, refl, sym, subst, ap, ◌∙◌, Bool, true, false, ◌&&◌, Option, none, some, String, inl, inr,
  Bool-cases, Option-cases, if_cases,
}
use josuke.Prelude.Eq.{bytes_beq, bytes_beq_iff, bytes_eq, string_eq}
use josuke.Prelude.Bytes.{Bytes}
use josuke.Prelude.Dict.{Dict, get, set_default, get-put, some_injective}
use josuke.Deployment.{
  FacetRecord, matches, has_address, Reuse, shared_deployment, staged_deployment, live_deployment,
  existing_deployment,
}

-- Every deployment of the run stands under the hash of its own initcode.
abbrev pub Registered : Dict Bytes FacetRecord → Type 0
Registered run =
    (hash : Bytes) (rec : FacetRecord) → get hash run ≡ some rec → rec.initcode_hash ≡ some hash

-- What a reuse promises of its result.
pub record Sound (hash : Bytes) (reuse : Reuse) : Type 0 where
  pub same_code : (rec : FacetRecord) → reuse.0.0 ≡ some rec → rec.initcode_hash ≡ some hash
  pub registered : Registered reuse.1

matches-eq :
    (hash : Bytes) (rec : FacetRecord) → matches hash rec ≡ true → rec.initcode_hash ≡ some hash
matches-eq hash rec h = go rec.initcode_hash h
  where
    go :
        (o : Option Bytes)
        → (elim o as (λ _. Bool) [ some x ↦ bytes_beq x hash | none ↦ false ]) ≡ true
        → o ≡ some hash
    go none e = cc
    go (some x) e = ap some ((bytes_beq_iff x hash).0 e)

set_default-Registered :
    (hash : Bytes) (rec : FacetRecord) (run : Dict Bytes FacetRecord)
    → rec.initcode_hash ≡ some hash
    → Registered run
    → Registered (set_default hash rec run)
unfolding set_default
set_default-Registered hash rec run h r = elim (Option-cases (get hash run)) [
  | inl e ↦
      rw (e, set_default)
        (λ j found p.
          elim (if_cases (bytes_beq hash j) (some rec) (get j run)
            (sym (get-put hash j rec run) ∙ p)) [
              | inl (same, q) ↦
                  subst (λ i. found.initcode_hash ≡ some i) ((bytes_beq_iff hash j).0 same)
                    (subst (λ (x : FacetRecord). x.initcode_hash ≡ some hash) (some_injective q) h)
              | inr (_, q) ↦ r j found q
            ])
  | inr (w, e) ↦ rw (e, set_default) r
]

set_default-Sound :
    (hash : Bytes) (rec : FacetRecord) (run : Dict Bytes FacetRecord)
    → matches hash rec ≡ true
    → Registered run
    → Sound hash ((some rec, false), set_default hash rec run)
set_default-Sound hash rec run h r = record {
  same_code = λ found p.
      subst (λ x. x.initcode_hash ≡ some hash) (some_injective p) (matches-eq hash rec h);
  registered = set_default-Registered hash rec run (matches-eq hash rec h) r;
}

shared_deployment-Sound :
    (hash : Bytes) (run : Dict Bytes FacetRecord)
    → Registered run
    → Sound hash (shared_deployment hash run)
unfolding shared_deployment
shared_deployment-Sound hash run r = elim (Option-cases (get hash run)) [
  | inl e ↦ rw (e, shared_deployment) (record { same_code = λ rec p. cc; registered = r })
  | inr (w, e) ↦ elim (Bool-cases (has_address w)) [
    | inl a ↦
        rw (e, shared_deployment, a)
          (record { same_code = λ rec p. r hash rec (e ∙ p); registered = r })
    | inr a ↦ rw (e, shared_deployment, a) (record { same_code = λ rec p. cc; registered = r })
  ]
]

and-left : (a b : Bool) → (a && b) ≡ true → a ≡ true
and-left true b h = refl
and-left false b h = h

staged_deployment-Sound :
    (hash : Bytes) (staged : Option FacetRecord) (run : Dict Bytes FacetRecord)
    → Registered run
    → Sound hash (staged_deployment hash staged run)
unfolding staged_deployment
staged_deployment-Sound hash none run r = shared_deployment-Sound hash run r
staged_deployment-Sound hash (some staged) run r =
    elim (Bool-cases (matches hash staged && has_address staged)) [
      | inl e ↦ rw e (
          set_default-Sound hash staged run (and-left (matches hash staged) (has_address staged) e)
            r)
      | inr e ↦ rw e (shared_deployment-Sound hash run r)
    ]

live_deployment-Sound :
    (hash : Bytes) (live staged : Option FacetRecord) (run : Dict Bytes FacetRecord)
    → Registered run
    → Sound hash (live_deployment hash live staged run)
unfolding live_deployment
live_deployment-Sound hash none staged run r = staged_deployment-Sound hash staged run r
live_deployment-Sound hash (some live) staged run r = elim (Bool-cases (matches hash live)) [
  | inl e ↦ rw e (set_default-Sound hash live run e r)
  | inr e ↦ rw e (staged_deployment-Sound hash staged run r)
]

-- Where every deployment of the run stands under its own initcode's hash, the deployment that is
-- reused has the initcode that is wanted, and the run's deployments keep standing under their hashes.
pub existing_deployment-Sound :
    (source_id : String) (hash : Bytes) (current proposed : Dict String FacetRecord)
    (run : Dict Bytes FacetRecord) (redeploy_all : Bool)
    → Registered run
    → Sound hash (existing_deployment source_id hash current proposed run redeploy_all)
unfolding existing_deployment
existing_deployment-Sound source_id hash current proposed run true r =
    shared_deployment-Sound hash run r
existing_deployment-Sound source_id hash current proposed run false r =
    live_deployment-Sound hash (get source_id current) (get source_id proposed) run r
