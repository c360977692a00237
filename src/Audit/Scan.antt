-- ===== src/Audit/Scan.antt =====
-- How the scans of audit.py fail, and the results of a fallible step.
use josuke.Prelude.{ℕ, ◌≡◌, ◌≢◌, refl}

-- An `RpcError` for one block, a bad response to a window, a proxy with no code at a block, or any
-- other error of the node, which propagates.
pub data ScanError : Type 0 where
  block_error : ℕ → ScanError
  bad_response : ℕ → ℕ → ScanError
  no_code : ℕ → ScanError
  rpc_error : ScanError

-- `stuck` is no Python value: a loop ran out of fuel.
pub data Scan {ℓ} (A : Type ℓ) : Type ℓ where
  ok : A → Scan A
  err : ScanError → Scan A
  stuck : Scan A

infixl 5 ◌>>=◌
abbrev pub ◌>>=◌ {ℓ κ} : {A : Type ℓ} {B : Type κ} → Scan A → (A → Scan B) → Scan B
stuck >>= next = stuck
err why >>= next = err why
ok value >>= next = next value

pub ok_injective {ℓ} : {A : Type ℓ} {a b : A} → ok a ≡ ok b → a ≡ b
ok_injective h = cc

-- Inversion of a successful bind.
pub >>=-eq-ok {ℓ κ} :
    {A : Type ℓ} {B : Type κ} {out : B} (step : Scan A) (next : A → Scan B)
    → (step >>= next) ≡ ok out
    → (value : A) × (step ≡ ok value) × (next value ≡ ok out)
>>=-eq-ok stuck next h = cc
>>=-eq-ok (err why) next h = cc
>>=-eq-ok (ok value) next h = (value, refl, h)

pub >>=-ne-stuck {ℓ κ} :
    {A : Type ℓ} {B : Type κ} (m : Scan A) (f : A → Scan B)
    → m ≢ stuck
    → ((a : A) → m ≡ ok a → f a ≢ stuck)
    → (m >>= f) ≢ stuck
>>=-ne-stuck (ok a) f h k = k a refl
>>=-ne-stuck (err e) f h k = λ p. cc
>>=-ne-stuck stuck f h k = absurd (h refl)

pub ok-ne-stuck {ℓ} : {A : Type ℓ} (a : A) → ok a ≢ stuck
ok-ne-stuck a e = cc
