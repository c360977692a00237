-- ===== src/Storage/Ends.antt =====
-- storage.py: why the search of `fetch` ends, where the dispatches read finitely many slots.
use josuke.Prelude.{
  ℕ, ◌+◌, ◌≤◌, ◌<◌, ◌≡◌, refl, sym, ap, ◌∙◌, subst, inl, inr, Bool, true, false, ◌||◌, Bool-cases,
  none, some, String, List, [], ◌∷◌, length, leb, if◌then◌else◌, In, arith,
}
use josuke.Prelude.Eq.{◌==◌, string_eq}
use josuke.Prelude.Dict.{has}
use josuke.Storage.Trace.{
  Event, has_text, add_text, reads_until, is_read_of, steered_by, slots_read,
}
use josuke.Storage.Walk.{Slots, Relay, without}

-- How many of the slots fail the test.
abbrev pub count : (String → Bool) → List String → ℕ
count p [] = 0
count p (x ∷ xs) = (if p x then 0 else 1) + count p xs

pub count_le :
    (p q : String → Bool) (xs : List String)
    → ((x : String) → p x ≡ true → q x ≡ true)
    → count q xs ≤ count p xs
count_le p q [] h = omega arith
count_le p q (x ∷ xs) h = elim (Bool-cases (p x)) [
  | inl t ↦ ground (arith, h x t, count_le p q xs h)
  | inr f ↦ ground (arith, f, count_le p q xs h)
]

pub count_less :
    (p q : String → Bool) (x : String) (xs : List String)
    → ((y : String) → p y ≡ true → q y ≡ true)
    → In x xs
    → p x ≡ false
    → q x ≡ true
    → count q xs < count p xs
count_less p q x [] h m f t = absurd m
count_less p q x (y ∷ xs) h (inl e) f t = ground (arith, ap p e, ap q e, f, t, count_le p q xs h)
count_less p q x (y ∷ xs) h (inr m) f t = elim (Bool-cases (p y)) [
  | inl u ↦ ground (arith, u, h y u, count_less p q x xs h m f t)
  | inr u ↦ ground (arith, u, count_less p q x xs h m f t)
]

pub count-length : (p : String → Bool) (xs : List String) → count p xs ≤ length xs
count-length p [] = omega arith
count-length p (x ∷ xs) = ground (arith, count-length p xs)

-- The slots that the events read are among `slots`.
abbrev pub Among : List String → List Event → Type 0
Among slots events = (depth : ℕ) (slot : String) → In (depth, some slot) events → In slot slots

-- No call of a selector reads another slot of the proxy's.
abbrev pub Within : Relay → List String → Type 0
Within relay slots = (s : String) (known : Slots) → Among slots (relay.call s known).events

Among-tail :
    (slots : List String) (e : Event) (events : List Event)
    → Among slots (e ∷ events)
    → Among slots events
Among-tail slots e events h depth slot m = h depth slot (inr m)

pub In-slots_read :
    (slots : List String) (x : String) (events : List Event) (seen : List String)
    → Among slots events
    → In x (slots_read events seen)
    → In x slots
unfolding slots_read
In-slots_read slots x [] seen h m = absurd m
In-slots_read slots x ((depth, none) ∷ events) seen h m =
    In-slots_read slots x events seen (Among-tail slots (depth, none) events h) m
In-slots_read slots x ((depth, some slot) ∷ events) seen h m =
    go (has_text slot seen)
      (λ k.
        In-slots_read slots x events (add_text slot seen)
          (Among-tail slots (depth, some slot) events h) k)
      m
  where
    go :
        (b : Bool)
        → (In x (slots_read events (add_text slot seen)) → In x slots)
        → In x (
            if b
            then slots_read events (add_text slot seen)
            else slot ∷ slots_read events (add_text slot seen))
        → In x slots
    go true ih k = ih k
    go false ih (inl e) = subst (λ y. In y slots) (sym e) (h depth slot (inl refl))
    go false ih (inr k) = ih k

pub In-add_text : (x y : String) (ys : List String) → In x (add_text y ys) → In x (y ∷ ys)
In-add_text x y ys m = elim (Bool-cases (has_text y ys)) [
  | inl t ↦ inr (rw t at m)
  | inr f ↦ rw f at m
]

In-reads_until :
    (slots : List String) (x : String) (at : ℕ) (events : List Event) (acc : List String)
    → Among slots events
    → ((y : String) → In y acc → In y slots)
    → In x (reads_until at events acc)
    → In x slots
unfolding reads_until
In-reads_until slots x at [] acc h k m = k x m
In-reads_until slots x at ((depth, none) ∷ events) acc h k m =
    go (leb depth at)
      (λ n. In-reads_until slots x at events acc (Among-tail slots (depth, none) events h) k n) m
  where
    go :
        (b : Bool)
        → (In x (reads_until at events acc) → In x slots)
        → In x (if b then acc else reads_until at events acc)
        → In x slots
    go true ih n = k x n
    go false ih n = ih n
In-reads_until slots x at ((depth, some slot) ∷ events) acc h k m =
    In-reads_until slots x at events (add_text slot acc)
      (Among-tail slots (depth, some slot) events h) (λ y n. more y (In-add_text y slot acc n)) m
  where
    more : (y : String) → In y (slot ∷ acc) → In y slots
    more y (inl e) = subst (λ z. In z slots) (sym e) (h depth slot (inl refl))
    more y (inr n) = k y n

pub In-steered_by :
    (slots : List String) (x key : String) (events : List Event)
    → Among slots events
    → In x (steered_by events key)
    → In x slots
unfolding steered_by
In-steered_by slots x key [] h m = absurd m
In-steered_by slots x key ((depth, slot) ∷ events) h m =
    go (is_read_of key slot)
      (λ n. In-steered_by slots x key events (Among-tail slots (depth, slot) events h) n) m
  where
    go :
        (b : Bool)
        → (In x (steered_by events key) → In x slots)
        → In x (if b then reads_until depth events [] else steered_by events key)
        → In x slots
    go true ih n =
        In-reads_until slots x depth events [] (Among-tail slots (depth, slot) events h)
          (λ y z. absurd z) n
    go false ih n = ih n

pub In-without :
    (known : Slots) (key x : String) (slots : List String)
    → In x (without known key slots)
    → In x slots × (has x known ≡ false)
unfolding without
In-without known key x [] m = absurd m
In-without known key x (y ∷ slots) m =
    go (has y known || y == key) refl (λ n. In-without known key x slots n) m
  where
    go :
        (b : Bool)
        → (has y known || y == key) ≡ b
        → (In x (without known key slots) → In x slots × (has x known ≡ false))
        → In x (if b then without known key slots else y ∷ without known key slots)
        → In x (y ∷ slots) × (has x known ≡ false)
    go true e ih n = let (p, q) = ih n in (inr p, q)
    go false e ih (inl p) = (inl p, ap (λ z. has z known) p ∙ ground (arith, e))
    go false e ih (inr n) = let (p, q) = ih n in (inr p, q)
