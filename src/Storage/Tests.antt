-- ===== src/Storage/Tests.antt =====
-- storage.py: a proxy that keeps each selector's delegate in a slot of its own.
use josuke.Prelude.{
  ◌≡◌, refl, sym, ap, subst, inl, inr, Bool, false, Bool-cases, Option, none, some, String, List,
  [], ◌∷◌, if◌then◌else◌, In, arith,
}
use josuke.Prelude.Eq.{◌==◌, string_eq}
use josuke.Prelude.Sort.{sort_by, insert_by}
use josuke.Prelude.Dict.{get, put, remove, update, some_injective}
use josuke.Storage.Trace.{Event, steered_by, reads_until, slots_read}
use josuke.Storage.Walk.{
  Slots, Relay, reads, without, pass_by, claim, settle, try_key, walk, drain, still_open, backwards,
  fetch_slots, search, probed, missing_values, fetched, keep_route, routes_of, fetch,
}
use josuke.Storage.Routes.{Alone}
use josuke.Storage.Ends.{Within}
use josuke.Storage.Fetch.{Serves, Answered, fetch-Answered}

abbrev slot : String → String
slot selector = if selector == "0xaaaaaaaa" then "a" else "b"

abbrev is_stub : Option String → Bool
is_stub none = false
is_stub (some word) = word == "stub"

abbrev zeros : List String → Slots
zeros [] = []
zeros (x ∷ xs) = (x, "0x00") ∷ zeros xs

abbrev relay : Relay
relay = record {
  call = λ selector known. record {
    reached = is_stub (get (slot selector) known);
    exhausted = false;
    events = (1, some (slot selector)) ∷ (1, none) ∷ [];
  };
  routed = "stub";
  storage_at = zeros;
}

abbrev wanted : List String
wanted = "0xaaaaaaaa" ∷ "0xbbbbbbbb" ∷ []

abbrev all : List String
all = "a" ∷ "b" ∷ []

relay-Within : Within relay all
relay-Within s known depth x (inl e) =
    subst (λ y. In y all) (sym (some_injective (ap (λ (p : Event). p.1) e))) among
  where
    among : In (slot s) all
    among = elim (Bool-cases (s == "0xaaaaaaaa")) [
      | inl t ↦ rw t (inl refl)
      | inr f ↦ rw f (inr (inl refl))
    ]
relay-Within s known depth x (inr (inl e)) = cc
relay-Within s known depth x (inr (inr m)) = absurd m

relay-Serves : Serves relay
relay-Serves [] x m = absurd m
relay-Serves (y ∷ ys) x (inl e) = let t = (string_eq.same_iff y x).1 (sym e) in ground (arith, t)
relay-Serves (y ∷ ys) x (inr m) = let t = relay-Serves ys x m in ground (arith, t)

wanted-Alone : Alone wanted
wanted-Alone = (apart, (λ m. m, tt))
  where
    apart : In {A = String} "0xaaaaaaaa" ("0xbbbbbbbb" ∷ []) → ⊥
    apart (inl e) = let r = (string_eq.same_iff "0xaaaaaaaa" "0xbbbbbbbb").1 e in cc
    apart (inr m) = m

fetch-Answered_example : Answered wanted (fetch relay 2 wanted)
fetch-Answered_example =
    fetch-Answered relay 2 wanted all relay-Within relay-Serves (omega arith) wanted-Alone

fetch_test :
    fetch relay 2 wanted ≡ fetched (("0xaaaaaaaa", "a", "0x00") ∷ ("0xbbbbbbbb", "b", "0x00") ∷ [])
unfolding fetch search drain walk try_key settle claim pass_by reads without slots_read steered_by
    reads_until still_open backwards fetch_slots probed missing_values keep_route routes_of get put
    remove update sort_by insert_by
fetch_test = refl
