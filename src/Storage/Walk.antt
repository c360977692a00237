-- ===== src/Storage/Walk.antt =====
-- src/josuke/storage.py: `ProxyStorage.fetch`, the search for the slot that routes each selector. The
-- relay is a parameter: what a call of a selector comes to over a storage, and the slots' values.
use josuke.Prelude.{
  ℕ, zero, suc, ◌+◌, ◌-◌, Bool, true, false, ◌&&◌, ◌||◌, not, Option, none, some, String, List, [],
  ◌∷◌, ◌++◌, if◌then◌else◌, length, take,
}
use josuke.Prelude.Eq.{◌==◌, string_eq, string_le}
use josuke.Prelude.Dict.{Dict, get, put, has, remove, update}
use josuke.Prelude.Sort.{sort_by}
use josuke.Storage.Trace.{Event, has_text, add_text, steered_by, slots_read}

-- What a call comes to: whether it reached the stub, whether a frame of it ran out of gas, its events.
pub record Outcome : Type 0 where
  pub reached : Bool
  pub exhausted : Bool
  pub events : List Event

abbrev pub Slots : Type 0
Slots = Dict String String

pub record Relay : Type 0 where
  pub call : String → Slots → Outcome
  pub routed : String
  pub storage_at : List String → Slots

-- The variables of the search; the queue's end stands first.
pub record Search : Type 0 where
  pub shared : List String
  pub claims : Dict String String
  pub found : Dict String String
  pub failed : List (String × String)
  pub needs : List String
  pub waiting : List String
  pub queue : List String

abbrev pub has_failed : String → String → List (String × String) → Bool
has_failed selector key [] = false
has_failed selector key ((s, k) ∷ failed) =
    (s == selector && k == key) || has_failed selector key failed

-- `reads`
unfoldable pub reads : Relay → Slots → String → List String
unfolding slots_read
reads relay known selector = slots_read (relay.call selector known).events []

-- `steered - known.keys() - {key}`
unfoldable pub without : Slots → String → List String → List String
without known key [] = []
without known key (slot ∷ slots) =
    let rest = without known key slots in
    if has slot known || slot == key then rest else slot ∷ rest

abbrev pub unknown_of : Slots → String → Outcome → List String
unknown_of known key o = if o.exhausted then [] else without known key (steered_by o.events key)

abbrev pub add_all : List String → List String → List String
add_all [] needs = needs
add_all (slot ∷ slots) needs = add_all slots (add_text slot needs)

-- `needs |= slots` and `waiting.append(selector)`
abbrev pub wait : String → List String → Search → Search
wait selector slots w = record w {
  needs = add_all slots w.needs;
  waiting = w.waiting ++ (selector ∷ []);
}

-- What a slot leads to: the selector is done with, or its next slot is tried.
pub data Try : Type 0 where
  stop : Search → Try
  onward : Search → Try

-- It is not the route.
unfoldable pub pass_by : Slots → String → String → Search → Try
pass_by known selector key w = if has key known then onward w else stop (wait selector (key ∷ []) w)

-- The slot routes the selector, and perhaps another too.
unfoldable pub claim : Slots → String → String → Search → Try
unfolding pass_by
claim known selector key w = elim (get key w.claims) as (λ _. Try) [
  | none ↦ stop (record w { claims = put key selector w.claims; found = put selector key w.found })
  | some other ↦ pass_by known selector key (record w {
    shared = key ∷ w.shared;
    claims = remove key w.claims;
    found = remove other w.found;
    queue = other ∷ w.queue;
  })
]

abbrev pub is_empty : List String → Bool
is_empty [] = true
is_empty (x ∷ xs) = false

unfoldable pub settle : Slots → String → String → Outcome → Search → Try
unfolding pass_by claim without
settle known selector key o w =
    if not (is_empty (unknown_of known key o))
    then stop (wait selector (unknown_of known key o) w)
    else if o.reached && not o.exhausted
    then claim known selector key w
    else pass_by known selector key (record w { failed = (selector, key) ∷ w.failed })

unfoldable pub try_key : Relay → Slots → String → String → Search → Try
unfolding settle pass_by
try_key relay known selector key w =
    if has_text key w.shared || has_failed selector key w.failed
    then pass_by known selector key w
    else settle known selector key (relay.call selector (put key relay.routed known)) w

-- The loop over the slots that the selector's dispatch reads.
unfoldable pub walk : Relay → Slots → String → List String → Search → Search
unfolding try_key
walk relay known selector [] w = w
walk relay known selector (key ∷ keys) w =
    elim (try_key relay known selector key w) as (λ _. Search) [
      | stop w' ↦ w'
      | onward w' ↦ walk relay known selector keys w'
    ]

-- `while queue`; `none` where it is out of fuel.
unfoldable pub drain : Relay → Slots → ℕ → Search → Option Search
unfolding walk
drain relay known zero w = none
drain relay known (suc fuel) w = elim w.queue as (λ _. Option Search) [
  | [] ↦ some w
  | selector ∷ queue ↦
      drain relay known fuel
        (walk relay known selector (reads relay known selector) (record w { queue = queue }))
]

-- `dict.fromkeys(waiting)`, less the selectors that have a slot.
unfoldable pub still_open : Dict String String → List String → List String → List String
still_open found [] seen = []
still_open found (s ∷ waiting) seen =
    let rest = still_open found waiting (add_text s seen) in
    if has_text s seen || has s found then rest else s ∷ rest

unfoldable pub backwards : List String → List String → List String
backwards [] out = out
backwards (s ∷ selectors) out = backwards selectors (s ∷ out)

-- `if needs: known.update(...)`
unfoldable pub fetch_slots : Relay → List String → Slots → Slots
unfolding sort_by
fetch_slots relay [] known = known
fetch_slots relay (slot ∷ slots) known =
    update known (relay.storage_at (sort_by string_le (slot ∷ slots)))

abbrev pub begin_round : List String → Search → Search
begin_round pending w = record w { needs = []; waiting = []; queue = backwards pending [] }

-- `while pending`, for dispatches that read no more than `bound` slots; `none` where it is out of fuel.
unfoldable pub search : Relay → ℕ → ℕ → Slots → List String → Search → Option (Slots × Search)
unfolding drain fetch_slots still_open
search relay bound zero known pending w = none
search relay bound (suc fuel) known [] w = some (known, w)
search relay bound (suc fuel) known (s ∷ pending) w =
    elim (drain relay known (length (backwards (s ∷ pending) []) + bound + 1)
        (begin_round (s ∷ pending) w))
      as (λ _. Option (Slots × Search)) [
        | none ↦ none
        | some w' ↦
            search relay bound fuel (fetch_slots relay w'.needs known)
              (still_open w'.found w'.waiting []) w'
      ]

abbrev pub start_search : Search
start_search = record {
  shared = [];
  claims = [];
  found = [];
  failed = [];
  needs = [];
  waiting = [];
  queue = [];
}

-- The slots of the wanted selectors, with a dummy or two beside a lone one.
abbrev pub unwanted : List String → List String → List String
unwanted wanted [] = []
unwanted wanted (d ∷ dummies) =
    if has_text d wanted then unwanted wanted dummies else d ∷ unwanted wanted dummies

unfoldable pub probed : List String → List String
probed wanted =
    wanted ++ take (2 - length wanted) (unwanted wanted ("0xffffffff" ∷ "0xfffffffe" ∷ []))

-- The slots found whose values are not known yet.
unfoldable pub missing_values : List String → Dict String String → Slots → List String
missing_values [] found known = []
missing_values (s ∷ wanted) found known =
    let rest = missing_values wanted found known in
    elim (get s found) [
      | some slot ↦ (if has slot known then rest else add_text slot rest)
      | none ↦ rest
    ]

-- Each selector with its slot and the slot's value; a selector that no slot routes; the `KeyError` of
-- a value that the relay has not given; or a search out of fuel.
pub data Fetched : Type 0 where
  fetched : List (String × String × String) → Fetched
  unrouted : String → Fetched
  key_error : Fetched
  stuck : Fetched

unfoldable pub keep_route : String → String → String → Fetched → Fetched
keep_route s slot value (fetched routes) = fetched ((s, slot, value) ∷ routes)
keep_route s slot value (unrouted t) = unrouted t
keep_route s slot value key_error = key_error
keep_route s slot value stuck = stuck

unfoldable pub routes_of : List String → Dict String String → Slots → Fetched
unfolding keep_route
routes_of [] found known = fetched []
routes_of (s ∷ wanted) found known =
    let rest = routes_of wanted found known in
    elim (get s found) as (λ _. Fetched) [
      | none ↦ unrouted s
      | some slot ↦ (elim (get slot known) as (λ _. Fetched) [
        | none ↦ key_error
        | some value ↦ keep_route s slot value rest
      ])
    ]

-- `fetch`, of selectors given once each, where nothing is known of the proxy's storage.
unfoldable pub fetch : Relay → ℕ → List String → Fetched
unfolding search routes_of missing_values fetch_slots probed
fetch relay bound wanted =
    elim (search relay bound (bound + 2) [] (probed wanted) start_search) as (λ _. Fetched) [
      | none ↦ stuck
      | some (known, w) ↦
          routes_of wanted w.found (fetch_slots relay (missing_values wanted w.found known) known)
    ]
