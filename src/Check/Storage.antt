-- ===== src/Check/Storage.antt =====
-- src/josuke/check.py: the variables that layouts declare, and `_check_storage`, which compares the
-- declarations of a proxy's facets where they overlap.
use josuke.Prelude.{
  ℕ, ◌+◌, ◌*◌, ◌/◌, Bool, false, ◌&&◌, ◌||◌, Option, none, some, String, List, [], ◌∷◌, ◌++◌, map,
  ltb, leb, nat_beq, if◌then◌else◌, concat_map,
}
use josuke.Prelude.Eq.{◌==◌, string_eq, nat_eq, string_le}
use josuke.Prelude.Sort.{sort_by}
use josuke.Check.{Node, function, Shape, same_shape}

-- A declared variable, over bytes from `start` up to `end`; `type_label` is the field `type`.
pub record Decl : Type 0 where
  pub start : ℕ
  pub end : ℕ
  pub source : String
  pub label : String
  pub type_label : String
  pub shape : Shape

-- A variable of solc's layout, with what its `types` say of its type, and the type's `_shape`.
pub record Variable : Type 0 where
  pub label : String
  pub slot : ℕ
  pub offset : ℕ
  pub number_of_bytes : ℕ
  pub type_label : String
  pub shape : Shape

-- A source's layout, if it has one.
abbrev pub Layouts : Type 0
Layouts = List (String × Option (List Variable))

abbrev pub decl_of : String → Variable → Decl
decl_of source_id var = record {
  start = var.slot * 32 + var.offset;
  end = var.slot * 32 + var.offset + var.number_of_bytes;
  source = source_id;
  label = var.label;
  type_label = var.type_label;
  shape = var.shape;
}

abbrev pub declared_by : String × Option (List Variable) → List Decl
declared_by (source_id, none) = []
declared_by (source_id, some storage) = map (decl_of source_id) storage

-- The order of `(start, end, source)`.
abbrev pub decl_le : Decl → Decl → Bool
decl_le a b =
    ltb a.start b.start
    || (nat_beq a.start b.start
        && (ltb a.end b.end || (nat_beq a.end b.end && string_le a.source b.source)))

-- `_declarations`
unfoldable pub declarations : Layouts → List Decl
declarations layouts = sort_by decl_le (concat_map declared_by layouts)

-- A message about one proxy, by what it prints: declarations, the deployment that it compares with, and
-- the place that a variable moves to. The proxy's address heads each.
pub data Message : Type 0 where
  overlapping : Decl → Decl → Message
  internal_function : Decl → Message
  moved : String → Decl → ℕ → Message
  undeclared : String → Decl → Message
  unreadable : String → Message
  replaced : String → Decl → Decl → Message
  renamed_in : String → Decl → Decl → Message

-- Whether the two are printed alike.
abbrev pub printed_alike : Decl → Decl → Bool
printed_alike a b =
    nat_beq a.start b.start
    && (a.source == b.source && (a.type_label == b.type_label && a.label == b.label))

-- `was`, but for the deployment.
abbrev pub names_alike : Decl → Decl → Bool
names_alike a b = a.source == b.source && (a.type_label == b.type_label && a.label == b.label)

abbrev pub same_message : Message → Message → Bool
same_message (overlapping b a) (overlapping d c) = printed_alike b d && printed_alike a c
same_message (internal_function d) (internal_function e) =
    nat_beq d.start e.start && (d.type_label == e.type_label && d.label == e.label)
same_message (moved w o to) (moved v p at) = w == v && (printed_alike o p && nat_beq to at)
same_message (undeclared w o) (undeclared v p) = w == v && printed_alike o p
same_message (replaced w n o) (replaced v m p) = w == v && (printed_alike n m && names_alike o p)
same_message (renamed_in w n o) (renamed_in v m p) =
    w == v
    && (nat_beq n.start m.start
        && (n.type_label == m.type_label && n.label == m.label)
        && names_alike o p)
same_message (unreadable w) (unreadable v) = w == v
same_message _ _ = false

abbrev pub has_message : Message → List Message → Bool
has_message m [] = false
has_message m (x ∷ xs) = same_message x m || has_message m xs

pub record Findings : Type 0 where
  pub failures : List Message
  pub warnings : List Message

-- `Findings.fail`, `Findings.warn`
unfoldable pub fail : Message → Findings → Findings
fail m f = if has_message m f.failures then f else record f { failures = f.failures ++ (m ∷ []) }

unfoldable pub warn : Message → Findings → Findings
warn m f = if has_message m f.warnings then f else record f { warnings = f.warnings ++ (m ∷ []) }

abbrev pub is_internal : Node → Bool
is_internal (function size internal) = internal
is_internal _ = false

unfoldable pub any_internal : Shape → Bool
any_internal [] = false
any_internal (a ∷ shape) = is_internal a || any_internal shape

unfoldable pub warn_internal : List Decl → Findings → Findings
unfolding warn any_internal
warn_internal [] f = f
warn_internal (d ∷ declared) f =
    warn_internal declared (if any_internal d.shape then warn (internal_function d) f else f)

-- One variable: the same bytes, name and type.
unfoldable pub same_variable : Decl → Decl → Bool
same_variable a b =
    nat_beq a.start b.start
    && (nat_beq a.end b.end && a.label == b.label)
    && same_shape a.shape b.shape

-- The findings, and the slots declared alike by two facets.
pub record Compared : Type 0 where
  pub findings : Findings
  pub shared : List ℕ

abbrev pub has_slot : ℕ → List ℕ → Bool
has_slot n [] = false
has_slot n (m ∷ ms) = nat_beq m n || has_slot n ms

unfoldable pub compare_pair : Decl → Decl → Compared → Compared
unfolding fail same_variable
compare_pair a b c =
    if a.source == b.source
    then c
    else if same_variable a b
    then record c {
      shared = if has_slot (a.start / 32) c.shared then c.shared else (a.start / 32) ∷ c.shared;
    }
    else record c { findings = fail (overlapping b a) c.findings }

-- The inner loop, which stops at the first declaration past the end of `a`.
unfoldable pub compare_later : Decl → List Decl → Compared → Compared
unfolding compare_pair
compare_later a [] c = c
compare_later a (b ∷ later) c =
    let rest = compare_later a later (compare_pair a b c) in if leb a.end b.start then c else rest

unfoldable pub compare_each : List Decl → Compared → Compared
unfolding compare_later
compare_each [] c = c
compare_each (a ∷ later) c = compare_each later (compare_later a later c)

-- `_check_storage`, but for its line of the report.
unfoldable pub check_storage : List Decl → Findings → Compared
unfolding warn_internal compare_each
check_storage declared findings =
    compare_each declared (record { findings = warn_internal declared findings; shared = [] })
