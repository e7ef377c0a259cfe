-- ===== src/Config/Parse.antt =====
-- The parsers of environment variables of internal/config/config.go, with what they call of the
-- packages `strings` and `strconv`. A variable is its text, empty if it is not set.
pub mod RoundTrip
use shiro_distributed_system.Common.{
  ℕ, zero, suc, ◌+◌, ◌-◌, ◌*◌, ◌^◌, Bool, not, ◌&&◌, ◌||◌, Option, none, some, List, [], ◌∷◌, Text,
  ℤ, pos, negsuc, leb, nat_eq, leb_ℤ, ltb_ℤ, is_empty, trim_space, to_lower, text_eq, codes, select,
  map, if◌then◌else◌, text_key,
}
use shiro_distributed_system.Common.Assoc.{Map, insert}
use shiro_distributed_system.Common.Decimal.{digits_from}
use shiro_distributed_system.Config.{VersionRange}

-- Puts a character in front of the first part.
abbrev extend : ℕ → List Text → List Text
extend c [] = (c ∷ []) ∷ []
extend c (part ∷ parts) = (c ∷ part) ∷ parts

-- strings.Split by one character.
unfoldable pub split : ℕ → Text → List Text
split sep [] = [] ∷ []
split sep (c ∷ s) = let rest = split sep s in if nat_eq c sep then [] ∷ rest else extend c rest

abbrev ahead : ℕ → Option (Text × Text) → Option (Text × Text)
ahead c none = none
ahead c (some (before, after)) = some (c ∷ before, after)

-- strings.SplitN by one character into two parts; none if there is only one.
unfoldable pub split_pair : ℕ → Text → Option (Text × Text)
split_pair sep [] = none
split_pair sep (c ∷ s) =
    let rest = split_pair sep s in if nat_eq c sep then some ([], s) else ahead c rest

abbrev at_most : ℕ → (ℕ → ℤ) → Option ℕ → Option ℤ
at_most bound sign none = none
at_most bound sign (some n) = if leb n bound then some (sign n) else none

abbrev minus : ℕ → ℤ
minus zero = pos 0
minus (suc n) = negsuc n

-- strconv.Atoi, and strconv.ParseInt to base 10 and 64 bits: an optional sign and digits, in range.
unfoldable pub atoi : Text → Option ℤ
unfolding digits_from
atoi [] = none
atoi (c ∷ s) =
    if nat_eq c b'-'
    then if is_empty s then none else at_most (2 ^ 63) minus (digits_from 0 s)
    else if nat_eq c b'+'
    then if is_empty s then none else at_most (2 ^ 63 - 1) pos (digits_from 0 s)
    else at_most (2 ^ 63 - 1) pos (digits_from 0 (c ∷ s))

unfoldable pub env_or : Text → Text → Text
env_or v fallback = if is_empty v then fallback else v

abbrev pub non_empty : Text → Bool
non_empty s = not (is_empty s)

unfoldable pub split_or : Text → Text → List Text
unfolding env_or split
split_or v fallback = select non_empty (map trim_space (split b',' (env_or v fallback)))

-- The host's name, or none if it is not known.
unfoldable pub host_or : Option Text → Text → Text
host_or none fallback = fallback
host_or (some h) fallback = if is_empty h then fallback else h

unfoldable pub bool_or : Text → Bool → Bool
bool_or text fallback =
    let v = trim_space (to_lower text) in
    if is_empty v
    then fallback
    else text_eq v (codes "1")
      || text_eq v (codes "true")
      || text_eq v (codes "yes")
      || text_eq v (codes "on")

abbrev number_or : Option ℤ → ℤ → ℤ
number_or none fallback = fallback
number_or (some n) fallback = n

unfoldable pub int_or : Text → ℤ → ℤ
unfolding atoi
int_or text fallback =
    let v = trim_space text in if is_empty v then fallback else number_or (atoi v) fallback

-- One entry `key=number`.
unfoldable pub int_entry : Text → Option (Text × ℤ)
unfolding atoi split_pair
int_entry pair = elim (split_pair b'=' (trim_space pair)) [
  | none ↦ none
  | some (k, v) ↦
      if is_empty (trim_space k)
      then none
      else elim (atoi (trim_space v)) [ none ↦ none | some n ↦ some (trim_space k, n) ]
]

-- The entries that are read, later ones over earlier ones; the others are passed over.
unfoldable pub collect :
    {V : Type 0} → (Text → Option (Text × V)) → List Text → Map Text V → Map Text V
collect entry [] out = out
collect entry (text ∷ texts) out =
    collect entry texts (elim (entry text) [ none ↦ out | some (k, v) ↦ insert k v out ])

-- parseIntMap and parseInt64Map; an empty text has one entry, which is passed over.
unfoldable pub parse_int_map : Text → Map Text ℤ
unfolding int_entry collect split
parse_int_map text = collect int_entry (split b',' (trim_space text)) []

-- The range `min-max`, if it starts at 1 or above and is not empty.
unfoldable pub range_of : Option ℤ → Option ℤ → Option VersionRange
range_of (some low) (some high) =
    if leb_ℤ low (pos 0) || ltb_ℤ high low then none else some (record { min = low; max = high })
range_of _ _ = none

-- One entry `type:min-max`; the type may be empty.
unfoldable pub version_entry : Text → Option (Text × VersionRange)
unfolding range_of atoi split_pair
version_entry text = elim (split_pair b':' (trim_space text)) [
  | none ↦ none
  | some (evt, bounds) ↦ elim (split_pair b'-' (trim_space bounds)) [
    | none ↦ none
    | some (low, high) ↦ elim (range_of (atoi (trim_space low)) (atoi (trim_space high))) [
      | none ↦ none
      | some range ↦ some (trim_space evt, range)
    ]
  ]
]

unfoldable pub parse_schema_version_rules : Text → Map Text VersionRange
unfolding version_entry collect split
parse_schema_version_rules text = collect version_entry (split b',' (trim_space text)) []

abbrev if_any : Text → List Text → Option (Text × List Text)
if_any evt [] = none
if_any evt (field ∷ fields) = some (evt, field ∷ fields)

-- One entry `type=field|field`.
unfoldable pub fields_entry : Text → Option (Text × List Text)
unfolding split_pair split
fields_entry text = elim (split_pair b'=' (trim_space text)) [
  | none ↦ none
  | some (evt, fields) ↦
      if is_empty (trim_space evt)
      then none
      else if_any (trim_space evt) (select non_empty (map trim_space (split b'|' fields)))
]

unfoldable pub parse_required_field_rules : Text → Map Text (List Text)
unfolding fields_entry collect split
parse_required_field_rules text = collect fields_entry (split b';' (trim_space text)) []
