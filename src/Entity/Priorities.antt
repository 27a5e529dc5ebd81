-- ===== src/Entity/Priorities.antt =====
-- `Priority` of internal/domain/entity/notification.go, a Go string type: its constants are constructors,
-- and `other_priority` is any other string, which only `of_string` makes.
use insider_one_notification.Prelude.{
  String, Bool, true, false, List, [], ◌∷◌, ◌≡◌, arith, eq_iff, str_eq, if◌then◌else◌,
}

pub data Priority : Type 0 where
  high normal low : Priority
  other_priority : String → Priority

-- The conversion `entity.Priority(s)`.
unfoldable pub of_string : String → Priority
of_string s =
    if str_eq s "high"
    then high
    else if str_eq s "normal"
    then normal
    else if str_eq s "low"
    then low
    else other_priority s

-- The conversion `string(...)`.
unfoldable pub to_string : Priority → String
to_string high = "high"
to_string normal = "normal"
to_string low = "low"
to_string (other_priority s) = s

abbrev pub all_priorities : List Priority
all_priorities = high ∷ normal ∷ low ∷ []

unfoldable pub is_valid : Priority → Bool
is_valid high = true
is_valid normal = true
is_valid low = true
is_valid (other_priority s) = false

pub to_string-of_string : (s : String) → to_string (of_string s) ≡ s
unfolding to_string of_string
to_string-of_string s = ground (arith, eq_iff s "high", eq_iff s "normal", eq_iff s "low")
