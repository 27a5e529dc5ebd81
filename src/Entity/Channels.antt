-- ===== src/Entity/Channels.antt =====
-- `Channel` of internal/domain/entity/notification.go, a Go string type: its constants are constructors,
-- and `other_channel` is any other string, which only `of_string` makes.
use insider_one_notification.Prelude.{
  String, Bool, true, false, List, [], ◌∷◌, ◌≡◌, arith, eq_iff, str_eq, any, if◌then◌else◌,
}

pub data Channel : Type 0 where
  sms email push : Channel
  other_channel : String → Channel

-- The conversion `entity.Channel(s)`.
unfoldable pub of_string : String → Channel
of_string s =
    if str_eq s "sms"
    then sms
    else if str_eq s "email"
    then email
    else if str_eq s "push"
    then push
    else other_channel s

-- The conversion `string(...)`.
unfoldable pub to_string : Channel → String
to_string sms = "sms"
to_string email = "email"
to_string push = "push"
to_string (other_channel s) = s

abbrev pub all_channels : List Channel
all_channels = sms ∷ email ∷ push ∷ []

unfoldable pub is_valid : Channel → Bool
is_valid sms = true
is_valid email = true
is_valid push = true
is_valid (other_channel s) = false

pub to_string-of_string : (s : String) → to_string (of_string s) ≡ s
unfolding to_string of_string
to_string-of_string s = ground (arith, eq_iff s "sms", eq_iff s "email", eq_iff s "push")

-- The test that IsValid spells out by a switch.
pub of_string-is_valid :
    (s : String) → is_valid (of_string s) ≡ any (λ c. str_eq (to_string c) s) all_channels
unfolding to_string of_string is_valid
of_string-is_valid s = ground (
  arith,
  eq_iff s "sms",
  eq_iff s "email",
  eq_iff s "push",
  eq_iff "sms" s,
  eq_iff "email" s,
  eq_iff "push" s,
)
