-- ===== src/Models/Patterns.antt =====
-- The patterns of src/models.ts and src/salted-hash.ts, and their regular expressions.
use auditable_mcp_sdk_ts.Base.Regex.{Regex, range, chars, word, times, plus, maybe, ◌then◌, ◌or◌}

abbrev digit : Regex
digit = range b'0' b'9'

abbrev hex : Regex
hex = range b'0' b'9' or range b'a' b'f'

abbrev any_hex : Regex
any_hex = hex or range b'A' b'F'

-- `SESSION_ID_PATTERN`: a lowercase RFC 9562 UUID
unfoldable pub session_id_regex : Regex
session_id_regex =
    times 8 hex
    then word "-"
    then times 4 hex
    then word "-"
    then range b'1' b'8'
    then times 3 hex
    then word "-"
    then chars "89ab"
    then times 3 hex
    then word "-"
    then times 12 hex

abbrev nil_uuid : Regex
nil_uuid = word "00000000-0000-0000-0000-000000000000"

-- `UUID_PATTERN`
unfoldable pub uuid_regex : Regex
unfolding session_id_regex
uuid_regex = session_id_regex or nil_uuid

unfoldable pub earlier_uuid_regex : Regex
earlier_uuid_regex =
    (times 8 any_hex
      then word "-"
      then times 4 any_hex
      then word "-"
      then range b'1' b'8'
      then times 3 any_hex
      then word "-"
      then chars "89abAB"
      then times 3 any_hex
      then word "-"
      then times 12 any_hex)
    or nil_uuid

-- The last day of February in a leap year.
abbrev leap_day : Regex
leap_day =
    ((digit then digit then chars "2468" then chars "048")
      or (digit then digit then chars "13579" then chars "26")
      or (digit then digit then word "0" then chars "48")
      or (chars "02468" then chars "048" then word "00")
      or (chars "13579" then chars "26" then word "00"))
    then word "-02-29"

-- A day of a month, in any year.
abbrev plain_day : Regex
plain_day =
    times 4 digit
    then word "-"
    then ((((word "0" then chars "13578") or (word "1" then chars "02"))
          then word "-"
          then ((word "0" then range b'1' b'9')
              or (chars "12" then digit)
              or (word "3" then chars "01")))
        or (((word "0" then chars "469") or word "11")
            then word "-"
            then ((word "0" then range b'1' b'9') or (chars "12" then digit) or word "30"))
        or (word "02"
            then word "-"
            then ((word "0" then range b'1' b'9')
                or (word "1" then digit)
                or (word "2" then range b'0' b'8'))))

abbrev hour : Regex
hour = (chars "01" then digit) or (word "2" then range b'0' b'3')

abbrev sixtieth : Regex
sixtieth = range b'0' b'5' then digit

abbrev seconds : Regex
seconds = word ":" then sixtieth then maybe (word "." then plus digit)

-- `DATETIME_PATTERN`
unfoldable pub datetime_regex : Regex
datetime_regex =
    (leap_day or plain_day)
    then word "T"
    then hour
    then word ":"
    then sixtieth
    then seconds
    then word "Z"

-- `EARLIER_DATETIME_PATTERN`: the seconds are optional.
unfoldable pub earlier_datetime_regex : Regex
earlier_datetime_regex =
    (leap_day or plain_day)
    then word "T"
    then hour
    then word ":"
    then sixtieth
    then maybe seconds
    then word "Z"

unfoldable pub chain_hash_regex : Regex
chain_hash_regex = times 64 hex

unfoldable pub context_hash_regex : Regex
context_hash_regex = word "sha256:" then times 64 hex

abbrev base64url : Regex
base64url = range b'A' b'Z' or range b'a' b'z' or range b'0' b'9' or chars "_-"

unfoldable pub signature_regex : Regex
signature_regex = plus base64url

abbrev base64 : Regex
base64 = range b'A' b'Z' or range b'a' b'z' or range b'0' b'9' or chars "+/"

unfoldable pub earlier_signature_regex : Regex
earlier_signature_regex = plus base64 then maybe (word "=") then maybe (word "=")

-- `SALTED_HASH_PATTERN` of src/salted-hash.ts
unfoldable pub salted_hash_regex : Regex
salted_hash_regex = times 43 base64url
