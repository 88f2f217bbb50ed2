-- ===== src/RemoteLog/Line.antt =====
-- What the log hook does to a line: colours off, the standard prefix parsed, the line filtered.
pub mod Strip
pub mod Parse
pub mod Tests
use iot_sms.Base.{
  ℕ, zero, suc, ◌+◌, ◌-◌, ◌*◌, ◌%◌, ◌^◌, Bool, true, false, not, ◌&&◌, ◌||◌, List, [], ◌∷◌, ◌++◌,
  Option, none, some, Bytes, codes, length, ltb, leb, ◌==◌, if◌then◌else◌,
}
use iot_sms.CString.{str_eq, split_at_char}

-- Where the loop of `rl_strip_line` stands: at a character of the text, behind an escape
-- character, or inside a control sequence.
pub data StripMode : Type 0 where
  at_text behind_escape in_sequence : StripMode

-- A byte that ends a control sequence.
abbrev pub is_final : ℕ → Bool
is_final c = leb 0x40 c && leb c 0x7E

-- The loop of `rl_strip_line`.
unfoldable pub drop_colours : StripMode → Bytes → Bytes
drop_colours mode [] = []
drop_colours at_text (c ∷ s) =
    let escape = drop_colours behind_escape s in
    let kept = c ∷ drop_colours at_text s in if c == 0x1B then escape else kept
drop_colours behind_escape (c ∷ s) =
    let sequence = drop_colours in_sequence s in
    let escape = drop_colours behind_escape s in
    let kept = c ∷ drop_colours at_text s in
    if c == b'[' then sequence else if c == 0x1B then escape else kept
drop_colours in_sequence (c ∷ s) =
    let further = drop_colours in_sequence s in
    let ended = drop_colours at_text s in if is_final c then ended else further

abbrev pub is_line_end : ℕ → Bool
is_line_end c = c == 0x0A || c == 0x0D

-- The line without the line ends behind it.
unfoldable pub drop_line_ends : Bytes → Bytes
drop_line_ends [] = []
drop_line_ends (c ∷ s) =
    let rest = drop_line_ends s in if is_line_end c && length rest == 0 then [] else c ∷ rest

unfoldable pub rl_strip_line : Bytes → Bytes
rl_strip_line buf = drop_line_ends (drop_colours at_text buf)

pub record Prefix : Type 0 where
  pub level : ℕ
  pub tag : Bytes
  pub ts_ms : ℕ

abbrev pub is_digit : ℕ → Bool
is_digit c = leb b'0' c && leb c b'9'

-- The loop over the digits, with `ts` of 32 bits, and what follows them.
unfoldable pub read_number : ℕ → Bytes → ℕ × Bytes
read_number ts [] = (ts, [])
read_number ts (c ∷ s) =
    let further = read_number ((ts * 10 + (c - b'0')) % 2 ^ 32) s in
    if is_digit c then further else (ts, c ∷ s)

-- `strchr ("EWIDV", p[0]) != NULL` for a character that is no NUL
abbrev pub is_level : ℕ → Bool
is_level c = c == b'E' || (c == b'W' || (c == b'I' || (c == b'D' || c == b'V')))

-- The tag in front of the first colon.
unfoldable pub parse_tag : ℕ → ℕ → Bytes → Option Prefix
parse_tag level ts s = elim (split_at_char b':' s) [
  | none ↦ none
  | some ([], behind) ↦ none
  | some (c ∷ tag, behind) ↦ some (record { level = level; tag = c ∷ tag; ts_ms = ts })
]

-- The part behind the number.
unfoldable pub parse_rest : ℕ → ℕ × Bytes → Option Prefix
parse_rest level (ts, bracket ∷ space ∷ s) =
    if bracket == b')' && space == b' ' then parse_tag level ts s else none
parse_rest level (ts, _) = none

unfoldable pub rl_parse_prefix : Bytes → Option Prefix
rl_parse_prefix (level ∷ space ∷ bracket ∷ digit ∷ s) =
    if is_level level && (space == b' ' && (bracket == b'(' && is_digit digit))
    then parse_rest level (read_number 0 (digit ∷ s))
    else none
rl_parse_prefix _ = none

unfoldable pub rl_level_num : ℕ → ℕ
rl_level_num level =
    if level == b'E'
    then 1
    else if level == b'W'
    then 2
    else if level == b'I'
    then 3
    else if level == b'D'
    then 4
    else if level == b'V'
    then 5
    else 3

abbrev pub tag_blocklist : List Bytes
tag_blocklist =
    codes "mqtt_client"
    ∷ codes "outbox"
    ∷ codes "transport"
    ∷ codes "transport_base"
    ∷ codes "tcp_transport"
    ∷ codes "transport_ws"
    ∷ codes "esp-tls"
    ∷ []

abbrev pub listed : List Bytes → Bytes → Bool
listed [] tag = false
listed (b ∷ bs) tag = str_eq b tag || listed bs tag

unfoldable pub rl_tag_blocked : Bytes → Bool
rl_tag_blocked tag = listed tag_blocklist tag

-- The filter of the hook, with `CONFIG_APP_REMOTE_LOG_LEVEL`.
unfoldable pub is_forwarded : ℕ → Option Prefix → Bool
is_forwarded max_level none = leb (rl_level_num b'I') max_level
is_forwarded max_level (some p) =
    leb (rl_level_num p.level) max_level
    && not (leb 4 (rl_level_num p.level) && rl_tag_blocked p.tag)
