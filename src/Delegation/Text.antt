-- ===== src/Delegation/Text.antt =====
-- The operations on texts that delegation-validate.ts, delegation-normalize.ts and
-- delegated-transport.ts use: trim, split, join, and the removal of `Bearer `.
use Prim.Native.Char.{Char, code}
use Prim.Native.String.{[] as nil, ◌∷◌ as cons}
use Prim.Native.String
use tinycloud_agents.Base.{
  ℕ, ◌+◌, Bool, true, false, ◌&&◌, ◌||◌, Option, none, some, List, [], ◌∷◌, String, leb, nat_beq,
  if◌then◌else◌,
}

-- The white space and the line ends that `String.trim` removes.
abbrev pub is_space : Char → Bool
is_space c =
    let n = code c in
    leb 9 n && leb n 13
    || nat_beq n 32
    || nat_beq n 160
    || nat_beq n 5760
    || leb 8192 n && leb n 8202
    || nat_beq n 8232
    || nat_beq n 8233
    || nat_beq n 8239
    || nat_beq n 8287
    || nat_beq n 12288
    || nat_beq n 65279

-- `s.trim() === ""`.
abbrev pub all_space : String → Bool
all_space nil = true
all_space (cons c s) = is_space c && all_space s

abbrev pub drop_spaces : String → String
drop_spaces nil = nil
drop_spaces (cons c s) = let rest = drop_spaces s in if is_space c then rest else cons c s

abbrev pub drop_last_spaces : String → String
drop_last_spaces nil = nil
drop_last_spaces (cons c s) =
    let rest = drop_last_spaces s in if all_space (cons c s) then nil else cons c rest

abbrev pub trim : String → String
trim s = drop_last_spaces (drop_spaces s)

-- `split`, at a character; there is one part more than separators.
abbrev pub split : ℕ → String → List String
split at_ nil = nil ∷ []
split at_ (cons c s) =
    let rest = split at_ s in
    if nat_beq (code c) at_
    then nil ∷ rest
    else elim rest [ [] ↦ cons c nil ∷ [] | part ∷ parts ↦ cons c part ∷ parts ]

abbrev pub join : String → List String → String
join between [] = nil
join between (part ∷ []) = part
join between (part ∷ other ∷ parts) =
    String.◌++◌ part (String.◌++◌ between (join between (other ∷ parts)))

-- The text after a word of small letters, which the text may write with large ones.
abbrev pub after_word : List ℕ → String → Option String
after_word [] s = some s
after_word (w ∷ ws) nil = none
after_word (w ∷ ws) (cons c s) =
    let rest = after_word ws s in
    let n = code c in
    if nat_beq n w || (leb 65 n && leb n 90 && nat_beq (n + 32) w) then rest else none

abbrev pub starts_with_space : String → Bool
starts_with_space nil = false
starts_with_space (cons c s) = is_space c

-- `replace(/^Bearer\s+/i, "")`.
unfoldable pub strip_bearer : String → String
strip_bearer s = elim (after_word (98 ∷ 101 ∷ 97 ∷ 114 ∷ 101 ∷ 114 ∷ []) s) [
  | none ↦ s
  | some rest ↦ if starts_with_space rest then drop_spaces rest else s
]

-- `includes`, of a character.
abbrev pub has_char : ℕ → String → Bool
has_char n nil = false
has_char n (cons c s) = nat_beq (code c) n || has_char n s
