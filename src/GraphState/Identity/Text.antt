-- ===== src/GraphState/Identity/Text.antt =====
-- What identity.py uses of Python's `str` and `int`: `str.strip`, `len`, `+` and `str(int)`.
use Prim.Native.Char.{code}
use Prim.Native.String.{◌++◌ as str_concat}
use Prim.Native.String.{count}
use motev.Base.{
  Bool, List, String, [], if◌then◌else◌, leb, list_eq, ltb, nat_eq, nat_ord, option_eq, reverse,
  string_eq, string_ord, suc, zero, ℕ, ◌%◌, ◌&&◌, ◌/◌, ◌==◌, ◌||◌, ◌∷◌,
}

unfoldable pub str_append : String → String → String
str_append s t = str_concat s t

-- The code points of a text.
abbrev pub codes : String → List ℕ
codes String.[] = []
codes (String.◌∷◌ c s) = code c ∷ codes s

-- The code points that `str.isspace` accepts.
unfoldable pub is_space : ℕ → Bool
is_space c =
    leb 9 c && leb c 13
    || leb 28 c && leb c 32
    || c == 133
    || c == 160
    || c == 5760
    || leb 8192 c && leb c 8202
    || c == 8232
    || c == 8233
    || c == 8239
    || c == 8287
    || c == 12288

unfoldable pub lstrip : List ℕ → List ℕ
lstrip [] = []
lstrip (c ∷ cs) = let rest = lstrip cs in if is_space c then rest else c ∷ cs

unfoldable pub strip : List ℕ → List ℕ
unfolding lstrip is_space
strip cs = reverse (lstrip (reverse (lstrip cs)))

unfoldable pub digit : ℕ → String
digit d =
    if d == 0
    then "0"
    else if d == 1
    then "1"
    else if d == 2
    then "2"
    else if d == 3
    then "3"
    else if d == 4
    then "4"
    else if d == 5
    then "5"
    else if d == 6
    then "6"
    else if d == 7
    then "7"
    else if d == 8
    then "8"
    else "9"

-- The digits before the rounds run out; `n` rounds are more than `n` has digits.
unfoldable pub decimal_within : ℕ → ℕ → String
unfolding digit
decimal_within zero n = digit n
decimal_within (suc rounds) n =
    let longer = str_append (decimal_within rounds (n / 10)) (digit (n % 10)) in
    if ltb n 10 then digit n else longer

-- `str(n)`
unfoldable pub decimal : ℕ → String
unfolding decimal_within
decimal n = decimal_within n n

-- `f"{len(value)}:{value}"`
unfoldable pub identity_field : String → String
identity_field value = str_append (decimal (count value)) (str_append ":" value)
