-- ===== src/Common/Text.antt =====
-- Python's methods of texts that the program calls, by the code points of a text.
use Prim.Native.Nat.{ℕ, zero, suc, ◌+◌, ◌-◌}
use Prim.Native.Char.{code}
use Prim.Native.String.{String, len, slice}
use mathlib.Core.Bool.{Bool, true, false, ◌&&◌, ◌||◌}
use mathlib.Core.Option.{Option, none, some}
use mathlib.Core.List.{List, [], ◌∷◌, map}
use text.Mathlib.Text.{char_at?, find?}
use ai_employee_os.Common.Tests.{eqb, leb, if◌then◌else◌}
use ai_employee_os.Common.Lists.{length, any}

-- A character with its place, counted in bytes
abbrev codes_from : String → ℕ → ℕ → List (ℕ × ℕ)
codes_from s zero at = []
codes_from s (suc fuel) at =
    let rest = codes_from s fuel (suc at) in
    elim (char_at? s at) [ none ↦ rest | some c ↦ (at, code c) ∷ rest ]

unfoldable pub placed_codes : String → List (ℕ × ℕ)
placed_codes s = codes_from s (len s) 0

unfoldable pub codes : String → List ℕ
codes s = map (λ (_, c). c) (placed_codes s)

abbrev between : ℕ → ℕ → ℕ → Bool
between low high c = leb low c && leb c high

-- `str.isspace` of a character
unfoldable pub is_space : ℕ → Bool
is_space c =
    between 9 13 c
    || between 28 32 c
    || eqb c 133
    || eqb c 160
    || eqb c 5760
    || between 8192 8202 c
    || between 8232 8233 c
    || eqb c 8239
    || eqb c 8287
    || eqb c 12288

-- Where the first character stands that is not a space, and where the last one ends
abbrev first_word : List (ℕ × ℕ) → Option ℕ
first_word [] = none
first_word ((at, c) ∷ rest) = if is_space c then first_word rest else some at

abbrev next_place : ℕ → List (ℕ × ℕ) → ℕ
next_place after [] = after
next_place after ((at, _) ∷ rest) = at

abbrev last_word : ℕ → List (ℕ × ℕ) → Option ℕ
last_word after [] = none
last_word after ((_, c) ∷ rest) =
    let later = last_word after rest in
    elim later [
      | some place ↦ some place
      | none ↦ if is_space c then none else some (next_place after rest)
    ]

abbrev cut : String → Option ℕ → Option ℕ → String
cut s (some a) (some b) = slice s a b
cut s _ _ = ""

-- `s.strip()`
unfoldable pub strip : String → String
strip s = cut s (first_word (placed_codes s)) (last_word (len s) (placed_codes s))

-- `len(s)`
unfoldable pub len_chars : String → ℕ
len_chars s = length (codes s)

abbrev begins : List ℕ → List ℕ → Bool
begins [] text = true
begins (w ∷ word) [] = false
begins (w ∷ word) (c ∷ text) = eqb w c && begins word text

abbrev occurs : List ℕ → List ℕ → Bool
occurs word [] = begins word []
occurs word (c ∷ text) = begins word (c ∷ text) || occurs word text

-- The lower case of a character, as far as the words that the program searches for can tell:
-- Latin and Russian letters, the Kelvin sign, and the old forms of Russian letters.
unfoldable pub lower_code : ℕ → ℕ
lower_code c =
    if between 65 90 c || between 1040 1071 c
    then c + 32
    else if eqb c 1025
    then 1105
    else if eqb c 8490
    then 107
    else if eqb c 7296
    then 1074
    else if eqb c 7297
    then 1076
    else if eqb c 7298
    then 1086
    else if eqb c 7299
    then 1089
    else if between 7300 7301 c
    then 1090
    else c

-- `word in s`, whatever the case of `s`
unfoldable pub occurs_in : String → String → Bool
occurs_in word s = occurs (codes word) (map lower_code (codes s))

-- `s.lower().startswith(word)` and `s.lower() == word`
unfoldable pub lower_begins : String → String → Bool
lower_begins word s = begins (codes word) (map lower_code (codes s))

unfoldable pub lower_is : String → String → Bool
lower_is word s = lower_begins word s && eqb (len_chars word) (len_chars s)

-- `re.search` of an alternative of words, whatever the case
unfoldable pub any_occurs_in : List String → String → Bool
any_occurs_in words s = any (λ word. occurs_in word s) words

-- `s.partition(mark)[2]`
unfoldable pub after_mark : String → String → String
after_mark mark s = elim (find? s mark) [ none ↦ "" | some at ↦ slice s (at + len mark) (len s) ]

-- `s.endswith(tail)`
unfoldable pub ends_with : String → String → Bool
ends_with s tail =
    leb (len tail) (len s)
    && eqb (length (codes (slice s (len s - len tail) (len s)))) (length (codes tail))
    && begins (codes tail) (codes (slice s (len s - len tail) (len s)))
