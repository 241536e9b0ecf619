-- ===== src/Prelude/Text.antt =====
-- Python's `str` as a native text: its code points, its UTF-8 bytes, and decimal numerals.
use Prim.Native.Nat.{ℕ, zero, suc, ◌+◌, ◌/◌, ◌%◌}
use Prim.Native.Char.{code}
use Prim.Native.String.{String}
use mathlib.Core.List.{List, [], ◌∷◌, ◌++◌}
use kswarm.Prelude.Tests.{ltb, if◌then◌else◌}
use kswarm.Prelude.Bytes.{Bytes}

-- The code points of a text. `String` has its own `[]` and `∷`.
abbrev pub codes : String → List ℕ
codes String.[] = []
codes (String.◌∷◌ c s) = code c ∷ codes s

-- `chr(c).encode("utf-8")`
unfoldable pub utf8_char : ℕ → Bytes
utf8_char c =
    if ltb c 0x80
    then c ∷ []
    else if ltb c 0x800
    then (0xc0 + c / 0x40) ∷ (0x80 + c % 0x40) ∷ []
    else if ltb c 0x10000
    then (0xe0 + c / 0x1000) ∷ (0x80 + c / 0x40 % 0x40) ∷ (0x80 + c % 0x40) ∷ []
    else (0xf0 + c / 0x40000)
      ∷ (0x80 + c / 0x1000 % 0x40)
      ∷ (0x80 + c / 0x40 % 0x40)
      ∷ (0x80 + c % 0x40)
      ∷ []

unfoldable pub utf8_codes : List ℕ → Bytes
unfolding utf8_char
utf8_codes [] = []
utf8_codes (c ∷ cs) = utf8_char c ++ utf8_codes cs

-- `text.encode("utf-8")`
unfoldable pub utf8 : String → Bytes
unfolding utf8_codes
utf8 s = utf8_codes (codes s)

-- The digits of `n` in front of `acc`; as many rounds as the number itself are enough.
unfoldable pub decimal_loop : ℕ → ℕ → List ℕ → List ℕ
decimal_loop zero n acc = acc
decimal_loop (suc fuel) n acc =
    let acc' = (48 + n % 10) ∷ acc in
    let rest = decimal_loop fuel (n / 10) acc' in if ltb n 10 then acc' else rest

-- `str(n)`
unfoldable pub decimal : ℕ → List ℕ
unfolding decimal_loop
decimal n = decimal_loop (suc n) n []
