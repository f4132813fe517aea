-- ===== src/Prelude/Text.antt =====
-- The parts of Go's `strings` that the program uses: `TrimSpace` and concatenation. A text is a
-- list of code points.
use Prim.Native.Nat.{ℕ}
use Prim.Native.Char.{Char, code}
use Prim.Native.String.{String}
use mathlib.Core.Bool.{Bool, true, false, ◌&&◌, ◌||◌}
use mathlib.Core.List.{List, [], ◌∷◌, reverse}
use feishu_super_search.Prelude.Tests.{leb, eqb, if◌then◌else◌}

-- unicode.IsSpace: the code points with the property White_Space.
is_space : ℕ → Bool
is_space c =
    (leb 9 c && leb c 13)
    || eqb c 32
    || eqb c 0x85
    || eqb c 0xa0
    || eqb c 0x1680
    || (leb 0x2000 c && leb c 0x200a)
    || eqb c 0x2028
    || eqb c 0x2029
    || eqb c 0x202f
    || eqb c 0x205f
    || eqb c 0x3000

unfoldable pub chars : String → List Char
chars String.[] = []
chars (String.◌∷◌ c s) = c ∷ chars s

unfoldable pub from_chars : List Char → String
from_chars [] = String.[]
from_chars (c ∷ cs) = String.◌∷◌ c (from_chars cs)

drop_spaces : List Char → List Char
unfolding is_space
drop_spaces [] = []
drop_spaces (c ∷ cs) = let rest = drop_spaces cs in if is_space (code c) then rest else c ∷ cs

-- strings.TrimSpace
unfoldable pub trim_space : String → String
unfolding chars from_chars drop_spaces
trim_space s = from_chars (reverse (drop_spaces (reverse (drop_spaces (chars s)))))

-- `strings.TrimSpace(s) == ""`
unfoldable pub is_blank : String → Bool
unfolding trim_space
is_blank s = elim (trim_space s) [ String.[] ↦ true | String.◌∷◌ _ _ ↦ false ]
