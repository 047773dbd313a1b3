-- ===== src/Prelude/Units.antt =====
-- UTF-16 code units: surrogates, pairs of them, and the units that JSON escapes with one letter.
use commitment_workbench.Prelude.Tests.{leb, ◌==◌}
use commitment_workbench.Prelude.Texts.{Text}
use Prim.Native.Nat.{ℕ}
use mathlib.Core.Bool.{Bool, false, ◌&&◌, ◌||◌}
use mathlib.Core.List.{[], ◌∷◌}

abbrev pub is_high : ℕ → Bool
is_high c = leb 55296 c && leb c 56319

abbrev pub is_low : ℕ → Bool
is_low c = leb 56320 c && leb c 57343

abbrev pub low_first : Text → Bool
low_first [] = false
low_first (c ∷ cs) = is_low c

-- A unit with a short escape: a quote, a backslash, \b, \t, \n, \f, \r
abbrev pub has_short_escape : ℕ → Bool
has_short_escape c = c == 34 || c == 92 || c == 8 || c == 9 || c == 10 || c == 12 || c == 13
