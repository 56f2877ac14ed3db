-- ===== src/Tests/Strings.antt =====
-- The string helpers at concrete texts.
use dobby_ai.Base.{◌≡◌, ◌↔◌, true, some, ◌∷◌, ◌++◌, Bytes, codes}
use dobby_ai.Text.{str_starts_with}
use dobby_ai.Text.Affix.{str_starts_with_iff}
use dobby_ai.Text.Sanitize.{sanitize_output}
use dobby_ai.Text.Sanitize.Laws.{IsPlain, sanitize_output-IsPlain}

str_starts_with_iff_example :
    (str_starts_with (some (codes "/tmp/a")) (some (codes "/tmp")) ≡ true)
    ↔ ((rest : Bytes) × (codes "/tmp/a" ≡ codes "/tmp" ++ rest))
str_starts_with_iff_example = str_starts_with_iff (codes "/tmp/a") (codes "/tmp")

abbrev coloured : Bytes
coloured = 27 ∷ (codes "[31mred\n")

sanitize_output-IsPlain_example :
    (out : Bytes) × (sanitize_output (some coloured) ≡ some out) × IsPlain out
sanitize_output-IsPlain_example = sanitize_output-IsPlain coloured
