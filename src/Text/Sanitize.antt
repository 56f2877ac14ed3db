-- ===== src/Text/Sanitize.antt =====
-- core/types.c, sanitize_output: escape sequences, lone carriage returns and bytes that are not
-- printable ASCII are dropped.
pub mod Laws
use dobby_ai.Base.{
  ℕ, zero, suc, Bool, true, false, ◌&&◌, ◌||◌, Option, none, some, List, [], ◌∷◌, Bytes, ltb, leb,
  ◌==◌, if◌then◌else◌, length,
}

-- the parameter bytes of a CSI sequence, then its final byte
unfoldable pub skip_csi : Bytes → Bytes
skip_csi [] = []
skip_csi (c ∷ s) = if ltb c 64 || ltb 126 c then skip_csi s else s

-- what stands behind ESC
unfoldable pub skip_escape : Bytes → Bytes
skip_escape [] = []
skip_escape (c ∷ s) = if c == b'[' then skip_csi s else if leb 64 c && leb c 95 then s else c ∷ s

-- One round of the loop at the byte `c`: the byte that is emitted, if any, and the text that is
-- left. A carriage return is dropped in both of its branches.
unfoldable pub sanitize_step : ℕ → Bytes → Option ℕ × Bytes
sanitize_step c s =
    if c == 27
    then (none, skip_escape s)
    else if c == b'\r'
    then (none, s)
    else if c == b'\n' || c == b'\t'
    then (some c, s)
    else if leb 32 c && leb c 126
    then (some c, s)
    else (none, s)

abbrev pub emit : Option ℕ → Option Bytes → Option Bytes
emit e none = none
emit none (some out) = some out
emit (some c) (some out) = some (c ∷ out)

-- The loop, on fuel: every round takes a byte at least. `none` means that the fuel ran out.
unfoldable pub sanitize_loop : ℕ → Bytes → Option Bytes
sanitize_loop zero s = none
sanitize_loop (suc f) [] = some []
sanitize_loop (suc f) (c ∷ s) = let (e, rest) = sanitize_step c s in emit e (sanitize_loop f rest)

-- A null pointer gives the empty text.
unfoldable pub sanitize_output : Option Bytes → Option Bytes
sanitize_output none = some []
sanitize_output (some s) = sanitize_loop (suc (length s)) s
