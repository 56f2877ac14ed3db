-- ===== src/Text/Sanitize/Laws.antt =====
-- sanitize_output ends, keeps plain text, and lets nothing but plain text through.
use dobby_ai.Base.{
  ℕ, zero, suc, ◌≤◌, ◌<◌, ◌≡◌, refl, ap, ◌∙◌, Bool, true, false, ◌&&◌, ◌||◌, Option, none, some, [],
  ◌∷◌, ◌++◌, arith, Bytes, ltb, leb, ◌==◌, length, length-append, All,
}
use dobby_ai.Text.Sanitize.{
  skip_csi, skip_escape, sanitize_step, emit, sanitize_loop, sanitize_output,
}

-- a newline, a tab, or a printable ASCII byte
unfoldable pub is_plain : ℕ → Bool
is_plain c = c == b'\n' || (c == b'\t' || (leb 32 c && leb c 126))

abbrev pub IsPlain : Bytes → Type 0
IsPlain s = All (λ c. is_plain c ≡ true) s

length-skip_csi : (s : Bytes) → length (skip_csi s) ≤ length s
unfolding skip_csi
length-skip_csi [] = omega arith
length-skip_csi (c ∷ s) = ground (arith, length-skip_csi s)

length-skip_escape : (s : Bytes) → length (skip_escape s) ≤ length s
unfolding skip_escape
length-skip_escape [] = omega arith
length-skip_escape (c ∷ s) = ground (arith, length-skip_csi s)

length-sanitize_step : (c : ℕ) (s : Bytes) → length (sanitize_step c s).1 ≤ length s
unfolding sanitize_step
length-sanitize_step c s = ground (arith, length-skip_escape s)

-- what a round emits is plain
abbrev Emits : Option ℕ → Type 0
Emits none = Unit
Emits (some c) = is_plain c ≡ true

sanitize_step-Emits : (c : ℕ) (s : Bytes) → Emits (sanitize_step c s).0
unfolding sanitize_step is_plain
sanitize_step-Emits c s = ground arith

sanitize_step-plain : (c : ℕ) (s : Bytes) → is_plain c ≡ true → sanitize_step c s ≡ (some c, s)
unfolding sanitize_step is_plain
sanitize_step-plain c s h = ground arith

abbrev Yields : Option Bytes → Type 0
Yields r = (out : Bytes) × (r ≡ some out) × IsPlain out

emit-Yields : (e : Option ℕ) (r : Option Bytes) → Emits e → Yields r → Yields (emit e r)
emit-Yields none r p (out, h, q) = (out, rw h, q)
emit-Yields (some c) r p (out, h, q) = (c ∷ out, rw h, (p, q))

loop-Yields : (f : ℕ) (s : Bytes) → length s < f → Yields (sanitize_loop f s)
unfolding sanitize_loop
loop-Yields zero s h = absurd (omega arith)
loop-Yields (suc f) [] h = ([], refl, tt)
loop-Yields (suc f) (c ∷ s) h =
    emit-Yields (sanitize_step c s).0 _ (sanitize_step-Emits c s)
      (loop-Yields f (sanitize_step c s).1 (omega (arith, length-sanitize_step c s)))

-- More fuel than the length of the text changes nothing.
loop-fuel :
    (f g : ℕ) (s : Bytes) → length s < f → length s < g → sanitize_loop f s ≡ sanitize_loop g s
unfolding sanitize_loop
loop-fuel zero g s h k = absurd (omega arith)
loop-fuel (suc f) zero s h k = absurd (omega arith)
loop-fuel (suc f) (suc g) [] h k = refl
loop-fuel (suc f) (suc g) (c ∷ s) h k = ap (emit (sanitize_step c s).0) (
    loop-fuel f g (sanitize_step c s).1 (omega (arith, length-sanitize_step c s))
      (omega (arith, length-sanitize_step c s)))

-- sanitize_output returns for every text, and what it returns has only newlines, tabs and
-- printable ASCII bytes.
pub sanitize_output-IsPlain :
    (s : Bytes) → (out : Bytes) × (sanitize_output (some s) ≡ some out) × IsPlain out
unfolding sanitize_output
sanitize_output-IsPlain s = loop-Yields (suc (length s)) s (omega arith)

loop-plain : (f : ℕ) (s : Bytes) → length s < f → IsPlain s → sanitize_loop f s ≡ some s
unfolding sanitize_loop
loop-plain zero s h p = absurd (omega arith)
loop-plain (suc f) [] h p = refl
loop-plain (suc f) (c ∷ s) h p =
    rw (sanitize_step-plain c s p.0) (ap (emit (some c)) (loop-plain f s (omega arith) p.1))

-- Plain text is passed through unchanged, so sanitizing twice is sanitizing once.
pub sanitize_output_idem :
    (s out : Bytes) → sanitize_output (some s) ≡ some out → sanitize_output (some out) ≡ some out
sanitize_output_idem s out h =
    let (o, e, p) = sanitize_output-IsPlain s in
    let same : o ≡ out = cc in
    rw (← same) (unfold sanitize_output in loop-plain (suc (length o)) o (omega arith) p)

skip_csi-append :
    (params rest : Bytes) (final : ℕ)
    → All (λ c. (ltb c 64 || ltb 126 c) ≡ true) params
    → (ltb final 64 || ltb 126 final) ≡ false
    → skip_csi (params ++ (final ∷ rest)) ≡ rest
unfolding skip_csi
skip_csi-append [] rest final h k = rw k
skip_csi-append (c ∷ params) rest final h k = rw h.0 (skip_csi-append params rest final h.1 k)

-- A whole CSI sequence (ESC, an open bracket, parameter bytes, a final byte) is removed: what is
-- behind it is sanitized as if it were not there.
pub sanitize_output_csi :
    (params rest : Bytes) (final : ℕ)
    → All (λ c. (ltb c 64 || ltb 126 c) ≡ true) params
    → (ltb final 64 || ltb 126 final) ≡ false
    → sanitize_output (some (27 ∷ b'[' ∷ (params ++ (final ∷ rest)))) ≡ sanitize_output (some rest)
unfolding sanitize_output
sanitize_output_csi params rest final h k =
    let first : (sanitize_step 27 (b'[' ∷ (params ++ (final ∷ rest)))) ≡ (none, rest) =
      unfold sanitize_step skip_escape in
      ap (λ r. (none, r)) (skip_csi-append params rest final h k) in
    let n : ℕ = length (params ++ (final ∷ rest)) in
    let more : length rest < suc (suc n) = omega (arith, length-append params (final ∷ rest)) in
    loop-ESC (suc (suc n)) (b'[' ∷ (params ++ (final ∷ rest))) rest first
    ∙ loop-fuel (suc (suc n)) (suc (length rest)) rest more (omega arith)
  where
    emit-none : (r : Option Bytes) → emit none r ≡ r
    emit-none none = refl
    emit-none (some o) = refl

    loop-ESC :
        (f : ℕ) (s rest : Bytes)
        → sanitize_step 27 s ≡ (none, rest)
        → sanitize_loop (suc f) (27 ∷ s) ≡ sanitize_loop f rest
    loop-ESC f s rest e = unfold sanitize_loop in rw e (emit-none (sanitize_loop f rest))
