-- ===== src/StrBuf/Append.antt =====
-- Appending to a string buffer: it ends, keeps the buffer well formed, and appends the text.
use native.Mathlib.Nat.{pow-suc}
use dobby_ai.Base.{
  ℕ, zero, suc, ◌+◌, ◌*◌, ◌%◌, ◌^◌, ◌≤◌, ◌<◌, ◌≡◌, refl, none, some, ◌++◌, arith, Bytes, ltb,
  length, length-append, Bool-cases, inl, inr, ltb→lt,
}
use dobby_ai.StrBuf.{StrBuf, size_mod, strbuf_init, grow, grow_fuel, strbuf_put, strbuf_append}

-- The terminator fits behind the text, and the counters are 64-bit values.
pub record IsValid (sb : StrBuf) : Type 0 where
  pub counted : sb.len ≡ length sb.text
  pub fits : sb.len < sb.cap
  pub word : sb.cap < size_mod

pub strbuf_init-IsValid : (n : ℕ) → n < size_mod → IsValid (strbuf_init n)
unfolding strbuf_init
strbuf_init-IsValid n h = ground arith

double_pow : (cap f : ℕ) → cap * 2 ^ suc f ≡ cap * 2 * 2 ^ f
double_pow cap f = rw pow-suc (omega arith)

grow-some :
    (f need cap : ℕ)
    → need ≤ cap * 2 ^ f
    → need ≤ 2 ^ 63
    → 0 < cap
    → cap < size_mod
    → (c : ℕ) × (grow (suc f) need cap ≡ some c) × (need ≤ c) × (c < size_mod)
unfolding grow
grow-some zero need cap h s p w = (cap, ground arith, omega arith, w)
grow-some (suc f) need cap h s p w = elim (Bool-cases (ltb cap need)) [
  | inl more ↦
      let small : cap < need = ltb→lt cap need more in
      let e : cap * 2 % size_mod ≡ cap * 2 = omega arith in
      rw (more, e)
        (grow-some f need (cap * 2) (omega (arith, double_pow cap f)) s (omega arith) (omega arith))
  | inr done ↦ (cap, rw done, ground arith, w)
]

put-some :
    (sb : StrBuf) (s : Bytes) (c : ℕ)
    → grow grow_fuel ((sb.len + length s + 1) % size_mod) sb.cap ≡ some c
    → strbuf_put sb s
      ≡ some (record { text = sb.text ++ s; len = (sb.len + length s) % size_mod; cap = c })
unfolding strbuf_put
put-some sb s c h = rw (h, strbuf_put)

put_lem :
    (sb : StrBuf) (s : Bytes) (c : ℕ)
    → IsValid sb
    → sb.len + length s + 1 ≤ 2 ^ 63
    → grow grow_fuel (sb.len + length s + 1) sb.cap ≡ some c
    → sb.len + length s + 1 ≤ c
    → c < size_mod
    → (r : StrBuf) × (strbuf_put sb s ≡ some r) × (r.text ≡ sb.text ++ s) × IsValid r
put_lem sb s c v h e le w =
    let small : (sb.len + length s + 1) % size_mod ≡ sb.len + length s + 1 = omega arith in
    (
      record { text = sb.text ++ s; len = (sb.len + length s) % size_mod; cap = c },
      put-some sb s c (rw small e),
      refl,
      record {
        counted = omega (arith, length-append sb.text s, v.counted);
        fits = omega arith;
        word = w;
      },
    )

-- A text that leaves the total at most half of the address space is appended: the loop that
-- doubles the capacity ends, the buffer holds the old text and then the new one, and the
-- invariant is kept.
pub strbuf_append_lem :
    (sb : StrBuf) (s : Bytes)
    → IsValid sb
    → sb.len + length s + 1 ≤ 2 ^ 63
    → (r : StrBuf) × (strbuf_append sb s ≡ some r) × (r.text ≡ sb.text ++ s) × IsValid r
unfolding strbuf_append
strbuf_append_lem sb s v h =
    let (c, e, le, w) =
      grow-some 64 (sb.len + length s + 1) sb.cap (omega (arith, v.fits)) h (omega (arith, v.fits))
        v.word in
    put_lem sb s c v h e le w

-- Appending to a buffer that was freed never ends, whatever the fuel.
grow-zero : (f need : ℕ) → 0 < need → grow f need 0 ≡ none
unfolding grow
grow-zero zero need h = refl
grow-zero (suc f) need h = ground (arith, grow-zero f need)
