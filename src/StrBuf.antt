-- ===== src/StrBuf.antt =====
-- core/types.c, the growing string buffer. `malloc` and `realloc` succeed or abort the program, so
-- only the runs in which they succeed are modelled; sizes wrap at 64 bits.
pub mod Append
use dobby_ai.Base.{
  ℕ, zero, suc, ◌+◌, ◌*◌, ◌%◌, ◌^◌, Bool, true, false, Option, none, some, [], ◌++◌, Bytes, ltb,
  ◌==◌, if◌then◌else◌, length, take,
}

-- `strbuf_t`; `text` is what stands before the terminator in `data`.
pub record StrBuf : Type 0 where
  pub text : Bytes
  pub len : ℕ
  pub cap : ℕ

abbrev pub size_mod : ℕ
size_mod = 2 ^ 64

unfoldable pub strbuf_init : ℕ → StrBuf
strbuf_init initial_cap = record {
  text = [];
  len = 0;
  cap = if ltb 0 initial_cap then initial_cap else 256;
}

-- while (need > cap) cap *= 2;  on fuel, `none` when it runs out
unfoldable pub grow : ℕ → ℕ → ℕ → Option ℕ
grow zero need cap = none
grow (suc f) need cap =
    let rest = grow f need (cap * 2 % size_mod) in if ltb cap need then rest else some cap

-- A doubling loop over 64 bits that has not ended after 64 rounds never ends.
abbrev pub grow_fuel : ℕ
grow_fuel = 65

-- the common tail of the two append functions
unfoldable pub strbuf_put : StrBuf → Bytes → Option StrBuf
strbuf_put sb s = elim (grow grow_fuel ((sb.len + length s + 1) % size_mod) sb.cap) [
  | none ↦ none
  | some cap ↦
      some (record { text = sb.text ++ s; len = (sb.len + length s) % size_mod; cap = cap })
]

unfoldable pub strbuf_append : StrBuf → Bytes → Option StrBuf
strbuf_append sb s = strbuf_put sb s

-- `len` bytes of `str`; a null pointer or a length of 0 is ignored.
unfoldable pub strbuf_append_len : StrBuf → Option Bytes → ℕ → Option StrBuf
strbuf_append_len sb none len = some sb
strbuf_append_len sb (some s) len = if len == 0 then some sb else strbuf_put sb (take len s)

unfoldable pub strbuf_clear : StrBuf → StrBuf
strbuf_clear sb = record sb { text = []; len = 0 }

unfoldable pub strbuf_free : StrBuf → StrBuf
strbuf_free sb = record { text = []; len = 0; cap = 0 }
