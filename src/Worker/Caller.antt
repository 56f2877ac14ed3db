-- ===== src/Worker/Caller.antt =====
-- bus/bus.c, response_pair_from_meta: the caller that the metadata of a message names.
use dobby_ai.Base.{
  ℕ, zero, suc, ◌≡◌, ◌≢◌, refl, sym, ap, ◌∙◌, subst, inl, inr, Option, none, some, ◌++◌, arith,
  Bytes, codes, drop, Option-cases,
}
use dobby_ai.Text.{split_sub}
use dobby_ai.Text.Affix.{split_of_is_prefix}
use dobby_ai.Text.Search.{IsFirst, split_sub-some, split_sub-IsFirst, split_sub-at}
use dobby_ai.Bus.{response_pair_from_meta, as_pointer}

-- The metadata has the tag, and behind its first place stands the address `rp`, which is not null.
abbrev pub Names : (Bytes → Option ℕ) → Option Bytes → ℕ → Type 0
Names scan_hex meta rp =
    (before tag : Bytes) × (meta ≡ some (before ++ (codes "rp=" ++ tag)))
    × IsFirst (codes "rp=") (before ++ (codes "rp=" ++ tag)) before
    × (scan_hex tag ≡ some rp)
    × (rp ≢ 0)

as_pointer-some : (o : Option ℕ) (rp : ℕ) → as_pointer o ≡ some rp → (o ≡ some rp) × (rp ≢ 0)
as_pointer-some none rp h = absurd (cc h)
as_pointer-some (some zero) rp h = absurd (cc h)
as_pointer-some (some (suc n)) rp h = (h, λ z. absurd (ground (arith, h, z)))

as_pointer-address : (o : Option ℕ) (rp : ℕ) → o ≡ some rp → rp ≢ 0 → as_pointer o ≡ some rp
as_pointer-address o zero e ne = absurd (ne refl)
as_pointer-address o (suc n) e ne = rw e refl

module _ (scan_hex : Bytes → Option ℕ) where
  from_meta-hit :
      (text before tag : Bytes)
      → split_sub (codes "rp=") text ≡ some (before, tag)
      → response_pair_from_meta scan_hex (some text) ≡ as_pointer (scan_hex (drop 3 tag))
  unfolding response_pair_from_meta
  from_meta-hit text before tag h = rw (h, response_pair_from_meta)

  from_meta-miss :
      (text : Bytes)
      → split_sub (codes "rp=") text ≡ none
      → response_pair_from_meta scan_hex (some text) ≡ none
  unfolding response_pair_from_meta
  from_meta-miss text h = rw (h, response_pair_from_meta)

  -- a hit, with the tag split off
  tagged :
      (text before tag : Bytes)
      → split_sub (codes "rp=") text ≡ some (before, tag)
      → text ≡ before ++ (codes "rp=" ++ drop 3 tag)
  tagged text before tag h =
      let (whole, p) = split_sub-some (codes "rp=") text before tag h in
      let (rest, e) = split_of_is_prefix (codes "rp=") tag p in
      whole ∙ ap (◌++◌ before) (e ∙ ap (λ t. codes "rp=" ++ drop 3 t) (sym e))

  pub from_meta-Names :
      (meta : Option Bytes) (rp : ℕ)
      → response_pair_from_meta scan_hex meta ≡ some rp
      → Names scan_hex meta rp
  from_meta-Names none rp h = unfold response_pair_from_meta in cc h
  from_meta-Names (some text) rp h = elim (Option-cases (split_sub (codes "rp=") text)) [
    | inl miss ↦ cc (h, from_meta-miss text miss)
    | inr ((before, tag), hit) ↦
        let whole = tagged text before tag hit in
        let (address, ne) = as_pointer-some _ rp (sym (from_meta-hit text before tag hit) ∙ h) in
        (
          before,
          drop 3 tag,
          ap some whole,
          subst (λ t. IsFirst (codes "rp=") t before) whole
              (split_sub-IsFirst (codes "rp=") text before tag hit),
          address,
          ne,
        )
  ]

  pub Names-from_meta :
      (meta : Option Bytes) (rp : ℕ)
      → Names scan_hex meta rp
      → response_pair_from_meta scan_hex meta ≡ some rp
  Names-from_meta meta rp (before, tag, whole, first, address, ne) = rw whole (
      from_meta-hit _ before (codes "rp=" ++ tag) (split_sub-at (codes "rp=") before tag first)
      ∙ as_pointer-address (scan_hex tag) rp address ne)
