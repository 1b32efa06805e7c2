-- ===== src/Config/Cors.antt =====
-- The origins that a browser may call from (config/cors.util.ts).
use ledger_ops_api.Common.{
  ℕ, List, [], ◌∷◌, Option, some, none, Bool, ◌==◌, ◌≡◌, if◌then◌else◌, true, false, not, any,
  filter, map, Text, trim, split, arith, All, Bool-cases, inl, inr, refl, trim_start, trim_end,
  onto_first, before_end, ◌⊎◌, All-filter,
}

-- `true` lets every origin through.
pub data Origins : Type 0 where
  every : Origins
  only : List Text → Origins

abbrev pub is_empty : Text → Bool
is_empty [] = true
is_empty (c ∷ cs) = false

unfoldable pub listed_origins : Text → Origins
listed_origins text =
    if is_empty text
    then every
    else only (filter (λ (o : Text). not (is_empty o)) (map trim (split b',' text)))

unfoldable pub resolve_cors_origins : Option Text → Origins
unfolding listed_origins
resolve_cors_origins none = every
resolve_cors_origins (some raw) = listed_origins (trim raw)

-- An origin of the list: not empty, without a comma, and without a space in front.
abbrev pub has_comma : Text → Bool
has_comma = any (λ (c : ℕ). c == b',')

onto_first-parts :
    (c : ℕ) (parts : List Text)
    → (c == b',') ≡ false
    → All (λ (p : Text). has_comma p ≡ false) parts
    → All (λ (p : Text). has_comma p ≡ false) (onto_first c parts)
onto_first-parts c [] n h = (ground arith, tt)
onto_first-parts c (p ∷ parts) n h = (ground (arith, h.0), h.1)

-- No part of a text that is split by the comma has one.
split-parts : (cs : Text) → All (λ (p : Text). has_comma p ≡ false) (split b',' cs)
unfolding split
split-parts [] = (refl, tt)
split-parts (c ∷ cs) = elim (Bool-cases (c == b',')) [
  | inl y ↦ rw y (refl, split-parts cs)
  | inr n ↦ rw n (onto_first-parts c (split b',' cs) n (split-parts cs))
]

-- Trimming only takes characters away.
any-trim_start : (p : ℕ → Bool) (cs : Text) → any p cs ≡ false → any p (trim_start cs) ≡ false
unfolding trim_start
any-trim_start p [] h = refl
any-trim_start p (c ∷ cs) h = ground (arith, any-trim_start p cs)

any-before_end :
    (p : ℕ → Bool) (c : ℕ) (cs : Text)
    → p c ≡ false
    → any p cs ≡ false
    → any p (before_end c cs) ≡ false
any-before_end p c [] h k = ground arith
any-before_end p c (x ∷ xs) h k = ground arith

any-trim_end : (p : ℕ → Bool) (cs : Text) → any p cs ≡ false → any p (trim_end cs) ≡ false
unfolding trim_end
any-trim_end p [] h = refl
any-trim_end p (c ∷ cs) h =
    any-before_end p c (trim_end cs) (ground arith) (any-trim_end p cs (ground arith))

any-trim : (p : ℕ → Bool) (cs : Text) → any p cs ≡ false → any p (trim cs) ≡ false
unfolding trim
any-trim p cs h = any-trim_end p (trim_start cs) (any-trim_start p cs h)

trimmed :
    (parts : List Text)
    → All (λ (o : Text). has_comma o ≡ false) parts
    → All (λ (o : Text). has_comma o ≡ false) (map trim parts)
trimmed [] h = tt
trimmed (o ∷ parts) h = (any-trim (λ (c : ℕ). c == b',') o h.0, trimmed parts h.1)

abbrev pub is_blank : Option Text → Bool
is_blank none = true
is_blank (some raw) = is_empty (trim raw)

-- A setting that is not given or blank lets every origin through; another one lets through a list of origins, none of them empty
-- and none with a comma.
pub resolve_cors_origins_cases :
    (raw : Option Text)
    → ((is_blank raw ≡ true) × (resolve_cors_origins raw ≡ every))
      ⊎ ((is_blank raw ≡ false)
          × ((origins : List Text) × (resolve_cors_origins raw ≡ only origins)
              × All (λ (o : Text). (has_comma o ≡ false) × (not (is_empty o) ≡ true)) origins))
unfolding resolve_cors_origins listed_origins
resolve_cors_origins_cases none = inl (refl, refl)
resolve_cors_origins_cases (some raw) = elim (Bool-cases (is_empty (trim raw))) [
  | inl y ↦ inl (y, rw y refl)
  | inr n ↦ inr (n, (_, rw n refl, All-filter _ _ _ (trimmed _ (split-parts (trim raw)))))
]
