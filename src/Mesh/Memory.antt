-- ===== src/Mesh/Memory.antt =====
-- src/model/mesh.rs, `MwsMemoryUsage`: what a text of memory usage is taken for.
use keenetic_rci.Prelude.{
  ℕ, ◌≤◌, ◌≡◌, ◌↔◌, ◌+◌, ◌-◌, ◌*◌, ◌==◌, ◌&&◌, leb, false, All, refl, inl, inr, some, [], ◌∷◌, ◌++◌,
  ok, >>=-eq-ok, ok-injective, ltb, arith, sym, Bool-cases,
}
use keenetic_rci.Prelude.Str.{Str}
use keenetic_rci.Prelude.Optional.{ok_or-eq-ok}
use keenetic_rci.Prelude.Pieces.{
  split_once, strip_prefix, digits_from, split_once-eq-some, parse_unsigned, parse_unsigned_bound,
}
use keenetic_rci.Prelude.Words.{u64_max}
use keenetic_rci.Mesh.{MwsMemoryUsage, parse_memory_usage, usage_of}

-- The parts of a text of memory usage, with the numbers that they are read as.
pub record IsUsage (value : Str) (usage : MwsMemoryUsage) : Type 0 where
  pub free : Str
  pub total : Str
  pub text : value ≡ free ++ (b'/' ∷ total)
  pub free_read : parse_unsigned u64_max free ≡ some usage.free_kib
  pub total_read : parse_unsigned u64_max total ≡ some usage.total_kib
  pub ordered : usage.free_kib ≤ usage.total_kib
  pub bounded : usage.total_kib ≤ u64_max

usage_of-eq-ok :
    (free total : ℕ) (usage : MwsMemoryUsage)
    → usage_of free total ≡ ok usage
    → (usage ≡ record { free_kib = free; total_kib = total }) × (free ≤ total)
unfolding usage_of
usage_of-eq-ok free total usage h = elim (Bool-cases (ltb total free)) [
  | inl more ↦ absurd (ground (arith, more, h))
  | inr fits ↦ let same = rw fits at h in (sym (ok-injective same), ground (arith, fits))
]

usage_of_takes :
    (free total : ℕ)
    → free ≤ total
    → usage_of free total ≡ ok (record { free_kib = free; total_kib = total })
unfolding usage_of
usage_of_takes free total h = let fits : ltb total free ≡ false = ground arith in rw fits refl

abbrev NoSlash : Str → Type 0
NoSlash s = All (λ c. (b'/' == c) ≡ false) s

digits_from-NoSlash :
    (greatest value : ℕ) (s : Str) (n : ℕ) → digits_from greatest value s ≡ some n → NoSlash s
unfolding digits_from
digits_from-NoSlash greatest value [] n e = tt
digits_from-NoSlash greatest value (c ∷ s) n e =
    elim (Bool-cases (leb b'0' c && leb c b'9' && leb (value * 10 + (c - b'0')) greatest)) [
      | inl good ↦
          let rest = rw good at e in
          (ground (arith, good), digits_from-NoSlash greatest (value * 10 + (c - b'0')) s n rest)
      | inr bad ↦ absurd (ground (arith, bad, e))
    ]

parse_unsigned-NoSlash :
    (greatest : ℕ) (s : Str) (n : ℕ) → parse_unsigned greatest s ≡ some n → NoSlash s
unfolding parse_unsigned
parse_unsigned-NoSlash greatest [] n e = tt
parse_unsigned-NoSlash greatest (c ∷ []) n e = digits_from-NoSlash greatest 0 (c ∷ []) n e
parse_unsigned-NoSlash greatest (c ∷ d ∷ s) n e = elim (Bool-cases (c == b'+')) [
  | inl plus ↦ (ground (arith, plus), digits_from-NoSlash greatest 0 (d ∷ s) n (rw plus at e))
  | inr digit ↦ digits_from-NoSlash greatest 0 (c ∷ d ∷ s) n (rw digit at e)
]

split_at_slash :
    (front back : Str)
    → NoSlash front
    → split_once (b'/' ∷ []) (front ++ (b'/' ∷ back)) ≡ some (front, back)
unfolding split_once strip_prefix
split_at_slash [] back h = refl
split_at_slash (c ∷ front) back (away, h) = rw (away, split_at_slash front back h) refl

usage_taken :
    (value : Str) (usage : MwsMemoryUsage)
    → IsUsage value usage
    → parse_memory_usage value ≡ ok usage
unfolding parse_memory_usage
usage_taken value usage h =
    let cut =
      split_at_slash h.free h.total
        (parse_unsigned-NoSlash u64_max h.free usage.free_kib h.free_read) in
    rw (h.text, cut, h.free_read, h.total_read)
      (usage_of_takes usage.free_kib usage.total_kib h.ordered)

-- The parts of a text that was taken.
parse_memory_usage-IsUsage :
    (value : Str) (usage : MwsMemoryUsage)
    → parse_memory_usage value ≡ ok usage
    → IsUsage value usage
unfolding parse_memory_usage
parse_memory_usage-IsUsage value usage h =
    let ((free, total), cut, h1) = >>=-eq-ok _ _ h in
    let (free_kib, free_read, h2) = >>=-eq-ok _ _ h1 in
    let (total_kib, total_read, h3) = >>=-eq-ok _ _ h2 in
    let free_some = ok_or-eq-ok _ _ free_read in
    let total_some = ok_or-eq-ok _ _ total_read in
    let (same, ordered) = usage_of-eq-ok free_kib total_kib usage h3 in
    rw same (record {
      free = free;
      total = total;
      text = split_once-eq-some (b'/' ∷ []) value free total (ok_or-eq-ok _ _ cut);
      free_read = free_some;
      total_read = total_some;
      ordered = ordered;
      bounded = parse_unsigned_bound u64_max total total_kib total_some;
    })

-- A text is taken as a memory usage just if it is two numbers that a `u64` holds with a slash between
-- them, the first at most the second; these are the values.
pub parse_memory_usage_iff :
    (value : Str) (usage : MwsMemoryUsage)
    → (parse_memory_usage value ≡ ok usage) ↔ IsUsage value usage
parse_memory_usage_iff value usage =
    (parse_memory_usage-IsUsage value usage, usage_taken value usage)
