-- ===== src/Network/Readings/Times.antt =====
-- src/model/network.rs: `Uptime`, `parse_human_uptime` and `LeaseExpiration`.
use keenetic_rci.Prelude.{
  ℕ, ◌+◌, ◌*◌, ◌≤◌, ◌<◌, ◌≡◌, ◌↔◌, ◌⊎◌, inl, inr, Option, none, some, List, [], ◌∷◌, ◌++◌, arith,
  refl, sym, ap, ◌∙◌, Bool-cases, if◌then◌else◌,
}
use keenetic_rci.Prelude.Optional.{>>=-eq-some, some-injective, or_else}
use keenetic_rci.Prelude.Str.{Str, codes}
use keenetic_rci.Prelude.Pieces.{
  split_once, split_once-eq-some, split, join, join-split, parse_unsigned,
}
use keenetic_rci.Prelude.Words.{u64_max, fitting-eq-some, fitting_takes}
use keenetic_rci.Network.Readings.{
  Duration, from_secs, three, checked_mul, checked_add, uptime_seconds, is_clock,
  parse_human_uptime,
}

-- The seconds of a number of days and a clock time.
abbrev pub total_seconds : ℕ → ℕ → ℕ → ℕ → ℕ
total_seconds days hours minutes seconds = ((days * 24 + hours) * 60 + minutes) * 60 + seconds

-- The checked chain of `parse_human_uptime` gives the seconds of the days and the clock, just if a
-- `u64` holds them.
pub uptime_seconds_iff :
    (days hours minutes seconds n : ℕ)
    → (uptime_seconds days hours minutes seconds ≡ some n)
      ↔ ((n ≡ total_seconds days hours minutes seconds) × (n ≤ u64_max))
unfolding uptime_seconds
uptime_seconds_iff days hours minutes seconds n = (
  λ h.
      let (a, ea, h1) = >>=-eq-some (checked_mul days 24) _ h in
      let (b, eb, h2) = >>=-eq-some (checked_add a hours) _ h1 in
      let (c, ec, h3) = >>=-eq-some (checked_mul b 60) _ h2 in
      let (d, ed, h4) = >>=-eq-some (checked_add c minutes) _ h3 in
      let (e, ee, h5) = >>=-eq-some (checked_mul d 60) _ h4 in
      let (pa, _) = fitting-eq-some u64_max (days * 24) a ea in
      let (pb, _) = fitting-eq-some u64_max (a + hours) b eb in
      let (pc, _) = fitting-eq-some u64_max (b * 60) c ec in
      let (pd, _) = fitting-eq-some u64_max (c + minutes) d ed in
      let (pe, _) = fitting-eq-some u64_max (d * 60) e ee in
      let (pn, small) = fitting-eq-some u64_max (e + seconds) n h5 in
      (omega (arith, pa, pb, pc, pd, pe, pn), omega (arith, pn, small)),
  λ (e, small).
      rw
        (
          fitting_takes u64_max (days * 24) (omega arith),
          fitting_takes u64_max (days * 24 + hours) (omega arith),
          fitting_takes u64_max ((days * 24 + hours) * 60) (omega arith),
          fitting_takes u64_max ((days * 24 + hours) * 60 + minutes) (omega arith),
          fitting_takes u64_max (((days * 24 + hours) * 60 + minutes) * 60) (omega arith),
          fitting_takes u64_max (total_seconds days hours minutes seconds) (omega arith),
        )
        (ap some (sym e)),
)

-- A text of days and a clock time, with the uptime that it names.
pub record IsHuman (value : Str) (uptime : Duration) : Type 0 where
  pub separator : Str
  pub days_text : Str
  pub hours_text : Str
  pub minutes_text : Str
  pub seconds_text : Str
  pub days : ℕ
  pub hours : ℕ
  pub minutes : ℕ
  pub seconds : ℕ
  pub known : (separator ≡ codes " days, ") ⊎ (separator ≡ codes " day, ")
  pub parts :
      value
      ≡ days_text ++ (separator ++ (hours_text ++ (b':' ∷ (minutes_text ++ (b':' ∷ seconds_text)))))
  pub days_is : parse_unsigned u64_max days_text ≡ some days
  pub hours_is : parse_unsigned u64_max hours_text ≡ some hours
  pub minutes_is : parse_unsigned u64_max minutes_text ≡ some minutes
  pub seconds_is : parse_unsigned u64_max seconds_text ≡ some seconds
  pub clock : (hours < 24) × (minutes < 60) × (seconds < 60)
  pub uptime_is : uptime ≡ from_secs (total_seconds days hours minutes seconds)
  pub fits : total_seconds days hours minutes seconds ≤ u64_max

split_cases :
    (value : Str) (parts : Str × Str) (first : Option (Str × Str))
    → split_once (codes " days, ") value ≡ first
    → or_else first (split_once (codes " day, ") value) ≡ some parts
    → (separator : Str) × ((separator ≡ codes " days, ") ⊎ (separator ≡ codes " day, "))
      × (value ≡ parts.0 ++ (separator ++ parts.1))
split_cases value (a, b) none e h =
    (codes " day, ", inr refl, split_once-eq-some (codes " day, ") value a b h)
split_cases value (a, b) (some found) e h =
    (codes " days, ", inl refl, split_once-eq-some (codes " days, ") value a b (e ∙ h))

or_else-split :
    (value : Str) (parts : Str × Str)
    → or_else (split_once (codes " days, ") value) (split_once (codes " day, ") value) ≡ some parts
    → (separator : Str) × ((separator ≡ codes " days, ") ⊎ (separator ≡ codes " day, "))
      × (value ≡ parts.0 ++ (separator ++ parts.1))
or_else-split value parts h = split_cases value parts (split_once (codes " days, ") value) refl h

three-eq-some :
    (pieces : List Str) (a b c : Str)
    → three pieces ≡ some (a, (b, c))
    → join b':' pieces ≡ a ++ (b':' ∷ (b ++ (b':' ∷ c)))
three-eq-some [] a b c h = cc
three-eq-some (x ∷ []) a b c h = cc
three-eq-some (x ∷ y ∷ []) a b c h = cc
three-eq-some (x ∷ y ∷ z ∷ []) a b c h =
    let p : x ≡ a = cc in let q : y ≡ b = cc in let r : z ≡ c = cc in rw (p, q, r) refl
three-eq-some (x ∷ y ∷ z ∷ w ∷ rest) a b c h = cc

clock-eq-some :
    (hours minutes seconds days : ℕ) (text : Str)
    → (if is_clock hours minutes seconds then parse_unsigned u64_max text else none) ≡ some days
    → ((hours < 24) × (minutes < 60) × (seconds < 60)) × (parse_unsigned u64_max text ≡ some days)
clock-eq-some hours minutes seconds days text h =
    elim (Bool-cases (is_clock hours minutes seconds)) [
      | inl good ↦ (ground (arith, good), ground (arith, good, h))
      | inr bad ↦ absurd (ground (arith, bad, h))
    ]

-- A text that is read as a human uptime is a number of days, " days, " or " day, ", and a clock
-- time of three numbers with colons, below 24, 60 and 60; the uptime is the total of its seconds,
-- which a `u64` holds, and no sub-second part.
pub parse_human_uptime-IsHuman :
    (value : Str) (uptime : Duration)
    → parse_human_uptime value ≡ some uptime
    → IsHuman value uptime
unfolding parse_human_uptime
parse_human_uptime-IsHuman value uptime h =
    let (parts, split_is, h1) =
      >>=-eq-some (or_else (split_once (codes " days, ") value) (split_once (codes " day, ") value))
        _ h in
    let (texts, three_is, h2) = >>=-eq-some (three (split b':' parts.1)) _ h1 in
    let (hours, hours_is, h3) = >>=-eq-some (parse_unsigned u64_max texts.0) _ h2 in
    let (minutes, minutes_is, h4) = >>=-eq-some (parse_unsigned u64_max texts.1.0) _ h3 in
    let (seconds, seconds_is, h5) = >>=-eq-some (parse_unsigned u64_max texts.1.1) _ h4 in
    let (days, days_is, h6) =
      >>=-eq-some (if is_clock hours minutes seconds then parse_unsigned u64_max parts.0 else none)
        _ h5 in
    let (total, total_is, h7) = >>=-eq-some (uptime_seconds days hours minutes seconds) _ h6 in
    let (separator, known, value_is) = or_else-split value parts split_is in
    let joined = sym (join-split b':' parts.1) ∙ three-eq-some _ _ _ _ three_is in
    let (clock, days_read) = clock-eq-some hours minutes seconds days parts.0 days_is in
    let (n_is, small) = (uptime_seconds_iff days hours minutes seconds total).0 total_is in
    let same : from_secs total ≡ uptime = some-injective h7 in
    record {
      separator = separator;
      days_text = parts.0;
      hours_text = texts.0;
      minutes_text = texts.1.0;
      seconds_text = texts.1.1;
      days = days;
      hours = hours;
      minutes = minutes;
      seconds = seconds;
      known = known;
      parts = value_is ∙ ap (λ t. parts.0 ++ (separator ++ t)) joined;
      days_is = days_read;
      hours_is = hours_is;
      minutes_is = minutes_is;
      seconds_is = seconds_is;
      clock = clock;
      uptime_is = sym same ∙ ap from_secs n_is;
      fits = omega (arith, n_is, small);
    }
