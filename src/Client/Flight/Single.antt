-- ===== src/Client/Flight/Single.antt =====
-- src/client.rs, `authenticate` with many calls at once: the invariant of the interleavings.
use keenetic_rci.Prelude.{
  ℕ, ◌%◌, ◌^◌, ◌≡◌, ◌≢◌, ◌⊎◌, Option, none, some, List, [], ◌∷◌, arith, refl, sym, ◌∙◌, inl, inr,
  length, ◌==◌, Bool-cases, subst,
}
use keenetic_rci.Client.Flight.{
  LoginResult, Phase, fresh, waiting, authenticating, storing, finished, dropped, panicked, Shared,
  Tasks, put, after_retained, written, locked, released, stored, Step, observe, enter, reuse, write,
  store, drop_waiting, drop_login, Reachable, begin, next,
}

-- The completed logins observed the generations 0, 1, 2 and so on, each once, as `u64`.
abbrev pub Numbered : List ℕ → Type 0
Numbered [] = Unit
Numbered (observed ∷ logins) = (observed ≡ length logins % 2 ^ 64) × Numbered logins

-- What holds of the shared state.
record Counts (s : Shared) : Type 0 where
  numbered : Numbered s.logins
  counted : s.generation ≡ length s.logins % 2 ^ 64
  unread : s.last_result ≡ none → (s.generation ≡ 0) × (s.published ≡ 0)

-- What holds of a task in its phase.
abbrev Fine : Shared → ℕ → Phase → Type 0
Fine s i fresh = Unit
Fine s i (waiting observed) = s.last_result ≡ none → observed ≡ 0
Fine s i (authenticating observed) = (s.holder ≡ some i) × (observed ≡ s.generation)
Fine s i (storing result) = (s.holder ≡ some i) × (s.last_result ≡ some result)
Fine s i (finished result) = Unit
Fine s i dropped = Unit
Fine s i panicked = ⊥

record Invariant (s : Tasks) : Type 0 where
  counts : Counts s.shared
  fine : (i : ℕ) → Fine s.shared i (s.phase i)

put-Fine :
    (s : Shared) (phase : ℕ → Phase) (i : ℕ) (new : Phase)
    → Fine s i new
    → ((j : ℕ) → j ≢ i → Fine s j (phase j))
    → (j : ℕ) → Fine s j (put phase i new j)
put-Fine s phase i new here there j = elim (Bool-cases (j == i)) [
  | inl same ↦
      rw same (let e : j ≡ i = ground (arith, same) in subst (λ k. Fine s k new) (sym e) here)
  | inr other ↦ rw other (there j (λ e. ground (arith, other, e)))
]

-- A task that is not in the lock is not concerned by what its holder does.
others :
    (s t : Shared) (i j : ℕ) (phase : Phase)
    → j ≢ i
    → (s.holder ≡ none) ⊎ (s.holder ≡ some i)
    → (t.last_result ≡ none → s.last_result ≡ none)
    → Fine s j phase
    → Fine t j phase
others s t i j fresh other who kept f = tt
others s t i j (waiting observed) other who kept f = λ e. f (kept e)
others s t i j (authenticating observed) other (inl free) kept f = absurd (cc f.0)
others s t i j (authenticating observed) other (inr held) kept f =
    let e : j ≡ i = cc (f.0, held) in absurd (other e)
others s t i j (storing result) other (inl free) kept f = absurd (cc f.0)
others s t i j (storing result) other (inr held) kept f =
    let e : j ≡ i = cc (f.0, held) in absurd (other e)
others s t i j (finished result) other who kept f = tt
others s t i j dropped other who kept f = tt
others s t i j panicked other who kept f = f

-- The first steps of each kind change no field that the counts are about.
same-Counts :
    (s t : Shared)
    → t.generation ≡ s.generation
    → t.last_result ≡ s.last_result
    → t.published ≡ s.published
    → t.logins ≡ s.logins
    → Counts s
    → Counts t
same-Counts s t g l p n c = record {
  numbered = rw n c.numbered;
  counted = rw (g, n) c.counted;
  unread = rw (l, g, p) c.unread;
}

current :
    (s : Tasks) (i : ℕ) (phase : Phase) → Invariant s → s.phase i ≡ phase → Fine s.shared i phase
current s i phase inv e = subst (Fine s.shared i) e (inv.fine i)

-- A task that finds the lock free and its generation old finds a result.
retained-Fine :
    (s : Shared) (i observed : ℕ) (last : Option LoginResult)
    → Counts s
    → s.last_result ≡ last
    → (last ≡ none → observed ≡ 0)
    → s.generation ≢ observed
    → Fine s i (after_retained last)
retained-Fine s i observed none c e old moved = absurd (moved ((c.unread e).0 ∙ sym (old refl)))
retained-Fine s i observed (some result) c e old moved = tt

written-Counts :
    (s : Shared) (observed : ℕ) (result : LoginResult)
    → observed ≡ s.generation
    → Counts s
    → Counts (written observed result s)
written-Counts s observed result same c = record {
  numbered = (same ∙ c.counted, c.numbered);
  counted = omega (arith, c.counted);
  unread = λ e. cc;
}

Step-Invariant : (s t : Tasks) → Invariant s → Step s t → Invariant t
Step-Invariant s _ inv (observe i e) = record {
  counts = inv.counts;
  fine = put-Fine s.shared s.phase i _ (λ l. (inv.counts.unread l).1) (λ j other. inv.fine j);
}
Step-Invariant s _ inv (enter i observed e free same) = record {
  counts = same-Counts s.shared (locked i s.shared) refl refl refl refl inv.counts;
  fine =
      put-Fine (locked i s.shared) s.phase i _ (refl, sym same)
        (λ j other.
          others s.shared (locked i s.shared) i j (s.phase j) other (inl free) (λ l. l)
            (inv.fine j));
}
Step-Invariant s _ inv (reuse i observed e free moved) = record {
  counts = inv.counts;
  fine =
      put-Fine s.shared s.phase i _
        (retained-Fine s.shared i observed s.shared.last_result inv.counts refl
          (current s i (waiting observed) inv e) moved)
        (λ j other. inv.fine j);
}
Step-Invariant s _ inv (write i observed result e) =
    let (held, same) = current s i (authenticating observed) inv e in
    record {
      counts = written-Counts s.shared observed result same inv.counts;
      fine =
          put-Fine (written observed result s.shared) s.phase i _ (held, refl)
            (λ j other.
              others s.shared (written observed result s.shared) i j (s.phase j) other (inr held)
                (λ l. cc) (inv.fine j));
    }
Step-Invariant s _ inv (store i result e) =
    let (held, last) = current s i (storing result) inv e in
    record {
      counts = record {
        numbered = inv.counts.numbered;
        counted = inv.counts.counted;
        unread = λ l. absurd (cc (last, l));
      };
      fine = put-Fine (stored s.shared) s.phase i _ tt (λ j other.
          others s.shared (stored s.shared) i j (s.phase j) other (inr held) (λ l. l) (inv.fine j));
    }
Step-Invariant s _ inv (drop_waiting i observed e) = record {
  counts = inv.counts;
  fine = put-Fine s.shared s.phase i _ tt (λ j other. inv.fine j);
}
Step-Invariant s _ inv (drop_login i observed e) =
    let (held, same) = current s i (authenticating observed) inv e in
    record {
      counts = same-Counts s.shared (released s.shared) refl refl refl refl inv.counts;
      fine = put-Fine (released s.shared) s.phase i _ tt (λ j other.
          others s.shared (released s.shared) i j (s.phase j) other (inr held) (λ l. l)
            (inv.fine j));
    }

Reachable-Invariant : (s : Tasks) → Reachable s → Invariant s
Reachable-Invariant _ begin = record {
  counts = record { numbered = tt; counted = refl; unread = λ e. (refl, refl) };
  fine = λ i. tt;
}
Reachable-Invariant t (next {s} r step) = Step-Invariant s t (Reachable-Invariant s r) step

-- However the steps of the tasks are interleaved, and whichever of them are dropped: the completed
-- logins have observed the generations 0, 1, 2 and so on, each once (as `u64`), so that tasks which
-- observed the same generation cause one login; the generation counts them; and no task is in a
-- failed `expect`.
pub Reachable-Numbered :
    (s : Tasks) (i : ℕ)
    → Reachable s
    → Numbered s.shared.logins
      × (s.shared.generation ≡ length s.shared.logins % 2 ^ 64)
      × (s.phase i ≢ panicked)
Reachable-Numbered s i r =
    let inv = Reachable-Invariant s r in
    (inv.counts.numbered, inv.counts.counted, λ e. current s i panicked inv e)

-- A task during its login.
abbrev pub LogsIn : Phase → Type 0
LogsIn (authenticating observed) = Unit
LogsIn (storing result) = Unit
LogsIn _ = ⊥

holds_lock :
    (s : Shared) (i : ℕ) (phase : Phase) → Fine s i phase → LogsIn phase → s.holder ≡ some i
holds_lock s i fresh f l = absurd l
holds_lock s i (waiting observed) f l = absurd l
holds_lock s i (authenticating observed) f l = f.0
holds_lock s i (storing result) f l = f.0
holds_lock s i (finished result) f l = absurd l
holds_lock s i dropped f l = absurd l
holds_lock s i panicked f l = absurd l

-- However the steps are interleaved, at most one task is between the start of its login and the
-- release of the lock.
pub Reachable-LogsIn :
    (s : Tasks) (i j : ℕ) → Reachable s → LogsIn (s.phase i) → LogsIn (s.phase j) → i ≡ j
Reachable-LogsIn s i j r first second =
    let inv = Reachable-Invariant s r in
    let mine = holds_lock s.shared i (s.phase i) (inv.fine i) first in
    let yours = holds_lock s.shared j (s.phase j) (inv.fine j) second in cc (mine, yours)
