-- ===== src/Sched/Values.antt =====
-- The loop of `parseField` over the values of a part: which values it appends.
use sentinel_host.Prelude.{
  ℕ, zero, suc, ◌+◌, ◌*◌, ◌≤◌, ◌<◌, leb, ◌≡◌, ap, ◌∙◌, ◌⊎◌, inl, inr, ◌↔◌, arith, In, Bool-cases,
}
use sentinel_host.Prelude.Int.{ℤ, pos}
use sentinel_host.Sched.Cron.{add_wrapped, values_from}

-- The value is some number of steps after the start, and not after the end.
abbrev pub Stepped : ℕ → ℕ → ℕ → ℤ → Type 0
Stepped v end step x = (k : ℕ) × (x ≡ pos (v + k * step)) × (v + k * step ≤ end)

Stepped-suc : (v end step : ℕ) (x : ℤ) → Stepped (v + step) end step x → Stepped v end step x
Stepped-suc v end step x (k, e, l) =
    let q : v + step + k * step ≡ v + suc k * step = omega arith in
    (suc k, e ∙ ap pos q, omega arith)

-- A value of the loop is the first one or one of the rest.
Stepped-cases :
    (v end step : ℕ) (x : ℤ) → Stepped v end step x → (x ≡ pos v) ⊎ Stepped (v + step) end step x
Stepped-cases v end step x (zero, e, l) =
    let q : v + 0 * step ≡ v = omega arith in inl (e ∙ ap pos q)
Stepped-cases v end step x (suc k, e, l) =
    let q : v + suc k * step ≡ v + step + k * step = omega arith in
    inr (k, e ∙ ap pos q, omega arith)

add_wrapped-pos :
    (v step : ℕ) → v + step < 0x8000000000000000 → add_wrapped (pos v) step ≡ pos (v + step)
unfolding add_wrapped
add_wrapped-pos v step h = ground arith

-- The loop stops in time and appends exactly the multiples: with as many rounds as there are numbers from
-- the start to the end, and a step of at least one that the end can be added to within 64 bits, a value is
-- appended if and only if it is some number of steps after the start and not after the end.
pub values_from_iff :
    (fuel v end step : ℕ)
    → end < fuel + v
    → 1 ≤ step
    → end + step < 0x8000000000000000
    → (x : ℤ) → In x (values_from fuel (pos v) (pos end) step) ↔ Stepped v end step x
unfolding values_from
values_from_iff zero v end step f one fits x = (λ i. absurd i, λ (k, e, l). absurd (omega arith))
values_from_iff (suc n) v end step f one fits x = elim (Bool-cases (leb v end)) [
  | inl le ↦
      let at : v ≤ end = ground arith in
      let again = values_from_iff n (v + step) end step (omega arith) one fits x in
      let same = add_wrapped-pos v step (omega arith) in
      rw (le, same, In)
        (
          (λ i. elim i [
            | inl e ↦ (0, e ∙ ap pos (omega arith), omega arith)
            | inr j ↦ Stepped-suc v end step x (again.0 j)
          ]),
          (λ s. elim (Stepped-cases v end step x s) [ inl e ↦ inl e | inr r ↦ inr (again.1 r) ]),
        )
  | inr gt ↦
      let past : end < v = ground arith in
      rw (gt, In) ((λ i. absurd i), λ (k, e, l). absurd (omega arith))
]
