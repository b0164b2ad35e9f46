-- ===== src/Threads.antt =====
-- Threads as a list of the places where they stand: one thread steps at a time, and what matters of all
-- of them is a sum. What `Pc` is, a module of the program says.
use epoll_net.Base.{
  ℕ, zero, suc, ◌+◌, ◌≤◌, ◌<◌, ◌≡◌, refl, List, [], ◌∷◌, arith, ltb, Bool-cases, inl, inr,
}

-- One thread of a list goes from `p` to `q`.
pub data At {Pc : Type 0} : List Pc → Pc → Pc → List Pc → Type 0 where
  here : {p q : Pc} {ps : List Pc} → At (p ∷ ps) p q (q ∷ ps)
  there : {p q r : Pc} {ps qs : List Pc} → At ps p q qs → At (r ∷ ps) p q (r ∷ qs)

module _ {Pc : Type 0} where
  -- `w` summed up over the threads.
  unfoldable pub weigh : (Pc → ℕ) → List Pc → ℕ
  weigh w [] = 0
  weigh w (p ∷ ps) = w p + weigh w ps

  -- `n` threads at one place, and others.
  abbrev pub parked : ℕ → Pc → List Pc → List Pc
  parked zero p ps = ps
  parked (suc n) p ps = p ∷ parked n p ps

  pub weigh-At :
      (w : Pc → ℕ) {p q : Pc} {ps qs : List Pc} → At ps p q qs → weigh w qs + w p ≡ weigh w ps + w q
  unfolding weigh
  weigh-At w here = omega arith
  weigh-At w (there at) = omega (arith, weigh-At w at)

  pub le-weigh : (w : Pc → ℕ) {p q : Pc} {ps qs : List Pc} → At ps p q qs → w p ≤ weigh w ps
  unfolding weigh
  le-weigh w here = omega arith
  le-weigh w (there at) = omega (arith, le-weigh w at)

  pub weigh-le :
      (v w u : Pc → ℕ)
      → ((p : Pc) → v p + w p ≤ u p)
      → (ps : List Pc) → weigh v ps + weigh w ps ≤ weigh u ps
  unfolding weigh
  weigh-le v w u le [] = omega arith
  weigh-le v w u le (p ∷ ps) = omega (arith, le p, weigh-le v w u le ps)

  pub weigh-parked :
      (w : Pc → ℕ) (n : ℕ) (p : Pc) (ps : List Pc) → w p ≡ 0 → weigh w (parked n p ps) ≡ weigh w ps
  unfolding weigh
  weigh-parked w zero p ps e = refl
  weigh-parked w (suc n) p ps e = omega (arith, weigh-parked w n p ps e)

  -- A thread of positive weight.
  pub find :
      (w : Pc → ℕ) (ps : List Pc)
      → 0 < weigh w ps
      → (p : Pc) × (0 < w p) × ((q : Pc) → (qs : List Pc) × At ps p q qs)
  unfolding weigh
  find w [] pos = absurd (omega arith)
  find w (p ∷ ps) pos = elim (Bool-cases (ltb 0 (w p))) [
    | inl mine ↦ (p, ground arith, λ q. (q ∷ ps, here))
    | inr other ↦
        let (r, heavy, at) = find w ps (ground arith) in
        (r, heavy, λ q. (p ∷ (at q).0, there (at q).1))
  ]
