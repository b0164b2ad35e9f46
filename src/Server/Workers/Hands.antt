-- ===== src/Server/Workers/Hands.antt =====
-- The items that workers have in their hands, as a multiset: which worker has which plays no role.
use epoll_net.Base.{◌≡◌, refl, sym, ap, ◌∙◌, some, List, [], ◌∷◌, ◌++◌, ℕ, zero, suc}
use mathlib.Mathlib.Data.Multiset.Defs.{Multiset, of_list}
use mathlib.Mathlib.Data.Multiset.ZeroCons
use mathlib.Mathlib.Data.Multiset.ZeroCons.{singleton}
use mathlib.Mathlib.Data.Multiset.AddSub.{
  add, add_comm, add_assoc, zero-add, add_right_inj, coe-add,
}
use epoll_net.World.{Item}
use epoll_net.Threads.{At, here, there, parked}
use epoll_net.Server.Workers.{Pc, unlocking, handling}

abbrev pub hand : Pc → Multiset Item
hand (unlocking (some i)) = of_list (i ∷ [])
hand (handling i) = of_list (i ∷ [])
hand _ = of_list []

unfoldable pub hands : List Pc → Multiset Item
hands [] = of_list []
hands (p ∷ ps) = add (hand p) (hands ps)

add_left_comm : (a b c : Multiset Item) → add a (add b c) ≡ add b (add a c)
add_left_comm a b c = sym (add_assoc a b c) ∙ (ap (λ x. add x c) (add_comm a b) ∙ add_assoc b a c)

hands-At :
    {p q : Pc} {ps qs : List Pc} → At ps p q qs → add (hand p) (hands qs) ≡ add (hand q) (hands ps)
unfolding hands
hands-At {p} {q} (here {ps}) = add_left_comm (hand p) (hand q) (hands ps)
hands-At {p} {q} (there {r} {ps} {qs} at) =
    add_left_comm (hand p) (hand r) (hands qs)
    ∙ (ap (λ x. add (hand r) x) (hands-At at) ∙ add_left_comm (hand r) (hand q) (hands ps))

-- A step that does not change what the thread has.
pub hands_same : {p q : Pc} {ps qs : List Pc} → At ps p q qs → hand p ≡ hand q → hands qs ≡ hands ps
hands_same {p} {q} {ps} {qs} at e =
    (add_right_inj (hand p) (hands qs) (hands ps)).0
      (hands-At at ∙ ap (λ x. add x (hands ps)) (sym e))

pub none-add : (s : Multiset Item) → add (of_list []) s ≡ s
none-add s = ap (λ z. add z s) ZeroCons.coe-nil ∙ zero-add s

append-add :
    (xs : List Item) (i : Item)
    → ◌≡◌ {A = Multiset Item} (of_list (xs ++ i ∷ [])) (add (of_list (i ∷ [])) (of_list xs))
append-add xs i = sym (coe-add xs (i ∷ [])) ∙ add_comm (of_list xs) (of_list (i ∷ []))

-- The item that a worker takes is in its hands.
pub hands_pop :
    {p q : Pc} {ps qs : List Pc} (i : Item) (taken done : List Item)
    → At ps p q qs
    → hand p ≡ of_list []
    → hand q ≡ of_list (i ∷ [])
    → of_list taken ≡ add (hands ps) (of_list done)
    → of_list (taken ++ i ∷ []) ≡ add (hands qs) (of_list done)
hands_pop {p} {q} {ps} {qs} i taken done at empty full e =
    let before = ap (λ z. add z (hands qs)) (sym empty) in
    let more : hands qs ≡ add (of_list (i ∷ [])) (hands ps) =
      sym (none-add (hands qs)) ∙ (before ∙ (hands-At at ∙ ap (λ z. add z (hands ps)) full)) in
    append-add taken i
    ∙ (ap (λ z. add (of_list (i ∷ [])) z) e
        ∙ (sym (add_assoc (of_list (i ∷ [])) (hands ps) (of_list done))
            ∙ ap (λ z. add z (of_list done)) (sym more)))

-- The item that a worker is done with leaves its hands.
pub hands_done :
    {p q : Pc} {ps qs : List Pc} (i : Item) (taken done : List Item)
    → At ps p q qs
    → hand p ≡ of_list (i ∷ [])
    → hand q ≡ of_list []
    → of_list taken ≡ add (hands ps) (of_list done)
    → of_list taken ≡ add (hands qs) (of_list (done ++ i ∷ []))
hands_done {p} {q} {ps} {qs} i taken done at full empty e =
    let less : hands ps ≡ add (of_list (i ∷ [])) (hands qs) =
      sym (none-add (hands ps))
      ∙ (ap (λ z. add z (hands ps)) (sym empty)
          ∙ (sym (hands-At at) ∙ ap (λ z. add z (hands qs)) full)) in
    e
    ∙ (ap (λ z. add z (of_list done)) (less ∙ add_comm (of_list (i ∷ [])) (hands qs))
        ∙ (add_assoc (hands qs) (of_list (i ∷ [])) (of_list done)
            ∙ ap (λ z. add (hands qs) z) (sym (append-add done i))))

-- Threads that have nothing.
pub hands-parked :
    (n : ℕ) (p : Pc) (ps : List Pc) → hand p ≡ of_list [] → hands (parked n p ps) ≡ hands ps
unfolding hands
hands-parked zero p ps e = refl
hands-parked (suc n) p ps e =
    ap (λ z. add z (hands (parked n p ps))) e
    ∙ (none-add (hands (parked n p ps)) ∙ hands-parked n p ps e)

pub hands-nil : ◌≡◌ {A = Multiset Item} (of_list []) (add (hands []) (of_list []))
unfolding hands
hands-nil = sym (none-add (of_list []))
