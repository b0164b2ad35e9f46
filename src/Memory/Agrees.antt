-- ===== src/Memory/Agrees.antt =====
-- Two runs that end alike: both crash, both run on, or both end with the same value, and the value and
-- the two states satisfy `P`.
use epoll_net.Base.{◌≡◌}
use epoll_net.Memory.{Outcome, done, crash, running, Prog, resume}
use epoll_net.Memory.Ensures.{Ensures, ends}

pub data Agrees {S T A : Type 0} (P : A → S → T → Type 0) : Outcome S A → Outcome T A → Type 0 where
  both_end : {a : A} {s : S} {t : T} → P a s t → Agrees P (done a s) (done a t)
  both_crash : Agrees P crash crash
  both_run : Agrees P running running

module _ {S T A B : Type 0} {P : A → S → T → Type 0} {Q : B → S → T → Type 0} where
  pub chain :
      {r : Outcome S A} {r' : Outcome T A} {k : A → Prog S B} {k' : A → Prog T B}
      → Agrees P r r'
      → ((a : A) (s : S) (t : T) → P a s t → Agrees Q (k a s) (k' a t))
      → Agrees Q (resume k r) (resume k' r')
  chain (both_end p) next = next _ _ _ p
  chain both_crash next = both_crash
  chain both_run next = both_run

-- Steps of the second run alone.
pub chain_ends :
    {S T A B : Type 0} {P : A → T → Type 0} {Q : B → S → T → Type 0} {o : Outcome S B}
    {r : Outcome T A} {k : A → Prog T B}
    → Ensures P r
    → ((a : A) (t : T) → P a t → Agrees Q o (k a t))
    → Agrees Q o (resume k r)
chain_ends (ends p) next = next _ _ p

-- The second run ends like the first.
pub end_alike :
    {S T A : Type 0} {Q : A → S → T → Type 0} {a : A} {s : S} {r : Outcome T A}
    → Ensures (λ b t. (b ≡ a) × Q a s t) r
    → Agrees Q (done a s) r
end_alike (ends (e, q)) = rw e (both_end q)
