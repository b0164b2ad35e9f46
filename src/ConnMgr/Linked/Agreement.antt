-- ===== src/ConnMgr/Linked/Agreement.antt =====
-- The pool over a queue does what the pool as a list of objects does.
use epoll_net.Base.{
  List, [], ◌∷◌, ◌++◌, ◌≡◌, ◌≢◌, refl, arith, false, Bool-cases, inl, inr, ◌==◌, ==_false,
}
use epoll_net.Memory.{Ptr, null, Store, Outcome, done, crash, running, Prog, pure, modify}
use epoll_net.Memory.Ensures
use epoll_net.Memory.Ensures.{Ensures, ends}
use epoll_net.Memory.Agrees
use epoll_net.Memory.Agrees.{Agrees, both_end, both_crash, both_run}
use epoll_net.World.{World, ConnObj, in_conns}
use epoll_net.ConnMgr
use epoll_net.ConnMgr.{cleared, fresh_conn, push_pool}
use epoll_net.ConnMgr.Recycle.{get_conn-empty, get_conn-cons}
use epoll_net.DataList.Chain.{Cells, has, contents, contents-append}
use epoll_net.DataQueue.Laws.{QueueLaws}
use epoll_net.ConnMgr.Linked.{
  Pool, Call, put, take, with_conns, on_conns, with_queue, push, pop, set_conn, get_conn, run,
  run_listed, put_in, taken_from, Allocated,
}

-- NULL is not in the pool.
abbrev pub Objects : Cells → Type 0
Objects [] = Unit {0}
Objects ((node, p) ∷ xs) = (p ≢ null) × Objects xs

Objects-append :
    (xs : Cells) (node p : Ptr) → Objects xs → p ≢ null → Objects (xs ++ (node, p) ∷ [])
Objects-append [] node p os ne = (ne, tt)
Objects-append (x ∷ xs) node p (o, os) ne = (o, Objects-append xs node p os ne)

module _ {M Q : Type 0} (i : QueueLaws M Q) where
  -- The same objects, and the queue stands for cells with the pool's objects.
  pub record Same (xs : Cells) (w : World) (s : Pool M Q) : Type 0 where
    pub same_conns : s.conns ≡ w.conns
    pub stands : i.Stands s.memory s.queue xs
    pub pool_is : w.pool ≡ contents xs
    pub objects : Objects xs

  -- An outcome on the objects, in both states.
  conns-Agrees :
      {A : Type 0} {xs : Cells} {w : World} {s : Pool M Q} (m : Prog (Store ConnObj) A)
      → Same xs w s
      → Agrees (λ a w' s'. Same xs w' s') (in_conns m w) (on_conns m s)
  conns-Agrees {A} {xs} {w} {s} m same = rw same.same_conns (by_outcome (m w.conns))
    where
      by_outcome :
          (o : Outcome (Store ConnObj) A)
          → Agrees
              (λ a w' s'. Same xs w' s')
              (elim o [
                | done a h ↦ done a (record w { conns = h })
                | crash ↦ crash
                | running ↦ running
              ])
              (with_conns s o)
      by_outcome (done a h) = both_end (record {
        same_conns = refl;
        stands = same.stands;
        pool_is = same.pool_is;
        objects = same.objects;
      })
      by_outcome crash = both_crash
      by_outcome running = both_run

  with_queue-Ensures :
      {A : Type 0} {P : A → Q → M → Type 0} (s : Pool M Q) {o : Outcome M (A × Q)}
      → Ensures (λ (a, q) m. P a q m) o
      → Ensures
          (λ a s'. (m : M) × (q : Q) × (s' ≡ record s { memory = m; queue = q }) × P a q m)
          (with_queue s o)
  with_queue-Ensures s (ends {a = (a, q)} {s = m} p) = ends (m, q, refl, p)

  push-Same :
      {xs : Cells} {w : World} {s : Pool M Q} (node p : Ptr)
      → Same xs w s
      → node ≢ null
      → has node xs ≡ false
      → p ≢ null
      → Agrees (λ _ w' s'. Same (xs ++ (node, p) ∷ []) w' s') (push_pool p w) (push i node p s)
  unfolding push_pool push
  push-Same {xs} {w} {s} node p same ne out object =
      let pushed =
        Ensures.chain {Q = λ (_, q) m. i.Stands m q (xs ++ (node, p) ∷ [])}
          {k = λ q. pure (tt {0}, q)} (i.push_back node p same.stands ne out)
          (λ q m stands. ends stands) in
      Agrees.end_alike (
        Ensures.weaken (with_queue-Ensures s pushed) λ _ s' (m, q, e, stands). (
          refl,
          rw e (record {
            same_conns = same.same_conns;
            stands = stands;
            pool_is = rw (same.pool_is, contents-append xs ((node, p) ∷ [])) refl;
            objects = Objects-append xs node p same.objects object;
          }),
        ))

  pop-front :
      {xs : Cells} {w : World} {s : Pool M Q} (node p : Ptr)
      → Same ((node, p) ∷ xs) w s
      → Ensures (λ x s'. (x ≡ p) × Same xs (record w { pool = contents xs }) s') (pop i s)
  unfolding pop
  pop-front {xs} {w} {s} node p same =
      Ensures.weaken (with_queue-Ensures s (i.pop_front same.stands))
        λ x s' (m, q, e, (got, stands)). (
          got,
          rw e (record {
            same_conns = same.same_conns;
            stands = stands;
            pool_is = refl;
            objects = same.objects.1;
          }),
        )

  pop-none :
      {w : World} {s : Pool M Q}
      → Same [] w s
      → Ensures (λ x s'. (x ≡ null) × Same [] w s') (pop i s)
  unfolding pop
  pop-none {w} {s} same =
      Ensures.weaken (with_queue-Ensures s (i.pop_none same.stands))
        λ x s' (m, q, e, (got, stands)). (
          got,
          rw e (record {
            same_conns = same.same_conns;
            stands = stands;
            pool_is = same.pool_is;
            objects = tt;
          }),
        )

  set_conn-Agrees :
      {xs : Cells} {w : World} {s : Pool M Q} (node p : Ptr)
      → Same xs w s
      → node ≢ null
      → has node xs ≡ false
      → Agrees
          (λ _ w' s'. Same (put_in node p xs) w' s')
          (ConnMgr.set_conn p w)
          (set_conn i node p s)
  unfolding ConnMgr.set_conn set_conn
  set_conn-Agrees {xs} {w} {s} node p same ne out = elim (Bool-cases (p == null)) [
    | inl none ↦ rw none (both_end same)
    | inr object ↦ rw object (
        Agrees.chain (conns-Agrees (modify p cleared) same)
          λ _ w' s' same'. push-Same node p same' ne out (ground arith))
  ]

  get_conn-Agrees :
      (xs : Cells) {w : World} {s : Pool M Q} (new : Ptr) (junk : ConnObj)
      → Same xs w s
      → Agrees
          (λ _ w' s'. Same (taken_from xs) w' s')
          (ConnMgr.get_conn new junk w)
          (get_conn i new junk s)
  unfolding get_conn
  get_conn-Agrees [] {w} {s} new junk same = rw (get_conn-empty w new junk same.pool_is) (
      Agrees.chain_ends (pop-none same)
        λ x s' (got, same'). rw got (conns-Agrees (fresh_conn new junk) same'))
  get_conn-Agrees ((node, p) ∷ xs) {w} {s} new junk same =
      rw (get_conn-cons w p (contents xs) new junk same.pool_is) (
        Agrees.chain_ends (pop-front node p same)
          λ x s' (got, same'). rw (got, ==_false p null same.objects.0) (both_end same'))

  -- Any sequence of `setConn` and `getConn` on the pool over a queue ends as it does on the pool as a list of
  -- objects: it returns the same objects and leaves the same ones in memory and in the pool, and it crashes or
  -- runs on where that does. The queue keeps its laws, and `malloc` gives its nodes addresses that are not in
  -- use.
  pub run-Agrees :
      (calls : List Call) {xs : Cells} {w : World} {s : Pool M Q}
      → Same xs w s
      → Allocated xs calls
      → Agrees (λ _ w' s'. (left : Cells) × Same left w' s') (run_listed calls w) (run i calls s)
  unfolding run_listed run
  run-Agrees [] {xs} same alloc = both_end (xs, same)
  run-Agrees (put node p ∷ calls) same (ne, out, alloc) =
      Agrees.chain (set_conn-Agrees node p same ne out) λ _ w' s' same'.
        Agrees.chain (run-Agrees calls same' alloc) λ rs w'' s'' left. both_end left
  run-Agrees (take new junk ∷ calls) {xs} same alloc =
      Agrees.chain (get_conn-Agrees xs new junk same) λ p w' s' same'.
        Agrees.chain (run-Agrees calls same' alloc) λ rs w'' s'' left. both_end left
