-- ===== src/Actions/Closing.antt =====
-- `close` of policyd_py/actions/manager.py: the actions that are queued are done, and the workers are ended.
use policyd_py.Base.{
  ℕ, zero, suc, ◌+◌, ◌-◌, ◌≤◌, max, leb, ◌==◌, ◌≡◌, refl, arith, Bool, true, false, Option, none,
  some, List, [], ◌∷◌, ◌++◌, All, length, length-append, if◌then◌else◌, Text, Exception,
}
use policyd_py.Actions.{
  Item, ActionManager, execute_sync, worker_round, join, join_queue, append_end, put_end, put_ends,
  close_all, await_workers, joined, close,
}
use policyd_py.Actions.Metrics.{
  IsBalanced, IsAction, IsEnd, Fits, IsConsistent, execute_sync-IsBalanced,
}

-- A queue that holds no action.
abbrev OnlyEnds : ℕ → Option (List (Option Item)) → Type 0
OnlyEnds q none = Unit
OnlyEnds q (some items) = (length items ≤ max q 1) × All IsEnd items

-- A manager that is closing, with no action left; `q` is its setting of the size.
record IsShut {World : Type 0} (q : ℕ) (m : ActionManager World) : Type 0 where
  balanced : IsBalanced m.providers
  size : m.config.queue_size ≡ q
  closed : m.closing ≡ true
  ends : OnlyEnds q m.queue

All-snoc-IsEnd : (items : List (Option Item)) → All IsEnd items → All IsEnd (items ++ none ∷ [])
All-snoc-IsEnd [] h = (tt, tt)
All-snoc-IsEnd (i ∷ items) (h, hs) = (h, All-snoc-IsEnd items hs)

Fits-shut :
    {World : Type 0} (q : ℕ) (m : ActionManager World) (queue : Option (List (Option Item)))
    → m.config.queue_size ≡ q
    → m.closing ≡ true
    → OnlyEnds q queue
    → Fits queue m.closing m.config m.queue_size m.running
Fits-shut q m none e c h = tt
Fits-shut q m (some items) e c (h, hs) = (rw e h, rw c hs)

IsShut-IsConsistent :
    {World : Type 0} (q : ℕ) (m : ActionManager World) → IsShut q m → IsConsistent m
IsShut-IsConsistent q m s = record {
  balanced = s.balanced;
  fits = Fits-shut q m m.queue s.size s.closed s.ends;
}

if-IsShut :
    {World : Type 0} (q : ℕ) (b : Bool) (x y : ActionManager World)
    → (b ≡ true → IsShut q x)
    → (b ≡ false → IsShut q y)
    → IsShut q (if b then x else y)
if-IsShut q true x y p r = p refl
if-IsShut q false x y p r = r refl

if-IsShut_after :
    {World : Type 0} (q : ℕ) (b : Bool) (x y : Bool × ActionManager World)
    → (b ≡ true → IsShut q x.1)
    → (b ≡ false → IsShut q y.1)
    → IsShut q (if b then x else y).1
if-IsShut_after q true x y p r = p refl
if-IsShut_after q false x y p r = r refl

module _ {World : Type 0} (monotonic : World → ℕ) (str : Exception → Text) where
  -- A worker that ends.
  round-IsShut :
      (q : ℕ) (items : List (Option Item)) (m : ActionManager World)
      → OnlyEnds q (some items)
      → IsShut q m
      → IsShut q (worker_round monotonic str items m)
  unfolding worker_round
  round-IsShut q [] m h s = s
  round-IsShut q (some item ∷ items) m (h, (k, ks)) s = absurd k
  round-IsShut q (none ∷ items) m (h, (k, ks)) s =
      if-IsShut q (m.running == 0) m
        (record m { queue = some items; queue_size = length items; running = m.running - 1 })
        (λ e. s)
        (λ e. record {
          balanced = s.balanced;
          size = s.size;
          closed = s.closed;
          ends = (grind arith, ks);
        })

  join-IsShut :
      (q : ℕ) (items : List (Option Item)) (m : ActionManager World)
      → OnlyEnds q (some items)
      → IsShut q m
      → IsShut q (join monotonic str items m)
  unfolding join
  join-IsShut q [] m h s = s
  join-IsShut q (i ∷ items) m (h, (k, ks)) s =
      join-IsShut q items (worker_round monotonic str (i ∷ items) m) (grind arith, ks)
        (round-IsShut q (i ∷ items) m (h, (k, ks)) s)

  join_queue-IsShut :
      (q : ℕ) (queue : Option (List (Option Item))) (m : ActionManager World)
      → OnlyEnds q queue
      → IsShut q m
      → IsShut q (join_queue monotonic str queue m)
  unfolding join_queue
  join_queue-IsShut q none m h s = s
  join_queue-IsShut q (some items) m h s = join-IsShut q items m h s

  -- The actions that are queued when the closing begins are done by the workers.
  drain-IsShut :
      (q : ℕ) (items : List (Option Item)) (m : ActionManager World)
      → IsBalanced m.providers
      → m.config.queue_size ≡ q
      → m.closing ≡ true
      → m.queue ≡ some items
      → 1 ≤ m.running
      → All IsAction items
      → IsShut q (join monotonic str items m)
  unfolding join worker_round
  drain-IsShut q [] m b e c h r a = record {
    balanced = b;
    size = e;
    closed = c;
    ends = rw h (omega arith, tt);
  }
  drain-IsShut q (none ∷ items) m b e c h r (a, rest) = absurd a
  drain-IsShut q (some item ∷ items) m b e c h r (a, rest) =
      let runs : (m.running == 0) ≡ false = ground arith in
      let before = record m { queue = some items; queue_size = length items } in
      rw runs (
        drain-IsShut q items
          (execute_sync monotonic str item.action item.email item.reason before).1
          (execute_sync-IsBalanced monotonic str item.action item.email item.reason before b) e c
          refl r rest)

  append-IsShut :
      (q : ℕ) (items : List (Option Item)) (m : ActionManager World)
      → m.queue ≡ some items
      → 1 + length items ≤ max q 1
      → All IsEnd items
      → IsShut q m
      → IsShut q (append_end m)
  append-IsShut q items m h room es s = rw h (record {
    balanced = s.balanced;
    size = s.size;
    closed = s.closed;
    ends = (grind (arith, length-append items (none ∷ [])), All-snoc-IsEnd items es);
  })

  -- A worker that ends makes room.
  make_room :
      (q : ℕ) (items : List (Option Item)) (m : ActionManager World)
      → max q 1 ≤ length items
      → (m.running == 0) ≡ false
      → OnlyEnds q (some items)
      → IsShut q m
      → IsShut q (append_end (worker_round monotonic str items m))
  unfolding worker_round
  make_room q [] m full r h s = absurd (omega (arith, full))
  make_room q (some item ∷ items) m full r (h, (k, ks)) s = absurd k
  make_room q (none ∷ items) m full r (h, (k, ks)) s = rw r (record {
    balanced = s.balanced;
    size = s.size;
    closed = s.closed;
    ends = (grind (arith, length-append items (none ∷ [])), All-snoc-IsEnd items ks);
  })

  put_end-IsShut :
      (q : ℕ) (queue : Option (List (Option Item))) (m : ActionManager World)
      → m.queue ≡ queue
      → OnlyEnds q queue
      → IsShut q m
      → IsShut q (put_end monotonic str queue m).1
  unfolding put_end
  put_end-IsShut q none m e h s = s
  put_end-IsShut q (some items) m e (h, hs) s =
      if-IsShut_after q (leb (max m.config.queue_size 1) (length items))
        (if m.running == 0
          then (false, m)
          else (true, append_end (worker_round monotonic str items m)))
        (true, append_end m)
        (λ full.
          if-IsShut_after q (m.running == 0) (false, m)
            (true, append_end (worker_round monotonic str items m)) (λ z. s)
            (λ runs. make_room q items m (at_least (rw s.size at full)) runs (h, hs) s))
        (λ room. append-IsShut q items m e (below (rw s.size at room)) hs s)
    where
      at_least : leb (max q 1) (length items) ≡ true → max q 1 ≤ length items
      at_least f = ground arith

      below : leb (max q 1) (length items) ≡ false → 1 + length items ≤ max q 1
      below f = ground arith

  put_ends-IsShut :
      (q n : ℕ) (m : ActionManager World) → IsShut q m → IsShut q (put_ends monotonic str n m).1
  unfolding put_ends
  put_ends-IsShut q zero m s = s
  put_ends-IsShut q (suc n) m s =
      let after = put_end-IsShut q m.queue m refl s.ends s in
      if-IsShut_after q (put_end monotonic str m.queue m).0
        (put_ends monotonic str n (put_end monotonic str m.queue m).1)
        ((put_end monotonic str m.queue m).0, (put_end monotonic str m.queue m).1)
        (λ h. put_ends-IsShut q n (put_end monotonic str m.queue m).1 after) (λ h. after)

  close_all-IsShut :
      (q : ℕ) (m : ActionManager World) → IsShut q m → IsShut q (close_all monotonic str m).1
  close_all-IsShut q m s = record {
    balanced = s.balanced;
    size = s.size;
    closed = s.closed;
    ends = s.ends;
  }

  await_workers-IsShut :
      (q : ℕ) (done : Bool) (m : ActionManager World)
      → IsShut q m
      → IsShut q (await_workers monotonic str (done, m)).1
  unfolding await_workers
  await_workers-IsShut q false m s = s
  await_workers-IsShut q true m s =
      let after = join_queue-IsShut q m.queue m s.ends s in
      if-IsShut_after q ((join_queue monotonic str m.queue m).running == 0)
        (close_all monotonic str (join_queue monotonic str m.queue m))
        (false, join_queue monotonic str m.queue m)
        (λ h. close_all-IsShut q (join_queue monotonic str m.queue m) after) (λ h. after)

  joined-IsShut :
      (q : ℕ) (queue : Option (List (Option Item))) (m : ActionManager World)
      → IsShut q m
      → IsShut q (joined monotonic str queue m).1
  unfolding joined
  joined-IsShut q none m s = close_all-IsShut q m s
  joined-IsShut q (some []) m s =
      await_workers-IsShut q (put_ends monotonic str m.workers m).0
        (put_ends monotonic str m.workers m).1 (put_ends-IsShut q m.workers m s)
  joined-IsShut q (some (i ∷ items)) m s = s

  -- What is joined first: the actions of a manager that was open, or what an earlier closing has left.
  opening :
      (m : ActionManager World) (queue : Option (List (Option Item))) (closing : Bool)
      → m.queue ≡ queue
      → Fits queue closing m.config m.queue_size m.running
      → IsBalanced m.providers
      → IsShut m.config.queue_size (join_queue monotonic str queue (record m { closing = true }))
  unfolding join_queue
  opening m none closing e f b = record { balanced = b; size = refl; closed = refl; ends = rw e tt }
  opening m (some items) false e (h, (actions, size, runs)) b =
      drain-IsShut m.config.queue_size items (record m { closing = true }) b refl refl e runs
        actions
  opening m (some items) true e (h, ends) b =
      join-IsShut m.config.queue_size items (record m { closing = true }) (h, ends)
        (record { balanced = b; size = refl; closed = refl; ends = rw e (h, ends) })

  pub close-IsConsistent :
      (m : ActionManager World) → IsConsistent m → IsConsistent (close monotonic str m).1
  unfolding close
  close-IsConsistent m c =
      let m' = join_queue monotonic str m.queue (record m { closing = true }) in
      IsShut-IsConsistent m.config.queue_size (joined monotonic str m'.queue m').1 (
        joined-IsShut m.config.queue_size m'.queue m'
          (opening m m.queue m.closing refl c.fits c.balanced))
