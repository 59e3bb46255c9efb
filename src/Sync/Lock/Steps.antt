-- ===== src/Sync/Lock/Steps.antt =====
-- Every step of a task keeps the invariant of the lock.
use gsyncio.Common.{
  update, ℕ, suc, ◌≡◌, Bool, true, false, Option, some, List, ok, err, arith, inl, inr, contains,
  Bool-cases, Option-cases, is_some_eq, Result, if◌then◌else◌, ◌&&◌, not,
}
use gsyncio.Common.OrderedDict.{
  has_key, pop, set_item, Entry, Entry-has_key, Entry-pop, Entry-set_item, has_key-pop,
  has_key-set_item, pop-Distinct, set_item-Distinct, has_key-pop_self, pop-nil,
}
use gsyncio.Sync.Lock.{Lock, Env, recover, acquire_task, cancel_wait, release_task}
use gsyncio.Sync.Lock.System.{Place, outside, waiting, inside, schedule}
use gsyncio.Sync.Lock.Invariant.{Queue, Quiet, Inv, release_locked-Inv}

module _ (place : ℕ → Place) (done : ℕ → Bool) (scheduled : List ℕ) (next t : ℕ) where
  -- A task outside takes the free lock.
  take-Inv :
      (ws : List (ℕ × ℕ))
      → Queue ws place done scheduled next
      → Quiet place done scheduled
      → place t ≡ outside
      → done t ≡ false
      → Inv
          (record { owner = some t; waiters = ws })
          (update place t inside)
          done
          scheduled
          (suc next)
  take-Inv ws q quiet out alive = record {
    queue = record {
      distinct = q.distinct;
      queued = λ e u h. ground (arith, q.queued e u h);
      apart = q.apart;
      bounded = λ e h. omega (arith, q.bounded e h);
      known = λ e h. omega (arith, q.known e h);
      recent = λ e u h. ground (arith, q.recent e u);
      unique = λ e u v h k. ground (arith, q.unique e u v);
    };
    owns = λ u d h. ground (arith, quiet u);
    no_idle = λ h. cc;
  }

  -- A task outside joins the end of the queue of a lock that has an owner.
  join-Inv :
      (l : Lock) (o : ℕ)
      → Inv l place done scheduled next
      → l.owner ≡ some o
      → place t ≡ outside
      → done t ≡ false
      → Inv
          (record l { waiters = set_item next t l.waiters })
          (update place t (waiting next))
          done
          scheduled
          (suc next)
  join-Inv l o v owned out alive =
      let q = v.queue in
      record {
        queue = record {
          distinct = set_item-Distinct next t l.waiters q.distinct;
          queued = λ e u h. ground (arith, q.queued e u, Entry-set_item next t e u l.waiters h);
          apart = λ e h. ground (arith, q.apart e, has_key-set_item next e t l.waiters, q.known e);
          bounded = λ e h. ground (arith, q.bounded e, has_key-set_item next e t l.waiters);
          known = λ e h. omega (arith, q.known e h);
          recent = λ e u h. ground (arith, q.recent e u);
          unique = λ e u w h k. ground (arith, q.unique e u w, q.recent e u, q.recent e w);
        };
        owns = λ u d h. ground (arith, v.owns u, q.known next);
        no_idle = λ h. cc;
      }

  -- A task whose event was scheduled resumes inside.
  pub resume-Inv :
      (l : Lock) (e' : ℕ)
      → Inv l place done scheduled next
      → place t ≡ waiting e'
      → contains e' scheduled ≡ true
      → done t ≡ false
      → Inv l (update place t inside) done scheduled next
  resume-Inv l e' v at set alive =
      let q = v.queue in
      record {
        queue = record {
          distinct = q.distinct;
          queued =
              λ e u h. ground (arith, q.queued e u h, q.apart e (Entry-has_key e u l.waiters h));
          apart = q.apart;
          bounded = q.bounded;
          known = q.known;
          recent = λ e u h. ground (arith, q.recent e u);
          unique = λ e u w h k. ground (arith, q.unique e u w);
        };
        owns = λ u d h. ground (arith, v.owns u, v.owns t);
        no_idle = v.no_idle;
      }

  pub finish-Inv :
      (l : Lock) → Inv l place done scheduled next → Inv l place (update done t true) scheduled next
  finish-Inv l v =
      let q = v.queue in
      record {
        queue = record {
          distinct = q.distinct;
          queued = λ e u h. ground (arith, q.queued e u h);
          apart = q.apart;
          bounded = q.bounded;
          known = q.known;
          recent = q.recent;
          unique = q.unique;
        };
        owns = λ u d h. ground (arith, v.owns u);
        no_idle = v.no_idle;
      }

  -- The queue after a task that is not queued, or whose entry was taken out, has left.
  leave-Queue :
      (ws : List (ℕ × ℕ))
      → Queue ws place done scheduled next
      → ((e : ℕ) → Entry e t ws → done t ≡ true)
      → Queue ws (update place t outside) done scheduled next
  leave-Queue ws q absent = record {
    distinct = q.distinct;
    queued = λ e u h. ground (arith, q.queued e u h, absent e);
    apart = q.apart;
    bounded = q.bounded;
    known = q.known;
    recent = λ e u h. ground (arith, q.recent e u);
    unique = λ e u w h k. ground (arith, q.unique e u w);
  }

  pop-Queue :
      (e' : ℕ) (ws : List (ℕ × ℕ))
      → Queue ws place done scheduled next
      → Queue (pop e' ws) place done scheduled next
  pop-Queue e' ws q = record {
    distinct = pop-Distinct e' ws q.distinct;
    queued = λ e u h. q.queued e u (Entry-pop e' e u ws h);
    apart = λ e h. q.apart e (has_key-pop e' e ws h);
    bounded = λ e h. q.bounded e (has_key-pop e' e ws h);
    known = q.known;
    recent = q.recent;
    unique = q.unique;
  }

-- With a free lock, or one whose owner is done, no live task is entitled.
Quiet-of-Inv :
    (place : ℕ → Place) (done : ℕ → Bool) (scheduled : List ℕ) (next : ℕ) (l : Lock)
    → Inv l place done scheduled next
    → ((o : ℕ) → l.owner ≡ some o → done o ≡ true)
    → Quiet place done scheduled
Quiet-of-Inv place done scheduled next l v gone t alive = ground (arith, v.owns t, gone t)

-- The invariant at what an operation returned; nothing is said of an exception.
abbrev pub Acquired :
    (ℕ → Place) → (ℕ → Bool) → List ℕ → ℕ → ℕ → Result (Lock × Bool × Option ℕ) → Type 0
Acquired place done scheduled next t (err e) = Unit
Acquired place done scheduled next t (ok (l, got, woken)) =
    Inv l (update place t (if got then inside else waiting next)) done (schedule woken scheduled)
      (suc next)

abbrev pub Released : (ℕ → Place) → (ℕ → Bool) → List ℕ → ℕ → Result (Lock × Option ℕ) → Type 0
Released place done scheduled next (err e) = Unit
Released place done scheduled next (ok (l, woken)) =
    Inv l place done (schedule woken scheduled) next

module _ (env : Env) (place : ℕ → Place) (scheduled : List ℕ) (next : ℕ) (l : Lock) where
  recover-Inv :
      Inv l place env.done scheduled next
      → let r = recover env l in Inv r.0 place env.done (schedule r.1 scheduled) next
  unfolding recover
  recover-Inv v = elim (Option-cases l.owner) [
    | inl free ↦ rw (free, recover) v
    | inr (o, owned) ↦ elim (Bool-cases (env.done o)) [
      | inl gone ↦
          rw (owned, recover, gone)
            (release_locked-Inv env l place scheduled next v.queue
              (Quiet-of-Inv place env.done scheduled next l v (λ o' h. ground arith)))
      | inr alive ↦ rw (owned, recover, alive) v
    ]
  ]

  pub acquire-Inv :
      (t : ℕ)
      → Inv l place env.done scheduled next
      → place t ≡ outside
      → env.done t ≡ false
      → Acquired place env.done scheduled next t (acquire_task env t next l)
  unfolding acquire_task
  acquire-Inv t v out alive =
      let r = recover env l in
      let w = recover-Inv v in
      elim (Bool-cases (is_some_eq l.owner t)) [
        | inl own ↦ rw (own, acquire_task) tt
        | inr other ↦ elim (Option-cases r.0.owner) [
          | inl free ↦
              rw (other, acquire_task, free)
                (take-Inv place env.done (schedule r.1 scheduled) next t r.0.waiters w.queue
                  (Quiet-of-Inv place env.done (schedule r.1 scheduled) next r.0 w (λ o h. cc)) out
                  alive)
          | inr (o, owned) ↦
              rw (other, acquire_task, owned)
                (join-Inv place env.done (schedule r.1 scheduled) next t r.0 o w owned out alive)
        ]
      ]

  pub cancel_wait-Inv :
      (t e : ℕ)
      → Inv l place env.done scheduled next
      → place t ≡ waiting e
      → env.done t ≡ false
      → let r = cancel_wait env t e l in
        Inv r.0 (update place t outside) env.done (schedule r.1 scheduled) next
  unfolding cancel_wait
  cancel_wait-Inv t e v at alive =
      let q =
        leave-Queue place env.done scheduled next t (pop e l.waiters)
          (pop-Queue place env.done scheduled next t e l.waiters v.queue)
          (λ e' h. ground (
            arith,
            v.queue.queued e' t (Entry-pop e e' t l.waiters h),
            has_key-pop_self e l.waiters v.queue.distinct,
            Entry-has_key e' t (pop e l.waiters) h,
          )) in
      elim (Bool-cases (is_some_eq l.owner t && not (has_key e l.waiters))) [
        | inl granted ↦ rw granted (
            release_locked-Inv env (record l { waiters = pop e l.waiters }) (update place t outside)
              scheduled next q (λ u d. ground (arith, v.owns u)))
        | inr queued ↦ rw queued (record {
          queue = q;
          owns = λ u d h. ground (arith, v.owns u);
          no_idle = λ h. pop-nil e l.waiters (v.no_idle h);
        })
      ]

  pub release-Inv :
      (t : ℕ)
      → Inv l place env.done scheduled next
      → place t ≡ inside
      → env.done t ≡ false
      → Released (update place t outside) env.done scheduled next (release_task env t l)
  unfolding release_task
  release-Inv t v at alive =
      let owned = v.owns t alive (ground arith) in
      let q =
        leave-Queue place env.done scheduled next t l.waiters v.queue
          (λ e h. ground (arith, v.queue.queued e t h)) in
      let owner : is_some_eq l.owner t ≡ true = ground arith in
      rw owner (
        release_locked-Inv env l (update place t outside) scheduled next q
          (λ u d. ground (arith, v.owns u)))
