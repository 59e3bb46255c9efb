-- ===== src/Sync/Lock/Invariant.antt =====
-- What holds of the lock, the tasks and the scheduled events after every step.
use gsyncio.Common.{
  ℕ, ◌<◌, ◌≡◌, refl, Bool, true, false, Option, none, some, List, [], ◌∷◌, arith, ◌⊎◌, inl, inr,
  contains, Option-cases,
}
use gsyncio.Common.OrderedDict.{has_key, Distinct, Entry, Entry-has_key}
use gsyncio.Sync.Lock.{Lock, Env, next_live, release_locked}
use gsyncio.Sync.Lock.System.{Place, outside, waiting, inside, schedule}

-- A task between `acquire` and `release`, or whose event was scheduled.
abbrev pub entitled : Place → List ℕ → Bool
entitled outside scheduled = false
entitled inside scheduled = true
entitled (waiting event) scheduled = contains event scheduled

-- The queue against the tasks.
pub record Queue (ws : List (ℕ × ℕ)) (place : ℕ → Place) (done : ℕ → Bool) (scheduled : List ℕ)
    (next : ℕ) : Type 0 where
  pub distinct : Distinct ws
  pub queued : (e t : ℕ) → Entry e t ws → (place t ≡ waiting e) ⊎ (done t ≡ true)
  pub apart : (e : ℕ) → has_key e ws ≡ true → contains e scheduled ≡ false
  pub bounded : (e : ℕ) → has_key e ws ≡ true → e < next
  pub known : (e : ℕ) → contains e scheduled ≡ true → e < next
  pub recent : (e t : ℕ) → place t ≡ waiting e → e < next
  pub unique : (e t u : ℕ) → place t ≡ waiting e → place u ≡ waiting e → t ≡ u

-- No live task is entitled.
abbrev pub Quiet : (ℕ → Place) → (ℕ → Bool) → List ℕ → Type 0
Quiet place done scheduled = (t : ℕ) → done t ≡ false → entitled (place t) scheduled ≡ false

pub record Inv (l : Lock) (place : ℕ → Place) (done : ℕ → Bool) (scheduled : List ℕ) (next : ℕ)
    : Type 0 where
  pub queue : Queue l.waiters place done scheduled next
  pub owns : (t : ℕ) → done t ≡ false → entitled (place t) scheduled ≡ true → l.owner ≡ some t
  pub no_idle : l.owner ≡ none → l.waiters ≡ []

-- What `next_live` leaves and finds.
pub record Found (env : Env) (ws : List (ℕ × ℕ)) (r : Option (ℕ × ℕ) × List (ℕ × ℕ)) : Type 0 where
  pub distinct : Distinct r.1
  pub keys : (e : ℕ) → has_key e r.1 ≡ true → has_key e ws ≡ true
  pub entries : (e t : ℕ) → Entry e t r.1 → Entry e t ws
  pub exhausted : r.0 ≡ none → r.1 ≡ []
  pub live :
      (e t : ℕ) → r.0 ≡ some (e, t) → Entry e t ws × (env.done t ≡ false) × (has_key e r.1 ≡ false)

next_live-Found : (env : Env) (ws : List (ℕ × ℕ)) → Distinct ws → Found env ws (next_live env ws)
unfolding next_live has_key
next_live-Found env [] d = record {
  distinct = tt;
  keys = λ e h. h;
  entries = λ e t h. h;
  exhausted = λ h. refl;
  live = λ e t h. cc;
}
next_live-Found env ((k, w) ∷ ws) d =
    let ih = next_live-Found env ws d.1 in
    record {
      distinct = ground (arith, ih.distinct);
      keys = λ e h. ground (arith, ih.keys e);
      entries = λ e t h. ground (arith, ih.entries e t);
      exhausted = λ h. ground (arith, ih.exhausted);
      live = λ e t h. ground (arith, ih.live e t);
    }

-- Ownership passes on from a state where no live task is entitled.
pub release_locked-Inv :
    (env : Env) (l : Lock) (place : ℕ → Place) (scheduled : List ℕ) (next : ℕ)
    → Queue l.waiters place env.done scheduled next
    → Quiet place env.done scheduled
    → let r = release_locked env l in Inv r.0 place env.done (schedule r.1 scheduled) next
unfolding release_locked contains
release_locked-Inv env l place scheduled next q quiet =
    let f = next_live-Found env l.waiters q.distinct in
    elim (Option-cases (next_live env l.waiters).0) [
      | inl nobody ↦
          rw (nobody, release_locked)
            (record {
              queue = record {
                distinct = f.distinct;
                queued = λ e t h. q.queued e t (f.entries e t h);
                apart = λ e h. q.apart e (f.keys e h);
                bounded = λ e h. q.bounded e (f.keys e h);
                known = q.known;
                recent = q.recent;
                unique = q.unique;
              };
              owns = λ t d h. ground (arith, quiet t);
              no_idle = λ h. f.exhausted nobody;
            })
      | inr ((e', t'), somebody) ↦
          let (entry, alive, gone) = f.live e' t' somebody in
          rw (somebody, release_locked)
            (record {
              queue = record {
                distinct = f.distinct;
                queued = λ e t h. q.queued e t (f.entries e t h);
                apart = λ e h. ground (arith, q.apart e (f.keys e h), gone, h);
                bounded = λ e h. q.bounded e (f.keys e h);
                known = λ e h.
                    ground (arith, q.known e, q.bounded e', Entry-has_key e' t' l.waiters entry);
                recent = q.recent;
                unique = q.unique;
              };
              owns = λ t d h. ground (arith, quiet t, q.queued e' t' entry, q.unique e' t t');
              no_idle = λ h. cc;
            })
    ]
