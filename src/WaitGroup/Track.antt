-- ===== src/WaitGroup/Track.antt =====
-- src/multiloop/primitives.py, AsyncWaitGroup.track and class _TrackedCoroutine. What the target
-- returns or raises is left out, and that it may not ignore a GeneratorExit is taken for granted.
pub mod Once
use gsyncio.Common.{
  ℕ, Bool, true, false, Option, none, some, List, [], ◌∷◌, ◌++◌, if◌then◌else◌, pos, Result, ok,
  err, ◌>>=◌,
}
use gsyncio.WaitGroup.{WaitGroup, add, done}

-- The coroutine of `_run`: not begun, inside its `try`, or over.
pub data Generator : Type 0 where
  unstarted suspended over : Generator

-- The attributes `_gen` and `_stepped`, with the wait group and the futures that were woken.
pub record Tracked : Type 0 where
  pub gen : Option Generator
  pub stepped : Bool
  pub wg : WaitGroup
  pub woken : List ℕ

-- `track`
unfoldable pub track : (closed : ℕ → Bool) → WaitGroup → Result Tracked
track closed w =
    add closed (pos 1) w
    >>= (λ r. ok (record { gen = none; stepped = false; wg = r.0; woken = r.1 }))

-- `self._wg.done()`; where it raises, nothing has changed.
unfoldable pub settle : (closed : ℕ → Bool) → Tracked → Tracked
settle closed t = elim (done closed t.wg) [
  | err e ↦ t
  | ok (w, woken) ↦ record t { wg = w; woken = t.woken ++ woken }
]

-- The body goes on inside its `try`; if it ends, `finally` runs.
unfoldable pub go_on : (closed : ℕ → Bool) → (ends : Bool) → Tracked → Tracked
go_on closed true t = settle closed (record t { gen = some over })
go_on closed false t = record t { gen = some suspended }

-- `self._ensure_gen().send(value)`
unfoldable pub send_gen : (closed : ℕ → Bool) → (ends : Bool) → Tracked → Tracked
send_gen closed ends t = elim t.gen [
  | none ↦ go_on closed ends t
  | some unstarted ↦ go_on closed ends t
  | some suspended ↦ go_on closed ends t
  | some over ↦ t
]

-- `self._ensure_gen().throw(...)`: a coroutine that has not begun ends before its `try`.
unfoldable pub throw_gen : (closed : ℕ → Bool) → (ends : Bool) → Tracked → Tracked
throw_gen closed ends t = elim t.gen [
  | none ↦ record t { gen = some over }
  | some unstarted ↦ record t { gen = some over }
  | some suspended ↦ go_on closed ends t
  | some over ↦ t
]

-- `if self._gen is not None: self._gen.close()`
unfoldable pub close_gen : (closed : ℕ → Bool) → Tracked → Tracked
close_gen closed t = elim t.gen [
  | none ↦ t
  | some unstarted ↦ record t { gen = some over }
  | some suspended ↦ go_on closed true t
  | some over ↦ t
]

-- `close`; what it does to the target concerns only the target.
unfoldable pub close : (closed : ℕ → Bool) → Tracked → Tracked
close closed t =
    close_gen closed (if t.stepped then t else settle closed (record t { stepped = true }))

-- `__del__`, and then the collection of the generator, which closes it.
unfoldable pub collect : (closed : ℕ → Bool) → Tracked → Tracked
collect closed t =
    let t' =
      if t.stepped then t else close_gen closed (settle closed (record t { stepped = true })) in
    close_gen closed t'

-- `__await__`, which only makes the generator.
unfoldable pub ensure_gen : Tracked → Tracked
ensure_gen t = elim t.gen [ none ↦ record t { gen = some unstarted } | some gen ↦ t ]

-- What a user of the coroutine does: the methods, and a step of an `await` of it, where the code
-- outside resumes the generator that `__await__` returned.
pub data Use : Type 0 where
  sends throws awaits : (ends : Bool) → Use
  opens closes : Use

unfoldable pub use_one : (closed : ℕ → Bool) → Use → Tracked → Tracked
use_one closed (sends ends) t = send_gen closed ends (record t { stepped = true })
use_one closed (throws ends) t = throw_gen closed ends (record t { stepped = true })
use_one closed (awaits ends) t = send_gen closed ends t
use_one closed opens t = ensure_gen t
use_one closed closes t = close closed t

unfoldable pub use_all : (closed : ℕ → Bool) → List Use → Tracked → Tracked
use_all closed [] t = t
use_all closed (u ∷ us) t = use_all closed us (use_one closed u t)
