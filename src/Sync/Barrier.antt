-- ===== src/Sync/Barrier.antt =====
-- src/multiloop/_sync.py, class Barrier. A waiting task is known by the asyncio event that it
-- awaits; `boxes` are the one-element lists that the waiters share with the barrier.
pub mod Calls
pub mod Released
pub mod Round
pub mod Broken
mod Examples
use gsyncio.Common.{
  ℕ, suc, ◌+◌, Bool, true, false, Option, none, some, List, [], ◌∷◌, Result, ok, err, value_error,
  runtime_error, ℤ, pos, negsuc, length, ◌==◌, ◌&&◌, ◌||◌, if◌then◌else◌, update,
}
use gsyncio.Common.OrderedDict.{set_item}
use gsyncio.Sync.Wake.{wake_open}

-- `box[0]`: None, an arrival index, or -1.
pub data Box : Type 0 where
  empty : Box
  index : (arrival : ℕ) → Box
  broken_box : Box

pub record Barrier : Type 0 where
  pub parties : ℕ
  pub generation : ℕ
  pub waiters : List (ℕ × ℕ)
  pub aborted : Bool
  pub broken : Bool
  pub boxes : ℕ → Box

-- `__init__`
unfoldable pub init : ℤ → Result Barrier
init (negsuc n) = err value_error
init (pos n) =
    if n == 0
    then err value_error
    else ok (record {
      parties = n;
      generation = 0;
      waiters = [];
      aborted = false;
      broken = false;
      boxes = λ event. empty;
    })

-- The loop of the last arrival: the waiters get their indices in the order of arrival.
unfoldable pub assign : ℕ → List (ℕ × ℕ) → (ℕ → Box) → ℕ → Box
assign idx [] boxes = boxes
assign idx ((event, loop) ∷ waiters) boxes =
    assign (suc idx) waiters (update boxes event (index idx))

-- The loop after a cancellation: every box says that the barrier is broken.
unfoldable pub spoil : List (ℕ × ℕ) → (ℕ → Box) → ℕ → Box
spoil [] boxes = boxes
spoil ((event, loop) ∷ waiters) boxes = spoil waiters (update boxes event broken_box)

-- `wait` up to its `await` either returns index 0, or waits in the current generation.
pub data Arrival : Type 0 where
  leads : Arrival
  waits : (generation : ℕ) → Arrival

-- `wait` up to its `await`, with the events that it schedules.
unfoldable pub wait : (ℕ → Bool) → ℕ → ℕ → Barrier → Result (Barrier × Arrival × List ℕ)
wait closed event loop b =
    if b.aborted
    then err runtime_error
    else (if b.broken
        then err runtime_error
        else (if length b.waiters + 1 == b.parties
            then ok (
              record b {
                boxes = assign 1 b.waiters (update b.boxes event empty);
                waiters = [];
                generation = b.generation + 1;
              },
              leads,
              wake_open closed b.waiters,
            )
            else ok (
              record b {
                boxes = update b.boxes event empty;
                waiters = set_item event loop b.waiters;
              },
              waits b.generation,
              [],
            )))

-- The `except BaseException` branch of `wait`.
unfoldable pub cancel_wait : (ℕ → Bool) → ℕ → Barrier → Barrier × List ℕ
cancel_wait closed generation b =
    if generation == b.generation
    then (
      record b {
        broken = true;
        waiters = [];
        generation = b.generation + 1;
        boxes = spoil b.waiters b.boxes;
      },
      wake_open closed b.waiters,
    )
    else (b, [])

-- The end of `wait`, after its event was set: the arrival index.
unfoldable pub finish : ℕ → ℕ → Barrier → Result ℕ
finish generation event b =
    if b.aborted && (generation == b.generation) then err runtime_error else elim (b.boxes event) [
      | broken_box ↦ err runtime_error
      | empty ↦ err runtime_error
      | index arrival ↦ ok arrival
    ]

-- `abort`
unfoldable pub abort : (ℕ → Bool) → Barrier → Barrier × List ℕ
abort closed b =
    (record b { aborted = true; broken = true; waiters = [] }, wake_open closed b.waiters)

-- `reset`
unfoldable pub reset : (ℕ → Bool) → Barrier → Barrier × List ℕ
reset closed b = (
  record b { waiters = []; generation = b.generation + 1; aborted = false; broken = false },
  wake_open closed b.waiters,
)
