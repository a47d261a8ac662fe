-- ===== src/Xous/Ticktimer.antt =====
-- src/xous/services/ticktimer.rs: the service of mutexes, conditions and time. A thread that waits is
-- the token of its answer; `woken` are the waiters that were sent their wake-up, the last one
-- first. `Condvar` is the standard library's: `notifications` counts the calls of `notify_one`.
pub mod Mutexes
use yove.Base.{
  ℕ, ◌+◌, ◌-◌, ◌*◌, ◌/◌, ◌^◌, ◌%◌, Bool, true, false, not, ◌||◌, Option, some, none, List, [], ◌∷◌,
  ◌++◌, if◌then◌else◌, ◌==◌, leb, update, u32, ◌>>>◌, wrapping_add, wrapping_sub,
}
use yove.Base.Exec.{Exec, ok, err, panic, pure, abort, gets, modify, unwrap, assert, ◌>>=◌, ◌>>◌}
use yove.Xous.Services.{ScalarResult, scalar1, scalar2, scalar5, wait_for_scalar}

pub record Ticktimer : Type 0 where
  pub start : ℕ
  pub condvars : ℕ → Option ℕ
  pub mutexes : ℕ → Option Bool
  pub mutex_unlockers : ℕ → Option (List ℕ)
  pub woken : List ℕ
  pub notifications : ℕ → ℕ

abbrev pub new : ℕ → Ticktimer
new start = record {
  start = start;
  condvars = λ _. none;
  mutexes = λ _. none;
  mutex_unlockers = λ _. none;
  woken = [];
  notifications = λ _. 0;
}

-- `or_default`
abbrev pub locked_or_default : Option Bool → Bool
locked_or_default none = false
locked_or_default (some locked) = locked

abbrev pub queue_or_default : Option (List ℕ) → List ℕ
queue_or_default none = []
queue_or_default (some queue) = queue

unfoldable pub lock_mutex : ℕ → ℕ → Exec Ticktimer ⊥ ScalarResult
lock_mutex token mutex_index = do
  mutex ← gets λ t. t.mutexes mutex_index
  if locked_or_default mutex
      then (do
        modify λ t. record t {
          mutex_unlockers =
              update t.mutex_unlockers mutex_index
                (some (queue_or_default (t.mutex_unlockers mutex_index) ++ (token ∷ [])));
        }
        pure (wait_for_scalar token))
      else do
        modify λ t. record t { mutexes = update t.mutexes mutex_index (some true) }
        pure (scalar1 0)

-- `get_mut(..).map(|v| v.pop_front())`, and the wake-up of the waiter that it gives.
abbrev pub wake_first : ℕ → Ticktimer → Ticktimer
wake_first mutex_index t = elim (t.mutex_unlockers mutex_index) [
  | none ↦ t
  | some queue ↦ elim queue [
    | [] ↦ t
    | waiter ∷ rest ↦ record t {
      mutex_unlockers = update t.mutex_unlockers mutex_index (some rest);
      woken = waiter ∷ t.woken;
    }
  ]
]

-- The panic of `send(..).unwrap()`, when the waiter is gone, is left out.
unfoldable pub unlock_mutex : ℕ → Exec Ticktimer ⊥ ScalarResult
unlock_mutex mutex_index = do
  mutex ← gets λ t. t.mutexes mutex_index
  locked ← unwrap mutex
  assert locked
  modify λ t. record t { mutexes = update t.mutexes mutex_index (some false) }
  modify (wake_first mutex_index)
  pure (scalar1 0)

unfoldable pub free_mutex : ℕ → Exec Ticktimer ⊥ ScalarResult
free_mutex mutex_index = do
  mutex ← gets λ t. t.mutexes mutex_index
  locked ← unwrap mutex
  modify λ t. record t { mutexes = update t.mutexes mutex_index none }
  pure (scalar1 0)

abbrev pub count_or_default : Option ℕ → ℕ
count_or_default none = 0
count_or_default (some count) = count

-- A `usize` has 64 bits.
unfoldable pub wait_for_condition : ℕ → ℕ → ℕ → Exec Ticktimer ⊥ ScalarResult
wait_for_condition token condition_index wait_count = do
  modify λ t. record t {
    condvars =
        update t.condvars condition_index
          (some ((count_or_default (t.condvars condition_index) + 1) % 2 ^ 64));
  }
  pure (wait_for_scalar token)

-- The end of the thread that waits, with what it sends: 1 after a time-out, 0 after a notification.
unfoldable pub end_wait : ℕ → Bool → Exec Ticktimer ⊥ ScalarResult
end_wait condition_index timed_out = do
  modify λ t. record t {
    condvars = elim (t.condvars condition_index) [
      | none ↦ t.condvars
      | some count ↦ update t.condvars condition_index (some ((count + 2 ^ 64 - 1) % 2 ^ 64))
    ];
  }
  pure (scalar1 (if timed_out then 1 else 0))

abbrev pub is_known : Option ℕ → Bool
is_known none = false
is_known (some count) = true

unfoldable pub notify_condition : ℕ → ℕ → Exec Ticktimer ⊥ ScalarResult
notify_condition condition_index condition_count = do
  condvar ← gets λ t. t.condvars condition_index
  if condition_count == 0 || not (is_known condvar) then pure (scalar5 0 0 0 0 0) else do
    modify λ t. record t {
      notifications =
          update t.notifications condition_index
            (t.notifications condition_index + condition_count);
    }
    pure (scalar1 (u32 condition_count))

unfoldable pub free_condition : ℕ → Exec Ticktimer ⊥ (Unit {0})
free_condition condition_index = do
  condvar ← gets λ t. t.condvars condition_index
  modify λ t. record t { condvars = update t.condvars condition_index none }
  assert (count_or_default condvar == 0)

-- `Service::scalar`, for the opcode and the first argument
unfoldable pub scalar : ℕ → ℕ → Exec Ticktimer ⊥ (Unit {0})
scalar opcode argument = if opcode == 11 then free_condition argument else pure tt

-- `Service::blocking_scalar`, with the first two arguments; `now` is the time in milliseconds.
unfoldable pub blocking_scalar : ℕ → ℕ → ℕ → ℕ → ℕ → Exec Ticktimer ⊥ ScalarResult
blocking_scalar now token opcode first second =
    if opcode == 0
    then (do
      start ← gets λ t. t.start
      assert (leb start now)
      let elapsed = now - start
      pure (scalar2 (u32 elapsed) (u32 (elapsed >>> 32))))
    else if opcode == 6
    then lock_mutex token first
    else if opcode == 7
    then unlock_mutex first
    else if opcode == 10
    then free_mutex first
    else if opcode == 8
    then wait_for_condition token first second
    else if opcode == 9
    then notify_condition first second
    else abort
