-- ===== src/Library/RingBuffer.antt =====
-- Kernel/Library/RingBuffer.hpp, the template `RingBuffer<T, S>`.
-- `S` is the section's `s`; `size_t` is 32 bits wide, so sums wrap at 2 ^ 32. A method returns the
-- new buffer beside what the C++ method returns or writes through its pointer.
pub mod Invariant
pub mod Refine
mod Tests
use xyris.Base.{
  ℕ, ◌%◌, Bool, Option, none, some, List, ◌==◌, if◌then◌else◌, get_or, set, add_word, sub_word,
}
use xyris.Library.Errno.{KernelError, buffer_full, invalid_value, no_error}

-- `data`, `head`, `tail`, `length` and `error`. The source's `head` is where the next value goes,
-- and `tail` is where the oldest one lies.
pub record RingBuffer {ℓ} (A : Type ℓ) : Type ℓ where
  pub items : List A
  pub head : ℕ
  pub tail : ℕ
  pub length : ℕ
  pub error : KernelError

-- The `int` that `Enqueue`, `Dequeue(T*)` and `Peek` return: 0, or -1.
pub data Status : Type 0 where
  success failure : Status

-- The constructor. The array is left as it is found: `storage`.
pub init {ℓ} : {A : Type ℓ} → List A → RingBuffer A
init storage = record { items = storage; head = 0; tail = 0; length = 0; error = no_error }

pub is_empty {ℓ} : {A : Type ℓ} → RingBuffer A → Bool
is_empty r = r.length == 0

module _ {ℓ} {A : Type ℓ} (s : ℕ) where
  pub is_full : RingBuffer A → Bool
  is_full r = r.length == s

  pub enqueue : RingBuffer A → A → Status × RingBuffer A
  unfolding is_full
  enqueue r val = if is_full r then (failure, record r { error = buffer_full }) else (
    success,
    record r {
      items = set r.items r.head val;
      head = add_word r.head 1 % s;
      length = add_word r.length 1;
    },
  )

-- `zero_val` is the `T val = 0` of the value-returning `Dequeue`; a read outside of the array, which
-- `Invariant.in_bounds` rules out, also gives it.
module _ {ℓ} {A : Type ℓ} (s : ℕ) (zero_val : A) where
  -- `int Dequeue(T* buf)`: the option is what is written to `*buf`.
  pub dequeue : RingBuffer A → Status × Option A × RingBuffer A
  unfolding is_empty
  dequeue r = if is_empty r then (failure, none, record r { error = invalid_value }) else (
    success,
    some (get_or r.items r.tail zero_val),
    record r { tail = add_word r.tail 1 % s; length = sub_word r.length 1 },
  )

  -- `T Dequeue()`
  pub dequeue_value : RingBuffer A → A × RingBuffer A
  unfolding is_empty
  dequeue_value r = if is_empty r then (zero_val, record r { error = invalid_value }) else (
    get_or r.items r.tail zero_val,
    record r { tail = add_word r.tail 1 % s; length = sub_word r.length 1 },
  )

  -- `int Peek(T* buf)`
  pub peek : RingBuffer A → Status × Option A × RingBuffer A
  unfolding is_empty
  peek r =
      if is_empty r
      then (failure, none, record r { error = invalid_value })
      else (success, some (get_or r.items r.tail zero_val), r)

-- A client's calls. `size` and `last_error` are `Length` and `Error`.
pub data Call {ℓ} (A : Type ℓ) : Type ℓ where
  enqueues : A → Call A
  dequeues dequeues_value peeks size last_error : Call A

-- What the client sees of a call.
pub data Reply {ℓ} (A : Type ℓ) : Type ℓ where
  status : Status → Option A → Reply A
  value : A → Reply A
  count : ℕ → Reply A
  code : KernelError → Reply A

module _ {ℓ} {A : Type ℓ} (s : ℕ) (zero_val : A) where
  pub call : RingBuffer A → Call A → Reply A × RingBuffer A
  unfolding enqueue dequeue dequeue_value peek
  call r (enqueues v) = let (st, r') = enqueue s r v in (status st none, r')
  call r dequeues = let (st, v, r') = dequeue s zero_val r in (status st v, r')
  call r dequeues_value = let (v, r') = dequeue_value s zero_val r in (value v, r')
  call r peeks = let (st, v, r') = peek s zero_val r in (status st v, r')
  call r size = (count r.length, r)
  call r last_error = (code r.error, r)

  pub run : RingBuffer A → List (Call A) → List (Reply A)
  run r List.[] = List.[]
  run r (List.◌∷◌ c cs) = let (reply, r') = call r c in List.◌∷◌ reply (run r' cs)
