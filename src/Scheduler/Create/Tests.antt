-- ===== src/Scheduler/Create/Tests.antt =====
-- Tasks that are made and cleaned away, with a heap that hands out one address after the other.
use xyris.Base.{ℕ, ◌+◌, ◌≡◌, refl, true, false, some, [], ◌∷◌, arith, ◌==◌, if◌then◌else◌}
use xyris.Library.Bitset.{Bitset}
use xyris.Memory.Paging.{Paging, zero_entry}
use xyris.Arch.Timer.{no_timer}
use xyris.Scheduler.Task.{null, Task, Ptr, stopped, alloc_static, alloc_dynamic}
use xyris.Scheduler.TaskList.{empty_list}
use xyris.Scheduler.Tasks.{Sched}
use xyris.Scheduler.Create.{World, Addresses, Words, stack_push_word, initial_stack, clean_loop}
use xyris.Scheduler.Create.Cleaner.{Cleaned, clean_loop-Cleaned}

-- Page 0 is taken.
abbrev small : Bitset
small = record { num_bits = 0; count = 1; words = 1 ∷ 0 ∷ [] }

abbrev page_tables : Paging
page_tables = record { tables = λ d t. zero_entry; virtual_memory = small; physical = small }

abbrev blank_task : Task
blank_task = record {
  stack_top = 0x5000 + 100;
  page_dir = 0;
  next = null;
  state = stopped;
  time_used = 0;
  wakeup_time = 0;
  name = null;
  alloc = alloc_dynamic;
}

-- Task 1 runs, and tasks 2 and 3 have stopped.
abbrev two_stopped : Sched
two_stopped = record {
  store = λ a.
      if a == 2 then record blank_task { next = 3 } else record blank_task { alloc = alloc_static };
  current_task = 1;
  cleaner_task = 9;
  tasks_ready = empty_list;
  tasks_sleeping = empty_list;
  tasks_stopped = record { head = 2; tail = 3 };
  idle_time = 0;
  idle_start = 0;
  last_time = 0;
  time_slice_remaining = 5;
  last_timer_time = 0;
  scheduler_lock = 0;
  scheduler_postpone_count = 0;
  scheduler_postponed = false;
  instr_per_ns = 1;
  interrupts = true;
  reads = 0;
  halts = 0;
}

-- The heap's state is the address that it hands out next, and the number of structures it took back.
abbrev world : World (ℕ × ℕ)
world = record {
  sched = two_stopped;
  words = λ a. 0;
  paging = page_tables;
  heap = (0x9000, 0);
  timer = no_timer;
}

abbrev bump : ℕ → (ℕ × ℕ) × Paging → Ptr × (ℕ × ℕ) × Paging
bump size ((at, back), p) = (at, (at + size, back), p)

abbrev take_back : Ptr → (ℕ × ℕ) × Paging → (ℕ × ℕ) × Paging
take_back q ((at, back), p) = ((at, back + 1), p)

abbrev addresses : Addresses
addresses = record {
  task_stopping = 0x100;
  task_starting = 0x200;
  cleaner_task_impl = 0x300;
  on_timer = 0x400;
  first_task = 1;
  main_name = 0x500;
  cleaner_name = 0x600;
  page_dir = 0x700;
}

clean_loop-Cleaned_example :
    (w : World (ℕ × ℕ)) × (clean_loop take_back 3 world ≡ some w)
    × Cleaned take_back (2 ∷ 3 ∷ []) world w
clean_loop-Cleaned_example =
    clean_loop-Cleaned take_back 3 (2 ∷ 3 ∷ []) world (omega arith) (omega arith) (omega arith)

abbrev given : World (ℕ × ℕ)
given = record world { heap = (0x9028, 0) }

-- The last eight words of the page: what the switch pops, and the three addresses.
abbrev top : Words
unfolding initial_stack stack_push_word
top = (initial_stack addresses (λ a. 7) 0x1000 0x800).0

stack_words :
    (top 0x1fdc ≡ 7)
    × (top 0x1fe0 ≡ 0)
    × (top 0x1fec ≡ 0)
    × (top 0x1ff0 ≡ 0x200)
    × (top 0x1ff4 ≡ 0x800)
    × (top 0x1ff8 ≡ 0x100)
    × (top 0x1ffc ≡ 0)
unfolding top
stack_words = (refl, refl, refl, refl, refl, refl, refl)
