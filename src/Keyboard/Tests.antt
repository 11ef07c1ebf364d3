-- ===== src/Keyboard/Tests.antt =====
-- A process that finds no key pending, and the theorem on the keyboard at it.
use acorn_os.Paging.{zero_entry}
use acorn_os.Scheduler.{running, ready, blocked}
use acorn_os.Processes.{Kernel, zero_pcb}
use acorn_os.Keyboard.{Keyboard, keyboard_handler, getchar_wait, nothing_pending}
use acorn_os.Keyboard.Race.{keyboard_race}
use acorn_os.Common.Int.{pos}
use acorn_os.Common.{◌≡◌, refl, false, [], ◌∷◌, arith}

abbrev kernel : Kernel
kernel = record {
  sched = record {
    proc = λ p. record {
      pid = 1;
      state = running;
      time_slice = pos 10;
      ticks_remaining = pos 10;
      next = 100;
      wake_at_tick = 0;
    };
    table = 100 ∷ [];
    current = 100;
    head = 100;
    tail = 100;
  };
  pcb = λ p. zero_pcb;
  next_pid = 2;
  heap = record { blocks = []; heap_used = 0 };
  memory = record {
    pmm = record { bitmap = λ i. 255; total_pages = 8; used_pages = 8 };
    kernel_pml4 = 0;
    entry = λ t i. zero_entry;
    byte = λ f i. 0;
  };
  word = λ a. 0;
}

abbrev keyboard : Keyboard
keyboard = record { waiting = 0; pending = 0; kernel = kernel }

keyboard_race_example :
    (((keyboard_handler (getchar_wait keyboard) 30).kernel.sched.proc
        keyboard.kernel.sched.current).state
      ≡ ready)
    × (nothing_pending (keyboard_handler (getchar_wait keyboard) 30) ≡ false)
    × (((getchar_wait (keyboard_handler keyboard 30)).kernel.sched.proc
          keyboard.kernel.sched.current).state
        ≡ blocked)
    × (nothing_pending (getchar_wait (keyboard_handler keyboard 30)) ≡ false)
keyboard_race_example = keyboard_race keyboard 30 refl (λ z. absurd (omega arith)) refl
