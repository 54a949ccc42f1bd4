-- ===== src/Process.antt =====
-- src/process.rs: process descriptors. The helpers of that file stand in Kernel/Compat.antt.
use apogee.Base.{ℕ, Option, none, add64}

pub data ProcessState : Type 0 where
  ready : ProcessState
  running : ProcessState
  exited : ℕ → ProcessState

-- The pid of the kernel's own threads.
abbrev pub kernel_pid : ℕ
kernel_pid = 0

pub record Process : Type 0 where
  pub pid : ℕ
  pub page_table_root : Option ℕ
  pub user_entry : ℕ
  pub user_stack_top : ℕ
  pub state : ProcessState

-- `Process::new` when the static `NEXT` is `next`, and `NEXT` after it.
unfoldable pub new : ℕ → ℕ → ℕ → Process × ℕ
unfolding add64
new next user_entry user_stack_top = (
  record {
    pid = next;
    page_table_root = none;
    user_entry = user_entry;
    user_stack_top = user_stack_top;
    state = ready;
  },
  add64 next 1,
)

pub record ProcessSnapshot : Type 0 where
  pub pid : ℕ
  pub user_entry : ℕ
  pub user_stack_top : ℕ
  pub state : ProcessState

-- The descriptor without its page-table root, as `ProcessService::snapshot` copies it.
unfoldable pub to_snapshot : Process → ProcessSnapshot
to_snapshot p = record {
  pid = p.pid;
  user_entry = p.user_entry;
  user_stack_top = p.user_stack_top;
  state = p.state;
}
