-- ===== src/Kernel/Abi.antt =====
-- src/kernel/abi.rs: callers, requests and responses.
use apogee.Base.{ℕ, List, Option, sub64}
use apogee.Process.{ProcessSnapshot}

pub data Caller : Type 0 where
  kernel : Caller
  user : ℕ → Caller
  irq : Caller

pub data ServiceId : Type 0 where
  process_service : ServiceId
  thread_service : ServiceId
  scheduler_service : ServiceId
  memory_service : ServiceId
  timer_service : ServiceId
  input_service : ServiceId
  console_service : ServiceId

pub data SysError : Type 0 where
  bad_handle : SysError
  denied : SysError
  bad_pointer : SysError
  would_block : SysError
  no_resources : SysError
  unsupported : SysError

-- `self as i64`
unfoldable pub code : SysError → ℕ
code bad_handle = 1
code denied = 2
code bad_pointer = 3
code would_block = 4
code no_resources = 5
code unsupported = 6

-- `-(self as i64)` in two's complement
unfoldable pub errno : SysError → ℕ
unfolding code sub64
errno e = sub64 0 (code e)

pub record SchedulerStats : Type 0 where
  pub ticks : ℕ
  pub processes_alive : ℕ
  pub processes_spawned : ℕ
  pub threads_alive : ℕ
  pub threads_spawned : ℕ
  pub tasks_alive : ℕ
  pub tasks_spawned : ℕ
  pub tasks_completed : ℕ

pub record MemoryStats : Type 0 where
  pub heap_size : ℕ
  pub heap_free : ℕ

pub data Request : Type 0 where
  process_create : ℕ → ℕ → Request
  process_exit : ℕ → ℕ → Request
  process_snapshot : ℕ → Request
  process_count : Request
  thread_spawn : ℕ → ℕ → Request
  thread_yield : Request
  thread_exit : Request
  scheduler_stats : Request
  memory_stats : Request
  timer_ticks : Request
  input_read_byte : Request
  console_write : List ℕ → Request

unfoldable pub service : Request → ServiceId
service (process_create entry stack_top) = process_service
service (process_exit pid status) = process_service
service (process_snapshot pid) = process_service
service process_count = process_service
service (thread_spawn entry tag) = thread_service
service thread_yield = thread_service
service thread_exit = thread_service
service scheduler_stats = scheduler_service
service memory_stats = memory_service
service timer_ticks = timer_service
service input_read_byte = input_service
service (console_write bytes) = console_service

pub data Response : Type 0 where
  ok : Response
  written : ℕ → Response
  byte : Option ℕ → Response
  process : ℕ → Response
  snapshot : Option ProcessSnapshot → Response
  thread : ℕ → Response
  count : ℕ → Response
  stats : SchedulerStats → Response
  memory : MemoryStats → Response
  ticks : ℕ → Response
  err : SysError → Response
