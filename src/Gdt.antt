-- ===== src/Gdt.antt =====
-- src/gdt.rs: the descriptors, the selectors that they get, and the stacks of the task state
-- segment. The descriptor table of the x86_64 crate is a parameter; the addresses of the two static
-- stacks are arguments.
pub mod Slots
use apogee.Base.{ℕ, ◌+◌, ◌*◌, ◌%◌, ◌≡◌}

abbrev pub double_fault_ist_index : ℕ
double_fault_ist_index = 0

abbrev pub ist_stack_size : ℕ
ist_stack_size = 4096 * 5

abbrev pub privilege_stack_size : ℕ
privilege_stack_size = 4096 * 5

-- The entry of each table that is set.
pub record TaskStateSegment : Type 0 where
  pub double_fault_stack : ℕ
  pub privilege_stack : ℕ

unfoldable pub tss : ℕ → ℕ → TaskStateSegment
tss ist_stack privilege_stack = record {
  double_fault_stack = ist_stack + ist_stack_size;
  privilege_stack = privilege_stack + privilege_stack_size;
}

pub data Descriptor : Type 0 where
  kernel_code_segment : Descriptor
  kernel_data_segment : Descriptor
  tss_segment : TaskStateSegment → Descriptor
  user_data_segment : Descriptor
  user_code_segment : Descriptor

-- The ring that a descriptor is for.
abbrev pub privilege : Descriptor → ℕ
privilege kernel_code_segment = 0
privilege kernel_data_segment = 0
privilege (tss_segment t) = 0
privilege user_data_segment = 3
privilege user_code_segment = 3

-- The table of the crate: a selector carries the ring of its descriptor in its two lowest bits.
pub record DescriptorTables : Type 1 where
  pub GlobalDescriptorTable : Type 0
  pub new : GlobalDescriptorTable
  pub add_entry : GlobalDescriptorTable → Descriptor → GlobalDescriptorTable × ℕ
  pub add_entry-privilege :
      (gdt : GlobalDescriptorTable) (d : Descriptor) → (add_entry gdt d).1 % 4 ≡ privilege d

pub record Selectors : Type 0 where
  pub kernel_code : ℕ
  pub kernel_data : ℕ
  pub user_code : ℕ
  pub user_data : ℕ
  pub tss : ℕ

-- The entries in the order in which they are added.
unfoldable pub selectors : DescriptorTables → TaskStateSegment → Selectors
selectors tables segment =
    let (a, kernel_code) = tables.add_entry tables.new kernel_code_segment in
    let (b, kernel_data) = tables.add_entry a kernel_data_segment in
    let (d, task) = tables.add_entry b (tss_segment segment) in
    let (e, user_data) = tables.add_entry d user_data_segment in
    let (f, user_code) = tables.add_entry e user_code_segment in
    record {
      kernel_code = kernel_code;
      kernel_data = kernel_data;
      user_code = user_code;
      user_data = user_data;
      tss = task;
    }
