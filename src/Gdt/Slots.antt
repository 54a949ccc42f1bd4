-- ===== src/Gdt/Slots.antt =====
-- A descriptor table as src/gdt.rs relies on it, for the tests: a count of entries.
use apogee.Base.{ℕ, ◌+◌, ◌*◌, ◌%◌, ◌≡◌, arith}
use apogee.Gdt.{
  Descriptor, kernel_code_segment, kernel_data_segment, tss_segment, user_data_segment,
  user_code_segment, privilege, DescriptorTables,
}

abbrev pub slots : Descriptor → ℕ
slots (tss_segment t) = 2
slots _ = 1

pub add_entry-privilege : (next : ℕ) (d : Descriptor) → (next * 8 + privilege d) % 4 ≡ privilege d
add_entry-privilege next kernel_code_segment = omega arith
add_entry-privilege next kernel_data_segment = omega arith
add_entry-privilege next (tss_segment t) = omega arith
add_entry-privilege next user_data_segment = omega arith
add_entry-privilege next user_code_segment = omega arith

abbrev pub descriptor_tables : DescriptorTables
descriptor_tables = record {
  GlobalDescriptorTable = ℕ;
  new = 1;
  add_entry = λ next d. (next + slots d, next * 8 + privilege d);
  add_entry-privilege = add_entry-privilege;
}
