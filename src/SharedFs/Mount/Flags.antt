-- ===== src/SharedFs/Mount/Flags.antt =====
-- packages/shared-fs/library/src/mount-backend.ts: `parseFlags`.  A numeric flag is a natural number
-- below 2 ^ 31, on which the bit operations of JavaScript are exact.
use peerbit_examples.Prelude.{
  ℕ, ◌/◌, ◌%◌, Bool, true, false, not, ◌||◌, [], ◌∷◌, Option, ◌==◌, contains, or_else,
}
use peerbit_examples.SharedFs.Path.Split.{Text}

pub data Platform : Type 0 where
  linux : Platform
  darwin : Platform
  windows : Platform
  unknown : Platform

pub record OpenFlagTable : Type 0 where
  pub write_only : ℕ
  pub read_write : ℕ
  pub create : ℕ
  pub truncate : ℕ
  pub append : ℕ

-- `OPEN_FLAG_TABLES`; a platform without a table has that of linux.
unfoldable pub flag_table : Platform → OpenFlagTable
flag_table darwin = record {
  write_only = 1;
  read_write = 2;
  create = 512;
  truncate = 1024;
  append = 8;
}
flag_table windows = record {
  write_only = 1;
  read_write = 2;
  create = 256;
  truncate = 512;
  append = 8;
}
flag_table _ = record { write_only = 1; read_write = 2; create = 64; truncate = 512; append = 1024 }

pub record ParsedFlags : Type 0 where
  pub read : Bool
  pub write : Bool
  pub create : Bool
  pub truncate : Bool
  pub append : Bool

pub data OpenFlags : Type 0 where
  no_flags : OpenFlags
  words : Text → OpenFlags
  bits : ℕ → OpenFlags
  options : Option Bool → Option Bool → Option Bool → Option Bool → Option Bool → OpenFlags

abbrev pub starts_with_r : Text → Bool
starts_with_r [] = false
starts_with_r (c ∷ cs) = c == b'r'

-- `(flags & bit) === bit` for a power of two.
abbrev pub has_bit : ℕ → ℕ → Bool
has_bit flags bit = flags / bit % 2 == 1

unfoldable pub parse_flags : OpenFlags → Platform → ParsedFlags
parse_flags no_flags platform = record {
  read = true;
  write = false;
  create = false;
  truncate = false;
  append = false;
}
parse_flags (words t) platform = record {
  read = contains t b'+' || starts_with_r t;
  write = contains t b'w' || contains t b'a' || contains t b'+';
  create = contains t b'w' || contains t b'a';
  truncate = contains t b'w';
  append = contains t b'a';
}
parse_flags (bits flags) platform =
    let table = flag_table platform in
    let access = flags % 4 in
    record {
      read = access == 0 || access == table.read_write;
      write = access == table.write_only || access == table.read_write;
      create = has_bit flags table.create;
      truncate = has_bit flags table.truncate;
      append = has_bit flags table.append;
    }
parse_flags (options read write create truncate append) platform = record {
  read = or_else read (not (or_else write false));
  write = or_else write false;
  create = or_else create false;
  truncate = or_else truncate false;
  append = or_else append false;
}
