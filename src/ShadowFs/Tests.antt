-- ===== src/ShadowFs/Tests.antt =====
-- A small file and a small directory, and the theorems on shadowFS at them.
use acorn_os.Pmm.{Pmm}
use acorn_os.Strings.{kstreq}
use acorn_os.ShadowFs.File.{
  Inode, ok, panic, Env, block_size, block_header, shadowfs_write, shadowfs_read, shadowfs_truncate,
}
use acorn_os.ShadowFs.File.Blocks.{contents, IsFile}
use acorn_os.ShadowFs.File.Write.{Wrote, shadowfs_write_lem}
use acorn_os.ShadowFs.File.Read.{shadowfs_read_lem, shadowfs_read-write}
use acorn_os.ShadowFs.File.Truncate.{shadowfs_truncate_lem}
use acorn_os.ShadowFs.Dir.{
  Fs, type_file, empty_file, find_entry, shadowfs_create, shadowfs_lookup, shadowfs_delete,
}
use acorn_os.ShadowFs.Dir.Create.{shadowfs_create_lem}
use acorn_os.Common.{
  ℕ, ◌+◌, ◌*◌, ◌≤◌, ◌≡◌, refl, ◌↔◌, ◌⊎◌, inl, true, false, none, some, List, [], ◌∷◌, arith, length,
  set, take, drop, replicate, length-replicate, add32,
}

abbrev zeros : ℕ → List ℕ
zeros p = replicate block_size 0

abbrev one_file : Inode
one_file = record {
  blocks = record { page = 0x8000; data_bytes = zeros 0x8000; used = 3 } ∷ [];
  block_count = 1;
  size = 3;
  modified = 0;
  accessed = 0;
}

abbrev free_page : Pmm
free_page = record { bitmap = λ i. 3; total_pages = 4; used_pages = 2 }

abbrev opened_file : Env
opened_file = record {
  inode = one_file;
  mount = record { quota = 8192; used = 24 };
  position = 0;
  pmm = free_page;
}

abbrev greeting : List ℕ
greeting = 72 ∷ 105 ∷ []

zeros-length : (p : ℕ) → length (zeros p) ≡ block_size
zeros-length p = length-replicate {A = ℕ} block_size 0

one_file-IsFile : IsFile one_file
one_file-IsFile = record {
  blocks_ok = (zeros-length 0, omega arith, tt);
  sized = refl;
  small = omega arith;
}

abbrev after_write : Env
after_write = record {
  inode = record {
    blocks =
        record { page = 0x8000; data_bytes = set (set (zeros 0x8000) 3 72) 4 105; used = 5 } ∷ [];
    block_count = 1;
    size = 5;
    modified = 9;
    accessed = 0;
  };
  mount = record { quota = 8192; used = 24 };
  position = 2;
  pmm = free_page;
}

shadowfs_write_test : shadowfs_write zeros 9 opened_file greeting ≡ ok (after_write, 2)
unfolding shadowfs_write
shadowfs_write_test = refl

abbrev root_fs : Fs
root_fs = record {
  mount = record { quota = 8192; used = 0 };
  next_inode_num = 2;
  kind = λ i. 2;
  inode_num = λ i. 1;
  file = λ i. empty_file 0;
  dir = λ i. record { entries = []; count = 0 };
  pmm = free_page;
}

abbrev page_of : ℕ
page_of = 0x9000

abbrev file_name : List ℕ
file_name = 97 ∷ []

no_entry : find_entry (root_fs.dir 1).entries file_name ≡ none
unfolding find_entry
no_entry = refl

shadowfs_write_lem_example :
    (shadowfs_write zeros 9 opened_file greeting ≡ panic)
    ⊎ ((e' : Env) × (n : ℕ) × (shadowfs_write zeros 9 opened_file greeting ≡ ok (e', n))
        × Wrote opened_file greeting e' n)
shadowfs_write_lem_example =
    shadowfs_write_lem zeros 9 opened_file greeting zeros-length (omega arith) one_file-IsFile
      (omega arith) (omega arith)

shadowfs_read_lem_example :
    ((shadowfs_read 9 opened_file 2).1
      ≡ take 2 (drop opened_file.position (contents opened_file.inode.blocks)))
    × ((shadowfs_read 9 opened_file 2).0.position
        ≡ add32 opened_file.position (length (shadowfs_read 9 opened_file 2).1))
    × ((shadowfs_read 9 opened_file 2).0.inode.blocks ≡ opened_file.inode.blocks)
    × ((shadowfs_read 9 opened_file 2).0.inode.size ≡ opened_file.inode.size)
shadowfs_read_lem_example =
    shadowfs_read_lem 9 2 opened_file one_file-IsFile (omega arith) (omega arith)

shadowfs_read-write_example :
    (shadowfs_read 10 (record after_write { position = opened_file.inode.size }) 2).1
    ≡ take 2 greeting
shadowfs_read-write_example =
    shadowfs_read-write zeros 9 10 opened_file greeting after_write 2 zeros-length (omega arith)
      one_file-IsFile (omega arith) (omega arith) shadowfs_write_test

shadowfs_truncate_lem_example :
    (contents (shadowfs_truncate opened_file 2).inode.blocks
      ≡ take 2 (contents opened_file.inode.blocks))
    × ((shadowfs_truncate opened_file 2).inode.size ≡ 2)
    × (2 ≤ opened_file.inode.size ↔ IsFile (shadowfs_truncate opened_file 2).inode)
    × ((shadowfs_truncate opened_file 2).mount.used + block_header * length opened_file.inode.blocks
        ≡ opened_file.mount.used
          + block_header * length (shadowfs_truncate opened_file 2).inode.blocks)
shadowfs_truncate_lem_example =
    shadowfs_truncate_lem opened_file 2 one_file-IsFile (omega arith) (omega arith) (omega arith)

shadowfs_create_lem_example :
    (fs' : Fs) × (shadowfs_create root_fs 1 file_name type_file page_of 9 ≡ some (fs', page_of))
    × (shadowfs_lookup fs' 1 file_name ≡ page_of)
    × ((m : List ℕ)
        → kstreq file_name m ≡ false
        → shadowfs_lookup fs' 1 m ≡ shadowfs_lookup root_fs 1 m)
    × ((fs'' : Fs) × (shadowfs_delete fs' 1 file_name ≡ (fs'', true))
        × (fs''.dir 1 ≡ root_fs.dir 1)
        × (fs''.mount ≡ root_fs.mount))
shadowfs_create_lem_example =
    shadowfs_create_lem root_fs 1 file_name type_file page_of 9 (λ e. omega arith)
      (λ e. omega arith) (omega arith, tt) (omega arith) (inl refl) (omega arith) (omega arith)
      (omega arith) no_entry
