-- ===== src/Tests/Files.antt =====
-- DB::Open and DBImpl::~DBImpl of src/db_impl.cpp on small inputs.
use atomkv.Prelude.{ℕ, ◌+◌, ◌*◌, ◌%◌, ◌^◌, ◌≤◌, ◌<◌, ◌≡◌, ◌≢◌, arith, false, []}
use atomkv.Format.{MetaStruct, u32_mod}
use atomkv.Db.{update_in_place, Db}
use atomkv.Opening.{Options, Files, close_file}
use atomkv.Opening.CloseSize.{close_file-size}
use atomkv.Tests.Database.{meta, space}
use atomkv.Tests.Metas.{file}

abbrev options : Options
options = record {
  page_size = 0;
  read_only = false;
  sync = false;
  mode = update_in_place;
  max_wal_size = 1000;
}

abbrev files : Files ℕ
files = record {
  meta_file = file;
  db_file = space.file;
  log = 0;
  log_size = 0;
  log_records = [];
  shm_meta = meta;
  sync_error = false;
}

-- The meta data of a file of 4 GiB and ten pages.
abbrev large : MetaStruct
large = record meta { page_count = 2 ^ 20 + 10 }

close_file-size_example :
    (4096 * large.page_count < u32_mod
      → (close_file 4096 large space.file).size ≡ 4096 * large.page_count)
    × (u32_mod ≤ 4096 * large.page_count
        → (4096 * large.page_count) % u32_mod ≢ 0
        → (close_file 4096 large space.file).size < 4096 * large.page_count)
close_file-size_example = close_file-size 4096 large space.file (omega arith)
