-- ===== src/Page.antt =====
-- Pages: src/kernel/page.h and page.c.
pub mod Buddy
pub mod Find
pub mod Slab
use cyanurus.Base.{ℕ, ◌+◌, ◌*◌}

-- PAGE_SIZE, PAGE_START, PAGE_NUM
abbrev pub page_size : ℕ
page_size = 0x1000

abbrev pub page_start : ℕ
page_start = 0x6500_0000

abbrev pub page_num : ℕ
page_num = 0x4000

abbrev pub page_address : ℕ → ℕ
page_address index = page_start + page_size * index
